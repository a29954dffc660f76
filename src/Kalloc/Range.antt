-- ===== src/Kalloc/Range.antt =====
-- `freerange` puts every whole page of its range on the free list.
use exp.Base.{
  ℕ, zero, suc, ◌+◌, ◌*◌, ◌%◌, ◌/◌, ◌≤◌, ◌<◌, ◌≡◌, refl, false, List, [], ◌∷◌, All, arith, Outcome,
  done, Bool-cases, inl, inr, ◌⊎◌, leb, leb→le,
}
use exp.Kalloc.{
  Kmem, page_size, kern_base, phys_top, bad_page, page_round_up, free_pages, freerange,
}
use exp.Kalloc.Chain.{Holds, Fresh, kfree_lem}

-- The `n` pages from `p` on, the last on top of the pages that were free before.
abbrev pub pushed : ℕ → ℕ → List ℕ → List ℕ
pushed zero p ps = ps
pushed (suc n) p ps = pushed n (p + page_size) (p ∷ ps)

-- The range lies in the memory that the kernel manages.
pub record InMemory (kernel_end p vend : ℕ) : Type 0 where
  pub aligned : p % page_size ≡ 0
  pub above : kernel_end ≤ p
  pub base : kern_base ≤ p
  pub top : vend ≤ kern_base + phys_top

abbrev Below : ℕ → List ℕ → Type 0
Below p ps = All (λ q. q < p) ps

Below-Fresh : (p : ℕ) (ps : List ℕ) → Below p ps → Fresh p ps
Below-Fresh p [] b = tt
Below-Fresh p (q ∷ ps) b = (omega (arith, b.0), Below-Fresh p ps b.1)

Below-mono : (p q : ℕ) (ps : List ℕ) → p ≤ q → Below p ps → Below q ps
Below-mono p q [] h b = tt
Below-mono p q (r ∷ ps) h b = (omega (arith, b.0), Below-mono p q ps h b.1)

good_page :
    (kernel_end p vend : ℕ)
    → InMemory kernel_end p vend
    → p + page_size ≤ vend
    → bad_page kernel_end p ≡ false
good_page kernel_end p vend v h = ground arith

pub record Freed (kernel_end p vend : ℕ) (ps : List ℕ) (r : Outcome Kmem) : Type 0 where
  pub pages : ℕ
  pub inside : p + pages * page_size ≤ vend ⊎ pages ≡ 0
  pub whole : vend < p + suc pages * page_size
  pub after : Kmem
  pub returns : r ≡ done after
  pub holds : Holds after (pushed pages p ps)

free_pages-Freed :
    (fuel kernel_end p vend : ℕ) (m : Kmem) (ps : List ℕ)
    → 0 < fuel
    → vend < p + fuel * page_size
    → InMemory kernel_end p vend
    → Below p ps
    → Holds m ps
    → Freed kernel_end p vend ps (free_pages fuel kernel_end p vend m)
unfolding free_pages
free_pages-Freed zero kernel_end p vend m ps some_fuel big v b h = absurd (omega arith)
free_pages-Freed (suc fuel) kernel_end p vend m ps some_fuel big v b h =
    elim (Bool-cases (leb (p + page_size) vend)) [
      | inl more ↦
          let (m', freed, h') =
            kfree_lem kernel_end p m ps
              (good_page kernel_end p vend v (leb→le (p + page_size) vend more))
              (omega (arith, v.base)) (Below-Fresh p ps b) h in
          let w : Freed kernel_end (p + page_size) vend (p ∷ ps)
              (free_pages fuel kernel_end (p + page_size) vend m') =
            free_pages-Freed fuel kernel_end (p + page_size) vend m' (p ∷ ps)
              (omega (arith, leb→le (p + page_size) vend more)) (omega arith)
              (record {
                aligned = omega (arith, v.aligned);
                above = omega (arith, v.above);
                base = omega (arith, v.base);
                top = v.top;
              })
              (omega arith, Below-mono p (p + page_size) ps (omega arith) b) h' in
          rw (more, freed)
            (record {
              pages = suc w.pages;
              inside = inl (omega (arith, w.inside, leb→le (p + page_size) vend more));
              whole = omega (arith, w.whole);
              after = w.after;
              returns = w.returns;
              holds = w.holds;
            })
      | inr last ↦ rw last (record {
        pages = 0;
        inside = inr refl;
        whole = ground arith;
        after = m;
        returns = refl;
        holds = h;
      })
    ]

-- `freerange` on a range of managed memory that lies above all free pages returns, with the fuel
-- that it has, and frees every page that lies whole in the range, from the first page boundary on,
-- and no other: the free list is then those pages, the last on top, before the old ones.
pub freerange_lem :
    (kernel_end vstart vend : ℕ) (m : Kmem) (ps : List ℕ)
    → kernel_end ≤ vstart
    → kern_base ≤ vstart
    → vend ≤ kern_base + phys_top
    → All (λ q. q < vstart) ps
    → Holds m ps
    → Freed kernel_end (page_round_up vstart) vend ps (freerange kernel_end vstart vend m)
unfolding freerange
freerange_lem kernel_end vstart vend m ps above base top b h =
    free_pages-Freed (vend / page_size + 1) kernel_end (page_round_up vstart) vend m ps
      (omega arith) (omega arith)
      (record { aligned = omega arith; above = omega arith; base = omega arith; top = top })
      (Below-mono vstart (page_round_up vstart) ps (omega arith) b) h
