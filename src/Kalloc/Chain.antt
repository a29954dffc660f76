-- ===== src/Kalloc/Chain.antt =====
-- The free list as a stack of pages.
use exp.Base.{ℕ, ◌≡◌, ◌≢◌, refl, sym, false, List, [], ◌∷◌, All, arith, done, ==_self, subst}
use exp.Kalloc.{Kmem, link, bad_page, kfree, kalloc}

-- From pointer `h` on the list runs through the pages `ps`.
abbrev pub Chain : (ℕ → ℕ) → ℕ → List ℕ → Type 0
Chain next h [] = h ≡ 0
Chain next h (p ∷ ps) = (h ≡ p) × (p ≢ 0) × Chain next (next p) ps

-- The free pages are `ps`, and none of them twice.
abbrev pub Fresh : ℕ → List ℕ → Type 0
Fresh p ps = All (λ q. p ≢ q) ps

abbrev pub Distinct : List ℕ → Type 0
Distinct [] = Unit
Distinct (p ∷ ps) = Fresh p ps × Distinct ps

pub record Holds (m : Kmem) (ps : List ℕ) : Type 0 where
  pub chain : Chain m.next m.freelist ps
  pub distinct : Distinct ps

Chain-link :
    (next : ℕ → ℕ) (v w h : ℕ) (ps : List ℕ)
    → Fresh v ps
    → Chain next h ps
    → Chain (link next v w) h ps
Chain-link next v w h [] f c = c
Chain-link next v w h (p ∷ ps) f c = (
  c.0,
  c.1,
  Chain-link next v w (link next v w p) ps f.1 (subst (λ x. Chain next x ps) (ground arith) c.2),
)

-- `kfree` of a page that is not free pushes it on the list.
pub kfree_lem :
    (kernel_end v : ℕ) (m : Kmem) (ps : List ℕ)
    → bad_page kernel_end v ≡ false
    → v ≢ 0
    → Fresh v ps
    → Holds m ps
    → (m' : Kmem) × (kfree kernel_end v m ≡ done m') × Holds m' (v ∷ ps)
unfolding kfree
kfree_lem kernel_end v m ps good some_page f h = (
  record { freelist = v; next = link m.next v m.freelist },
  ground arith,
  record {
    chain = (
      refl,
      some_page,
      subst (λ x. Chain (link m.next v m.freelist) x ps) (ground (arith, ==_self v))
          (Chain-link m.next v m.freelist m.freelist ps f h.chain),
    );
    distinct = (f, h.distinct);
  },
)

-- `kalloc` pops the page that was freed last, which is then free no more; it returns null exactly
-- when no page is free, and then changes nothing.
pub kalloc_lem :
    (m : Kmem)
    → (Holds m [] → kalloc m ≡ (0, m))
      × ((p : ℕ) (ps : List ℕ)
          → Holds m (p ∷ ps)
          → (m' : Kmem) × (kalloc m ≡ (p, m')) × (p ≢ 0) × Holds m' ps × Fresh p ps)
unfolding kalloc
kalloc_lem m = (
  λ h. ground (arith, h.chain),
  λ p ps h. (
    record m { freelist = m.next m.freelist },
    ground (arith, h.chain),
    h.chain.1,
    record {
      chain = subst (λ x. Chain m.next (m.next x) ps) (sym h.chain.0) h.chain.2;
      distinct = h.distinct.1;
    },
    h.distinct.0,
  ),
)
