-- ===== src/Bcache/Unique.antt =====
-- `bget`: one buffer for each block, and none is recycled that is in use.
use exp.Base.{
  ℕ, ◌+◌, ◌<◌, ◌≡◌, ◌≢◌, ◌⊎◌, inl, inr, refl, ap, sym, ◌∙◌, subst, true, false, some, List,
  get_elem?, arith, ℕ_discrete, Option-cases, done, panic,
}
use exp.Bcache.{Buf, change, caches, unused, find_cached, find_unused, refer, recycle, bget_find}
use exp.Bcache.Find.{
  some_eq, Cached, LastUnused, find_cached-Cached, find_unused-LastUnused, get_elem?-change_self,
  get_elem?-change_other,
}

-- No block has two buffers. Device 0 is that of a buffer that never had a block.
abbrev pub IsBcache : List Buf → Type 0
IsBcache l =
    (i j : ℕ) (b c : Buf)
    → get_elem? l i ≡ some b
    → get_elem? l j ≡ some c
    → b.dev ≢ 0
    → caches c.dev c.blockno b ≡ true
    → i ≡ j

caches_sym : (b c : Buf) → caches c.dev c.blockno b ≡ true → caches b.dev b.blockno c ≡ true
caches_sym b c h = ground arith

caches-dev : (b c : Buf) → caches c.dev c.blockno b ≡ true → b.dev ≡ c.dev
caches-dev b c h = ground arith

caches-recycle :
    (dev blockno : ℕ) (b c : Buf)
    → caches c.dev c.blockno (recycle dev blockno b) ≡ true
    → caches dev blockno c ≡ true
caches-recycle dev blockno b c h = ground arith

pub IsBcache-change :
    (l : List Buf) (i : ℕ) (f : Buf → Buf) (b : Buf)
    → IsBcache l
    → get_elem? l i ≡ some b
    → ((j : ℕ) (c : Buf)
        → get_elem? l j ≡ some c
        → i ≢ j
        → c.dev ≢ 0
        → caches c.dev c.blockno (f b) ≢ true)
    → IsBcache (change l i f)
IsBcache-change l i f b u at apart p q bp bq ep eq nz h = elim (ℕ_discrete i p) [
  | yes ip ↦ elim (ℕ_discrete i q) [
    | yes iq ↦ sym ip ∙ iq
    | no nq ↦ absurd (
        apart q bq (sym (get_elem?-change_other l i q f nq) ∙ eq) nq
          (λ z. nz (caches-dev bp bq h ∙ z)) (ap (caches bq.dev bq.blockno) (here p bp ip ep) ∙ h))
  ]
  | no np ↦ elim (ℕ_discrete i q) [
    | yes iq ↦ absurd (
        apart p bp (sym (get_elem?-change_other l i p f np) ∙ ep) np nz
          (ap (caches bp.dev bp.blockno) (here q bq iq eq) ∙ caches_sym bp bq h))
    | no nq ↦
        u p q bp bq (sym (get_elem?-change_other l i p f np) ∙ ep)
          (sym (get_elem?-change_other l i q f nq) ∙ eq) nz h
  ]
]
  where
    here : (k : ℕ) (c : Buf) → i ≡ k → get_elem? (change l i f) k ≡ some c → f b ≡ c
    here k c e e' =
        some_eq (f b) c
          (sym (get_elem?-change_self l i f b at) ∙ ap (get_elem? (change l i f)) e ∙ e')

-- The buffer that `bget` takes: the block's, with one reference more; or else the last one of the
-- list, which is the least recently used, that has no reference and nothing to be written.
pub record Taken (dev blockno : ℕ) (l : List Buf) (i : ℕ) (l' : List Buf) : Type 0 where
  pub old : Buf
  pub new : Buf
  pub was : get_elem? l i ≡ some old
  pub is : get_elem? l' i ≡ some new
  pub others : (j : ℕ) → i ≢ j → get_elem? l' j ≡ get_elem? l j
  pub is_bcache : IsBcache l'
  pub how :
      ((caches dev blockno old ≡ true) × (new ≡ record old { refcnt = old.refcnt + 1 }))
      ⊎ (((j : ℕ) (b : Buf) → get_elem? l j ≡ some b → caches dev blockno b ≡ false)
          × (old.refcnt ≡ 0)
          × (old.dirty ≡ false)
          × ((m : ℕ) (c : Buf) → i < m → get_elem? l m ≡ some c → unused c ≡ false)
          × (new ≡ record old {
            dev = dev;
            blockno = blockno;
            valid = false;
            dirty = false;
            refcnt = 1;
          }))

at_index :
    (l : List Buf) (i j : ℕ) (b : Buf) → i ≡ 0 + j → get_elem? l j ≡ some b → get_elem? l i ≡ some b
at_index l i j b e at = subst (λ k. get_elem? l k ≡ some b) {x = j} {y = i} (omega (arith, e)) at

unused-parts : (b : Buf) → unused b ≡ true → (b.refcnt ≡ 0) × (b.dirty ≡ false)
unused-parts b h = (ground arith, ground arith)

-- `bget` gives the one buffer of the block, or else recycles the least recently used buffer that has
-- no reference and nothing to be written. It panics exactly if there is neither. No block gets a
-- second buffer, and all other buffers stay as they are.
pub bget_find_lem :
    (dev blockno : ℕ) (l : List Buf)
    → IsBcache l
    → ((bget_find dev blockno l ≡ panic)
        × ((j : ℕ) (b : Buf)
            → get_elem? l j ≡ some b
            → (caches dev blockno b ≡ false) × (unused b ≡ false)))
      ⊎ ((i : ℕ) × (l' : List Buf) × (bget_find dev blockno l ≡ done (i, l'))
          × Taken dev blockno l i l')
unfolding Cached LastUnused bget_find
bget_find_lem dev blockno l u = elim (Option-cases (find_cached dev blockno l 0)) [
  | inr (i, e) ↦
      let (j, b, here, at, h) =
        subst (Cached dev blockno l 0) e (find_cached-Cached dev blockno l 0) in
      let at' = at_index l i j b here at in
      inr (
        i,
        change l i refer,
        rw (e, bget_find) refl,
        record {
          old = b;
          new = refer b;
          was = at';
          is = get_elem?-change_self l i refer b at';
          others = λ k ne. get_elem?-change_other l i k refer ne;
          is_bcache =
              IsBcache-change l i refer b u at' (λ k c ec ne nz h'.
                ne (u i k b c at' ec (λ z. nz (sym (caches-dev b c h') ∙ z)) h'));
          how = inl (h, refl);
        },
      )
  | inl e ↦
      let all : (j : ℕ) (b : Buf) → get_elem? l j ≡ some b → caches dev blockno b ≡ false =
        subst (Cached dev blockno l 0) e (find_cached-Cached dev blockno l 0) in
      elim (Option-cases (find_unused l 0)) [
        | inl e' ↦
            let busy : (j : ℕ) (b : Buf) → get_elem? l j ≡ some b → unused b ≡ false =
              subst (LastUnused l 0) e' (find_unused-LastUnused l 0) in
            inl (rw (e, bget_find, e') refl, λ j b at. (all j b at, busy j b at))
        | inr (i, e') ↦
            let (j, b, here, at, free, last) =
              subst (LastUnused l 0) e' (find_unused-LastUnused l 0) in
            let at' = at_index l i j b here at in
            let (no_refs, clean) = unused-parts b free in
            inr (
              i,
              change l i (recycle dev blockno),
              rw (e, bget_find, e') refl,
              record {
                old = b;
                new = recycle dev blockno b;
                was = at';
                is = get_elem?-change_self l i (recycle dev blockno) b at';
                others = λ k ne. get_elem?-change_other l i k (recycle dev blockno) ne;
                is_bcache =
                    IsBcache-change l i (recycle dev blockno) b u at'
                      (λ k c ec ne nz h. cc (all k c ec, caches-recycle dev blockno b c h));
                how =
                    inr (
                      all,
                      no_refs,
                      clean,
                      λ m c lt ec. last m c (omega (arith, here, lt)) ec,
                      refl,
                    );
              },
            )
      ]
]
