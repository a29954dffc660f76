-- ===== src/Icache/Cache.antt =====
-- `iget` gives one entry for each inode.
use exp.Base.{
  ℕ, zero, suc, ◌+◌, ◌<◌, ◌≡◌, ◌≢◌, ◌⊎◌, inl, inr, refl, ap, sym, ◌∙◌, subst, true, false, none,
  some, List, [], ◌∷◌, get_elem?, arith, ℕ_discrete, done, panic,
}
use exp.Inode.{Inode}
use exp.Icache.{Found, hit, miss, holds, iget_scan, update, refer, recycle, iget}
use exp.Icache.Search.{Scanned, some_eq, iget_scan-Scanned}

-- Entry `ip` is in use, for inode `inum` of device `dev`.
abbrev pub IsEntry : ℕ → ℕ → Inode → Type 0
IsEntry dev inum ip = (0 < ip.ref) × (ip.dev ≡ dev) × (ip.inum ≡ inum)

-- No inode is in the cache twice.
abbrev pub IsCache : List Inode → Type 0
IsCache l =
    (i j : ℕ) (ip jp : Inode)
    → get_elem? l i ≡ some ip
    → get_elem? l j ≡ some jp
    → IsEntry jp.dev jp.inum ip
    → 0 < jp.ref
    → i ≡ j

pub holds-IsEntry : (dev inum : ℕ) (ip : Inode) → holds dev inum ip ≡ true → IsEntry dev inum ip
holds-IsEntry dev inum ip h = (ground arith, ground arith, ground arith)

IsEntry-holds : (dev inum : ℕ) (ip : Inode) → IsEntry dev inum ip → holds dev inum ip ≡ true
IsEntry-holds dev inum ip (used, same_dev, same_inum) = ground arith

not_entry : (dev inum : ℕ) (ip : Inode) → holds dev inum ip ≡ false → IsEntry dev inum ip → ⊥
not_entry dev inum ip h v = cc (IsEntry-holds dev inum ip v)

-- The same, by the test of the code.
abbrev Unique : List Inode → Type 0
Unique l =
    (i j : ℕ) (ip jp : Inode)
    → get_elem? l i ≡ some ip
    → get_elem? l j ≡ some jp
    → holds jp.dev jp.inum ip ≡ true
    → 0 < jp.ref
    → i ≡ j

IsCache-Unique : (l : List Inode) → IsCache l → Unique l
IsCache-Unique l c i j ip jp at at' h lt = c i j ip jp at at' (holds-IsEntry jp.dev jp.inum ip h) lt

get_elem?-update_self :
    (l : List Inode) (i : ℕ) (f : Inode → Inode) (ip : Inode)
    → get_elem? l i ≡ some ip
    → get_elem? (update l i f) i ≡ some (f ip)
get_elem?-update_self [] i f ip e = cc
get_elem?-update_self (x ∷ l) zero f ip e = ap (λ y. some (f y)) (some_eq x ip e)
get_elem?-update_self (x ∷ l) (suc i) f ip e = get_elem?-update_self l i f ip e

get_elem?-update_other :
    (l : List Inode) (i j : ℕ) (f : Inode → Inode)
    → i ≢ j
    → get_elem? (update l i f) j ≡ get_elem? l j
get_elem?-update_other [] i j f ne = refl
get_elem?-update_other (x ∷ l) zero zero f ne = absurd (ne refl)
get_elem?-update_other (x ∷ l) zero (suc j) f ne = refl
get_elem?-update_other (x ∷ l) (suc i) zero f ne = refl
get_elem?-update_other (x ∷ l) (suc i) (suc j) f ne =
    get_elem?-update_other l i j f (λ e. ne (ap suc e))

holds_sym :
    (a b : Inode)
    → holds b.dev b.inum a ≡ true
    → 0 < b.ref
    → (holds a.dev a.inum b ≡ true) × (0 < a.ref)
holds_sym a b h lt = (ground arith, ground arith)

Unique-update :
    (l : List Inode) (i : ℕ) (f : Inode → Inode) (ip : Inode)
    → Unique l
    → get_elem? l i ≡ some ip
    → ((j : ℕ) (jp : Inode)
        → get_elem? l j ≡ some jp
        → i ≢ j
        → 0 < jp.ref
        → holds jp.dev jp.inum (f ip) ≢ true)
    → Unique (update l i f)
Unique-update l i f ip c at apart p q pp qp ep eq h lt = elim (ℕ_discrete i p) [
  | yes ip_ ↦ elim (ℕ_discrete i q) [
    | yes iq ↦ sym ip_ ∙ iq
    | no nq ↦ absurd (
        apart q qp (sym (get_elem?-update_other l i q f nq) ∙ eq) nq lt
          (ap (λ y. holds qp.dev qp.inum y) (here p pp ip_ ep) ∙ h))
  ]
  | no np ↦ elim (ℕ_discrete i q) [
    | yes iq ↦
        let (h', lt') = holds_sym pp qp h lt in
        absurd (
          apart p pp (sym (get_elem?-update_other l i p f np) ∙ ep) np lt'
            (ap (λ y. holds pp.dev pp.inum y) (here q qp iq eq) ∙ h'))
    | no nq ↦
        c p q pp qp (sym (get_elem?-update_other l i p f np) ∙ ep)
          (sym (get_elem?-update_other l i q f nq) ∙ eq) h lt
  ]
]
  where
    here : (q : ℕ) (qp : Inode) → i ≡ q → get_elem? (update l i f) q ≡ some qp → f ip ≡ qp
    here q qp e eq =
        some_eq (f ip) qp
          (sym (get_elem?-update_self l i f ip at) ∙ ap (get_elem? (update l i f)) e ∙ eq)

-- An entry that is the inode of no other entry.
pub IsCache-update :
    (l : List Inode) (i : ℕ) (f : Inode → Inode) (ip : Inode)
    → IsCache l
    → get_elem? l i ≡ some ip
    → ((j : ℕ) (jp : Inode)
        → get_elem? l j ≡ some jp
        → i ≢ j
        → 0 < jp.ref
        → holds jp.dev jp.inum (f ip) ≢ true)
    → IsCache (update l i f)
IsCache-update l i f ip c at apart p q pp qp at_p at_q v lt =
    Unique-update l i f ip (IsCache-Unique l c) at apart p q pp qp at_p at_q
      (IsEntry-holds qp.dev qp.inum pp v) lt

-- The entry that `iget` gives: that of the inode, with one reference more, or the first empty one,
-- that is now the inode's and has to be loaded.
pub record Got (dev inum : ℕ) (l : List Inode) (i : ℕ) (l' : List Inode) : Type 0 where
  pub old : Inode
  pub new : Inode
  pub was : get_elem? l i ≡ some old
  pub is : get_elem? l' i ≡ some new
  pub others : (j : ℕ) → i ≢ j → get_elem? l' j ≡ get_elem? l j
  pub is_cache : IsCache l'
  pub how :
      (IsEntry dev inum old × (new ≡ record old { ref = old.ref + 1 }))
      ⊎ (((j : ℕ) (jp : Inode) → get_elem? l j ≡ some jp → IsEntry dev inum jp → ⊥)
          × (old.ref ≡ 0)
          × ((j : ℕ) (jp : Inode) → j < i → get_elem? l j ≡ some jp → jp.ref ≢ 0)
          × (new ≡ record old { dev = dev; inum = inum; ref = 1; valid = false }))

holds-refer :
    (a b : Inode) → holds b.dev b.inum (refer a) ≡ true → 0 < a.ref → holds b.dev b.inum a ≡ true
holds-refer a b h lt = ground arith

holds-recycle :
    (dev inum : ℕ) (a b : Inode)
    → holds b.dev b.inum (recycle dev inum a) ≡ true
    → 0 < b.ref
    → holds dev inum b ≡ true
holds-recycle dev inum a b h lt = ground arith

held : (dev inum : ℕ) (a : Inode) → holds dev inum a ≡ true → 0 < a.ref
held dev inum a h = ground arith

Got-hit :
    (dev inum : ℕ) (l : List Inode) (i : ℕ) (ip : Inode)
    → IsCache l
    → get_elem? l i ≡ some ip
    → holds dev inum ip ≡ true
    → Got dev inum l i (update l i refer)
Got-hit dev inum l i ip c at h = record {
  old = ip;
  new = refer ip;
  was = at;
  is = get_elem?-update_self l i refer ip at;
  others = λ j ne. get_elem?-update_other l i j refer ne;
  is_cache = IsCache-update l i refer ip c at (λ j jp e ne lt h'.
      ne (IsCache-Unique l c i j ip jp at e (holds-refer ip jp h' (held dev inum ip h)) lt));
  how = inl (holds-IsEntry dev inum ip h, refl);
}

Got-empty :
    (dev inum : ℕ) (l : List Inode) (i : ℕ) (ip : Inode)
    → IsCache l
    → get_elem? l i ≡ some ip
    → ip.ref ≡ 0
    → ((j : ℕ) (jp : Inode) → j < i → get_elem? l j ≡ some jp → jp.ref ≢ 0)
    → ((j : ℕ) (jp : Inode) → get_elem? l j ≡ some jp → holds dev inum jp ≡ false)
    → Got dev inum l i (update l i (recycle dev inum))
Got-empty dev inum l i ip c at z first all = record {
  old = ip;
  new = recycle dev inum ip;
  was = at;
  is = get_elem?-update_self l i (recycle dev inum) ip at;
  others = λ j ne. get_elem?-update_other l i j (recycle dev inum) ne;
  is_cache =
      IsCache-update l i (recycle dev inum) ip c at
        (λ j jp e ne lt h. cc (all j jp e, holds-recycle dev inum ip jp h lt));
  how = inr (λ j jp e. not_entry dev inum jp (all j jp e), z, first, refl);
}

at_index :
    (l : List Inode) (i j : ℕ) (ip : Inode)
    → i ≡ 0 + j
    → get_elem? l j ≡ some ip
    → get_elem? l i ≡ some ip
at_index l i j ip e at = subst (λ k. get_elem? l k ≡ some ip) {x = j} {y = i} (omega (arith, e)) at

-- `iget` gives the only entry of the inode if it is in the cache, and else the first entry without
-- references. It panics exactly if neither is there. No inode gets a second entry.
pub iget_lem :
    (dev inum : ℕ) (l : List Inode)
    → IsCache l
    → ((iget dev inum l ≡ panic)
        × ((j : ℕ) (jp : Inode)
            → get_elem? l j ≡ some jp
            → (IsEntry dev inum jp → ⊥) × (jp.ref ≢ 0)))
      ⊎ ((i : ℕ) × (l' : List Inode) × (iget dev inum l ≡ done (i, l')) × Got dev inum l i l')
unfolding iget Scanned
iget_lem dev inum l c =
    found (iget_scan dev inum l 0 none) refl (iget_scan-Scanned dev inum l 0 none)
  where
    found :
        (f : Found)
        → iget_scan dev inum l 0 none ≡ f
        → Scanned dev inum l 0 none f
        → ((iget dev inum l ≡ panic)
            × ((j : ℕ) (jp : Inode)
                → get_elem? l j ≡ some jp
                → (IsEntry dev inum jp → ⊥) × (jp.ref ≢ 0)))
          ⊎ ((i : ℕ) × (l' : List Inode) × (iget dev inum l ≡ done (i, l')) × Got dev inum l i l')
    found (hit i) e (j, ip, here, at, h) = inr (
      i,
      update l i refer,
      rw (e, iget) refl,
      Got-hit dev inum l i ip c (at_index l i j ip here at) h,
    )
    found (miss none) e (all, busy, z) =
        inl (rw (e, iget) refl, λ j jp at. (not_entry dev inum jp (all j jp at), busy j jp at))
    found (miss (some i)) e (all, inl z) = cc
    found (miss (some i)) e (all, inr (clear, j, ip, here, at, z, first)) = inr (
      i,
      update l i (recycle dev inum),
      rw (e, iget) refl,
      Got-empty dev inum l i ip c (at_index l i j ip here at) z
          (λ m mp lt. first m mp (omega (arith, here))) all,
    )
