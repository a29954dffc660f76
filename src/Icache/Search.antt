-- ===== src/Icache/Search.antt =====
-- What the loop of `iget` finds.
use exp.Base.{
  ℕ, zero, suc, ◌+◌, ◌<◌, ◌==◌, ◌≡◌, ◌≢◌, ◌⊎◌, inl, inr, refl, ap, subst, true, false, Option, none,
  some, List, [], ◌∷◌, get_elem?, if◌then◌else◌, arith, Bool-cases,
}
use exp.Inode.{Inode}
use exp.Icache.{Found, hit, miss, holds, remember, iget_scan}

unfoldable pub Scanned : ℕ → ℕ → List Inode → ℕ → Option ℕ → Found → Type 0
Scanned dev inum l k empty (hit i) =
    (j : ℕ) × (ip : Inode) × (i ≡ k + j) × (get_elem? l j ≡ some ip) × (holds dev inum ip ≡ true)
Scanned dev inum l k empty (miss none) =
    ((j : ℕ) (ip : Inode) → get_elem? l j ≡ some ip → holds dev inum ip ≡ false)
    × ((j : ℕ) (ip : Inode) → get_elem? l j ≡ some ip → ip.ref ≢ 0)
    × (empty ≡ none)
Scanned dev inum l k empty (miss (some i)) =
    ((j : ℕ) (ip : Inode) → get_elem? l j ≡ some ip → holds dev inum ip ≡ false)
    × ((empty ≡ some i)
        ⊎ ((empty ≡ none)
            × (j : ℕ) × (ip : Inode) × (i ≡ k + j)
            × (get_elem? l j ≡ some ip)
            × (ip.ref ≡ 0)
            × ((m : ℕ) (mp : Inode) → m < j → get_elem? l m ≡ some mp → mp.ref ≢ 0)))

pub some_eq : (a b : Inode) → (some a ≡ some b) → a ≡ b
some_eq a b e = ap (λ o. elim o [ none ↦ a | some x ↦ x ]) e

each :
    (P : Inode → Type 0) (x : Inode) (l : List Inode)
    → P x
    → ((j : ℕ) (ip : Inode) → get_elem? l j ≡ some ip → P ip)
    → (j : ℕ) (ip : Inode) → get_elem? (x ∷ l) j ≡ some ip
    → P ip
each P x l p h zero ip e = subst P (some_eq x ip e) p
each P x l p h (suc j) ip e = h j ip e

earlier :
    (x : Inode) (l : List Inode) (j : ℕ)
    → x.ref ≢ 0
    → ((m : ℕ) (mp : Inode) → m < j → get_elem? l m ≡ some mp → mp.ref ≢ 0)
    → (m : ℕ) (mp : Inode) → m < suc j
    → get_elem? (x ∷ l) m ≡ some mp
    → mp.ref ≢ 0
earlier x l j busy h zero mp lt e = subst (λ y. y.ref ≢ 0) (some_eq x mp e) busy
earlier x l j busy h (suc m) mp lt e = h m mp (omega arith) e

remembered_none :
    (empty : Option ℕ) (k : ℕ) (x : Inode)
    → remember empty k x ≡ none
    → (empty ≡ none) × (x.ref ≢ 0)
remembered_none none k x e = (refl, λ z. taken (x.ref) z e)
  where
    taken : (r : ℕ) → r ≡ 0 → (if r == 0 then some k else none) ≡ none → ⊥
    taken r z e = ground arith
remembered_none (some i) k x e = cc

remembered_some :
    (empty : Option ℕ) (k i : ℕ) (x : Inode)
    → remember empty k x ≡ some i
    → (empty ≡ some i) ⊎ ((empty ≡ none) × (i ≡ k) × (x.ref ≡ 0))
remembered_some none k i x e = let (here, z) = fresh x.ref e in inr (refl, here, z)
  where
    fresh : (r : ℕ) → (if r == 0 then some k else none) ≡ some i → (i ≡ k) × (r ≡ 0)
    fresh r e = ground arith
remembered_some (some e') k i x e = inl e

Scanned-later :
    (dev inum : ℕ) (x : Inode) (l : List Inode) (k : ℕ) (empty : Option ℕ) (f : Found)
    → holds dev inum x ≡ false
    → Scanned dev inum l (k + 1) (remember empty k x) f
    → Scanned dev inum (x ∷ l) k empty f
unfolding Scanned
Scanned-later dev inum x l k empty (hit i) other (j, ip, e, at, h) = (suc j, ip, omega arith, at, h)
Scanned-later dev inum x l k empty (miss none) other (all, busy, e) = (
  each (λ ip. holds dev inum ip ≡ false) x l other all,
  each (λ ip. ip.ref ≢ 0) x l (remembered_none empty k x e).1 busy,
  (remembered_none empty k x e).0,
)
Scanned-later dev inum x l k empty (miss (some i)) other (all, inl e) = (
  each (λ ip. holds dev inum ip ≡ false) x l other all,
  elim (remembered_some empty k i x e) [
    | inl e' ↦ inl e'
    | inr (fresh, here, z) ↦
        inr (fresh, 0, x, omega arith, refl, z, λ m mp lt. absurd (omega arith))
  ],
)
Scanned-later dev inum x l k empty (miss (some i)) other
      (all, inr (fresh, j, ip, e, at, z, first)) =
    let (clear, busy) = remembered_none empty k x fresh in
    (
      each (λ ip. holds dev inum ip ≡ false) x l other all,
      inr (clear, suc j, ip, omega arith, at, z, earlier x l j busy first),
    )

pub iget_scan-Scanned :
    (dev inum : ℕ) (l : List Inode) (k : ℕ) (empty : Option ℕ)
    → Scanned dev inum l k empty (iget_scan dev inum l k empty)
unfolding Scanned iget_scan
iget_scan-Scanned dev inum [] k none = (λ j ip e. cc, λ j ip e. cc, refl)
iget_scan-Scanned dev inum [] k (some i) = (λ j ip e. cc, inl refl)
iget_scan-Scanned dev inum (x ∷ l) k empty = elim (Bool-cases (holds dev inum x)) [
  | inl e ↦ rw e (0, x, omega arith, refl, e)
  | inr other ↦ rw other (
      Scanned-later dev inum x l k empty _ other
        (iget_scan-Scanned dev inum l (k + 1) (remember empty k x)))
]
