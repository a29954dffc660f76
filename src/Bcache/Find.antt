-- ===== src/Bcache/Find.antt =====
-- `bget` has one buffer for each block, and recycles none that is in use.
use exp.Base.{
  ℕ, zero, suc, ◌+◌, ◌<◌, ◌≡◌, ◌≢◌, inl, inr, refl, ap, subst, true, false, Option, none, some,
  List, [], ◌∷◌, get_elem?, arith, Bool-cases,
}
use exp.Bcache.{Buf, change, caches, unused, find_cached, or_this, find_unused}

pub some_eq : (a b : Buf) → (some a ≡ some b) → a ≡ b
some_eq a b e = ap (λ o. elim o [ none ↦ a | some x ↦ x ]) e

each :
    (P : Buf → Type 0) (x : Buf) (l : List Buf)
    → P x
    → ((j : ℕ) (b : Buf) → get_elem? l j ≡ some b → P b)
    → (j : ℕ) (b : Buf) → get_elem? (x ∷ l) j ≡ some b
    → P b
each P x l p h zero b e = subst P (some_eq x b e) p
each P x l p h (suc j) b e = h j b e

-- The first loop: a buffer of the block, or there is none.
unfoldable pub Cached : ℕ → ℕ → List Buf → ℕ → Option ℕ → Type 0
Cached dev blockno l k none =
    (j : ℕ) (b : Buf) → get_elem? l j ≡ some b → caches dev blockno b ≡ false
Cached dev blockno l k (some i) =
    (j : ℕ) × (b : Buf) × (i ≡ k + j) × (get_elem? l j ≡ some b) × (caches dev blockno b ≡ true)

Cached-later :
    (dev blockno : ℕ) (x : Buf) (l : List Buf) (k : ℕ) (r : Option ℕ)
    → caches dev blockno x ≡ false
    → Cached dev blockno l (k + 1) r
    → Cached dev blockno (x ∷ l) k r
unfolding Cached
Cached-later dev blockno x l k none other h = each (λ b. caches dev blockno b ≡ false) x l other h
Cached-later dev blockno x l k (some i) other (j, b, e, at, h) = (suc j, b, omega arith, at, h)

pub find_cached-Cached :
    (dev blockno : ℕ) (l : List Buf) (k : ℕ) → Cached dev blockno l k (find_cached dev blockno l k)
unfolding Cached find_cached
find_cached-Cached dev blockno [] k = λ j b e. cc
find_cached-Cached dev blockno (x ∷ l) k = elim (Bool-cases (caches dev blockno x)) [
  | inl e ↦ rw e (0, x, omega arith, refl, e)
  | inr other ↦ rw other (
      Cached-later dev blockno x l k (find_cached dev blockno l (k + 1)) other
        (find_cached-Cached dev blockno l (k + 1)))
]

-- The second loop: the last unused buffer.
unfoldable pub LastUnused : List Buf → ℕ → Option ℕ → Type 0
LastUnused l k none = (j : ℕ) (b : Buf) → get_elem? l j ≡ some b → unused b ≡ false
LastUnused l k (some i) =
    (j : ℕ) × (b : Buf) × (i ≡ k + j)
    × (get_elem? l j ≡ some b)
    × (unused b ≡ true)
    × ((m : ℕ) (c : Buf) → j < m → get_elem? l m ≡ some c → unused c ≡ false)

LastUnused-this :
    (x : Buf) (l : List Buf) (k : ℕ) (r : Option ℕ)
    → LastUnused l (k + 1) r
    → LastUnused (x ∷ l) k (or_this r x k)
unfolding LastUnused
LastUnused-this x l k (some i) (j, b, e, at, h, last) =
    (suc j, b, omega arith, at, h, λ m c lt at'. after m c lt at')
  where
    after : (m : ℕ) (c : Buf) → suc j < m → get_elem? (x ∷ l) m ≡ some c → unused c ≡ false
    after zero c lt at' = absurd (omega arith)
    after (suc m) c lt at' = last m c (omega arith) at'
LastUnused-this x l k none h = elim (Bool-cases (unused x)) [
  | inl e ↦ rw e (0, x, omega arith, refl, e, after)
  | inr busy ↦ rw busy (each (λ b. unused b ≡ false) x l busy h)
]
  where
    after : (m : ℕ) (c : Buf) → 0 < m → get_elem? (x ∷ l) m ≡ some c → unused c ≡ false
    after zero c lt at' = absurd (omega arith)
    after (suc m) c lt at' = h m c at'

pub find_unused-LastUnused : (l : List Buf) (k : ℕ) → LastUnused l k (find_unused l k)
unfolding LastUnused find_unused
find_unused-LastUnused [] k = λ j b e. cc
find_unused-LastUnused (x ∷ l) k =
    LastUnused-this x l k (find_unused l (k + 1)) (find_unused-LastUnused l (k + 1))

pub get_elem?-change_self :
    (l : List Buf) (i : ℕ) (f : Buf → Buf) (b : Buf)
    → get_elem? l i ≡ some b
    → get_elem? (change l i f) i ≡ some (f b)
get_elem?-change_self [] i f b e = cc
get_elem?-change_self (x ∷ l) zero f b e = ap (λ y. some (f y)) (some_eq x b e)
get_elem?-change_self (x ∷ l) (suc i) f b e = get_elem?-change_self l i f b e

pub get_elem?-change_other :
    (l : List Buf) (i j : ℕ) (f : Buf → Buf) → i ≢ j → get_elem? (change l i f) j ≡ get_elem? l j
get_elem?-change_other [] i j f ne = refl
get_elem?-change_other (x ∷ l) zero zero f ne = absurd (ne refl)
get_elem?-change_other (x ∷ l) zero (suc j) f ne = refl
get_elem?-change_other (x ∷ l) (suc i) zero f ne = refl
get_elem?-change_other (x ∷ l) (suc i) (suc j) f ne =
    get_elem?-change_other l i j f (λ e. ne (ap suc e))
