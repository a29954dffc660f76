-- ===== src/Proc/Slots.antt =====
-- Lookup and update in the process table.
use exp.Base.{
  ℕ, zero, suc, ◌+◌, ◌<◌, ◌≡◌, ◌≢◌, refl, ap, Bool, true, false, none, some, List, [], ◌∷◌,
  get_elem?, length, arith, inl, inr, Bool-cases, subst, sym,
}
use exp.Proc.{
  Proc, ProcState, Chan, null, proc_slot, address, same_chan, same_state, has_state, unused, embryo,
  sleeping, runnable, running, zombie, find_from, modify,
}

pub length-modify : (f : Proc → Proc) (i : ℕ) (ps : List Proc) → length (modify f i ps) ≡ length ps
unfolding modify
length-modify f i [] = refl
length-modify f zero (p ∷ ps) = refl
length-modify f (suc i) (p ∷ ps) = ap suc (length-modify f i ps)

pub get_elem?-modify_self :
    (f : Proc → Proc) (i : ℕ) (ps : List Proc) {p : Proc}
    → get_elem? ps i ≡ some p
    → get_elem? (modify f i ps) i ≡ some (f p)
unfolding modify
get_elem?-modify_self f i [] e = cc
get_elem?-modify_self f zero (q ∷ ps) e = cc
get_elem?-modify_self f (suc i) (q ∷ ps) e = get_elem?-modify_self f i ps e

pub get_elem?-modify_at :
    (f : Proc → Proc) (i j : ℕ) (ps : List Proc) (p : Proc)
    → i ≡ j
    → get_elem? ps j ≡ some p
    → get_elem? (modify f i ps) j ≡ some (f p)
get_elem?-modify_at f i j ps p same e = rw same (get_elem?-modify_self f j ps e)

pub get_elem?-modify_ne :
    (f : Proc → Proc) (i j : ℕ) (ps : List Proc)
    → i ≢ j
    → get_elem? (modify f i ps) j ≡ get_elem? ps j
unfolding modify
get_elem?-modify_ne f i j [] h = refl
get_elem?-modify_ne f zero zero (p ∷ ps) h = absurd (h refl)
get_elem?-modify_ne f zero (suc j) (p ∷ ps) h = refl
get_elem?-modify_ne f (suc i) zero (p ∷ ps) h = refl
get_elem?-modify_ne f (suc i) (suc j) (p ∷ ps) h = get_elem?-modify_ne f i j ps (λ e. h (ap suc e))

-- The first slot at or after index `i` of the whole table that passes a test, `ps` being the rest
-- of the table from there.
pub record IsFirst (test : Proc → Bool) (i : ℕ) (ps : List Proc) (r : ℕ) : Type 0 where
  pub offset : ℕ
  pub place : r ≡ i + offset
  pub slot : Proc
  pub there : get_elem? ps offset ≡ some slot
  pub passes : test slot ≡ true
  pub first : (j : ℕ) (p : Proc) → j < offset → get_elem? ps j ≡ some p → test p ≡ false

IsFirst-here :
    (test : Proc → Bool) (i : ℕ) (p : Proc) (ps : List Proc)
    → test p ≡ true
    → IsFirst test i (p ∷ ps) i
IsFirst-here test i p ps h = record {
  offset = 0;
  place = omega arith;
  slot = p;
  there = refl;
  passes = h;
  first = λ j q lt. absurd (omega arith);
}

IsFirst-later :
    (test : Proc → Bool) (i : ℕ) (p : Proc) (ps : List Proc) (r : ℕ)
    → test p ≡ false
    → IsFirst test (i + 1) ps r
    → IsFirst test i (p ∷ ps) r
IsFirst-later test i p ps r h v = record {
  offset = suc v.offset;
  place = omega (arith, v.place);
  slot = v.slot;
  there = v.there;
  passes = v.passes;
  first = earlier;
}
  where
    earlier : (j : ℕ) (q : Proc) → j < suc v.offset → get_elem? (p ∷ ps) j ≡ some q → test q ≡ false
    earlier zero q lt e = ground arith
    earlier (suc j) q lt e = v.first j q (omega arith) e

pub find_from-IsFirst :
    (test : Proc → Bool) (i : ℕ) (ps : List Proc) {r : ℕ}
    → find_from test i ps ≡ some r
    → IsFirst test i ps r
unfolding find_from
find_from-IsFirst test i [] e = cc
find_from-IsFirst test i (p ∷ ps) {r} e = elim (Bool-cases (test p)) [
  | inl h ↦ subst (IsFirst test i (p ∷ ps)) (ground arith) (IsFirst-here test i p ps h)
  | inr h ↦ IsFirst-later test i p ps r h (find_from-IsFirst test (i + 1) ps (ground arith))
]

pub find_from-none :
    (test : Proc → Bool) (i : ℕ) (ps : List Proc)
    → find_from test i ps ≡ none
    → (j : ℕ) (p : Proc) → get_elem? ps j ≡ some p
    → test p ≡ false
unfolding find_from
find_from-none test i [] h j p e = cc
find_from-none test i (q ∷ ps) h zero p e = ground arith
find_from-none test i (q ∷ ps) h (suc j) p e = find_from-none test (i + 1) ps (ground arith) j p e

-- The slot that a search of the whole table reports, by its own index.
pub find_slot-IsFirst :
    (test : Proc → Bool) (ps : List Proc) {r : ℕ}
    → find_from test 0 ps ≡ some r
    → (p : Proc) × (get_elem? ps r ≡ some p)
      × (test p ≡ true)
      × ((j : ℕ) (q : Proc) → j < r → get_elem? ps j ≡ some q → test q ≡ false)
find_slot-IsFirst test ps {r} e =
    let v : IsFirst test 0 ps r = find_from-IsFirst test 0 ps e in
    let same : r ≡ v.offset = omega (arith, v.place) in
    (
      v.slot,
      subst (λ x. get_elem? ps x ≡ some v.slot) (sym same) v.there,
      v.passes,
      λ j q lt. v.first j q (omega arith),
    )

-- The tests of the code on a state, a channel and a parent, as equations.
pub state_of : (s : ProcState) (p : Proc) → has_state s p ≡ true → p.state ≡ s
state_of s p h = same p.state s h
  where
    same : (a b : ProcState) → same_state a b ≡ true → a ≡ b
    same unused unused h = refl
    same embryo embryo h = refl
    same sleeping sleeping h = refl
    same runnable runnable h = refl
    same running running h = refl
    same zombie zombie h = refl
    same a b h = cc

pub chan_of : (a b : Chan) → same_chan a b ≡ true → a ≡ b
chan_of null null h = refl
chan_of (proc_slot i) (proc_slot j) h = ap proc_slot (ground arith)
chan_of (address i) (address j) h = ap address (ground arith)
chan_of a b h = cc

pub not_in : (s : ProcState) (p : Proc) → p.state ≢ s → has_state s p ≡ false
not_in s p h = elim (Bool-cases (has_state s p)) [
  | inl here ↦ absurd (h (state_of s p here))
  | inr other ↦ other
]
