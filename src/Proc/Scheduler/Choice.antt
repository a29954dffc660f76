-- ===== src/Proc/Scheduler/Choice.antt =====
-- The process that `scheduler` picks.
use exp.Base.{
  ℕ, zero, suc, ◌+◌, ◌<◌, ◌≡◌, refl, true, false, ◌&&◌, Option, none, some, List, [], ◌∷◌,
  get_elem?, arith, ◌⊎◌, inl, inr, ◌≢◌, subst, Bool-cases,
}
use exp.Base.Int.{◌≤ℤ◌, ◌<ℤ◌, ltb_ℤ}
use exp.Proc.{Proc, has_state, runnable}
use exp.Proc.Scheduler.{better, select_from}

-- The best slot so far stands before the index `i` that the loop looks at.
abbrev Before : ℕ → Option (ℕ × Proc) → Type 0
Before i none = Unit
Before i (some (j, b)) = j < i

-- The choice `(k, q)` is the best slot so far, or has a strictly better priority.
abbrev Against : Option (ℕ × Proc) → ℕ → Proc → Type 0
Against none k q = Unit
Against (some (j, b)) k q = ((j ≡ k) × (b ≡ q)) ⊎ (q.priority <ℤ b.priority)

-- The choice `(k, q)` of a loop that stands at index `i`, before the slots `ps`, with `best` so far.
record Wins (i : ℕ) (ps : List Proc) (best : Option (ℕ × Proc)) (k : ℕ) (q : Proc) : Type 0 where
  against : Against best k q
  origin :
      (best ≡ some (k, q))
      ⊎ ((d : ℕ) × (k ≡ i + d) × (get_elem? ps d ≡ some q) × (has_state runnable q ≡ true))
  least :
      (d : ℕ) (p : Proc)
      → get_elem? ps d ≡ some p
      → has_state runnable p ≡ true
      → (q.priority ≤ℤ p.priority) × (i + d < k → q.priority <ℤ p.priority)

better-Before :
    (i : ℕ) (p : Proc) (best : Option (ℕ × Proc)) → Before i best → Before (i + 1) (better i p best)
better-Before i p none h = elim (Bool-cases (has_state runnable p)) [
  | inl e ↦ rw e (omega arith)
  | inr e ↦ rw e tt
]
better-Before i p (some (j, b)) h =
    elim (Bool-cases (has_state runnable p && ltb_ℤ p.priority b.priority)) [
      | inl e ↦ rw e (omega arith)
      | inr e ↦ rw e (omega arith)
    ]

module _ (i : ℕ) (p : Proc) (ps : List Proc) (k : ℕ) (q : Proc) where
  Wins-keep :
      (best : Option (ℕ × Proc))
      → ((has_state runnable p ≡ true)
          → (q.priority ≤ℤ p.priority) × (i < k → q.priority <ℤ p.priority))
      → Wins (i + 1) ps best k q
      → Wins i (p ∷ ps) best k q
  Wins-keep best head w = record { against = w.against; origin = origin w.origin; least = least }
    where
      origin :
          (best ≡ some (k, q))
            ⊎ ((d : ℕ) × (k ≡ i + 1 + d)
                × (get_elem? ps d ≡ some q)
                × (has_state runnable q ≡ true))
          → (best ≡ some (k, q))
            ⊎ ((d : ℕ) × (k ≡ i + d)
                × (get_elem? (p ∷ ps) d ≡ some q)
                × (has_state runnable q ≡ true))
      origin (inl e) = inl e
      origin (inr (d, e, there, r)) = inr (suc d, omega arith, there, r)

      least :
          (d : ℕ) (x : Proc)
          → get_elem? (p ∷ ps) d ≡ some x
          → has_state runnable x ≡ true
          → (q.priority ≤ℤ x.priority) × (i + d < k → q.priority <ℤ x.priority)
      least zero x e r = ground (arith, head)
      least (suc d) x e r =
          let (weak, strict) = w.least d x e r in (weak, λ lt. strict (omega arith))

  Wins-take :
      (best : Option (ℕ × Proc))
      → has_state runnable p ≡ true
      → ((b : Proc) (j : ℕ) → best ≡ some (j, b) → p.priority <ℤ b.priority)
      → Wins (i + 1) ps (some (i, p)) k q
      → Wins i (p ∷ ps) best k q
  Wins-take best run lower w = record {
    against = against best lower;
    origin = inr (origin w.origin);
    least = least;
  }
    where
      against :
          (b : Option (ℕ × Proc))
          → ((x : Proc) (j : ℕ) → b ≡ some (j, x) → p.priority <ℤ x.priority)
          → Against b k q
      against none l = tt
      against (some (j, x)) l = inr (ground (arith, w.against, l x j refl))

      origin :
          (◌≡◌ {A = Option (ℕ × Proc)} (some (i, p)) (some (k, q)))
            ⊎ ((d : ℕ) × (k ≡ i + 1 + d)
                × (get_elem? ps d ≡ some q)
                × (has_state runnable q ≡ true))
          → (d : ℕ) × (k ≡ i + d) × (get_elem? (p ∷ ps) d ≡ some q) × (has_state runnable q ≡ true)
      origin (inl e) = (0, ground arith, ground arith, ground arith)
      origin (inr (d, e, there, r)) = (suc d, omega arith, there, r)

      least :
          (d : ℕ) (x : Proc)
          → get_elem? (p ∷ ps) d ≡ some x
          → has_state runnable x ≡ true
          → (q.priority ≤ℤ x.priority) × (i + d < k → q.priority <ℤ x.priority)
      least zero x e r = ground (arith, w.against)
      least (suc d) x e r =
          let (weak, strict) = w.least d x e r in (weak, λ lt. strict (omega arith))

Wins-end :
    (i : ℕ) (best : Option (ℕ × Proc)) {k : ℕ} {q : Proc} → best ≡ some (k, q) → Wins i [] best k q
Wins-end i best {k} {q} e = record {
  against = against best e;
  origin = inl e;
  least = λ d p lost. cc;
}
  where
    against : (b : Option (ℕ × Proc)) → b ≡ some (k, q) → Against b k q
    against none h = tt
    against (some (j, x)) h = inl (ground arith, ground arith)

select_from-Wins :
    (i : ℕ) (ps : List Proc) (best : Option (ℕ × Proc)) {k : ℕ} {q : Proc}
    → Before i best
    → select_from i best ps ≡ some (k, q)
    → Wins i ps best k q
unfolding select_from
select_from-Wins i [] best h e = Wins-end i best e
select_from-Wins i (p ∷ ps) none {k} {q} h e = elim (Bool-cases (has_state runnable p)) [
  | inl run ↦
      Wins-take i p ps k q none run (λ b j lost. cc)
        (select_from-Wins (i + 1) ps (some (i, p)) (omega arith) (ground arith))
  | inr idle ↦
      Wins-keep i p ps k q none (λ run. cc) (select_from-Wins (i + 1) ps none tt (ground arith))
]
select_from-Wins i (p ∷ ps) (some (j, b)) {k} {q} h e =
    elim (Bool-cases (has_state runnable p && ltb_ℤ p.priority b.priority)) [
      | inl wins ↦
          Wins-take i p ps k q (some (j, b)) (ground arith) (λ x m same. ground arith)
            (select_from-Wins (i + 1) ps (some (i, p)) (omega arith) (ground arith))
      | inr loses ↦
          let w : Wins (i + 1) ps (some (j, b)) k q =
            select_from-Wins (i + 1) ps (some (j, b)) (omega arith) (ground arith) in
          Wins-keep i p ps k q (some (j, b)) (λ run. ground (arith, w.against)) w
    ]

-- `scheduler` picks a RUNNABLE process whose priority value no RUNNABLE process is below; among
-- those with that value it picks the one of the lowest slot.
pub select_from-least :
    (ps : List Proc) {k : ℕ} {q : Proc}
    → select_from 0 none ps ≡ some (k, q)
    → (get_elem? ps k ≡ some q)
      × (has_state runnable q ≡ true)
      × ((j : ℕ) (p : Proc)
          → get_elem? ps j ≡ some p
          → has_state runnable p ≡ true
          → (q.priority ≤ℤ p.priority) × (j < k → q.priority <ℤ p.priority))
select_from-least ps {k} {q} e =
    let w : Wins 0 ps none k q = select_from-Wins 0 ps none tt e in
    let (there, run) = found w.origin in
    (
      there,
      run,
      λ j p at r. let (weak, strict) = w.least j p at r in (weak, λ lt. strict (omega arith)),
    )
  where
    found :
        (◌≡◌ {A = Option (ℕ × Proc)} none (some (k, q)))
          ⊎ ((d : ℕ) × (k ≡ 0 + d) × (get_elem? ps d ≡ some q) × (has_state runnable q ≡ true))
        → (get_elem? ps k ≡ some q) × (has_state runnable q ≡ true)
    found (inl lost) = cc
    found (inr (d, e, there, run)) = (subst (λ x. get_elem? ps x ≡ some q) (omega arith) there, run)

select_from-ne-none : (i : ℕ) (ps : List Proc) (b : ℕ × Proc) → select_from i (some b) ps ≢ none
unfolding select_from
select_from-ne-none i [] b e = cc
select_from-ne-none i (p ∷ ps) (j, b) e =
    elim (Bool-cases (has_state runnable p && ltb_ℤ p.priority b.priority)) [
      | inl h ↦ select_from-ne-none (i + 1) ps (i, p) (ground arith)
      | inr h ↦ select_from-ne-none (i + 1) ps (j, b) (ground arith)
    ]

-- `scheduler` picks no process only when no process is RUNNABLE.
pub select_from-none :
    (i : ℕ) (ps : List Proc)
    → select_from i none ps ≡ none
    → (j : ℕ) (p : Proc) → get_elem? ps j ≡ some p
    → has_state runnable p ≡ false
unfolding select_from
select_from-none i [] e j p at = cc
select_from-none i (x ∷ ps) e j p at = elim (Bool-cases (has_state runnable x)) [
  | inl run ↦ absurd (select_from-ne-none (i + 1) ps (i, x) (ground arith))
  | inr idle ↦ rest j at idle (select_from-none (i + 1) ps (ground arith))
]
  where
    rest :
        (j : ℕ)
        → get_elem? (x ∷ ps) j ≡ some p
        → has_state runnable x ≡ false
        → ((m : ℕ) (y : Proc) → get_elem? ps m ≡ some y → has_state runnable y ≡ false)
        → has_state runnable p ≡ false
    rest zero at idle ih = ground arith
    rest (suc m) at idle ih = ih m p at
