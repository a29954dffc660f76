-- ===== src/Proc/Scheduler/Starvation.antt =====
-- What repeated `yield`s do to the choice of `scheduler`.
use exp.Base.{
  ℕ, zero, suc, ◌<◌, ◌≡◌, ◌≢◌, refl, sym, true, none, some, List, inl, inr, ◌∙◌, get_elem?, arith,
  ==_self, Option-cases, ℕ_discrete, Bool, ◌||◌, ◌&&◌, if◌then◌else◌, Bool-cases, ◌⊎◌, subst, ap,
  false, [], ◌∷◌,
}
use exp.Base.Int.{ℤ, pos, negsuc, ◌≤ℤ◌, ◌<ℤ◌}
use exp.Proc.{
  Proc, Chan, null, proc_slot, address, same_chan, has_state, runnable, running, sleeping, modify,
  wakeup1,
}
use exp.Proc.Scheduler.Handover.{wakeup1_lem}
use exp.Proc.Slots.{state_of, chan_of, get_elem?-modify_self, get_elem?-modify_ne}
use exp.Proc.Scheduler.{Scheduler, boost, yielded, select_from, set_running, schedule, switch_back}
use exp.Proc.Scheduler.Choice.{select_from-least, select_from-none}

-- Slot `k`, holding `q`, is the one that the loop of `scheduler` picks.
pub record IsChoice (ps : List Proc) (k : ℕ) (q : Proc) : Type 0 where
  pub there : get_elem? ps k ≡ some q
  pub ready : has_state runnable q ≡ true
  pub least :
      (j : ℕ) (p : Proc)
      → get_elem? ps j ≡ some p
      → has_state runnable p ≡ true
      → (q.priority ≤ℤ p.priority) × (j < k → q.priority <ℤ p.priority)

IsChoice-unique :
    (ps : List Proc) (k m : ℕ) (q p : Proc) → IsChoice ps k q → IsChoice ps m p → (k ≡ m) × (q ≡ p)
IsChoice-unique ps k m q p a b =
    ground (arith, a.there, b.there, a.least m p b.there b.ready, b.least k q a.there a.ready)

pub select_from-IsChoice :
    (ps : List Proc) (k : ℕ) (q : Proc) → IsChoice ps k q → select_from 0 none ps ≡ some (k, q)
select_from-IsChoice ps k q v = elim (Option-cases (select_from 0 none ps)) [
  | inl e ↦ cc (select_from-none 0 ps e k q v.there, v.ready)
  | inr ((m, p), e) ↦
      let (there, ready, least) = select_from-least ps e in
      ground (
        arith,
        IsChoice-unique ps k m q p v (record { there = there; ready = ready; least = least }),
      )
]

-- What CPU 0 does first at a timer interrupt: `ticks++; wakeup(&ticks);`.
unfoldable pub tick : Bool → Chan → List Proc → List Proc
tick cpu0 ticks ps = if cpu0 then wakeup1 ticks ps else ps

-- A timer interrupt: the tick, on CPU 0, then `yield` by the running process, which ends the
-- scheduler's turn. The count of ticks is no part of the process table.
unfoldable pub yield_current : Bool → Chan → Scheduler → Scheduler
yield_current cpu0 ticks s =
    let ps = tick cpu0 ticks s.table.procs in
    elim s.current [
      | none ↦ record s { table = record (s.table) { procs = ps } }
      | some i ↦ switch_back (record s { table = record (s.table) { procs = modify yielded i ps } })
    ]

-- Turns of one CPU in which the chosen process runs until its timer interrupt.
unfoldable pub turns : Bool → Chan → ℕ → Scheduler → Scheduler
turns cpu0 ticks zero s = s
turns cpu0 ticks (suc n) s = turns cpu0 ticks n (yield_current cpu0 ticks (schedule s))

boost-le : (p : Proc) → (boost p).priority ≤ℤ p.priority
boost-le p = by_sign p.priority
  where
    by_sign : (z : ℤ) → (boost (record p { priority = z })).priority ≤ℤ z
    by_sign (pos zero) = omega arith
    by_sign (pos (suc n)) = ground arith
    by_sign (negsuc n) = ground arith

abbrev pub after_turn : Proc → Proc
after_turn q = yielded (record q { state = running })

-- RUNNABLE, or made so by the next tick.
abbrev pub may_run : Chan → Proc → Bool
may_run ticks p = has_state runnable p || (has_state sleeping p && same_chan p.chan ticks)

-- Slot `k` is the choice, also when every sleeper on `ticks` wakes.
record IsLasting (ticks : Chan) (ps : List Proc) (k : ℕ) (q : Proc) : Type 0 where
  there : get_elem? ps k ≡ some q
  ready : has_state runnable q ≡ true
  least :
      (j : ℕ) (p : Proc)
      → get_elem? ps j ≡ some p
      → may_run ticks p ≡ true
      → (q.priority ≤ℤ p.priority) × (j < k → q.priority <ℤ p.priority)

IsLasting-IsChoice :
    (ticks : Chan) (ps : List Proc) (k : ℕ) (q : Proc) → IsLasting ticks ps k q → IsChoice ps k q
IsLasting-IsChoice ticks ps k q v = record {
  there = v.there;
  ready = v.ready;
  least = λ j p at run. v.least j p at (rw run refl);
}

-- Another process after a turn: as it was, or woken by the tick.
abbrev pub Waked : Chan → Proc → Proc → Type 0
Waked ticks p p' =
    (p' ≡ p) ⊎ ((p.state ≡ sleeping) × (p.chan ≡ ticks) × (p' ≡ record p { state = runnable }))

same_chan_self : (ch : Chan) → same_chan ch ch ≡ true
same_chan_self null = refl
same_chan_self (proc_slot i) = ==_self i
same_chan_self (address i) = ==_self i

Waked-trans :
    (ticks : Chan) (p p' p'' : Proc) → Waked ticks p p' → Waked ticks p' p'' → Waked ticks p p''
Waked-trans ticks p p' p'' (inl same) w = subst (λ x. Waked ticks x p'') same w
Waked-trans ticks p p' p'' (inr (asleep, on, woke)) (inl same) = inr (asleep, on, same ∙ woke)
Waked-trans ticks p p' p'' (inr (asleep, on, woke)) (inr (up, on', woke')) = cc

wakeup1-before :
    (chan : Chan) (ps : List Proc) (j : ℕ) {p' : Proc}
    → get_elem? (wakeup1 chan ps) j ≡ some p'
    → (p : Proc) × (get_elem? ps j ≡ some p)
unfolding wakeup1
wakeup1-before chan [] j e = cc
wakeup1-before chan (p ∷ ps) zero e = (p, refl)
wakeup1-before chan (p ∷ ps) (suc j) e = wakeup1-before chan ps j e

module _ (cpu0 : Bool) (ticks : Chan) where
  tick-before :
      (ps : List Proc) (j : ℕ) {p' : Proc}
      → get_elem? (tick cpu0 ticks ps) j ≡ some p'
      → (p : Proc) × (get_elem? ps j ≡ some p)
  unfolding tick
  tick-before ps j {p'} e = elim (Bool-cases cpu0) [
    | inl first ↦ wakeup1-before ticks ps j {p' = p'} (ground arith)
    | inr second ↦ (p', ground arith)
  ]

  tick_lem :
      (ps : List Proc) (j : ℕ) {p : Proc}
      → get_elem? ps j ≡ some p
      → (p' : Proc) × (get_elem? (tick cpu0 ticks ps) j ≡ some p') × Waked ticks p p'
  unfolding tick
  tick_lem ps j {p} e = elim (Bool-cases cpu0) [
    | inr second ↦ (p, rw second e, inl refl)
    | inl first ↦ elim (Bool-cases (has_state sleeping p)) [
      | inr up ↦ (p, rw first (wakeup1_lem ticks ps j e ∙ rw up refl), inl refl)
      | inl asleep ↦ elim (Bool-cases (same_chan p.chan ticks)) [
        | inr off ↦ (p, rw first (wakeup1_lem ticks ps j e ∙ rw (asleep, off) refl), inl refl)
        | inl on ↦ (
          record p { state = runnable },
          rw first (wakeup1_lem ticks ps j e ∙ rw (asleep, on) refl),
          inr (state_of sleeping p asleep, chan_of p.chan ticks on, refl),
        )
      ]
    ]
  ]

  tick_running :
      (ps : List Proc) (j : ℕ) {p : Proc}
      → get_elem? ps j ≡ some p
      → has_state sleeping p ≡ false
      → get_elem? (tick cpu0 ticks ps) j ≡ some p
  tick_running ps j {p} e up =
      let (p', at, how) = tick_lem ps j e in
      elim how [ inl same ↦ at ∙ ap some same | inr (asleep, on, woke) ↦ cc ]

  abbrev turn_table : ℕ → List Proc → List Proc
  turn_table k ps = modify yielded k (tick cpu0 ticks (set_running k ps))

  turn_table_self :
      (k : ℕ) (ps : List Proc) {q : Proc}
      → get_elem? ps k ≡ some q
      → get_elem? (turn_table k ps) k ≡ some (after_turn q)
  turn_table_self k ps {q} e =
      get_elem?-modify_self yielded k (tick cpu0 ticks (set_running k ps))
        (tick_running (set_running k ps) k (get_elem?-modify_self _ k ps e) refl)

  turn_table_ne :
      (k j : ℕ) (ps : List Proc) {p : Proc}
      → k ≢ j
      → get_elem? ps j ≡ some p
      → (p' : Proc) × (get_elem? (turn_table k ps) j ≡ some p') × Waked ticks p p'
  turn_table_ne k j ps h e =
      let (p', at, how) = tick_lem (set_running k ps) j (get_elem?-modify_ne _ k j ps h ∙ e) in
      (p', get_elem?-modify_ne yielded k j (tick cpu0 ticks (set_running k ps)) h ∙ at, how)

  turn_table-before :
      (k j : ℕ) (ps : List Proc) {p' : Proc}
      → k ≢ j
      → get_elem? (turn_table k ps) j ≡ some p'
      → (p : Proc) × (get_elem? ps j ≡ some p)
  turn_table-before k j ps h e =
      let (p, at) =
        tick-before (set_running k ps) j
          (sym (get_elem?-modify_ne yielded k j (tick cpu0 ticks (set_running k ps)) h) ∙ e) in
      (p, sym (get_elem?-modify_ne _ k j ps h) ∙ at)

  Waked-may_run :
      (p p' : Proc)
      → Waked ticks p p'
      → may_run ticks p' ≡ true
      → (may_run ticks p ≡ true) × (p'.priority ≡ p.priority)
  Waked-may_run p p' (inl same) h = ground arith
  Waked-may_run p p' (inr (asleep, on, woke)) h =
      (ground (arith, same_chan_self ticks), ap (λ x. x.priority) woke)

  -- A turn keeps the choice: the chosen process has only lowered its own priority value.
  turn-IsLasting :
      (ps : List Proc) (k : ℕ) (q : Proc)
      → IsLasting ticks ps k q
      → IsLasting ticks (turn_table k ps) k (after_turn q)
  turn-IsLasting ps k q v = record {
    there = turn_table_self k ps v.there;
    ready = refl;
    least = least;
  }
    where
      least :
          (j : ℕ) (p' : Proc)
          → get_elem? (turn_table k ps) j ≡ some p'
          → may_run ticks p' ≡ true
          → ((after_turn q).priority ≤ℤ p'.priority)
            × (j < k → (after_turn q).priority <ℤ p'.priority)
      least j p' at run = elim (ℕ_discrete k j) [
        | yes same ↦ ground (arith, turn_table_self k ps v.there)
        | no other ↦
            let lower : (after_turn q).priority ≤ℤ q.priority =
              boost-le (record q { state = running }) in
            let (p, before) = turn_table-before k j ps other at in
            let (p'', at'', how) = turn_table_ne k j ps other before in
            let same : p'' ≡ p' = ground (arith, at, at'') in
            let (was, level) = Waked-may_run p p' (subst (λ x. Waked ticks p x) same how) run in
            let (weak, strict) = v.least j p before was in
            (
              rw level (omega (arith, lower, weak)),
              λ lt. rw level (omega (arith, lower, strict lt)),
            )
      ]

  one_turn :
      (s : Scheduler) {k : ℕ} {q : Proc}
      → select_from 0 none s.table.procs ≡ some (k, q)
      → yield_current cpu0 ticks (schedule s)
        ≡ record { current = none; table = record (s.table) { procs = turn_table k s.table.procs } }
  unfolding yield_current schedule switch_back
  one_turn s e = ground (arith, e)

  IsLasting-turns :
      (n : ℕ) (s : Scheduler) {k : ℕ} {q : Proc}
      → IsLasting ticks s.table.procs k q
      → (q' : Proc) × (select_from 0 none (turns cpu0 ticks n s).table.procs ≡ some (k, q'))
        × ((j : ℕ) (p : Proc)
            → k ≢ j
            → get_elem? s.table.procs j ≡ some p
            → (p' : Proc) × (get_elem? (turns cpu0 ticks n s).table.procs j ≡ some p')
              × Waked ticks p p')
  unfolding turns
  IsLasting-turns zero s {k} {q} v = (
    q,
    select_from-IsChoice s.table.procs k q (IsLasting-IsChoice ticks s.table.procs k q v),
    λ j p h e. (p, e, inl refl),
  )
  IsLasting-turns (suc n) s {k} {q} v =
      rw
        (
          one_turn s {k = k} {q = q} (
              select_from-IsChoice s.table.procs k q
                (IsLasting-IsChoice ticks s.table.procs k q v)),
          turns,
        )
        (let (q', again, others) =
            IsLasting-turns n next {k = k} {q = after_turn q}
              (turn-IsLasting s.table.procs k q v) in
          (
            q',
            again,
            λ j p h e.
                let (p', at, how) = turn_table_ne k j s.table.procs h e in
                let (p'', at', how') = others j p' h at in
                (p'', at', Waked-trans ticks p p' p'' how how'),
          ))
    where
      next : Scheduler
      next = record {
        current = none;
        table = record (s.table) { procs = turn_table k s.table.procs };
      }

  -- Turns of one CPU, CPU 0 or another, with no change of the table but by the scheduler, the timer
  -- interrupt's wakeup of `ticks` and the `yield` after it. The scheduler has picked slot `k`, and
  -- no process that sleeps on `ticks` has a priority value below that of `k`, nor an equal one in a
  -- slot before `k`. Then at every later turn it picks slot `k` again, and every other slot is as
  -- it was, but for sleepers on `ticks` that are now RUNNABLE: no other process's priority is
  -- raised, however long it waits.
  pub turns_monopoly :
      (n : ℕ) (s : Scheduler) {k : ℕ} {q : Proc}
      → select_from 0 none s.table.procs ≡ some (k, q)
      → ((j : ℕ) (p : Proc)
          → get_elem? s.table.procs j ≡ some p
          → p.state ≡ sleeping
          → p.chan ≡ ticks
          → (q.priority ≤ℤ p.priority) × (j < k → q.priority <ℤ p.priority))
      → (q' : Proc) × (select_from 0 none (turns cpu0 ticks n s).table.procs ≡ some (k, q'))
        × ((j : ℕ) (p : Proc)
            → k ≢ j
            → get_elem? s.table.procs j ≡ some p
            → (p' : Proc) × (get_elem? (turns cpu0 ticks n s).table.procs j ≡ some p')
              × ((p' ≡ p)
                  ⊎ ((p.state ≡ sleeping)
                      × (p.chan ≡ ticks)
                      × (p' ≡ record p { state = runnable }))))
  turns_monopoly n s {k} {q} e h =
      let (there, ready, low) = select_from-least s.table.procs e in
      IsLasting-turns n s {k = k} {q = q}
        (record { there = there; ready = ready; least = least low })
    where
      least :
          ((j : ℕ) (p : Proc)
            → get_elem? s.table.procs j ≡ some p
            → has_state runnable p ≡ true
            → (q.priority ≤ℤ p.priority) × (j < k → q.priority <ℤ p.priority))
          → (j : ℕ) (p : Proc) → get_elem? s.table.procs j ≡ some p
          → may_run ticks p ≡ true
          → (q.priority ≤ℤ p.priority) × (j < k → q.priority <ℤ p.priority)
      least low j p at run = elim (Bool-cases (has_state runnable p)) [
        | inl up ↦ low j p at up
        | inr down ↦
            h j p at (state_of sleeping p (ground arith)) (chan_of p.chan ticks (ground arith))
      ]
