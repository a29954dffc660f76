-- ===== src/Proc/Scheduler.antt =====
-- xv6-add_FAIRNESS/proc.c: `scheduler`, `sched`, `yield` and `sleep`. A CPU's scheduler thread and
-- the processes hand control to each other by `swtch`; each function here runs from one `swtch` to
-- the next.
pub mod Choice
pub mod Starvation
pub mod Handover
use exp.Base.{
  ℕ, zero, suc, ◌+◌, ◌==◌, Bool, true, false, ◌&&◌, Option, none, some, List, [], ◌∷◌, map,
  get_elem?, if◌then◌else◌, Outcome, done, panic, ◌>>=◌,
}
use exp.Base.Int.{ℤ, pos, negsuc, ltb_ℤ}
use exp.Spinlock.{Cpu, Lock, holding, acquire, release}
use exp.Proc.{Proc, ProcState, Chan, running, runnable, sleeping, null, Ptable, has_state, modify}

abbrev pub pred_ℤ : ℤ → ℤ
pred_ℤ (pos zero) = negsuc 0
pred_ℤ (pos (suc n)) = pos n
pred_ℤ (negsuc n) = negsuc (suc n)

-- `if (p->priority > 0) p->priority--;`
abbrev pub boost : Proc → Proc
boost p = if ltb_ℤ (pos 0) p.priority then record p { priority = pred_ℤ p.priority } else p

-- The loop that runs once, before `for (;;)`: waiting processes gain priority.
pub age : List Proc → List Proc
age ps = map (λ p. if has_state runnable p then boost p else p) ps

-- A CPU's scheduler: `c->proc` and the table.
pub record Scheduler : Type 0 where
  pub current : Option ℕ
  pub table : Ptable

unfoldable pub start_scheduler : Ptable → Scheduler
unfolding age
start_scheduler t = record { current = none; table = record t { procs = age t.procs } }

-- `highest_priority_proc` is kept with the slot that it points to, which the loop does not change.
abbrev pub better : ℕ → Proc → Option (ℕ × Proc) → Option (ℕ × Proc)
better i p none = if has_state runnable p then some (i, p) else none
better i p (some (j, q)) =
    if has_state runnable p && ltb_ℤ p.priority q.priority then some (i, p) else some (j, q)

unfoldable pub select_from : ℕ → Option (ℕ × Proc) → List Proc → Option (ℕ × Proc)
select_from i best [] = best
select_from i best (p ∷ ps) = select_from (i + 1) (better i p best) ps

abbrev pub set_running : ℕ → List Proc → List Proc
set_running i ps = modify (λ p. record p { state = running }) i ps

-- One turn of `for (;;)` up to the `swtch` into the process that it chose.
unfoldable pub schedule : Scheduler → Scheduler
schedule s = elim (select_from 0 none s.table.procs) [
  | none ↦ s
  | some (i, p) ↦ record {
    current = some i;
    table = record (s.table) { procs = set_running i s.table.procs };
  }
]

-- The rest of the turn, when the process has switched back.
unfoldable pub switch_back : Scheduler → Scheduler
switch_back s = record s { current = none }

-- The checks of `sched`, by CPU `me` that holds `lk`, for process `p`.
pub sched : ℕ → Lock → Cpu → Proc → Outcome Cpu
sched me lk c p = do
  (held, c') ← holding me lk c
  if held
      then (if c'.ncli == 1
          then (if has_state running p then panic else if c'.interrupts then panic else done c')
          else panic)
      else panic

-- What `yield` stores in its own slot.
abbrev pub yielded : Proc → Proc
yielded p = let q = boost p in record q { state = runnable }

-- What `sleep(chan, …)` stores in its own slot, before the switch and after it.
abbrev pub asleep : Chan → Proc → Proc
asleep chan p = record p { chan = chan; state = sleeping }

abbrev pub awake : Proc → Proc
awake p = record p { chan = null }

-- The store of process `i`, then `sched` with the slot as it is after the store.
pub store_and_sched : (Proc → Proc) → ℕ → ℕ → Lock → Cpu → Ptable → Outcome (Lock × Cpu × Ptable)
store_and_sched f i me lk c t = elim (get_elem? t.procs i) [
  | none ↦ panic
  | some p ↦ do c' ← sched me lk c (f p); done (lk, c', record t { procs = modify f i t.procs })
]

-- `yield` by process `i`, up to the switch.
pub yield : ℕ → ℕ → Lock → Cpu → Ptable → Outcome (Lock × Cpu × Ptable)
yield i me lk c t = do (lk', c') ← acquire me lk c; store_and_sched yielded i me lk' c' t

-- `sleep(chan, lk)` by process `i` up to the switch, with `none` for `lk == &ptable.lock`, held
-- already. Another lock is given up once `ptable.lock` is held.
pub sleep :
    Chan → ℕ → ℕ → Option Lock → Lock → Cpu → Ptable → Outcome (Option Lock × Lock × Cpu × Ptable)
sleep chan i me none pt c t = do
  (pt', c', t') ← store_and_sched (asleep chan) i me pt c t
  done (none, pt', c', t')
sleep chan i me (some lk) pt c t = do
  (pt', c') ← acquire me pt c
  (lk', c'') ← release me lk c'
  (pt'', c''', t') ← store_and_sched (asleep chan) i me pt' c'' t
  done (some lk', pt'', c''', t')
