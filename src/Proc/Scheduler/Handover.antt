-- ===== src/Proc/Scheduler/Handover.antt =====
-- How `yield` and `sleep` hand the CPU over, and what a wakeup does to a sleeper.
use exp.Base.{
  ℕ, ◌≡◌, ◌≢◌, refl, inl, inr, Bool-cases, true, false, ◌&&◌, none, some, List, [], ◌∷◌, zero, suc,
  get_elem?, arith, done, if◌then◌else◌, ==_self,
}
use exp.Base.Int.{pos, ◌≤ℤ◌, ltb_ℤ}
use exp.Spinlock.{Cpu, Lock, pushcli}
use exp.Spinlock.Nesting.{IsNested, balanced, acquire_free, holding_lem, release_pushed}
use exp.Proc.{
  Proc, Ptable, Chan, same_chan, has_state, runnable, sleeping, running, modify, wakeup1,
}
use exp.Proc.Slots.{get_elem?-modify_self, get_elem?-modify_ne}
use exp.Proc.Scheduler.{yielded, asleep, sched, store_and_sched, yield, sleep}

-- CPU `me` holds `lk` and no other lock, as `sched` demands.
pub record HoldsOnly (me : ℕ) (lk : Lock) (c : Cpu) : Type 0 where
  pub locked : lk.locked ≡ true
  pub mine : lk.cpu ≡ some me
  pub depth : c.ncli ≡ 1
  pub off : c.interrupts ≡ false

sched_done :
    (me : ℕ) (lk : Lock) (c : Cpu) (p : Proc)
    → HoldsOnly me lk c
    → has_state running p ≡ false
    → sched me lk c p ≡ done c
unfolding sched
sched_done me lk c p v h = ground (arith, holding_lem me lk c, ==_self me)

store_and_sched_done :
    (f : Proc → Proc) (i me : ℕ) (lk : Lock) (c : Cpu) (t : Ptable) {p : Proc}
    → get_elem? t.procs i ≡ some p
    → HoldsOnly me lk c
    → has_state running (f p) ≡ false
    → store_and_sched f i me lk c t ≡ done (lk, c, record t { procs = modify f i t.procs })
unfolding store_and_sched
store_and_sched_done f i me lk c t {p} e v h = ground (arith, sched_done me lk c (f p) v h)

abbrev pub held_by : ℕ → Lock
held_by me = record { locked = true; cpu = some me }

taken : (me : ℕ) (c : Cpu) → c.ncli ≡ 0 → HoldsOnly me (held_by me) (pushcli c)
unfolding pushcli
taken me c out = ground arith

yielded_lem :
    (p : Proc)
    → (yielded p ≡ record p { state = runnable; priority = (yielded p).priority })
      × ((n : ℕ) → p.priority ≡ pos (suc n) → (yielded p).priority ≡ pos n)
      × (p.priority ≤ℤ pos 0 → (yielded p).priority ≡ p.priority)
yielded_lem p = (fields, lower, same)
  where
    fields : yielded p ≡ record p { state = runnable; priority = (yielded p).priority }
    fields = elim (Bool-cases (ltb_ℤ (pos 0) p.priority)) [ inl h ↦ rw h refl | inr h ↦ rw h refl ]

    lower : (n : ℕ) → p.priority ≡ pos (suc n) → (yielded p).priority ≡ pos n
    lower n h = ground arith

    same : p.priority ≤ℤ pos 0 → (yielded p).priority ≡ p.priority
    same h = ground arith

-- `yield` passes every check of `sched`: called by a process on a CPU that holds no lock, with the
-- table's lock free, it reaches the switch with the table's lock held and no other, and with
-- interrupts off. The process is RUNNABLE, its priority one lower if it was above 0 and otherwise
-- as it was; the rest of its slot and the other slots are unchanged.
pub yield_reaches_switch :
    (i me : ℕ) (lk : Lock) (c : Cpu) (t : Ptable) {p : Proc}
    → get_elem? t.procs i ≡ some p
    → lk.locked ≡ false
    → c.ncli ≡ 0
    → (d : Cpu) × (t' : Ptable) × (q : Proc) × (yield i me lk c t ≡ done (held_by me, d, t'))
      × HoldsOnly me (held_by me) d
      × (get_elem? t'.procs i ≡ some q)
      × (q ≡ record p { state = runnable; priority = q.priority })
      × ((n : ℕ) → p.priority ≡ pos (suc n) → q.priority ≡ pos n)
      × (p.priority ≤ℤ pos 0 → q.priority ≡ p.priority)
      × ((j : ℕ) → i ≢ j → get_elem? t'.procs j ≡ get_elem? t.procs j)
unfolding yield
yield_reaches_switch i me lk c t {p} e free out =
    let (fields, lower, same) = yielded_lem p in
    (
      pushcli c,
      record t { procs = modify yielded i t.procs },
      yielded p,
      rw (acquire_free me lk c free)
          (store_and_sched_done yielded i me (held_by me) (pushcli c) t e (taken me c out) refl),
      taken me c out,
      get_elem?-modify_self yielded i t.procs e,
      fields,
      lower,
      same,
      λ j ne. get_elem?-modify_ne yielded i j t.procs ne,
    )

-- `sleep` with another lock, held by this CPU and by no one else: it takes the table's lock, gives
-- the other one up, and reaches the switch with the process SLEEPING on `chan`.
pub sleep_reaches_switch :
    (chan : Chan) (i me : ℕ) (lk pt : Lock) (c : Cpu) (t : Ptable) {p : Proc}
    → get_elem? t.procs i ≡ some p
    → HoldsOnly me lk c
    → pt.locked ≡ false
    → (d : Cpu) × (sleep chan i me (some lk) pt c t
        ≡ done (
          some (record { locked = false; cpu = none }),
          held_by me,
          d,
          record t { procs = modify (asleep chan) i t.procs },
        ))
      × HoldsOnly me (held_by me) d
unfolding sleep
sleep_reaches_switch chan i me lk pt c t {p} e v free = (
  balanced c,
  ground (
    arith,
    acquire_free me pt c free,
    release_pushed me c (nested v),
    lock_eq v,
    store_and_sched_done (asleep chan) i me (held_by me) (balanced c) t e (still v) refl,
  ),
  still v,
)
  where
    nested : HoldsOnly me lk c → IsNested c
    nested h = record { off = λ lt. h.off }

    lock_eq : HoldsOnly me lk c → lk ≡ held_by me
    lock_eq h = ground arith

    still : HoldsOnly me lk c → HoldsOnly me (held_by me) (balanced c)
    still h = ground arith

-- A wakeup on the channel makes the sleeper RUNNABLE again.
pub wakeup1_lem :
    (chan : Chan) (ps : List Proc) (j : ℕ) {p : Proc}
    → get_elem? ps j ≡ some p
    → get_elem? (wakeup1 chan ps) j
      ≡ some (
          if has_state sleeping p && same_chan p.chan chan
          then record p { state = runnable }
          else p)
unfolding wakeup1
wakeup1_lem chan [] j e = cc
wakeup1_lem chan (q ∷ ps) zero e = ground arith
wakeup1_lem chan (q ∷ ps) (suc j) e = wakeup1_lem chan ps j e
