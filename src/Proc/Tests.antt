-- ===== src/Proc/Tests.antt =====
-- Runs of the process table on small tables, and instances of its theorems.
use exp.Base.{
  ℕ, ◌+◌, ◌≡◌, refl, true, false, none, some, [], ◌∷◌, arith, get_elem?, ◌≢◌, zero, suc, done, ◌<◌,
  ◌⊎◌, set,
}
use exp.Base.Int.{pos, ◌≤ℤ◌, ◌<ℤ◌}
use exp.Spinlock.{Cpu, Lock}
use exp.Proc.{
  Proc, Ptable, Chan, null, address, proc_slot, wakeup1, unused, sleeping, runnable, running,
  zombie, has_state, has_pid, find_from, find_slot, modify, claim_slot, kill, claimed,
}
use exp.Proc.Scheduler.{Scheduler, select_from, schedule, switch_back, yield}
use exp.Proc.Scheduler.Choice.{select_from-least}
use exp.Proc.Scheduler.Starvation.{turns, tick, yield_current, turns_monopoly}
use exp.Proc.Scheduler.Handover.{held_by, HoldsOnly, yield_reaches_switch}
use exp.Proc.Lifecycle.{Services, exit_locked, adopt, adopt_one, wait, reaped, scan_children}
use exp.Proc.Lifecycle.Spawn.{PidsDistinct, claim_slot-PidsDistinct, kill_zero-claim_slot}
use exp.Proc.Lifecycle.Reap.{wait_pid, wait_cases}
use exp.Proc.Lifecycle.Orphans.{exit_locked_lem, exit-wait}

abbrev blank : Proc
blank = record {
  sz = 0;
  pgdir = 0;
  kstack = 0;
  state = unused;
  pid = 0;
  parent = none;
  tf = record { eax = 0; registers = [] };
  context = record { edi = 0; esi = 0; ebx = 0; ebp = 0; eip = 0 };
  chan = null;
  killed = false;
  ofile = [];
  cwd = 0;
  name = [];
  priority = pos 0;
}

abbrev ready : ℕ → ℕ → Proc
ready pid priority = record blank { state = runnable; pid = pid; priority = pos priority }

-- Slot 0 is `initproc`; slot 1 waits for its child in slot 2.
abbrev waiter : Proc
waiter = record blank { state = sleeping; pid = 2; parent = some 0; chan = proc_slot 1 }

abbrev child : Proc
child = record blank { state = running; pid = 3; parent = some 1; pgdir = 7; kstack = 4096 }

abbrev family : Ptable
family = record { procs = ready 1 10 ∷ waiter ∷ child ∷ blank ∷ []; nextpid = 4; initproc = 0 }

-- Slot 3 sleeps until the next tick.
abbrev ticks : Chan
ticks = address 77

abbrev dozer : Proc
dozer = record blank { state = sleeping; pid = 4; chan = address 77; priority = pos 9 }

abbrev rivals : Ptable
rivals = record {
  procs = ready 1 10 ∷ ready 2 3 ∷ ready 3 3 ∷ dozer ∷ [];
  nextpid = 5;
  initproc = 0;
}

-- Slot 1 is the first of priority 3.
select_rivals : select_from 0 none rivals.procs ≡ some (1, ready 2 3)
unfolding select_from
select_rivals = refl

select_from-least_example : has_state runnable (ready 2 3) ≡ true
select_from-least_example = (select_from-least rivals.procs select_rivals).1

abbrev rivals_scheduler : Scheduler
rivals_scheduler = record { current = none; table = rivals }

rivals-sleepers :
    (j : ℕ) (p : Proc)
    → get_elem? rivals.procs j ≡ some p
    → p.state ≡ sleeping
    → p.chan ≡ ticks
    → ((ready 2 3).priority ≤ℤ p.priority) × (j < 1 → (ready 2 3).priority <ℤ p.priority)
rivals-sleepers zero p e asleep on = ground arith
rivals-sleepers (suc zero) p e asleep on = ground arith
rivals-sleepers (suc (suc zero)) p e asleep on = ground arith
rivals-sleepers (suc (suc (suc zero))) p e asleep on = ground arith
rivals-sleepers (suc (suc (suc (suc j)))) p e asleep on = cc

dozer_wakes :
    get_elem? (turns true ticks 2 rivals_scheduler).table.procs 3
    ≡ some (record dozer { state = runnable })
unfolding turns yield_current schedule select_from tick switch_back wakeup1 modify
dozer_wakes = refl

turns_monopoly_example :
    (p' : Proc) × (get_elem? (turns true ticks 5 rivals_scheduler).table.procs 3 ≡ some p')
    × ((p' ≡ dozer)
        ⊎ ((dozer.state ≡ sleeping)
            × (dozer.chan ≡ ticks)
            × (p' ≡ record dozer { state = runnable })))
turns_monopoly_example =
    (turns_monopoly true ticks 5 rivals_scheduler select_rivals rivals-sleepers).2 3 dozer
      (omega arith) refl

abbrev cpu_running : Cpu
cpu_running = record { interrupts = true; ncli = 0; intena = false }

abbrev cpu_locked : Cpu
cpu_locked = record { interrupts = false; ncli = 1; intena = true }

abbrev free_lock : Lock
free_lock = record { locked = false; cpu = none }

yield_reaches_switch_example :
    (d : Cpu) × (t' : Ptable) × (q : Proc) × (yield 2 0 free_lock cpu_running family
      ≡ done (held_by 0, d, t'))
    × HoldsOnly 0 (held_by 0) d
    × (get_elem? t'.procs 2 ≡ some q)
    × (q ≡ record child { state = runnable; priority = q.priority })
    × ((n : ℕ) → child.priority ≡ pos (suc n) → q.priority ≡ pos n)
    × (child.priority ≤ℤ pos 0 → q.priority ≡ child.priority)
    × ((j : ℕ) → 2 ≢ j → get_elem? t'.procs j ≡ get_elem? family.procs j)
yield_reaches_switch_example = yield_reaches_switch 2 0 free_lock cpu_running family refl refl refl

family-claim :
    claim_slot family
    ≡ some (3, record family { procs = modify (claimed 4) 3 family.procs; nextpid = 5 })
unfolding claim_slot find_from
family-claim = refl

family-PidsDistinct : PidsDistinct family
family-PidsDistinct = record { fresh = fresh; distinct = distinct }
  where
    fresh :
        (j : ℕ) (p : Proc)
        → get_elem? family.procs j ≡ some p
        → has_state unused p ≡ false
        → p.pid < 4
    fresh zero p e u = ground arith
    fresh (suc zero) p e u = ground arith
    fresh (suc (suc zero)) p e u = ground arith
    fresh (suc (suc (suc zero))) p e u = ground arith
    fresh (suc (suc (suc (suc j)))) p e u = cc

    slot_pid :
        (j : ℕ) (p : Proc)
        → get_elem? family.procs j ≡ some p
        → has_state unused p ≡ false
        → p.pid ≡ suc j
    slot_pid zero p e u = ground arith
    slot_pid (suc zero) p e u = ground arith
    slot_pid (suc (suc zero)) p e u = ground arith
    slot_pid (suc (suc (suc zero))) p e u = ground arith
    slot_pid (suc (suc (suc (suc j)))) p e u = cc

    distinct :
        (i j : ℕ) (p q : Proc)
        → i ≢ j
        → get_elem? family.procs i ≡ some p
        → get_elem? family.procs j ≡ some q
        → has_state unused p ≡ false
        → has_state unused q ≡ false
        → p.pid ≢ q.pid
    distinct i j p q ne at_i at_j u w = omega (arith, slot_pid i p at_i u, slot_pid j q at_j w)

claim_slot-PidsDistinct_example :
    PidsDistinct (record family { procs = modify (claimed 4) 3 family.procs; nextpid = 5 })
claim_slot-PidsDistinct_example =
    claim_slot-PidsDistinct family _ 3 (omega arith) family-PidsDistinct family-claim

rivals-claim : claim_slot rivals ≡ none
unfolding claim_slot find_from
rivals-claim = refl

by_pid_zero : find_slot (has_pid 0) family.procs ≡ some 3
unfolding find_from
by_pid_zero = refl

by_unused : find_slot (has_state unused) family.procs ≡ some 3
unfolding find_from
by_unused = refl

kill_zero-claim_slot_example : (kill 0 family).0 ≡ true
kill_zero-claim_slot_example = (kill_zero-claim_slot family 3 by_pid_zero by_unused).0

-- Services that return constants and change nothing.
abbrev idle_services : Services ℕ
idle_services = record {
  kalloc = λ e. (4096, record { eax = 0; registers = [] }, e);
  kfree = λ p e. e + 1;
  copyuvm = λ d s e. (d, e);
  allocuvm = λ d o n e. (n, e);
  deallocuvm = λ d o n e. (n, e);
  freevm = λ d e. e + 100;
  filedup = λ f e. e;
  fileclose = λ f e. e;
  idup = λ i e. e;
  iput = λ i e. e;
  begin_op = λ e. e;
  end_op = λ e. e;
}

abbrev after_exit : Ptable
after_exit = record family {
  procs =
      ready 1 10
      ∷ record waiter { state = runnable }
      ∷ record child { state = zombie }
      ∷ blank
      ∷ [];
}

wait-after_exit :
    wait idle_services 1 false after_exit 0
    ≡ done (some 3, record after_exit { procs = modify reaped 2 after_exit.procs }, 101)
unfolding wait scan_children
wait-after_exit = refl

wait_pid_example :
    (i : ℕ) × (p : Proc) × (get_elem? after_exit.procs i ≡ some p)
    × (p.parent ≡ some 1)
    × (p.state ≡ zombie)
    × (3 ≡ p.pid)
    × (get_elem? (record after_exit { procs = modify reaped 2 after_exit.procs }).procs i
        ≡ some (record p {
          kstack = 0;
          pid = 0;
          parent = none;
          name = set p.name 0 0;
          killed = false;
          state = unused;
        }))
    × ((j : ℕ)
        → i ≢ j
        → get_elem? (record after_exit { procs = modify reaped 2 after_exit.procs }).procs j
          ≡ get_elem? after_exit.procs j)
    × (101 ≡ idle_services.freevm p.pgdir (idle_services.kfree p.kstack 0))
wait_pid_example = wait_pid idle_services 1 false after_exit 0 wait-after_exit

wait_cases_example : wait idle_services 2 false family 0 ≡ done (none, family, 0)
wait_cases_example = (wait_cases idle_services 2 false family 0).2 childless
  where
    childless : (d : ℕ) (p : Proc) → get_elem? family.procs d ≡ some p → p.parent ≢ some 2
    childless zero p e = ground arith
    childless (suc zero) p e = ground arith
    childless (suc (suc zero)) p e = ground arith
    childless (suc (suc (suc zero))) p e = ground arith
    childless (suc (suc (suc (suc d)))) p e = cc

exit_locked_lem_example :
    (q : Proc) × (get_elem? (exit_locked 2 (some 1) family).procs 1 ≡ some q)
    × (q ≡ record waiter { state = q.state; parent = q.parent })
    × (waiter.parent ≡ some 2 → q.parent ≡ some 0)
    × (waiter.parent ≢ some 2 → q.parent ≡ waiter.parent)
    × (◌≡◌ {A = ℕ} 1 2 → q.state ≡ zombie)
    × (◌≢◌ {A = ℕ} 1 2 → waiter.state ≢ sleeping → q.state ≡ sleeping)
    × (◌≢◌ {A = ℕ} 1 2 → waiter.state ≡ sleeping → waiter.chan ≡ proc_slot 1 → q.state ≡ runnable)
    × (◌≢◌ {A = ℕ} 1 2
        → waiter.state ≡ sleeping
        → waiter.chan ≡ proc_slot 0
        → (d : ℕ) (z : Proc) → get_elem? family.procs d ≡ some z
        → z.parent ≡ some 2
        → z.state ≡ zombie
        → q.state ≡ runnable)
    × (◌≢◌ {A = ℕ} 1 2 → waiter.chan ≢ proc_slot 1 → waiter.chan ≢ proc_slot 0 → q.state ≡ sleeping)
exit_locked_lem_example = exit_locked_lem 2 1 family (omega arith) 1 waiter refl

exit-wait_example :
    ((q : Proc) × (get_elem? (exit_locked 2 (some 1) family).procs 1 ≡ some q)
      × (q.state ≡ runnable))
    × ((i : ℕ) × (z : Proc) × (t' : Ptable) × (e' : ℕ) × (get_elem?
            (exit_locked 2 (some 1) family).procs
            i
          ≡ some z)
        × (z.parent ≡ some 1)
        × (z.state ≡ zombie)
        × (wait idle_services 1 false (exit_locked 2 (some 1) family) 0
            ≡ done (some z.pid, t', e')))
exit-wait_example =
    exit-wait idle_services 0 false 2 1 family child waiter (omega arith) (omega arith) refl refl
      refl refl refl

-- `initproc` sleeps and the process in slot 1 has a ZOMBIE child: its exit wakes `initproc`.
abbrev orphans : Ptable
orphans = record family {
  procs =
      record (ready 1 10) { state = sleeping; chan = proc_slot 0 }
      ∷ record waiter { state = running; chan = null }
      ∷ record child { state = zombie }
      ∷ blank
      ∷ [];
}

orphans-exit :
    (exit_locked 1 (some 0) orphans).procs
    ≡ record (ready 1 10) { chan = proc_slot 0 }
      ∷ record waiter { state = zombie; chan = null }
      ∷ record child { state = zombie; parent = some 0 }
      ∷ blank
      ∷ []
unfolding exit_locked adopt adopt_one wakeup1 modify
orphans-exit = refl
