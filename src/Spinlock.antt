-- ===== src/Spinlock.antt =====
-- xv6-add_FAIRNESS/spinlock.c: the interrupt nesting of one CPU (`pushcli`, `popcli`) and spin
-- locks. A CPU is named by its index in `cpus`; `pcs` and `name`, which serve debugging only, are
-- left out. A spin on a lock that another CPU holds is `blocked`.
pub mod Nesting
mod Tests
use exp.Base.{
  ℕ, ◌+◌, ◌-◌, Bool, true, false, ◌&&◌, Option, none, some, ◌==◌, if◌then◌else◌, Outcome, done,
  blocked, panic, ◌>>=◌,
}

-- The fields of `struct cpu` that locks use; `interrupts` is FL_IF of the CPU's eflags.
pub record Cpu : Type 0 where
  pub interrupts : Bool
  pub ncli : ℕ
  pub intena : Bool

-- `lk->cpu` is the index of the holder, or null.
pub record Lock : Type 0 where
  pub locked : Bool
  pub cpu : Option ℕ

unfoldable pub initlock : Lock
initlock = record { locked = false; cpu = none }

unfoldable pub pushcli : Cpu → Cpu
pushcli c = record {
  interrupts = false;
  ncli = c.ncli + 1;
  intena = if c.ncli == 0 then c.interrupts else c.intena;
}

-- `--ncli < 0` is tested as `ncli == 0` before the decrement.
unfoldable pub popcli : Cpu → Outcome Cpu
popcli c =
    if c.interrupts
    then panic
    else if c.ncli == 0
    then panic
    else done (record c { ncli = c.ncli - 1; interrupts = (c.ncli - 1 == 0) && c.intena })

abbrev pub same_cpu : Option ℕ → ℕ → Bool
same_cpu none me = false
same_cpu (some k) me = k == me

-- `holding` disables interrupts while it reads the lock.
unfoldable pub holding : ℕ → Lock → Cpu → Outcome (Bool × Cpu)
unfolding pushcli popcli
holding me lk c = do c' ← popcli (pushcli c); done (lk.locked && same_cpu lk.cpu me, c')

unfoldable pub acquire : ℕ → Lock → Cpu → Outcome (Lock × Cpu)
unfolding pushcli holding
acquire me lk c = do
  (held, c') ← holding me lk (pushcli c)
  if held
      then panic
      else if lk.locked
      then blocked
      else done (record { locked = true; cpu = some me }, c')

unfoldable pub release : ℕ → Lock → Cpu → Outcome (Lock × Cpu)
unfolding holding popcli
release me lk c = do
  (held, c') ← holding me lk c
  if held then (do c'' ← popcli c'; done (record { locked = false; cpu = none }, c'')) else panic
