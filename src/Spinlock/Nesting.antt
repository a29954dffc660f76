-- ===== src/Spinlock/Nesting.antt =====
-- What spin locks do to the interrupt state of the CPU that takes them.
use exp.Base.{
  ℕ, ◌≡◌, refl, ◌<◌, true, false, ◌&&◌, none, some, arith, done, panic, ◌==◌, if◌then◌else◌,
}
use exp.Spinlock.{Cpu, Lock, same_cpu, pushcli, popcli, holding, acquire, release}

-- A CPU inside `pushcli` has its interrupts off.
pub record IsNested (c : Cpu) : Type 0 where
  pub off : 0 < c.ncli → c.interrupts ≡ false

-- The state after a balanced pair: only `intena` may differ, which is then the saved flag.
abbrev pub balanced : Cpu → Cpu
balanced c = record c { intena = if c.ncli == 0 then c.interrupts else c.intena }

-- `popcli` undoes `pushcli` on every CPU whose interrupts are off while it is nested: the
-- interrupt flag and the depth come back as they were.
pub popcli-pushcli : (c : Cpu) → IsNested c → popcli (pushcli c) ≡ done (balanced c)
unfolding pushcli popcli
popcli-pushcli c v = ground arith

pub pushcli-IsNested : (c : Cpu) → IsNested (pushcli c)
unfolding pushcli
pushcli-IsNested c = ground arith

balanced-pushcli : (c : Cpu) → balanced (pushcli c) ≡ pushcli c
unfolding pushcli
balanced-pushcli c = ground arith

-- `holding` only reads.
pub holding_lem :
    (me : ℕ) (lk : Lock) (c : Cpu)
    → IsNested c
    → holding me lk c ≡ done (lk.locked && same_cpu lk.cpu me, balanced c)
unfolding holding
holding_lem me lk c v = ground (arith, popcli-pushcli c v)

pub acquire_free :
    (me : ℕ) (lk : Lock) (c : Cpu)
    → lk.locked ≡ false
    → acquire me lk c ≡ done (record { locked = true; cpu = some me }, pushcli c)
unfolding acquire
acquire_free me lk c h =
    ground (arith, holding_lem me lk (pushcli c), pushcli-IsNested c, balanced-pushcli c)

pub release_pushed :
    (me : ℕ) (c : Cpu)
    → IsNested c
    → release me (record { locked = true; cpu = some me }) (pushcli c)
      ≡ done (record { locked = false; cpu = none }, balanced c)
unfolding release
release_pushed me c v = ground (
  arith,
  holding_lem me (record { locked = true; cpu = some me }) (pushcli c),
  pushcli-IsNested c,
  balanced-pushcli c,
  popcli-pushcli c v,
)

-- Taking a free lock and releasing it returns the lock free and the CPU's interrupt flag and
-- nesting depth as they were; in between the interrupts are off.
pub acquire-release :
    (me : ℕ) (lk : Lock) (c : Cpu)
    → IsNested c
    → lk.locked ≡ false
    → (acquire me lk c ≡ done (record { locked = true; cpu = some me }, pushcli c))
      × ((pushcli c).interrupts ≡ false)
      × (release me (record { locked = true; cpu = some me }) (pushcli c)
          ≡ done (record { locked = false; cpu = none }, balanced c))
unfolding pushcli
acquire-release me lk c v h = (acquire_free me lk c h, refl, release_pushed me c v)

-- A CPU that takes a lock it holds already panics, and one that releases a lock it does not hold
-- panics too.
pub misuse_panics :
    (me : ℕ) (lk : Lock) (c : Cpu)
    → IsNested c
    → ((lk.locked && same_cpu lk.cpu me) ≡ true → acquire me lk c ≡ panic)
      × ((lk.locked && same_cpu lk.cpu me) ≡ false → release me lk c ≡ panic)
unfolding acquire release
misuse_panics me lk c v = (
  λ h. ground (arith, holding_lem me lk (pushcli c), pushcli-IsNested c),
  λ h. ground (arith, holding_lem me lk c v),
)
