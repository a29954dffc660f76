-- ===== src/Proc.antt =====
-- xv6-add_FAIRNESS/proc.c and proc.h: the process table. `ptable.proc` is a list, a `struct proc *`
-- is an index in it, and a null pointer is `none`. What runs between acquiring and releasing
-- `ptable.lock` is one function of the table; `acquire` and `release` are in Spinlock.
pub mod Slots
pub mod Scheduler
pub mod Lifecycle
mod Tests
use exp.Base.{
  ℕ, suc, ◌+◌, ◌%◌, ◌^◌, ◌==◌, Bool, true, false, ◌&&◌, Option, none, some, List, [], ◌∷◌, map,
  if◌then◌else◌,
}
use exp.Base.Int.{ℤ, pos}

-- `enum procstate`
pub data ProcState : Type 0 where
  unused embryo sleeping runnable running zombie : ProcState

abbrev pub same_state : ProcState → ProcState → Bool
same_state unused unused = true
same_state embryo embryo = true
same_state sleeping sleeping = true
same_state runnable runnable = true
same_state running running = true
same_state zombie zombie = true
same_state _ _ = false

-- A `void *chan`: null, the address of a process slot, or any other kernel address.
pub data Chan : Type 0 where
  null : Chan
  proc_slot : ℕ → Chan
  address : ℕ → Chan

abbrev pub same_chan : Chan → Chan → Bool
same_chan null null = true
same_chan (proc_slot i) (proc_slot j) = i == j
same_chan (address a) (address b) = a == b
same_chan _ _ = false

-- `struct context`: the registers that `swtch` saves.
pub record Context : Type 0 where
  pub edi : ℕ
  pub esi : ℕ
  pub ebx : ℕ
  pub ebp : ℕ
  pub eip : ℕ

-- `struct trapframe`, of which only `eax` is set here; the other registers are kept as a list.
pub record Trapframe : Type 0 where
  pub eax : ℕ
  pub registers : List ℕ

-- `struct proc`. Pointers to memory are addresses with 0 for null; `pid` is the bit pattern of an
-- `int`; `killed` is an `int` used as a flag; `name` is the bytes of `name[16]`.
pub record Proc : Type 0 where
  pub sz : ℕ
  pub pgdir : ℕ
  pub kstack : ℕ
  pub state : ProcState
  pub pid : ℕ
  pub parent : Option ℕ
  pub tf : Trapframe
  pub context : Context
  pub chan : Chan
  pub killed : Bool
  pub ofile : List ℕ
  pub cwd : ℕ
  pub name : List ℕ
  pub priority : ℤ

-- `ptable`, with `nextpid` and `initproc`.
pub record Ptable : Type 0 where
  pub procs : List Proc
  pub nextpid : ℕ
  pub initproc : ℕ

-- The loop `for(p = ptable.proc; p < &ptable.proc[NPROC]; p++) if(test(p)) goto found;`, which
-- four functions share; `i` is the index of the head.
pub find_from : (Proc → Bool) → ℕ → List Proc → Option ℕ
find_from test i [] = none
find_from test i (p ∷ ps) = if test p then some i else find_from test (i + 1) ps

abbrev pub find_slot : (Proc → Bool) → List Proc → Option ℕ
find_slot test ps = find_from test 0 ps

-- Stores through `p->`.
pub modify : (Proc → Proc) → ℕ → List Proc → List Proc
modify f i [] = []
modify f ℕ.zero (p ∷ ps) = f p ∷ ps
modify f (suc i) (p ∷ ps) = p ∷ modify f i ps

abbrev pub has_pid : ℕ → Proc → Bool
has_pid pid p = p.pid == pid

abbrev pub has_state : ProcState → Proc → Bool
has_state s p = same_state p.state s

abbrev pub start_priority : ℤ
start_priority = pos 10

-- The stores at `found:` in `allocproc`.
abbrev pub claimed : ℕ → Proc → Proc
claimed pid p = record p { state = embryo; pid = pid; priority = start_priority }

-- The locked half of `allocproc`: an UNUSED slot becomes an EMBRYO with a fresh pid.
pub claim_slot : Ptable → Option (ℕ × Ptable)
claim_slot t = elim (find_slot (has_state unused) t.procs) [
  | none ↦ none
  | some i ↦ some (
    i,
    record t { procs = modify (claimed t.nextpid) i t.procs; nextpid = (t.nextpid + 1) % 2 ^ 32 },
  )
]

abbrev pub start_context : ℕ → Context
start_context forkret = record { edi = 0; esi = 0; ebx = 0; ebp = 0; eip = forkret }

-- When `kalloc` or `copyuvm` fails the slot goes back to UNUSED, with a null stack.
pub abandon_slot : ℕ → Ptable → Ptable
abandon_slot i t = record t {
  procs = modify (λ p. record p { kstack = 0; state = unused }) i t.procs;
}

-- The other half: the kernel stack, an argument that is what `kalloc` returned. The trap frame at
-- the top of the stack, `junk`, is whatever the page held.
pub give_stack : ℕ → Trapframe → ℕ → ℕ → Ptable → Option ℕ × Ptable
give_stack forkret junk kstack i t = if kstack == 0 then (none, abandon_slot i t) else (
  some i,
  record t {
    procs =
        modify (λ p. record p { kstack = kstack; tf = junk; context = start_context forkret }) i
          t.procs;
  },
)

-- `wakeup1` and `wakeup`
pub wakeup1 : Chan → List Proc → List Proc
wakeup1 chan ps =
    map
      (λ p.
        if has_state sleeping p && same_chan p.chan chan then record p { state = runnable } else p)
      ps

unfoldable pub wakeup : Chan → Ptable → Ptable
wakeup chan t = record t { procs = wakeup1 chan t.procs }

-- The stores of `kill`.
abbrev pub killed_proc : Proc → Proc
killed_proc p = record p {
  killed = true;
  state = if has_state sleeping p then runnable else p.state;
}

-- `kill`: `true` is the result 0, `false` is -1.
pub kill : ℕ → Ptable → Bool × Ptable
kill pid t = elim (find_slot (has_pid pid) t.procs) [
  | none ↦ (false, t)
  | some i ↦ (true, record t { procs = modify killed_proc i t.procs })
]

-- `setpriority`: `true` is the result 0, `false` is -1.
pub setpriority : ℕ → ℤ → Ptable → Bool × Ptable
setpriority pid priority t = elim (find_slot (has_pid pid) t.procs) [
  | none ↦ (false, t)
  | some i ↦ (true, record t { procs = modify (λ p. record p { priority = priority }) i t.procs })
]
