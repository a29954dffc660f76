-- ===== src/Proc/Lifecycle.antt =====
-- xv6-add_FAIRNESS/proc.c: `allocproc`, `growproc`, `fork`, `exit` and `wait`. What they ask of the
-- other parts of the kernel (pages, address spaces, files, the log) is a record of operations on
-- the rest of the kernel's state.
pub mod Spawn
pub mod Reap
pub mod Orphans
use exp.Base.{
  ℕ, zero, suc, ◌+◌, ◌==◌, Bool, true, false, not, ◌||◌, Option, none, some, List, [], ◌∷◌, map,
  if◌then◌else◌, Outcome, done, blocked, panic, get_elem?, length, ◌-◌, ◌%◌, ◌^◌,
}
use exp.Base.Int.{ℤ, pos, negsuc}
use mathlib.Core.Option
use exp.CString.{safestrcpy}
use exp.Proc.{
  Proc, ProcState, Ptable, Trapframe, Chan, proc_slot, null, embryo, runnable, unused, zombie,
  has_state, modify, claim_slot, give_stack, abandon_slot, wakeup1,
}

-- The calls that leave proc.c. A pointer is an address, 0 for null; `kalloc` and `copyuvm` return
-- what they return in C.
pub record Services (E : Type 0) : Type 0 where
  pub kalloc : E → ℕ × Trapframe × E
  pub kfree : ℕ → E → E
  pub copyuvm : ℕ → ℕ → E → ℕ × E
  pub allocuvm : ℕ → ℕ → ℕ → E → ℕ × E
  pub deallocuvm : ℕ → ℕ → ℕ → E → ℕ × E
  pub freevm : ℕ → E → E
  pub filedup : ℕ → E → E
  pub fileclose : ℕ → E → E
  pub idup : ℕ → E → E
  pub iput : ℕ → E → E
  pub begin_op : E → E
  pub end_op : E → E

abbrev pub same_parent : Option ℕ → ℕ → Bool
same_parent none i = false
same_parent (some j) i = j == i

-- The channel that `wakeup1(p->parent)` names.
abbrev pub parent_chan : Option ℕ → Chan
parent_chan none = null
parent_chan (some i) = proc_slot i

-- `if(curproc->ofile[i]) np->ofile[i] = filedup(...)`: a null entry leaves the one of `np`.
abbrev pub copy_files : List ℕ → List ℕ → List ℕ
copy_files [] gs = gs
copy_files (f ∷ fs) [] = []
copy_files (f ∷ fs) (g ∷ gs) = (if f == 0 then g else f) ∷ copy_files fs gs

-- The stores of `fork` into the new process `np`, of which `cp` in slot `curproc` is the parent.
abbrev pub copy_of : ℕ → Proc → ℕ → Proc → Proc
copy_of curproc cp pgdir np = record np {
  pgdir = pgdir;
  sz = cp.sz;
  parent = some curproc;
  tf = record (cp.tf) { eax = 0 };
  ofile = copy_files cp.ofile np.ofile;
  cwd = cp.cwd;
  name = safestrcpy np.name cp.name 16;
}

-- The loop of `exit` over the table: children go to `initproc`, which a ZOMBIE child wakes. The
-- wakeup may change any slot, so a round takes the whole table.
unfoldable pub adopt_one : ℕ → ℕ → ℕ → List Proc → List Proc
adopt_one i curproc initproc ps = elim (get_elem? ps i) [
  | none ↦ ps
  | some p ↦
      if same_parent p.parent curproc
      then (let qs = modify (λ q. record q { parent = some initproc }) i ps in
          if has_state zombie p then wakeup1 (proc_slot initproc) qs else qs)
      else ps
]

unfoldable pub adopt : ℕ → ℕ → ℕ → ℕ → List Proc → List Proc
adopt zero i curproc initproc ps = ps
adopt (suc n) i curproc initproc ps =
    adopt n (i + 1) curproc initproc (adopt_one i curproc initproc ps)

-- One pass of `wait` over the table: a ZOMBIE child, or whether there is any child.
pub data Scan : Type 0 where
  zombie_child : ℕ → Proc → Scan
  children : Bool → Scan

unfoldable pub scan_children : ℕ → ℕ → Bool → List Proc → Scan
scan_children curproc i havekids [] = children havekids
scan_children curproc i havekids (p ∷ ps) =
    let later = scan_children curproc (i + 1) true ps in
    let next = scan_children curproc (i + 1) havekids ps in
    if same_parent p.parent curproc
    then (if has_state zombie p then zombie_child i p else later)
    else next

-- The stores of `wait` into the slot of the child that it reaps; only the first byte of the name is
-- cleared.
abbrev pub clear_head : List ℕ → List ℕ
clear_head [] = []
clear_head (c ∷ cs) = 0 ∷ cs

abbrev pub reaped : Proc → Proc
reaped p = record p {
  kstack = 0;
  pid = 0;
  parent = none;
  name = clear_head p.name;
  killed = false;
  state = unused;
}

-- The stores of `exit` into its own slot before it takes the table's lock.
abbrev pub closed : Proc → Proc
closed p = record p { ofile = map (λ f. 0) p.ofile; cwd = 0 }

-- What `exit` does to the table under the lock, up to the switch.
unfoldable pub exit_locked : ℕ → Option ℕ → Ptable → Ptable
exit_locked curproc parent t =
    let ps = wakeup1 (parent_chan parent) t.procs in
    let qs = adopt (length ps) 0 curproc t.initproc ps in
    record t { procs = modify (λ p. record p { state = zombie }) curproc qs }

abbrev pub kstack_of : ℕ → Ptable → ℕ
kstack_of i t = elim (get_elem? t.procs i) [ none ↦ 0 | some p ↦ p.kstack ]

module _ {E : Type 0} (k : Services E) where
  open k use {
    kalloc, kfree, copyuvm, allocuvm, deallocuvm, freevm, filedup, fileclose, idup, iput, begin_op,
    end_op,
  }

  -- `allocproc`: the slot's index, or null.
  unfoldable pub allocproc : ℕ → Ptable → E → Option ℕ × Ptable × E
  allocproc forkret t e = elim (claim_slot t) [
    | none ↦ (none, t, e)
    | some (i, t') ↦
        let (kstack, junk, e') = kalloc e in
        let (r, t'') = give_stack forkret junk kstack i t' in (r, t'', e')
  ]

  dup_files : List ℕ → E → E
  dup_files [] e = e
  dup_files (f ∷ fs) e = dup_files fs (if f == 0 then e else filedup f e)

  -- `fork` by process `cp` in slot `curproc`: the child's pid, or `none` for -1. No other CPU
  -- touches an EMBRYO's slot, so its stores outside the lock stand here in order.
  fork_copied : ℕ → Proc → ℕ → ℕ → Ptable → E → Option ℕ × Ptable × E
  fork_copied curproc cp i pgdir t e =
      let e' = idup cp.cwd (dup_files cp.ofile e) in
      let ps = modify (copy_of curproc cp pgdir) i t.procs in
      (
        Option.map (λ p. p.pid) (get_elem? ps i),
        record t { procs = modify (λ p. record p { state = runnable }) i ps },
        e',
      )

  fork_claimed : ℕ → Proc → Option ℕ → Ptable → E → Option ℕ × Ptable × E
  fork_claimed curproc cp none t e = (none, t, e)
  fork_claimed curproc cp (some i) t e =
      let (pgdir, e') = copyuvm cp.pgdir cp.sz e in
      if pgdir == 0
      then (none, abandon_slot i t, kfree (kstack_of i t) e')
      else fork_copied curproc cp i pgdir t e'

  unfoldable pub fork : ℕ → ℕ → Proc → Ptable → E → Option ℕ × Ptable × E
  unfolding allocproc dup_files fork_copied fork_claimed
  fork forkret curproc cp t e =
      let (r, t', e') = allocproc forkret t e in fork_claimed curproc cp r t' e'

  -- `growproc(n)` by process `p`: `true` is the result 0. `sz + n` is computed modulo 2 ^ 32.
  unfoldable pub growproc : ℤ → Proc → E → Bool × Proc × E
  growproc (pos zero) p e = (true, p, e)
  growproc (pos (suc n)) p e =
      let (sz, e') = allocuvm p.pgdir p.sz ((p.sz + suc n) % 2 ^ 32) e in
      if sz == 0 then (false, p, e') else (true, record p { sz = sz }, e')
  growproc (negsuc n) p e =
      let (sz, e') = deallocuvm p.pgdir p.sz ((p.sz + 2 ^ 32 - suc n) % 2 ^ 32) e in
      if sz == 0 then (false, p, e') else (true, record p { sz = sz }, e')

  close_files : List ℕ → E → E
  close_files [] e = e
  close_files (f ∷ fs) e = close_files fs (if f == 0 then e else fileclose f e)

  -- `exit` by process `p` in slot `curproc`.
  unfoldable pub exit : ℕ → Proc → Ptable → E → Outcome (Ptable × E)
  unfolding exit_locked close_files
  exit curproc p t e =
      if curproc == t.initproc
      then panic
      else (let e' = end_op (iput p.cwd (begin_op (close_files p.ofile e))) in
          let t' = record t { procs = modify closed curproc t.procs } in
          done (exit_locked curproc p.parent t', e'))

  -- A pass of `wait` by a process in slot `curproc`, under the lock: the pid of the child that it
  -- reaped, or `none` for -1; it is `blocked` where `wait` sleeps on its own slot and tries again.
  unfoldable pub wait : ℕ → Bool → Ptable → E → Outcome (Option ℕ × Ptable × E)
  wait curproc killed t e = elim (scan_children curproc 0 false t.procs) [
    | zombie_child i p ↦ done (
      some p.pid,
      record t { procs = modify reaped i t.procs },
      freevm p.pgdir (kfree p.kstack e),
    )
    | children havekids ↦ if not havekids || killed then done (none, t, e) else blocked
  ]
