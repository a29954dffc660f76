-- ===== src/Proc/Lifecycle/Reap.antt =====
-- What `wait` returns, on each state of the table.
use exp.Base.{
  ℕ, zero, suc, ◌+◌, ◌≡◌, ◌≢◌, Option, ==_self, refl, sym, ap, if◌then◌else◌, set, ◌∙◌, ◌⊎◌, inl,
  inr, Bool, true, false, none, some, List, [], ◌∷◌, get_elem?, arith, Bool-cases, done, blocked,
}
use exp.Proc.{same_state, Proc, Ptable, has_state, zombie, unused, modify}
use exp.Proc.Slots.{state_of, get_elem?-modify_self, get_elem?-modify_ne}
use exp.Proc.Lifecycle.{
  Services, wait, reaped, clear_head, Scan, zombie_child, children, same_parent, scan_children,
}

scan-zombie :
    (c i : ℕ) (seen : Bool) (ps : List Proc) {r : ℕ} {p : Proc}
    → scan_children c i seen ps ≡ zombie_child r p
    → (d : ℕ) × (r ≡ i + d)
      × (get_elem? ps d ≡ some p)
      × (same_parent p.parent c ≡ true)
      × (has_state zombie p ≡ true)
unfolding scan_children
scan-zombie c i seen [] e = cc
scan-zombie c i seen (q ∷ ps) {r} {p} e = elim (Bool-cases (same_parent q.parent c)) [
  | inr other ↦ later (scan-zombie c (i + 1) seen ps (ground arith))
  | inl child ↦ elim (Bool-cases (has_state zombie q)) [
    | inl dead ↦ (0, ground arith, ground arith, ground arith, ground arith)
    | inr alive ↦ later (scan-zombie c (i + 1) true ps (ground arith))
  ]
]
  where
    later :
        (d : ℕ) × (r ≡ i + 1 + d)
          × (get_elem? ps d ≡ some p)
          × (same_parent p.parent c ≡ true)
          × (has_state zombie p ≡ true)
        → (d : ℕ) × (r ≡ i + d)
          × (get_elem? (q ∷ ps) d ≡ some p)
          × (same_parent p.parent c ≡ true)
          × (has_state zombie p ≡ true)
    later (d, at, there, mine, dead) = (suc d, omega arith, there, mine, dead)

scan-seen :
    (c i : ℕ) (ps : List Proc) {b : Bool} → scan_children c i true ps ≡ children b → b ≡ true
unfolding scan_children
scan-seen c i [] e = ground arith
scan-seen c i (q ∷ ps) {b} e = ground (arith, scan-seen c (i + 1) ps {b = b})

scan-children :
    (c i : ℕ) (seen : Bool) (ps : List Proc) {b : Bool}
    → scan_children c i seen ps ≡ children b
    → (d : ℕ) (p : Proc) → get_elem? ps d ≡ some p
    → same_parent p.parent c ≡ true
    → (has_state zombie p ≡ false) × (b ≡ true)
unfolding scan_children
scan-children c i seen [] e d p at mine = cc
scan-children c i seen (q ∷ ps) {b} e zero p at mine =
    ground (arith, scan-seen c (i + 1) ps {b = b})
scan-children c i seen (q ∷ ps) e (suc d) p at mine = elim (Bool-cases (same_parent q.parent c)) [
  | inr other ↦ scan-children c (i + 1) seen ps (ground arith) d p at mine
  | inl child ↦ scan-children c (i + 1) true ps (ground arith) d p at mine
]

scan-childless :
    (c i : ℕ) (seen : Bool) (ps : List Proc)
    → ((d : ℕ) (p : Proc) → get_elem? ps d ≡ some p → same_parent p.parent c ≡ false)
    → scan_children c i seen ps ≡ children seen
unfolding scan_children
scan-childless c i seen [] h = refl
scan-childless c i seen (q ∷ ps) h =
    ground (arith, h 0 q refl, scan-childless c (i + 1) seen ps (λ d p at. h (suc d) p at))

Scan-cases :
    (s : Scan) → ((r : ℕ) × (p : Proc) × (s ≡ zombie_child r p)) ⊎ ((b : Bool) × (s ≡ children b))
Scan-cases (zombie_child r p) = inl (r, p, refl)
Scan-cases (children b) = inr (b, refl)

pub child_of : (parent : Option ℕ) (c : ℕ) → same_parent parent c ≡ true → parent ≡ some c
child_of none c h = cc
child_of (some x) c h = ap some (ground arith)

pub same_parent_of : (parent : Option ℕ) (c : ℕ) → parent ≡ some c → same_parent parent c ≡ true
same_parent_of parent c h = rw h (==_self c)

pub not_child : (parent : Option ℕ) (c : ℕ) → parent ≢ some c → same_parent parent c ≡ false
not_child parent c h = elim (Bool-cases (same_parent parent c)) [
  | inl child ↦ absurd (h (child_of parent c child))
  | inr other ↦ other
]

not_alive : (p : Proc) → p.state ≡ zombie → has_state zombie p ≡ false → ⊥
not_alive p dead alive = cc (ap (λ s. same_state s zombie) dead)

clear_head-set : (l : List ℕ) → clear_head l ≡ set l 0 0
clear_head-set [] = refl
clear_head-set (x ∷ l) = refl

module _ {E : Type 0} (k : Services E) (c : ℕ) (killed : Bool) (t : Ptable) (e : E) where
  abbrev reaped_table : ℕ → Ptable
  reaped_table i = record t { procs = modify reaped i t.procs }

  wait_found :
      {r : ℕ} {p : Proc}
      → scan_children c 0 false t.procs ≡ zombie_child r p
      → wait k c killed t e
        ≡ done (some p.pid, reaped_table r, k.freevm p.pgdir (k.kfree p.kstack e))
  unfolding wait
  wait_found found = ground arith

  wait_no_pid :
      {b : Bool} {pid : ℕ} {t' : Ptable} {e' : E}
      → scan_children c 0 false t.procs ≡ children b
      → wait k c killed t e ≡ done (some pid, t', e')
      → ◌≡◌ {A = Bool} true false
  unfolding wait
  wait_no_pid found h = ground arith

  wait_waits :
      scan_children c 0 false t.procs ≡ children true
      → wait k c killed t e ≡ (if killed then done (none, t, e) else blocked)
  unfolding wait
  wait_waits found = ground arith

  wait_fails :
      scan_children c 0 false t.procs ≡ children false → wait k c killed t e ≡ done (none, t, e)
  unfolding wait
  wait_fails found = ground arith

  -- What a pass of `wait` returns with a pid: the pid of a ZOMBIE child, whose slot, and no other,
  -- is made UNUSED and its stack, pid, parent, killed flag and the first byte of its name cleared,
  -- and whose stack and address space go back.
  pub wait_pid :
      {pid : ℕ} {t' : Ptable} {e' : E}
      → wait k c killed t e ≡ done (some pid, t', e')
      → (i : ℕ) × (p : Proc) × (get_elem? t.procs i ≡ some p)
        × (p.parent ≡ some c)
        × (p.state ≡ zombie)
        × (pid ≡ p.pid)
        × (get_elem? t'.procs i
            ≡ some (record p {
              kstack = 0;
              pid = 0;
              parent = none;
              name = set p.name 0 0;
              killed = false;
              state = unused;
            }))
        × ((j : ℕ) → i ≢ j → get_elem? t'.procs j ≡ get_elem? t.procs j)
        × (e' ≡ k.freevm p.pgdir (k.kfree p.kstack e))
  wait_pid {pid} {t'} {e'} h = elim (Scan-cases (scan_children c 0 false t.procs)) [
    | inr (b, found) ↦ cc (no_pid found h)
    | inl (r, p, found) ↦
        let (d, at, there, mine, dead) = scan-zombie c 0 false t.procs found in
        let place : r ≡ d = omega (arith, at) in
        let here : get_elem? t.procs r ≡ some p = rw place there in
        let (pids, tables, rest) = parts found h in
        (
          r,
          p,
          here,
          child_of p.parent c mine,
          state_of zombie p dead,
          pids,
          rw (sym (clear_head-set p.name))
              (rw tables (get_elem?-modify_self reaped r t.procs here)),
          λ j ne. rw tables (get_elem?-modify_ne reaped r j t.procs ne),
          rest,
        )
  ]
    where
      no_pid :
          {b : Bool}
          → scan_children c 0 false t.procs ≡ children b
          → wait k c killed t e ≡ done (some pid, t', e')
          → ◌≡◌ {A = Bool} true false
      no_pid found h' = wait_no_pid found h'

      parts :
          {r : ℕ} {p : Proc}
          → scan_children c 0 false t.procs ≡ zombie_child r p
          → wait k c killed t e ≡ done (some pid, t', e')
          → (pid ≡ p.pid) × (t' ≡ reaped_table r) × (e' ≡ k.freevm p.pgdir (k.kfree p.kstack e))
      parts found h' = ground (arith, wait_found found)

  -- A pass of `wait` with a ZOMBIE child returns the pid of a ZOMBIE child; with children of which
  -- none is a ZOMBIE it sleeps, or returns -1 if the process was killed; without children it returns
  -- -1. Where it returns -1 it changes nothing.
  pub wait_cases :
      ((d : ℕ) (p : Proc)
        → get_elem? t.procs d ≡ some p
        → p.parent ≡ some c
        → p.state ≡ zombie
        → (i : ℕ) × (q : Proc) × (t' : Ptable) × (e' : E) × (get_elem? t.procs i ≡ some q)
          × (q.parent ≡ some c)
          × (q.state ≡ zombie)
          × (wait k c killed t e ≡ done (some q.pid, t', e')))
      × ((d : ℕ) (p : Proc)
          → get_elem? t.procs d ≡ some p
          → p.parent ≡ some c
          → ((i : ℕ) (q : Proc)
              → get_elem? t.procs i ≡ some q
              → q.parent ≡ some c
              → q.state ≢ zombie)
          → wait k c killed t e ≡ (if killed then done (none, t, e) else blocked))
      × (((d : ℕ) (p : Proc) → get_elem? t.procs d ≡ some p → p.parent ≢ some c)
          → wait k c killed t e ≡ done (none, t, e))
  wait_cases = (some_zombie, some_child, no_child)
    where
      some_zombie :
          (d : ℕ) (p : Proc)
          → get_elem? t.procs d ≡ some p
          → p.parent ≡ some c
          → p.state ≡ zombie
          → (i : ℕ) × (q : Proc) × (t' : Ptable) × (e' : E) × (get_elem? t.procs i ≡ some q)
            × (q.parent ≡ some c)
            × (q.state ≡ zombie)
            × (wait k c killed t e ≡ done (some q.pid, t', e'))
      some_zombie d p at mine dead = elim (Scan-cases (scan_children c 0 false t.procs)) [
        | inl (r, q, found) ↦
            let (i, place, there, its, gone) = scan-zombie c 0 false t.procs found in
            (
              i,
              q,
              reaped_table r,
              k.freevm q.pgdir (k.kfree q.kstack e),
              there,
              child_of q.parent c its,
              state_of zombie q gone,
              wait_found found,
            )
        | inr (b, found) ↦ absurd (
            not_alive p dead
              (scan-children c 0 false t.procs found d p at (same_parent_of p.parent c mine)).0)
      ]

      some_child :
          (d : ℕ) (p : Proc)
          → get_elem? t.procs d ≡ some p
          → p.parent ≡ some c
          → ((i : ℕ) (q : Proc)
              → get_elem? t.procs i ≡ some q
              → q.parent ≡ some c
              → q.state ≢ zombie)
          → wait k c killed t e ≡ (if killed then done (none, t, e) else blocked)
      some_child d p at mine alive = elim (Scan-cases (scan_children c 0 false t.procs)) [
        | inl (r, q, found) ↦
            let (i, place, there, its, gone) = scan-zombie c 0 false t.procs found in
            absurd (alive i q there (child_of q.parent c its) (state_of zombie q gone))
        | inr (b, found) ↦ wait_waits (
            found
            ∙ ap children
                (scan-children c 0 false t.procs found d p at (same_parent_of p.parent c mine)).1)
      ]

      no_child :
          ((d : ℕ) (p : Proc) → get_elem? t.procs d ≡ some p → p.parent ≢ some c)
          → wait k c killed t e ≡ done (none, t, e)
      no_child h =
          wait_fails (scan-childless c 0 false t.procs (λ d p at. not_child p.parent c (h d p at)))
