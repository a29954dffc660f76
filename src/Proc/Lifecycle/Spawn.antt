-- ===== src/Proc/Lifecycle/Spawn.antt =====
-- `allocproc`'s slot and pid, and the `killed` flag that a new process inherits.
use exp.Base.{
  ℕ, zero, suc, ◌+◌, ◌%◌, ◌^◌, ◌<◌, ◌≡◌, ◌≢◌, refl, sym, ◌∙◌, Bool, true, false, none, some, List,
  [], ◌∷◌, get_elem?, arith, ℕ_discrete,
}
use exp.Proc.{
  Proc, Ptable, unused, embryo, has_state, has_pid, find_from, find_slot, modify, claimed,
  killed_proc, claim_slot, kill,
}
use exp.Proc.Slots.{get_elem?-modify_self, get_elem?-modify_ne, find_slot-IsFirst, find_from-none}

abbrev claim_table : ℕ → Ptable → Ptable
claim_table i t = record t {
  procs = modify (claimed t.nextpid) i t.procs;
  nextpid = (t.nextpid + 1) % 2 ^ 32;
}

claim_slot_inv :
    (t t' : Ptable) (i : ℕ)
    → claim_slot t ≡ some (i, t')
    → (find_slot (has_state unused) t.procs ≡ some i) × (t' ≡ claim_table i t)
unfolding claim_slot
claim_slot_inv t t' i e = ground arith

-- `allocproc` takes the first UNUSED slot, which becomes an EMBRYO of priority 10 with the next
-- pid; no other slot changes, and it fails only when no slot is UNUSED.
pub claim_slot_lem :
    (t : Ptable)
    → ((i : ℕ) (t' : Ptable)
        → claim_slot t ≡ some (i, t')
        → (p : Proc) × (get_elem? t.procs i ≡ some p)
          × (has_state unused p ≡ true)
          × ((j : ℕ) (q : Proc) → j < i → get_elem? t.procs j ≡ some q → has_state unused q ≡ false)
          × (get_elem? t'.procs i ≡ some (claimed t.nextpid p))
          × ((j : ℕ) → i ≢ j → get_elem? t'.procs j ≡ get_elem? t.procs j))
      × (claim_slot t ≡ none
          → (j : ℕ) (q : Proc) → get_elem? t.procs j ≡ some q
          → has_state unused q ≡ false)
unfolding claim_slot
claim_slot_lem t = (
  λ i t' e.
      let (found, same) = claim_slot_inv t t' i e in
      let (p, there, free, first) = find_slot-IsFirst (has_state unused) t.procs found in
      rw same (
        p,
        there,
        free,
        first,
        get_elem?-modify_self (claimed t.nextpid) i t.procs there,
        λ j ne. get_elem?-modify_ne (claimed t.nextpid) i j t.procs ne,
      ),
  λ e. find_from-none (has_state unused) 0 t.procs (ground arith),
)

-- Live pids are below `nextpid`, and no two slots in use have the same one.
pub record PidsDistinct (t : Ptable) : Type 0 where
  pub fresh :
      (j : ℕ) (p : Proc)
      → get_elem? t.procs j ≡ some p
      → has_state unused p ≡ false
      → p.pid < t.nextpid
  pub distinct :
      (i j : ℕ) (p q : Proc)
      → i ≢ j
      → get_elem? t.procs i ≡ some p
      → get_elem? t.procs j ≡ some q
      → has_state unused p ≡ false
      → has_state unused q ≡ false
      → p.pid ≢ q.pid

-- The pid that `allocproc` gives out is different from that of every process in the table, and
-- stays so, as long as `nextpid` does not wrap.
pub claim_slot-PidsDistinct :
    (t t' : Ptable) (i : ℕ)
    → t.nextpid + 1 < 2 ^ 32
    → PidsDistinct t
    → claim_slot t ≡ some (i, t')
    → PidsDistinct t'
claim_slot-PidsDistinct t t' i small v e =
    let (found, same) = claim_slot_inv t t' i e in
    let (o, there, free, first) = find_slot-IsFirst (has_state unused) t.procs found in
    let mine : get_elem? (claim_table i t).procs i ≡ some (claimed t.nextpid o) =
      get_elem?-modify_self (claimed t.nextpid) i t.procs there in
    rw same (record {
      fresh = λ j p at used. elim (ℕ_discrete i j) [
        | yes hit ↦ ground (arith, mine)
        | no miss ↦
            let old : p.pid < t.nextpid = v.fresh j p (sym (other j miss) ∙ at) used in omega arith
      ];
      distinct = λ m j p q ne at_m at_j used_p used_q. elim (ℕ_discrete i m) [
        | yes hit ↦
            let old : q.pid < t.nextpid =
              v.fresh j q (sym (other j (λ z. ne (sym hit ∙ z))) ∙ at_j) used_q in
            ground (arith, mine)
        | no miss ↦ elim (ℕ_discrete i j) [
          | yes hit ↦
              let old : p.pid < t.nextpid = v.fresh m p (sym (other m miss) ∙ at_m) used_p in
              ground (arith, mine)
          | no miss' ↦
              v.distinct m j p q ne (sym (other m miss) ∙ at_m) (sym (other j miss') ∙ at_j) used_p
                used_q
        ]
      ];
    })
  where
    other : (j : ℕ) → i ≢ j → get_elem? (claim_table i t).procs j ≡ get_elem? t.procs j
    other j ne = get_elem?-modify_ne (claimed t.nextpid) i j t.procs ne

find_from-modify :
    (test : Proc → Bool) (f : Proc → Proc) (i k : ℕ) (ps : List Proc)
    → ((p : Proc) → test (f p) ≡ test p)
    → find_from test i (modify f k ps) ≡ find_from test i ps
unfolding find_from modify
find_from-modify test f i k [] h = refl
find_from-modify test f i zero (p ∷ ps) h = rw (h p)
find_from-modify test f i (suc k) (p ∷ ps) h =
    ground (arith, find_from-modify test f (i + 1) k ps h)

kill-unused : (p : Proc) → has_state unused (killed_proc p) ≡ has_state unused p
kill-unused p = ground arith

kill_found :
    (t : Ptable) (pid i : ℕ)
    → find_slot (has_pid pid) t.procs ≡ some i
    → kill pid t ≡ (true, record t { procs = modify killed_proc i t.procs })
unfolding kill
kill_found t pid i e = ground arith

claim_slot_found :
    (t : Ptable) (i : ℕ)
    → find_slot (has_state unused) t.procs ≡ some i
    → claim_slot t ≡ some (i, claim_table i t)
unfolding claim_slot
claim_slot_found t i e = ground arith

-- `kill(0)` succeeds when a slot that was never used comes first among those of pid 0, and marks
-- it killed; if that is also the first UNUSED slot, the process that `allocproc` then makes there is
-- born killed, since `allocproc` does not clear the flag.
pub kill_zero-claim_slot :
    (t : Ptable) (i : ℕ)
    → find_slot (has_pid 0) t.procs ≡ some i
    → find_slot (has_state unused) t.procs ≡ some i
    → ((kill 0 t).0 ≡ true)
      × ((t' : Ptable) × (p : Proc) × (claim_slot (kill 0 t).1 ≡ some (i, t'))
          × (get_elem? t'.procs i ≡ some p)
          × (p.state ≡ embryo)
          × (p.killed ≡ true))
kill_zero-claim_slot t i by_pid by_state =
    let (o, there, free, first) = find_slot-IsFirst (has_state unused) t.procs by_state in
    let marked : get_elem? poisoned.procs i ≡ some (killed_proc o) =
      get_elem?-modify_self killed_proc i t.procs there in
    rw (kill_found t 0 i by_pid) (
      refl,
      (
        claim_table i poisoned,
        claimed t.nextpid (killed_proc o),
        claim_slot_found poisoned i
            (find_from-modify (has_state unused) killed_proc 0 i t.procs kill-unused ∙ by_state),
        get_elem?-modify_self (claimed t.nextpid) i poisoned.procs marked,
        refl,
        refl,
      ),
    )
  where
    poisoned : Ptable
    poisoned = record t { procs = modify killed_proc i t.procs }
