-- ===== src/Proc/Lifecycle/Orphans.antt =====
-- `exit` under the table's lock: the parent is woken, the children go to `initproc`, and the
-- process becomes a ZOMBIE that its parent's `wait` finds.
use exp.Base.{
  ℕ, zero, suc, ◌+◌, ◌≡◌, ◌≢◌, ap, ◌⊎◌, ◌≤◌, ◌<◌, refl, sym, ◌∙◌, inl, inr, Bool, true, false,
  Option, some, List, length, length-map, get_elem?, get_elem?-lt, arith, ℕ_discrete, Option-cases,
  Bool-cases, ==_self, if◌then◌else◌, done, ◌&&◌, ◌||◌, leb, ltb, subst, ◌==◌,
}
use exp.Proc.{
  Proc, Ptable, Chan, null, address, proc_slot, has_state, same_chan, zombie, sleeping, runnable,
  modify, wakeup1,
}
use exp.Proc.Slots.{
  state_of, not_in, get_elem?-modify_self, get_elem?-modify_at, get_elem?-modify_ne,
}
use exp.Proc.Scheduler.Handover.{wakeup1_lem}
use exp.Proc.Lifecycle.{same_parent, adopt_one, adopt, exit_locked, Services, wait}
use exp.Proc.Lifecycle.Reap.{same_parent_of, not_child, wait_cases}

-- Slot `j` of a table, before and after a stretch of the loop that has looked at slot `j` or not.
-- A sleeper on a channel of `on` may have been woken.
record Kept (on : Chan → Bool) (c init : ℕ) (p : Proc) (looked : Bool) (r : Option Proc)
    : Type 0 where
  after : Proc
  there : r ≡ some after
  rest : after ≡ record p { state = after.state; parent = after.parent }
  state :
      (after.state ≡ p.state)
      ⊎ ((has_state sleeping p ≡ true) × (after.state ≡ runnable) × (on p.chan ≡ true))
  parent : after.parent ≡ (if looked && same_parent p.parent c then some init else p.parent)

module _ (on : Chan → Bool) (c init : ℕ) where
  Kept-ready :
      (p : Proc) (b : Bool) (r : Option Proc) (v : Kept on c init p b r)
      → has_state runnable p ≡ true
      → has_state runnable v.after ≡ true
  Kept-ready p b r v h = elim v.state [
    | inl same ↦ rw same h
    | inr (asleep, woke, named) ↦ rw woke refl
  ]

  Kept-awake :
      (p : Proc) (b : Bool) (r : Option Proc) (v : Kept on c init p b r)
      → has_state sleeping p ≡ false
      → v.after.state ≡ p.state
  Kept-awake p b r v h = elim v.state [ inl same ↦ same | inr (asleep, woke, named) ↦ cc ]

  wakeup1-Kept :
      (chan : Chan) (ps : List Proc) (j : ℕ) {p : Proc}
      → (same_chan p.chan chan ≡ true → on p.chan ≡ true)
      → get_elem? ps j ≡ some p
      → Kept on c init p false (get_elem? (wakeup1 chan ps) j)
  wakeup1-Kept chan ps j {p} named e = elim (Bool-cases (has_state sleeping p)) [
    | inr up ↦ record {
      after = p;
      there = ground (arith, wakeup1_lem chan ps j e);
      rest = refl;
      state = inl refl;
      parent = refl;
    }
    | inl asleep ↦ elim (Bool-cases (same_chan p.chan chan)) [
      | inl hit ↦ record {
        after = record p { state = runnable };
        there = ground (arith, wakeup1_lem chan ps j e);
        rest = refl;
        state = inr (asleep, refl, named hit);
        parent = refl;
      }
      | inr miss ↦ record {
        after = p;
        there = ground (arith, wakeup1_lem chan ps j e);
        rest = refl;
        state = inl refl;
        parent = refl;
      }
    ]
  ]

module _ (on : Chan → Bool) (c init : ℕ) (apart : init ≢ c)
    (named : (ch : Chan) → same_chan ch (proc_slot init) ≡ true → on ch ≡ true) where
  -- Two stretches of the loop, one after the other.
  Kept-then :
      (p : Proc) (b d : Bool) (r s : Option Proc) (v : Kept on c init p b r)
      → Kept on c init v.after d s
      → Kept on c init p (b || d) s
  Kept-then p b d r s v w = record {
    after = w.after;
    there = w.there;
    rest = cc (w.rest, v.rest);
    state = elim w.state [
      | inr (asleep, woke, hit) ↦ elim v.state [
        | inl same ↦ inr (ground (arith, same, asleep), woke, ground (arith, v.rest, hit))
        | inr (a, b', h) ↦ inr (a, woke, h)
      ]
      | inl still ↦ elim v.state [
        | inl same ↦ inl (still ∙ same)
        | inr (a, b', h) ↦ inr (a, still ∙ b', h)
      ]
    ];
    parent = ground (arith, v.parent, w.parent);
  }

  unchanged-Kept :
      (p : Proc) (b : Bool) (r : Option Proc)
      → r ≡ some p
      → (b ≡ true → same_parent p.parent c ≡ false)
      → Kept on c init p b r
  unchanged-Kept p b r e h = record {
    after = p;
    there = e;
    rest = refl;
    state = inl refl;
    parent = ground arith;
  }

  set_parent-Kept :
      (i : ℕ) (ps : List Proc) (j : ℕ) {p : Proc}
      → get_elem? ps j ≡ some p
      → ((i == j) ≡ true → same_parent p.parent c ≡ true)
      → Kept on c init p (i == j) (get_elem? (modify (λ q. record q { parent = some init }) i ps) j)
  set_parent-Kept i ps j {p} e h = elim (ℕ_discrete i j) [
    | yes same ↦ record {
      after = record p { parent = some init };
      there = ground (arith, get_elem?-modify_self (λ q. record q { parent = some init }) j ps e);
      rest = refl;
      state = inl refl;
      parent = ground arith;
    }
    | no other ↦
        unchanged-Kept p (i == j) _ (get_elem?-modify_ne _ i j ps other ∙ e) (λ z. ground arith)
  ]

  Kept-no_more :
      (p : Proc) (b : Bool) (r : Option Proc)
      → Kept on c init p (b || false) r
      → Kept on c init p b r
  Kept-no_more p true r v = v
  Kept-no_more p false r v = v

  adopt_one-Kept :
      (i : ℕ) (ps : List Proc) (j : ℕ) {p : Proc}
      → get_elem? ps j ≡ some p
      → Kept on c init p (i == j) (get_elem? (adopt_one i c init ps) j)
  unfolding adopt_one
  adopt_one-Kept i ps j {p} e = elim (Option-cases (get_elem? ps i)) [
    | inl gone ↦ rw (gone, adopt_one) (unchanged-Kept p (i == j) _ e (λ z. ground arith))
    | inr (x, here) ↦ elim (Bool-cases (same_parent x.parent c)) [
      | inr other ↦ rw (here, other, adopt_one) (unchanged-Kept p (i == j) _ e (λ z. ground arith))
      | inl child ↦
          let moved : Kept on c init p (i == j) _ = set_parent-Kept i ps j e (λ z. ground arith) in
          elim (Bool-cases (has_state zombie x)) [
            | inr alive ↦ rw (here, child, alive, adopt_one) moved
            | inl dead ↦
                rw (here, child, dead, adopt_one)
                  (Kept-no_more p (i == j) _ (
                    Kept-then p (i == j) false _ _ moved
                      (wakeup1-Kept on c init (proc_slot init) _ j (named _) moved.there)))
          ]
    ]
  ]

  adopt-Kept :
      (n i : ℕ) (ps : List Proc) (j : ℕ) {p : Proc}
      → get_elem? ps j ≡ some p
      → Kept on c init p (leb i j && ltb j (i + n)) (get_elem? (adopt n i c init ps) j)
  unfolding adopt
  adopt-Kept zero i ps j {p} e = unchanged-Kept p _ _ e (λ z. ground arith)
  adopt-Kept (suc n) i ps j {p} e =
      let first : Kept on c init p (i == j) (get_elem? (adopt_one i c init ps) j) =
        adopt_one-Kept i ps j e in
      subst (λ b. Kept on c init p b (get_elem? (adopt n (i + 1) c init (adopt_one i c init ps)) j))
        (ground arith)
        (Kept-then p (i == j) (leb (i + 1) j && ltb j (i + 1 + n)) _ _ first
          (adopt-Kept n (i + 1) (adopt_one i c init ps) j first.there))

  -- The round at a ZOMBIE child makes a sleeper on `initproc`'s slot RUNNABLE.
  adopt_one-wakes :
      (i : ℕ) (ps : List Proc) (j : ℕ) {z x : Proc}
      → get_elem? ps i ≡ some z
      → same_parent z.parent c ≡ true
      → has_state zombie z ≡ true
      → get_elem? ps j ≡ some x
      → has_state sleeping x ≡ true
      → same_chan x.chan (proc_slot init) ≡ true
      → get_elem? (adopt_one i c init ps) j ≡ some (record x { state = runnable })
  unfolding adopt_one
  adopt_one-wakes i ps j {z} {x} here child dead at asleep hit =
      let apart_slots : i ≢ j = λ same. ground arith in
      let kept : get_elem? (modify (λ q. record q { parent = some init }) i ps) j ≡ some x =
        get_elem?-modify_ne _ i j ps apart_slots ∙ at in
      rw (here, child, dead, adopt_one)
        (wakeup1_lem (proc_slot init) _ j kept ∙ rw (asleep, hit) refl)

  adopt-wakes :
      (n i : ℕ) (ps : List Proc) (d j : ℕ) {z x : Proc}
      → (i ≤ d) × (d < i + n)
      → get_elem? ps d ≡ some z
      → same_parent z.parent c ≡ true
      → has_state zombie z ≡ true
      → get_elem? ps j ≡ some x
      → has_state sleeping x ≡ true
      → same_chan x.chan (proc_slot init) ≡ true
      → (q : Proc) × (get_elem? (adopt n i c init ps) j ≡ some q) × (has_state runnable q ≡ true)
  unfolding adopt
  adopt-wakes zero i ps d j (lo, hi) here child dead at asleep hit = absurd (omega arith)
  adopt-wakes (suc n) i ps d j {z} {x} (lo, hi) here child dead at asleep hit =
      elim (ℕ_discrete i d) [
        | yes same ↦ woken (
            adopt_one-wakes i ps j {z = z} {x = x} (ap (get_elem? ps) same ∙ here) child dead at
              asleep hit)
        | no other ↦
            let u : Kept on c init z (i == d) _ = adopt_one-Kept i ps d here in
            let v : Kept on c init x (i == j) _ = adopt_one-Kept i ps j at in
            let still : u.after.state ≡ z.state =
              Kept-awake on c init z (i == d) _ u (ground arith) in
            elim v.state [
              | inr (a, woke, h) ↦
                  let w : Kept on c init v.after _ _ =
                    adopt-Kept n (i + 1) (adopt_one i c init ps) j v.there in
                  (w.after, w.there, Kept-ready on c init v.after _ _ w (rw woke refl))
              | inl same ↦
                  adopt-wakes n (i + 1) (adopt_one i c init ps) d j {z = u.after} {x = v.after}
                    (omega (arith, other), omega arith) u.there (ground (arith, u.parent, other))
                    (rw still dead) v.there (rw same asleep) (ground (arith, v.rest))
            ]
      ]
    where
      woken :
          get_elem? (adopt_one i c init ps) j ≡ some (record x { state = runnable })
          → (q : Proc) × (get_elem? (adopt n (i + 1) c init (adopt_one i c init ps)) j ≡ some q)
            × (has_state runnable q ≡ true)
      woken e =
          let w : Kept on c init (record x { state = runnable }) _ _ =
            adopt-Kept n (i + 1) (adopt_one i c init ps) j e in
          (w.after, w.there, Kept-ready on c init (record x { state = runnable }) _ _ w refl)

length-wakeup1 : (chan : Chan) (ps : List Proc) → length (wakeup1 chan ps) ≡ length ps
unfolding wakeup1
length-wakeup1 chan ps = length-map ps _

not_named :
    (ch : Chan) {a b : ℕ}
    → ch ≢ proc_slot a
    → ch ≢ proc_slot b
    → (same_chan ch (proc_slot a) || same_chan ch (proc_slot b)) ≡ true
    → ⊥
not_named null away far hit = cc
not_named (address x) away far hit = cc
not_named (proc_slot x) {a} {b} away far hit = elim (Bool-cases (x == a)) [
  | inl same ↦ away (ap proc_slot (ground arith))
  | inr differs ↦ far (ap proc_slot (ground arith))
]

module _ (c par : ℕ) (t : Ptable) (apart : t.initproc ≢ c) where
  -- The channels that `exit` by process `c`, child of `par`, may wake.
  abbrev named : Chan → Bool
  named ch = same_chan ch (proc_slot par) || same_chan ch (proc_slot t.initproc)

  init_named : (ch : Chan) → same_chan ch (proc_slot t.initproc) ≡ true → named ch ≡ true
  init_named ch h = ground arith

  abbrev woken_table : List Proc
  woken_table = wakeup1 (proc_slot par) t.procs

  abbrev adopted_table : List Proc
  adopted_table = adopt (length woken_table) 0 c t.initproc woken_table

  woken-Kept :
      (j : ℕ) {p : Proc}
      → get_elem? t.procs j ≡ some p
      → Kept named c t.initproc p false (get_elem? woken_table j)
  woken-Kept j e = wakeup1-Kept named c t.initproc (proc_slot par) t.procs j (λ h. ground arith) e

  adopted-Kept :
      (j : ℕ) {p : Proc}
      → get_elem? woken_table j ≡ some p
      → Kept named c t.initproc p
          (leb 0 j && ltb j (0 + length woken_table))
          (get_elem? adopted_table j)
  adopted-Kept j e =
      adopt-Kept named c t.initproc apart init_named (length woken_table) 0 woken_table j e

  -- The slots of the table as `exit` by process `c` leaves them, but for `c`'s own state.
  adopted :
      (j : ℕ) {p : Proc}
      → get_elem? t.procs j ≡ some p
      → Kept named c t.initproc p true (get_elem? adopted_table j)
  adopted j {p} e =
      let woken : Kept named c t.initproc p false (get_elem? woken_table j) = woken-Kept j e in
      subst (λ b. Kept named c t.initproc p b (get_elem? adopted_table j))
        (ground (arith, get_elem?-lt t.procs j e, length-wakeup1 (proc_slot par) t.procs))
        (Kept-then named c t.initproc apart init_named p false _ _ _ woken
          (adopted-Kept j woken.there))

  -- A sleeper that the first wakeup has reached stays RUNNABLE.
  stays_ready :
      (j : ℕ) {p : Proc}
      → get_elem? woken_table j ≡ some p
      → has_state runnable p ≡ true
      → (q : Proc) × (get_elem? adopted_table j ≡ some q) × (has_state runnable q ≡ true)
  stays_ready j {p} e up =
      let v : Kept named c t.initproc p _ _ = adopted-Kept j e in
      (v.after, v.there, Kept-ready named c t.initproc p _ _ v up)

  parent_wakes :
      (j : ℕ) {p : Proc}
      → get_elem? t.procs j ≡ some p
      → has_state sleeping p ≡ true
      → p.chan ≡ proc_slot par
      → (q : Proc) × (get_elem? adopted_table j ≡ some q) × (has_state runnable q ≡ true)
  parent_wakes j {p} e asleep on =
      stays_ready j {p = record p { state = runnable }}
        (ground (arith, wakeup1_lem (proc_slot par) t.procs j e, ==_self par)) refl

  init_wakes :
      (j d : ℕ) {p z : Proc}
      → get_elem? t.procs j ≡ some p
      → has_state sleeping p ≡ true
      → p.chan ≡ proc_slot t.initproc
      → get_elem? t.procs d ≡ some z
      → same_parent z.parent c ≡ true
      → has_state zombie z ≡ true
      → (q : Proc) × (get_elem? adopted_table j ≡ some q) × (has_state runnable q ≡ true)
  init_wakes j d {p} {z} e asleep on at child dead =
      let u : Kept named c t.initproc z false _ = woken-Kept d at in
      let v : Kept named c t.initproc p false _ = woken-Kept j e in
      elim v.state [
        | inr (a, woke, h) ↦ stays_ready j v.there (rw woke refl)
        | inl same ↦
            let still : u.after.state ≡ z.state =
              Kept-awake named c t.initproc z false _ u (ground arith) in
            adopt-wakes named c t.initproc apart init_named (length woken_table) 0 woken_table d j
              {z = u.after} {x = v.after}
              (
                omega arith,
                omega (arith, get_elem?-lt t.procs d at, length-wakeup1 (proc_slot par) t.procs),
              )
              u.there (rw u.parent child) (rw still dead) v.there (rw same asleep)
              (rw (ap (λ q. q.chan) v.rest, on) (==_self t.initproc))
      ]

  -- After `exit` by a process other than `initproc`, whose parent is `par`, in every slot: only the
  -- state and the parent can differ; a child of the process has `initproc` for its parent, any
  -- other process its old parent; the process itself is a ZOMBIE. In the other slots: a process
  -- that was not SLEEPING keeps its state; one SLEEPING in `wait`, on the address of the parent's
  -- slot, is RUNNABLE, and so is one on the address of `initproc`'s slot if the process had a ZOMBIE
  -- child; one SLEEPING on any other channel keeps its state.
  pub exit_locked_lem :
      (j : ℕ) (p : Proc)
      → get_elem? t.procs j ≡ some p
      → (q : Proc) × (get_elem? (exit_locked c (some par) t).procs j ≡ some q)
        × (q ≡ record p { state = q.state; parent = q.parent })
        × (p.parent ≡ some c → q.parent ≡ some t.initproc)
        × (p.parent ≢ some c → q.parent ≡ p.parent)
        × (j ≡ c → q.state ≡ zombie)
        × (j ≢ c → p.state ≢ sleeping → q.state ≡ p.state)
        × (j ≢ c → p.state ≡ sleeping → p.chan ≡ proc_slot par → q.state ≡ runnable)
        × (j ≢ c
            → p.state ≡ sleeping
            → p.chan ≡ proc_slot t.initproc
            → (d : ℕ) (z : Proc) → get_elem? t.procs d ≡ some z
            → z.parent ≡ some c
            → z.state ≡ zombie
            → q.state ≡ runnable)
        × (j ≢ c → p.chan ≢ proc_slot par → p.chan ≢ proc_slot t.initproc → q.state ≡ p.state)
  unfolding exit_locked
  exit_locked_lem j p e =
      let v : Kept named c t.initproc p true _ = adopted j e in
      elim (ℕ_discrete c j) [
        | yes same ↦ (
          record (v.after) { state = zombie },
          get_elem?-modify_at _ c j _ v.after same v.there,
          ap {A = Proc} (λ q. record q { state = zombie }) v.rest,
          λ z. v.parent ∙ rw (same_parent_of p.parent c z) refl,
          λ z. v.parent ∙ rw (not_child p.parent c z) refl,
          λ z. refl,
          λ z. absurd (z (sym same)),
          λ z. absurd (z (sym same)),
          λ z. absurd (z (sym same)),
          λ z. absurd (z (sym same)),
        )
        | no other ↦ (
          v.after,
          get_elem?-modify_ne _ c j _ other ∙ v.there,
          v.rest,
          λ z. v.parent ∙ rw (same_parent_of p.parent c z) refl,
          λ z. v.parent ∙ rw (not_child p.parent c z) refl,
          λ z. absurd (other (sym z)),
          λ z up. Kept-awake named c t.initproc p true _ v (not_in sleeping p up),
          λ z asleep on.
              state_of runnable v.after (is_after v (parent_wakes j e (rw asleep refl) on)),
          λ z asleep on d x at child dead. state_of runnable v.after (
              is_after v (
                init_wakes j d e (rw asleep refl) on at (same_parent_of x.parent c child)
                  (rw dead refl))),
          λ z away far. unnamed v away far,
        )
      ]
    where
      is_after :
          (v : Kept named c t.initproc p true (get_elem? adopted_table j))
          → (q : Proc) × (get_elem? adopted_table j ≡ some q) × (has_state runnable q ≡ true)
          → has_state runnable v.after ≡ true
      is_after v (q, at, up) = ground (arith, v.there)

      unnamed :
          (v : Kept named c t.initproc p true (get_elem? adopted_table j))
          → p.chan ≢ proc_slot par
          → p.chan ≢ proc_slot t.initproc
          → v.after.state ≡ p.state
      unnamed v away far = elim v.state [
        | inl same ↦ same
        | inr (a, b, hit) ↦ absurd (not_named p.chan away far hit)
      ]

-- When a process other than `initproc` exits, its parent, another process that sleeps in `wait`,
-- becomes RUNNABLE, and the pass of `wait` that it then makes returns the pid of a child that is a
-- ZOMBIE: the exit is not missed.
pub exit-wait :
    {E : Type 0} (k : Services E) (e : E) (killed : Bool) (c par : ℕ) (t : Ptable) (p pp : Proc)
    → t.initproc ≢ c
    → par ≢ c
    → get_elem? t.procs c ≡ some p
    → p.parent ≡ some par
    → get_elem? t.procs par ≡ some pp
    → pp.state ≡ sleeping
    → pp.chan ≡ proc_slot par
    → ((q : Proc) × (get_elem? (exit_locked c p.parent t).procs par ≡ some q)
        × (q.state ≡ runnable))
      × ((i : ℕ) × (z : Proc) × (t' : Ptable) × (e' : E) × (get_elem?
              (exit_locked c p.parent t).procs
              i
            ≡ some z)
          × (z.parent ≡ some par)
          × (z.state ≡ zombie)
          × (wait k par killed (exit_locked c p.parent t) e ≡ done (some z.pid, t', e')))
exit-wait k e killed c par t p pp apart other at child at_par asleep on =
    let (q, there, rest, taken, parent, dead, still, ready, adopts, kept) =
      exit_locked_lem c par t apart c p at in
    let (r, at_r, rest_r, taken_r, parent_r, dead_r, still_r, woken, adopts_r, kept_r) =
      exit_locked_lem c par t apart par pp at_par in
    let (i, z, t', e', here, its, gone, found) =
      (wait_cases k par killed (exit_locked c (some par) t) e).0 c q there
        (parent (λ z. ground arith) ∙ child) (dead refl) in
    rw child ((r, at_r, woken other asleep on), (i, z, t', e', here, its, gone, found))
