-- ===== src/Log/Crash.antt =====
-- Crashes during `commit` and during recovery, in any number.
use exp.Base.{
  ℕ, ◌+◌, ◌*◌, ◌≤◌, ◌<◌, ◌≡◌, ◌≢◌, refl, ap, ◌∙◌, ◌⊎◌, inl, inr, List, [], ◌∷◌, length,
  get_elem?-lt, ◌-◌, arith, dec_lt,
}
use exp.Log.{
  Block, Store, reboot, write_log, install_trans, head_of, with_head, read_head, write_head, commit,
  recover_from_log,
}
use exp.Log.Atomic.{
  bwrite_disk, bwrite_disk_ne, bwrite_dead, head_of-empty, IsHome, IsTransaction, Committed, After,
  Installing,
}
use exp.Log.Recovery.{
  power-install_trans, power-write_log, commit_stages, commit-cases, Phase, before, committed,
  after, off_home, clear_head, clear_head-Phase, after_commit_point, power-write_head, commit_point,
  Ready, Ready-Writing, commit-Phase,
}

-- The machine is started again and again; each time recovery runs until the power fails, after the
-- number of block writes that the list gives.
unfoldable pub restarts : ℕ → List ℕ → Store → Store
restarts start [] m = m
restarts start (k ∷ ks) m = restarts start ks (recover_from_log start (reboot k m))

recover_reads :
    (start k : ℕ) (l : List ℕ) (m : Store)
    → head_of (m.disk start) ≡ l
    → recover_from_log start (reboot k m)
      ≡ write_head start [] (install_trans start 0 l (reboot k m))
unfolding recover_from_log read_head reboot
recover_reads start k l m e =
    ap (λ l'. write_head start [] (install_trans start 0 l' (reboot k m))) e

install_trans-nil : (start : ℕ) (m : Store) → install_trans start 0 [] m ≡ m
unfolding install_trans
install_trans-nil start m = refl

-- Clearing the header of a machine that has just been started.
clear_only :
    (start k : ℕ) (m : Store)
    → head_of (m.disk start) ≡ []
    → (head_of ((write_head start [] (reboot k m)).disk start) ≡ [])
      × ((x : ℕ) → start ≢ x → (write_head start [] (reboot k m)).disk x ≡ m.disk x)
unfolding write_head reboot
clear_only start k m e = elim (dec_lt 0 k) [
  | yes alive ↦ (
    ap head_of (bwrite_disk start v (reboot k m) alive) ∙ head_of-empty (m.disk start),
    λ x h. bwrite_disk_ne start v (reboot k m) x h,
  )
  | no dead ↦ (
    ap (λ d. head_of (d start)) (bwrite_dead start v (reboot k m) (omega arith)) ∙ e,
    λ x h. ap (λ d. d x) (bwrite_dead start v (reboot k m) (omega arith)),
  )
]
  where
    v : Block
    v = with_head [] (m.disk start)

module _ (start : ℕ) (lh : List ℕ) (old new : ℕ → Block) where
  abbrev Same : (ℕ → Block) → (ℕ → Block) → Type 0
  Same d e = (x : ℕ) → IsHome start lh old new x → d x ≡ e x

  -- Recovery with an empty header on the disk leaves the header empty and the file system as it is.
  recover_empty :
      (k : ℕ) (m : Store)
      → head_of (m.disk start) ≡ []
      → (head_of ((recover_from_log start (reboot k m)).disk start) ≡ [])
        × Same (recover_from_log start (reboot k m)).disk m.disk
  recover_empty k m e =
      let (clear, same) = clear_only start k m e in
      rw (recover_reads start k [] m e, install_trans-nil)
        (clear, λ x h. same x (off_home start lh old new x h))

  reboot-Installing :
      (k : ℕ) (m : Store)
      → Committed start lh old new m.disk
      → Installing start lh old new 0 (reboot k m)
  unfolding reboot
  reboot-Installing k m w = record { committed = w; cached = w.logged; installed = λ p. w.rest }

  power-reboot : (k : ℕ) (m : Store) → (reboot k m).power ≡ k
  unfolding reboot
  power-reboot k m = refl

  -- Recovery of a committed transaction.
  recover_committed :
      (k : ℕ) (m : Store)
      → IsTransaction start lh old new
      → Committed start lh old new m.disk
      → Phase start lh old new (recover_from_log start (reboot k m)).disk
        × (length lh < k → After start lh old new (recover_from_log start (reboot k m)).disk)
  recover_committed k m t w = rw (recover_reads start k lh m w.head) (
    clear_head-Phase start lh old new installed v,
    λ big.
        (clear_head start lh old new installed v).1
          (omega (arith, power-install_trans start 0 lh (reboot k m), power-reboot k m)),
  )
    where
      installed : Store
      installed = install_trans start 0 lh (reboot k m)

      v : Installing start lh old new (length lh) installed
      v = after_commit_point start lh old new (reboot k m) t (reboot-Installing k m w)

  -- Recovery takes each phase to a phase.
  recover-Phase :
      (k : ℕ) (m : Store)
      → IsTransaction start lh old new
      → Phase start lh old new m.disk
      → Phase start lh old new (recover_from_log start (reboot k m)).disk
  recover-Phase k m t (before v) =
      let (clear, same) = recover_empty k m v.head in
      before (record { head = clear; same = λ x h. same x h ∙ v.same x h })
  recover-Phase k m t (committed v) = (recover_committed k m t v).0
  recover-Phase k m t (after v) =
      let (clear, same) = recover_empty k m v.head in
      after (record { head = clear; same = λ x h. same x h ∙ v.same x h })

  restarts-Phase :
      (ks : List ℕ) (m : Store)
      → IsTransaction start lh old new
      → Phase start lh old new m.disk
      → Phase start lh old new (restarts start ks m).disk
  unfolding restarts
  restarts-Phase [] m t v = v
  restarts-Phase (k ∷ ks) m t v =
      restarts-Phase ks (recover_from_log start (reboot k m)) t (recover-Phase k m t v)

  settle :
      (k : ℕ) (m : Store)
      → IsTransaction start lh old new
      → length lh < k
      → Phase start lh old new m.disk
      → Same (recover_from_log start (reboot k m)).disk old
        ⊎ Same (recover_from_log start (reboot k m)).disk new
  settle k m t big (before v) =
      let (clear, same) = recover_empty k m v.head in inl (λ x h. same x h ∙ v.same x h)
  settle k m t big (committed v) = inr ((recover_committed k m t v).1 big).same
  settle k m t big (after v) =
      let (clear, same) = recover_empty k m v.head in inr (λ x h. same x h ∙ v.same x h)

  -- A transaction is atomic: the power fails at any moment of `commit`, then at any moments of any
  -- number of recoveries; after one more recovery that has the power for all its block writes,
  -- either every block outside the log has its old contents or every one has its new contents.
  pub commit_atomic :
      (m : Store) (ks : List ℕ) (k : ℕ)
      → Ready start lh old new m
      → length lh < k
      → Same (recover_from_log start (reboot k (restarts start ks (commit start lh m)))).disk old
        ⊎ Same (recover_from_log start (reboot k (restarts start ks (commit start lh m)))).disk new
  commit_atomic m ks k v big =
      settle k (restarts start ks (commit start lh m)) v.transaction big
        (restarts-Phase ks (commit start lh m) v.transaction (commit-Phase start lh old new m v))

  stages_After :
      (m : Store)
      → Ready start lh old new m
      → 2 * length lh + 2 ≤ m.power
      → After start lh old new (commit_stages start lh m).disk
  unfolding commit_stages
  stages_After m v big =
      (clear_head start lh old new (install_trans start 0 lh headed)
          (after_commit_point start lh old new headed v.transaction installing)).1
        (omega (arith, power-install_trans start 0 lh headed, left))
    where
      logged : Store
      logged = write_log start 0 lh m

      headed : Store
      headed = write_head start lh logged

      left : (logged.power ≡ m.power - length lh) × (headed.power ≡ logged.power - 1)
      left = (power-write_log start 0 lh m, power-write_head start lh old new lh logged)

      installing : Installing start lh old new 0 headed
      installing =
          (commit_point start lh old new logged v.transaction
              (Ready-Writing start lh old new m v)).1
            (omega (arith, left))

  commit_After :
      (m : Store)
      → Ready start lh old new m
      → 2 * length lh + 2 ≤ m.power
      → After start lh old new (commit start lh m).disk
  commit_After m v big = elim (commit-cases start lh m) [
    | inl (none_logged, same) ↦ rw same (record {
      head = v.clear.head;
      same = λ x h.
          v.clear.same x h
          ∙ v.transaction.clean x h
              (λ i e. absurd (omega (arith, get_elem?-lt lh i e, ap length none_logged)));
    })
    | inr stages ↦ rw stages (stages_After m v big)
  ]

  restarts-After :
      (ks : List ℕ) (m : Store)
      → After start lh old new m.disk
      → After start lh old new (restarts start ks m).disk
  unfolding restarts
  restarts-After [] m v = v
  restarts-After (k ∷ ks) m v =
      let (clear, same) = recover_empty k m v.head in
      restarts-After ks (recover_from_log start (reboot k m))
        (record { head = clear; same = λ x h. same x h ∙ v.same x h })

  -- A commit that has the power for all its block writes leaves the new contents on the disk and an
  -- empty header, and no later crash or recovery takes them back.
  pub commit_durable :
      (m : Store) (ks : List ℕ)
      → Ready start lh old new m
      → 2 * length lh + 2 ≤ m.power
      → Same (restarts start ks (commit start lh m)).disk new
        × (head_of ((restarts start ks (commit start lh m)).disk start) ≡ [])
  commit_durable m ks v big =
      let w : After start lh old new (restarts start ks (commit start lh m)).disk =
        restarts-After ks (commit start lh m) (commit_After m v big) in
      (w.same, w.head)
