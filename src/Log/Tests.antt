-- ===== src/Log/Tests.antt =====
-- A transaction of one block, and the theorems on it.
use exp.Base.{
  ℕ, zero, suc, ◌≡◌, ◌≢◌, refl, false, ◌⊎◌, List, length, panic, ◌>>=◌, ◌-◌, ◌+◌, ◌<◌, inl, [], ◌∷◌,
  get_elem?, some, arith, done, ◌==◌, if◌then◌else◌,
}
use exp.Log.{
  Log, log_size, Block, Store, update, begin_op, log_write, commit, recover_from_log, reboot,
  write_log, bwrite, install_trans, head_of, write_head, read_head, overwrite, with_head,
}
use exp.Log.Space.{Reserved, log_write-Reserved}
use exp.Log.Atomic.{IsHome}
use exp.Log.Recovery.{Ready}
use exp.Log.Crash.{restarts, commit_atomic, commit_durable}

abbrev old_block : ℕ → Block
old_block b = if b == 10 then 0 ∷ 0 ∷ 0 ∷ [] else 1 ∷ []

abbrev new_block : ℕ → Block
new_block = update old_block 3 (7 ∷ [])

abbrev before_commit : ℕ → Store
before_commit power = record { disk = old_block; cache = new_block; power = power }

before_commit-Ready : (power : ℕ) → Ready 10 (3 ∷ []) old_block new_block (before_commit power)
unfolding head_of
before_commit-Ready power = record {
  transaction = record { home = home; clean = clean };
  clear = record { head = clear; same = λ x h. refl };
  cached = λ x h. refl;
  room = omega arith;
}
  where
    home : (i b : ℕ) → get_elem? (3 ∷ []) i ≡ some b → IsHome 10 (3 ∷ []) old_block new_block b
    home zero b e = inl (ground arith)
    home (suc i) b e = cc

    clean :
        (x : ℕ)
        → IsHome 10 (3 ∷ []) old_block new_block x
        → ((i : ℕ) → get_elem? (3 ∷ []) i ≢ some x)
        → old_block x ≡ new_block x
    clean x h fresh = ground (arith, fresh 0)

    clear : head_of (0 ∷ 0 ∷ 0 ∷ []) ≡ []
    clear = refl

-- The power fails after the log block and the header are written, and again during recovery.
commit_recovered :
    (recover_from_log 10
        (reboot 2 (restarts 10 (1 ∷ []) (commit 10 (3 ∷ []) (before_commit 2))))).disk
      3
    ≡ 7 ∷ []
unfolding recover_from_log restarts commit reboot read_head write_head install_trans write_log
    bwrite head_of overwrite with_head
commit_recovered = refl

-- Here it fails before the header is written.
commit_lost :
    (recover_from_log 10 (reboot 2 (commit 10 (3 ∷ []) (before_commit 1)))).disk 3 ≡ 1 ∷ []
unfolding recover_from_log commit reboot read_head write_head install_trans write_log bwrite head_of
    overwrite with_head
commit_lost = refl

commit_atomic_example :
    let m =
      recover_from_log 10
        (reboot 2 (restarts 10 (1 ∷ []) (commit 10 (3 ∷ []) (before_commit 2)))) in
    ((x : ℕ) → IsHome 10 (3 ∷ []) old_block new_block x → m.disk x ≡ old_block x)
    ⊎ ((x : ℕ) → IsHome 10 (3 ∷ []) old_block new_block x → m.disk x ≡ new_block x)
commit_atomic_example =
    commit_atomic 10 (3 ∷ []) old_block new_block (before_commit 2) (1 ∷ []) 2
      (before_commit-Ready 2) (omega arith)

commit_durable_example :
    (restarts 10 (1 ∷ 0 ∷ []) (commit 10 (3 ∷ []) (before_commit 4))).disk 3 ≡ 7 ∷ []
commit_durable_example =
    (commit_durable 10 (3 ∷ []) old_block new_block (before_commit 4) (1 ∷ 0 ∷ [])
        (before_commit-Ready 4) (omega arith)).0
      3 (inl (omega arith))

abbrev busy : Log
busy = record { start = 2; size = 31; outstanding = 1; committing = false; lh = 40 ∷ 41 ∷ [] }

busy-Reserved : Reserved busy 8
busy-Reserved = omega arith

busy_admitted : begin_op busy ≡ done (record busy { outstanding = 2 })
unfolding begin_op
busy_admitted = refl

abbrev numbers : ℕ → List ℕ
numbers zero = []
numbers (suc n) = (n + 40) ∷ numbers n

-- Three operations run, which have logged 29 blocks of the 30 that were reserved for them.
abbrev crowded : Log
crowded = record { start = 2; size = 30; outstanding = 3; committing = false; lh = numbers 29 }

crowded-Reserved : Reserved crowded 1
crowded-Reserved = omega arith

crowded_panics : log_write 99 crowded ≡ panic
unfolding log_write
crowded_panics = refl

-- `begin_op` has admitted all three of them.
three_admitted :
    (do
      one ← begin_op (record crowded { outstanding = 0; lh = [] })
      two ← begin_op one
      begin_op two)
    ≡ done (record crowded { lh = [] })
unfolding begin_op
three_admitted = refl

log_write-Reserved_example :
    ((length crowded.lh ≡ log_size - 1) × (log_write 99 crowded ≡ panic))
    ⊎ ((length crowded.lh < log_size - 1)
        × (l' : Log) × (log_write 99 crowded ≡ done l')
        × Reserved l' 0
        × (l'.outstanding ≡ 3))
log_write-Reserved_example = log_write-Reserved 99 crowded 0 crowded-Reserved refl
