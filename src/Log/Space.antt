-- ===== src/Log/Space.antt =====
-- The room in the log that `begin_op` reserves for an operation, and where `log_write` panics.
use exp.Base.{
  ℕ, suc, ◌+◌, ◌-◌, ◌*◌, ◌≤◌, ◌<◌, ◌≡◌, ◌⊎◌, ltb, panic, refl, Bool, true, false, List, [], ◌∷◌,
  length, get_elem?, some, done, arith, ◌==◌, inl, inr, Bool-cases,
}
use exp.Log.{Log, log_size, max_op_blocks, begin_op, end_op, end_commit, log_write, absorb, Store}

-- The running operations may still log `left` blocks, at most `max_op_blocks` each.
pub record Reserved (l : Log) (left : ℕ) : Type 0 where
  pub fits : length l.lh + left ≤ log_size
  pub each : left ≤ l.outstanding * max_op_blocks

length-absorb : (b : ℕ) (xs : List ℕ) → length (absorb b xs) ≤ length xs + 1
unfolding absorb
length-absorb b [] = omega arith
length-absorb b (x ∷ xs) = ground (arith, length-absorb b xs)

-- An operation that `begin_op` admits has room for `max_op_blocks` more blocks, beside what the
-- others may still log.
pub begin_op-Reserved :
    (l l' : Log) (left : ℕ)
    → Reserved l left
    → begin_op l ≡ done l'
    → Reserved l' (left + max_op_blocks) × (l'.outstanding ≡ l.outstanding + 1)
unfolding begin_op
begin_op-Reserved l l' left v e = ground arith

-- With a log of LOGSIZE blocks on disk, header included, and inside the reservation, `log_write`
-- panics exactly if LOGSIZE - 1 blocks are logged already, although the reservation counts
-- LOGSIZE; else it goes on, using up one block of the reservation at most.
pub log_write-Reserved :
    (b : ℕ) (l : Log) (left : ℕ)
    → Reserved l (suc left)
    → l.size ≡ log_size
    → ((length l.lh ≡ log_size - 1) × (log_write b l ≡ panic))
      ⊎ ((length l.lh < log_size - 1)
          × (l' : Log) × (log_write b l ≡ done l')
          × Reserved l' left
          × (l'.outstanding ≡ l.outstanding))
unfolding log_write
log_write-Reserved b l left v disk = elim (Bool-cases (ltb (length l.lh) (log_size - 1))) [
  | inr full ↦ inl (ground (arith, v.fits), ground (arith, v.fits))
  | inl room ↦ inr (
    ground arith,
    record l { lh = absorb b l.lh },
    ground (arith, v.each),
    ground (arith, v.fits, v.each, length-absorb b l.lh),
    refl,
  )
]

-- `end_op` by an operation that still had `mine` blocks to log keeps the reservation of the others;
-- it commits exactly when no other operation runs, and the log is empty afterwards.
pub end_op-Reserved :
    (l : Log) (mine left : ℕ)
    → l.committing ≡ false
    → 0 < l.outstanding
    → mine ≤ max_op_blocks
    → Reserved l (mine + left)
    → left ≤ (l.outstanding - 1) * max_op_blocks
    → (commits : Bool) × (l' : Log) × (end_op l ≡ done (commits, l'))
      × Reserved l' left
      × (commits ≡ (l.outstanding == 1))
      × ((m : Store) → commits ≡ true → Reserved (end_commit l' m).0 0)
unfolding end_op end_commit
end_op-Reserved l mine left idle some_op small v others = (
  l.outstanding == 1,
  record l { outstanding = l.outstanding - 1; committing = l.outstanding == 1 },
  ground arith,
  omega arith,
  refl,
  λ m h. omega arith,
)

-- Every block number of the log, and the new one, is there after `log_write`, and no number twice.
pub absorb-mem : (b : ℕ) (xs : List ℕ) → (i : ℕ) × (get_elem? (absorb b xs) i ≡ some b)
unfolding absorb
absorb-mem b [] = (0, refl)
absorb-mem b (x ∷ xs) = elim (Bool-cases (x == b)) [
  | inl same ↦ (0, ground arith)
  | inr other ↦ let (i, at) = absorb-mem b xs in (suc i, ground arith)
]
