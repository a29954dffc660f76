-- ===== src/Log.antt =====
-- xv6-add_FAIRNESS/log.c: the physical redo log. A block is the list of its words. The buffer
-- cache is seen through `bread` (the cached contents of a block) and `bwrite` (contents go to the
-- cache and to the disk); which buffers are in memory is the matter of bio.c. The in-memory header
-- `lh` is the list of its first `n` block numbers.
pub mod Space
pub mod Atomic
pub mod Recovery
pub mod Crash
mod Tests
use exp.Base.{
  ℕ, zero, suc, ◌+◌, ◌-◌, ◌*◌, ◌==◌, ltb, leb, Bool, true, false, ◌||◌, List, [], ◌∷◌, ◌++◌, length,
  take, if◌then◌else◌, Outcome, done, blocked, panic, ◌>>=◌,
}

abbrev pub max_op_blocks : ℕ
max_op_blocks = 10

abbrev pub log_size : ℕ
log_size = max_op_blocks * 3

abbrev pub Block : Type 0
Block = List ℕ

-- The contents of every block on the disk and in the cache. The machine loses power after `power`
-- more block writes: from then on the disk stays as it is.
pub record Store : Type 0 where
  pub disk : ℕ → Block
  pub cache : ℕ → Block
  pub power : ℕ

abbrev pub update : (ℕ → Block) → ℕ → Block → ℕ → Block
update f a v b = if a == b then v else f b

abbrev pub bread : ℕ → Store → Block
bread b m = m.cache b

unfoldable pub bwrite : ℕ → Block → Store → Store
bwrite b v m = record {
  disk = if m.power == 0 then m.disk else update m.disk b v;
  cache = update m.cache b v;
  power = m.power - 1;
}

-- After a reboot the cache holds what the disk holds.
pub reboot : ℕ → Store → Store
reboot power m = record { disk = m.disk; cache = m.disk; power = power }

-- The loop of `write_log`; `tail` is the index of the head of the list.
unfoldable pub write_log : ℕ → ℕ → List ℕ → Store → Store
write_log start tail [] m = m
write_log start tail (b ∷ bs) m =
    write_log start (tail + 1) bs (bwrite (start + tail + 1) (bread b m) m)

-- The loop of `install_trans`.
unfoldable pub install_trans : ℕ → ℕ → List ℕ → Store → Store
install_trans start tail [] m = m
install_trans start tail (b ∷ bs) m =
    install_trans start (tail + 1) bs (bwrite b (bread (start + tail + 1) m) m)

-- `struct logheader` in a block: `n`, then the block numbers.
pub head_of : Block → List ℕ
head_of [] = []
head_of (n ∷ ws) = take n ws

pub overwrite : List ℕ → List ℕ → List ℕ
overwrite [] ws = ws
overwrite (b ∷ bs) [] = []
overwrite (b ∷ bs) (w ∷ ws) = b ∷ overwrite bs ws

pub with_head : List ℕ → Block → Block
with_head lh ws = overwrite (length lh ∷ lh) ws

unfoldable pub read_head : ℕ → Store → List ℕ
read_head start m = head_of (bread start m)

unfoldable pub write_head : ℕ → List ℕ → Store → Store
write_head start lh m = bwrite start (with_head lh (bread start m)) m

-- `commit`
pub commit : ℕ → List ℕ → Store → Store
commit start [] m = m
commit start (b ∷ bs) m =
    write_head start []
      (install_trans start 0 (b ∷ bs) (write_head start (b ∷ bs) (write_log start 0 (b ∷ bs) m)))

-- `recover_from_log`
pub recover_from_log : ℕ → Store → Store
recover_from_log start m = write_head start [] (install_trans start 0 (read_head start m) m)

-- The rest of `struct log`.
pub record Log : Type 0 where
  pub start : ℕ
  pub size : ℕ
  pub outstanding : ℕ
  pub committing : Bool
  pub lh : List ℕ

-- A turn of the loop of `begin_op`: it is `blocked` where the code sleeps and tries again.
pub begin_op : Log → Outcome Log
begin_op l =
    if l.committing
    then blocked
    else if ltb log_size (length l.lh + (l.outstanding + 1) * max_op_blocks)
    then blocked
    else done (record l { outstanding = l.outstanding + 1 })

-- The first locked part of `end_op`: whether to commit. Without an operation outstanding the count
-- would go below 0; no caller does that.
pub end_op : Log → Outcome (Bool × Log)
end_op l =
    let left = l.outstanding - 1 in
    if l.committing
    then panic
    else if left == 0
    then done (true, record l { outstanding = left; committing = true })
    else done (false, record l { outstanding = left })

-- The rest of `end_op` once it is to commit.
pub end_commit : Log → Store → Log × Store
end_commit l m = (record l { committing = false; lh = [] }, commit l.start l.lh m)

-- The loop of `log_write` with the store behind it: a block number in the log is not added again.
pub absorb : ℕ → List ℕ → List ℕ
absorb b [] = b ∷ []
absorb b (x ∷ xs) = if x == b then x ∷ xs else x ∷ absorb b xs

-- `log_write(b)`
pub log_write : ℕ → Log → Outcome Log
log_write b l =
    if leb log_size (length l.lh) || leb (l.size - 1) (length l.lh)
    then panic
    else if l.outstanding == 0
    then panic
    else done (record l { lh = absorb b l.lh })
