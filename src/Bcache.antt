-- ===== src/Bcache.antt =====
-- xv6-add_FAIRNESS/bio.c, with the disk in memory of memide.c. The list of buffers in the order of
-- `next` is a list, the most recently used first, and a pointer to a buffer an index into it. What
-- runs under bcache.lock is one function; `blocked` is a wait for a buffer's sleep lock.
pub mod Find
pub mod Unique
pub mod Release
mod Tests
use exp.Base.{
  ℕ, zero, suc, ◌+◌, ◌-◌, ◌==◌, ltb, leb, Bool, true, false, not, ◌&&◌, ◌||◌, Option, none, some,
  List, [], ◌∷◌, get_elem?, if◌then◌else◌, Outcome, done, blocked, panic, ◌>>=◌,
}
use exp.Fs.{Bytes, put}
use exp.Icache.{acquiresleep, holdingsleep, releasesleep}

-- `struct buf`; B_VALID and B_DIRTY are Booleans.
pub record Buf : Type 0 where
  pub valid : Bool
  pub dirty : Bool
  pub dev : ℕ
  pub blockno : ℕ
  pub lock : Option ℕ
  pub refcnt : ℕ
  pub bytes : Bytes

abbrev pub change : List Buf → ℕ → (Buf → Buf) → List Buf
change [] i f = []
change (b ∷ l) zero f = f b ∷ l
change (b ∷ l) (suc i) f = b ∷ change l i f

abbrev pub caches : ℕ → ℕ → Buf → Bool
caches dev blockno b = b.dev == dev && b.blockno == blockno

abbrev pub unused : Buf → Bool
unused b = b.refcnt == 0 && not b.dirty

-- The two loops of `bget`, from index `i` on; the second one goes backwards.
unfoldable pub find_cached : ℕ → ℕ → List Buf → ℕ → Option ℕ
find_cached dev blockno [] i = none
find_cached dev blockno (b ∷ l) i =
    let later = find_cached dev blockno l (i + 1) in if caches dev blockno b then some i else later

abbrev pub or_this : Option ℕ → Buf → ℕ → Option ℕ
or_this (some j) b i = some j
or_this none b i = if unused b then some i else none

unfoldable pub find_unused : List Buf → ℕ → Option ℕ
find_unused [] i = none
find_unused (b ∷ l) i = or_this (find_unused l (i + 1)) b i

abbrev pub refer : Buf → Buf
refer b = record b { refcnt = b.refcnt + 1 }

abbrev pub recycle : ℕ → ℕ → Buf → Buf
recycle dev blockno b = record b {
  dev = dev;
  blockno = blockno;
  valid = false;
  dirty = false;
  refcnt = 1;
}

-- `bget` up to the release of bcache.lock.
unfoldable pub bget_find : ℕ → ℕ → List Buf → Outcome (ℕ × List Buf)
bget_find dev blockno l = elim (find_cached dev blockno l 0) [
  | some i ↦ done (i, change l i refer)
  | none ↦ elim (find_unused l 0) [
    | some i ↦ done (i, change l i (recycle dev blockno))
    | none ↦ panic
  ]
]

-- `acquiresleep(&b->lock)`
unfoldable pub lock_buf : ℕ → ℕ → List Buf → Outcome (List Buf)
lock_buf pid i l = elim (get_elem? l i) [
  | none ↦ panic
  | some b ↦ (do lock ← acquiresleep pid b.lock; done (change l i (λ b. record b { lock = lock })))
]

-- `bget`
unfoldable pub bget : ℕ → ℕ → ℕ → List Buf → Outcome (ℕ × List Buf)
bget pid dev blockno l = do
  (i, l') ← bget_find dev blockno l
  l'' ← lock_buf pid i l'
  done (i, l'')

-- `iderw` on a disk of `n` blocks.
unfoldable pub iderw : ℕ → ℕ → Buf → (ℕ → Bytes) → Outcome (Buf × (ℕ → Bytes))
iderw n pid b disk =
    if (not (holdingsleep pid b.lock) || (b.valid && not b.dirty))
      || (not (b.dev == 1) || leb n b.blockno)
    then panic
    else (if b.dirty
        then done (record b { dirty = false; valid = true }, put disk b.blockno b.bytes)
        else done (record b { bytes = disk b.blockno; valid = true }, disk))

-- `bread`
unfoldable pub bread : ℕ → ℕ → ℕ → ℕ → List Buf → (ℕ → Bytes) → Outcome (ℕ × List Buf × (ℕ → Bytes))
bread n pid dev blockno l disk = do
  (i, l') ← bget pid dev blockno l
  elim (get_elem? l' i) [
    | none ↦ panic
    | some b ↦
        if b.valid
        then done (i, l', disk)
        else (do (b', disk') ← iderw n pid b disk; done (i, change l' i (λ b. b'), disk'))
  ]

-- `bwrite`
unfoldable pub bwrite : ℕ → ℕ → Buf → (ℕ → Bytes) → Outcome (Buf × (ℕ → Bytes))
bwrite n pid b disk =
    if not (holdingsleep pid b.lock) then panic else iderw n pid (record b { dirty = true }) disk

-- `brelse`: the buffer goes to the front if nobody has it.
abbrev pub remove : List Buf → ℕ → List Buf
remove [] i = []
remove (b ∷ l) zero = l
remove (b ∷ l) (suc i) = b ∷ remove l i

unfoldable pub brelse : ℕ → ℕ → List Buf → Outcome (List Buf)
brelse pid i l = elim (get_elem? l i) [
  | none ↦ panic
  | some b ↦
      if not (holdingsleep pid b.lock)
      then panic
      else (let b' = record b { lock = releasesleep b.lock; refcnt = b.refcnt - 1 } in
          if b'.refcnt == 0 then done (b' ∷ remove l i) else done (change l i (λ b. b')))
]
