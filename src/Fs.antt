-- ===== src/Fs.antt =====
-- xv6-add_FAIRNESS/fs.c and fs.h: the blocks of the disk and their allocation. A block is the byte
-- at each index, as the buffer cache holds it. `bread` and `brelse` only give access to it; the
-- calls of `log_write` are kept in order, the last first. The numbers are those of a `uint`.
pub mod Bits
pub mod Bitmap
pub mod Scan
pub mod Alloc
pub mod Tests
use exp.Base.{
  ℕ, zero, suc, ◌+◌, ◌-◌, ◌*◌, ◌/◌, ◌%◌, ◌^◌, ◌==◌, ltb, leb, Bool, true, false, not, ◌&&◌, ◌||◌,
  Option, none, some, List, [], ◌∷◌, length, if◌then◌else◌, Outcome, done, blocked, panic, ◌>>=◌,
}
use Prim.Native.Nat.{bit_and, bit_or}

abbrev pub bsize : ℕ
bsize = 512

-- `BPB`
abbrev pub bits_per_block : ℕ
bits_per_block = bsize * 8

-- `struct superblock`
pub record Superblock : Type 0 where
  pub size : ℕ
  pub nblocks : ℕ
  pub ninodes : ℕ
  pub nlog : ℕ
  pub logstart : ℕ
  pub inodestart : ℕ
  pub bmapstart : ℕ

abbrev pub Bytes : Type 0
Bytes = ℕ → ℕ

-- The disk as a transaction sees it.
pub record Disk : Type 0 where
  pub sb : Superblock
  pub blocks : ℕ → Bytes
  pub logged : List ℕ

abbrev pub put {ℓ} : {A : Type ℓ} → (ℕ → A) → ℕ → A → ℕ → A
put f i v j = if i == j then v else f j

-- A change of a buffer that `log_write` marks.
abbrev pub write_block : ℕ → Bytes → Disk → Disk
write_block b v d = record d { blocks = put d.blocks b v; logged = b ∷ d.logged }

-- `bzero`
abbrev pub bzero : ℕ → Disk → Disk
bzero b d = write_block b (λ i. 0) d

-- `BBLOCK`
abbrev pub bitmap_block : ℕ → Superblock → ℕ
bitmap_block b sb = b / bits_per_block + sb.bmapstart

-- `(bp->data[bi/8] & m) == 0` with `m = 1 << (bi % 8)`
abbrev pub is_clear : Bytes → ℕ → Bool
is_clear bytes bi = bit_and (bytes (bi / 8)) (2 ^ (bi % 8)) == 0

-- `bp->data[bi/8] |= m` and `bp->data[bi/8] &= ~m`
abbrev pub set_bit : Bytes → ℕ → Bytes
set_bit bytes bi = put bytes (bi / 8) (bit_or (bytes (bi / 8)) (2 ^ (bi % 8)))

abbrev pub clear_bit : Bytes → ℕ → Bytes
clear_bit bytes bi = put bytes (bi / 8) (bit_and (bytes (bi / 8)) (255 - 2 ^ (bi % 8)))

-- The inner loop of `balloc`, for the `n` bits from `bi` on: the first clear bit.
unfoldable pub scan_bits : ℕ → Bytes → ℕ → Option ℕ
scan_bits zero bytes bi = none
scan_bits (suc n) bytes bi =
    let later = scan_bits n bytes (bi + 1) in if is_clear bytes bi then some bi else later

-- `bi < BPB && b + bi < sb.size`, as the number of rounds.
abbrev pub bits_in_block : ℕ → ℕ → ℕ
bits_in_block size b = if leb bits_per_block (size - b) then bits_per_block else size - b

abbrev pub or_else : Option ℕ → ℕ → Option ℕ → Option ℕ
or_else none b later = later
or_else (some bi) b later = some (b + bi)

-- The outer loop, for `n` bitmap blocks from the one of `b` on: the first free block.
unfoldable pub scan_blocks : ℕ → Disk → ℕ → Option ℕ
scan_blocks zero d b = none
scan_blocks (suc n) d b =
    or_else (scan_bits (bits_in_block d.sb.size b) (d.blocks (bitmap_block b d.sb)) 0) b
      (scan_blocks n d (b + bits_per_block))

-- The number of blocks of the bitmap, which bounds the rounds of the outer loop.
abbrev pub bitmap_blocks : Superblock → ℕ
bitmap_blocks sb = (sb.size + bits_per_block - 1) / bits_per_block

abbrev pub mark : ℕ → Disk → Disk
mark b d =
    write_block (bitmap_block b d.sb)
      (set_bit (d.blocks (bitmap_block b d.sb)) (b % bits_per_block)) d

-- `balloc`
unfoldable pub balloc : Disk → Outcome (ℕ × Disk)
balloc d = elim (scan_blocks (bitmap_blocks d.sb) d 0) [
  | none ↦ panic
  | some b ↦ done (b, bzero b (mark b d))
]

-- `bfree`
unfoldable pub bfree : ℕ → Disk → Outcome Disk
bfree b d =
    let bytes = d.blocks (bitmap_block b d.sb) in
    let bi = b % bits_per_block in
    if is_clear bytes bi
    then panic
    else done (write_block (bitmap_block b d.sb) (clear_bit bytes bi) d)
