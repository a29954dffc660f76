-- ===== src/Fs/Tests.antt =====
-- A small disk: block 2 has the inodes, block 3 the bitmap, and block 4 is a file's.
use exp.Base.{
  ◌≡◌, ◌<◌, ℕ, true, ◌==◌, ◌&&◌, if◌then◌else◌, refl, subst, arith, [], ◌⊎◌, panic, done, some,
}
use exp.Fs.{Superblock, Disk, bitmap_block, balloc, scan_bits, scan_blocks, bitmap_blocks}
use exp.Fs.Bitmap.{used, IsFormatted}
use exp.Fs.Alloc.{Allocated, balloc_lem}

abbrev pub small_sb : Superblock
small_sb = record {
  size = 10;
  nblocks = 6;
  ninodes = 8;
  nlog = 0;
  logstart = 2;
  inodestart = 2;
  bmapstart = 3;
}

-- The bits of blocks 0 to 4 are set.
abbrev pub small_disk : Disk
small_disk = record {
  sb = small_sb;
  blocks = λ b i. if (b == 3) && (i == 0) then 31 else 0;
  logged = [];
}

pub small_disk-IsFormatted : IsFormatted small_disk
small_disk-IsFormatted = record {
  bytes = λ b i. ground arith;
  bitmap_inside = λ b lt. omega arith;
  bitmap_used = λ b lt. subst (λ q. used small_disk q ≡ true) (bitmap b lt) refl;
}
  where
    bitmap : (b : ℕ) → b < 10 → 3 ≡ bitmap_block b small_sb
    bitmap b lt = omega arith

-- The first free block is block 5, and block 4 is not free.
first_free : scan_blocks (bitmap_blocks small_sb) small_disk 0 ≡ some 5
unfolding scan_blocks scan_bits
first_free = refl

balloc_lem_example :
    ((balloc small_disk ≡ panic) × ((c : ℕ) → c < 10 → used small_disk c ≡ true))
    ⊎ ((b : ℕ) × (d' : Disk) × (balloc small_disk ≡ done (b, d')) × Allocated small_disk b d')
balloc_lem_example = balloc_lem small_disk small_disk-IsFormatted
