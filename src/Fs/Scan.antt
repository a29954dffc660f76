-- ===== src/Fs/Scan.antt =====
-- The loops of `balloc` find the first free block.
use exp.Base.{
  ℕ, zero, suc, ◌+◌, ◌-◌, ◌*◌, ◌/◌, ◌%◌, ◌≤◌, ◌<◌, ◌≡◌, inl, inr, ap, ap₂, dec_lt, ◌∙◌, true, false,
  not, Option, none, some, arith, Bool-cases,
}
use exp.Fs.{
  bits_per_block, Bytes, Disk, bitmap_block, is_clear, scan_bits, bits_in_block, or_else,
  scan_blocks,
}
use exp.Fs.Bitmap.{used}

-- The scan of one bitmap block.
Scanned : ℕ → Bytes → ℕ → Option ℕ → Type 0
Scanned n bytes bi none = (j : ℕ) → j < n → is_clear bytes (bi + j) ≡ false
Scanned n bytes bi (some r) =
    (k : ℕ) × (r ≡ bi + k)
    × (k < n)
    × (is_clear bytes r ≡ true)
    × ((j : ℕ) → j < k → is_clear bytes (bi + j) ≡ false)

Scanned-next :
    (n : ℕ) (bytes : Bytes) (bi : ℕ) (r : Option ℕ)
    → is_clear bytes bi ≡ false
    → Scanned n bytes (bi + 1) r
    → Scanned (suc n) bytes bi r
unfolding Scanned
Scanned-next n bytes bi none here rest = all
  where
    all : (j : ℕ) → j < suc n → is_clear bytes (bi + j) ≡ false
    all zero lt = ap (is_clear bytes) (omega arith) ∙ here
    all (suc j) lt = ap (is_clear bytes) (omega arith) ∙ rest j (omega arith)
Scanned-next n bytes bi (some r) here (k, e, lt, free, before) =
    (suc k, omega arith, omega arith, free, all)
  where
    all : (j : ℕ) → j < suc k → is_clear bytes (bi + j) ≡ false
    all zero lt = ap (is_clear bytes) (omega arith) ∙ here
    all (suc j) lt = ap (is_clear bytes) (omega arith) ∙ before j (omega arith)

scan_bits-Scanned : (n : ℕ) (bytes : Bytes) (bi : ℕ) → Scanned n bytes bi (scan_bits n bytes bi)
unfolding scan_bits Scanned
scan_bits-Scanned zero bytes bi = λ j lt. absurd (omega arith)
scan_bits-Scanned (suc n) bytes bi = elim (Bool-cases (is_clear bytes bi)) [
  | inl free ↦ rw free (0, omega arith, omega arith, free, λ j lt. absurd (omega arith))
  | inr taken ↦ rw taken (
      Scanned-next n bytes bi (scan_bits n bytes (bi + 1)) taken
        (scan_bits-Scanned n bytes (bi + 1)))
]

-- The scan of `n` bitmap blocks, from the one whose first bit is that of block `b`.
unfoldable pub ScannedBlocks : ℕ → Disk → ℕ → Option ℕ → Type 0
ScannedBlocks n d b none =
    (c : ℕ) → b ≤ c → c < b + n * bits_per_block → c < d.sb.size → used d c ≡ true
ScannedBlocks n d b (some r) =
    (b ≤ r) × (r < d.sb.size) × (used d r ≡ false) × ((c : ℕ) → b ≤ c → c < r → used d c ≡ true)

used-at :
    (d : Disk) (b j : ℕ)
    → b % bits_per_block ≡ 0
    → j < bits_per_block
    → used d (b + j) ≡ not (is_clear (d.blocks (bitmap_block b d.sb)) j)
used-at d b j aligned small =
    ap₂ (λ x y. not (is_clear (d.blocks (x + d.sb.bmapstart)) y)) same_block same_bit
  where
    same_block : (b + j) / bits_per_block ≡ b / bits_per_block
    same_block = omega arith

    same_bit : (b + j) % bits_per_block ≡ j
    same_bit = omega arith

-- A block of the group of `b`, of which the first `m` bits from `b` on are set.
used-set_bits :
    (m : ℕ) (d : Disk) (b : ℕ)
    → b % bits_per_block ≡ 0
    → m ≤ bits_per_block
    → ((j : ℕ) → j < m → is_clear (d.blocks (bitmap_block b d.sb)) (0 + j) ≡ false)
    → (c : ℕ) → b ≤ c
    → c < b + m
    → used d c ≡ true
used-set_bits m d b aligned small set c lo hi =
    ap (used d) (omega arith)
    ∙ used-at d b (c - b) aligned (omega arith)
    ∙ ap not
        (ap (is_clear (d.blocks (bitmap_block b d.sb))) (omega arith) ∙ set (c - b) (omega arith))

bits_in_block_le :
    (size b : ℕ) → (bits_in_block size b ≤ bits_per_block) × (bits_in_block size b ≤ size - b)
bits_in_block_le size b = ground arith

bits_in_block_all :
    (size b c : ℕ) → b ≤ c → c < b + bits_per_block → c < size → c < b + bits_in_block size b
bits_in_block_all size b c h i j = ground arith

ScannedBlocks-next :
    (n : ℕ) (d : Disk) (b : ℕ) (bits later : Option ℕ)
    → b % bits_per_block ≡ 0
    → Scanned (bits_in_block d.sb.size b) (d.blocks (bitmap_block b d.sb)) 0 bits
    → ScannedBlocks n d (b + bits_per_block) later
    → ScannedBlocks (suc n) d b (or_else bits b later)
unfolding Scanned ScannedBlocks
ScannedBlocks-next n d b none none aligned full rest = λ c lo hi in_size.
    elim (dec_lt c (b + bits_per_block)) [
      | yes near ↦
          used-set_bits (bits_in_block d.sb.size b) d b aligned (bits_in_block_le d.sb.size b).0
            full c lo (bits_in_block_all d.sb.size b c lo near in_size)
      | no far ↦ rest c (omega arith) (omega arith) in_size
    ]
ScannedBlocks-next n d b none (some r) aligned full (lo, hi, free, before) = (
  omega arith,
  hi,
  free,
  λ c from to. elim (dec_lt c (b + bits_per_block)) [
    | yes near ↦
        used-set_bits (bits_in_block d.sb.size b) d b aligned (bits_in_block_le d.sb.size b).0 full
          c from (bits_in_block_all d.sb.size b c from near (omega arith))
    | no far ↦ before c (omega arith) to
  ],
)
ScannedBlocks-next n d b (some r) later aligned (k, e, lt, free, before) rest = (
  omega arith,
  omega (arith, (bits_in_block_le d.sb.size b).1),
  used-at d b r aligned (omega (arith, (bits_in_block_le d.sb.size b).0)) ∙ ap not free,
  λ c from to.
      used-set_bits k d b aligned (omega (arith, (bits_in_block_le d.sb.size b).0)) before c from
        (omega arith),
)

pub scan_blocks-ScannedBlocks :
    (n : ℕ) (d : Disk) (b : ℕ) → b % bits_per_block ≡ 0 → ScannedBlocks n d b (scan_blocks n d b)
unfolding scan_blocks ScannedBlocks
scan_blocks-ScannedBlocks zero d b aligned = λ c lo hi in_size. absurd (omega arith)
scan_blocks-ScannedBlocks (suc n) d b aligned =
    ScannedBlocks-next n d b
      (scan_bits (bits_in_block d.sb.size b) (d.blocks (bitmap_block b d.sb)) 0)
      (scan_blocks n d (b + bits_per_block)) aligned
      (scan_bits-Scanned (bits_in_block d.sb.size b) (d.blocks (bitmap_block b d.sb)) 0)
      (scan_blocks-ScannedBlocks n d (b + bits_per_block) (omega arith))
