-- ===== src/Fs/Alloc.antt =====
-- `balloc` and `bfree` keep the bitmap of the blocks in use.
use exp.Base.{
  ℕ, ◌+◌, ◌*◌, ◌==◌, ◌≤◌, ◌<◌, ◌≡◌, ◌≢◌, ◌⊎◌, inl, inr, refl, ap, sym, ◌∙◌, subst, Bool, true,
  false, not, ◌&&◌, ◌||◌, ◌∷◌, arith, Bool-cases, Option-cases, ==_self, done, panic,
}
use exp.Fs.{
  bits_per_block, Bytes, Disk, put, bzero, bitmap_block, scan_blocks, bitmap_blocks, mark, balloc,
  bfree,
}
use exp.Fs.Bitmap.{used, IsFormatted, unmark, used-mark, used-unmark, used-bzero}
use exp.Fs.Scan.{ScannedBlocks, scan_blocks-ScannedBlocks}
use exp.Fs.Bits.{bit_range}

bzero-bytes :
    (d : Disk) (b : ℕ) → ((c i : ℕ) → d.blocks c i < 256) → (c i : ℕ) → (bzero b d).blocks c i < 256
bzero-bytes d b h c i = ground (arith, h c i)

pub put-bytes :
    (f : ℕ → Bytes) (q : ℕ) (v : Bytes)
    → ((c i : ℕ) → f c i < 256)
    → ((i : ℕ) → v i < 256)
    → (c i : ℕ) → put f q v c i < 256
put-bytes f q v h k c i = elim (Bool-cases (q == c)) [ inl e ↦ rw e (k i) | inr ne ↦ rw ne (h c i) ]

put_byte : (f : Bytes) (q v : ℕ) → ((i : ℕ) → f i < 256) → v < 256 → (i : ℕ) → put f q v i < 256
put_byte f q v h k i = elim (Bool-cases (q == i)) [ inl e ↦ rw e k | inr ne ↦ rw ne (h i) ]

mark-bytes : (d : Disk) (b : ℕ) → IsFormatted d → (c i : ℕ) → (mark b d).blocks c i < 256
mark-bytes d b f = put-bytes d.blocks (bitmap_block b d.sb) _ f.bytes (
    put_byte (d.blocks (bitmap_block b d.sb)) _ _ (f.bytes (bitmap_block b d.sb))
      (bit_range _ _ (f.bytes (bitmap_block b d.sb) _) (omega arith)).0)

unmark-bytes : (d : Disk) (b : ℕ) → IsFormatted d → (c i : ℕ) → (unmark b d).blocks c i < 256
unmark-bytes d b f = put-bytes d.blocks (bitmap_block b d.sb) _ f.bytes (
    put_byte (d.blocks (bitmap_block b d.sb)) _ _ (f.bytes (bitmap_block b d.sb))
      (bit_range _ _ (f.bytes (bitmap_block b d.sb) _) (omega arith)).1)

-- What a successful allocation of block `b` leaves.
pub record Allocated (d : Disk) (b : ℕ) (d' : Disk) : Type 0 where
  pub inside : b < d.sb.size
  pub free : used d b ≡ false
  pub first : (c : ℕ) → c < b → used d c ≡ true
  pub now_used : (c : ℕ) → c < d.sb.size → used d' c ≡ ((b == c) || used d c)
  pub zeroed : (i : ℕ) → d'.blocks b i ≡ 0
  pub others : (c : ℕ) → b ≢ c → bitmap_block b d.sb ≢ c → d'.blocks c ≡ d.blocks c
  pub same_sb : d'.sb ≡ d.sb
  pub logged : d'.logged ≡ b ∷ bitmap_block b d.sb ∷ d.logged
  pub formatted : IsFormatted d'

eq-false : (a b : ℕ) → a ≢ b → (a == b) ≡ false
eq-false a b h = ground arith

Allocated-mark :
    (d : Disk) (b : ℕ)
    → IsFormatted d
    → b < d.sb.size
    → used d b ≡ false
    → ((c : ℕ) → c < b → used d c ≡ true)
    → Allocated d b (bzero b (mark b d))
Allocated-mark d b f inside free first = record {
  inside = inside;
  free = free;
  first = first;
  now_used = now_used;
  zeroed = λ i. rw (==_self b) refl;
  others = λ c ne ne'. rw (eq-false b c ne, eq-false (bitmap_block b d.sb) c ne') refl;
  same_sb = refl;
  logged = refl;
  formatted = record {
    bytes = bzero-bytes (mark b d) b (mark-bytes d b f);
    bitmap_inside = f.bitmap_inside;
    bitmap_used = λ c lt.
        now_used (bitmap_block c d.sb) (f.bitmap_inside c lt)
        ∙ ap (λ t. (b == bitmap_block c d.sb) || t) (f.bitmap_used c lt)
        ∙ or_true (b == bitmap_block c d.sb);
  };
}
  where
    or_true : (t : Bool) → (t || true) ≡ true
    or_true t = ground arith

    apart : (c : ℕ) → c < d.sb.size → b ≢ bitmap_block c d.sb
    apart c lt e = cc (f.bitmap_used c lt, free, ap (used d) e)

    now_used : (c : ℕ) → c < d.sb.size → used (bzero b (mark b d)) c ≡ ((b == c) || used d c)
    now_used c lt = used-bzero (mark b d) b c (apart c lt) ∙ used-mark d b c f

-- `balloc` takes the first block that the bitmap has as free and marks it in use, and no other; the
-- block is zeroed, and no other block but the bitmap's is written. It panics exactly if every block
-- is in use.
pub balloc_lem :
    (d : Disk)
    → IsFormatted d
    → ((balloc d ≡ panic) × ((c : ℕ) → c < d.sb.size → used d c ≡ true))
      ⊎ ((b : ℕ) × (d' : Disk) × (balloc d ≡ done (b, d')) × Allocated d b d')
unfolding balloc ScannedBlocks
balloc_lem d f = elim (Option-cases (scan_blocks (bitmap_blocks d.sb) d 0)) [
  | inl e ↦
      let full : (c : ℕ)
          → 0 ≤ c
          → c < 0 + bitmap_blocks d.sb * bits_per_block
          → c < d.sb.size
          → used d c ≡ true =
        subst (ScannedBlocks (bitmap_blocks d.sb) d 0) e scanned in
      inl (rw (e, balloc) refl, λ c lt. full c (omega arith) (omega arith) lt)
  | inr (b, e) ↦
      let (lo, hi, free, first) = subst (ScannedBlocks (bitmap_blocks d.sb) d 0) e scanned in
      inr (
        b,
        bzero b (mark b d),
        rw (e, balloc) refl,
        Allocated-mark d b f hi free (λ c lt. first c (omega arith) lt),
      )
]
  where
    scanned : ScannedBlocks (bitmap_blocks d.sb) d 0 (scan_blocks (bitmap_blocks d.sb) d 0)
    scanned = scan_blocks-ScannedBlocks (bitmap_blocks d.sb) d 0 (omega arith)

-- `bfree` of a free block panics. Of a block in use that is none of the bitmap's, it marks that
-- block as free and no other, and writes no other block than the bitmap's.
pub bfree_lem :
    (d : Disk) (b : ℕ)
    → IsFormatted d
    → ((c : ℕ) → c < d.sb.size → bitmap_block c d.sb ≢ b)
    → (used d b ≡ false → bfree b d ≡ panic)
      × (used d b ≡ true
          → (bfree b d ≡ done (unmark b d))
            × ((c : ℕ) → used (unmark b d) c ≡ (not (b == c) && used d c))
            × ((c : ℕ) → bitmap_block b d.sb ≢ c → (unmark b d).blocks c ≡ d.blocks c)
            × IsFormatted (unmark b d))
unfolding bfree
bfree_lem d b f apart = (
  λ free. rw (not_false _ free) refl,
  λ in_use. (
    rw (not_true _ in_use) refl,
    λ c. used-unmark d b c f,
    λ c ne. rw (eq-false (bitmap_block b d.sb) c ne) refl,
    record {
      bytes = unmark-bytes d b f;
      bitmap_inside = f.bitmap_inside;
      bitmap_used = λ c lt.
          used-unmark d b (bitmap_block c d.sb) f
          ∙ ap (λ t. not (b == bitmap_block c d.sb) && t) (f.bitmap_used c lt)
          ∙ ap (λ t. not t && true) (eq-false b (bitmap_block c d.sb) (λ e. apart c lt (sym e)));
    },
  ),
)
  where
    not_false : (t : Bool) → not t ≡ false → t ≡ true
    not_false t h = ground arith

    not_true : (t : Bool) → not t ≡ true → t ≡ false
    not_true t h = ground arith
