-- ===== src/Fs/Bitmap.antt =====
-- The bits of the bitmap: what setting, clearing and zeroing does to them.
use exp.Base.{
  ℕ, ◌+◌, ◌-◌, ◌/◌, ◌%◌, ◌^◌, ◌==◌, ◌<◌, ◌≡◌, ◌≢◌, inl, inr, refl, ap, sym, ◌∙◌, subst, Bool, true,
  false, not, ◌&&◌, ◌||◌, arith, if◌then◌else◌, Bool-cases, ==_iff, ==_self,
}
use exp.Fs.{
  bits_per_block, Bytes, Disk, put, write_block, bzero, bitmap_block, is_clear, set_bit, clear_bit,
  mark,
}
use Prim.Native.Nat.{bit_and, bit_or}
use exp.Fs.Bits.{clear-bit_or, clear-bit_and}

abbrev clear_in : ℕ → ℕ → Bool
clear_in v k = bit_and v (2 ^ k) == 0

set_in :
    (bytes : Bytes) (q k p l : ℕ)
    → bytes q < 256
    → k < 8
    → l < 8
    → clear_in (put bytes q (bit_or (bytes q) (2 ^ k)) p) l
      ≡ (not ((q == p) && (k == l)) && clear_in (bytes p) l)
set_in bytes q k p l small hk hl = elim (Bool-cases (q == p)) [
  | inl e ↦
      subst
        (λ p.
          clear_in (put bytes q (bit_or (bytes q) (2 ^ k)) p) l
          ≡ (not ((q == p) && (k == l)) && clear_in (bytes p) l))
        ((==_iff q p).0 e) (rw (==_self q) (clear-bit_or (bytes q) k l small hk hl))
  | inr ne ↦ rw ne refl
]

clear_in_byte :
    (bytes : Bytes) (q k p l : ℕ)
    → bytes q < 256
    → k < 8
    → l < 8
    → clear_in (put bytes q (bit_and (bytes q) (255 - 2 ^ k)) p) l
      ≡ (if (q == p) && (k == l) then true else clear_in (bytes p) l)
clear_in_byte bytes q k p l small hk hl = elim (Bool-cases (q == p)) [
  | inl e ↦
      subst
        (λ p.
          clear_in (put bytes q (bit_and (bytes q) (255 - 2 ^ k)) p) l
          ≡ (if (q == p) && (k == l) then true else clear_in (bytes p) l))
        ((==_iff q p).0 e) (rw (==_self q) (clear-bit_and (bytes q) k l small hk hl))
  | inr ne ↦ rw ne refl
]

split_eq_bit : (i j : ℕ) → (i == j) ≡ ((i / 8 == j / 8) && (i % 8 == j % 8))
split_eq_bit i j = ground arith

is_clear-set_bit :
    (bytes : Bytes) (i j : ℕ)
    → bytes (i / 8) < 256
    → is_clear (set_bit bytes i) j ≡ (not (i == j) && is_clear bytes j)
is_clear-set_bit bytes i j small =
    set_in bytes (i / 8) (i % 8) (j / 8) (j % 8) small (omega arith) (omega arith)
    ∙ ap (λ t. not t && is_clear bytes j) (sym (split_eq_bit i j))

is_clear-clear_bit :
    (bytes : Bytes) (i j : ℕ)
    → bytes (i / 8) < 256
    → is_clear (clear_bit bytes i) j ≡ (if i == j then true else is_clear bytes j)
is_clear-clear_bit bytes i j small =
    clear_in_byte bytes (i / 8) (i % 8) (j / 8) (j % 8) small (omega arith) (omega arith)
    ∙ ap (λ t. if t then true else is_clear bytes j) (sym (split_eq_bit i j))

-- Block `b` is in use, as the bitmap has it.
abbrev pub used : Disk → ℕ → Bool
used d b = not (is_clear (d.blocks (bitmap_block b d.sb)) (b % bits_per_block))

-- All bytes are bytes, and the blocks of the bitmap are in use.
pub record IsFormatted (d : Disk) : Type 0 where
  pub bytes : (b i : ℕ) → d.blocks b i < 256
  pub bitmap_inside : (b : ℕ) → b < d.sb.size → bitmap_block b d.sb < d.sb.size
  pub bitmap_used : (b : ℕ) → b < d.sb.size → used d (bitmap_block b d.sb) ≡ true

split_eq_block :
    (b c s : ℕ)
    → (b == c) ≡ (
        (b / bits_per_block + s == c / bits_per_block + s)
        && (b % bits_per_block == c % bits_per_block))
split_eq_block b c s = ground arith

not_and : (a b : Bool) → not (not a && b) ≡ (a || not b)
not_and a b = ground arith

not_if : (a b : Bool) → not (if a then true else b) ≡ (not a && not b)
not_if a b = ground arith

set_in_block :
    (blocks : ℕ → Bytes) (q k p l : ℕ)
    → blocks q (k / 8) < 256
    → not (is_clear (put blocks q (set_bit (blocks q) k) p) l)
      ≡ (((q == p) && (k == l)) || not (is_clear (blocks p) l))
set_in_block blocks q k p l small = elim (Bool-cases (q == p)) [
  | inl e ↦
      subst
        (λ p.
          not (is_clear (put blocks q (set_bit (blocks q) k) p) l)
          ≡ (((q == p) && (k == l)) || not (is_clear (blocks p) l)))
        ((==_iff q p).0 e)
        (rw (==_self q) (
          ap not (is_clear-set_bit (blocks q) k l small)
          ∙ not_and (k == l) (is_clear (blocks q) l)))
  | inr ne ↦ rw ne refl
]

clear_in_block :
    (blocks : ℕ → Bytes) (q k p l : ℕ)
    → blocks q (k / 8) < 256
    → not (is_clear (put blocks q (clear_bit (blocks q) k) p) l)
      ≡ (not ((q == p) && (k == l)) && not (is_clear (blocks p) l))
clear_in_block blocks q k p l small = elim (Bool-cases (q == p)) [
  | inl e ↦
      subst
        (λ p.
          not (is_clear (put blocks q (clear_bit (blocks q) k) p) l)
          ≡ (not ((q == p) && (k == l)) && not (is_clear (blocks p) l)))
        ((==_iff q p).0 e)
        (rw (==_self q) (
          ap not (is_clear-clear_bit (blocks q) k l small)
          ∙ not_if (k == l) (is_clear (blocks q) l)))
  | inr ne ↦ rw ne refl
]

abbrev pub unmark : ℕ → Disk → Disk
unmark b d =
    write_block (bitmap_block b d.sb)
      (clear_bit (d.blocks (bitmap_block b d.sb)) (b % bits_per_block)) d

pub used-mark : (d : Disk) (b c : ℕ) → IsFormatted d → used (mark b d) c ≡ ((b == c) || used d c)
used-mark d b c f =
    set_in_block d.blocks (bitmap_block b d.sb) (b % bits_per_block) (bitmap_block c d.sb)
      (c % bits_per_block) (f.bytes (bitmap_block b d.sb) (b % bits_per_block / 8))
    ∙ ap (λ t. t || used d c) (sym (split_eq_block b c d.sb.bmapstart))

pub used-unmark :
    (d : Disk) (b c : ℕ) → IsFormatted d → used (unmark b d) c ≡ (not (b == c) && used d c)
used-unmark d b c f =
    clear_in_block d.blocks (bitmap_block b d.sb) (b % bits_per_block) (bitmap_block c d.sb)
      (c % bits_per_block) (f.bytes (bitmap_block b d.sb) (b % bits_per_block / 8))
    ∙ ap (λ t. not t && used d c) (sym (split_eq_block b c d.sb.bmapstart))

-- A write of a block that is no bitmap block leaves the bits.
pub used-write :
    (d : Disk) (b c : ℕ) (v : Bytes)
    → b ≢ bitmap_block c d.sb
    → used (write_block b v d) c ≡ used d c
used-write d b c v ne = rw (ne-false b (bitmap_block c d.sb) ne) refl
  where
    ne-false : (a b : ℕ) → a ≢ b → (a == b) ≡ false
    ne-false a b h = ground arith

pub used-bzero : (d : Disk) (b c : ℕ) → b ≢ bitmap_block c d.sb → used (bzero b d) c ≡ used d c
used-bzero d b c ne = used-write d b c (λ i. 0) ne
