-- ===== src/Inode/Owned.antt =====
-- The blocks of an inode, by what they are for: number `r` below MAXFILE is block `r` of the contents,
-- and number MAXFILE the indirect block.
use exp.Base.{
  ℕ, ◌-◌, ◌*◌, ◌==◌, ◌≤◌, ◌<◌, ◌≡◌, ◌≢◌, ap, sym, ◌∙◌, ltb, Bool, true, false, ◌||◌, List, get_or,
  if◌then◌else◌, arith, ℕ_discrete,
}
use exp.Fs.{Bytes, Disk, write_block, bitmap_block}
use exp.Fs.Bitmap.{used, IsFormatted, used-write}
use exp.Fs.Alloc.{Allocated, put-bytes}
use exp.Inode.{load_le, ndirect, max_file}

-- Where the blocks of an inode are, 0 for none.
unfoldable pub place : List ℕ → Disk → ℕ → ℕ
place addrs d r =
    if ltb r ndirect
    then get_or addrs r 0
    else (if r == max_file
        then get_or addrs ndirect 0
        else (if get_or addrs ndirect 0 == 0
            then 0
            else load_le 4 (d.blocks (get_or addrs ndirect 0)) (4 * (r - ndirect))))

-- The blocks that `at` gives are in use, none is for two things, and none belongs to the bitmap. Block
-- 0 is in use.
pub record Owns (at : ℕ → ℕ) (d : Disk) : Type 0 where
  pub formatted : IsFormatted d
  pub boot : (0 < d.sb.size) × (used d 0 ≡ true)
  pub in_use : (r : ℕ) → r ≤ max_file → at r ≢ 0 → (at r < d.sb.size) × (used d (at r) ≡ true)
  pub apart :
      (r : ℕ) → r ≤ max_file → at r ≢ 0 → (c : ℕ) → c < d.sb.size → at r ≢ bitmap_block c d.sb
  pub distinct : (r s : ℕ) → r ≤ max_file → s ≤ max_file → at r ≢ 0 → at r ≡ at s → r ≡ s

or-true : (a b : Bool) → b ≡ true → (a || b) ≡ true
or-true a b h = ground arith

self_or : (a : ℕ) (b : Bool) → ((a == a) || b) ≡ true
self_or a b = ground arith

used-true-ne : (d : Disk) (a b : ℕ) → used d a ≡ false → used d b ≡ true → a ≢ b
used-true-ne d a b h k e = cc (h, k, ap (used d) e)

-- A block that was allocated gets a place that was free.
module _ (at at' : ℕ → ℕ) (d d' : Disk) (a r : ℕ) (o : Owns at d) (new : Allocated d a d')
    (in_range : r ≤ max_file) (none_there : at r ≡ 0) (there : at' r ≡ a)
    (others : (s : ℕ) → s ≤ max_file → r ≢ s → at' s ≡ at s) where
  still_used : (c : ℕ) → c < d.sb.size → used d c ≡ true → used d' c ≡ true
  still_used c lt h = new.now_used c lt ∙ or-true (a == c) (used d c) h

  new_ne : (s : ℕ) → s ≤ max_file → at s ≢ 0 → a ≢ at s
  new_ne s le h = used-true-ne d a (at s) new.free (o.in_use s le h).1

  size_same : d'.sb.size ≡ d.sb.size
  size_same = ap (λ sb. sb.size) new.same_sb

  in_use' : (s : ℕ) → s ≤ max_file → at' s ≢ 0 → (at' s < d'.sb.size) × (used d' (at' s) ≡ true)
  in_use' s le h = elim (ℕ_discrete r s) [
    | yes e ↦
        let here : at' s ≡ a = ap at' (sym e) ∙ there in
        (
          omega (arith, here, new.inside, size_same),
          ap (used d') here ∙ new.now_used a new.inside ∙ self_or a (used d a),
        )
    | no ne ↦
        let same = others s le ne in
        let (lt, u) = o.in_use s le (λ z. h (same ∙ z)) in
        (omega (arith, same, lt, size_same), ap (used d') same ∙ still_used (at s) lt u)
  ]

  apart' :
      (s : ℕ) → s ≤ max_file → at' s ≢ 0 → (c : ℕ) → c < d'.sb.size → at' s ≢ bitmap_block c d'.sb
  apart' s le h c lt z = elim (ℕ_discrete r s) [
    | yes e ↦
        used-true-ne d a (bitmap_block c d.sb) new.free
          (o.formatted.bitmap_used c (omega (arith, size_same, lt)))
          (sym (ap at' (sym e) ∙ there) ∙ z ∙ ap (bitmap_block c) new.same_sb)
    | no ne ↦
        o.apart s le (λ z'. h (others s le ne ∙ z')) c (omega (arith, size_same, lt))
          (sym (others s le ne) ∙ z ∙ ap (bitmap_block c) new.same_sb)
  ]

  distinct' : (s u : ℕ) → s ≤ max_file → u ≤ max_file → at' s ≢ 0 → at' s ≡ at' u → s ≡ u
  distinct' s u ls lu h e = elim (ℕ_discrete r s) [
    | yes es ↦ elim (ℕ_discrete r u) [
      | yes eu ↦ sym es ∙ eu
      | no nu ↦
          let same : a ≡ at u = sym (ap at' (sym es) ∙ there) ∙ e ∙ others u lu nu in
          absurd (new_ne u lu (λ z. h (e ∙ others u lu nu ∙ z)) same)
    ]
    | no ns ↦ elim (ℕ_discrete r u) [
      | yes eu ↦
          let same : a ≡ at s = sym (e ∙ ap at' (sym eu) ∙ there) ∙ others s ls ns in
          absurd (new_ne s ls (λ z. h (others s ls ns ∙ z)) same)
      | no nu ↦
          o.distinct s u ls lu (λ z. h (others s ls ns ∙ z))
            (sym (others s ls ns) ∙ e ∙ others u lu nu)
    ]
  ]

  pub Owns-extend : Owns at' d'
  Owns-extend = record {
    formatted = new.formatted;
    boot = (omega (arith, o.boot.0, size_same), still_used 0 o.boot.0 o.boot.1);
    in_use = in_use';
    apart = apart';
    distinct = distinct';
  }

-- A write of a block of the inode, or of any that is not the bitmap's.
pub Owns-write :
    (at : ℕ → ℕ) (d : Disk) (b : ℕ) (v : Bytes)
    → Owns at d
    → ((i : ℕ) → v i < 256)
    → ((c : ℕ) → c < d.sb.size → b ≢ bitmap_block c d.sb)
    → Owns at (write_block b v d)
Owns-write at d b v o small ne = record {
  formatted = record {
    bytes = put-bytes d.blocks b v o.formatted.bytes small;
    bitmap_inside = o.formatted.bitmap_inside;
    bitmap_used = λ c lt.
        used-write d b (bitmap_block c d.sb) v
          (ne (bitmap_block c d.sb) (o.formatted.bitmap_inside c lt))
        ∙ o.formatted.bitmap_used c lt;
  };
  boot = (o.boot.0, used-write d b 0 v (ne 0 o.boot.0) ∙ o.boot.1);
  in_use =
      λ r le h. let (lt, u) = o.in_use r le h in (lt, used-write d b (at r) v (ne (at r) lt) ∙ u);
  apart = o.apart;
  distinct = o.distinct;
}

-- The places may be given by another function that agrees.
pub Owns-same :
    (at at' : ℕ → ℕ) (d : Disk) → ((r : ℕ) → r ≤ max_file → at' r ≡ at r) → Owns at d → Owns at' d
Owns-same at at' d e o = record {
  formatted = o.formatted;
  boot = o.boot;
  in_use = λ r le h.
      let (lt, u) = o.in_use r le (λ z. h (e r le ∙ z)) in
      (omega (arith, e r le, lt), ap (used d) (e r le) ∙ u);
  apart = λ r le h c lt z. o.apart r le (λ z'. h (e r le ∙ z')) c lt (sym (e r le) ∙ z);
  distinct =
      λ r s lr ls h z. o.distinct r s lr ls (λ z'. h (e r lr ∙ z')) (sym (e r lr) ∙ z ∙ e s ls);
}
