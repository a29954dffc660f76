-- ===== src/Content/View.antt =====
-- The contents of an inode as a function from offsets to bytes, with 0 where it has no block.
use exp.Base.{
  ℕ, suc, ◌*◌, ◌/◌, ◌%◌, ◌==◌, ◌≤◌, ◌<◌, ◌≡◌, ◌≢◌, inl, inr, refl, ap, ap₂, sym, ◌∙◌, true, List,
  length, if◌then◌else◌, arith, ℕ_discrete,
}
use exp.Fs.{Bytes, Disk, bitmap_block, bsize}
use exp.Fs.Bitmap.{used}
use exp.Inode.{Inode, ndirect, max_file, inode_block}
use exp.Inode.Words.{capacity}
use exp.Inode.Owned.{place, Owns}
use exp.Inode.Map.{Mapped}

-- The inode of a file whose blocks are its own and apart from the block that the inode is in.
pub record Ready (ip : Inode) (d : Disk) : Type 0 where
  pub owns : Owns (place ip.addrs d) d
  pub entries : length ip.addrs ≡ suc ndirect
  pub small : d.sb.size ≤ capacity 4
  pub home_inside : inode_block ip.inum d.sb < d.sb.size
  pub home_used : used d (inode_block ip.inum d.sb) ≡ true
  pub home_apart :
      (r : ℕ)
      → r ≤ max_file
      → place ip.addrs d r ≢ 0
      → place ip.addrs d r ≢ inode_block ip.inum d.sb
  pub home_meta : (c : ℕ) → c < d.sb.size → inode_block ip.inum d.sb ≢ bitmap_block c d.sb

unfoldable pub byte_at : Inode → Disk → ℕ → ℕ
byte_at ip d o =
    if place ip.addrs d (o / bsize) == 0
    then 0
    else d.blocks (place ip.addrs d (o / bsize)) (o % bsize)

abbrev pub limit : ℕ
limit = max_file * bsize

pub byte_at-none :
    (ip : Inode) (d : Disk) (o : ℕ) → place ip.addrs d (o / bsize) ≡ 0 → byte_at ip d o ≡ 0
unfolding byte_at
byte_at-none ip d o z = rw z refl

pub byte_at-some :
    (ip : Inode) (d : Disk) (o a : ℕ)
    → place ip.addrs d (o / bsize) ≡ a
    → a ≢ 0
    → byte_at ip d o ≡ d.blocks a (o % bsize)
unfolding byte_at
byte_at-some ip d o a e nz = rw e (ground arith)

-- `bmap` leaves the contents.
pub byte_at-Mapped :
    (bn a : ℕ) (ip ip' : Inode) (d d' : Disk)
    → Mapped bn ip d a ip' d'
    → (o : ℕ) → o < limit
    → byte_at ip' d' o ≡ byte_at ip d o
byte_at-Mapped bn a ip ip' d d' m o lt = elim (ℕ_discrete (place ip.addrs d (o / bsize)) 0) [
  | yes z ↦ elim (ℕ_discrete bn (o / bsize)) [
    | yes e ↦
        byte_at-some ip' d' o a (ap (place ip'.addrs d') (sym e) ∙ m.there) m.some_block
        ∙ m.fresh (ap (place ip.addrs d) e ∙ z) (o % bsize)
        ∙ sym (byte_at-none ip d o z)
    | no ne ↦
        byte_at-none ip' d' o (m.others (o / bsize) (omega arith) ne ∙ z)
        ∙ sym (byte_at-none ip d o z)
  ]
  | no nz ↦
      byte_at-some ip' d' o (place ip.addrs d (o / bsize)) (stays nz) nz
      ∙ ap (λ (f : Bytes). f (o % bsize)) (m.same_data (o / bsize) (omega arith) nz)
      ∙ sym (byte_at-some ip d o (place ip.addrs d (o / bsize)) refl nz)
]
  where
    stays :
        place ip.addrs d (o / bsize) ≢ 0
        → place ip'.addrs d' (o / bsize) ≡ place ip.addrs d (o / bsize)
    stays nz = elim (ℕ_discrete bn (o / bsize)) [
      | yes e ↦
          ap (place ip'.addrs d') (sym e)
          ∙ m.there
          ∙ sym (m.kept (λ z. nz (ap (place ip.addrs d) (sym e) ∙ z)))
          ∙ ap (place ip.addrs d) e
      | no ne ↦ m.others (o / bsize) (omega arith) ne
    ]

inum_same : (ip ip' : Inode) (l : List ℕ) → ip' ≡ record ip { addrs = l } → ip'.inum ≡ ip.inum
inum_same ip ip' l e = ap (λ (i : Inode). i.inum) e

pub Ready-Mapped :
    (bn a : ℕ) (ip ip' : Inode) (d d' : Disk) → Ready ip d → Mapped bn ip d a ip' d' → Ready ip' d'
Ready-Mapped bn a ip ip' d d' r m = record {
  owns = m.owns;
  entries = m.entries;
  small = omega (arith, size_same, r.small);
  home_inside = omega (arith, home_same, size_same, r.home_inside);
  home_used = ap (used d') home_same ∙ m.still (inode_block ip.inum d.sb) r.home_inside r.home_used;
  home_apart = λ q le nz e.
      let e' = e ∙ home_same in
      elim (m.origin q le nz) [
        | inl same ↦ r.home_apart q le (λ z. nz (same ∙ z)) (sym same ∙ e')
        | inr free ↦ cc (free, r.home_used, ap (used d) e')
      ];
  home_meta = λ c lt e.
      r.home_meta c (omega (arith, size_same, lt))
        (sym home_same ∙ e ∙ ap (bitmap_block c) m.same_sb);
}
  where
    size_same : d'.sb.size ≡ d.sb.size
    size_same = ap (λ sb. sb.size) m.same_sb

    home_same : inode_block ip'.inum d'.sb ≡ inode_block ip.inum d.sb
    home_same = ap₂ inode_block (inum_same ip ip' ip'.addrs m.only_addrs) m.same_sb
