-- ===== src/Inode/Truncate.antt =====
-- `itrunc` frees the blocks of an inode, and no others.
use exp.Base.{
  ℕ, suc, ◌≤◌, ◌<◌, ◌≡◌, ◌≢◌, inl, inr, ap, sym, ◌∙◌, false, not, ◌&&◌, length, get_or, arith,
  dec_lt, ℕ_discrete, Bool-cases, done,
}
use exp.Fs.{Bytes, Disk, put, write_block, bitmap_block}
use exp.Fs.Bitmap.{used, IsFormatted, used-write}
use exp.Inode.{Inode, ndirect, max_file, inode_block, inode_offset, store_dinode, iupdate, itrunc}
use exp.Inode.Owned.{place, Owns}
use exp.Inode.Step.{place-table, place-entry}
use exp.Inode.Dinode.{store_dinode-byte}
use exp.Fs.Alloc.{put-bytes}
use exp.Inode.Free.{occurs, Freed}
use exp.Inode.Stretch.{stretch, occurs-stretch, stretch-occurs}
use exp.Inode.Empty.{emptied, free_direct, free_whole, itrunc-none, itrunc-some}

-- The disk without the blocks of the inode.
pub record Truncated (ip : Inode) (d d' : Disk) : Type 0 where
  pub freed : (r : ℕ) → r ≤ max_file → place ip.addrs d r ≢ 0 → used d' (place ip.addrs d r) ≡ false
  pub others :
      (c : ℕ)
      → c < d.sb.size
      → ((r : ℕ) → r ≤ max_file → place ip.addrs d r ≢ 0 → place ip.addrs d r ≢ c)
      → used d' c ≡ used d c
  pub blocks_left :
      (c : ℕ)
      → inode_block ip.inum d.sb ≢ c
      → ((b : ℕ) → b < d.sb.size → bitmap_block b d.sb ≢ c)
      → d'.blocks c ≡ d.blocks c
  pub same_sb : d'.sb ≡ d.sb
  pub formatted : IsFormatted d'

put_ne : (f : ℕ → Bytes) (i : ℕ) (v : Bytes) (j : ℕ) → i ≢ j → put f i v j ≡ f j
put_ne f i v j h = ground arith

module _ (ip : Inode) (d d1 : Disk) (o : Owns (place ip.addrs d) d) (n : ℕ)
    (all : (r : ℕ) → r ≤ max_file → place ip.addrs d r ≢ 0 → r < n) (inside : n ≤ suc max_file)
    (freed : Freed (stretch (place ip.addrs d) 0 n) d d1)
    (home_meta : (c : ℕ) → c < d.sb.size → inode_block ip.inum d.sb ≢ bitmap_block c d.sb) where
  abbrev home : ℕ
  home = inode_block ip.inum d1.sb

  home_same : home ≡ inode_block ip.inum d.sb
  home_same = ap (inode_block ip.inum) freed.same_sb

  entry : Bytes
  entry = store_dinode (emptied ip) (d1.blocks home) (inode_offset ip.inum)

  entry-byte : (i : ℕ) → entry i < 256
  unfolding entry
  entry-byte =
      store_dinode-byte (emptied ip) (d1.blocks home) (inode_offset ip.inum)
        (freed.formatted.bytes home)

  used_after :
      (c : ℕ)
      → c < d.sb.size
      → used (write_block home entry d1) c
        ≡ (not (occurs c (stretch (place ip.addrs d) 0 n)) && used d c)
  used_after c lt =
      used-write d1 home c entry
        (λ e. home_meta c lt (sym home_same ∙ e ∙ ap (bitmap_block c) freed.same_sb))
      ∙ freed.used_left c

  Truncated-iupdate : Truncated ip d (iupdate (emptied ip) d1)
  unfolding iupdate entry
  Truncated-iupdate = record {
    freed = λ r le nz.
        used_after (place ip.addrs d r) (o.in_use r le nz).0
        ∙ ap (λ t. not t && used d (place ip.addrs d r))
            (stretch-occurs (place ip.addrs d) 0 n r (omega arith) (omega (arith, all r le nz)) nz);
    others = λ c lt apart. used_after c lt ∙ ap (λ t. not t && used d c) (unlisted c apart);
    blocks_left = λ c ne apart.
        put_ne d1.blocks home entry c (λ e. ne (sym home_same ∙ e)) ∙ freed.blocks_left c apart;
    same_sb = freed.same_sb;
    formatted = record {
      bytes = put-bytes d1.blocks home entry freed.formatted.bytes entry-byte;
      bitmap_inside = freed.formatted.bitmap_inside;
      bitmap_used = λ c lt.
          used-write d1 home (bitmap_block c d1.sb) entry (λ e.
            home_meta (bitmap_block c d1.sb)
              (omega (arith, freed.formatted.bitmap_inside c lt, size_same))
              (sym home_same ∙ e ∙ ap (bitmap_block (bitmap_block c d1.sb)) freed.same_sb))
          ∙ freed.formatted.bitmap_used c lt;
    };
  }
    where
      size_same : d1.sb.size ≡ d.sb.size
      size_same = ap (λ sb. sb.size) freed.same_sb

      unlisted :
          (c : ℕ)
          → ((r : ℕ) → r ≤ max_file → place ip.addrs d r ≢ 0 → place ip.addrs d r ≢ c)
          → occurs c (stretch (place ip.addrs d) 0 n) ≡ false
      unlisted c apart = elim (Bool-cases (occurs c (stretch (place ip.addrs d) 0 n))) [
        | inl e ↦
            let (r, lower, upper, nz, e') = occurs-stretch (place ip.addrs d) 0 n c e in
            absurd (apart r (omega arith) nz e')
        | inr f ↦ f
      ]

-- `itrunc` never panics. It frees all blocks of the inode, the indirect block included, and no other,
-- and writes no block but the bitmap's and the one that the inode is in.
pub itrunc_lem :
    (ip : Inode) (d : Disk)
    → Owns (place ip.addrs d) d
    → length ip.addrs ≡ suc ndirect
    → ((c : ℕ) → c < d.sb.size → inode_block ip.inum d.sb ≢ bitmap_block c d.sb)
    → (d' : Disk) × (itrunc ip d ≡ done (emptied ip, d')) × Truncated ip d d'
itrunc_lem ip d o len home_meta = elim (ℕ_discrete (get_or ip.addrs ndirect 0) 0) [
  | yes z ↦
      let (d1, e, freed) = free_direct ip d o len in
      (
        iupdate (emptied ip) d1,
        itrunc-none ip d o len z,
        Truncated-iupdate ip d d1 o ndirect (λ r le nz. only_direct z r le nz) (omega arith) freed
            home_meta,
      )
  | no nz ↦
      let (d2, e, freed) = free_whole ip d o len in
      (
        iupdate (emptied ip) d2,
        itrunc-some ip d o len nz,
        Truncated-iupdate ip d d2 o (suc max_file) (λ r le nz'. omega arith) (omega arith) freed
            home_meta,
      )
]
  where
    only_direct :
        get_or ip.addrs ndirect 0 ≡ 0
        → (r : ℕ) → r ≤ max_file
        → place ip.addrs d r ≢ 0
        → r < ndirect
    only_direct z r le nz = elim (dec_lt r ndirect) [
      | yes l ↦ l
      | no g ↦ elim (ℕ_discrete r max_file) [
        | yes e ↦ absurd (nz (ap (place ip.addrs d) e ∙ place-table ip.addrs d ∙ z))
        | no ne ↦ absurd (nz ((place-entry ip.addrs d r (omega arith) (omega arith)).0 z))
      ]
    ]
