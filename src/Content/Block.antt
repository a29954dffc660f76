-- ===== src/Content/Block.antt =====
-- What a write of one block leaves of an inode and its contents.
use exp.Base.{
  ℕ, ◌-◌, ◌*◌, ◌/◌, ◌%◌, ◌≤◌, ◌<◌, ◌≡◌, ◌≢◌, refl, ap, sym, ◌∙◌, subst, List, get_or, arith, dec_lt,
  ℕ_discrete,
}
use exp.Fs.{Bytes, Disk, put, write_block, bitmap_block, bsize}
use exp.Fs.Bitmap.{used-write}
use exp.Inode.{Inode, ndirect, max_file, inode_block, load_le}
use exp.Inode.Step.{place-direct, place-table, place-entry}
use exp.Inode.Owned.{place, Owns-write, Owns-same}
use exp.Content.View.{Ready, byte_at, limit, byte_at-none, byte_at-some}

put_ne : (f : ℕ → Bytes) (i : ℕ) (v : Bytes) (j : ℕ) → i ≢ j → put f i v j ≡ f j
put_ne f i v j h = ground arith

put_eq : (f : ℕ → Bytes) (i : ℕ) (v : Bytes) → put f i v i ≡ v
put_eq f i v = ground arith

-- A write that is not to the indirect block leaves the places.
pub place-write :
    (l : List ℕ) (d : Disk) (b : ℕ) (v : Bytes) (r : ℕ)
    → (place l d max_file ≢ 0 → b ≢ place l d max_file)
    → r ≤ max_file
    → place l (write_block b v d) r ≡ place l d r
place-write l d b v r ne le = elim (dec_lt r ndirect) [
  | yes lo ↦ place-direct l (write_block b v d) r lo ∙ sym (place-direct l d r lo)
  | no hi ↦ elim (ℕ_discrete r max_file) [
    | yes e ↦
        subst (λ r. place l (write_block b v d) r ≡ place l d r) (sym e)
          (place-table l (write_block b v d) ∙ sym (place-table l d))
    | no ne' ↦ entry (omega arith) (omega arith)
  ]
]
  where
    entry : ndirect ≤ r → r < max_file → place l (write_block b v d) r ≡ place l d r
    entry lo hi = elim (ℕ_discrete (get_or l ndirect 0) 0) [
      | yes z ↦
          (place-entry l (write_block b v d) r lo hi).0 z ∙ sym ((place-entry l d r lo hi).0 z)
      | no nz ↦
          (place-entry l (write_block b v d) r lo hi).1 nz
          ∙ ap (λ m. load_le 4 m (4 * (r - ndirect)))
              (put_ne d.blocks b v (get_or l ndirect 0)
                (λ e. ne (λ z. nz (sym (place-table l d) ∙ z)) (e ∙ sym (place-table l d))))
          ∙ sym ((place-entry l d r lo hi).1 nz)
    ]

-- A block that may be written: not the bitmap's and not the indirect block.
module _ (ip : Inode) (d : Disk) (b : ℕ) (v : Bytes) (ready : Ready ip d)
    (small : (i : ℕ) → v i < 256)
    (no_table : place ip.addrs d max_file ≢ 0 → b ≢ place ip.addrs d max_file)
    (no_bitmap : (c : ℕ) → c < d.sb.size → b ≢ bitmap_block c d.sb) where
  pub Ready-write : Ready ip (write_block b v d)
  Ready-write = record {
    owns =
        Owns-same (place ip.addrs d) (place ip.addrs (write_block b v d)) (write_block b v d)
          (λ r le. place-write ip.addrs d b v r no_table le)
          (Owns-write (place ip.addrs d) d b v ready.owns small no_bitmap);
    entries = ready.entries;
    small = ready.small;
    home_inside = ready.home_inside;
    home_used =
        used-write d b (inode_block ip.inum d.sb) v
          (no_bitmap (inode_block ip.inum d.sb) ready.home_inside)
        ∙ ready.home_used;
    home_apart = λ r le nz e.
        let same = place-write ip.addrs d b v r no_table le in
        ready.home_apart r le (λ z. nz (same ∙ z)) (sym same ∙ e);
    home_meta = ready.home_meta;
  }

  -- A byte whose block is another one.
  pub byte_at-elsewhere :
      (o : ℕ)
      → o < limit
      → (place ip.addrs d (o / bsize) ≢ 0 → b ≢ place ip.addrs d (o / bsize))
      → byte_at ip (write_block b v d) o ≡ byte_at ip d o
  byte_at-elsewhere o lt ne = elim (ℕ_discrete (place ip.addrs d (o / bsize)) 0) [
    | yes z ↦
        byte_at-none ip (write_block b v d) o
          (place-write ip.addrs d b v (o / bsize) no_table (omega arith) ∙ z)
        ∙ sym (byte_at-none ip d o z)
    | no nz ↦
        byte_at-some ip (write_block b v d) o (place ip.addrs d (o / bsize))
          (place-write ip.addrs d b v (o / bsize) no_table (omega arith)) nz
        ∙ ap (λ (f : Bytes). f (o % bsize))
            (put_ne d.blocks b v (place ip.addrs d (o / bsize)) (ne nz))
        ∙ sym (byte_at-some ip d o (place ip.addrs d (o / bsize)) refl nz)
  ]

-- A write of a block of the contents.
module _ (ip : Inode) (d : Disk) (r a : ℕ) (v : Bytes) (ready : Ready ip d)
    (small : (i : ℕ) → v i < 256) (in_range : r < max_file) (there : place ip.addrs d r ≡ a)
    (some_block : a ≢ 0) where
  no_other : (s : ℕ) → s ≤ max_file → r ≢ s → place ip.addrs d s ≢ 0 → a ≢ place ip.addrs d s
  no_other s le ne nz e =
      ne (ready.owns.distinct r s (omega arith) le (λ z. some_block (sym there ∙ z)) (there ∙ e))

  no_bitmap : (c : ℕ) → c < d.sb.size → a ≢ bitmap_block c d.sb
  no_bitmap c lt e =
      ready.owns.apart r (omega arith) (λ z. some_block (sym there ∙ z)) c lt (there ∙ e)

  no_table : place ip.addrs d max_file ≢ 0 → a ≢ place ip.addrs d max_file
  no_table = no_other max_file (omega arith) (omega arith)

  pub Ready-data : Ready ip (write_block a v d)
  Ready-data = Ready-write ip d a v ready small no_table no_bitmap

  pub place-data :
      (s : ℕ) → s ≤ max_file → place ip.addrs (write_block a v d) s ≡ place ip.addrs d s
  place-data s le = place-write ip.addrs d a v s no_table le

  pub byte_at-other :
      (o : ℕ) → o < limit → r ≢ o / bsize → byte_at ip (write_block a v d) o ≡ byte_at ip d o
  byte_at-other o lt ne =
      byte_at-elsewhere ip d a v ready small no_table no_bitmap o lt
        (no_other (o / bsize) (omega arith) ne)

  pub byte_at-here :
      (o : ℕ) → o < limit → r ≡ o / bsize → byte_at ip (write_block a v d) o ≡ v (o % bsize)
  byte_at-here o lt e =
      byte_at-some ip (write_block a v d) o a
        (place-data (o / bsize) (omega arith) ∙ ap (place ip.addrs d) (sym e) ∙ there) some_block
      ∙ ap (λ (f : Bytes). f (o % bsize)) (put_eq d.blocks a v)
