-- ===== src/Content/Store.antt =====
-- `writei`: the bytes, the size of the file, and what is refused.
use exp.Base.{
  ℕ, ◌+◌, ◌*◌, ◌/◌, ◌^◌, ◌==◌, ◌≤◌, ◌<◌, ◌≡◌, ◌≢◌, ◌⊎◌, inl, inr, refl, ap, sym, ◌∙◌, ltb, true,
  false, ◌&&◌, ◌||◌, List, length, Bool-cases, All, if◌then◌else◌, arith, dec_lt, Outcome, done,
  blocked, panic, ◌>>=◌,
}
use exp.Base.Int.{ℤ, pos, negsuc}
use exp.Fs.{Bytes, Disk, bsize}
use exp.Inode.{Inode, max_file, t_dev, inode_block, inode_offset, store_dinode, iupdate}
use exp.Inode.Dinode.{store_dinode-byte}
use exp.Inode.Owned.{place}
use exp.Content.{Device, uint, writei, grow, write_loop}
use exp.Content.Overlay.{overlay}
use exp.Content.View.{Ready, byte_at, limit}
use exp.Content.Block.{Ready-write, byte_at-elsewhere, place-write}
use exp.Content.Write.{Wrote, Hole, write_loop-WritesOr}

abbrev resized : Inode → ℕ → Inode
resized ip n = record ip { size = n }

Ready-resize : (ip : Inode) (n : ℕ) (d : Disk) → Ready ip d → Ready (record ip { size = n }) d
Ready-resize ip n d r = record {
  owns = r.owns;
  entries = r.entries;
  small = r.small;
  home_inside = r.home_inside;
  home_used = r.home_used;
  home_apart = r.home_apart;
  home_meta = r.home_meta;
}

byte_at-resize :
    (ip : Inode) (n : ℕ) (d : Disk) (o : ℕ) → byte_at (record ip { size = n }) d o ≡ byte_at ip d o
unfolding byte_at
byte_at-resize ip n d o = refl

-- `iupdate` leaves the contents.
module _ (ip : Inode) (d : Disk) (ready : Ready ip d) where
  abbrev home : ℕ
  home = inode_block ip.inum d.sb

  abbrev entry : Bytes
  entry = store_dinode ip (d.blocks home) (inode_offset ip.inum)

  entry-byte : (i : ℕ) → entry i < 256
  entry-byte =
      store_dinode-byte ip (d.blocks home) (inode_offset ip.inum) (ready.owns.formatted.bytes home)

  not_table : place ip.addrs d max_file ≢ 0 → home ≢ place ip.addrs d max_file
  not_table nz e = ready.home_apart max_file (omega arith) nz (sym e)

  pub Ready-iupdate : Ready ip (iupdate ip d)
  unfolding iupdate
  Ready-iupdate = Ready-write ip d home entry ready entry-byte not_table ready.home_meta

  pub byte_at-iupdate : (o : ℕ) → o < limit → byte_at ip (iupdate ip d) o ≡ byte_at ip d o
  unfolding iupdate
  byte_at-iupdate o lt =
      byte_at-elsewhere ip d home entry ready entry-byte not_table ready.home_meta o lt
        (λ nz e. ready.home_apart (o / bsize) (omega arith) nz (sym e))

  pub place-iupdate : (r : ℕ) → r ≤ max_file → place ip.addrs (iupdate ip d) r ≡ place ip.addrs d r
  unfolding iupdate
  place-iupdate r le = place-write ip.addrs d home entry r not_table le

abbrev pub larger : ℕ → ℕ → ℕ
larger a b = if ltb a b then b else a

-- The file after a write.
pub record Written (ip : Inode) (off : ℕ) (src : List ℕ) (d : Disk) (ip' : Inode) (d' : Disk)
    : Type 0 where
  pub ready : Ready ip' d'
  pub bytes : (o : ℕ) → o < limit → byte_at ip' d' o ≡ overlay (byte_at ip d) off src o
  pub mapped : (o : ℕ) → off ≤ o → o < off + length src → place ip'.addrs d' (o / bsize) ≢ 0
  pub new_size : ip'.size ≡ larger ip.size (off + length src)
  pub only : ip' ≡ record ip { addrs = ip'.addrs; size = ip'.size }
  pub same_sb : d'.sb ≡ d.sb

Written-kept :
    (ip ip' : Inode) (off : ℕ) (src : List ℕ) (d d' : Disk)
    → off + length src ≤ ip.size
    → Wrote ip off src d ip' d'
    → Written ip off src d ip' d'
Written-kept ip ip' off src d d' le w = record {
  ready = w.ready;
  bytes = w.bytes;
  mapped = w.mapped;
  new_size = size_same ∙ not_larger;
  only = w.only_addrs ∙ ap (λ n. record ip { addrs = ip'.addrs; size = n }) (sym size_same);
  same_sb = w.same_sb;
}
  where
    size_same : ip'.size ≡ ip.size
    size_same = ap (λ (i : Inode). i.size) w.only_addrs

    not_larger : ip.size ≡ larger ip.size (off + length src)
    not_larger = ground arith

Written-grown :
    (ip ip' : Inode) (off : ℕ) (src : List ℕ) (d d' : Disk)
    → ip.size < off + length src
    → off + length src ≤ limit
    → Wrote ip off src d ip' d'
    → (let i = record ip' { size = off + length src } in Written ip off src d i (iupdate i d'))
unfolding iupdate
Written-grown ip ip' off src d d' lt fits w = record {
  ready = Ready-iupdate (resized ip' (off + length src)) d' ready;
  bytes = λ o small.
      byte_at-iupdate (resized ip' (off + length src)) d' ready o small
      ∙ byte_at-resize ip' (off + length src) d' o
      ∙ w.bytes o small;
  mapped = λ o lo hi z.
      w.mapped o lo hi (
        sym (place-iupdate (resized ip' (off + length src)) d' ready (o / bsize) (omega arith))
        ∙ z);
  new_size = grows;
  only = ap (λ (j : Inode). record j { addrs = ip'.addrs; size = off + length src }) w.only_addrs;
  same_sb = w.same_sb;
}
  where
    ready : Ready (resized ip' (off + length src)) d'
    ready = Ready-resize ip' (off + length src) d' w.ready

    grows : off + length src ≡ larger ip.size (off + length src)
    grows = ground arith

grow-Written :
    (ip ip' : Inode) (off : ℕ) (src : List ℕ) (d d' : Disk)
    → off ≤ ip.size
    → off + length src ≤ limit
    → Wrote ip off src d ip' d'
    → (let (i, e) = grow (length src) (off + length src) ip' d' in Written ip off src d i e)
grow-Written ip ip' off src d d' le fits w = elim (dec_lt ip.size (off + length src)) [
  | yes lt ↦
      rw
        (test_true (length src) ip'.size (off + length src) (omega (arith, le, lt))
          (omega (arith, lt, size_same)))
        (Written-grown ip ip' off src d d' lt fits w)
  | no g ↦
      rw (test_false (length src) ip'.size (off + length src) (omega (arith, g, size_same)))
        (Written-kept ip ip' off src d d' (omega arith) w)
]
  where
    size_same : ip'.size ≡ ip.size
    size_same = ap (λ (i : Inode). i.size) w.only_addrs

    test_true : (n s e : ℕ) → 0 < n → s < e → (ltb 0 n && ltb s e) ≡ true
    test_true n s e h k = ground arith

    test_false : (n s e : ℕ) → e ≤ s → (ltb 0 n && ltb s e) ≡ false
    test_false n s e h = ground arith

module _ (devsw : ℕ → Device) where
  -- A write outside the file is refused: one that starts after its end, or ends after the largest
  -- size, also if the sum of offset and number wraps around.
  pub writei-refuses :
      (ip : Inode) (src : List ℕ) (off : ℕ) (d : Disk)
      → ip.type ≢ t_dev
      → off < 2 ^ 32
      → length src < 2 ^ 32
      → (ip.size < off) ⊎ (limit < off + length src)
      → writei devsw ip src off d ≡ done (negsuc 0, ip, d)
  unfolding writei
  writei-refuses ip src off d file small small' out = rw (eq-false ip.type file, refused out) refl
    where
      eq-false : (t : ℕ) → t ≢ t_dev → (t == t_dev) ≡ false
      eq-false t ne = ground arith

      refused :
          (ip.size < off) ⊎ (limit < off + length src)
          → ((ltb ip.size off || ltb (uint (off + length src)) off)
              || ltb (max_file * bsize) (uint (off + length src)))
            ≡ true
      refused h = ground arith

  writei-loop :
      (ip : Inode) (src : List ℕ) (off : ℕ) (d : Disk)
      → ip.type ≢ t_dev
      → off ≤ ip.size
      → off + length src ≤ limit
      → writei devsw ip src off d ≡ (
          write_loop (length src) ip off src d >>= λ (off', ip', d').
          let (i, e) = grow (length src) off' ip' d' in done (pos (length src), i, e))
  unfolding writei
  writei-loop ip src off d file le fits = rw (eq-false ip.type file, accepted) refl
    where
      eq-false : (t : ℕ) → t ≢ t_dev → (t == t_dev) ≡ false
      eq-false t ne = ground arith

      accepted :
          ((ltb ip.size off || ltb (uint (off + length src)) off)
            || ltb (max_file * bsize) (uint (off + length src)))
          ≡ false
      accepted = ground arith

  -- A write from within a file returns the number of bytes, and lays them over the contents, which
  -- grow as needed and are the same elsewhere. It panics only if a block of its range was not there.
  pub writei-Written :
      (ip : Inode) (src : List ℕ) (off : ℕ) (d : Disk)
      → Ready ip d
      → ip.type ≢ t_dev
      → off ≤ ip.size
      → off + length src ≤ limit
      → All (λ c. c < 256) src
      → ((writei devsw ip src off d ≡ panic) × Hole ip off (length src) d)
        ⊎ ((ip' : Inode) × (d' : Disk) × (writei devsw ip src off d
              ≡ done (pos (length src), ip', d'))
            × Written ip off src d ip' d')
  writei-Written ip src off d ready file le fits small =
      elim (write_loop-WritesOr (length src) ip off src d (omega arith) ready fits small) [
        | inl (e, hole) ↦ inl (writei-loop ip src off d file le fits ∙ rw e refl, hole)
        | inr (ip', d', e, w) ↦
            let (i, d'') = grow (length src) (off + length src) ip' d' in
            inr (
              i,
              d'',
              writei-loop ip src off d file le fits ∙ rw e refl,
              grow-Written ip ip' off src d d' le fits w,
            )
      ]

after_loop :
    (n : ℕ) (x : Outcome (ℕ × Inode × Disk)) (g : ℕ × Inode × Disk → Inode × Disk) {r : ℤ}
    {ip' : Inode} {d' : Disk}
    → ◌>>=◌ {B = ℤ × Inode × Disk} x (λ s. done (pos n, (g s).0, (g s).1)) ≡ done (r, ip', d')
    → r ≡ pos n
after_loop n (done s) g e = ground arith
after_loop n blocked g e = cc
after_loop n panic g e = cc

-- A `writei` to a file that is no device and that returns has written all its bytes or returns -1.
pub writei-all_or_refused :
    (devsw : ℕ → Device) (ip : Inode) (src : List ℕ) (off : ℕ) (d : Disk) {r : ℤ} {ip' : Inode}
    {d' : Disk}
    → (ip.type == t_dev) ≡ false
    → writei devsw ip src off d ≡ done (r, ip', d')
    → (r ≡ pos (length src)) ⊎ (r ≡ negsuc 0)
unfolding writei
writei-all_or_refused devsw ip src off d {r} {ip'} {d'} file e =
    elim (Bool-cases (
      (ltb ip.size off || ltb (uint (off + length src)) off)
      || ltb (max_file * bsize) (uint (off + length src)))) [
        | inl out ↦ inr (ground arith)
        | inr in_range ↦ inl (
            after_loop (length src) (write_loop (length src) ip off src d)
              (λ (off', ip1, d1). grow (length src) off' ip1 d1) {ip' = ip'} {d' = d'}
              (ground arith))
      ]
