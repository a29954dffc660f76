-- ===== src/Content/Write.antt =====
-- The loop of `writei` lays the bytes over the contents.
use exp.Base.{
  ℕ, zero, suc, ◌+◌, ◌-◌, ◌*◌, ◌/◌, ◌%◌, ◌≤◌, ◌<◌, ◌≡◌, ◌≢◌, ◌⊎◌, inl, inr, refl, ap, sym, ◌∙◌,
  subst, List, [], ◌∷◌, length, All, take, drop, arith, dec_lt, ℕ_discrete, Outcome, done, panic,
}
use exp.Fs.{Bytes, Disk, write_block, bsize}
use exp.Inode.{Inode, max_file}
use exp.Inode.Owned.{place}
use exp.Inode.Map.{Mapped, bmap-Mapped}
use exp.Content.{chunk, fill, write_loop}
use exp.Content.Overlay.{
  overlay, overlay-outside, overlay-split, overlay-shift, overlay-cong, overlay-at, fill-overlay,
  fill-byte, small_pieces, length-take, length-drop,
}
use exp.Content.View.{Ready, Ready-Mapped, byte_at, limit, byte_at-some, byte_at-Mapped}
use exp.Content.Block.{Ready-data, place-data, byte_at-other, byte_at-here}

pub chunk-range :
    (off n : ℕ)
    → 0 < n
    → (0 < chunk off n) × (chunk off n ≤ n) × (off % bsize + chunk off n ≤ bsize)
chunk-range off n h = ground arith

-- The bytes `src` are in the contents from `off` on, in blocks that are there, and the rest is as it
-- was.
pub record Wrote (ip : Inode) (off : ℕ) (src : List ℕ) (d : Disk) (ip' : Inode) (d' : Disk)
    : Type 0 where
  pub ready : Ready ip' d'
  pub bytes : (o : ℕ) → o < limit → byte_at ip' d' o ≡ overlay (byte_at ip d) off src o
  pub mapped : (o : ℕ) → off ≤ o → o < off + length src → place ip'.addrs d' (o / bsize) ≢ 0
  pub more : (r : ℕ) → r < max_file → place ip'.addrs d' r ≡ 0 → place ip.addrs d r ≡ 0
  pub only_addrs : ip' ≡ record ip { addrs = ip'.addrs }
  pub same_sb : d'.sb ≡ d.sb

Wrote-nothing : (ip : Inode) (off : ℕ) (d : Disk) → Ready ip d → Wrote ip off [] d ip d
Wrote-nothing ip off d r = record {
  ready = r;
  bytes = λ o lt. sym (
      overlay-outside (byte_at ip d) off [] o
        (elim (dec_lt o off) [ yes l ↦ inl l | no g ↦ inr (omega arith) ]));
  mapped = λ o lo hi. absurd (omega arith);
  more = λ r lt z. z;
  only_addrs = refl;
  same_sb = refl;
}

Wrote-join :
    (ip ip1 ip2 : Inode) (off m : ℕ) (src : List ℕ) (d d1 d2 : Disk)
    → m ≤ length src
    → off + length src ≤ limit
    → Wrote ip off (take m src) d ip1 d1
    → Wrote ip1 (off + m) (drop m src) d1 ip2 d2
    → Wrote ip off src d ip2 d2
Wrote-join ip ip1 ip2 off m src d d1 d2 le fits w w' = record {
  ready = w'.ready;
  bytes = λ o lt.
      w'.bytes o lt
      ∙ overlay-cong (byte_at ip1 d1) (overlay (byte_at ip d) off (take m src)) (off + m)
          (drop m src) o (w.bytes o lt)
      ∙ overlay-split (byte_at ip d) off m src o le;
  mapped = λ o lo hi z. elim (dec_lt o (off + m)) [
    | yes l ↦
        w.mapped o lo (omega (arith, length-take m src le)) (w'.more (o / bsize) (omega arith) z)
    | no g ↦ w'.mapped o (omega arith) (omega (arith, length-drop m src)) z
  ];
  more = λ r lt z. w.more r lt (w'.more r lt z);
  only_addrs = w'.only_addrs ∙ ap (λ (i : Inode). record i { addrs = ip2.addrs }) w.only_addrs;
  same_sb = w'.same_sb ∙ w.same_sb;
}

-- One round of the loop.
module _ (ip ip' : Inode) (off a : ℕ) (src : List ℕ) (d d' : Disk) (ready : Ready ip d)
    (mapped : Mapped (off / bsize) ip d a ip' d') (fits : off + length src ≤ limit)
    (some_bytes : 0 < length src) (small : All (λ c. c < 256) src) where
  abbrev m : ℕ
  m = chunk off (length src)

  abbrev block : Bytes
  block = fill (take m src) (d'.blocks a) (off % bsize)

  block-byte : (i : ℕ) → block i < 256
  block-byte =
      fill-byte (take m src) (d'.blocks a) (off % bsize) (small_pieces m src small).0
        (mapped.owns.formatted.bytes a)

  ready' : Ready ip' d'
  ready' = Ready-Mapped (off / bsize) a ip ip' d d' ready mapped

  pieces : (0 < m) × (m ≤ length src) × (off % bsize + m ≤ bsize)
  pieces = chunk-range off (length src) some_bytes

  taken : length (take m src) ≡ m
  taken = length-take m src pieces.1

  in_block :
      (o : ℕ)
      → o < limit
      → off / bsize ≡ o / bsize
      → byte_at ip' (write_block a block d') o ≡ overlay (byte_at ip' d') off (take m src) o
  in_block o lt e =
      byte_at-here ip' d' (off / bsize) a block ready' block-byte (omega (arith, fits, some_bytes))
        mapped.there mapped.some_block o lt e
      ∙ fill-overlay (take m src) (d'.blocks a) (off % bsize) (o % bsize)
      ∙ overlay-shift (d'.blocks a) (byte_at ip' d') (off / bsize * bsize) (off % bsize)
          (take m src) (o % bsize)
          (sym (
            ap (byte_at ip' d') {x = off / bsize * bsize + o % bsize} {y = o} (omega (arith, e))
            ∙ byte_at-some ip' d' o a (ap (place ip'.addrs d') (sym e) ∙ mapped.there)
                mapped.some_block))
      ∙ overlay-at (byte_at ip' d') (off / bsize * bsize + off % bsize) off (take m src)
          (off / bsize * bsize + o % bsize) o (omega arith) (omega (arith, e))

  out_of_block :
      (o : ℕ)
      → o < limit
      → off / bsize ≢ o / bsize
      → byte_at ip' (write_block a block d') o ≡ overlay (byte_at ip' d') off (take m src) o
  out_of_block o lt ne =
      byte_at-other ip' d' (off / bsize) a block ready' block-byte (omega (arith, fits, some_bytes))
        mapped.there mapped.some_block o lt ne
      ∙ sym (
          overlay-outside (byte_at ip' d') off (take m src) o (elim (dec_lt o off) [
            | yes l ↦ inl l
            | no g ↦ inr (omega (arith, ne, taken, pieces.2, g))
          ]))

  written_place :
      (r : ℕ) → r < max_file → place ip'.addrs (write_block a block d') r ≡ place ip'.addrs d' r
  written_place r lt =
      place-data ip' d' (off / bsize) a block ready' block-byte (omega (arith, fits, some_bytes))
        mapped.there mapped.some_block r (omega arith)

  absent : (r : ℕ) → off / bsize ≡ r → r < max_file → place ip'.addrs (write_block a block d') r ≢ 0
  absent r e lt z =
      mapped.some_block
        (sym mapped.there ∙ ap (place ip'.addrs d') e ∙ sym (written_place r lt) ∙ z)

  Wrote-round : Wrote ip off (take m src) d ip' (write_block a block d')
  Wrote-round = record {
    ready =
        Ready-data ip' d' (off / bsize) a block ready' block-byte (omega (arith, fits, some_bytes))
          mapped.there mapped.some_block;
    bytes = λ o lt.
        elim (ℕ_discrete (off / bsize) (o / bsize)) [
          | yes e ↦ in_block o lt e
          | no ne ↦ out_of_block o lt ne
        ]
        ∙ overlay-cong (byte_at ip' d') (byte_at ip d) off (take m src) o
            (byte_at-Mapped (off / bsize) a ip ip' d d' mapped o lt);
    mapped = λ o lo hi z.
        absent (o / bsize) (omega (arith, taken, pieces.2, lo, hi))
          (omega (arith, taken, pieces.1, fits, hi)) z;
    more = λ r lt z. elim (ℕ_discrete (off / bsize) r) [
      | yes e ↦ absurd (absent r e lt z)
      | no ne ↦ sym (mapped.others r lt ne) ∙ sym (written_place r lt) ∙ z
    ];
    only_addrs = mapped.only_addrs;
    same_sb = mapped.same_sb;
  }

-- A block of the range was not there.
abbrev pub Hole : Inode → ℕ → ℕ → Disk → Type 0
Hole ip off n d = (o : ℕ) × (off ≤ o) × (o < off + n) × (place ip.addrs d (o / bsize) ≡ 0)

abbrev pub WritesOr : Inode → ℕ → List ℕ → Disk → Outcome (ℕ × Inode × Disk) → Type 0
WritesOr ip off src d r =
    ((r ≡ panic) × Hole ip off (length src) d)
    ⊎ ((ip' : Inode) × (d' : Disk) × (r ≡ done (off + length src, ip', d'))
        × Wrote ip off src d ip' d')

write_loop-later :
    (ip ip1 : Inode) (off k : ℕ) (src : List ℕ) (d d1 : Disk) (r : Outcome (ℕ × Inode × Disk))
    → k ≤ length src
    → off + length src ≤ limit
    → Wrote ip off (take k src) d ip1 d1
    → WritesOr ip1 (off + k) (drop k src) d1 r
    → WritesOr ip off src d r
write_loop-later ip ip1 off k src d d1 r le fits w (inl (e, (o, lo, hi, z))) = inl (
  e,
  (
    o,
    omega arith,
    omega (arith, length-drop k src),
    w.more (o / bsize) (omega (arith, length-drop k src)) z,
  ),
)
write_loop-later ip ip1 off k src d d1 r le fits w (inr (ip', d', e, w')) = inr (
  ip',
  d',
  e ∙ ap (λ i. done (i, ip', d')) (end_same (length (drop k src)) (length-drop k src)),
  Wrote-join ip ip1 ip' off k src d d1 d' le fits w w',
)
  where
    end_same : (n : ℕ) → n ≡ length src - k → off + k + n ≡ off + length src
    end_same n e = omega arith

-- With fuel for every byte the loop ends, or it panics for want of a block.
pub write_loop-WritesOr :
    (fuel : ℕ) (ip : Inode) (off : ℕ) (src : List ℕ) (d : Disk)
    → length src ≤ fuel
    → Ready ip d
    → off + length src ≤ limit
    → All (λ c. c < 256) src
    → WritesOr ip off src d (write_loop fuel ip off src d)
unfolding write_loop
write_loop-WritesOr fuel ip off [] d le r fits small =
    inr (ip, d, ap (λ k. done (k, ip, d)) (plus_zero off), Wrote-nothing ip off d r)
  where
    plus_zero : (k : ℕ) → k ≡ k + 0
    plus_zero k = omega arith
write_loop-WritesOr zero ip off (c ∷ cs) d le r fits small = absurd (omega arith)
write_loop-WritesOr (suc fuel) ip off (c ∷ cs) d le r fits small =
    elim (bmap-Mapped ip (off / bsize) d r.owns r.entries r.small (omega arith)) [
      | inl (e, z, full) ↦ inl (rw e refl, (off, omega arith, omega arith, z))
      | inr (a, ip', d', e, mapped) ↦
          let w = Wrote-round ip ip' off a (c ∷ cs) d d' r mapped fits (omega arith) small in
          let (pos, le', inside) = chunk-range off (length (c ∷ cs)) (omega arith) in
          subst (WritesOr ip off (c ∷ cs) d) (sym (rw e refl)) (
            write_loop-later ip ip' off (chunk off (length (c ∷ cs))) (c ∷ cs) d _ _ le' fits w (
              write_loop-WritesOr fuel ip' (off + chunk off (length (c ∷ cs)))
                (drop (chunk off (length (c ∷ cs))) (c ∷ cs)) _
                (omega (arith, length-drop (chunk off (length (c ∷ cs))) (c ∷ cs))) w.ready
                (omega (arith, length-drop (chunk off (length (c ∷ cs))) (c ∷ cs)))
                (small_pieces (chunk off (length (c ∷ cs))) (c ∷ cs) small).1))
    ]
