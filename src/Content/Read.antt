-- ===== src/Content/Read.antt =====
-- `readi` gives the bytes of the contents, and what `writei` wrote.
use exp.Base.{
  ℕ, zero, suc, ◌+◌, ◌-◌, ◌*◌, ◌/◌, ◌%◌, ◌≤◌, ◌<◌, ◌≡◌, ◌⊎◌, inl, inr, refl, ap, ap₂, sym, ◌∙◌,
  subst, List, ◌++◌, arith, ℕ_discrete, Outcome, done, panic, ◌>>=◌,
}
use exp.Fs.{Disk, bsize}
use exp.Inode.{Inode, max_file}
use exp.Inode.Owned.{place}
use exp.Inode.Map.{Mapped, bmap-Mapped}
use exp.Content.{chunk, slice, read_loop}
use exp.Content.Overlay.{slice-cong, slice-shift, slice-append}
use exp.Content.View.{Ready, Ready-Mapped, byte_at, limit, byte_at-some, byte_at-Mapped}
use exp.Content.Write.{Hole, chunk-range}

-- The contents are as before; blocks of zeros may have been filled in.
pub record Kept (ip : Inode) (d : Disk) (ip' : Inode) (d' : Disk) : Type 0 where
  pub ready : Ready ip' d'
  pub bytes : (o : ℕ) → o < limit → byte_at ip' d' o ≡ byte_at ip d o
  pub more : (r : ℕ) → r < max_file → place ip'.addrs d' r ≡ 0 → place ip.addrs d r ≡ 0
  pub only_addrs : ip' ≡ record ip { addrs = ip'.addrs }
  pub same_sb : d'.sb ≡ d.sb

pub Kept-refl : (ip : Inode) (d : Disk) → Ready ip d → Kept ip d ip d
Kept-refl ip d r = record {
  ready = r;
  bytes = λ o lt. refl;
  more = λ r lt z. z;
  only_addrs = refl;
  same_sb = refl;
}

pub Kept-trans :
    (ip ip1 ip2 : Inode) (d d1 d2 : Disk) → Kept ip d ip1 d1 → Kept ip1 d1 ip2 d2 → Kept ip d ip2 d2
Kept-trans ip ip1 ip2 d d1 d2 k k' = record {
  ready = k'.ready;
  bytes = λ o lt. k'.bytes o lt ∙ k.bytes o lt;
  more = λ r lt z. k.more r lt (k'.more r lt z);
  only_addrs = k'.only_addrs ∙ ap (λ (i : Inode). record i { addrs = ip2.addrs }) k.only_addrs;
  same_sb = k'.same_sb ∙ k.same_sb;
}

Mapped-Kept :
    (bn a : ℕ) (ip ip' : Inode) (d d' : Disk)
    → Ready ip d
    → Mapped bn ip d a ip' d'
    → Kept ip d ip' d'
Mapped-Kept bn a ip ip' d d' r m = record {
  ready = Ready-Mapped bn a ip ip' d d' r m;
  bytes = byte_at-Mapped bn a ip ip' d d' m;
  more = λ q lt z. elim (ℕ_discrete bn q) [
    | yes e ↦ absurd (m.some_block (sym m.there ∙ ap (place ip'.addrs d') e ∙ z))
    | no ne ↦ sym (m.others q lt ne) ∙ z
  ];
  only_addrs = m.only_addrs;
  same_sb = m.same_sb;
}

-- The bytes of one round.
slice-Mapped :
    (ip ip' : Inode) (off a k : ℕ) (d d' : Disk)
    → Mapped (off / bsize) ip d a ip' d'
    → off % bsize + k ≤ bsize
    → off < limit
    → slice k (d'.blocks a) (off % bsize) ≡ slice k (byte_at ip d) off
slice-Mapped ip ip' off a k d d' m inside lt =
    slice-shift k (d'.blocks a) (byte_at ip d) (off / bsize * bsize) (off % bsize) same
    ∙ ap (λ o. slice k (byte_at ip d) o) joined
  where
    joined : off / bsize * bsize + off % bsize ≡ off
    joined = omega arith

    same :
        (j : ℕ)
        → off % bsize ≤ j
        → j < off % bsize + k
        → d'.blocks a j ≡ byte_at ip d (off / bsize * bsize + j)
    same j lo hi =
        let o = off / bsize * bsize + j in
        let div : off / bsize ≡ o / bsize = omega (arith, hi, inside) in
        let rem : j ≡ o % bsize = omega (arith, hi, inside) in
        ap (d'.blocks a) rem
        ∙ sym (byte_at-some ip' d' o a (ap (place ip'.addrs d') (sym div) ∙ m.there) m.some_block)
        ∙ byte_at-Mapped (off / bsize) a ip ip' d d' m o (omega (arith, hi, inside, lt))

abbrev pub ReadsOr : Inode → ℕ → ℕ → Disk → Outcome (List ℕ × Inode × Disk) → Type 0
ReadsOr ip off n d r =
    ((r ≡ panic) × Hole ip off n d)
    ⊎ ((ip' : Inode) × (d' : Disk) × (r ≡ done (slice n (byte_at ip d) off, ip', d'))
        × Kept ip d ip' d')

read_loop-later :
    (ip ip1 : Inode) (off k n : ℕ) (d d1 : Disk) (bytes : List ℕ)
    (r : Outcome (List ℕ × Inode × Disk))
    → k ≤ n
    → off + n ≤ limit
    → Kept ip d ip1 d1
    → bytes ≡ slice k (byte_at ip d) off
    → ReadsOr ip1 (off + k) (n - k) d1 r
    → ReadsOr ip off n d (r >>= λ (rest, ip', d'). done (bytes ++ rest, ip', d'))
read_loop-later ip ip1 off k n d d1 bytes r le fits kept got (inl (e, (o, lo, hi, z))) =
    inl (rw e refl, (o, omega arith, omega arith, kept.more (o / bsize) (omega arith) z))
read_loop-later ip ip1 off k n d d1 bytes r le fits kept got (inr (ip', d', e, kept')) =
    inr
      (ip', d', rw e (ap (λ l. done (l, ip', d')) joined), Kept-trans ip ip1 ip' d d1 d' kept kept')
  where
    joined : (bytes ++ slice (n - k) (byte_at ip1 d1) (off + k)) ≡ slice n (byte_at ip d) off
    joined =
        ap₂ ◌++◌ got (
          slice-cong (n - k) (byte_at ip1 d1) (byte_at ip d) (off + k)
            (λ j lo hi. kept.bytes j (omega arith)))
        ∙ slice-append k (n - k) (byte_at ip d) off
        ∙ ap (λ l. slice l (byte_at ip d) off) (omega arith)

-- With fuel for every byte the loop ends, or it panics for want of a block.
pub read_loop-ReadsOr :
    (fuel : ℕ) (ip : Inode) (off n : ℕ) (d : Disk)
    → n ≤ fuel
    → Ready ip d
    → off + n ≤ limit
    → ReadsOr ip off n d (read_loop fuel ip off n d)
unfolding read_loop slice
read_loop-ReadsOr fuel ip off zero d le r fits = inr (ip, d, refl, Kept-refl ip d r)
read_loop-ReadsOr zero ip off (suc n) d le r fits = absurd (omega arith)
read_loop-ReadsOr (suc fuel) ip off (suc n) d le r fits =
    let (some_bytes, le', inside) = chunk-range off (suc n) (omega arith) in
    elim (bmap-Mapped ip (off / bsize) d r.owns r.entries r.small (omega arith)) [
      | inl (e, z, full) ↦ inl (rw e refl, (off, omega arith, omega arith, z))
      | inr (a, ip', d', e, mapped) ↦
          let kept = Mapped-Kept (off / bsize) a ip ip' d d' r mapped in
          subst (ReadsOr ip off (suc n) d) (sym (rw e refl)) (
            read_loop-later ip ip' off (chunk off (suc n)) (suc n) d d'
              (slice (chunk off (suc n)) (d'.blocks a) (off % bsize)) _ le' fits kept
              (slice-Mapped ip ip' off a (chunk off (suc n)) d d' mapped inside (omega arith))
              (read_loop-ReadsOr fuel ip' (off + chunk off (suc n)) (suc n - chunk off (suc n)) d'
                (omega arith) kept.ready (omega arith)))
    ]
