-- ===== src/Icache/Release.antt =====
-- `iput`: the last reference to an inode without links frees it on the disk.
use exp.Base.{
  ℕ, zero, suc, ◌-◌, ◌==◌, ◌≤◌, ◌<◌, ◌≡◌, ◌≢◌, refl, ap, sym, ◌∙◌, Bool, true, false, ◌&&◌, Option,
  none, some, replicate, All, arith, Outcome, done, blocked, ◌>>=◌,
}
use exp.Fs.{Disk, bitmap_block}
use exp.Fs.Bitmap.{used, used-write}
use exp.Inode.{Inode, max_file, inode_block, inode_offset, store_dinode, on_disk, iupdate}
use exp.Inode.Owned.{place, Owns}
use exp.Inode.Words.{capacity}
use exp.Inode.Dinode.{Fits, iupdate_lem}
use exp.Inode.Empty.{emptied}
use exp.Inode.Truncate.{Truncated, itrunc_lem}
use exp.Icache.{iput, iput_last, acquiresleep}

-- The inode is nobody's any more.
abbrev pub last : Inode → Bool
last ip = (ip.valid && ip.nlink == 0) && ip.ref == 1

-- What is left of an inode that was freed: its blocks are free, and its number can be given out.
pub record Released (ip : Inode) (d d' : Disk) : Type 0 where
  pub freed : (r : ℕ) → r ≤ max_file → place ip.addrs d r ≢ 0 → used d' (place ip.addrs d r) ≡ false
  pub others :
      (c : ℕ)
      → c < d.sb.size
      → ((r : ℕ) → r ≤ max_file → place ip.addrs d r ≢ 0 → place ip.addrs d r ≢ c)
      → used d' c ≡ used d c
  pub typeless : (to : Inode) → (on_disk to ip.inum d').type ≡ 0
  pub same_sb : d'.sb ≡ d.sb

abbrev cleared : Inode → Inode
cleared ip = record (emptied ip) { type = 0 }

pub zeros : (n : ℕ) → All (λ w. w < capacity 4) (replicate {A = ℕ} n 0)
zeros zero = _
zeros (suc n) = (omega arith, zeros n)

zeros_fit : (ip : Inode) → Fits ip → Fits (cleared ip)
zeros_fit ip fits = record {
  type_short = omega arith;
  major_short = fits.major_short;
  minor_short = fits.minor_short;
  nlink_short = fits.nlink_short;
  size_uint = omega arith;
  addrs_uint = zeros 13;
  entries = refl;
}

Released-iupdate :
    (ip : Inode) (d d1 : Disk)
    → Fits ip
    → Owns (place ip.addrs d) d
    → ((c : ℕ) → c < d.sb.size → inode_block ip.inum d.sb ≢ bitmap_block c d.sb)
    → Truncated ip d d1
    → Released ip d (iupdate (cleared ip) d1)
unfolding iupdate
Released-iupdate ip d d1 fits o home_meta t = record {
  freed = λ r le nz. same (place ip.addrs d r) (o.in_use r le nz).0 ∙ t.freed r le nz;
  others = λ c lt apart. same c lt ∙ t.others c lt apart;
  typeless =
      λ to. ap (λ (i : Inode). i.type) ((iupdate_lem (cleared ip) to d1 (zeros_fit ip fits)).0);
  same_sb = sb_same ∙ t.same_sb;
}
  where
    sb_same : (iupdate (cleared ip) d1).sb ≡ d1.sb
    sb_same = refl

    same : (c : ℕ) → c < d.sb.size → used (iupdate (cleared ip) d1) c ≡ used d1 c
    same c lt =
        used-write d1 (inode_block ip.inum d1.sb) c
          (store_dinode (cleared ip) (d1.blocks (inode_block ip.inum d1.sb)) (inode_offset ip.inum))
          (λ e.
            home_meta c lt
              (sym (ap (inode_block ip.inum) t.same_sb) ∙ e ∙ ap (bitmap_block c) t.same_sb))

iput_last-Released :
    (ip : Inode) (d : Disk) (lock : Option ℕ)
    → Fits ip
    → Owns (place ip.addrs d) d
    → ((c : ℕ) → c < d.sb.size → inode_block ip.inum d.sb ≢ bitmap_block c d.sb)
    → (d' : Disk) × (iput_last (record ip { lock = lock }) d
        ≡ done (record (cleared ip) { valid = false; lock = lock }, d'))
      × Released ip d d'
unfolding iput_last iupdate store_dinode
iput_last-Released ip d lock fits o home_meta =
    let (d1, e, t) = itrunc_lem (record ip { lock = lock }) d o fits.entries home_meta in
    (
      iupdate (cleared ip) d1,
      rw (e, iput_last) refl,
      Released-iupdate ip d d1 fits o home_meta (record {
        freed = t.freed;
        others = t.others;
        blocks_left = t.blocks_left;
        same_sb = t.same_sb;
        formatted = t.formatted;
      }),
    )

waits :
    (pid : ℕ) (lock : Option ℕ) (f : Option ℕ → Outcome (Inode × Disk))
    → lock ≢ none
    → (acquiresleep pid lock >>= f) ≡ blocked
waits pid none f taken = absurd (taken refl)
waits pid (some holder) f taken = refl

-- `iput` waits while the inode is locked. Otherwise it gives back one reference; if that is the last
-- one to an inode without links, it frees all blocks of the inode and no others, and leaves the
-- inode's number free on the disk. In all other cases the disk stays as it is.
pub iput_lem :
    (pid : ℕ) (ip : Inode) (d : Disk)
    → Fits ip
    → Owns (place ip.addrs d) d
    → ((c : ℕ) → c < d.sb.size → inode_block ip.inum d.sb ≢ bitmap_block c d.sb)
    → (ip.lock ≢ none → iput pid ip d ≡ blocked)
      × (ip.lock ≡ none
          → last ip ≡ false
          → iput pid ip d ≡ done (record ip { lock = none; ref = ip.ref - 1 }, d))
      × (ip.lock ≡ none
          → last ip ≡ true
          → (d' : Disk) × (iput pid ip d
              ≡ done (
                record (emptied ip) { type = 0; valid = false; lock = none; ref = ip.ref - 1 },
                d',
              ))
            × Released ip d d')
unfolding iput
iput_lem pid ip d fits o home_meta = (
  λ taken. waits pid ip.lock _ taken,
  λ free kept. rw (free, kept) refl,
  λ free gone.
      let (d', e, r) = iput_last-Released ip d (some pid) fits o home_meta in
      (d', rw (free, gone, e) refl, r),
)
