-- ===== src/Icache/Tests.antt =====
-- The small file in the cache, freed and allocated again.
use exp.Base.{
  ◌≡◌, ◌<◌, ◌≢◌, ℕ, zero, suc, true, false, refl, arith, List, [], ◌∷◌, ◌⊎◌, none, some, get_elem?,
  panic, blocked, done,
}
use exp.Fs.{Disk}
use exp.Fs.Tests.{small_disk}
use exp.Inode.{Inode, iupdate}
use exp.Inode.Dinode.{Fits, copied}
use exp.Inode.Empty.{emptied}
use exp.Inode.Tests.{small_file, small_file-Owns}
use exp.Icache.{iget, ilock, iput, ialloc, is_free}
use exp.Icache.Cache.{IsEntry, IsCache, Got, iget_lem}
use exp.Icache.Coherence.{ilock-iupdate}
use exp.Icache.Release.{last, Released, zeros, iput_lem}
use exp.Icache.Create.{Claimed, ialloc_lem}

pub one-IsCache : (x : Inode) → IsCache (x ∷ [])
one-IsCache x zero zero ip jp e f h lt = refl
one-IsCache x zero (suc j) ip jp e f h lt = cc
one-IsCache x (suc i) j ip jp e f h lt = cc

abbrev vacant : Inode
vacant = record small_file { ref = 0; inum = 7 }

small_file-Fits : Fits small_file
small_file-Fits = record {
  type_short = omega arith;
  major_short = omega arith;
  minor_short = omega arith;
  nlink_short = omega arith;
  size_uint = omega arith;
  addrs_uint = (omega arith, zeros 12);
  entries = refl;
}

iget_lem_example :
    ((iget 1 1 (small_file ∷ []) ≡ panic)
      × ((j : ℕ) (jp : Inode)
          → get_elem? (small_file ∷ []) j ≡ some jp
          → (IsEntry 1 1 jp → ⊥) × (jp.ref ≢ 0)))
    ⊎ ((i : ℕ) × (l' : List Inode) × (iget 1 1 (small_file ∷ []) ≡ done (i, l'))
        × Got 1 1 (small_file ∷ []) i l')
iget_lem_example = iget_lem 1 1 (small_file ∷ []) (one-IsCache small_file)

abbrev stale : Inode
stale = record small_file { valid = false; size = 0; addrs = [] }

ilock-iupdate_example :
    (stale.inum ≡ small_file.inum
      → ilock 5 stale (iupdate small_file small_disk)
        ≡ done (record (copied stale small_file) { lock = some 5; valid = true }))
    × (stale.inum ≢ small_file.inum
        → ilock 5 stale (iupdate small_file small_disk) ≡ ilock 5 stale small_disk)
ilock-iupdate_example =
    ilock-iupdate 5 small_file stale small_disk small_file-Fits (λ e. omega (arith, e))
      (λ e. omega (arith, e)) refl refl

-- A file whose last name is gone.
abbrev unlinked : Inode
unlinked = record small_file { nlink = 0 }

unlinked-Fits : Fits unlinked
unlinked-Fits = record {
  type_short = omega arith;
  major_short = omega arith;
  minor_short = omega arith;
  nlink_short = omega arith;
  size_uint = omega arith;
  addrs_uint = (omega arith, zeros 12);
  entries = refl;
}

iput_lem_example :
    (unlinked.lock ≢ none → iput 5 unlinked small_disk ≡ blocked)
    × (unlinked.lock ≡ none
        → last unlinked ≡ false
        → iput 5 unlinked small_disk ≡ done (record unlinked { lock = none; ref = 0 }, small_disk))
    × (unlinked.lock ≡ none
        → last unlinked ≡ true
        → (d' : Disk) × (iput 5 unlinked small_disk
            ≡ done
                (record (emptied unlinked) { type = 0; valid = false; lock = none; ref = 0 }, d'))
          × Released unlinked small_disk d')
iput_lem_example =
    iput_lem 5 unlinked small_disk unlinked-Fits small_file-Owns (λ c lt e. omega (arith, e))

ialloc_lem_example :
    ((ialloc 1 2 (vacant ∷ []) small_disk ≡ panic)
      × (((k : ℕ) → 0 < k → k < 8 → is_free small_disk k ≡ false)
          ⊎ ((j : ℕ) (jp : Inode) → get_elem? (vacant ∷ []) j ≡ some jp → jp.ref ≢ 0)))
    ⊎ ((i k : ℕ) × (l' : List Inode) × (d' : Disk) × (ialloc 1 2 (vacant ∷ []) small_disk
          ≡ done (k, l', d'))
        × Claimed 2 i small_disk d'
        × Got 1 i (vacant ∷ []) k l')
ialloc_lem_example = ialloc_lem 1 2 (vacant ∷ []) small_disk (one-IsCache vacant) (omega arith)
