-- ===== src/Icache.antt =====
-- xv6-add_FAIRNESS/fs.c and sleeplock.c: the cache of inodes, their locks and references, and the
-- inodes on the disk. A pointer into the cache is an index. What runs under icache.lock is one
-- function; `blocked` is a wait for a sleep lock.
pub mod Search
pub mod Cache
pub mod Coherence
pub mod Release
pub mod Create
pub mod Tests
use exp.Base.{
  ℕ, zero, suc, ◌+◌, ◌-◌, ◌*◌, ◌/◌, ◌%◌, ◌==◌, ltb, leb, Bool, true, false, not, ◌&&◌, ◌||◌, Option,
  none, some, List, [], ◌∷◌, length, get_elem?, set, if◌then◌else◌, Outcome, done, blocked, panic,
  ◌>>=◌,
}
use exp.Fs.{Bytes, Disk, Superblock, write_block}
use exp.Inode.{
  Inode, load_le, store_le, on_disk, iupdate, itrunc, inode_block, inode_offset, dinode_size,
}

-- What the loop of `iget` finds: the entry of the inode, or else the first empty one.
pub data Found : Type 0 where
  hit : ℕ → Found
  miss : Option ℕ → Found

abbrev pub holds : ℕ → ℕ → Inode → Bool
holds dev inum ip = ltb 0 ip.ref && (ip.dev == dev && ip.inum == inum)

abbrev pub remember : Option ℕ → ℕ → Inode → Option ℕ
remember (some e) i ip = some e
remember none i ip = if ip.ref == 0 then some i else none

-- The loop, from entry `i` on.
unfoldable pub iget_scan : ℕ → ℕ → List Inode → ℕ → Option ℕ → Found
iget_scan dev inum [] i empty = miss empty
iget_scan dev inum (ip ∷ l) i empty =
    let later = iget_scan dev inum l (i + 1) (remember empty i ip) in
    if holds dev inum ip then hit i else later

-- Entry `i` changed by `f`.
abbrev pub update : List Inode → ℕ → (Inode → Inode) → List Inode
update [] i f = []
update (ip ∷ l) zero f = f ip ∷ l
update (ip ∷ l) (suc i) f = ip ∷ update l i f

abbrev pub refer : Inode → Inode
refer ip = record ip { ref = ip.ref + 1 }

abbrev pub recycle : ℕ → ℕ → Inode → Inode
recycle dev inum ip = record ip { dev = dev; inum = inum; ref = 1; valid = false }

-- `iget`
unfoldable pub iget : ℕ → ℕ → List Inode → Outcome (ℕ × List Inode)
iget dev inum cache = elim (iget_scan dev inum cache 0 none) [
  | hit i ↦ done (i, update cache i refer)
  | miss none ↦ panic
  | miss (some i) ↦ done (i, update cache i (recycle dev inum))
]

-- `idup`
unfoldable pub idup : ℕ → List Inode → ℕ × List Inode
idup i cache = (i, update cache i refer)

-- `acquiresleep`, by the process of this pid; `holdingsleep`; `releasesleep`
abbrev pub acquiresleep : ℕ → Option ℕ → Outcome (Option ℕ)
acquiresleep pid (some holder) = blocked
acquiresleep pid none = done (some pid)

abbrev pub holdingsleep : ℕ → Option ℕ → Bool
holdingsleep pid none = false
holdingsleep pid (some holder) = holder == pid

abbrev pub releasesleep : Option ℕ → Option ℕ
releasesleep lock = none

-- `ilock`
unfoldable pub ilock : ℕ → Inode → Disk → Outcome Inode
ilock pid ip d = if ip.ref == 0 then panic else (do
  lock ← acquiresleep pid ip.lock
  let locked = record ip { lock = lock }
  if ip.valid
      then done locked
      else (let loaded = record (on_disk locked ip.inum d) { valid = true } in
          if loaded.type == 0 then panic else done loaded))

-- `iunlock`
unfoldable pub iunlock : ℕ → Inode → Outcome Inode
iunlock pid ip =
    if not (holdingsleep pid ip.lock) || ip.ref == 0
    then panic
    else done (record ip { lock = releasesleep ip.lock })

-- The truncation in `iput`.
unfoldable pub iput_last : Inode → Disk → Outcome (Inode × Disk)
iput_last ip d = do
  (ip1, d1) ← itrunc ip d
  let ip2 = record ip1 { type = 0 }
  done (record ip2 { valid = false }, iupdate ip2 d1)

-- `iput`, by the process of this pid
unfoldable pub iput : ℕ → Inode → Disk → Outcome (Inode × Disk)
iput pid ip d = do
  lock ← acquiresleep pid ip.lock
  let locked = record ip { lock = lock }
  (ip', d') ←
      (if (ip.valid && ip.nlink == 0) && ip.ref == 1 then iput_last locked d else done (locked, d))
  done (record ip' { lock = releasesleep ip'.lock; ref = ip'.ref - 1 }, d')

-- `iunlockput`
unfoldable pub iunlockput : ℕ → Inode → Disk → Outcome (Inode × Disk)
iunlockput pid ip d = do ip' ← iunlock pid ip; iput pid ip' d

-- The test of `ialloc` for a free inode.
abbrev pub is_free : Disk → ℕ → Bool
is_free d i = load_le 2 (d.blocks (inode_block i d.sb)) (inode_offset i) == 0

-- The loop of `ialloc` for `n` inodes from number `i` on.
unfoldable pub ialloc_scan : ℕ → Disk → ℕ → Option ℕ
ialloc_scan zero d i = none
ialloc_scan (suc n) d i =
    let later = ialloc_scan n d (i + 1) in if is_free d i then some i else later

-- `memset(dip, 0, sizeof(*dip)); dip->type = type`
abbrev pub new_dinode : ℕ → Bytes → ℕ → Bytes
new_dinode type bytes a = store_le 2 type (store_le dinode_size 0 bytes a) a

abbrev pub claim_inode : ℕ → ℕ → Disk → Disk
claim_inode type i d =
    let b = inode_block i d.sb in write_block b (new_dinode type (d.blocks b) (inode_offset i)) d

-- `ialloc`
unfoldable pub ialloc : ℕ → ℕ → List Inode → Disk → Outcome (ℕ × List Inode × Disk)
ialloc dev type cache d = elim (ialloc_scan (d.sb.ninodes - 1) d 1) [
  | none ↦ panic
  | some i ↦ (do (k, cache') ← iget dev i cache; done (k, cache', claim_inode type i d))
]
