-- ===== src/Inode.antt =====
-- xv6-add_FAIRNESS/fs.c: inodes and their contents. An in-memory inode is passed to the functions and
-- comes back changed; the cache of inodes is a list, a pointer into it an index. Short integers and
-- the inode's numbers are bit patterns.
pub mod Words
pub mod Owned
pub mod Step
pub mod Direct
pub mod Indirect
pub mod Map
pub mod Dinode
pub mod Free
pub mod Stretch
pub mod Empty
pub mod Truncate
pub mod Tests
use exp.Base.{
  ℕ, zero, suc, ◌+◌, ◌-◌, ◌*◌, ◌/◌, ◌%◌, ◌^◌, ◌==◌, ltb, leb, Bool, true, false, not, ◌&&◌, ◌||◌,
  Option, none, some, List, [], ◌∷◌, ◌++◌, length, take, get_or, set, get_elem?, replicate,
  if◌then◌else◌, Outcome, done, blocked, panic, ◌>>=◌,
}
use exp.Fs.{Bytes, Disk, Superblock, put, write_block, bsize, balloc, bfree}

abbrev pub ndirect : ℕ
ndirect = 12

abbrev pub nindirect : ℕ
nindirect = bsize / 4

abbrev pub max_file : ℕ
max_file = ndirect + nindirect

-- `T_DIR`, `T_FILE`, `T_DEV`
abbrev pub t_dir : ℕ
t_dir = 1

abbrev pub t_file : ℕ
t_file = 2

abbrev pub t_dev : ℕ
t_dev = 3

-- `struct inode`; `lock` is the process that holds the sleep lock.
pub record Inode : Type 0 where
  pub dev : ℕ
  pub inum : ℕ
  pub ref : ℕ
  pub lock : Option ℕ
  pub valid : Bool
  pub type : ℕ
  pub major : ℕ
  pub minor : ℕ
  pub nlink : ℕ
  pub size : ℕ
  pub addrs : List ℕ

-- An integer of `n` bytes in memory, the lowest byte first.
unfoldable pub load_le : ℕ → Bytes → ℕ → ℕ
load_le zero bytes a = 0
load_le (suc n) bytes a = bytes a + 256 * load_le n bytes (a + 1)

unfoldable pub store_le : ℕ → ℕ → Bytes → ℕ → Bytes
store_le zero v bytes a = bytes
store_le (suc n) v bytes a = store_le n (v / 256) (put bytes a (v % 256)) (a + 1)

-- `memmove` of an array of words.
unfoldable pub load_words : ℕ → Bytes → ℕ → List ℕ
load_words zero bytes a = []
load_words (suc n) bytes a = load_le 4 bytes a ∷ load_words n bytes (a + 4)

unfoldable pub store_words : List ℕ → Bytes → ℕ → Bytes
store_words [] bytes a = bytes
store_words (w ∷ ws) bytes a = store_words ws (store_le 4 w bytes a) (a + 4)

-- `IPB`, `IBLOCK`, and the offset of an inode in its block.
abbrev pub dinode_size : ℕ
dinode_size = 64

abbrev pub inodes_per_block : ℕ
inodes_per_block = bsize / dinode_size

abbrev pub inode_block : ℕ → Superblock → ℕ
inode_block i sb = i / inodes_per_block + sb.inodestart

abbrev pub inode_offset : ℕ → ℕ
inode_offset i = i % inodes_per_block * dinode_size

-- The fields of `struct dinode` at `a`, as `iupdate` stores and `ilock` loads them.
unfoldable pub store_dinode : Inode → Bytes → ℕ → Bytes
store_dinode ip bytes a =
    let b1 = store_le 2 ip.type bytes a in
    let b2 = store_le 2 ip.major b1 (a + 2) in
    let b3 = store_le 2 ip.minor b2 (a + 4) in
    let b4 = store_le 2 ip.nlink b3 (a + 6) in
    let b5 = store_le 4 ip.size b4 (a + 8) in store_words ip.addrs b5 (a + 12)

unfoldable pub load_dinode : Inode → Bytes → ℕ → Inode
load_dinode ip bytes a = record ip {
  type = load_le 2 bytes a;
  major = load_le 2 bytes (a + 2);
  minor = load_le 2 bytes (a + 4);
  nlink = load_le 2 bytes (a + 6);
  size = load_le 4 bytes (a + 8);
  addrs = load_words (ndirect + 1) bytes (a + 12);
}

-- The inode of number `i` on the disk, as it is loaded into `to`.
abbrev pub on_disk : Inode → ℕ → Disk → Inode
on_disk to i d = load_dinode to (d.blocks (inode_block i d.sb)) (inode_offset i)

-- `iupdate`
unfoldable pub iupdate : Inode → Disk → Disk
iupdate ip d =
    let b = inode_block ip.inum d.sb in
    write_block b (store_dinode ip (d.blocks b) (inode_offset ip.inum)) d

-- `bmap` for an entry of `ip->addrs`: the block there, allocated if there was none.
unfoldable pub addrs_entry : Inode → ℕ → Disk → Outcome (ℕ × Inode × Disk)
addrs_entry ip k d =
    if get_or ip.addrs k 0 == 0
    then (do (a, d') ← balloc d; done (a, record ip { addrs = set ip.addrs k a }, d'))
    else done (get_or ip.addrs k 0, ip, d)

-- `bmap` for entry `k` of the indirect block `b`.
unfoldable pub indirect_entry : Inode → ℕ → ℕ → Disk → Outcome (ℕ × Inode × Disk)
indirect_entry ip b k d =
    if load_le 4 (d.blocks b) (4 * k) == 0
    then (do
      (a, d') ← balloc d
      done (a, ip, write_block b (store_le 4 a (d'.blocks b) (4 * k)) d'))
    else done (load_le 4 (d.blocks b) (4 * k), ip, d)

-- `bmap`
unfoldable pub bmap : Inode → ℕ → Disk → Outcome (ℕ × Inode × Disk)
bmap ip bn d =
    if ltb bn ndirect
    then addrs_entry ip bn d
    else (if ltb (bn - ndirect) nindirect
        then (do (b, ip', d') ← addrs_entry ip ndirect d; indirect_entry ip' b (bn - ndirect) d')
        else panic)

-- The loops of `itrunc`: the blocks of a list that are not null are freed.
unfoldable pub free_all : List ℕ → Disk → Outcome Disk
free_all [] d = done d
free_all (a ∷ l) d = do d' ← (if a == 0 then done d else bfree a d); free_all l d'

-- `itrunc`
unfoldable pub itrunc : Inode → Disk → Outcome (Inode × Disk)
itrunc ip d = do
  d1 ← free_all (take ndirect ip.addrs) d
  let b = get_or ip.addrs ndirect 0
  d2 ←
      (if b == 0
        then done d1
        else (do d' ← free_all (load_words nindirect (d1.blocks b) 0) d1; bfree b d'))
  let ip' = record ip { addrs = replicate (ndirect + 1) 0; size = 0 }
  done (ip', iupdate ip' d2)
