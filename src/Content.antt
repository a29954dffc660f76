-- ===== src/Content.antt =====
-- xv6-add_FAIRNESS/fs.c: `stati`, `readi` and `writei`, which read and write the contents of an inode.
-- The loops have the number of bytes for fuel. Reads and writes of a device file are parameters. An
-- int or a uint is its bit pattern; the result -1 is `negsuc 0`.
pub mod Overlay
pub mod View
pub mod Block
pub mod Write
pub mod Store
pub mod Read
pub mod Load
pub mod Tests
use exp.Base.{
  ℕ, zero, suc, ◌+◌, ◌-◌, ◌*◌, ◌/◌, ◌%◌, ◌^◌, ◌==◌, ltb, leb, Bool, true, false, not, ◌&&◌, ◌||◌,
  Option, none, some, List, [], ◌∷◌, ◌++◌, length, take, drop, get_elem?, if◌then◌else◌, Outcome,
  done, blocked, panic, ◌>>=◌,
}
use exp.Base.Int.{ℤ, pos, negsuc}
use exp.Fs.{Bytes, Disk, put, write_block, bsize}
use exp.Inode.{Inode, bmap, iupdate, max_file, t_dev}

abbrev pub uint : ℕ → ℕ
uint n = n % 2 ^ 32

-- `stati`
pub record Stat : Type 0 where
  pub dev : ℕ
  pub ino : ℕ
  pub type : ℕ
  pub nlink : ℕ
  pub size : ℕ

pub stati : Inode → Stat
stati ip = record { dev = ip.dev; ino = ip.inum; type = ip.type; nlink = ip.nlink; size = ip.size }

-- `min(n - tot, BSIZE - off%BSIZE)`
abbrev pub chunk : ℕ → ℕ → ℕ
chunk off n = let room = bsize - off % bsize in if ltb n room then n else room

-- `memmove` out of a buffer, and into one.
unfoldable pub slice : ℕ → Bytes → ℕ → List ℕ
slice zero bytes a = []
slice (suc n) bytes a = bytes a ∷ slice n bytes (a + 1)

unfoldable pub fill : List ℕ → Bytes → ℕ → Bytes
fill [] bytes a = bytes
fill (c ∷ cs) bytes a = fill cs (put bytes a c) (a + 1)

-- The loop of `readi` for the `n` bytes from `off` on: the bytes.
unfoldable pub read_loop : ℕ → Inode → ℕ → ℕ → Disk → Outcome (List ℕ × Inode × Disk)
read_loop fuel ip off zero d = done ([], ip, d)
read_loop zero ip off (suc n) d = blocked
read_loop (suc fuel) ip off (suc n) d = do
  let m = chunk off (suc n)
  (a, ip', d') ← bmap ip (off / bsize) d
  (rest, ip'', d'') ← read_loop fuel ip' (off + m) (suc n - m) d'
  done (slice m (d'.blocks a) (off % bsize) ++ rest, ip'', d'')

-- The loop of `writei` for the bytes from `src` on: the last `off`.
unfoldable pub write_loop : ℕ → Inode → ℕ → List ℕ → Disk → Outcome (ℕ × Inode × Disk)
write_loop fuel ip off [] d = done (off, ip, d)
write_loop zero ip off (c ∷ cs) d = blocked
write_loop (suc fuel) ip off (c ∷ cs) d = do
  let m = chunk off (length (c ∷ cs))
  (a, ip', d') ← bmap ip (off / bsize) d
  let d'' = write_block a (fill (take m (c ∷ cs)) (d'.blocks a) (off % bsize)) d'
  write_loop fuel ip' (off + m) (drop m (c ∷ cs)) d''

-- `devsw`, by the major number; `none` for a null function.
pub record Device : Type 0 where
  pub read : Option (Inode → ℕ → Disk → ℤ × List ℕ × Disk)
  pub write : Option (Inode → List ℕ → Disk → ℤ × Disk)

abbrev pub ndev : ℕ
ndev = 10

-- `ip->major < 0 || ip->major >= NDEV` for a short.
abbrev pub bad_major : ℕ → Bool
bad_major major = leb (2 ^ 15) major || leb ndev major

-- `if(n > 0 && off > ip->size)` at the end of `writei`.
abbrev pub grow : ℕ → ℕ → Inode → Disk → Inode × Disk
grow n off ip d =
    if ltb 0 n && ltb ip.size off
    then (let ip' = record ip { size = off } in (ip', iupdate ip' d))
    else (ip, d)

module _ (devsw : ℕ → Device) where
  -- `readi`: the result, the bytes, the inode and the disk.
  unfoldable pub readi : Inode → ℕ → ℕ → Disk → Outcome (ℤ × List ℕ × Inode × Disk)
  readi ip off n d =
      if ip.type == t_dev
      then (if bad_major ip.major
          then done (negsuc 0, [], ip, d)
          else (elim ((devsw ip.major).read) [
            | none ↦ done (negsuc 0, [], ip, d)
            | some f ↦ let (r, bytes, d') = f ip n d in done (r, bytes, ip, d')
          ]))
      else (if ltb ip.size off || ltb (uint (off + n)) off then done (negsuc 0, [], ip, d) else (do
        let n' = if ltb ip.size (uint (off + n)) then ip.size - off else n
        (bytes, ip', d') ← read_loop n' ip off n' d
        done (pos n', bytes, ip', d')))

  -- `writei`, for the bytes `src`.
  unfoldable pub writei : Inode → List ℕ → ℕ → Disk → Outcome (ℤ × Inode × Disk)
  writei ip src off d =
      let n = length src in
      if ip.type == t_dev
      then (if bad_major ip.major then done (negsuc 0, ip, d) else (elim ((devsw ip.major).write) [
        | none ↦ done (negsuc 0, ip, d)
        | some f ↦ let (r, d') = f ip src d in done (r, ip, d')
      ]))
      else (if (ltb ip.size off || ltb (uint (off + n)) off)
            || ltb (max_file * bsize) (uint (off + n))
          then done (negsuc 0, ip, d)
          else (do
            (off', ip', d') ← write_loop n ip off src d
            let (ip'', d'') = grow n off' ip' d'
            done (pos n, ip'', d'')))
