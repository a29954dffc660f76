-- ===== src/Directory.antt =====
-- xv6-add_FAIRNESS/fs.c: the entries of a directory. A directory is an entry of the cache of inodes,
-- so it is named by its index, and `iget` may give that same index. An entry is its 16 bytes.
pub mod Scan
pub mod Lookup
mod Tests
use exp.Base.{
  ℕ, zero, suc, ◌+◌, ◌-◌, ◌*◌, ◌/◌, ◌==◌, Bool, true, false, not, Option, none, some, List, [], ◌∷◌,
  get_or, get_elem?, drop, if◌then◌else◌, Outcome, done, blocked, panic, ◌>>=◌,
}
use exp.Base.Int.{ℤ, pos, negsuc}
use exp.CString.{strncmp}
use exp.Fs.{Disk}
use exp.Inode.{Inode, t_dir}
use exp.Content.{Device, readi}
use exp.Icache.{iget, update}
use exp.Path.{dirsiz}

-- `sizeof(struct dirent)`, and `de.inum`
abbrev pub dirent_size : ℕ
dirent_size = 16

abbrev pub dirent_inum : List ℕ → ℕ
dirent_inum e = get_or e 0 0 + 256 * get_or e 1 0

abbrev pub is_zero : ℤ → Bool
is_zero (pos n) = n == 0
is_zero (negsuc n) = false

-- `namecmp`
abbrev pub namecmp : List ℕ → List ℕ → ℤ
namecmp s t = strncmp s t dirsiz

abbrev pub is_entry : List ℕ → List ℕ → Bool
is_entry name e = if dirent_inum e == 0 then false else is_zero (namecmp name (drop 2 e))

abbrev pub read_whole : ℤ → Bool
read_whole (pos n) = n == dirent_size
read_whole (negsuc n) = false

module _ (devsw : ℕ → Device) where
  -- The loop of `dirlookup` for `n` entries from `off` on: the number and the offset of the entry.
  unfoldable pub dirlookup_scan :
      ℕ → List ℕ → Inode → ℕ → Disk → Outcome (Option (ℕ × ℕ) × Inode × Disk)
  dirlookup_scan zero name dp off d = done (none, dp, d)
  dirlookup_scan (suc n) name dp off d = do
    (r, e, dp', d') ← readi devsw dp off dirent_size d
    let later = dirlookup_scan n name dp' (off + dirent_size) d'
    if not (read_whole r)
        then panic
        else (if is_entry name e then done (some (dirent_inum e, off), dp', d') else later)

  -- `dirlookup` in the directory `k` of the cache: the entry of the cache for the name, and `*poff`.
  unfoldable pub dirlookup :
      ℕ → List ℕ → List Inode → Disk → Outcome (Option (ℕ × ℕ) × List Inode × Disk)
  dirlookup k name cache d = elim (get_elem? cache k) [
    | none ↦ panic
    | some dp ↦ if not (dp.type == t_dir) then panic else (do
      (found, dp', d') ← dirlookup_scan ((dp.size + 15) / dirent_size) name dp 0 d
      let cache' = update cache k (λ old. dp')
      elim found [
        | none ↦ done (none, cache', d')
        | some (inum, off) ↦ (do
          (i, cache'') ← iget dp.dev inum cache'
          done (some (i, off), cache'', d'))
      ])
  ]
