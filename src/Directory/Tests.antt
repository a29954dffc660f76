-- ===== src/Directory/Tests.antt =====
-- A directory whose second entry is "a", with number 1: the directory itself.
use exp.Base.{◌<◌, ◌==◌, ℕ, refl, arith, [], ◌∷◌, if◌then◌else◌}
use exp.Fs.{Bytes, Disk, write_block}
use exp.Fs.Tests.{small_disk}
use exp.Inode.{Inode, t_dir}
use exp.Inode.Tests.{small_file}
use exp.Content.Tests.{small_file-Ready, no_devices}
use exp.Content.View.{Ready}
use exp.Content.Block.{Ready-data}
use exp.Inode.Step.{place-direct}
use exp.Icache.Tests.{one-IsCache}
use exp.Directory.{dirlookup}
use exp.Directory.Lookup.{LooksUp, dirlookup-LooksUp}

abbrev entries : Bytes
entries i = if i == 16 then 1 else (if i == 18 then b'a' else 0)

abbrev directory : Inode
directory = record small_file { type = t_dir; size = 32 }

abbrev directory_disk : Disk
directory_disk = write_block 4 entries small_disk

directory-Ready : Ready directory small_disk
directory-Ready = record {
  owns = small_file-Ready.owns;
  entries = small_file-Ready.entries;
  small = small_file-Ready.small;
  home_inside = small_file-Ready.home_inside;
  home_used = small_file-Ready.home_used;
  home_apart = small_file-Ready.home_apart;
  home_meta = small_file-Ready.home_meta;
}

entries_are_bytes : (i : ℕ) → entries i < 256
entries_are_bytes i = ground arith

filled-Ready : Ready directory directory_disk
filled-Ready =
    Ready-data directory small_disk 0 4 entries directory-Ready entries_are_bytes (omega arith)
      (place-direct small_file.addrs small_disk 0 (omega arith)) (λ e. omega (arith, e))

dirlookup-LooksUp_example :
    LooksUp 2 0
      (b'a' ∷ [])
      directory
      (directory ∷ [])
      directory_disk
      (dirlookup no_devices 0 (b'a' ∷ []) (directory ∷ []) directory_disk)
dirlookup-LooksUp_example =
    dirlookup-LooksUp no_devices 2 0 (b'a' ∷ []) directory (directory ∷ []) directory_disk
      (one-IsCache directory) refl refl filled-Ready refl (omega arith)
