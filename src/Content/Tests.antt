-- ===== src/Content/Tests.antt =====
-- A write that runs over the end of the small file, and a read of the same bytes.
use exp.Base.{◌≡◌, ℕ, refl, arith, [], ◌∷◌, ◌⊎◌, none, panic, done}
use exp.Base.Int.{pos}
use exp.Fs.{Disk}
use exp.Fs.Tests.{small_disk}
use exp.Inode.{Inode}
use exp.Inode.Tests.{small_file, small_file-Owns, only_first}
use exp.Content.{Device, readi, writei, slice}
use exp.Content.View.{Ready, byte_at}
use exp.Content.Write.{Hole}
use exp.Content.Store.{Written, writei-Written}
use exp.Content.Read.{Kept}
use exp.Content.Load.{readi-Kept, readi-writei, readable}

abbrev pub no_devices : ℕ → Device
no_devices major = record { read = none; write = none }

pub small_file-Ready : Ready small_file small_disk
small_file-Ready = record {
  owns = small_file-Owns;
  entries = refl;
  small = omega arith;
  home_inside = omega arith;
  home_used = refl;
  home_apart = λ r le nz e. omega (arith, (only_first r le nz).1, e);
  home_meta = λ c lt e. omega (arith, e);
}

writei-Written_example :
    ((writei no_devices small_file (7 ∷ 8 ∷ 9 ∷ []) 511 small_disk ≡ panic)
      × Hole small_file 511 3 small_disk)
    ⊎ ((ip' : Inode) × (d' : Disk) × (writei no_devices small_file (7 ∷ 8 ∷ 9 ∷ []) 511 small_disk
          ≡ done (pos 3, ip', d'))
        × Written small_file 511 (7 ∷ 8 ∷ 9 ∷ []) small_disk ip' d')
writei-Written_example =
    writei-Written no_devices small_file (7 ∷ 8 ∷ 9 ∷ []) 511 small_disk small_file-Ready
      (λ e. omega (arith, e)) (omega arith) (omega arith)
      (omega arith, (omega arith, (omega arith, _)))

readi-Kept_example :
    ((readi no_devices small_file 510 6 small_disk ≡ panic)
      × Hole small_file 510 (readable small_file 510 6) small_disk)
    ⊎ ((ip' : Inode) × (d' : Disk) × (readi no_devices small_file 510 6 small_disk
          ≡ done (
            pos (readable small_file 510 6),
            slice (readable small_file 510 6) (byte_at small_file small_disk) 510,
            ip',
            d',
          ))
        × Kept small_file small_disk ip' d')
readi-Kept_example =
    readi-Kept no_devices small_file 510 6 small_disk small_file-Ready (λ e. omega (arith, e))
      (omega arith) (omega arith) (omega arith)

readi-writei_example :
    ((writei no_devices small_file (7 ∷ 8 ∷ 9 ∷ []) 511 small_disk ≡ panic)
      × Hole small_file 511 3 small_disk)
    ⊎ ((ip1 ip2 : Inode) × (d1 d2 : Disk) × (writei no_devices small_file
            (7 ∷ 8 ∷ 9 ∷ [])
            511
            small_disk
          ≡ done (pos 3, ip1, d1))
        × (readi no_devices ip1 511 3 d1 ≡ done (pos 3, 7 ∷ 8 ∷ 9 ∷ [], ip2, d2))
        × Kept ip1 d1 ip2 d2)
readi-writei_example =
    readi-writei no_devices small_file (7 ∷ 8 ∷ 9 ∷ []) 511 small_disk small_file-Ready
      (λ e. omega (arith, e)) (omega arith) (omega arith) (omega arith)
      (omega arith, (omega arith, (omega arith, _)))
