-- ===== src/Inode/Tests.antt =====
-- An inode with one block on the small disk.
use exp.Base.{
  ◌≡◌, ◌≤◌, ◌≢◌, ℕ, zero, suc, true, refl, sym, ◌∙◌, ap, arith, ◌∷◌, none, get_or, replicate,
  dec_lt, ℕ_discrete, done,
}
use exp.Fs.{Disk}
use exp.Fs.Bitmap.{used}
use exp.Fs.Tests.{small_disk, small_disk-IsFormatted}
use exp.Inode.{Inode, ndirect, max_file, t_file, bmap, itrunc}
use exp.Inode.Step.{place-direct, place-table, place-entry}
use exp.Inode.Owned.{place, Owns}
use exp.Inode.Empty.{emptied}
use exp.Inode.Truncate.{Truncated, itrunc_lem}
use exp.Inode.Map.{MapsOr, bmap-Mapped}

abbrev pub small_file : Inode
small_file = record {
  dev = 1;
  inum = 1;
  ref = 1;
  lock = none;
  valid = true;
  type = t_file;
  major = 0;
  minor = 0;
  nlink = 1;
  size = 512;
  addrs = 4 ∷ replicate 12 0;
}

get_or-zeros : (n k : ℕ) → get_or {A = ℕ} (replicate n 0) k 0 ≡ 0
get_or-zeros zero k = refl
get_or-zeros (suc n) zero = refl
get_or-zeros (suc n) (suc k) = get_or-zeros n k

abbrev at : ℕ → ℕ
at = place small_file.addrs small_disk

no_more : (r : ℕ) → suc r ≤ max_file → at (suc r) ≡ 0
no_more r le = elim (dec_lt (suc r) ndirect) [
  | yes l ↦ place-direct small_file.addrs small_disk (suc r) l ∙ get_or-zeros 12 r
  | no g ↦ elim (ℕ_discrete (suc r) max_file) [
    | yes e ↦ ap at e ∙ place-table small_file.addrs small_disk
    | no ne ↦ (place-entry small_file.addrs small_disk (suc r) (omega arith) (omega arith)).0 refl
  ]
]

first : at 0 ≡ 4
first = place-direct small_file.addrs small_disk 0 (omega arith)

pub only_first : (r : ℕ) → r ≤ max_file → at r ≢ 0 → (r ≡ 0) × (at r ≡ 4)
only_first zero le nz = (refl, first)
only_first (suc r) le nz = absurd (nz (no_more r le))

pub small_file-Owns : Owns (place small_file.addrs small_disk) small_disk
small_file-Owns = record {
  formatted = small_disk-IsFormatted;
  boot = (omega arith, refl);
  in_use = λ r le nz. let e = (only_first r le nz).1 in (omega (arith, e), ap (used small_disk) e);
  apart = λ r le nz c lt z. omega (arith, (only_first r le nz).1, z);
  distinct =
      λ r s lr ls nz z. (only_first r lr nz).0 ∙ sym ((only_first s ls (λ z'. nz (z ∙ z'))).0);
}

bmap-Mapped_example : MapsOr 3 small_file small_disk (bmap small_file 3 small_disk)
bmap-Mapped_example =
    bmap-Mapped small_file 3 small_disk small_file-Owns refl (omega arith) (omega arith)

itrunc_lem_example :
    (d' : Disk) × (itrunc small_file small_disk ≡ done (emptied small_file, d'))
    × Truncated small_file small_disk d'
itrunc_lem_example =
    itrunc_lem small_file small_disk small_file-Owns refl (λ c lt e. omega (arith, e))
