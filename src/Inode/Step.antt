-- ===== src/Inode/Step.antt =====
-- The places of the blocks of an inode, and what one step of `bmap` does to them.
use exp.Base.{
  ℕ, suc, ◌-◌, ◌*◌, ◌≤◌, ◌<◌, ◌≡◌, ◌≢◌, refl, sym, ◌∙◌, true, false, List, length, get_or, arith,
}
use exp.Fs.{Disk}
use exp.Fs.Bitmap.{used}
use exp.Inode.{Inode, load_le, ndirect, max_file}
use exp.Inode.Owned.{place, Owns}

pub place-direct : (l : List ℕ) (d : Disk) (r : ℕ) → r < ndirect → place l d r ≡ get_or l r 0
unfolding place
place-direct l d r h = ground arith

pub place-table : (l : List ℕ) (d : Disk) → place l d max_file ≡ get_or l ndirect 0
unfolding place
place-table l d = ground arith

pub place-entry :
    (l : List ℕ) (d : Disk) (r : ℕ)
    → ndirect ≤ r
    → r < max_file
    → (get_or l ndirect 0 ≡ 0 → place l d r ≡ 0)
      × (get_or l ndirect 0 ≢ 0
          → place l d r ≡ load_le 4 (d.blocks (get_or l ndirect 0)) (4 * (r - ndirect)))
unfolding place
place-entry l d r lo hi = (λ z. ground arith, λ nz. ground arith)

-- A step of `bmap` for place `q`: block `a` is there now.
pub record Step (q : ℕ) (ip : Inode) (d : Disk) (a : ℕ) (ip' : Inode) (d' : Disk) : Type 0 where
  pub some_block : a ≢ 0
  pub there : place ip'.addrs d' q ≡ a
  pub kept : place ip.addrs d q ≢ 0 → place ip.addrs d q ≡ a
  pub others : (r : ℕ) → r ≤ max_file → q ≢ r → place ip'.addrs d' r ≡ place ip.addrs d r
  pub same_data :
      (r : ℕ)
      → r < max_file
      → place ip.addrs d r ≢ 0
      → d'.blocks (place ip.addrs d r) ≡ d.blocks (place ip.addrs d r)
  pub fresh : place ip.addrs d q ≡ 0 → (i : ℕ) → d'.blocks a i ≡ 0
  pub owns : Owns (place ip'.addrs d') d'
  pub only_addrs : ip' ≡ record ip { addrs = ip'.addrs }
  pub entries : length ip'.addrs ≡ suc ndirect
  pub same_sb : d'.sb ≡ d.sb
  pub was_free : place ip.addrs d q ≡ 0 → used d a ≡ false
  pub still : (c : ℕ) → c < d.sb.size → used d c ≡ true → used d' c ≡ true
  pub spent : (c : ℕ) → c < d.sb.size → c ≢ a → used d' c ≡ true → used d c ≡ true

pub Step-kept :
    (q a : ℕ) (ip : Inode) (d : Disk)
    → Owns (place ip.addrs d) d
    → length ip.addrs ≡ suc ndirect
    → place ip.addrs d q ≡ a
    → a ≢ 0
    → Step q ip d a ip d
Step-kept q a ip d o len e nz = record {
  some_block = nz;
  there = e;
  kept = λ h. e;
  others = λ r le ne. refl;
  same_data = λ r lt h. refl;
  fresh = λ z i. absurd (nz (sym e ∙ z));
  owns = o;
  only_addrs = refl;
  entries = len;
  same_sb = refl;
  was_free = λ z. absurd (nz (sym e ∙ z));
  still = λ c lt u. u;
  spent = λ c lt ne u. u;
}
