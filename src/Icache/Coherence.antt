-- ===== src/Icache/Coherence.antt =====
-- What one process stored with `iupdate`, the next that locks the inode sees.
use exp.Base.{
  ℕ, ◌==◌, ◌≡◌, ◌≢◌, refl, ap, sym, ◌∙◌, true, false, none, some, if◌then◌else◌, arith, done, panic,
}
use exp.Fs.{Disk}
use exp.Inode.{Inode, on_disk, iupdate}
use exp.Inode.Dinode.{Fits, copied, iupdate_lem}
use exp.Icache.{ilock}

not_zero : (a : ℕ) → a ≢ 0 → (a == 0) ≡ false
not_zero a nz = ground arith

-- The entry locked, and loaded from the disk.
abbrev pub loaded : ℕ → Inode → Disk → Inode
loaded pid ip d = record (on_disk (record ip { lock = some pid }) ip.inum d) { valid = true }

ilock-load :
    (pid : ℕ) (ip : Inode) (d : Disk)
    → ip.ref ≢ 0
    → ip.lock ≡ none
    → ip.valid ≡ false
    → ilock pid ip d ≡ (if (loaded pid ip d).type == 0 then panic else done (loaded pid ip d))
unfolding ilock
ilock-load pid ip d nz free fresh = rw (not_zero ip.ref nz, free, fresh) refl

on_disk-update :
    (to ip : Inode) (i : ℕ) (d : Disk)
    → Fits ip
    → i ≡ ip.inum
    → on_disk to i (iupdate ip d) ≡ copied to ip
on_disk-update to ip i d fits e =
    ap (λ k. on_disk to k (iupdate ip d)) e ∙ (iupdate_lem ip to d fits).0

-- An inode that is stored and then loaded into any entry of its number has the stored fields, and the
-- lock is taken; to an entry of another number the store makes no difference.
pub ilock-iupdate :
    (pid : ℕ) (ip to : Inode) (d : Disk)
    → Fits ip
    → ip.type ≢ 0
    → to.ref ≢ 0
    → to.lock ≡ none
    → to.valid ≡ false
    → (to.inum ≡ ip.inum
        → ilock pid to (iupdate ip d)
          ≡ done (record (copied to ip) { lock = some pid; valid = true }))
      × (to.inum ≢ ip.inum → ilock pid to (iupdate ip d) ≡ ilock pid to d)
ilock-iupdate pid ip to d fits typed nz free fresh = (
  λ e.
      let same = on_disk-update (record to { lock = some pid }) ip to.inum d fits e in
      ilock-load pid to (iupdate ip d) nz free fresh
      ∙ ap (λ (i : Inode). if i.type == 0 then panic else done (record i { valid = true })) same
      ∙ ap
          (λ t. if t then panic else done (record (copied to ip) { lock = some pid; valid = true }))
          (not_zero ip.type typed),
  λ ne.
      let same =
        (iupdate_lem ip (record to { lock = some pid }) d fits).1 to.inum (λ e. ne (sym e)) in
      ilock-load pid to (iupdate ip d) nz free fresh
      ∙ ap (λ (i : Inode). if i.type == 0 then panic else done (record i { valid = true })) same
      ∙ sym (ilock-load pid to d nz free fresh),
)
