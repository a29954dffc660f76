-- ===== src/Content/Load.antt =====
-- `readi`: the bytes, what is refused, and what `writei` wrote.
use exp.Base.{
  ℕ, ◌+◌, ◌-◌, ◌^◌, ◌==◌, ◌≤◌, ◌<◌, ◌≡◌, ◌≢◌, ◌⊎◌, inl, inr, refl, ap, ap₂, sym, ◌∙◌, ltb, true,
  false, ◌||◌, List, [], length, All, if◌then◌else◌, arith, done, panic, ◌>>=◌,
}
use exp.Base.Int.{pos, negsuc}
use exp.Fs.{Disk}
use exp.Inode.{Inode, t_dev}
use exp.Content.{Device, uint, slice, read_loop, readi, writei}
use exp.Content.Overlay.{overlay, slice-cong, slice-overlay}
use exp.Content.View.{Ready, byte_at, limit}
use exp.Content.Write.{Hole}
use exp.Content.Store.{Written, larger, writei-Written}
use exp.Content.Read.{Kept, read_loop-ReadsOr}

-- The number of bytes of a read: what there is up to the end of the file.
abbrev pub readable : Inode → ℕ → ℕ → ℕ
readable ip off n = if ltb ip.size (off + n) then ip.size - off else n

eq-false : (t : ℕ) → t ≢ t_dev → (t == t_dev) ≡ false
eq-false t ne = ground arith

module _ (devsw : ℕ → Device) where
  -- A read from after the end of the file is refused, and one whose offset and number wrap around.
  pub readi-refuses :
      (ip : Inode) (off n : ℕ) (d : Disk)
      → ip.type ≢ t_dev
      → off < 2 ^ 32
      → n < 2 ^ 32
      → (ip.size < off) ⊎ (2 ^ 32 ≤ off + n)
      → readi devsw ip off n d ≡ done (negsuc 0, [], ip, d)
  unfolding readi
  readi-refuses ip off n d file small small' out = rw (eq-false ip.type file, refused out) refl
    where
      refused :
          (ip.size < off) ⊎ (2 ^ 32 ≤ off + n)
          → (ltb ip.size off || ltb (uint (off + n)) off) ≡ true
      refused h = ground arith

  readi-loop :
      (ip : Inode) (off n : ℕ) (d : Disk)
      → ip.type ≢ t_dev
      → off ≤ ip.size
      → off + n < 2 ^ 32
      → readi devsw ip off n d ≡ (
          read_loop (readable ip off n) ip off (readable ip off n) d >>= λ (bytes, ip', d').
          done (pos (readable ip off n), bytes, ip', d'))
  unfolding readi
  readi-loop ip off n d file le fits = rw (eq-false ip.type file, accepted, no_wrap) refl
    where
      no_wrap : uint (off + n) ≡ off + n
      no_wrap = omega arith

      accepted : (ltb ip.size off || ltb (uint (off + n)) off) ≡ false
      accepted = ground arith

  -- A read from within a file returns the bytes of the contents up to the end of the file, and leaves
  -- the contents. It panics only if a block of its range was not there.
  pub readi-Kept :
      (ip : Inode) (off n : ℕ) (d : Disk)
      → Ready ip d
      → ip.type ≢ t_dev
      → ip.size ≤ limit
      → off ≤ ip.size
      → off + n < 2 ^ 32
      → ((readi devsw ip off n d ≡ panic) × Hole ip off (readable ip off n) d)
        ⊎ ((ip' : Inode) × (d' : Disk) × (readi devsw ip off n d
              ≡ done
                  (pos (readable ip off n), slice (readable ip off n) (byte_at ip d) off, ip', d'))
            × Kept ip d ip' d')
  readi-Kept ip off n d ready file in_limit le fits =
      elim (read_loop-ReadsOr (readable ip off n) ip off (readable ip off n) d (omega arith) ready
        (within ip.size off n in_limit le)) [
          | inl (e, hole) ↦ inl (readi-loop ip off n d file le fits ∙ rw e refl, hole)
          | inr (ip', d', e, kept) ↦
              inr (ip', d', readi-loop ip off n d file le fits ∙ rw e refl, kept)
        ]
    where
      within : (s o n : ℕ) → s ≤ limit → o ≤ s → o + (if ltb s (o + n) then s - o else n) ≤ limit
      within s o n h k = ground arith

  reads_back :
      (ip : Inode) (src : List ℕ) (off : ℕ) (d : Disk) (ip1 : Inode) (d1 : Disk)
      → ip.type ≢ t_dev
      → ip.size ≤ limit
      → off ≤ ip.size
      → off + length src ≤ limit
      → Written ip off src d ip1 d1
      → (ip2 : Inode) × (d2 : Disk) × (readi devsw ip1 off (length src) d1
          ≡ done (pos (length src), src, ip2, d2))
        × Kept ip1 d1 ip2 d2
  reads_back ip src off d ip1 d1 file in_limit le fits w =
      elim (readi-Kept ip1 off (length src) d1 w.ready file' (omega (arith, w.new_size, bounds))
        (omega (arith, w.new_size, bounds)) (omega arith)) [
          | inl (e, (o, lo, hi, z)) ↦ absurd (w.mapped o lo (omega (arith, hi, all_there)) z)
          | inr (ip2, d2, e, kept) ↦
              (ip2, d2, e ∙ ap₂ (λ m l. done (pos m, l, ip2, d2)) all_there got, kept)
        ]
    where
      bounds :
          (larger ip.size (off + length src) ≤ limit)
          × (off ≤ larger ip.size (off + length src))
          × (off + length src ≤ larger ip.size (off + length src))
      bounds = ground arith

      file' : ip1.type ≢ t_dev
      file' e = file (sym (ap (λ (i : Inode). i.type) w.only) ∙ e)

      uncut : (s o n : ℕ) → o + n ≤ s → (if ltb s (o + n) then s - o else n) ≡ n
      uncut s o n h = ground arith

      all_there : readable ip1 off (length src) ≡ length src
      all_there = uncut ip1.size off (length src) (omega (arith, w.new_size, bounds))

      got : slice (readable ip1 off (length src)) (byte_at ip1 d1) off ≡ src
      got =
          ap (λ m. slice m (byte_at ip1 d1) off) all_there
          ∙ slice-cong (length src) (byte_at ip1 d1) (overlay (byte_at ip d) off src) off
              (λ o lo hi. w.bytes o (omega arith))
          ∙ slice-overlay src (byte_at ip d) off

  -- A write from within a file either panics, where a block of its range was not there, or a read of
  -- the same range then returns the bytes that it wrote: the read is not cut at the end of the file,
  -- and finds all its blocks.
  pub readi-writei :
      (ip : Inode) (src : List ℕ) (off : ℕ) (d : Disk)
      → Ready ip d
      → ip.type ≢ t_dev
      → ip.size ≤ limit
      → off ≤ ip.size
      → off + length src ≤ limit
      → All (λ c. c < 256) src
      → ((writei devsw ip src off d ≡ panic) × Hole ip off (length src) d)
        ⊎ ((ip1 ip2 : Inode) × (d1 d2 : Disk) × (writei devsw ip src off d
              ≡ done (pos (length src), ip1, d1))
            × (readi devsw ip1 off (length src) d1 ≡ done (pos (length src), src, ip2, d2))
            × Kept ip1 d1 ip2 d2)
  readi-writei ip src off d ready file in_limit le fits small =
      elim (writei-Written devsw ip src off d ready file le fits small) [
        | inl p ↦ inl p
        | inr (ip1, d1, e, w) ↦
            let (ip2, d2, e', kept) = reads_back ip src off d ip1 d1 file in_limit le fits w in
            inr (ip1, ip2, d1, d2, e, e', kept)
      ]
