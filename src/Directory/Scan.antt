-- ===== src/Directory/Scan.antt =====
-- `dirlookup` finds the first entry of a name.
use exp.Base.{
  ℕ, zero, suc, ◌+◌, ◌-◌, ◌*◌, ◌/◌, ◌≤◌, ◌<◌, ◌≡◌, ◌≢◌, ◌⊎◌, inl, inr, refl, ap, sym, ◌∙◌, subst,
  ltb, Bool, true, false, Option, none, some, List, if◌then◌else◌, arith, Bool-cases, Outcome, done,
  panic,
}
use exp.Base.Int.{pos}
use exp.Fs.{Bytes, Disk, bsize}
use exp.Inode.{Inode, t_dev}
use exp.Content.{Device, readi, slice}
use exp.Content.Overlay.{slice-cong}
use exp.Content.View.{Ready, byte_at, limit}
use exp.Content.Write.{Hole}
use exp.Content.Read.{Kept, Kept-refl, Kept-trans}
use exp.Content.Load.{readi-Kept}
use exp.Directory.{dirent_size, dirent_inum, is_entry, dirlookup_scan}

abbrev pub entry_at : Bytes → ℕ → List ℕ
entry_at f off = slice dirent_size f off

-- What the search among `n` entries from `off` on comes to: the first entry in use with the name.
unfoldable pub FirstEntry : ℕ → List ℕ → Bytes → ℕ → Option (ℕ × ℕ) → Type 0
FirstEntry n name f off none =
    (j : ℕ) → j < n → is_entry name (entry_at f (off + dirent_size * j)) ≡ false
FirstEntry n name f off (some (inum, at)) =
    (j : ℕ) × (j < n)
    × (at ≡ off + dirent_size * j)
    × (is_entry name (entry_at f at) ≡ true)
    × (inum ≡ dirent_inum (entry_at f at))
    × ((i : ℕ) → i < j → is_entry name (entry_at f (off + dirent_size * i)) ≡ false)

entry_at-at :
    (f : Bytes) (name : List ℕ) (a b : ℕ) (t : Bool)
    → a ≡ b
    → is_entry name (entry_at f a) ≡ t
    → is_entry name (entry_at f b) ≡ t
entry_at-at f name a b t e h = subst (λ k. is_entry name (entry_at f k) ≡ t) e h

FirstEntry-here :
    (n : ℕ) (name : List ℕ) (f : Bytes) (off : ℕ)
    → is_entry name (entry_at f off) ≡ true
    → FirstEntry (suc n) name f off (some (dirent_inum (entry_at f off), off))
unfolding FirstEntry
FirstEntry-here n name f off h =
    (0, omega arith, omega arith, h, refl, λ i lt. absurd (omega arith))

first_or :
    (name : List ℕ) (f : Bytes) (off j : ℕ)
    → is_entry name (entry_at f off) ≡ false
    → ((i : ℕ)
        → suc i ≡ j
        → is_entry name (entry_at f (off + dirent_size + dirent_size * i)) ≡ false)
    → is_entry name (entry_at f (off + dirent_size * j)) ≡ false
first_or name f off zero h later =
    entry_at-at f name off (off + dirent_size * 0) false (omega arith) h
first_or name f off (suc j) h later =
    entry_at-at f name (off + dirent_size + dirent_size * j) (off + dirent_size * suc j) false
      (omega arith) (later j refl)

FirstEntry-later :
    (n : ℕ) (name : List ℕ) (f : Bytes) (off : ℕ) (r : Option (ℕ × ℕ))
    → is_entry name (entry_at f off) ≡ false
    → FirstEntry n name f (off + dirent_size) r
    → FirstEntry (suc n) name f off r
unfolding FirstEntry
FirstEntry-later n name f off none h later =
    λ j lt. first_or name f off j h (λ i e. later i (omega arith))
FirstEntry-later n name f off (some (inum, at)) h (j, lt, e, found, same, before) = (
  suc j,
  omega arith,
  omega arith,
  found,
  same,
  λ i lt'. first_or name f off i h (λ i' e'. before i' (omega arith)),
)

abbrev pub ScansOr :
    ℕ → List ℕ → Inode → ℕ → Disk → Outcome (Option (ℕ × ℕ) × Inode × Disk) → Type 0
ScansOr n name dp off d r =
    ((r ≡ panic) × Hole dp off (dirent_size * n) d)
    ⊎ ((found : Option (ℕ × ℕ)) × (dp' : Inode) × (d' : Disk) × (r ≡ done (found, dp', d'))
        × FirstEntry n name (byte_at dp d) off found
        × Kept dp d dp' d')

FirstEntry-cong :
    (n : ℕ) (name : List ℕ) (f g : Bytes) (off : ℕ) (r : Option (ℕ × ℕ))
    → ((o : ℕ) → off ≤ o → o < off + dirent_size * n → f o ≡ g o)
    → FirstEntry n name f off r
    → FirstEntry n name g off r
unfolding FirstEntry
FirstEntry-cong n name f g off none same h = λ j lt.
    ap (is_entry name) (
      sym (
        slice-cong dirent_size f g (off + dirent_size * j)
          (λ o lo hi. same o (omega arith) (omega arith))))
    ∙ h j lt
FirstEntry-cong n name f g off (some (inum, at)) same (j, lt, e, found, inum_is, before) =
    let s =
      slice-cong dirent_size f g at
        (λ o lo hi. same o (omega (arith, e, lo)) (omega (arith, e, hi, lt))) in
    (
      j,
      lt,
      e,
      ap (is_entry name) (sym s) ∙ found,
      inum_is ∙ ap dirent_inum s,
      λ i lt'.
          ap (is_entry name) (
            sym (
              slice-cong dirent_size f g (off + dirent_size * i)
                (λ o lo hi. same o (omega arith) (omega arith))))
          ∙ before i lt',
    )

ScansOr-later :
    (n : ℕ) (name : List ℕ) (dp dp1 : Inode) (off : ℕ) (d d1 : Disk)
    (r : Outcome (Option (ℕ × ℕ) × Inode × Disk))
    → off + dirent_size * suc n ≤ limit
    → is_entry name (entry_at (byte_at dp d) off) ≡ false
    → Kept dp d dp1 d1
    → ScansOr n name dp1 (off + dirent_size) d1 r
    → ScansOr (suc n) name dp off d r
ScansOr-later n name dp dp1 off d d1 r fits other kept (inl (e, (o, lo, hi, z))) =
    inl (e, (o, omega arith, omega arith, kept.more (o / bsize) (omega arith) z))
ScansOr-later n name dp dp1 off d d1 r fits other kept (inr (found, dp', d', e, first, kept')) =
    inr (
      found,
      dp',
      d',
      e,
      FirstEntry-later n name (byte_at dp d) off found other (
          FirstEntry-cong n name (byte_at dp1 d1) (byte_at dp d) (off + dirent_size) found
            (λ o lo hi. kept.bytes o (omega arith)) first),
      Kept-trans dp dp1 dp' d d1 d' kept kept',
    )

module _ (devsw : ℕ → Device) where
  -- A read of an entry that is inside the directory.
  reads_entry :
      (dp : Inode) (off : ℕ) (d : Disk)
      → Ready dp d
      → dp.type ≢ t_dev
      → dp.size ≤ limit
      → off + dirent_size ≤ dp.size
      → ((readi devsw dp off dirent_size d ≡ panic) × Hole dp off dirent_size d)
        ⊎ ((dp' : Inode) × (d' : Disk) × (readi devsw dp off dirent_size d
              ≡ done (pos dirent_size, entry_at (byte_at dp d) off, dp', d'))
            × Kept dp d dp' d')
  reads_entry dp off d ready file in_limit le =
      let whole = uncut dp.size off dirent_size le in
      elim (readi-Kept devsw dp off dirent_size d ready file in_limit (omega arith) (omega arith)) [
        | inl (e, (o, lo, hi, z)) ↦ inl (e, (o, lo, omega (arith, whole, hi), z))
        | inr (dp', d', e, kept) ↦
            inr
              (dp', d', e ∙ ap (λ m. done (pos m, slice m (byte_at dp d) off, dp', d')) whole, kept)
      ]
    where
      uncut : (s o n : ℕ) → o + n ≤ s → (if ltb s (o + n) then s - o else n) ≡ n
      uncut s o n h = ground arith

  pub dirlookup_scan-ScansOr :
      (n : ℕ) (name : List ℕ) (dp : Inode) (off : ℕ) (d : Disk)
      → Ready dp d
      → dp.type ≢ t_dev
      → dp.size ≤ limit
      → off + dirent_size * n ≤ dp.size
      → ScansOr n name dp off d (dirlookup_scan devsw n name dp off d)
  unfolding dirlookup_scan FirstEntry
  dirlookup_scan-ScansOr zero name dp off d ready file in_limit le =
      inr (none, dp, d, refl, λ j lt. absurd (omega arith), Kept-refl dp d ready)
  dirlookup_scan-ScansOr (suc n) name dp off d ready file in_limit le =
      elim (reads_entry dp off d ready file in_limit (omega arith)) [
        | inl (e, (o, lo, hi, z)) ↦ inl (rw e refl, (o, lo, omega (arith, hi), z))
        | inr (dp', d', e, kept) ↦ elim (Bool-cases (is_entry name (entry_at (byte_at dp d) off))) [
          | inl found ↦ inr (
            some (dirent_inum (entry_at (byte_at dp d) off), off),
            dp',
            d',
            rw (e, found) refl,
            FirstEntry-here n name (byte_at dp d) off found,
            kept,
          )
          | inr other ↦ subst (ScansOr (suc n) name dp off d) (sym (rw (e, other) refl)) (
              ScansOr-later n name dp dp' off d d'
                (dirlookup_scan devsw n name dp' (off + dirent_size) d') (omega arith) other kept
                (dirlookup_scan-ScansOr n name dp' (off + dirent_size) d' kept.ready
                  (λ z. file (sym (ap (λ (i : Inode). i.type) kept.only_addrs) ∙ z))
                  (omega (arith, size_same dp dp' d d' kept, in_limit))
                  (omega (arith, size_same dp dp' d d' kept, le))))
        ]
      ]
    where
      size_same : (dp dp' : Inode) (d d' : Disk) → Kept dp d dp' d' → dp'.size ≡ dp.size
      size_same dp dp' d d' kept = ap (λ (i : Inode). i.size) kept.only_addrs
