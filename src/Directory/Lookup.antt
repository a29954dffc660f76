-- ===== src/Directory/Lookup.antt =====
-- `dirlookup`: the name, and the inode that it stands for.
use exp.Base.{
  ℕ, zero, suc, ◌+◌, ◌*◌, ◌/◌, ◌==◌, ◌≤◌, ◌≡◌, ◌≢◌, ◌⊎◌, inl, inr, refl, ap, sym, ◌∙◌, true, Option,
  none, some, List, [], ◌∷◌, get_elem?, arith, Outcome, done, panic, ◌>>=◌,
}
use exp.Fs.{Disk}
use exp.Inode.{Inode, t_dir}
use exp.Content.{Device}
use exp.Content.View.{Ready, byte_at, limit}
use exp.Content.Write.{Hole}
use exp.Content.Read.{Kept}
use exp.Icache.{holds, update, iget}
use exp.Icache.Cache.{holds-IsEntry, IsCache, IsCache-update, Got, iget_lem}
use exp.Directory.{dirent_size, dirlookup_scan, dirlookup}
use exp.Directory.Scan.{FirstEntry, dirlookup_scan-ScansOr}

-- The directory's entry of the cache after the search: only `addrs` may have changed.
IsCache-search :
    (l : List Inode) (k : ℕ) (dp dp' : Inode)
    → IsCache l
    → get_elem? l k ≡ some dp
    → dp' ≡ record dp { addrs = dp'.addrs }
    → IsCache (update l k (λ old. dp'))
IsCache-search l k dp dp' c at same =
    IsCache-update l k (λ old. dp') dp c at
      (λ j jp at' ne lt h. ne (
        c k j dp jp at at'
          (holds-IsEntry jp.dev jp.inum dp (sym (ap (holds jp.dev jp.inum) same) ∙ h)) lt))

-- What `dirlookup` comes to, where the directory has `n` entries.
abbrev pub LooksUp :
    ℕ
    → ℕ
    → List ℕ
    → Inode
    → List Inode
    → Disk
    → Outcome (Option (ℕ × ℕ) × List Inode × Disk)
    → Type 0
LooksUp n k name dp cache d r =
    ((r ≡ panic)
      × (Hole dp 0 (dirent_size * n) d
          ⊎ ((j : ℕ) (jp : Inode) → get_elem? cache j ≡ some jp → k ≢ j → jp.ref ≢ 0)))
    ⊎ ((dp' : Inode) × (d' : Disk) × Kept dp d dp' d'
        × (((r ≡ done (none, update cache k (λ old. dp'), d'))
              × FirstEntry n name (byte_at dp d) 0 none)
            ⊎ ((inum off i : ℕ) × (cache' : List Inode) × (r ≡ done (some (i, off), cache', d'))
                × FirstEntry n name (byte_at dp d) 0 (some (inum, off))
                × Got dp.dev inum (update cache k (λ old. dp')) i cache')))

update_other :
    (l : List Inode) (i j : ℕ) (f : Inode → Inode)
    → i ≢ j
    → get_elem? (update l i f) j ≡ get_elem? l j
update_other [] i j f ne = refl
update_other (x ∷ l) zero zero f ne = absurd (ne refl)
update_other (x ∷ l) zero (suc j) f ne = refl
update_other (x ∷ l) (suc i) zero f ne = refl
update_other (x ∷ l) (suc i) (suc j) f ne = update_other l i j f (λ e. ne (ap suc e))

module _ (devsw : ℕ → Device) where
  dirlookup-scan :
      (n k : ℕ) (name : List ℕ) (dp : Inode) (cache : List Inode) (d : Disk)
      → get_elem? cache k ≡ some dp
      → dp.type ≡ t_dir
      → dp.size ≡ dirent_size * n
      → dirlookup devsw k name cache d ≡ (
          dirlookup_scan devsw n name dp 0 d >>= λ (found, dp', d').
          let cache' = update cache k (λ old. dp') in
          elim found [
            | none ↦ done (none, cache', d')
            | some (inum, off) ↦
                (iget dp.dev inum cache' >>= λ (i, cache''). done (some (i, off), cache'', d'))
          ])
  unfolding dirlookup
  dirlookup-scan n k name dp cache d at dir whole =
      rw (at, dirlookup, is_dir dp.type dir, rounds dp.size whole) refl
    where
      is_dir : (t : ℕ) → t ≡ t_dir → (t == t_dir) ≡ true
      is_dir t e = ground arith

      rounds : (s : ℕ) → s ≡ dirent_size * n → (s + 15) / dirent_size ≡ n
      rounds s e = omega (arith, e)

  -- `dirlookup` gives the entry of the cache for the number in the first directory entry of the name,
  -- and the offset of that; or null exactly if no entry of the directory has the name. The directory
  -- keeps its contents. It panics only for want of a block of the directory or of a free entry.
  pub dirlookup-LooksUp :
      (n k : ℕ) (name : List ℕ) (dp : Inode) (cache : List Inode) (d : Disk)
      → IsCache cache
      → get_elem? cache k ≡ some dp
      → dp.type ≡ t_dir
      → Ready dp d
      → dp.size ≡ dirent_size * n
      → dp.size ≤ limit
      → LooksUp n k name dp cache d (dirlookup devsw k name cache d)
  dirlookup-LooksUp n k name dp cache d c at dir ready whole in_limit =
      elim (dirlookup_scan-ScansOr devsw n name dp 0 d ready (λ e. omega (arith, dir, e)) in_limit
        (omega (arith, whole))) [
          | inl (e, hole) ↦
              inl (dirlookup-scan n k name dp cache d at dir whole ∙ rw e refl, inl hole)
          | inr (none, dp', d', e, first, kept) ↦ inr (
            dp',
            d',
            kept,
            inl (dirlookup-scan n k name dp cache d at dir whole ∙ rw e refl, first),
          )
          | inr (some (inum, off), dp', d', e, first, kept) ↦
              elim (iget_lem dp.dev inum (update cache k (λ old. dp'))
                (IsCache-search cache k dp dp' c at kept.only_addrs)) [
                  | inl (e', busy) ↦ inl (
                    dirlookup-scan n k name dp cache d at dir whole ∙ rw (e, e') refl,
                    inr (λ j jp at' ne.
                        (busy j jp (update_other cache k j (λ old. dp') ne ∙ at')).1),
                  )
                  | inr (i, cache', e', got) ↦ inr (
                    dp',
                    d',
                    kept,
                    inr (
                      inum,
                      off,
                      i,
                      cache',
                      dirlookup-scan n k name dp cache d at dir whole ∙ rw (e, e') refl,
                      first,
                      got,
                    ),
                  )
                ]
        ]
