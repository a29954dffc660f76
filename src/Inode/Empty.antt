-- ===== src/Inode/Empty.antt =====
-- The loops of `itrunc` as one loop over the places of the inode.
use exp.Base.{
  ℕ, suc, ◌+◌, ◌-◌, ◌*◌, ◌==◌, ◌≡◌, ◌≢◌, refl, ap, sym, ◌∙◌, true, false, [], ◌∷◌, ◌++◌, length,
  get_or, take, replicate, arith, Outcome, done, blocked, panic, ◌>>=◌,
}
use exp.Fs.{Disk, bfree}
use exp.Inode.{Inode, ndirect, nindirect, max_file, load_le, load_words, free_all, iupdate, itrunc}
use exp.Inode.Owned.{place, Owns}
use exp.Inode.Step.{place-direct, place-table, place-entry}
use exp.Inode.Free.{Freed, free_all_lem, free_all-append}
use exp.Inode.Stretch.{
  stretch, stretch-append, take-stretch, load_words-stretch, stretch-AllFreeable,
}

-- An inode without contents.
abbrev pub emptied : Inode → Inode
emptied ip = record ip { addrs = replicate (ndirect + 1) 0; size = 0 }

bind-same :
    (x : Outcome Disk) (f g : Disk → Outcome Disk)
    → ((d : Disk) → f d ≡ g d)
    → (x >>= f) ≡ (x >>= g)
bind-same (done d) f g e = e d
bind-same blocked f g e = refl
bind-same panic f g e = refl

free_one : (b : ℕ) (d : Disk) → b ≢ 0 → bfree b d ≡ free_all (b ∷ []) d
unfolding free_all
free_one b d nz = rw (not_zero b nz) (ends (bfree b d))
  where
    not_zero : (b : ℕ) → b ≢ 0 → (b == 0) ≡ false
    not_zero b nz = ground arith

    ends : (x : Outcome Disk) → x ≡ (x >>= λ d'. done d')
    ends (done d) = refl
    ends blocked = refl
    ends panic = refl

module _ (ip : Inode) (d : Disk) (o : Owns (place ip.addrs d) d)
    (len : length ip.addrs ≡ suc ndirect) where
  abbrev at : ℕ → ℕ
  at = place ip.addrs d

  abbrev table : ℕ
  table = get_or ip.addrs ndirect 0

  direct : take ndirect ip.addrs ≡ stretch at 0 ndirect
  direct =
      take-stretch at ndirect 0 ip.addrs (omega (arith, len))
        (λ r lt. ap at {x = 0 + r} {y = r} (omega arith) ∙ place-direct ip.addrs d r lt)

  pub free_direct :
      (d1 : Disk) × (free_all (stretch at 0 ndirect) d ≡ done d1)
      × Freed (stretch at 0 ndirect) d d1
  free_direct =
      free_all_lem (stretch at 0 ndirect) d o.formatted
        (stretch-AllFreeable at d 0 ndirect o (omega arith))

  pub free_whole :
      (d2 : Disk) × (free_all (stretch at 0 (suc max_file)) d ≡ done d2)
      × Freed (stretch at 0 (suc max_file)) d d2
  free_whole =
      free_all_lem (stretch at 0 (suc max_file)) d o.formatted
        (stretch-AllFreeable at d 0 (suc max_file) o (omega arith))

  pub itrunc-none : table ≡ 0 → itrunc ip d ≡ done (emptied ip, iupdate (emptied ip) free_direct.0)
  unfolding itrunc
  itrunc-none z = rw (direct, free_direct.1, is_zero table z) refl
    where
      is_zero : (a : ℕ) → a ≡ 0 → (a == 0) ≡ true
      is_zero a z = ground arith

  entries :
      table ≢ 0 → load_words nindirect (free_direct.0.blocks table) 0 ≡ stretch at ndirect nindirect
  entries nz =
      ap (λ f. load_words nindirect f 0)
        (free_direct.2.blocks_left table (λ b lt e.
          o.apart max_file (omega arith) (λ z. nz (sym (place-table ip.addrs d) ∙ z)) b lt
            (place-table ip.addrs d ∙ sym e)))
      ∙ load_words-stretch at (d.blocks table) nindirect ndirect 0 (λ r lt.
        (place-entry ip.addrs d (ndirect + r) (omega arith) (omega arith)).1 nz
        ∙ ap (load_le 4 (d.blocks table)) {x = 4 * (ndirect + r - ndirect)} {y = 0 + 4 * r}
            (omega arith))

  pieces :
      (stretch at 0 ndirect ++ (stretch at ndirect nindirect ++ (table ∷ [])))
      ≡ stretch at 0 (suc max_file)
  unfolding stretch
  pieces =
      ap (λ t. stretch at 0 ndirect ++ (stretch at ndirect nindirect ++ (t ∷ [])))
        (sym (place-table ip.addrs d))
      ∙ ap (λ l. stretch at 0 ndirect ++ l) (stretch-append at ndirect nindirect 1)
      ∙ stretch-append at 0 ndirect (nindirect + 1)

  free_rest :
      (free_all (stretch at ndirect nindirect) free_direct.0 >>= free_all (table ∷ []))
      ≡ done free_whole.0
  free_rest =
      sym (free_all-append (stretch at ndirect nindirect) (table ∷ []) free_direct.0)
      ∙ sym (ap (λ x. x >>= free_all (stretch at ndirect nindirect ++ (table ∷ []))) free_direct.1)
      ∙ sym
          (free_all-append (stretch at 0 ndirect) (stretch at ndirect nindirect ++ (table ∷ [])) d)
      ∙ ap (λ l. free_all l d) pieces
      ∙ free_whole.1

  pub itrunc-some : table ≢ 0 → itrunc ip d ≡ done (emptied ip, iupdate (emptied ip) free_whole.0)
  unfolding itrunc
  itrunc-some nz =
      rw
        (
          direct,
          free_direct.1,
          not_zero table nz,
          entries nz,
          bind-same (free_all (stretch at ndirect nindirect) free_direct.0) (bfree table)
                (free_all (table ∷ [])) (λ e. free_one table e nz)
              ∙ free_rest,
        )
        refl
    where
      not_zero : (b : ℕ) → b ≢ 0 → (b == 0) ≡ false
      not_zero b nz = ground arith
