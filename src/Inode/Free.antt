-- ===== src/Inode/Free.antt =====
-- The loops of `itrunc` free the blocks of a list.
use exp.Base.{
  ℕ, ◌==◌, ◌<◌, ◌≡◌, ◌≢◌, refl, ap, ◌∙◌, Bool, true, false, not, ◌&&◌, ◌||◌, List, [], ◌∷◌, ◌++◌,
  if◌then◌else◌, arith, ℕ_discrete, Outcome, done, blocked, panic, ◌>>=◌,
}
use exp.Fs.{Disk, bitmap_block, bfree}
use exp.Fs.Bitmap.{used, IsFormatted, unmark, used-unmark}
use exp.Fs.Alloc.{bfree_lem}
use exp.Inode.{free_all}

-- Block `c` is in the list, where 0 stands for no block.
unfoldable pub occurs : ℕ → List ℕ → Bool
occurs c [] = false
occurs c (a ∷ l) = (not (a == 0) && a == c) || occurs c l

-- A block in use that is not the bitmap's.
pub record Freeable (a : ℕ) (d : Disk) : Type 0 where
  pub inside : a < d.sb.size
  pub in_use : used d a ≡ true
  pub no_bitmap : (c : ℕ) → c < d.sb.size → bitmap_block c d.sb ≢ a

-- Each block of the list can be freed, and is there once.
unfoldable pub AllFreeable : List ℕ → Disk → Type 0
AllFreeable [] d = Unit
AllFreeable (a ∷ l) d = (a ≢ 0 → Freeable a d × (occurs a l ≡ false)) × AllFreeable l d

-- What is left when the blocks of a list are freed.
pub record Freed (l : List ℕ) (d d' : Disk) : Type 0 where
  pub used_left : (c : ℕ) → used d' c ≡ (not (occurs c l) && used d c)
  pub blocks_left :
      (c : ℕ) → ((b : ℕ) → b < d.sb.size → bitmap_block b d.sb ≢ c) → d'.blocks c ≡ d.blocks c
  pub same_sb : d'.sb ≡ d.sb
  pub formatted : IsFormatted d'

AllFreeable-unmark :
    (a : ℕ) (l : List ℕ) (d : Disk)
    → IsFormatted d
    → occurs a l ≡ false
    → AllFreeable l d
    → AllFreeable l (unmark a d)
unfolding AllFreeable occurs
AllFreeable-unmark a [] d f none h = _
AllFreeable-unmark a (b ∷ l) d f none (hb, h) = (
  λ nz.
      let (free, once) = hb nz in
      (
        record {
          inside = free.inside;
          in_use = used-unmark d a b f ∙ other a b (used d b) (differs nz) free.in_use;
          no_bitmap = free.no_bitmap;
        },
        once,
      ),
  AllFreeable-unmark a l d f (later none) h,
)
  where
    other : (a b : ℕ) (t : Bool) → b ≢ a → t ≡ true → (not (a == b) && t) ≡ true
    other a b t ne h = ground arith

    differs : b ≢ 0 → b ≢ a
    differs nz = first a b (occurs a l) nz none
      where
        first : (a b : ℕ) (t : Bool) → b ≢ 0 → ((not (b == 0) && b == a) || t) ≡ false → b ≢ a
        first a b t nz h e = ground arith

    later : ((not (b == 0) && b == a) || occurs a l) ≡ false → occurs a l ≡ false
    later h = ground arith

-- The loop frees the blocks of the list, and never finds one free.
pub free_all_lem :
    (l : List ℕ) (d : Disk)
    → IsFormatted d
    → AllFreeable l d
    → (d' : Disk) × (free_all l d ≡ done d') × Freed l d d'
unfolding free_all AllFreeable occurs
free_all_lem [] d f h = (
  d,
  refl,
  record { used_left = λ c. refl; blocks_left = λ c ne. refl; same_sb = refl; formatted = f },
)
free_all_lem (a ∷ l) d f (ha, h) = elim (ℕ_discrete a 0) [
  | yes z ↦
      let (d', e, freed) = free_all_lem l d f h in
      (
        d',
        rw (is_zero a z) e,
        record {
          used_left =
              λ c. freed.used_left c ∙ ap (λ t. not t && used d c) (skip a c (occurs c l) z);
          blocks_left = freed.blocks_left;
          same_sb = freed.same_sb;
          formatted = freed.formatted;
        },
      )
  | no nz ↦
      let (free, once) = ha nz in
      let (ran, marks, kept, f') = (bfree_lem d a f free.no_bitmap).1 free.in_use in
      let (d', e, freed) = free_all_lem l (unmark a d) f' (AllFreeable-unmark a l d f once h) in
      (
        d',
        rw (not_zero a nz, ran) e,
        record {
          used_left = λ c.
              freed.used_left c
              ∙ ap (λ t. not (occurs c l) && t) (marks c)
              ∙ both a c (occurs c l) (used d c) nz;
          blocks_left = λ c ne. freed.blocks_left c ne ∙ kept c (ne a free.inside);
          same_sb = freed.same_sb;
          formatted = freed.formatted;
        },
      )
]
  where
    is_zero : (a : ℕ) → a ≡ 0 → (a == 0) ≡ true
    is_zero a z = ground arith

    not_zero : (a : ℕ) → a ≢ 0 → (a == 0) ≡ false
    not_zero a z = ground arith

    skip : (a c : ℕ) (t : Bool) → a ≡ 0 → t ≡ ((not (a == 0) && a == c) || t)
    skip a c t z = ground arith

    both :
        (a c : ℕ) (t u : Bool)
        → a ≢ 0
        → (not t && (not (a == c) && u)) ≡ (not ((not (a == 0) && a == c) || t) && u)
    both a c t u nz = ground arith

bind-later :
    (x : Outcome Disk) (f g h : Disk → Outcome Disk)
    → ((d : Disk) → f d ≡ (g d >>= h))
    → (x >>= f) ≡ ((x >>= g) >>= h)
bind-later (done d) f g h e = e d
bind-later blocked f g h e = refl
bind-later panic f g h e = refl

pub free_all-append :
    (l m : List ℕ) (d : Disk) → free_all (l ++ m) d ≡ (free_all l d >>= free_all m)
unfolding free_all
free_all-append [] m d = refl
free_all-append (a ∷ l) m d =
    bind-later (if a == 0 then done d else bfree a d) (free_all (l ++ m)) (free_all l) (free_all m)
      (free_all-append l m)
