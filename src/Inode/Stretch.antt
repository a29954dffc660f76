-- ===== src/Inode/Stretch.antt =====
-- The blocks of an inode as a list of places, which can all be freed.
use exp.Base.{
  ℕ, zero, suc, ◌+◌, ◌*◌, ◌==◌, ◌≤◌, ◌<◌, ◌≡◌, ◌≢◌, inl, inr, refl, ap, ap₂, sym, ◌∙◌, subst, Bool,
  true, false, not, ◌&&◌, ◌||◌, List, [], ◌∷◌, ◌++◌, length, get_or, take, arith, ℕ_discrete,
  Bool-cases,
}
use exp.Fs.{Bytes, Disk}
use exp.Inode.{max_file, load_le, load_words}
use exp.Inode.Owned.{Owns}
use exp.Inode.Free.{occurs, AllFreeable}

-- The values of a function from `lo` on.
unfoldable pub stretch : (ℕ → ℕ) → ℕ → ℕ → List ℕ
stretch at lo zero = []
stretch at lo (suc n) = at lo ∷ stretch at (lo + 1) n

stretch-at :
    (at : ℕ → ℕ) (lo lo' n n' : ℕ) → lo ≡ lo' → n ≡ n' → stretch at lo n ≡ stretch at lo' n'
stretch-at at lo lo' n n' e e' = ap₂ (stretch at) e e'

pub stretch-append :
    (at : ℕ → ℕ) (lo n m : ℕ) → (stretch at lo n ++ stretch at (lo + n) m) ≡ stretch at lo (n + m)
unfolding stretch
stretch-append at lo zero m = stretch-at at (lo + 0) lo m (0 + m) (omega arith) (omega arith)
stretch-append at lo (suc n) m =
    ap (λ l. at lo ∷ (stretch at (lo + 1) n ++ l))
      (stretch-at at (lo + suc n) (lo + 1 + n) m m (omega arith) refl)
    ∙ ap (λ l. at lo ∷ l) (stretch-append at (lo + 1) n m)
    ∙ longer (n + m) (suc n + m) (omega arith)
  where
    longer : (k l : ℕ) → suc k ≡ l → (at lo ∷ stretch at (lo + 1) k) ≡ stretch at lo l
    longer k l e = subst (λ l. (at lo ∷ stretch at (lo + 1) k) ≡ stretch at lo l) e refl

same_head : (f g : ℕ → ℕ) (lo : ℕ) → f (lo + 0) ≡ g 0 → g 0 ≡ f lo
same_head f g lo e = sym e ∙ ap f {x = lo + 0} {y = lo} (omega arith)

pub take-stretch :
    (at : ℕ → ℕ) (n lo : ℕ) (l : List ℕ)
    → n ≤ length l
    → ((r : ℕ) → r < n → at (lo + r) ≡ get_or l r 0)
    → take n l ≡ stretch at lo n
unfolding stretch
take-stretch at zero lo l le h = refl
take-stretch at (suc n) lo [] le h = absurd (omega arith)
take-stretch at (suc n) lo (x ∷ l) le h =
    ap₂ ◌∷◌ (same_head at (λ r. get_or (x ∷ l) r 0) lo (h 0 (omega arith))) (
      take-stretch at n (lo + 1) l (omega arith)
        (λ r lt. ap at {x = lo + 1 + r} {y = lo + suc r} (omega arith) ∙ h (suc r) (omega arith)))

pub load_words-stretch :
    (at : ℕ → ℕ) (f : Bytes) (n lo a : ℕ)
    → ((r : ℕ) → r < n → at (lo + r) ≡ load_le 4 f (a + 4 * r))
    → load_words n f a ≡ stretch at lo n
unfolding stretch load_words
load_words-stretch at f zero lo a h = refl
load_words-stretch at f (suc n) lo a h =
    ap₂ ◌∷◌
      (ap (load_le 4 f) {x = a} {y = a + 4 * 0} (omega arith)
        ∙ same_head at (λ r. load_le 4 f (a + 4 * r)) lo (h 0 (omega arith)))
      (load_words-stretch at f n (lo + 1) (a + 4) (λ r lt.
        ap at {x = lo + 1 + r} {y = lo + suc r} (omega arith)
        ∙ h (suc r) (omega arith)
        ∙ ap (load_le 4 f) {x = a + 4 * suc r} {y = a + 4 + 4 * r} (omega arith)))

-- The blocks that occur in a stretch.
pub occurs-stretch :
    (at : ℕ → ℕ) (lo n c : ℕ)
    → occurs c (stretch at lo n) ≡ true
    → (r : ℕ) × (lo ≤ r) × (r < lo + n) × (at r ≢ 0) × (at r ≡ c)
unfolding stretch occurs
occurs-stretch at lo zero c h = cc
occurs-stretch at lo (suc n) c h = elim (Bool-cases (not (at lo == 0) && at lo == c)) [
  | inl e ↦ (
    lo,
    omega arith,
    omega arith,
    nonzero (at lo) (at lo == c) e,
    equal (at lo) c (not (at lo == 0)) e,
  )
  | inr ne ↦
      let (r, lower, upper, nz, e) = occurs-stretch at (lo + 1) n c (second _ _ h ne) in
      (r, omega arith, omega arith, nz, e)
]
  where
    nonzero : (a : ℕ) (t : Bool) → (not (a == 0) && t) ≡ true → a ≢ 0
    nonzero a t h z = ground arith

    equal : (a c : ℕ) (t : Bool) → (t && a == c) ≡ true → a ≡ c
    equal a c t h = ground arith

    second : (s t : Bool) → (s || t) ≡ true → s ≡ false → t ≡ true
    second s t h k = ground arith

pub stretch-occurs :
    (at : ℕ → ℕ) (lo n r : ℕ)
    → lo ≤ r
    → r < lo + n
    → at r ≢ 0
    → occurs (at r) (stretch at lo n) ≡ true
unfolding stretch occurs
stretch-occurs at lo zero r lower upper nz = absurd (omega arith)
stretch-occurs at lo (suc n) r lower upper nz = elim (ℕ_discrete lo r) [
  | yes e ↦
      subst
        (λ s. ((not (at s == 0) && at s == at r) || occurs (at r) (stretch at (lo + 1) n)) ≡ true)
        (sym e) (here (at r) _ nz)
  | no ne ↦ there _ _ (stretch-occurs at (lo + 1) n r (omega arith) (omega arith) nz)
]
  where
    here : (a : ℕ) (t : Bool) → a ≢ 0 → ((not (a == 0) && a == a) || t) ≡ true
    here a t nz = ground arith

    there : (s t : Bool) → t ≡ true → (s || t) ≡ true
    there s t h = ground arith

pub stretch-AllFreeable :
    (at : ℕ → ℕ) (d : Disk) (lo n : ℕ)
    → Owns at d
    → lo + n ≤ suc max_file
    → AllFreeable (stretch at lo n) d
unfolding stretch AllFreeable
stretch-AllFreeable at d lo zero o le = _
stretch-AllFreeable at d lo (suc n) o le = (
  λ nz. (
    record {
      inside = (o.in_use lo (omega arith) nz).0;
      in_use = (o.in_use lo (omega arith) nz).1;
      no_bitmap = λ c lt e. o.apart lo (omega arith) nz c lt (sym e);
    },
    once nz,
  ),
  stretch-AllFreeable at d (lo + 1) n o (omega arith),
)
  where
    once : at lo ≢ 0 → occurs (at lo) (stretch at (lo + 1) n) ≡ false
    once nz = elim (Bool-cases (occurs (at lo) (stretch at (lo + 1) n))) [
      | inl e ↦
          let (r, lower, upper, nz', e') = occurs-stretch at (lo + 1) n (at lo) e in
          let twice : r ≡ lo = o.distinct r lo (omega arith) (omega arith) nz' e' in
          absurd (omega (arith, twice, lower))
      | inr f ↦ f
    ]
