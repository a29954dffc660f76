-- ===== src/CString/Copy.antt =====
-- What `strncpy` and `safestrcpy` leave in a buffer.
use exp.Base.{ℕ, zero, suc, ◌≤◌, ◌≡◌, refl, List, [], ◌∷◌, length, arith}
use exp.CString.{tail_bytes, pad_zero, strncpy, safestrcpy}
use exp.CString.Compare.{text, text_head_tail}

text-pad_zero : (n : ℕ) (s : List ℕ) → n ≤ length s → text n (pad_zero s n) ≡ []
unfolding pad_zero
text-pad_zero zero s h = refl
text-pad_zero (suc n) [] h = refl
text-pad_zero (suc n) (b ∷ s) h = refl

-- `strncpy` into a buffer of at least `n` bytes leaves there the source string, cut to `n` bytes.
pub text-strncpy : (s t : List ℕ) (n : ℕ) → n ≤ length s → text n (strncpy s t n) ≡ text n t
unfolding strncpy
text-strncpy s t zero h = refl
text-strncpy [] t (suc n) h = absurd (omega arith)
text-strncpy (b ∷ s) t (suc n) h =
    ground (arith, text_head_tail n t, text-strncpy s (tail_bytes t) n)

-- `safestrcpy` into a buffer of at least `n` bytes, `n` positive, leaves there the source string,
-- cut to `n - 1` bytes, and always with its NUL inside the `n` bytes.
pub text-safestrcpy :
    (s t : List ℕ) (n : ℕ) → suc n ≤ length s → text (suc n) (safestrcpy s t (suc n)) ≡ text n t
unfolding safestrcpy
text-safestrcpy [] t n h = absurd (omega arith)
text-safestrcpy (b ∷ s) t zero h = refl
text-safestrcpy (b ∷ s) t (suc n) h =
    ground (arith, text_head_tail n t, text-safestrcpy s (tail_bytes t) n)
