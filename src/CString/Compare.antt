-- ===== src/CString/Compare.antt =====
-- `strncmp` decides whether two names are the same.
use exp.Base.{ℕ, zero, suc, ◌≡◌, ◌↔◌, refl, List, [], ◌∷◌, arith, ◌==◌, if◌then◌else◌}
use exp.Base.Int.{pos}
use exp.CString.{head_byte, tail_bytes, strncmp}

-- The string at the start of a buffer: its bytes up to a NUL, at most `n` of them.
abbrev pub text : ℕ → List ℕ → List ℕ
text zero p = []
text (suc n) [] = []
text (suc n) (c ∷ p) = if c == 0 then [] else c ∷ text n p

pub text_head_tail :
    (n : ℕ) (q : List ℕ)
    → text (suc n) q ≡ (if head_byte q == 0 then [] else head_byte q ∷ text n (tail_bytes q))
text_head_tail n [] = refl
text_head_tail n (c ∷ q) = refl

-- `strncmp` returns 0 exactly when the two strings agree, cut to `n` bytes.
pub strncmp-eq-zero_iff : (p q : List ℕ) (n : ℕ) → (strncmp p q n ≡ pos 0) ↔ (text n p ≡ text n q)
unfolding strncmp
strncmp-eq-zero_iff p q zero = (λ h. refl, λ h. refl)
strncmp-eq-zero_iff [] q (suc n) =
    (λ h. ground (arith, text_head_tail n q), λ h. ground (arith, text_head_tail n q))
strncmp-eq-zero_iff (c ∷ p) q (suc n) =
    let (there, back) = strncmp-eq-zero_iff p (tail_bytes q) n in
    (λ h. ground (arith, text_head_tail n q, there), λ h. ground (arith, text_head_tail n q, back))
