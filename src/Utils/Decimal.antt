-- ===== src/Utils/Decimal.antt =====
-- Decimal numbers: `int_to_str` and `custom_atoi` agree.
use exp.Base.{
  ℕ, zero, suc, ◌+◌, ◌*◌, ◌/◌, ◌%◌, ◌^◌, ◌<◌, ◌==◌, ◌≡◌, refl, ap, sym, ◌∙◌, true, false, ◌⊎◌, inl,
  inr, List, [], ◌∷◌, ◌++◌, All, arith, append_assoc, reverse, dec_lt, subst, Bool-cases,
}
use mathlib.Core.List.{reverse-cons}
use exp.Utils.{digits, int_to_str, is_digit, atoi_from, custom_atoi}
use exp.Utils.Reverse.{reverse_string_lem}

pow-suc : (f n : ℕ) → n < 10 ^ suc f → n / 10 < 10 ^ f
pow-suc f n h = omega arith

digits-none : (n : ℕ) → digits 0 n ≡ []
unfolding digits
digits-none n = refl

digits-zero : (f : ℕ) → digits f 0 ≡ []
unfolding digits
digits-zero zero = refl
digits-zero (suc f) = refl

digits-next : (f n : ℕ) → 0 < n → digits (suc f) n ≡ (b'0' + n % 10) ∷ digits f (n / 10)
unfolding digits
digits-next f n h = ground arith

atoi_from-digit :
    (n d : ℕ) (rest : List ℕ)
    → d < 10
    → n * 10 + d < 2 ^ 31
    → atoi_from n ((b'0' + d) ∷ rest) ≡ atoi_from (n * 10 + d) rest
unfolding atoi_from
atoi_from-digit n d rest small fits = ground arith

pub atoi_from-digits :
    (f n : ℕ) (rest : List ℕ)
    → n < 10 ^ f
    → n < 2 ^ 31
    → atoi_from 0 (reverse (digits f n) ++ rest) ≡ atoi_from n rest
atoi_from-digits zero n rest h small =
    ap (λ ds. atoi_from 0 (reverse ds ++ rest)) (digits-none n)
    ∙ ap (λ m. atoi_from m rest) (omega arith)
atoi_from-digits (suc f) n rest h small = elim (dec_lt 0 n) [
  | yes more ↦
      ap (λ ds. atoi_from 0 (reverse ds ++ rest)) (digits-next f n more)
      ∙ ap (λ ds. atoi_from 0 (ds ++ rest)) (reverse-cons (b'0' + n % 10) (digits f (n / 10)))
      ∙ ap (atoi_from 0) (append_assoc (reverse (digits f (n / 10))) ((b'0' + n % 10) ∷ []) rest)
      ∙ atoi_from-digits f (n / 10) ((b'0' + n % 10) ∷ rest) (pow-suc f n h) (omega arith)
      ∙ atoi_from-digit (n / 10) (n % 10) rest (omega arith) (omega arith)
      ∙ ap (λ m. atoi_from m rest) (omega arith)
  | no end ↦
      ap (λ m. atoi_from 0 (reverse (digits (suc f) m) ++ rest)) (omega arith)
      ∙ ap (λ ds. atoi_from 0 (reverse ds ++ rest)) (digits-zero (suc f))
      ∙ ap (λ m. atoi_from m rest) (omega arith)
]

-- What may follow a number: nothing, or a byte that is not a digit.
abbrev pub EndsNumber : List ℕ → Type 0
EndsNumber [] = Unit
EndsNumber (c ∷ s) = is_digit c ≡ false

atoi_from-EndsNumber : (n : ℕ) (rest : List ℕ) → EndsNumber rest → atoi_from n rest ≡ n
unfolding atoi_from
atoi_from-EndsNumber n [] h = refl
atoi_from-EndsNumber n (c ∷ s) h = rw h refl

int_to_str-cases :
    (num : ℕ) → (num ≡ 0 × int_to_str num ≡ b'0' ∷ []) ⊎ (int_to_str num ≡ reverse (digits 10 num))
unfolding int_to_str
int_to_str-cases num = elim (Bool-cases (num == 0)) [
  | inl z ↦ inl (ground arith, rw z refl)
  | inr more ↦ inr (rw more (reverse_string_lem (digits 10 num)))
]

-- `custom_atoi` reads the number back that `int_to_str` wrote, whatever text follows it, if the
-- number is at most INT_MAX and no digit follows.
pub custom_atoi-int_to_str :
    (num : ℕ) (rest : List ℕ)
    → num < 2 ^ 31
    → EndsNumber rest
    → custom_atoi (int_to_str num ++ rest) ≡ num
custom_atoi-int_to_str num rest fits ends = elim (int_to_str-cases num) [
  | inl (z, e) ↦
      ap (λ s. custom_atoi (s ++ rest)) e
      ∙ atoi_from-digit 0 0 rest (omega arith) (omega arith)
      ∙ atoi_from-EndsNumber 0 rest ends
      ∙ sym z
  | inr e ↦
      ap (λ s. custom_atoi (s ++ rest)) e
      ∙ atoi_from-digits 10 num rest (omega arith) fits
      ∙ atoi_from-EndsNumber num rest ends
]

abbrev pub AllDigits : List ℕ → Type 0
AllDigits s = All (λ c. is_digit c ≡ true) s

AllDigits-append : (xs ys : List ℕ) → AllDigits xs → AllDigits ys → AllDigits (xs ++ ys)
AllDigits-append [] ys h k = k
AllDigits-append (x ∷ xs) ys (h, hs) k = (h, AllDigits-append xs ys hs k)

AllDigits-reverse : (xs : List ℕ) → AllDigits xs → AllDigits (reverse xs)
AllDigits-reverse [] h = h
AllDigits-reverse (x ∷ xs) (h, hs) =
    subst AllDigits (sym (reverse-cons x xs))
      (AllDigits-append (reverse xs) (x ∷ []) (AllDigits-reverse xs hs) (h, tt))

digits-AllDigits : (f n : ℕ) → AllDigits (digits f n)
digits-AllDigits zero n = subst AllDigits (sym (digits-none n)) tt
digits-AllDigits (suc f) n = elim (dec_lt 0 n) [
  | yes more ↦
      subst AllDigits (sym (digits-next f n more)) (ground arith, digits-AllDigits f (n / 10))
  | no end ↦ subst AllDigits (sym (ap (digits (suc f)) (omega arith) ∙ digits-zero (suc f))) tt
]

pub int_to_str-AllDigits : (num : ℕ) → AllDigits (int_to_str num)
int_to_str-AllDigits num = elim (int_to_str-cases num) [
  | inl (z, e) ↦ subst AllDigits (sym e) (refl, tt)
  | inr e ↦ subst AllDigits (sym e) (AllDigits-reverse (digits 10 num) (digits-AllDigits 10 num))
]
