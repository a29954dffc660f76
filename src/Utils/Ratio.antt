-- ===== src/Utils/Ratio.antt =====
-- `calculate_scaled_ratio` where its first argument is a multiple of the second.
use exp.Base.{ℕ, ◌+◌, ◌*◌, ◌/◌, ◌^◌, ◌<◌, ◌==◌, ◌||◌, ◌≡◌, ap, ◌∙◌, false, arith}
use native.Mathlib.Nat.{div-le_self, zero-div, mul-div_left, mul-mod_left}
use exp.Utils.{uint, calculate_scaled_ratio}

tests-fail : (b c : ℕ) → 0 < b → 0 < c → (c == 0 || b == 0) ≡ false
tests-fail b c hb hc = ground arith

adjustment-zero :
    (q b c scale : ℕ)
    → uint (uint (2 * q * 0 * scale) / c + uint (0 * 0 * scale) / uint (b * b * c)) ≡ 0
adjustment-zero q b c scale =
    ap (λ x. uint (uint x / c + uint (0 * 0 * scale) / uint (b * b * c))) zero-left
    ∙ ap (λ x. uint (x + uint (0 * 0 * scale) / uint (b * b * c))) (zero-div c)
    ∙ ap (λ x. uint (0 + uint x / uint (b * b * c))) zero-right
    ∙ ap (λ x. uint (0 + x)) (zero-div (uint (b * b * c)))
  where
    zero-left : 2 * q * 0 * scale ≡ 0
    zero-left = omega arith

    zero-right : 0 * 0 * scale ≡ 0
    zero-right = omega arith

uint-fits : (v : ℕ) → v < 2 ^ 32 → uint v ≡ v
uint-fits v h = omega arith

quotient-fits : (v c : ℕ) → v < 2 ^ 32 → uint (uint v / c + 0) ≡ v / c
quotient-fits v c h = ap (λ x. uint (x / c + 0)) (uint-fits v h) ∙ omega (arith, div-le_self v c)

-- For `a` = q * b the result is q * q * scale / c, if that product and b * b * c fit in 32 bits.
pub calculate_scaled_ratio-multiple :
    (q b c scale : ℕ)
    → 0 < b
    → 0 < c
    → b * b * c < 2 ^ 32
    → q * q * scale < 2 ^ 32
    → calculate_scaled_ratio (q * b) b c scale ≡ q * q * scale / c
unfolding calculate_scaled_ratio
calculate_scaled_ratio-multiple q b c scale b0 c0 fits small = rw (tests-fail b c b0 c0) (
    rw (mul-div_left q b0, mul-mod_left q b)
      (rw (adjustment-zero q b c scale) (quotient-fits (q * q * scale) c small)))
