-- ===== src/Fs/Bits.antt =====
-- The bits of a byte, checked over all bytes.
use exp.Base.{
  ℕ, zero, suc, ◌-◌, ◌^◌, ◌==◌, ◌<◌, ◌≡◌, refl, ltb, Bool, true, false, not, ◌&&◌, arith, ap, ◌∙◌,
  ℕ_discrete, if◌then◌else◌,
}
use Prim.Native.Nat.{bit_and, bit_or}

abbrev same : Bool → Bool → Bool
same true b = b
same false b = not b

same-eq : (a b : Bool) → same a b ≡ true → a ≡ b
same-eq true b h = ground arith
same-eq false b h = ground arith

-- A test passes on all numbers under a bound.
passes : (ℕ → Bool) → ℕ → Bool
passes test zero = true
passes test (suc bound) = if test bound then passes test bound else false

passes-each :
    (test : ℕ → Bool) (bound : ℕ) → passes test bound ≡ true → (i : ℕ) → i < bound → test i ≡ true
unfolding passes
passes-each test zero ok i small = absurd (omega arith)
passes-each test (suc bound) ok i small = elim (ℕ_discrete i bound) [
  | yes last ↦ ap test last ∙ (if_true (test bound) (passes test bound) ok).0
  | no earlier ↦
      passes-each test bound (if_true (test bound) (passes test bound) ok).1 i (omega arith)
]
  where
    if_true : (a b : Bool) → (if a then b else false) ≡ true → (a ≡ true) × (b ≡ true)
    if_true a b h = (ground arith, ground arith)

-- All bytes `v` and all pairs of bits `k`, `j`.
abbrev every : (ℕ → ℕ → ℕ → Bool) → Bool
every p = passes (λ v. passes (λ k. passes (p v k) 8) 8) 256

every-each :
    (p : ℕ → ℕ → ℕ → Bool) (v k j : ℕ) → every p ≡ true → v < 256 → k < 8 → j < 8 → p v k j ≡ true
every-each p v k j h hv hk hj =
    passes-each (p v k) 8
      (passes-each (λ k. passes (p v k) 8) 8
        (passes-each (λ v. passes (λ k. passes (p v k) 8) 8) 256 h v hv) k hk)
      j hj

abbrev clear : ℕ → ℕ → Bool
clear v k = bit_and v (2 ^ k) == 0

or_table : every (λ v k j. same (clear (bit_or v (2 ^ k)) j) (not (k == j) && clear v j)) ≡ true
unfolding passes
or_table = refl

and_table :
    every (λ v k j. same (clear (bit_and v (255 - 2 ^ k)) j) (if k == j then true else clear v j))
    ≡ true
unfolding passes
and_table = refl

range_table :
    every (λ v k j. ltb (bit_or v (2 ^ k)) 256 && ltb (bit_and v (255 - 2 ^ k)) 256) ≡ true
unfolding passes
range_table = refl

pub clear-bit_or :
    (v k j : ℕ)
    → v < 256
    → k < 8
    → j < 8
    → (bit_and (bit_or v (2 ^ k)) (2 ^ j) == 0) ≡ (not (k == j) && (bit_and v (2 ^ j) == 0))
clear-bit_or v k j hv hk hj = same-eq _ _ (
    every-each (λ v k j. same (clear (bit_or v (2 ^ k)) j) (not (k == j) && clear v j)) v k j
      or_table hv hk hj)

pub clear-bit_and :
    (v k j : ℕ)
    → v < 256
    → k < 8
    → j < 8
    → (bit_and (bit_and v (255 - 2 ^ k)) (2 ^ j) == 0)
      ≡ (if k == j then true else bit_and v (2 ^ j) == 0)
clear-bit_and v k j hv hk hj = same-eq _ _ (
    every-each
      (λ v k j. same (clear (bit_and v (255 - 2 ^ k)) j) (if k == j then true else clear v j)) v k j
      and_table hv hk hj)

pub bit_range :
    (v k : ℕ) → v < 256 → k < 8 → (bit_or v (2 ^ k) < 256) × (bit_and v (255 - 2 ^ k) < 256)
bit_range v k hv hk = both (
    every-each (λ v k j. ltb (bit_or v (2 ^ k)) 256 && ltb (bit_and v (255 - 2 ^ k)) 256) v k 0
      range_table hv hk (omega arith))
  where
    both : {a b : ℕ} → (ltb a 256 && ltb b 256) ≡ true → (a < 256) × (b < 256)
    both h = (ground arith, ground arith)
