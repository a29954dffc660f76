-- ===== src/Utils/Reverse.antt =====
-- `reverse_string` reverses its string in place.
use exp.Base.{
  ℕ, zero, suc, ◌+◌, ◌-◌, ◌≤◌, ◌<◌, ◌≡◌, ◌≢◌, refl, ap, ap₂, sym, ◌∙◌, List, [], ◌∷◌, ◌++◌, length,
  get_or, set, arith, length-set, get_or-set_self, get_or-set_ne, ℕ_discrete, dec_lt, subst,
  reverse, length-append,
}
use mathlib.Core.List.{reverse-cons}
use exp.Utils.{swap_ends, reverse_string}

swap-length : (str : List ℕ) (i j v w : ℕ) → length (set (set str i v) j w) ≡ length str
swap-length str i j v w = length-set (set str i v) j w ∙ length-set str i v

-- What a swap leaves at index `k`.
swap-at :
    (str : List ℕ) (i j k : ℕ)
    → i < j
    → j < length str
    → (k ≡ i → get_or (set (set str i (get_or str j 0)) j (get_or str i 0)) k 0 ≡ get_or str j 0)
      × (k ≡ j → get_or (set (set str i (get_or str j 0)) j (get_or str i 0)) k 0 ≡ get_or str i 0)
      × (k ≢ i
          → k ≢ j
          → get_or (set (set str i (get_or str j 0)) j (get_or str i 0)) k 0 ≡ get_or str k 0)
swap-at str i j k lt inside = (
  λ e.
      get_or-set_ne once j k (get_or str i 0) 0 (omega arith)
      ∙ ap (λ m. get_or once m 0) e
      ∙ get_or-set_self str i (get_or str j 0) 0 (omega arith),
  λ e.
      ap (λ m. get_or (set once j (get_or str i 0)) m 0) e
      ∙ get_or-set_self once j (get_or str i 0) 0
          (omega (arith, length-set str i (get_or str j 0))),
  λ ni nj.
      get_or-set_ne once j k (get_or str i 0) 0 (λ z. nj (sym z))
      ∙ get_or-set_ne str i k (get_or str j 0) 0 (λ z. ni (sym z)),
)
  where
    once : List ℕ
    once = set str i (get_or str j 0)

swap_ends-step :
    (fuel i j : ℕ) (str : List ℕ)
    → i < j
    → swap_ends (suc fuel) i j str
      ≡ swap_ends fuel (i + 1) (j - 1) (set (set str i (get_or str j 0)) j (get_or str i 0))
unfolding swap_ends
swap_ends-step fuel i j str lt = ground arith

swap_ends-stop : (fuel i j : ℕ) (str : List ℕ) → j ≤ i → swap_ends fuel i j str ≡ str
unfolding swap_ends
swap_ends-stop zero i j str h = refl
swap_ends-stop (suc fuel) i j str h = ground arith

-- `out` is `str` with the bytes from `i` to `j` in the opposite order.
abbrev Mirrored : ℕ → ℕ → List ℕ → List ℕ → Type 0
Mirrored i j str out =
    (k : ℕ)
    → (i ≤ k → k ≤ j → get_or out k 0 ≡ get_or str (i + j - k) 0)
      × (k < i → get_or out k 0 ≡ get_or str k 0)
      × (j < k → get_or out k 0 ≡ get_or str k 0)

Mirrored-swap :
    (str out : List ℕ) (i j : ℕ)
    → i < j
    → j < length str
    → Mirrored (i + 1) (j - 1) (set (set str i (get_or str j 0)) j (get_or str i 0)) out
    → Mirrored i j str out
Mirrored-swap str out i j lt inside m k = (
  λ lo hi. elim (ℕ_discrete k i) [
    | yes e ↦ (m k).1 (omega (arith, e)) ∙ at.0 e ∙ ap (λ q. get_or str q 0) (omega (arith, e))
    | no ni ↦ elim (ℕ_discrete k j) [
      | yes e ↦ (m k).2 (omega (arith, e)) ∙ at.1 e ∙ ap (λ q. get_or str q 0) (omega (arith, e))
      | no nj ↦
          (m k).0 (omega arith) (omega arith)
          ∙ ap (λ q. get_or once q 0) (omega arith)
          ∙ (swap-at str i j (i + j - k) lt inside).2 (omega arith) (omega arith)
    ]
  ],
  λ low. (m k).1 (omega arith) ∙ at.2 (omega arith) (omega arith),
  λ high. (m k).2 (omega arith) ∙ at.2 (omega arith) (omega arith),
)
  where
    once : List ℕ
    once = set (set str i (get_or str j 0)) j (get_or str i 0)

    at :
        (k ≡ i → get_or once k 0 ≡ get_or str j 0)
        × (k ≡ j → get_or once k 0 ≡ get_or str i 0)
        × (k ≢ i → k ≢ j → get_or once k 0 ≡ get_or str k 0)
    at = swap-at str i j k lt inside

Mirrored-stop : (str : List ℕ) (i j : ℕ) → j ≤ i → Mirrored i j str str
Mirrored-stop str i j h k =
    (λ lo hi. ap (λ q. get_or str q 0) (omega arith), λ low. refl, λ high. refl)

swap_ends-Mirrored :
    (fuel i j : ℕ) (str : List ℕ)
    → j < i + fuel
    → j < length str
    → Mirrored i j str (swap_ends fuel i j str)
swap_ends-Mirrored zero i j str big inside =
    subst (Mirrored i j str) (sym (swap_ends-stop 0 i j str (omega arith)))
      (Mirrored-stop str i j (omega arith))
swap_ends-Mirrored (suc fuel) i j str big inside = elim (dec_lt i j) [
  | yes lt ↦ subst (Mirrored i j str) (sym (swap_ends-step fuel i j str lt)) (
      Mirrored-swap str
        (swap_ends fuel (i + 1) (j - 1) (set (set str i (get_or str j 0)) j (get_or str i 0))) i j
        lt inside
        (swap_ends-Mirrored fuel (i + 1) (j - 1)
          (set (set str i (get_or str j 0)) j (get_or str i 0)) (omega arith)
          (omega (arith, swap-length str i j (get_or str j 0) (get_or str i 0)))))
  | no ge ↦
      subst (Mirrored i j str) (sym (swap_ends-stop (suc fuel) i j str (omega arith)))
        (Mirrored-stop str i j (omega arith))
]

swap_ends-none : (i j : ℕ) (str : List ℕ) → swap_ends 0 i j str ≡ str
unfolding swap_ends
swap_ends-none i j str = refl

length-swap_ends : (fuel i j : ℕ) (str : List ℕ) → length (swap_ends fuel i j str) ≡ length str
length-swap_ends zero i j str = ap length (swap_ends-none i j str)
length-swap_ends (suc fuel) i j str = elim (dec_lt i j) [
  | yes lt ↦
      ap length (swap_ends-step fuel i j str lt)
      ∙ length-swap_ends fuel (i + 1) (j - 1) (set (set str i (get_or str j 0)) j (get_or str i 0))
      ∙ swap-length str i j (get_or str j 0) (get_or str i 0)
  | no ge ↦ ap length (swap_ends-stop (suc fuel) i j str (omega arith))
]

get_or-append :
    (xs ys : List ℕ) (k : ℕ)
    → (k < length xs → get_or (xs ++ ys) k 0 ≡ get_or xs k 0)
      × (length xs ≤ k → get_or (xs ++ ys) k 0 ≡ get_or ys (k - length xs) 0)
get_or-append [] ys k = (λ lt. absurd (omega arith), λ ge. ap (λ q. get_or ys q 0) (omega arith))
get_or-append (x ∷ xs) ys zero = (λ lt. refl, λ ge. absurd (omega arith))
get_or-append (x ∷ xs) ys (suc k) = (
  λ lt. (get_or-append xs ys k).0 (omega arith),
  λ ge. (get_or-append xs ys k).1 (omega arith) ∙ ap (λ q. get_or ys q 0) (omega arith),
)

length-reverse : (xs : List ℕ) → length (reverse xs) ≡ length xs
length-reverse [] = refl
length-reverse (x ∷ xs) =
    ap length (reverse-cons x xs)
    ∙ length-append (reverse xs) (x ∷ [])
    ∙ omega (arith, length-reverse xs)

get_or-index : (xs : List ℕ) (j k : ℕ) → j ≡ k → get_or xs j 0 ≡ get_or xs k 0
get_or-index xs j k e = ap (λ q. get_or xs q 0) e

get_or-reverse :
    (xs : List ℕ) (k : ℕ)
    → k < length xs
    → get_or (reverse xs) k 0 ≡ get_or xs (length xs - 1 - k) 0
get_or-reverse [] k lt = absurd (omega arith)
get_or-reverse (x ∷ xs) k lt =
    ap (λ l. get_or l k 0) (reverse-cons x xs) ∙ elim (dec_lt k (length xs)) [
      | yes low ↦
          (get_or-append (reverse xs) (x ∷ []) k).0 (omega (arith, length-reverse xs))
          ∙ get_or-reverse xs k low
          ∙ get_or-index (x ∷ xs) (suc (length xs - 1 - k)) (suc (length xs) - 1 - k) (omega arith)
      | no high ↦
          (get_or-append (reverse xs) (x ∷ []) k).1 (omega (arith, length-reverse xs))
          ∙ get_or-index (x ∷ []) (k - length (reverse xs)) 0 (omega (arith, length-reverse xs))
          ∙ get_or-index (x ∷ xs) 0 (suc (length xs) - 1 - k) (omega arith)
    ]

pub get_or-ext :
    (xs ys : List ℕ)
    → length xs ≡ length ys
    → ((k : ℕ) → k < length xs → get_or xs k 0 ≡ get_or ys k 0)
    → xs ≡ ys
get_or-ext [] [] e h = refl
get_or-ext [] (y ∷ ys) e h = absurd (omega arith)
get_or-ext (x ∷ xs) [] e h = absurd (omega arith)
get_or-ext (x ∷ xs) (y ∷ ys) e h =
    ap₂ (λ a b. a ∷ b) (h 0 (omega arith))
      (get_or-ext xs ys (omega arith) (λ k lt. h (suc k) (omega arith)))

-- `reverse_string` with the string's length reverses the string.
pub reverse_string_lem : (str : List ℕ) → reverse_string str (length str) ≡ reverse str
unfolding reverse_string swap_ends
reverse_string_lem [] = refl
reverse_string_lem (c ∷ s) =
    get_or-ext (swap_ends n 0 (n - 1) str) (reverse str)
      (length-swap_ends n 0 (n - 1) str ∙ sym (length-reverse str))
      (λ k lt.
        (swap_ends-Mirrored n 0 (n - 1) str (omega arith) (omega arith) k).0 (omega arith)
          (omega (arith, length-swap_ends n 0 (n - 1) str))
        ∙ sym (
            get_or-reverse str k (omega (arith, length-swap_ends n 0 (n - 1) str))
            ∙ ap (λ q. get_or str q 0) (omega arith)))
  where
    str : List ℕ
    str = c ∷ s

    n : ℕ
    n = length str
