-- ===== src/CString/Memmove.antt =====
-- `memmove` on overlapping areas.
use exp.Base.{
  ℕ, zero, suc, ◌+◌, ◌-◌, ◌≤◌, ◌<◌, ◌≡◌, ◌∙◌, ◌⊎◌, inl, inr, refl, ◌&&◌, List, length, get_or, set,
  arith, ltb, length-set, get_or-set_self, get_or-set_ne, ℕ_discrete, ap, Bool-cases,
}
use exp.CString.{copy_up, copy_down, memmove}

-- What a copy of `n` bytes from `s` to `d` leaves at index `j`: the old byte of the source inside
-- the destination, and the old byte of `j` outside it.
abbrev pub Copied : List ℕ → List ℕ → ℕ → ℕ → ℕ → ℕ → Type 0
Copied new old d s n j =
    (d ≤ j → j < d + n → get_or new j 0 ≡ get_or old (s + (j - d)) 0)
    × ((j < d) ⊎ (d + n ≤ j) → get_or new j 0 ≡ get_or old j 0)

up_step :
    (m : List ℕ) (d s n : ℕ)
    → d + suc n ≤ length m
    → (d ≤ s) ⊎ (s + suc n ≤ d)
    → (j : ℕ)
    → (let m' = set m d (get_or m s 0) in
        Copied (copy_up m' (d + 1) (s + 1) n) m' (d + 1) (s + 1) n j)
    → Copied (copy_up (set m d (get_or m s 0)) (d + 1) (s + 1) n) m d s (suc n) j
up_step m d s n fits apart j ih = (
  λ lo hi. elim (ℕ_discrete j d) [
    | yes e ↦
        ih.1 (inl (omega arith))
        ∙ ap (λ k. get_or m' k 0) e
        ∙ get_or-set_self m d v 0 (omega arith)
        ∙ ap (λ k. get_or m k 0) (omega arith)
    | no ne ↦
        ih.0 (omega arith) (omega arith)
        ∙ ap (λ k. get_or m' k 0) (omega arith)
        ∙ get_or-set_ne m d (s + (j - d)) v 0
            (elim apart [ inl h ↦ omega arith | inr h ↦ omega arith ])
  ],
  λ out.
      ih.1 (elim out [ inl h ↦ inl (omega arith) | inr h ↦ inr (omega arith) ])
      ∙ get_or-set_ne m d j v 0 (elim out [ inl h ↦ omega arith | inr h ↦ omega arith ]),
)
  where
    v : ℕ
    v = get_or m s 0

    m' : List ℕ
    m' = set m d v

copy_up-Copied :
    (m : List ℕ) (d s n : ℕ)
    → d + n ≤ length m
    → (d ≤ s) ⊎ (s + n ≤ d)
    → (j : ℕ) → Copied (copy_up m d s n) m d s n j
unfolding copy_up
copy_up-Copied m d s zero fits apart j = (λ lo hi. absurd (omega arith), λ out. refl)
copy_up-Copied m d s (suc n) fits apart j = up_step m d s n fits apart j (
    copy_up-Copied (set m d (get_or m s 0)) (d + 1) (s + 1) n
      (omega (arith, length-set m d (get_or m s 0)))
      (elim apart [ inl h ↦ inl (omega arith) | inr h ↦ inr (omega arith) ]) j)

down_step :
    (m : List ℕ) (d s n : ℕ)
    → d + suc n ≤ length m
    → s < d
    → (j : ℕ)
    → (let m' = set m (d + n) (get_or m (s + n) 0) in Copied (copy_down m' d s n) m' d s n j)
    → Copied (copy_down (set m (d + n) (get_or m (s + n) 0)) d s n) m d s (suc n) j
down_step m d s n fits below j ih = (
  λ lo hi. elim (ℕ_discrete j (d + n)) [
    | yes e ↦
        ih.1 (inr (omega arith))
        ∙ ap (λ k. get_or m' k 0) e
        ∙ get_or-set_self m (d + n) v 0 (omega arith)
        ∙ ap (λ k. get_or m k 0) (omega arith)
    | no ne ↦ ih.0 lo (omega arith) ∙ get_or-set_ne m (d + n) (s + (j - d)) v 0 (omega arith)
  ],
  λ out.
      ih.1 (elim out [ inl h ↦ inl (omega arith) | inr h ↦ inr (omega arith) ])
      ∙ get_or-set_ne m (d + n) j v 0 (elim out [ inl h ↦ omega arith | inr h ↦ omega arith ]),
)
  where
    v : ℕ
    v = get_or m (s + n) 0

    m' : List ℕ
    m' = set m (d + n) v

copy_down-Copied :
    (m : List ℕ) (d s n : ℕ)
    → d + n ≤ length m
    → s < d
    → (j : ℕ) → Copied (copy_down m d s n) m d s n j
unfolding copy_down
copy_down-Copied m d s zero fits below j = (λ lo hi. absurd (omega arith), λ out. refl)
copy_down-Copied m d s (suc n) fits below j = down_step m d s n fits below j (
    copy_down-Copied (set m (d + n) (get_or m (s + n) 0)) d s n
      (omega (arith, length-set m (d + n) (get_or m (s + n) 0))) below j)

-- `memmove` copies as if the source were read whole before the first write, also where the two
-- areas overlap, and changes no byte outside the destination.
pub memmove-Copied :
    (m : List ℕ) (d s n : ℕ) → d + n ≤ length m → (j : ℕ) → Copied (memmove m d s n) m d s n j
unfolding memmove
memmove-Copied m d s n fits j = elim (Bool-cases (ltb s d && ltb d (s + n))) [
  | inl down ↦ rw down (copy_down-Copied m d s n fits (ground arith) j)
  | inr up ↦ rw up (copy_up-Copied m d s n fits (ground arith) j)
]
