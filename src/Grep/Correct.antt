-- ===== src/Grep/Correct.antt =====
-- `match` answers whether the pattern occurs in the text.
use exp.Base.{
  ℕ, ◌==◌, ◌≡◌, ◌≢◌, ◌⊎◌, ◌↔◌, refl, ap, sym, ◌∙◌, subst, Bool, true, false, ◌&&◌, ◌||◌, List, [],
  ◌∷◌, ◌++◌, All, Bool-cases, inl, inr, arith,
}
use exp.Grep.{fits, at_end, match_one, matchstar, matchhere, match_from, match}
use exp.Grep.Pattern.{Item, one, star, Pattern, pattern_of, IsWord, Begins, Occurs}

-- A test decides a predicate on texts.
abbrev Decides : (List ℕ → Bool) → (List ℕ → Type 0) → Type 0
Decides test P = (text : List ℕ) → (test text ≡ true) ↔ P text

and_true : (a b : Bool) → (a && b) ≡ true → (a ≡ true) × (b ≡ true)
and_true a b h = ground arith

cons-eq : (a b : ℕ) (xs ys : List ℕ) → a ∷ xs ≡ b ∷ ys → (a ≡ b) × (xs ≡ ys)
cons-eq a b xs ys e = (cc, cc)

abbrev pattern_with : List Item → Bool → Pattern
pattern_with is anchored = record { items = is; anchored = anchored }

module _ (is : List Item) (anchored : Bool) (here : List ℕ → Bool)
    (ok : Decides here (Begins (pattern_with is anchored))) where
  match_one-Begins :
      (c : ℕ) → Decides (match_one c here) (Begins (pattern_with (one c ∷ is) anchored))
  unfolding match_one
  match_one-Begins c [] = (λ e. absurd (cc), λ (w, rest, e, (t, v, ew, f, word), end). cc (e, ew))
  match_one-Begins c (t ∷ text) = (
    λ h.
        let (f, h') = and_true (fits c t) (here text) h in
        let (w, rest, e, word, end) = (ok text).0 h' in
        (t ∷ w, rest, ap (λ s. t ∷ s) e, (t, w, refl, f, word), end),
    λ (w, rest, e, (t', v, ew, f, word), end).
        let (et, er) = cons-eq t t' text (v ++ rest) (e ∙ ap (λ s. s ++ rest) ew) in
        let here_true : here text ≡ true = (ok text).1 (v, rest, er, word, end) in
        rw (here_true, et, f) refl,
  )

  -- The words that a star begins, for the clause of a nonempty text.
  star_word :
      (c t : ℕ) (text u v rest : List ℕ)
      → t ∷ text ≡ (u ++ v) ++ rest
      → All (λ t. fits c t ≡ true) u
      → IsWord is v
      → (anchored ≡ true → rest ≡ [])
      → (here (t ∷ text) ≡ true)
        ⊎ ((fits c t ≡ true) × Begins (pattern_with (star c ∷ is) anchored) text)
  star_word c t text [] v rest e all word end = inl ((ok (t ∷ text)).1 (v, rest, e, word, end))
  star_word c t text (t' ∷ u) v rest e (f, all) word end =
      let (et, er) = cons-eq t t' text ((u ++ v) ++ rest) e in
      inr (rw et f, (u ++ v, rest, er, (u, v, refl, all, word), end))

  star_more :
      (c t : ℕ) (text : List ℕ)
      → fits c t ≡ true
      → Begins (pattern_with (star c ∷ is) anchored) text
      → Begins (pattern_with (star c ∷ is) anchored) (t ∷ text)
  star_more c t text f (w, rest, e, (u, v, ew, all, word), end) =
      (t ∷ w, rest, ap (λ s. t ∷ s) e, (t ∷ u, v, ap (λ s. t ∷ s) ew, (f, all), word), end)

  star_none :
      (c : ℕ) (text : List ℕ)
      → Begins (pattern_with is anchored) text
      → Begins (pattern_with (star c ∷ is) anchored) text
  star_none c text (w, rest, e, word, end) = (w, rest, e, ([], w, refl, tt, word), end)

  star_end :
      (c : ℕ) (u v rest : List ℕ)
      → [] ≡ (u ++ v) ++ rest
      → IsWord is v
      → (anchored ≡ true → rest ≡ [])
      → here [] ≡ true
  star_end c [] v rest e word end = (ok []).1 (v, rest, e, word, end)
  star_end c (t ∷ u) v rest e word end = cc

  matchstar-Begins :
      (c : ℕ) → Decides (matchstar c here) (Begins (pattern_with (star c ∷ is) anchored))
  unfolding matchstar
  matchstar-Begins c [] = (
    λ h. star_none c [] ((ok []).0 h),
    λ (w, rest, e, (u, v, ew, all, word), end).
        star_end c u v rest (e ∙ ap (λ s. s ++ rest) ew) word end,
  )
  matchstar-Begins c (t ∷ text) = (
    λ h. elim (Bool-cases (here (t ∷ text))) [
      | inl now ↦ star_none c (t ∷ text) ((ok (t ∷ text)).0 now)
      | inr later ↦ star_more c t text (ground arith) ((matchstar-Begins c text).0 (ground arith))
    ],
    λ (w, rest, e, (u, v, ew, all, word), end).
        elim (star_word c t text u v rest (e ∙ ap (λ s. s ++ rest) ew) all word end) [
          | inl now ↦ rw now refl
          | inr (f, more) ↦
              let rest_true : matchstar c here text ≡ true = (matchstar-Begins c text).1 more in
              ground arith
        ],
  )

nothing-Begins : Decides (λ text. true) (Begins (pattern_with [] false))
nothing-Begins text = (λ h. ([], text, refl, refl, λ e. cc), λ h. refl)

end-Begins : Decides at_end (Begins (pattern_with [] true))
end-Begins [] = (λ h. ([], [], refl, refl, λ e. refl), λ h. refl)
end-Begins (t ∷ text) = (λ h. absurd (cc), λ (w, rest, e, ew, end). cc (e, ew, end refl))

matchhere-Begins : (re : List ℕ) → Decides (matchhere re) (Begins (pattern_of re))
unfolding matchhere pattern_of
matchhere-Begins [] text = nothing-Begins text
matchhere-Begins (c ∷ []) text = elim (Bool-cases (c == b'$')) [
  | inl anchor ↦ rw anchor (end-Begins text)
  | inr plain ↦ rw plain (match_one-Begins [] false (matchhere []) nothing-Begins c text)
]
matchhere-Begins (c ∷ d ∷ re) text = elim (Bool-cases (d == b'*')) [
  | inl repeated ↦ rw repeated (
      matchstar-Begins (pattern_of re).items (pattern_of re).anchored (matchhere re)
        (matchhere-Begins re) c text)
  | inr single ↦ rw single (
      match_one-Begins (pattern_of (d ∷ re)).items (pattern_of (d ∷ re)).anchored
        (matchhere (d ∷ re)) (matchhere-Begins (d ∷ re)) c text)
]

match_from-Occurs : (re : List ℕ) → Decides (match_from re) (Occurs (pattern_of re))
unfolding match_from
match_from-Occurs re [] = (
  λ h. ([], [], refl, (matchhere-Begins re []).0 h),
  λ (before, after, e, b). none_before before after e b,
)
  where
    none_before :
        (before after : List ℕ)
        → [] ≡ before ++ after
        → Begins (pattern_of re) after
        → matchhere re [] ≡ true
    none_before [] after e b = (matchhere-Begins re []).1 (subst (Begins (pattern_of re)) (sym e) b)
    none_before (x ∷ xs) after e b = cc
match_from-Occurs re (t ∷ text) = (
  λ h. elim (Bool-cases (matchhere re (t ∷ text))) [
    | inl now ↦ ([], t ∷ text, refl, (matchhere-Begins re (t ∷ text)).0 now)
    | inr later ↦
        let (before, after, e, b) = (match_from-Occurs re text).0 (ground arith) in
        (t ∷ before, after, ap (λ s. t ∷ s) e, b)
  ],
  λ (before, after, e, b). somewhere ((match_from-Occurs re text).1) before after e b,
)
  where
    somewhere :
        (Occurs (pattern_of re) text → match_from re text ≡ true)
        → (before after : List ℕ) → t ∷ text ≡ before ++ after
        → Begins (pattern_of re) after
        → (matchhere re (t ∷ text) || match_from re text) ≡ true
    somewhere later [] after e b =
        let now : matchhere re (t ∷ text) ≡ true =
          (matchhere-Begins re (t ∷ text)).1 (subst (Begins (pattern_of re)) (sym e) b) in
        rw now refl
    somewhere later (x ∷ xs) after e b =
        let found : match_from re text ≡ true =
          later (xs, after, (cons-eq t x text (xs ++ after) e).1, b) in
        ground arith

-- The pattern of a whole regular expression, and where it may stand in the text.
abbrev pub Matches : List ℕ → List ℕ → Type 0
Matches [] text = Occurs (pattern_of []) text
Matches (c ∷ re) text =
    ((c ≡ b'^') × Begins (pattern_of re) text) ⊎ ((c ≢ b'^') × Occurs (pattern_of (c ∷ re)) text)

-- `match` answers 1 exactly if the pattern occurs somewhere in the text, and with a leading `^`
-- exactly if the text begins with the pattern.
pub match-Matches : (re text : List ℕ) → (match re text ≡ true) ↔ Matches re text
unfolding match
match-Matches [] text = match_from-Occurs [] text
match-Matches (c ∷ re) text = elim (Bool-cases (c == b'^')) [
  | inl start ↦ rw start (
    λ h. inl (ground arith, (matchhere-Begins re text).0 h),
    λ m. elim m [
      | inl (e, b) ↦ (matchhere-Begins re text).1 b
      | inr (ne, o) ↦ absurd (ne (ground arith))
    ],
  )
  | inr inner ↦ rw inner (
    λ h. inr (ground arith, (match_from-Occurs (c ∷ re) text).0 h),
    λ m. elim m [
      | inl (e, b) ↦ absurd (ground arith)
      | inr (ne, o) ↦ (match_from-Occurs (c ∷ re) text).1 o
    ],
  )
]
