-- ===== src/Grep/Pattern.antt =====
-- What a regular expression means: the words of a sequence of items, and an anchor at the end.
use exp.Base.{ℕ, ◌==◌, ◌≡◌, Bool, true, false, List, [], ◌∷◌, ◌++◌, All, if◌then◌else◌}
use exp.Grep.{fits}

pub data Item : Type 0 where
  one : ℕ → Item
  star : ℕ → Item

pub record Pattern : Type 0 where
  pub items : List Item
  pub anchored : Bool

abbrev add_item : Item → Pattern → Pattern
add_item i p = record p { items = i ∷ p.items }

-- A regular expression without its leading `^`.
unfoldable pub pattern_of : List ℕ → Pattern
pattern_of [] = record { items = []; anchored = false }
pattern_of (c ∷ []) =
    if c == b'$'
    then record { items = []; anchored = true }
    else record { items = one c ∷ []; anchored = false }
pattern_of (c ∷ d ∷ re) =
    let repeated = add_item (star c) (pattern_of re) in
    let single = add_item (one c) (pattern_of (d ∷ re)) in if d == b'*' then repeated else single

-- The words of a sequence of items.
abbrev pub IsWord : List Item → List ℕ → Type 0
IsWord [] w = w ≡ []
IsWord (one c ∷ is) w = (t : ℕ) × (v : List ℕ) × (w ≡ t ∷ v) × (fits c t ≡ true) × IsWord is v
IsWord (star c ∷ is) w =
    (u : List ℕ) × (v : List ℕ) × (w ≡ u ++ v) × All (λ t. fits c t ≡ true) u × IsWord is v

-- `text` begins with a word of the pattern, and is that word if the pattern is anchored.
abbrev pub Begins : Pattern → List ℕ → Type 0
Begins p text =
    (w : List ℕ) × (rest : List ℕ) × (text ≡ w ++ rest)
    × IsWord p.items w
    × (p.anchored ≡ true → rest ≡ [])

-- Some part of `text` begins with it.
abbrev pub Occurs : Pattern → List ℕ → Type 0
Occurs p text = (before : List ℕ) × (after : List ℕ) × (text ≡ before ++ after) × Begins p after
