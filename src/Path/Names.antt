-- ===== src/Path/Names.antt =====
-- `skipelem` takes a path apart into its names.
use exp.Base.{
  ℕ, suc, ◌==◌, ◌≤◌, ◌<◌, ◌≡◌, ◌⊎◌, inl, inr, refl, ap, sym, ◌∙◌, true, false, Option, none, some,
  List, [], ◌∷◌, length, take, if◌then◌else◌, arith, Bool-cases,
}
use exp.Path.{dirsiz, skip_slashes, element, after_element, first_element, skipelem}

-- The stretches of a path between its slashes.
abbrev push : ℕ → List (List ℕ) → List (List ℕ)
push c [] = []
push c (w ∷ ws) = (c ∷ w) ∷ ws

unfoldable pub split : List ℕ → List (List ℕ)
split [] = [] ∷ []
split (c ∷ path) = let rest = split path in if c == b'/' then [] ∷ rest else push c rest

unfoldable pub nonempty : List (List ℕ) → List (List ℕ)
nonempty [] = []
nonempty ([] ∷ ws) = nonempty ws
nonempty ((c ∷ w) ∷ ws) = (c ∷ w) ∷ nonempty ws

-- The names of a path.
abbrev pub names : List ℕ → List (List ℕ)
names path = nonempty (split path)

abbrev later : List ℕ → List (List ℕ)
later [] = []
later (c ∷ path) = split path

split-element : (path : List ℕ) → split path ≡ element path ∷ later (after_element path)
unfolding split element after_element
split-element [] = refl
split-element (c ∷ path) = elim (Bool-cases (c == b'/')) [
  | inl e ↦ rw e refl
  | inr ne ↦ rw ne (ap (push c) (split-element path))
]

names-nil : names [] ≡ []
unfolding split nonempty
names-nil = refl

names-slash : (c : ℕ) (path : List ℕ) → (c == b'/') ≡ true → names (c ∷ path) ≡ names path
unfolding split nonempty
names-slash c path e = rw e refl

element-byte : (c : ℕ) (path : List ℕ) → (c == b'/') ≡ false → element (c ∷ path) ≡ c ∷ element path
unfolding element
element-byte c path bare = rw bare refl

names-byte :
    (c : ℕ) (path : List ℕ)
    → (c == b'/') ≡ false
    → names (c ∷ path) ≡ element (c ∷ path) ∷ nonempty (later (after_element (c ∷ path)))
unfolding nonempty
names-byte c path bare =
    ap nonempty (split-element (c ∷ path))
    ∙ ap (λ w. nonempty (w ∷ later (after_element (c ∷ path)))) (element-byte c path bare)
    ∙ ap (λ w. w ∷ nonempty (later (after_element (c ∷ path)))) (sym (element-byte c path bare))

names-skip_slashes : (path : List ℕ) → names (skip_slashes path) ≡ names path
unfolding skip_slashes
names-skip_slashes [] = refl
names-skip_slashes (c ∷ path) = elim (Bool-cases (c == b'/')) [
  | inl e ↦ rw e (names-skip_slashes path ∙ sym (names-slash c path e))
  | inr ne ↦ rw ne refl
]

names-after_element :
    (path : List ℕ) → nonempty (later (after_element path)) ≡ names (after_element path)
unfolding after_element nonempty
names-after_element [] = sym names-nil
names-after_element (c ∷ path) = elim (Bool-cases (c == b'/')) [
  | inl e ↦ rw e (sym (names-slash c path e))
  | inr ne ↦ rw ne (names-after_element path)
]

length-skip_slashes : (path : List ℕ) → length (skip_slashes path) ≤ length path
unfolding skip_slashes
length-skip_slashes [] = omega arith
length-skip_slashes (c ∷ path) = elim (Bool-cases (c == b'/')) [
  | inl e ↦ rw e (omega (arith, length-skip_slashes path))
  | inr ne ↦ rw ne (omega arith)
]

length-after_element : (path : List ℕ) → length (after_element path) ≤ length path
unfolding after_element
length-after_element [] = omega arith
length-after_element (c ∷ path) = elim (Bool-cases (c == b'/')) [
  | inl e ↦ rw e (omega arith)
  | inr ne ↦ rw ne (omega (arith, length-after_element path))
]

-- What `skip_slashes` leaves does not start with a slash.
abbrev Bare : List ℕ → Type 0
Bare [] = Unit
Bare (c ∷ path) = (c == b'/') ≡ false

skip_slashes-Bare : (path : List ℕ) → Bare (skip_slashes path)
unfolding skip_slashes
skip_slashes-Bare [] = _
skip_slashes-Bare (c ∷ path) = elim (Bool-cases (c == b'/')) [
  | inl e ↦ rw e (skip_slashes-Bare path)
  | inr ne ↦ rw ne ne
]

names-Bare : (path : List ℕ) → Bare path → names path ≡ [] → path ≡ []
names-Bare [] bare e = refl
names-Bare (c ∷ path) bare e = cc (e, names-byte c path bare)

abbrev pub Taken : List ℕ → Option (List ℕ × List ℕ) → Type 0
Taken path r =
    ((names path ≡ []) × (r ≡ none))
    ⊎ ((name rest : List ℕ) × (r ≡ some (take dirsiz name, rest))
        × (names path ≡ name ∷ names rest)
        × (names rest ≡ [] → rest ≡ [])
        × (length rest < length path))

first_element-Taken : (path : List ℕ) → Bare path → Taken path (first_element path)
unfolding after_element
first_element-Taken [] bare = inl (names-nil, refl)
first_element-Taken (c ∷ path) bare = inr (
  element (c ∷ path),
  skip_slashes (after_element (c ∷ path)),
  refl,
  names-byte c path bare
      ∙ ap (λ ws. element (c ∷ path) ∷ ws)
          (names-after_element (c ∷ path) ∙ sym (names-skip_slashes (after_element (c ∷ path)))),
  names-Bare (skip_slashes (after_element (c ∷ path)))
      (skip_slashes-Bare (after_element (c ∷ path))),
  shorter (rw bare (length-after_element path)),
)
  where
    shorter :
        length (after_element (c ∷ path)) ≤ length path
        → length (skip_slashes (after_element (c ∷ path))) < suc (length path)
    shorter le = omega (arith, le, length-skip_slashes (after_element (c ∷ path)))

-- `skipelem` gives the first name of the path, cut to DIRSIZ bytes, and a shorter path with the names
-- that follow, which is empty if that name was the last one. It fails exactly if there is no name.
pub skipelem-Taken : (path : List ℕ) → Taken path (skipelem path)
unfolding skipelem
skipelem-Taken path = moved (first_element-Taken (skip_slashes path) (skip_slashes-Bare path))
  where
    moved : {r : Option (List ℕ × List ℕ)} → Taken (skip_slashes path) r → Taken path r
    moved (inl (e, f)) = inl (sym (names-skip_slashes path) ∙ e, f)
    moved (inr (name, rest, e, same, only, lt)) = inr (
      name,
      rest,
      e,
      sym (names-skip_slashes path) ∙ same,
      only,
      omega (arith, lt, length-skip_slashes path),
    )
