-- ===== src/Path/Tests.antt =====
-- The examples of the comment on `skipelem`.
use exp.Base.{ℕ, ◌≡◌, refl, none, some, List, [], ◌∷◌}
use exp.Path.{skipelem, skip_slashes, element, after_element}
use exp.Path.Names.{Taken, skipelem-Taken}

-- "a/bb/c" and "///a//bb"
abbrev long_path : List ℕ
long_path = b'a' ∷ b'/' ∷ b'b' ∷ b'b' ∷ b'/' ∷ b'c' ∷ []

abbrev slashes : List ℕ
slashes = b'/' ∷ b'/' ∷ b'/' ∷ b'a' ∷ b'/' ∷ b'/' ∷ b'b' ∷ b'b' ∷ []

comment_examples :
    (skipelem long_path ≡ some (b'a' ∷ [], b'b' ∷ b'b' ∷ b'/' ∷ b'c' ∷ []))
    × (skipelem slashes ≡ some (b'a' ∷ [], b'b' ∷ b'b' ∷ []))
    × (skipelem (b'a' ∷ []) ≡ some (b'a' ∷ [], []))
    × (skipelem (b'/' ∷ b'/' ∷ []) ≡ none)
unfolding skipelem skip_slashes element after_element
comment_examples = (refl, refl, refl, refl)

skipelem-Taken_example : Taken slashes (skipelem slashes)
skipelem-Taken_example = skipelem-Taken slashes
