-- ===== src/Path.antt =====
-- xv6-add_FAIRNESS/fs.c: path names. A path is the list of its bytes without the NUL. The buffer for a
-- name is given as the text in it, that is, up to its NUL or DIRSIZ bytes.
pub mod Names
mod Tests
use exp.Base.{ℕ, ◌==◌, Bool, true, false, Option, none, some, List, [], ◌∷◌, take, if◌then◌else◌}

-- `DIRSIZ`
abbrev pub dirsiz : ℕ
dirsiz = 14

-- `while(*path == '/') path++`
unfoldable pub skip_slashes : List ℕ → List ℕ
skip_slashes [] = []
skip_slashes (c ∷ path) = let rest = skip_slashes path in if c == b'/' then rest else c ∷ path

-- `while(*path != '/' && *path != 0) path++`: the bytes passed over, and what follows.
unfoldable pub element : List ℕ → List ℕ
element [] = []
element (c ∷ path) = let rest = element path in if c == b'/' then [] else c ∷ rest

unfoldable pub after_element : List ℕ → List ℕ
after_element [] = []
after_element (c ∷ path) = let rest = after_element path in if c == b'/' then c ∷ path else rest

-- `skipelem` from the first byte that is no slash on.
abbrev pub first_element : List ℕ → Option (List ℕ × List ℕ)
first_element [] = none
first_element (c ∷ path) =
    some (take dirsiz (element (c ∷ path)), skip_slashes (after_element (c ∷ path)))

-- `skipelem`: the name and the rest of the path.
unfoldable pub skipelem : List ℕ → Option (List ℕ × List ℕ)
skipelem path = first_element (skip_slashes path)
