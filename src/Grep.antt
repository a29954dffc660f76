-- ===== src/Grep.antt =====
-- xv6-add_FAIRNESS/grep.c: the matcher of regular expressions. A string is the list of its bytes
-- without the NUL; where the code reads the NUL, the list is at its end.
pub mod Pattern
pub mod Correct
mod Tests
use exp.Base.{ℕ, ◌==◌, Bool, true, false, ◌&&◌, ◌||◌, List, [], ◌∷◌, if◌then◌else◌}

-- `re[0]=='.' || re[0]==*text`
abbrev pub fits : ℕ → ℕ → Bool
fits c t = c == b'.' || c == t

abbrev pub at_end : List ℕ → Bool
at_end [] = true
at_end (t ∷ text) = false

-- The last test of `matchhere`, with the call for what follows.
unfoldable pub match_one : ℕ → (List ℕ → Bool) → List ℕ → Bool
match_one c rest [] = false
match_one c rest (t ∷ text) = fits c t && rest text

-- `matchstar`, with its call of `matchhere`.
unfoldable pub matchstar : ℕ → (List ℕ → Bool) → List ℕ → Bool
matchstar c here [] = here []
matchstar c here (t ∷ text) = here (t ∷ text) || ((t == c || c == b'.') && matchstar c here text)

-- `matchhere`
unfoldable pub matchhere : List ℕ → List ℕ → Bool
matchhere [] text = true
matchhere (c ∷ []) text = if c == b'$' then at_end text else match_one c (matchhere []) text
matchhere (c ∷ d ∷ re) text =
    let star = matchstar c (matchhere re) text in
    let one = match_one c (matchhere (d ∷ re)) text in if d == b'*' then star else one

-- The loop of `match`.
unfoldable pub match_from : List ℕ → List ℕ → Bool
match_from re [] = matchhere re []
match_from re (t ∷ text) = matchhere re (t ∷ text) || match_from re text

-- `match`
unfoldable pub match : List ℕ → List ℕ → Bool
match [] text = match_from [] text
match (c ∷ re) text = if c == b'^' then matchhere re text else match_from (c ∷ re) text
