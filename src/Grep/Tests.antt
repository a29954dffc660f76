-- ===== src/Grep/Tests.antt =====
-- Runs of the matcher, and the witness.
use exp.Base.{◌≡◌, ◌↔◌, refl, true, false, List, ℕ, [], ◌∷◌}
use exp.Grep.{match, match_from, matchhere, matchstar, match_one}
use exp.Grep.Correct.{Matches, match-Matches}

-- `a.*c$`
abbrev expression : List ℕ
expression = b'a' ∷ b'.' ∷ b'*' ∷ b'c' ∷ b'$' ∷ []

abbrev line : List ℕ
line = b'x' ∷ b'a' ∷ b'b' ∷ b'c' ∷ []

match-line : match expression line ≡ true
unfolding match match_from matchhere matchstar match_one
match-line = refl

match-start : match (b'^' ∷ expression) line ≡ false
unfolding match match_from matchhere matchstar match_one
match-start = refl

match-Matches_example : (match expression line ≡ true) ↔ Matches expression line
match-Matches_example = match-Matches expression line
