-- ===== src/Graph/Tests.antt =====
-- Runs on small graphs, and the witness.
use exp.Base.{ℕ, ◌≡◌, refl, Bool, true, false, some, List, [], ◌∷◌}
use exp.Graph.{inf, dijkstra, rounds, round, relax, min_distance, min_from}
use exp.Graph.Safety.{dijkstra-some}

-- Three vertices: from 0 to 1 by way of 2 is shorter.
abbrev triangle : List (List ℕ)
triangle = (0 ∷ 9 ∷ 2 ∷ []) ∷ (inf ∷ 0 ∷ inf ∷ []) ∷ (inf ∷ 3 ∷ 0 ∷ []) ∷ []

dijkstra-triangle : dijkstra triangle 0 3 ≡ some (0 ∷ 5 ∷ 2 ∷ [], true ∷ false ∷ true ∷ [])
unfolding dijkstra rounds round relax min_distance min_from
dijkstra-triangle = refl

abbrev some_dist : List ℕ
some_dist = 0 ∷ 9 ∷ 2 ∷ []

abbrev some_visited : List Bool
some_visited = true ∷ false ∷ false ∷ []

dijkstra-some_example : (s : List ℕ × List Bool) × (dijkstra triangle 0 3 ≡ some s)
dijkstra-some_example = dijkstra-some triangle 0 3
