-- ===== src/Graph.antt =====
-- xv6-add_FAIRNESS/user/cpu_bound.c: the shortest paths that the CPU-bound program computes. An int
-- is a natural number here: distances start at INF and only go down, so no sum of one with a weight
-- leaves the range of an int. The arrays are lists of `vertices` entries.
pub mod Minimum
pub mod Safety
mod Tests
use exp.Base.{
  ℕ, zero, suc, ◌+◌, ◌==◌, ltb, leb, Bool, true, false, not, ◌&&◌, Option, none, some, List, [],
  ◌∷◌, length, get_or, set, replicate, if◌then◌else◌,
}

abbrev pub inf : ℕ
inf = 1000000

-- `if (!visited[v] && dist[v] <= min)`: the new `min` and `min_index`; -1 is `none`.
abbrev pub smaller : ℕ → Bool → ℕ → ℕ × Option ℕ → ℕ × Option ℕ
smaller v visited d (min, min_index) =
    if not visited && leb d min then (d, some v) else (min, min_index)

-- The loop of `min_distance` from vertex `v` on.
unfoldable pub min_from : ℕ → ℕ × Option ℕ → List ℕ → List Bool → Option ℕ
min_from v best [] visited = best.1
min_from v best (d ∷ dist) [] = best.1
min_from v best (d ∷ dist) (x ∷ visited) = min_from (v + 1) (smaller v x d best) dist visited

-- `min_distance`
unfoldable pub min_distance : List ℕ → List Bool → Option ℕ
min_distance dist visited = min_from 0 (inf, none) dist visited

-- The test of the inner loop of `dijkstra`, and its store.
abbrev pub relaxed : ℕ → Bool → ℕ → ℕ → ℕ
relaxed du visited weight dv =
    if not visited && (not (weight == inf) && (not (du == inf) && ltb (du + weight) dv))
    then du + weight
    else dv

-- The inner loop: `row` is `graph[u]`. Vertex `u` is visited, so `dist[u]` stays as it is.
unfoldable pub relax : ℕ → List ℕ → List Bool → List ℕ → List ℕ
relax du (weight ∷ row) (x ∷ visited) (d ∷ dist) = relaxed du x weight d ∷ relax du row visited dist
relax du (weight ∷ row) (x ∷ visited) [] = []
relax du (weight ∷ row) [] dist = dist
relax du [] visited dist = dist

-- A round of the outer loop. `none` stands for the read and the store at index -1 that the code has
-- if `min_distance` returns -1.
unfoldable pub round : List (List ℕ) → List ℕ × List Bool → Option (List ℕ × List Bool)
round graph (dist, visited) = elim (min_distance dist visited) [
  | none ↦ none
  | some u ↦
      let visited' = set visited u true in
      some (relax (get_or dist u 0) (get_or graph u []) visited' dist, visited')
]

unfoldable pub rounds :
    ℕ → List (List ℕ) → Option (List ℕ × List Bool) → Option (List ℕ × List Bool)
rounds zero graph s = s
rounds (suc count) graph none = none
rounds (suc count) graph (some s) = rounds count graph (round graph s)

-- `dijkstra`: the arrays `dist` and `visited`.
unfoldable pub dijkstra : List (List ℕ) → ℕ → ℕ → Option (List ℕ × List Bool)
dijkstra graph src zero = rounds 0 graph (some ([], []))
dijkstra graph src (suc n) =
    rounds n graph (some (set (replicate (suc n) inf) src 0, replicate (suc n) false))
