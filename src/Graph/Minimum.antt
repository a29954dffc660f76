-- ===== src/Graph/Minimum.antt =====
-- `min_distance` finds an unvisited vertex of least distance.
use exp.Base.{
  ℕ, zero, suc, ◌+◌, ◌≤◌, ◌<◌, ◌≡◌, refl, ap, ◌∙◌, Bool, true, false, not, ◌&&◌, ◌⊎◌, inl, inr,
  Option, none, some, List, [], ◌∷◌, length, get_or, arith, leb, Bool-cases,
}
use exp.Graph.{inf, min_from, min_distance}

-- Vertex `k` is unvisited, at most `bound` away, and no unvisited vertex is nearer.
pub record IsNearest (bound : ℕ) (dist : List ℕ) (visited : List Bool) (k : ℕ) : Type 0 where
  pub inside : k < length dist
  pub unvisited : get_or visited k true ≡ false
  pub bounded : get_or dist k 0 ≤ bound
  pub least : (j : ℕ) → get_or visited j true ≡ false → get_or dist k 0 ≤ get_or dist j 0

abbrev pub AllFarther : ℕ → List ℕ → List Bool → Type 0
AllFarther bound dist visited = (j : ℕ) → get_or visited j true ≡ false → bound < get_or dist j 0

-- What the loop finds among the vertices from `v` on.
abbrev Search : ℕ → ℕ × Option ℕ → List ℕ → List Bool → Type 0
Search v best dist visited =
    ((min_from v best dist visited ≡ best.1) × AllFarther best.0 dist visited)
    ⊎ ((k : ℕ) × (min_from v best dist visited ≡ some (v + k)) × IsNearest best.0 dist visited k)

Search-taken :
    (v min d : ℕ) (x : Bool) (dist : List ℕ) (visited : List Bool)
    → (not x && leb d min) ≡ true
    → Search (v + 1) (d, some v) dist visited
    → (k : ℕ) × (min_from (v + 1) (d, some v) dist visited ≡ some (v + k))
      × IsNearest min (d ∷ dist) (x ∷ visited) k
Search-taken v min d x dist visited taken (inl (e, far)) = (
  0,
  e ∙ ap some (omega arith),
  record { inside = omega arith; unvisited = ground arith; bounded = ground arith; least = least },
)
  where
    least : (j : ℕ) → get_or (x ∷ visited) j true ≡ false → d ≤ get_or (d ∷ dist) j 0
    least zero h = omega arith
    least (suc j) h = omega (arith, far j h)
Search-taken v min d x dist visited taken (inr (k, e, near)) = (
  suc k,
  e ∙ ap some (omega arith),
  record {
    inside = omega (arith, near.inside);
    unvisited = near.unvisited;
    bounded = ground (arith, near.bounded);
    least = least;
  },
)
  where
    least : (j : ℕ) → get_or (x ∷ visited) j true ≡ false → get_or dist k 0 ≤ get_or (d ∷ dist) j 0
    least zero h = near.bounded
    least (suc j) h = near.least j h

Search-left :
    (v min : ℕ) (index : Option ℕ) (d : ℕ) (x : Bool) (dist : List ℕ) (visited : List Bool)
    → (not x && leb d min) ≡ false
    → Search (v + 1) (min, index) dist visited
    → ((min_from (v + 1) (min, index) dist visited ≡ index)
        × AllFarther min (d ∷ dist) (x ∷ visited))
      ⊎ ((k : ℕ) × (min_from (v + 1) (min, index) dist visited ≡ some (v + k))
          × IsNearest min (d ∷ dist) (x ∷ visited) k)
Search-left v min index d x dist visited left (inl (e, far)) = inl (e, all)
  where
    all : AllFarther min (d ∷ dist) (x ∷ visited)
    all zero h = ground arith
    all (suc j) h = far j h
Search-left v min index d x dist visited left (inr (k, e, near)) = inr (
  suc k,
  e ∙ ap some (omega arith),
  record {
    inside = omega (arith, near.inside);
    unvisited = near.unvisited;
    bounded = near.bounded;
    least = least;
  },
)
  where
    least : (j : ℕ) → get_or (x ∷ visited) j true ≡ false → get_or dist k 0 ≤ get_or (d ∷ dist) j 0
    least zero h = ground (arith, near.bounded)
    least (suc j) h = near.least j h

min_from-Search :
    (v : ℕ) (best : ℕ × Option ℕ) (dist : List ℕ) (visited : List Bool)
    → length dist ≡ length visited
    → Search v best dist visited
unfolding min_from
min_from-Search v best [] [] e = inl (refl, λ j h. absurd cc)
min_from-Search v best [] (x ∷ visited) e = absurd (omega arith)
min_from-Search v best (d ∷ dist) [] e = absurd (omega arith)
min_from-Search v (min, index) (d ∷ dist) (x ∷ visited) e = elim (Bool-cases (not x && leb d min)) [
  | inl taken ↦ rw taken (
      inr (
        Search-taken v min d x dist visited taken
          (min_from-Search (v + 1) (d, some v) dist visited (omega arith))))
  | inr left ↦ rw left (
      Search-left v min index d x dist visited left
        (min_from-Search (v + 1) (min, index) dist visited (omega arith)))
]

-- `min_distance` returns an unvisited vertex within INF that no unvisited vertex is nearer than; it
-- returns -1 exactly if every unvisited vertex is farther than INF.
pub min_distance-IsNearest :
    (dist : List ℕ) (visited : List Bool)
    → length dist ≡ length visited
    → ((min_distance dist visited ≡ none) × AllFarther inf dist visited)
      ⊎ ((k : ℕ) × (min_distance dist visited ≡ some k) × IsNearest inf dist visited k)
unfolding min_distance
min_distance-IsNearest dist visited e = elim (min_from-Search 0 (inf, none) dist visited e) [
  | inl (failed, far) ↦ inl (failed, far)
  | inr (k, found, near) ↦ inr (k, found ∙ ap some (omega arith), near)
]
