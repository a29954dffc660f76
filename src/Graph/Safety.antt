-- ===== src/Graph/Safety.antt =====
-- `dijkstra` never uses the index -1.
use exp.Base.{
  ℕ, zero, suc, ◌≤◌, ◌<◌, ◌≡◌, refl, ap, sym, ◌∙◌, Bool, true, false, inl, inr, some, List, [], ◌∷◌,
  length, get_or, set, replicate, arith, length-set, length-replicate,
}
use exp.Graph.{inf, min_distance, relaxed, relax, round, rounds, dijkstra}
use exp.Graph.Minimum.{min_distance-IsNearest}

-- The number of unvisited vertices.
unfoldable pub unvisited : List Bool → ℕ
unvisited [] = 0
unvisited (true ∷ xs) = unvisited xs
unvisited (false ∷ xs) = suc (unvisited xs)

some_unvisited :
    (xs : List Bool) → 0 < unvisited xs → (j : ℕ) × (j < length xs) × (get_or xs j true ≡ false)
unfolding unvisited
some_unvisited [] h = absurd (omega arith)
some_unvisited (false ∷ xs) h = (0, omega arith, refl)
some_unvisited (true ∷ xs) h = let (j, inside, e) = some_unvisited xs h in (suc j, omega arith, e)

unvisited-set :
    (xs : List Bool) (k : ℕ)
    → get_or xs k true ≡ false
    → unvisited xs ≡ suc (unvisited (set xs k true))
unfolding unvisited
unvisited-set [] k h = absurd cc
unvisited-set (false ∷ xs) zero h = refl
unvisited-set (true ∷ xs) zero h = absurd cc
unvisited-set (false ∷ xs) (suc k) h = ap suc (unvisited-set xs k h)
unvisited-set (true ∷ xs) (suc k) h = unvisited-set xs k h

unvisited-replicate : (n : ℕ) → unvisited (replicate n false) ≡ n
unfolding unvisited
unvisited-replicate zero = refl
unvisited-replicate (suc n) = ap suc (unvisited-replicate n)

-- No distance is above INF.
abbrev Bounded : List ℕ → Type 0
Bounded dist = (j : ℕ) → get_or dist j 0 ≤ inf

relaxed-le : (du : ℕ) (x : Bool) (weight dv : ℕ) → relaxed du x weight dv ≤ dv
relaxed-le du x weight dv = ground arith

cons-le :
    (c d : ℕ) (cs ds : List ℕ)
    → c ≤ d
    → ((j : ℕ) → get_or cs j 0 ≤ get_or ds j 0)
    → (j : ℕ) → get_or (c ∷ cs) j 0 ≤ get_or (d ∷ ds) j 0
cons-le c d cs ds h hs zero = h
cons-le c d cs ds h hs (suc j) = hs j

relax-le :
    (du : ℕ) (row : List ℕ) (visited : List Bool) (dist : List ℕ)
    → (length (relax du row visited dist) ≡ length dist)
      × ((j : ℕ) → get_or (relax du row visited dist) j 0 ≤ get_or dist j 0)
unfolding relax
relax-le du [] visited dist = (refl, λ j. omega arith)
relax-le du (w ∷ row) [] dist = (refl, λ j. omega arith)
relax-le du (w ∷ row) (x ∷ visited) [] = (refl, λ j. omega arith)
relax-le du (w ∷ row) (x ∷ visited) (d ∷ dist) =
    let (same, lower) = relax-le du row visited dist in
    (
      ap suc same,
      cons-le (relaxed du x w d) d (relax du row visited dist) dist (relaxed-le du x w d) lower,
    )

record Ready (more : ℕ) (dist : List ℕ) (visited : List Bool) : Type 0 where
  lengths : length dist ≡ length visited
  bounded : Bounded dist
  left : more ≤ unvisited visited

round-at :
    (graph : List (List ℕ)) (dist : List ℕ) (visited : List Bool) (u : ℕ)
    → min_distance dist visited ≡ some u
    → round graph (dist, visited)
      ≡ some (
        relax (get_or dist u 0) (get_or graph u []) (set visited u true) dist,
        set visited u true,
      )
unfolding round
round-at graph dist visited u e = rw (e, round) refl

round-Ready :
    (more : ℕ) (graph : List (List ℕ)) (dist : List ℕ) (visited : List Bool)
    → Ready (suc more) dist visited
    → (dist' : List ℕ) × (visited' : List Bool) × (round graph (dist, visited)
        ≡ some (dist', visited'))
      × Ready more dist' visited'
round-Ready more graph dist visited r = elim (min_distance-IsNearest dist visited r.lengths) [
  | inl (failed, far) ↦
      let (j, inside, e) = some_unvisited visited (omega (arith, r.left)) in
      absurd (omega (arith, far j e, r.bounded j))
  | inr (u, found, near) ↦
      let (same, lower) =
        relax-le (get_or dist u 0) (get_or graph u []) (set visited u true) dist in
      (
        relax (get_or dist u 0) (get_or graph u []) (set visited u true) dist,
        set visited u true,
        round-at graph dist visited u found,
        record {
          lengths = same ∙ r.lengths ∙ sym (length-set visited u true);
          bounded = λ j. omega (arith, lower j, r.bounded j);
          left = omega (arith, r.left, unvisited-set visited u near.unvisited);
        },
      )
]

rounds-some :
    (n : ℕ) (graph : List (List ℕ)) (dist : List ℕ) (visited : List Bool)
    → Ready n dist visited
    → (s : List ℕ × List Bool) × (rounds n graph (some (dist, visited)) ≡ some s)
unfolding rounds
rounds-some zero graph dist visited r = ((dist, visited), refl)
rounds-some (suc n) graph dist visited r =
    let (dist', visited', e, r') = round-Ready n graph dist visited r in
    rw e (rounds-some n graph dist' visited' r')

Bounded-start : (n src : ℕ) → Bounded (set (replicate n inf) src 0)
Bounded-start zero src j = omega arith
Bounded-start (suc n) zero zero = omega arith
Bounded-start (suc n) zero (suc j) = Bounded-replicate n j
  where
    Bounded-replicate : (n : ℕ) → Bounded (replicate n inf)
    Bounded-replicate zero j = omega arith
    Bounded-replicate (suc n) zero = omega arith
    Bounded-replicate (suc n) (suc j) = Bounded-replicate n j
Bounded-start (suc n) (suc src) zero = omega arith
Bounded-start (suc n) (suc src) (suc j) = Bounded-start n src j

-- Whatever the graph and the source, every round of `dijkstra` finds a vertex: the code never reads
-- or writes at the index -1.
pub dijkstra-some :
    (graph : List (List ℕ)) (src vertices : ℕ)
    → (s : List ℕ × List Bool) × (dijkstra graph src vertices ≡ some s)
unfolding dijkstra rounds
dijkstra-some graph src zero = (([], []), refl)
dijkstra-some graph src (suc n) =
    rounds-some n graph (set (replicate (suc n) inf) src 0) (replicate (suc n) false) (record {
      lengths =
          length-set (replicate (suc n) inf) src 0
          ∙ length-replicate (suc n) inf
          ∙ sym (length-replicate (suc n) false);
      bounded = Bounded-start (suc n) src;
      left = omega (arith, unvisited-replicate (suc n));
    })
