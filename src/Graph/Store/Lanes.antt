-- ===== src/Graph/Store/Lanes.antt =====
-- extension/webviews-src/graph/store.ts: `maxLane` and the rows.
use gitglasses.Base.{
  sym, subst, ◌∙◌, some_of-append, Bool-cases, ◌||◌, ◌==◌, ◌≤◌, ◌⊎◌, some_of, Bool, List, ℕ, refl,
  [], ◌∷◌, true, inl, inr, ◌++◌, ◌≡◌, arith,
}
use mathlib.Core.Bool.{false≢true}
use gitglasses.Graph.Edges.{LaneEdge}
use gitglasses.Graph.Store.{GraphRow, raise, widen, widen_edges, widen_all}

abbrev pub joins : ℕ → LaneEdge → Bool
joins lane edge = edge.from_lane == lane || edge.to_lane == lane

-- Whether a row draws in a lane.
abbrev pub draws_in : ℕ → GraphRow → Bool
draws_in lane row = row.lane == lane || some_of (joins lane) row.lane_edges

widen_edges-le : (edges : List LaneEdge) (m : ℕ) → m ≤ widen_edges edges m
unfolding widen_edges
widen_edges-le [] m = omega arith
widen_edges-le (edge ∷ edges) m =
    ground (arith, widen_edges-le edges (raise edge.to_lane (raise edge.from_lane m)))

widen_edges-bound :
    (lane : ℕ) (edges : List LaneEdge) (m : ℕ)
    → some_of (joins lane) edges ≡ true
    → lane ≤ widen_edges edges m
unfolding widen_edges
widen_edges-bound lane [] m h = absurd (false≢true h)
widen_edges-bound lane (edge ∷ edges) m h = ground (
  arith,
  widen_edges-le edges (raise edge.to_lane (raise edge.from_lane m)),
  widen_edges-bound lane edges (raise edge.to_lane (raise edge.from_lane m)),
)

widen_edges-drawn :
    (edges : List LaneEdge) (m : ℕ)
    → (widen_edges edges m ≡ m) ⊎ (some_of (joins (widen_edges edges m)) edges ≡ true)
unfolding widen_edges
widen_edges-drawn [] m = inl refl
widen_edges-drawn (edge ∷ edges) m =
    ground (arith, widen_edges-drawn edges (raise edge.to_lane (raise edge.from_lane m)))

widen-le : (row : GraphRow) (m : ℕ) → m ≤ widen row m
unfolding widen
widen-le row m = ground (arith, widen_edges-le row.lane_edges (raise row.lane m))

widen-bound : (lane : ℕ) (row : GraphRow) (m : ℕ) → draws_in lane row ≡ true → lane ≤ widen row m
unfolding widen
widen-bound lane row m h = ground (
  arith,
  widen_edges-le row.lane_edges (raise row.lane m),
  widen_edges-bound lane row.lane_edges (raise row.lane m),
)

widen-drawn : (row : GraphRow) (m : ℕ) → (widen row m ≡ m) ⊎ (draws_in (widen row m) row ≡ true)
unfolding widen
widen-drawn row m = ground (arith, widen_edges-drawn row.lane_edges (raise row.lane m))

widen_all-le : (rows : List GraphRow) (m : ℕ) → m ≤ widen_all rows m
unfolding widen_all
widen_all-le [] m = omega arith
widen_all-le (row ∷ rows) m = omega (arith, widen-le row m, widen_all-le rows (widen row m))

widen_all-bound :
    (lane : ℕ) (rows : List GraphRow) (m : ℕ)
    → some_of (draws_in lane) rows ≡ true
    → lane ≤ widen_all rows m
unfolding widen_all
widen_all-bound lane [] m h = absurd (false≢true h)
widen_all-bound lane (row ∷ rows) m h = elim (Bool-cases (draws_in lane row)) [
  | inl e ↦ omega (arith, widen-bound lane row m e, widen_all-le rows (widen row m))
  | inr e ↦ widen_all-bound lane rows (widen row m) (ground arith)
]

widen_all-drawn :
    (rows : List GraphRow) (m : ℕ)
    → (widen_all rows m ≡ m) ⊎ (some_of (draws_in (widen_all rows m)) rows ≡ true)
unfolding widen_all
widen_all-drawn [] m = inl refl
widen_all-drawn (row ∷ rows) m = elim (widen_all-drawn rows (widen row m)) [
  | inl same ↦ elim (widen-drawn row m) [
    | inl kept ↦ inl (same ∙ kept)
    | inr here ↦
        inr (let drawn = subst (λ lane. draws_in lane row ≡ true) (sym same) here in ground arith)
  ]
  | inr there ↦ inr (ground arith)
]

-- The highest lane that the rows draw in, 0 without one.
pub record IsHighest (rows : List GraphRow) (highest : ℕ) : Type 0 where
  pub bound : (lane : ℕ) → some_of (draws_in lane) rows ≡ true → lane ≤ highest
  pub drawn : (highest ≡ 0) ⊎ (some_of (draws_in highest) rows ≡ true)

pub widen_all-IsHighest : (rows : List GraphRow) → IsHighest rows (widen_all rows 0)
widen_all-IsHighest rows = record {
  bound = λ lane. widen_all-bound lane rows 0;
  drawn = widen_all-drawn rows 0;
}

pub IsHighest-append :
    (rows more : List GraphRow) (highest : ℕ)
    → IsHighest rows highest
    → IsHighest (rows ++ more) (widen_all more highest)
IsHighest-append rows more highest v = record {
  bound = λ lane h. ground (
    arith,
    some_of-append (draws_in lane) rows more,
    v.bound lane,
    widen_all-le more highest,
    widen_all-bound lane more highest,
  );
  drawn = elim (widen_all-drawn more highest) [
    | inl same ↦ rw same (ground (arith, v.drawn, some_of-append (draws_in highest) rows more))
    | inr there ↦ inr (ground (arith, some_of-append (draws_in (widen_all more highest)) rows more))
  ];
}
