-- ===== src/Graph/Edges.antt =====
-- Edge paths and ref chips of graphLogic.ts. Vertical positions are counted in quarters of a pixel,
-- so that the halves of a row and of a curve are whole.
use gitglasses.Base.{
  ◌∙◌, subst, ap, Option-cases, false, inl, All, true, inr, ◌∷◌, ◌++◌, ltb, arith, ◌⊎◌, ◌&&◌, some,
  none, ◌≡◌, ◌==◌, ◌/◌, leb, Option, ◌≤◌, ◌+◌, max, if◌then◌else◌, Text, List, Bool, ℕ, refl, [],
}
use gitglasses.Graph.Lanes.{lane_x}

pub data EdgeKind : Type 0 where
  line line_in line_out merge_in branch_out : EdgeKind

pub record LaneEdge : Type 0 where
  pub from_lane : ℕ
  pub to_lane : ℕ
  pub kind : EdgeKind

pub data EdgePath : Type 0 where
  straight : (x y0 y1 : ℕ) → EdgePath
  curved : (x0 y0 cp1x cp1y cp2x cp2y x1 y1 : ℕ) → EdgePath

curve : (x0 y0 x1 y1 : ℕ) → EdgePath
curve x0 y0 x1 y1 = let mid_y = (y0 + y1) / 2 in curved x0 y0 x0 mid_y x1 mid_y x1 y1

path_of : EdgeKind → (from_x to_x row_top center_y bottom : ℕ) → EdgePath
unfolding curve
path_of line from_x to_x row_top center_y bottom =
    if from_x == to_x then straight from_x row_top bottom else curve from_x row_top to_x bottom
path_of line_in from_x to_x row_top center_y bottom = straight from_x row_top center_y
path_of line_out from_x to_x row_top center_y bottom =
    if from_x == to_x then straight from_x center_y bottom else curve from_x center_y to_x bottom
path_of merge_in from_x to_x row_top center_y bottom = curve from_x row_top to_x center_y
path_of branch_out from_x to_x row_top center_y bottom = curve from_x center_y to_x bottom

pub edge_path : LaneEdge → (row_top row_h padding lane_width : ℕ) → (ℕ → ℕ) → EdgePath
unfolding path_of
edge_path edge row_top row_h padding lane_width column =
    path_of edge.kind (lane_x (column edge.from_lane) padding lane_width)
      (lane_x (column edge.to_lane) padding lane_width) row_top (row_top + row_h / 2)
      (row_top + row_h)

-- The lane whose color an edge is drawn in.
unfoldable pub edge_color_lane : LaneEdge → ℕ
edge_color_lane edge = max edge.from_lane edge.to_lane

pub record ChipBox : Type 0 where
  pub x : ℕ
  pub y : ℕ
  pub width : ℕ
  pub height : ℕ
  pub ref_name : Text
  pub row : Option ℕ
  pub ref_index : Option ℕ

abbrev pub inside : ℕ → ℕ → ChipBox → Bool
inside x y chip =
    leb chip.x x && ltb x (chip.x + chip.width) && leb chip.y y && ltb y (chip.y + chip.height)

-- The loop from the last chip down to the first.
unfoldable pub ref_chip_at_point : ℕ → ℕ → List ChipBox → Option ChipBox
ref_chip_at_point x y [] = none
ref_chip_at_point x y (chip ∷ chips) = elim (ref_chip_at_point x y chips) [
  | some later ↦ some later
  | none ↦ if inside x y chip then some chip else none
]

abbrev pub start_of : EdgePath → ℕ × ℕ
start_of (straight x y0 y1) = (x, y0)
start_of (curved x0 y0 cp1x cp1y cp2x cp2y x1 y1) = (x0, y0)

abbrev pub end_of : EdgePath → ℕ × ℕ
end_of (straight x y0 y1) = (x, y1)
end_of (curved x0 y0 cp1x cp1y cp2x cp2y x1 y1) = (x1, y1)

-- Both tangents are vertical: the control points stand over the ends, at one height between them.
abbrev pub IsEased : EdgePath → Type 0
IsEased (straight x y0 y1) = y0 ≤ y1
IsEased (curved x0 y0 cp1x cp1y cp2x cp2y x1 y1) =
    (cp1x ≡ x0) × (cp2x ≡ x1) × (cp1y ≡ cp2y) × (y0 ≤ cp1y) × (cp1y ≤ y1)

-- Where an edge enters and leaves its row: the dot stands on the middle of the row.
abbrev pub enters : EdgeKind → ℕ → ℕ → ℕ
enters line top center = top
enters line_in top center = top
enters line_out top center = center
enters merge_in top center = top
enters branch_out top center = center

abbrev pub leaves : EdgeKind → ℕ → ℕ → ℕ
leaves line center bottom = bottom
leaves line_in center bottom = center
leaves line_out center bottom = bottom
leaves merge_in center bottom = center
leaves branch_out center bottom = bottom

-- Every edge runs downwards with vertical tangents, from its lane's column at the height where its
-- kind enters the row; and it ends in the other lane's column, where its kind leaves the row, but
-- for the row's own lane into the dot, which stays in its column.
pub edge_path_ends :
    (edge : LaneEdge) (row_top row_h padding lane_width : ℕ) (column : ℕ → ℕ)
    → let p = edge_path edge row_top row_h padding lane_width column in
      let center = row_top + row_h / 2 in
      let from_x = lane_x (column edge.from_lane) padding lane_width in
      let to_x = lane_x (column edge.to_lane) padding lane_width in
      IsEased p
      × (start_of p ≡ (from_x, enters edge.kind row_top center))
      × ((end_of p ≡ (to_x, leaves edge.kind center (row_top + row_h)))
          ⊎ ((edge.kind ≡ line_in) × (end_of p ≡ (from_x, center))))
unfolding edge_path
edge_path_ends edge row_top row_h padding lane_width column =
    ends edge.kind (lane_x (column edge.from_lane) padding lane_width)
      (lane_x (column edge.to_lane) padding lane_width)
  where
    ends :
        (kind : EdgeKind) (from_x to_x : ℕ)
        → let center = row_top + row_h / 2 in
          let p = path_of kind from_x to_x row_top center (row_top + row_h) in
          IsEased p
          × (start_of p ≡ (from_x, enters kind row_top center))
          × ((end_of p ≡ (to_x, leaves kind center (row_top + row_h)))
              ⊎ ((kind ≡ line_in) × (end_of p ≡ (from_x, center))))
    ends line from_x to_x = (ground arith, ground arith, inl (ground arith))
    ends line_in from_x to_x = (omega arith, refl, inr (refl, refl))
    ends line_out from_x to_x = (ground arith, ground arith, inl (ground arith))
    ends merge_in from_x to_x = ((refl, refl, refl, omega arith, omega arith), refl, inl refl)
    ends branch_out from_x to_x = ((refl, refl, refl, omega arith, omega arith), refl, inl refl)

no_chip :
    (x y : ℕ) (chips : List ChipBox)
    → ref_chip_at_point x y chips ≡ none
    → All (λ c. inside x y c ≡ false) chips
unfolding ref_chip_at_point
no_chip x y [] h = tt
no_chip x y (c ∷ chips) h = elim (Option-cases (ref_chip_at_point x y chips)) [
  | inl e ↦ (ground (arith, e), no_chip x y chips e)
  | inr (later, e) ↦ absurd (ground (arith, e))
]

-- The chip that is hit holds the point, and no chip drawn after it does.
pub ref_chip_at_point-topmost :
    (x y : ℕ) (chips : List ChipBox) (chip : ChipBox)
    → ref_chip_at_point x y chips ≡ some chip
    → (below above : List ChipBox) × (chips ≡ below ++ chip ∷ above)
      × (inside x y chip ≡ true)
      × All (λ c. inside x y c ≡ false) above
unfolding ref_chip_at_point
ref_chip_at_point-topmost x y [] chip h = cc
ref_chip_at_point-topmost x y (c ∷ chips) chip h =
    elim (Option-cases (ref_chip_at_point x y chips)) [
      | inl e ↦
          let hit : (c ≡ chip) × (inside x y c ≡ true) = ground (arith, e) in
          (
            [],
            chips,
            ap (λ d. d ∷ chips) hit.0,
            subst (λ d. inside x y d ≡ true) hit.0 hit.1,
            no_chip x y chips e,
          )
      | inr (later, e) ↦
          let same : later ≡ chip = ground (arith, e) in
          let (below, above, split, hit, clear) =
            ref_chip_at_point-topmost x y chips chip (e ∙ ap some same) in
          (c ∷ below, above, ap (◌∷◌ c) split, hit, clear)
    ]
