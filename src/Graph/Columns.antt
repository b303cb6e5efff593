-- ===== src/Graph/Columns.antt =====
-- The column layout of graphLogic.ts. Measured widths are whole pixels, so that `Math.ceil` leaves
-- them; a column may start left of the panel, at a negative position.
use gitglasses.Base.{
  Bool-cases, ◌<◌, ◌-◌, ltb→le, ◌==◌, ◌/◌, ltb, ◌≤◌, ◌+◌, if◌then◌else◌, Bool, ℕ, false, inl, inr,
  ◌≡◌, arith,
}
use gitglasses.Graph.Lanes.{LaneCap, graph_column_width}
use gitglasses.Base.Int.{negsuc, at_least_zero, ◌-ℤ◌, ◌+ℤ◌, ℤ, pos}

pub record ColumnWidths : Type 0 where
  pub date : ℕ
  pub sha : ℕ
  pub author : ℕ

pub record ColumnLayout : Type 0 where
  pub cap : LaneCap
  pub graph_w : ℕ
  pub description_x : ℕ
  pub description_w : ℕ
  pub author_x : ℤ
  pub author_w : ℕ
  pub sha_x : ℤ
  pub sha_w : ℕ
  pub date_x : ℤ
  pub date_w : ℕ

abbrev pub min_description_width : ℕ
min_description_width = 240

-- What an optional column takes: nothing when it is hidden.
abbrev pub column_room : ℕ → ℕ → ℕ
column_room width gap = if width == 0 then 0 else width + gap

-- `room() < MIN_DESCRIPTION_WIDTH`, with what `room` subtracts on the other side.
cramped : (viewport_w description_x gap date_w sha_w author_w : ℕ) → Bool
cramped viewport_w description_x gap date_w sha_w author_w = ltb viewport_w (
    description_x
    + gap
    + date_w
    + column_room sha_w gap
    + column_room author_w gap
    + min_description_width)

-- The start of a column of width `width` before the one that starts at `next_x`.
before : ℤ → ℕ → ℕ → ℤ
before next_x width gap = if width == 0 then next_x else next_x -ℤ pos (gap + width)

place : LaneCap → (viewport_w graph_w description_x date_w sha_w author_w gap : ℕ) → ColumnLayout
unfolding before
place lanes viewport_w graph_w description_x date_w sha_w author_w gap =
    let date_x = pos viewport_w -ℤ pos (gap / 2 + date_w) in
    let sha_x = before date_x sha_w gap in
    let author_x = before sha_x author_w gap in
    record {
      cap = lanes;
      graph_w = graph_w;
      description_x = description_x;
      description_w = at_least_zero (author_x -ℤ pos (gap + description_x));
      author_x = author_x;
      author_w = author_w;
      sha_x = sha_x;
      sha_w = sha_w;
      date_x = date_x;
      date_w = date_w;
    }

unfoldable pub column_layout :
    ℕ → LaneCap → ColumnWidths → (padding lane_width gap : ℕ) → ColumnLayout
unfolding cramped place
column_layout viewport_w lanes widths padding lane_width gap =
    let graph_w = graph_column_width lanes.shown padding lane_width in
    let description_x = graph_w + gap / 2 in
    let date_w = widths.date in
    let sha_w =
      if cramped viewport_w description_x gap date_w widths.sha widths.author
      then 0
      else widths.sha in
    let author_w =
      if cramped viewport_w description_x gap date_w sha_w widths.author
      then 0
      else widths.author in
    place lanes viewport_w graph_w description_x date_w sha_w author_w gap

before_lem :
    (next_x : ℤ) (width gap : ℕ) → before next_x width gap +ℤ pos (column_room width gap) ≡ next_x
unfolding before
before_lem next_x width gap = ground arith

cramped-le :
    (viewport_w description_x gap date_w sha_w author_w : ℕ)
    → cramped viewport_w description_x gap date_w sha_w author_w ≡ false
    → description_x
        + gap
        + date_w
        + column_room sha_w gap
        + column_room author_w gap
        + min_description_width
      ≤ viewport_w
unfolding cramped
cramped-le viewport_w description_x gap date_w sha_w author_w h = ltb→le viewport_w _ h

-- A position from which `room` is taken off, known by what it gives back.
at_least_room :
    (x y : ℤ) (room rest : ℕ)
    → x +ℤ pos room ≡ y
    → (v : ℕ) × (y ≡ pos v) × (room + rest ≤ v)
    → (v : ℕ) × (x ≡ pos v) × (rest ≤ v)
at_least_room x (negsuc n) room rest e (v, p, h) = cc
at_least_room x (pos y) room rest e (v, p, h) =
    let room_in : room + rest ≤ y = ground arith in (y - room, ground arith, omega arith)

place_lem :
    (lanes : LaneCap) (viewport_w graph_w description_x date_w sha_w author_w gap : ℕ)
    → cramped viewport_w description_x gap date_w sha_w author_w ≡ false
    → gap ≤ 480
    → let l = place lanes viewport_w graph_w description_x date_w sha_w author_w gap in
      (min_description_width ≤ l.description_w + gap / 2)
      × (pos (description_x + l.description_w + gap) ≡ l.author_x)
      × (l.author_x +ℤ pos (column_room author_w gap) ≡ l.sha_x)
      × (l.sha_x +ℤ pos (column_room sha_w gap) ≡ l.date_x)
      × (l.date_x ≡ pos (viewport_w - gap / 2 - date_w))
unfolding place
place_lem lanes viewport_w graph_w description_x date_w sha_w author_w gap h g =
    let fits = cramped-le viewport_w description_x gap date_w sha_w author_w h in
    let l = place lanes viewport_w graph_w description_x date_w sha_w author_w gap in
    let sha_at = before_lem l.date_x sha_w gap in
    let author_at = before_lem l.sha_x author_w gap in
    let d : l.date_x ≡ pos (viewport_w - gap / 2 - date_w) = ground (arith, fits) in
    let rest = description_x + gap + min_description_width - gap / 2 in
    let s =
      at_least_room l.sha_x l.date_x (column_room sha_w gap) (column_room author_w gap + rest)
        sha_at (viewport_w - gap / 2 - date_w, d, omega (arith, fits)) in
    let a = at_least_room l.author_x l.sha_x (column_room author_w gap) rest author_at s in
    (ground (arith, a.1, a.2), ground (arith, a.1, a.2), author_at, sha_at, d)

-- Dropping a column and then another leaves room for what is shown.
dropped :
    (tight : ℕ → ℕ → Bool) (s a : ℕ)
    → let s' : ℕ = if tight s a then 0 else s in
      let a' : ℕ = if tight s' a then 0 else a in 0 < s' + a' → tight s' a' ≡ false
dropped tight s a = elim (Bool-cases (tight s a)) [
  | inr fits ↦ rw fits (rw fits (λ _. fits))
  | inl over ↦ rw over (elim (Bool-cases (tight 0 a)) [
    | inr fits ↦ rw fits (λ _. fits)
    | inl over' ↦ rw over' (λ h. absurd (omega (arith, h)))
  ])
]

-- For a gap of at most 480, and while the author or the sha is shown: the description keeps its least width, but for half a
-- gap, and the columns follow one another in order, a gap apart, up to the date at the right edge.
pub column_layout_lem :
    (viewport_w : ℕ) (lanes : LaneCap) (widths : ColumnWidths) (padding lane_width gap : ℕ)
    → gap ≤ 480
    → let l = column_layout viewport_w lanes widths padding lane_width gap in
      0 < l.sha_w + l.author_w
      → (min_description_width ≤ l.description_w + gap / 2)
        × (pos (l.description_x + l.description_w + gap) ≡ l.author_x)
        × (l.author_x +ℤ pos (column_room l.author_w gap) ≡ l.sha_x)
        × (l.sha_x +ℤ pos (column_room l.sha_w gap) ≡ l.date_x)
        × (l.date_x ≡ pos (viewport_w - gap / 2 - l.date_w))
unfolding column_layout place
column_layout_lem viewport_w lanes widths padding lane_width gap g shown =
    let graph_w = graph_column_width lanes.shown padding lane_width in
    let description_x = graph_w + gap / 2 in
    let sha_w : ℕ =
      if cramped viewport_w description_x gap widths.date widths.sha widths.author
      then 0
      else widths.sha in
    let author_w : ℕ =
      if cramped viewport_w description_x gap widths.date sha_w widths.author
      then 0
      else widths.author in
    place_lem lanes viewport_w graph_w description_x widths.date sha_w author_w gap
      (dropped (cramped viewport_w description_x gap widths.date) widths.sha widths.author shown) g
