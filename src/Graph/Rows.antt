-- ===== src/Graph/Rows.antt =====
-- Row windowing, hit testing of rows, keyboard navigation, scroll anchoring, dates and colors of
-- graphLogic.ts. Offsets into the list are naturals; a pointer above the list is negative.
use gitglasses.Base.{
  ◌∙◌, leb→lt, leb→le, inr, Bool-cases, inl, ◌⊎◌, ap, All, lt-div-suc, lt-ceil_div, mul_mono,
  div-mul-le, div-le, ceil_div, ◌%◌, text_eq, ltb, leb, [], ◌≤◌, ◌∷◌, ◌||◌, ◌/◌, ◌++◌, position_of,
  none, max, get_elem?, arith, ◌≡◌, ◌==◌, ◌-◌, ◌*◌, some, min, length, codes, ◌<◌, ◌+◌,
  if◌then◌else◌, Text, Option, List, ℕ, refl,
}
use gitglasses.Base.Int.{◌-ℤ◌, ◌+ℤ◌, at_least_zero, pos, negsuc, ℤ}
use gitglasses.Base.Decimal.{decimal}

-- `end` is reserved.
pub record VisibleRange : Type 0 where
  pub start : ℕ
  pub stop : ℕ

pub visible_range : (scroll_top viewport_h row_h total overscan : ℕ) → VisibleRange
visible_range scroll_top viewport_h row_h total overscan =
    if total == 0 || row_h == 0 || viewport_h == 0 then record { start = 0; stop = 0 } else record {
      start = scroll_top / row_h - overscan;
      stop = min total (ceil_div (scroll_top + viewport_h) row_h + overscan);
    }

-- The row at the content offset, which is `scroll_top + viewport_y`.
row_at : ℤ → ℕ → ℕ → Option ℕ
row_at (negsuc n) row_h total = none
row_at (pos y) row_h total = let index = y / row_h in if ltb index total then some index else none

unfoldable pub row_at_y : (viewport_y : ℤ) (scroll_top row_h total : ℕ) → Option ℕ
unfolding row_at
row_at_y viewport_y scroll_top row_h total =
    if row_h == 0 then none else row_at (pos scroll_top +ℤ viewport_y) row_h total

-- `current` is -1 when nothing is selected.
from_start : ℤ → ℕ
from_start (negsuc n) = 0
from_start (pos c) = c

clamp : ℕ → ℤ → ℕ
clamp last value = min last (at_least_zero value)

arrow : ℕ → ℤ → ℤ → ℕ
unfolding clamp
arrow last (negsuc n) by = 0
arrow last (pos c) by = clamp last (pos c +ℤ by)

unfoldable pub navigate_index : Text → ℤ → ℕ → ℕ → Option ℕ
unfolding arrow from_start
navigate_index key current total page_rows =
    let last = total - 1 in
    let page = max 1 (page_rows - 1) in
    if total == 0
    then none
    else if text_eq key (codes "ArrowDown")
    then some (arrow last current (pos 1))
    else if text_eq key (codes "ArrowUp")
    then some (arrow last current (negsuc 0))
    else if text_eq key (codes "PageDown")
    then some (clamp last (pos (from_start current) +ℤ pos page))
    else if text_eq key (codes "PageUp")
    then some (clamp last (pos (from_start current) -ℤ pos page))
    else if text_eq key (codes "Home")
    then some 0
    else if text_eq key (codes "End")
    then some last
    else none

-- Where the row at `top_index` went.
moved_top : ℕ → ℕ → ℕ → Option ℕ → ℕ
moved_top scroll_top row_h offset none = scroll_top
moved_top scroll_top row_h offset (some moved) = moved * row_h + offset

anchor_at : ℕ → ℕ → ℕ → Option Text → List Text → ℕ
unfolding moved_top
anchor_at scroll_top row_h top_index none next_shas = scroll_top
anchor_at scroll_top row_h top_index (some sha) next_shas =
    moved_top scroll_top row_h (scroll_top - top_index * row_h) (position_of sha next_shas)

pub anchored_scroll_top : ℕ → ℕ → List Text → List Text → ℕ
unfolding anchor_at
anchored_scroll_top scroll_top row_h previous_shas next_shas =
    let top_index = min (length previous_shas - 1) (scroll_top / row_h) in
    if row_h == 0 || length previous_shas == 0
    then scroll_top
    else anchor_at scroll_top row_h top_index (get_elem? previous_shas top_index) next_shas

-- The units of `relativeTime`, largest first.
abbrev pub units : List (ℕ × Text)
units =
    (60 * 60 * 24 * 365, codes "year")
    ∷ (60 * 60 * 24 * 30, codes "month")
    ∷ (60 * 60 * 24 * 7, codes "week")
    ∷ (60 * 60 * 24, codes "day")
    ∷ (60 * 60, codes "hour")
    ∷ (60, codes "minute")
    ∷ []

abbrev pub ago : ℕ → Text → Text
ago value name =
    decimal value
    ++ (codes " " ++ (name ++ ((if ltb 1 value then codes "s" else []) ++ codes " ago")))

in_units : ℕ → List (ℕ × Text) → Text
in_units delta [] = codes "just now"
in_units delta ((seconds, name) ∷ rest) =
    let later = in_units delta rest in
    let value = delta / seconds in if leb 1 value then ago value name else later

-- A time in the future has a negative age.
pub relative_time : (unix_seconds now_unix_seconds : ℕ) → Text
unfolding in_units
relative_time unix_seconds now_unix_seconds = elim (pos now_unix_seconds -ℤ pos unix_seconds) [
  | pos delta ↦ in_units delta units
  | negsuc n ↦ codes "just now"
]

-- The palette color of a lane.
unfoldable pub lane_color : ℕ → List Text → Option Text
lane_color lane palette = let n = length palette in get_elem? palette ((lane % n + n) % n)

-- Every row that the viewport shows a part of is drawn, and nothing past the last row is.
pub visible_range-covers :
    (scroll_top viewport_h row_h total overscan i : ℕ)
    → 0 < row_h
    → i < total
    → i * row_h < scroll_top + viewport_h
    → scroll_top < (i + 1) * row_h
    → 0 < viewport_h
    → let r = visible_range scroll_top viewport_h row_h total overscan in
      (r.start ≤ i) × (i < r.stop) × (r.stop ≤ total)
unfolding visible_range
visible_range-covers scroll_top viewport_h row_h total overscan i p q below above shown =
    ground (
      arith,
      div-le scroll_top i row_h above,
      lt-ceil_div (scroll_top + viewport_h) i row_h p below,
    )

-- A hit names the row whose band the offset is in.
pub row_at_y-band :
    (y : ℤ) (scroll_top row_h total i : ℕ)
    → row_at_y y scroll_top row_h total ≡ some i
    → (v : ℕ) × (pos scroll_top +ℤ y ≡ pos v)
      × (i * row_h ≤ v)
      × (v < (i + 1) * row_h)
      × (i < total)
unfolding row_at_y
row_at_y-band y scroll_top row_h total i h =
    let v = at_least_zero (pos scroll_top +ℤ y) in
    (
      v,
      ground arith,
      ground (arith, div-mul-le v row_h),
      ground (arith, lt-div-suc v row_h),
      ground arith,
    )

in_units_lem :
    (delta : ℕ) (table : List (ℕ × Text))
    → All (λ u. 0 < u.0) table
    → ((in_units delta table ≡ codes "just now") × All (λ u. delta < u.0) table)
      ⊎ ((u : ℕ × Text) × (v : ℕ) × (in_units delta table ≡ ago v u.1)
          × ((0 < v) × (v * u.0 ≤ delta) × (delta < (v + 1) * u.0)))
unfolding in_units
in_units_lem delta [] p = inl (refl, tt)
in_units_lem delta ((s, name) ∷ rest) p = elim (Bool-cases (leb 1 (delta / s))) [
  | inl one ↦ inr (
    (s, name),
    delta / s,
    rw one,
    (leb→le 1 (delta / s) one, div-mul-le delta s, lt-div-suc delta s p.0),
  )
  | inr zero_of ↦
      let below : delta < s = grind (arith, lt-div-suc delta s p.0, leb→lt 1 (delta / s) zero_of) in
      elim (in_units_lem delta rest p.1) [
        | inl (e, a) ↦ inl (rw zero_of e, (below, a))
        | inr (u, v, e, b) ↦ inr (u, v, rw zero_of e, b)
      ]
]

-- The text of a past date names a unit and a count of it, at least one, that the age has completed
-- and has not passed by a whole unit; an age below every unit, and a date ahead, reads 'just now'.
pub relative_time_exact :
    (unix_seconds now_unix_seconds : ℕ)
    → let delta = now_unix_seconds - unix_seconds in
      ((relative_time unix_seconds now_unix_seconds ≡ codes "just now") × (delta < 60))
      ⊎ ((u : ℕ × Text) × (v : ℕ) × (relative_time unix_seconds now_unix_seconds ≡ ago v u.1)
          × ((0 < v) × (v * u.0 ≤ delta) × (delta < (v + 1) * u.0)))
unfolding relative_time
relative_time_exact unix_seconds now_unix_seconds =
    elim (Bool-cases (leb unix_seconds now_unix_seconds)) [
      | inl past ↦
          let delta = now_unix_seconds - unix_seconds in
          let e : relative_time unix_seconds now_unix_seconds ≡ in_units delta units =
            ground (arith, past) in
          elim (in_units_lem delta units (omega arith)) [
            | inl (r, a) ↦ inl (e ∙ r, a.1.1.1.1.1.0)
            | inr (u, v, r, b) ↦ inr (u, v, e ∙ r, b)
          ]
      | inr ahead ↦ inl (ground (arith, ahead), ground (arith, ahead))
    ]

-- A key never moves the focus out of the list: a target that it has is one of the rows.
pub navigate_index-lt :
    (key : Text) (current : ℤ) (total page_rows i : ℕ)
    → navigate_index key current total page_rows ≡ some i
    → i < total
unfolding navigate_index
navigate_index-lt key current total page_rows i h = ground arith

-- When the row at the top of the view is still in the list after a refresh, the scroll position moves
-- by as much as that row did, so that what was in view stays at its height.
pub anchored_scroll_top-same_height :
    (scroll_top row_h : ℕ) (previous_shas next_shas : List Text) (sha : Text) (top moved : ℕ)
    → 0 < row_h
    → top ≡ min (length previous_shas - 1) (scroll_top / row_h)
    → get_elem? previous_shas top ≡ some sha
    → position_of sha next_shas ≡ some moved
    → anchored_scroll_top scroll_top row_h previous_shas next_shas + top * row_h
      ≡ scroll_top + moved * row_h
unfolding anchored_scroll_top
anchored_scroll_top-same_height scroll_top row_h [] next_shas sha top moved p e s m = cc
anchored_scroll_top-same_height scroll_top row_h (x ∷ xs) next_shas sha top moved p e s m =
    let t = min (length (x ∷ xs) - 1) (scroll_top / row_h) in
    let fits : t * row_h ≤ scroll_top =
      grind (arith, mul_mono t (scroll_top / row_h) row_h, div-mul-le scroll_top row_h) in
    let same : anchored_scroll_top scroll_top row_h (x ∷ xs) next_shas
        ≡ moved * row_h + (scroll_top - t * row_h) =
      ground (arith, ap (get_elem? (x ∷ xs)) e) in
    ground (arith, fits, same, e)
