-- ===== src/Graph/Lanes.antt =====
-- Lane geometry of graphLogic.ts.
use native.Mathlib.Nat.{le_trans}
use gitglasses.Base.{
  subst, div-mul-le, mul_mono, lt-div-suc, le_of_mul_lt, arith, ◌≤◌, ◌/◌, false, ◌-◌, ◌&&◌, true,
  min, leb, ◌≡◌, ◌<◌, ◌+◌, ◌*◌, max, if◌then◌else◌, Bool, ℕ,
}

pub lane_x : (lane padding lane_width : ℕ) → ℕ
lane_x lane padding lane_width = padding + lane * lane_width

-- With no lane, `Math.max(0, laneCount - 1)` is 0.
unfoldable pub graph_column_width : (lane_count padding lane_width : ℕ) → ℕ
graph_column_width lane_count padding lane_width =
    padding * 2 + (lane_count - 1) * lane_width + lane_width

abbrev pub min_shown_lanes : ℕ
min_shown_lanes = 4

pub record LaneCap : Type 0 where
  pub shown : ℕ
  pub overflow : Bool
  pub hidden : ℕ

-- `Math.floor((viewportW * 0.4 - padding * 2) / laneWidth)` over a common denominator; where the
-- source's value is negative, this one is 0, and both lie below `min_shown_lanes`.
lanes_by_width : (viewport_w padding lane_width : ℕ) → ℕ
lanes_by_width viewport_w padding lane_width = (viewport_w * 2 - padding * 10) / (lane_width * 5)

lane_limit : (max_lanes viewport_w padding lane_width : ℕ) → ℕ
unfolding lanes_by_width
lane_limit max_lanes viewport_w padding lane_width =
    max min_shown_lanes (min max_lanes (lanes_by_width viewport_w padding lane_width))

unfoldable pub lane_cap : (lane_count max_lanes viewport_w padding lane_width : ℕ) → LaneCap
unfolding lane_limit
lane_cap lane_count max_lanes viewport_w padding lane_width =
    let limit = lane_limit max_lanes viewport_w padding lane_width in
    if leb lane_count limit
    then record { shown = max 1 lane_count; overflow = false; hidden = 0 }
    else record { shown = limit; overflow = true; hidden = lane_count - (limit - 1) }

-- The column a lane is drawn in.
unfoldable pub display_lane : ℕ → LaneCap → ℕ
display_lane lane cap = if cap.overflow && leb (cap.shown - 1) lane then cap.shown - 1 else lane

-- Under any cap of the graph's lanes every lane is drawn in a column that is shown, lanes left of
-- the overflow column keep their own, and exactly the hidden lanes share the last one.
pub display_lane-lane_cap :
    (lane_count max_lanes viewport_w padding lane_width lane : ℕ)
    → lane < lane_count
    → let cap = lane_cap lane_count max_lanes viewport_w padding lane_width in
      (display_lane lane cap < cap.shown)
      × (lane + 1 < cap.shown → display_lane lane cap ≡ lane)
      × (cap.overflow ≡ true
          → (cap.shown - 1 + cap.hidden ≡ lane_count)
            × (cap.shown ≤ lane + 1 → display_lane lane cap ≡ cap.shown - 1))
unfolding lane_cap display_lane lane_limit
display_lane-lane_cap lane_count max_lanes viewport_w padding lane_width lane h =
    (ground arith, ground arith, λ o. (ground arith, ground arith))

column_fits :
    (k padding lane_width viewport_w : ℕ)
    → (k + 1) * (lane_width * 5) ≤ viewport_w * 2 - padding * 10
    → padding * 10 ≤ viewport_w * 2
    → (padding * 2 + k * lane_width + lane_width) * 5 ≤ viewport_w * 2
column_fits k padding lane_width viewport_w h p = omega arith

-- Where at least four lanes fit, the graph column of a capped graph takes no more than 40% of the
-- viewport.
pub graph_column_width-lane_cap :
    (lane_count max_lanes viewport_w padding lane_width : ℕ)
    → let cap = lane_cap lane_count max_lanes viewport_w padding lane_width in
      cap.overflow ≡ true
      → 0 < lane_width
      → padding * 10 + lane_width * 20 ≤ viewport_w * 2
      → graph_column_width cap.shown padding lane_width * 5 ≤ viewport_w * 2
unfolding lane_cap graph_column_width lane_limit
graph_column_width-lane_cap lane_count max_lanes viewport_w padding lane_width o w r =
    let room = viewport_w * 2 - padding * 10 in
    let fit = room / (lane_width * 5) in
    let shown = max min_shown_lanes (min max_lanes fit) in
    let four : 4 ≤ fit =
      le_of_mul_lt 4 fit (lane_width * 5)
        (omega (arith, lt-div-suc room (lane_width * 5) (omega arith))) in
    let at_most : shown ≤ fit = omega (arith, four) in
    let narrow : shown * (lane_width * 5) ≤ room =
      le_trans (mul_mono shown fit (lane_width * 5) at_most) (div-mul-le room (lane_width * 5)) in
    let wide : (padding * 2 + (shown - 1) * lane_width + lane_width) * 5 ≤ viewport_w * 2 =
      column_fits (shown - 1) padding lane_width viewport_w
        (subst (λ k. k * (lane_width * 5) ≤ room) (omega (arith, four)) narrow) (omega arith) in
    ground (arith, wide)
