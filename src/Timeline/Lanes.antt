-- ===== src/Timeline/Lanes.antt =====
-- extension/webviews-src/timeline/timelineLogic.ts: `assignAuthorLanes` and `laneForEntry`. `lower` is
-- `toLowerCase` and `name_le` says that `localeCompare` is not positive; both read Unicode tables.
pub mod Churn
pub mod Bounds
use gitglasses.Base.{
  ◌&&◌, ◌==◌, ◌||◌, text_eq, ltb, length, drop, ◌-◌, ◌+◌, take, if◌then◌else◌, Bool, trim, codes,
  Text, Option, List, ℕ, zero, suc, refl, [], ◌∷◌, true, false, none, some, inl, inr, ◌++◌, ◌≡◌,
  arith,
}
use gitglasses.Base.Maps.{lookup}

pub record TimelineEntry : Type 0 where
  pub name : Text
  pub email : Text
  pub additions : ℕ
  pub deletions : ℕ

pub record AuthorLane : Type 0 where
  pub label : Text
  pub churn : ℕ
  pub others : Bool

pub record LaneAssignment : Type 0 where
  pub lanes : List AuthorLane
  pub lane_by_author : List (Text × ℕ)

-- An author's name and churn, by the author's key.
pub record Total : Type 0 where
  pub name : Text
  pub churn : ℕ

abbrev pub max_author_lanes : ℕ
max_author_lanes = 8

pub author_key : (Text → Text) → TimelineEntry → Text
unfolding trim
author_key lower entry = elim (lower (trim entry.email)) [
  | [] ↦ lower (trim entry.name)
  | c ∷ email ↦ c ∷ email
]

pub add_churn : Text → Text → ℕ → List (Text × Total) → List (Text × Total)
add_churn key name churn [] = (key, record { name = name; churn = churn }) ∷ []
add_churn key name churn ((k, t) ∷ totals) =
    let rest = add_churn key name churn totals in
    if text_eq k key then (k, record t { churn = t.churn + churn }) ∷ totals else (k, t) ∷ rest

pub totals_of : (Text → Text) → List TimelineEntry → List (Text × Total) → List (Text × Total)
unfolding add_churn author_key
totals_of lower [] totals = totals
totals_of lower (e ∷ es) totals =
    totals_of lower es (add_churn (author_key lower e) e.name (e.additions + e.deletions) totals)

-- The comparator is not positive.
stays_before : (Text → Text → Bool) → Total → Total → Bool
stays_before name_le a b = ltb b.churn a.churn || a.churn == b.churn && name_le a.name b.name

-- `sort`, which is stable.
pub insert_total : (Text → Text → Bool) → Text × Total → List (Text × Total) → List (Text × Total)
unfolding stays_before
insert_total name_le t [] = t ∷ []
insert_total name_le t (u ∷ us) =
    let rest = insert_total name_le t us in
    if stays_before name_le t.1 u.1 then t ∷ u ∷ us else u ∷ rest

pub sort_totals : (Text → Text → Bool) → List (Text × Total) → List (Text × Total)
unfolding insert_total
sort_totals name_le [] = []
sort_totals name_le (t ∷ ts) = insert_total name_le t (sort_totals name_le ts)

pub named_lanes : List (Text × Total) → List AuthorLane
named_lanes [] = []
named_lanes ((k, t) ∷ ts) =
    record { label = t.name; churn = t.churn; others = false } ∷ named_lanes ts

-- The keys of the named lanes, from lane `index` on.
pub number_lanes : ℕ → List (Text × Total) → List (Text × ℕ)
number_lanes index [] = []
number_lanes index ((k, t) ∷ ts) = (k, index) ∷ number_lanes (suc index) ts

pub pool_keys : ℕ → List (Text × Total) → List (Text × ℕ)
pool_keys index [] = []
pool_keys index ((k, t) ∷ ts) = (k, index) ∷ pool_keys index ts

pub pool_churn : List (Text × Total) → ℕ
pool_churn [] = 0
pool_churn ((k, t) ∷ ts) = t.churn + pool_churn ts

others_lane : ℕ → AuthorLane
others_lane churn = record { label = codes "Others"; churn = churn; others = true }

pub assign_sorted : List (Text × Total) → ℕ → LaneAssignment
unfolding named_lanes number_lanes pool_keys pool_churn others_lane
assign_sorted sorted max_lanes =
    let named = take max_lanes sorted in
    let pooled = drop max_lanes sorted in
    let index = length (named_lanes named) in
    if ltb max_lanes (length sorted)
    then record {
      lanes = named_lanes named ++ others_lane (pool_churn pooled) ∷ [];
      lane_by_author = number_lanes 0 named ++ pool_keys index pooled;
    }
    else record { lanes = named_lanes sorted; lane_by_author = number_lanes 0 sorted }

unfoldable pub assign_author_lanes :
    (Text → Text) → (Text → Text → Bool) → List TimelineEntry → ℕ → LaneAssignment
unfolding assign_sorted totals_of sort_totals
assign_author_lanes lower name_le entries max_lanes =
    assign_sorted (sort_totals name_le (totals_of lower entries [])) max_lanes

lane_or_last : Option ℕ → ℕ → ℕ
lane_or_last none lanes = lanes - 1
lane_or_last (some lane) lanes = lane

pub lane_for_entry : (Text → Text) → LaneAssignment → TimelineEntry → ℕ
unfolding lane_or_last author_key
lane_for_entry lower assignment entry =
    lane_or_last (lookup (author_key lower entry) assignment.lane_by_author)
      (length assignment.lanes)
