-- ===== src/Timeline/Lanes/Churn.antt =====
-- extension/webviews-src/timeline/timelineLogic.ts: the lanes share out the churn of the history.
use gitglasses.Base.{
  take-append-drop, ap, drop, take, length, text_eq, ltb, ◌+◌, Bool-cases, Bool, Text, List, ℕ,
  refl, [], ◌∷◌, inl, inr, ◌++◌, ◌≡◌, arith,
}
use gitglasses.Timeline.Lanes.{
  stays_before, author_key, sort_totals, insert_total, others_lane, add_churn, Total, TimelineEntry,
  AuthorLane, totals_of, pool_churn, named_lanes, assign_sorted, assign_author_lanes,
}

pub entries_churn : List TimelineEntry → ℕ
entries_churn [] = 0
entries_churn (e ∷ es) = e.additions + e.deletions + entries_churn es

pub lanes_churn : List AuthorLane → ℕ
lanes_churn [] = 0
lanes_churn (l ∷ ls) = l.churn + lanes_churn ls

pool_churn-add_churn :
    (key name : Text) (churn : ℕ) (totals : List (Text × Total))
    → pool_churn (add_churn key name churn totals) ≡ pool_churn totals + churn
unfolding pool_churn add_churn
pool_churn-add_churn key name churn [] = omega arith
pool_churn-add_churn key name churn ((k, t) ∷ totals) = elim (Bool-cases (text_eq k key)) [
  | inl e ↦ rw e (omega arith)
  | inr e ↦ rw e (omega (arith, pool_churn-add_churn key name churn totals))
]

pool_churn-totals_of :
    (lower : Text → Text) (es : List TimelineEntry) (totals : List (Text × Total))
    → pool_churn (totals_of lower es totals) ≡ pool_churn totals + entries_churn es
unfolding totals_of entries_churn
pool_churn-totals_of lower [] totals = omega arith
pool_churn-totals_of lower (e ∷ es) totals =
    let key = author_key lower e in
    omega (
      arith,
      pool_churn-totals_of lower es (add_churn key e.name (e.additions + e.deletions) totals),
      pool_churn-add_churn key e.name (e.additions + e.deletions) totals,
    )

module _ (name_le : Text → Text → Bool) where
  pool_churn-insert_total :
      (t : Text × Total) (ts : List (Text × Total))
      → pool_churn (insert_total name_le t ts) ≡ t.1.churn + pool_churn ts
  unfolding pool_churn insert_total
  pool_churn-insert_total t [] = refl
  pool_churn-insert_total t (u ∷ us) = elim (Bool-cases (stays_before name_le t.1 u.1)) [
    | inl e ↦ rw e refl
    | inr e ↦ rw e (omega (arith, pool_churn-insert_total t us))
  ]

  pool_churn-sort_totals :
      (ts : List (Text × Total)) → pool_churn (sort_totals name_le ts) ≡ pool_churn ts
  unfolding pool_churn sort_totals
  pool_churn-sort_totals [] = refl
  pool_churn-sort_totals (t ∷ ts) =
      omega (arith, pool_churn-insert_total t (sort_totals name_le ts), pool_churn-sort_totals ts)

lanes_churn-append :
    (ls ms : List AuthorLane) → lanes_churn (ls ++ ms) ≡ lanes_churn ls + lanes_churn ms
unfolding lanes_churn
lanes_churn-append [] ms = omega arith
lanes_churn-append (l ∷ ls) ms = omega (arith, lanes_churn-append ls ms)

lanes_churn-named_lanes : (ts : List (Text × Total)) → lanes_churn (named_lanes ts) ≡ pool_churn ts
unfolding lanes_churn named_lanes pool_churn
lanes_churn-named_lanes [] = refl
lanes_churn-named_lanes (t ∷ ts) = omega (arith, lanes_churn-named_lanes ts)

pool_churn-append :
    (ts us : List (Text × Total)) → pool_churn (ts ++ us) ≡ pool_churn ts + pool_churn us
unfolding pool_churn
pool_churn-append [] us = omega arith
pool_churn-append (t ∷ ts) us = omega (arith, pool_churn-append ts us)

lanes_churn-assign_sorted :
    (ts : List (Text × Total)) (n : ℕ) → lanes_churn (assign_sorted ts n).lanes ≡ pool_churn ts
unfolding assign_sorted lanes_churn others_lane
lanes_churn-assign_sorted ts n = elim (Bool-cases (ltb n (length ts))) [
  | inl e ↦ rw e (
      omega (
        arith,
        lanes_churn-append (named_lanes (take n ts)) (others_lane (pool_churn (drop n ts)) ∷ []),
        lanes_churn-named_lanes (take n ts),
        pool_churn-append (take n ts) (drop n ts),
        ap pool_churn (take-append-drop n ts),
      ))
  | inr e ↦ rw e (lanes_churn-named_lanes ts)
]

-- The lanes' churn adds up to the churn of the history, whatever the number of lanes.
pub assign_author_lanes-churn :
    (lower : Text → Text) (name_le : Text → Text → Bool) (entries : List TimelineEntry)
    (max_lanes : ℕ)
    → lanes_churn (assign_author_lanes lower name_le entries max_lanes).lanes
      ≡ entries_churn entries
unfolding assign_author_lanes pool_churn
assign_author_lanes-churn lower name_le entries max_lanes = omega (
  arith,
  lanes_churn-assign_sorted (sort_totals name_le (totals_of lower entries [])) max_lanes,
  pool_churn-sort_totals name_le (totals_of lower entries []),
  pool_churn-totals_of lower entries [],
)
