-- ===== src/Timeline/Lanes/Bounds.antt =====
-- extension/webviews-src/timeline/timelineLogic.ts: every commit has a lane, and the lanes are bounded.
use gitglasses.Base.{
  ltb→lt, length-take, All-append, drop, take, length-append, text_eq, ltb, if◌then◌else◌,
  Bool-cases, ◌≤◌, ◌+◌, length, ◌<◌, Bool, All, Text, List, ℕ, suc, refl, [], ◌∷◌, inl, inr, ◌++◌,
  ◌≡◌, arith,
}
use gitglasses.Timeline.Lanes.{
  pool_churn, others_lane, stays_before, author_key, lookup, Total, TimelineEntry, lane_or_last,
  lane_for_entry, totals_of, sort_totals, pool_keys, number_lanes, named_lanes, insert_total,
  assign_sorted, assign_author_lanes, add_churn,
}

abbrev Below : ℕ → List (Text × ℕ) → Type 0
Below n = All (λ e. e.1 < n)

lookup-Below :
    (n : ℕ) (key : Text) (m : List (Text × ℕ))
    → Below n m
    → 0 < n
    → lane_or_last (lookup key m) n < n
unfolding lane_or_last
lookup-Below n key [] b h = omega arith
lookup-Below n key ((k, i) ∷ m) b h = elim (Bool-cases (text_eq k key)) [
  | inl e ↦ rw e b.0
  | inr e ↦ rw e (lookup-Below n key m b.1 h)
]

number_lanes-Below :
    (n index : ℕ) (ts : List (Text × Total))
    → index + length ts ≤ n
    → Below n (number_lanes index ts)
unfolding number_lanes
number_lanes-Below n index [] h = tt
number_lanes-Below n index (t ∷ ts) h =
    (omega arith, number_lanes-Below n (suc index) ts (omega arith))

pool_keys-Below :
    (n index : ℕ) (ts : List (Text × Total)) → index < n → Below n (pool_keys index ts)
unfolding pool_keys
pool_keys-Below n index [] h = tt
pool_keys-Below n index (t ∷ ts) h = (h, pool_keys-Below n index ts h)

length-named_lanes : (ts : List (Text × Total)) → length (named_lanes ts) ≡ length ts
unfolding named_lanes
length-named_lanes [] = refl
length-named_lanes (t ∷ ts) = omega (arith, length-named_lanes ts)

-- As many lanes as authors, or one more than are named.
length-assign_sorted :
    (ts : List (Text × Total)) (n : ℕ)
    → length (assign_sorted ts n).lanes ≡ (if ltb n (length ts) then suc n else length ts)
unfolding assign_sorted
length-assign_sorted ts n = elim (Bool-cases (ltb n (length ts))) [
  | inl e ↦ rw e (
      omega (
        arith,
        length-append (named_lanes (take n ts)) (others_lane (pool_churn (drop n ts)) ∷ []),
        length-named_lanes (take n ts),
        length-take n ts,
        ltb→lt n (length ts) e,
      ))
  | inr e ↦ rw e (length-named_lanes ts)
]

assign_sorted-Below :
    (ts : List (Text × Total)) (n : ℕ)
    → Below (length (assign_sorted ts n).lanes) (assign_sorted ts n).lane_by_author
unfolding assign_sorted
assign_sorted-Below ts n = elim (Bool-cases (ltb n (length ts))) [
  | inl e ↦
      let size =
        length-append (named_lanes (take n ts)) (others_lane (pool_churn (drop n ts)) ∷ []) in
      let named = length-named_lanes (take n ts) in
      rw e (
        All-append
          (λ x. x.1 < length (named_lanes (take n ts) ++ others_lane (pool_churn (drop n ts)) ∷ []))
          (number_lanes 0 (take n ts)) (pool_keys (length (named_lanes (take n ts))) (drop n ts))
          (number_lanes-Below _ 0 (take n ts) (omega (arith, size, named)))
          (pool_keys-Below _ (length (named_lanes (take n ts))) (drop n ts) (omega (arith, size))))
  | inr e ↦
      rw e
        (number_lanes-Below (length (named_lanes ts)) 0 ts (omega (arith, length-named_lanes ts)))
]

length-insert_total :
    (name_le : Text → Text → Bool) (t : Text × Total) (ts : List (Text × Total))
    → length (insert_total name_le t ts) ≡ suc (length ts)
unfolding insert_total
length-insert_total name_le t [] = refl
length-insert_total name_le t (u ∷ us) = elim (Bool-cases (stays_before name_le t.1 u.1)) [
  | inl e ↦ rw e refl
  | inr e ↦ rw e (omega (arith, length-insert_total name_le t us))
]

length-sort_totals :
    (name_le : Text → Text → Bool) (ts : List (Text × Total))
    → length (sort_totals name_le ts) ≡ length ts
unfolding sort_totals
length-sort_totals name_le [] = refl
length-sort_totals name_le (t ∷ ts) =
    omega
      (arith, length-insert_total name_le t (sort_totals name_le ts), length-sort_totals name_le ts)

length-add_churn :
    (key name : Text) (churn : ℕ) (ts : List (Text × Total))
    → (1 ≤ length (add_churn key name churn ts))
      × (length ts ≤ length (add_churn key name churn ts))
unfolding add_churn
length-add_churn key name churn [] = (omega arith, omega arith)
length-add_churn key name churn ((k, t) ∷ ts) = elim (Bool-cases (text_eq k key)) [
  | inl e ↦ rw e (omega arith, omega arith)
  | inr e ↦ let (a, b) = length-add_churn key name churn ts in rw e (omega arith, omega arith)
]

length-totals_of :
    (lower : Text → Text) (es : List TimelineEntry) (ts : List (Text × Total))
    → length ts ≤ length (totals_of lower es ts)
unfolding totals_of
length-totals_of lower [] ts = omega arith
length-totals_of lower (e ∷ es) ts =
    let key = author_key lower e in
    let (a, b) = length-add_churn key e.name (e.additions + e.deletions) ts in
    omega (arith, length-totals_of lower es (add_churn key e.name (e.additions + e.deletions) ts))

-- There are at most `max_lanes` lanes and one for the others; and in a history with a commit, the lane
-- of every commit, of the history or not, is one of them.
pub lane_for_entry-assign_author_lanes :
    (lower : Text → Text) (name_le : Text → Text → Bool) (first : TimelineEntry)
    (entries : List TimelineEntry) (max_lanes : ℕ) (entry : TimelineEntry)
    → let assignment = assign_author_lanes lower name_le (first ∷ entries) max_lanes in
      (length assignment.lanes ≤ suc max_lanes)
      × (lane_for_entry lower assignment entry < length assignment.lanes)
unfolding assign_author_lanes lane_for_entry totals_of
lane_for_entry-assign_author_lanes lower name_le first entries max_lanes entry =
    let start =
      add_churn (author_key lower first) first.name (first.additions + first.deletions) [] in
    let totals = totals_of lower entries start in
    let sorted = sort_totals name_le totals in
    let some_total : 1 ≤ length sorted = omega (
      arith,
      length-sort_totals name_le totals,
      length-totals_of lower entries start,
      length-add_churn (author_key lower first) first.name (first.additions + first.deletions) [],
    ) in
    let size = length-assign_sorted sorted max_lanes in
    (
      ground (arith, size),
      lookup-Below (length (assign_sorted sorted max_lanes).lanes) (author_key lower entry)
          (assign_sorted sorted max_lanes).lane_by_author (assign_sorted-Below sorted max_lanes)
          (ground (arith, size, some_total)),
    )
