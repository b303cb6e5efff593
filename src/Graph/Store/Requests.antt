-- ===== src/Graph/Store/Requests.antt =====
-- extension/webviews-src/graph/store.ts: the guard on the request for the next page.
use gitglasses.Base.{
  ltb, not, ◌==◌, leb, length-append, Bool-cases, Option-cases, ◌+◌, ◌≤◌, length, if◌then◌else◌,
  Option, List, Text, ℕ, [], ◌∷◌, true, false, none, some, inl, inr, ◌++◌, arith,
}
use gitglasses.Graph.Store.{
  GraphStore, Event, rows_come, resets, scrolls, selects, asks_index, fails, restores, on_error,
  accept_rows, begin_load_more, should_load_more, step, run, on_rows, on_reset, reset, append_page,
  replace_all, shas, select_index, index_of, load_more_threshold_rows,
}
use gitglasses.Graph.Store.Caches.{shas-cached, indices-cached}
use gitglasses.Graph.Store.Restores.{restore_selection-IsKept}

listed : Option Text → List Text
listed none = []
listed (some cursor) = cursor ∷ []

-- The cursors of the pages that are asked for.
unfoldable pub asked : List Event → GraphStore → List Text
unfolding listed step
asked [] s = []
asked (event ∷ events) s = listed (step event s).0 ++ asked events (step event s).1

-- Whether an event ends a request: rows that are accepted, a reset, or an error.
releases : Event → GraphStore → ℕ
releases (rows_come generation replace rows cursor) s =
    if (accept_rows generation replace s).0 then 1 else 0
releases (resets generation) s = 1
releases fails s = 1
releases event s = 0

pub answers : List Event → GraphStore → ℕ
unfolding releases step
answers [] s = 0
answers (event ∷ events) s = releases event s + answers events (step event s).1

abbrev pub flight : GraphStore → ℕ
flight s = if s.request_in_flight then 1 else 0

begin_load_more-flight :
    (visible_end : ℕ) (s : GraphStore)
    → length (listed (begin_load_more visible_end s).0) + flight s
      ≤ flight (begin_load_more visible_end s).1
unfolding begin_load_more should_load_more listed
begin_load_more-flight visible_end s = elim (Option-cases s.next_cursor) [
  | inl e ↦ rw e (omega arith)
  | inr (cursor, e) ↦ elim (Bool-cases s.request_in_flight) [
    | inl f ↦ rw (e, f) (omega arith)
    | inr f ↦ elim (Bool-cases (leb (length s.rows) (visible_end + load_more_threshold_rows))) [
      | inl near ↦ rw (e, f, near) (omega arith)
      | inr far ↦ rw (e, f, far) (omega arith)
    ]
  ]
]

flight-le : (s : GraphStore) → flight s ≤ 1
flight-le s = ground arith

step-flight :
    (event : Event) (s : GraphStore)
    → length (listed (step event s).0) + flight s ≤ releases event s + flight (step event s).1
unfolding step releases listed on_rows accept_rows on_reset reset append_page replace_all shas
    select_index index_of on_error
step-flight (rows_come generation true rows cursor) s =
    elim (Bool-cases (ltb generation s.generation)) [
      | inl stale ↦ rw stale (omega arith)
      | inr fresh ↦ rw fresh (omega (arith, flight-le s))
    ]
step-flight (rows_come generation false rows cursor) s =
    elim (Bool-cases (not (generation == s.generation))) [
      | inl stale ↦ rw stale (omega arith)
      | inr fresh ↦ rw fresh (omega (arith, flight-le s))
    ]
step-flight (resets generation) s = omega (arith, flight-le s)
step-flight (scrolls visible_end) s = omega (arith, begin_load_more-flight visible_end s)
step-flight (selects index m) s = rw (shas-cached s) (omega arith)
step-flight (asks_index sha) s = rw (indices-cached s) (omega arith)
step-flight fails s = omega (arith, flight-le s)
step-flight (restores selected) s = rw ((restore_selection-IsKept selected s).2) (omega arith)

-- Along every run of pages, snapshots, resets, clicks, lookups, errors and restored selections, the pages that are asked
-- for are no more than the answers that the store accepts, the resets, the error messages and the one request that is
-- still in flight.
pub asked-answers :
    (events : List Event) (s : GraphStore)
    → length (asked events s) + flight s ≤ answers events s + flight (run events s)
unfolding asked answers run
asked-answers [] s = omega arith
asked-answers (event ∷ events) s = omega (
  arith,
  step-flight event s,
  asked-answers events (step event s).1,
  length-append (listed (step event s).0) (asked events (step event s).1),
)
