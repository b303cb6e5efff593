-- ===== src/Graph/Store.antt =====
-- extension/webviews-src/graph/store.ts: the class `GraphStore`, with `onRows`, the reset, the error,
-- `selectIndex` and `applyRestore` of extension/webviews-src/graph/main.ts, as far as these change the store. A row has the fields that the store reads.
pub mod Lanes
pub mod Caches
pub mod Indices
pub mod Restores
pub mod Runs
pub mod Requests
pub mod Generations
mod Examples
use gitglasses.Base.{
  ltb, leb, not, ◌==◌, ◌||◌, ◌+◌, get_elem?, keep_if, length, map, if◌then◌else◌, Option, Bool,
  List, Text, ℕ, zero, suc, refl, [], ◌∷◌, true, false, none, some, inl, inr, ◌++◌, ◌≡◌, arith,
}
use gitglasses.Base.Int.{ℤ, pos, negsuc}
use gitglasses.Base.Sets.{has, set_of}
use gitglasses.Base.Maps.{lookup, set_key}
use gitglasses.Graph.Edges.{LaneEdge}
use gitglasses.Graph.Selection.{
  SelectionState, ClickModifiers, empty_selection, reduce_selection, remap_selection,
}

pub record GraphRow : Type 0 where
  pub sha : Text
  pub lane : ℕ
  pub lane_edges : List LaneEdge

abbrev pub load_more_threshold_rows : ℕ
load_more_threshold_rows = 20

pub record GraphStore : Type 0 where
  pub rows : List GraphRow
  pub next_cursor : Option Text
  pub selection : SelectionState
  pub request_in_flight : Bool
  pub generation : ℕ
  pub max_lane : ℕ
  pub sha_cache : Option (List Text)
  pub index_cache : Option (List (Text × ℕ))

abbrev pub new_store : GraphStore
new_store = record {
  rows = [];
  next_cursor = none;
  selection = empty_selection;
  request_in_flight = false;
  generation = 0;
  max_lane = 0;
  sha_cache = none;
  index_cache = none;
}

abbrev pub raise : ℕ → ℕ → ℕ
raise lane max_lane = if ltb max_lane lane then lane else max_lane

pub widen_edges : List LaneEdge → ℕ → ℕ
widen_edges [] max_lane = max_lane
widen_edges (edge ∷ edges) max_lane =
    widen_edges edges (raise edge.to_lane (raise edge.from_lane max_lane))

pub widen : GraphRow → ℕ → ℕ
unfolding widen_edges
widen row max_lane = widen_edges row.lane_edges (raise row.lane max_lane)

-- `widen` for row after row.
pub widen_all : List GraphRow → ℕ → ℕ
unfolding widen
widen_all [] max_lane = max_lane
widen_all (row ∷ rows) max_lane = widen_all rows (widen row max_lane)

abbrev pub row_shas : List GraphRow → List Text
row_shas = map (λ row. row.sha)

abbrev pub forget_caches : GraphStore → GraphStore
forget_caches s = record s { sha_cache = none; index_cache = none }

-- The shas, and the store with them in its cache.
pub shas : GraphStore → List Text × GraphStore
shas s = elim s.sha_cache [
  | some cached ↦ (cached, s)
  | none ↦ (row_shas s.rows, record s { sha_cache = some (row_shas s.rows) })
]

pub index_rows : ℕ → List GraphRow → List (Text × ℕ) → List (Text × ℕ)
index_rows i [] index = index
index_rows i (row ∷ rows) index = index_rows (suc i) rows (set_key row.sha i index)

-- The index of the rows, and the store with it in its cache.
pub indices : GraphStore → List (Text × ℕ) × GraphStore
unfolding index_rows
indices s = elim s.index_cache [
  | some cached ↦ (cached, s)
  | none ↦ (index_rows 0 s.rows [], record s { index_cache = some (index_rows 0 s.rows []) })
]

pub index_or_missing : Option ℕ → ℤ
index_or_missing none = negsuc 0
index_or_missing (some i) = pos i

pub index_of : Text → GraphStore → ℤ × GraphStore
unfolding indices index_or_missing
index_of sha s = let (index, s') = indices s in (index_or_missing (lookup sha index), s')

pub accept_rows : ℕ → Bool → GraphStore → Bool × GraphStore
accept_rows generation replace s =
    if (if replace then ltb generation s.generation else not (generation == s.generation))
    then (false, s)
    else (true, record s { generation = generation })

pub append_page : List GraphRow → Option Text → GraphStore → GraphStore
unfolding widen_all
append_page rows next_cursor s = record (forget_caches s) {
  rows = s.rows ++ rows;
  max_lane = widen_all rows s.max_lane;
  next_cursor = next_cursor;
  request_in_flight = false;
}

pub replace_all : List GraphRow → Option Text → GraphStore → GraphStore
unfolding shas widen_all
replace_all rows next_cursor s =
    let (previous, s') = shas s in
    let (next, s'') =
      shas (record (forget_caches s') { rows = rows; max_lane = widen_all rows 0 }) in
    record s'' {
      selection = remap_selection s''.selection previous next;
      next_cursor = next_cursor;
      request_in_flight = false;
    }

pub reset : GraphStore → GraphStore
reset s = record (forget_caches s) {
  rows = [];
  max_lane = 0;
  next_cursor = none;
  selection = empty_selection;
  request_in_flight = false;
}

pub should_load_more : ℕ → GraphStore → Bool
should_load_more visible_end s = elim s.next_cursor [
  | none ↦ false
  | some cursor ↦
      if s.request_in_flight
      then false
      else leb (length s.rows) (visible_end + load_more_threshold_rows)
]

pub begin_load_more : ℕ → GraphStore → Option Text × GraphStore
unfolding should_load_more
begin_load_more visible_end s =
    if should_load_more visible_end s
    then (s.next_cursor, record s { request_in_flight = true })
    else (none, s)

pub selected_rows : GraphStore → List GraphRow
selected_rows s = keep_if (λ row. has row.sha s.selection.selected) s.rows

pub row_at : ℤ → List GraphRow → Option GraphRow
row_at (negsuc n) rows = none
row_at (pos i) rows = get_elem? rows i

pub anchor_row : GraphStore → Option GraphRow
unfolding row_at
anchor_row s = row_at s.selection.anchor s.rows

-- `onRows` of main.ts.
pub on_rows : ℕ → Bool → List GraphRow → Option Text → GraphStore → GraphStore
unfolding accept_rows append_page replace_all
on_rows generation replace rows next_cursor s =
    let (accepted, s') = accept_rows generation replace s in
    let replaced = replace_all rows next_cursor s' in
    let appended = append_page rows next_cursor s' in
    if accepted then (if replace then replaced else appended) else s'

-- The message `reset`.
pub on_reset : ℕ → GraphStore → GraphStore
unfolding reset
on_reset generation s = record (reset s) { generation = generation }

pub select_index : ℤ → ClickModifiers → GraphStore → GraphStore
unfolding shas
select_index index modifiers s =
    let (ordered, s') = shas s in
    record s' { selection = reduce_selection s'.selection index modifiers ordered }

-- The message `error`.
pub on_error : GraphStore → GraphStore
on_error s = record s { request_in_flight = false }

is_loaded : ℤ → Bool
is_loaded (negsuc n) = false
is_loaded (pos i) = true

-- `restore.selected.filter((sha) => store.indexOf(sha) >= 0)`, and the store with its index in the cache.
pub present_shas : List Text → GraphStore → List Text × GraphStore
unfolding index_of is_loaded
present_shas [] s = ([], s)
present_shas (sha ∷ selected) s =
    let (index, s') = index_of sha s in
    let (present, s'') = present_shas selected s' in
    (if is_loaded index then sha ∷ present else present, s'')

pub select_present : List Text → GraphStore → GraphStore
unfolding index_of
select_present [] s = s
select_present (sha ∷ present) s =
    let (anchor, s') = index_of sha s in
    record s' { selection = record { selected = set_of (sha ∷ present); anchor = anchor } }

-- What `applyRestore` of main.ts does to the store when the rows it waits for have come.
pub restore_selection : List Text → GraphStore → GraphStore
unfolding present_shas select_present
restore_selection selected s =
    let (present, s') = present_shas selected s in select_present present s'

-- What happens to the store.
pub data Event : Type 0 where
  rows_come : ℕ → Bool → List GraphRow → Option Text → Event
  resets : ℕ → Event
  scrolls : ℕ → Event
  selects : ℤ → ClickModifiers → Event
  asks_index : Text → Event
  fails : Event
  restores : List Text → Event

-- The cursor of the page that is asked for, if one is, and the store.
pub step : Event → GraphStore → Option Text × GraphStore
unfolding on_rows on_reset begin_load_more select_index index_of on_error restore_selection
step (rows_come generation replace rows next_cursor) s =
    (none, on_rows generation replace rows next_cursor s)
step (resets generation) s = (none, on_reset generation s)
step (scrolls visible_end) s = begin_load_more visible_end s
step (selects index modifiers) s = (none, select_index index modifiers s)
step (asks_index sha) s = (none, (index_of sha s).1)
step fails s = (none, on_error s)
step (restores selected) s = (none, restore_selection selected s)

pub run : List Event → GraphStore → GraphStore
unfolding step
run [] s = s
run (event ∷ events) s = run events (step event s).1
