-- ===== src/Graph/Store/Examples.antt =====
-- Instances of the theorems on the store.
use gitglasses.Base.Sets.{set_of}
use gitglasses.Graph.Selection.{remap_selection, reduce_selection}
use gitglasses.Base.{
  codes, Text, List, ℕ, refl, [], ◌∷◌, true, false, none, some, ◌≡◌, ◌≤◌, ◌+◌, length,
}
use gitglasses.Base.Int.{pos}
use gitglasses.Graph.Edges.{line}
use gitglasses.Graph.Store.{
  GraphRow, Event, rows_come, resets, scrolls, selects, asks_index, fails, restores, run, new_store,
  row_shas, anchor_row, selected_rows, step,
}
use gitglasses.Graph.Store.Caches.{IsStore}
use gitglasses.Graph.Store.Runs.{run-IsStore, new_store-IsStore}
use gitglasses.Graph.Store.Requests.{asked-answers, asked, answers, flight}
use gitglasses.Graph.Store.Generations.{run-Shows, Shows}

abbrev row_in : ℕ → Text → GraphRow
row_in lane sha = record {
  sha = sha;
  lane = lane;
  lane_edges = record { from_lane = lane; to_lane = 0; kind = line } ∷ [];
}

-- A page, a click on its second row, a request that fails, the next page, a lookup, a restored selection, a late page of
-- generation 0 and a snapshot.
abbrev session : List Event
session =
    resets 1
    ∷ rows_come 1 false (row_in 1 (codes "a") ∷ row_in 1 (codes "b") ∷ []) (some (codes "c1"))
    ∷ selects (pos 1) (record { ctrl = false; shift = false })
    ∷ scrolls 2
    ∷ fails
    ∷ scrolls 2
    ∷ rows_come 1 false (row_in 1 (codes "c") ∷ []) none
    ∷ asks_index (codes "c")
    ∷ restores (codes "b" ∷ codes "z" ∷ [])
    ∷ rows_come 0 false (row_in 0 (codes "z") ∷ []) none
    ∷ rows_come 2 true (row_in 2 (codes "n") ∷ row_in 2 (codes "b") ∷ []) none
    ∷ []

run-IsStore_example : IsStore (run session new_store)
run-IsStore_example = run-IsStore session new_store new_store-IsStore

asked-answers_example :
    length (asked session new_store) + flight new_store
    ≤ answers session new_store + flight (run session new_store)
asked-answers_example = asked-answers session new_store

abbrev Told : ℕ → GraphRow → Type 0
Told generation row = row.lane ≡ generation

run-Shows_example : Shows Told (run session new_store)
run-Shows_example =
    run-Shows Told session new_store
      (
        tt,
        (
          (refl, (refl, tt)),
          (tt, (tt, (tt, (tt, ((refl, tt), (tt, (tt, ((refl, tt), ((refl, (refl, tt)), tt))))))))),
        ),
      )
      tt

final_rows : row_shas (run session new_store).rows ≡ codes "n" ∷ codes "b" ∷ []
unfolding run
final_rows = refl

asked_run : asked session new_store ≡ codes "c1" ∷ codes "c1" ∷ []
unfolding asked step
asked_run = refl

anchor_run : anchor_row (run session new_store) ≡ some (row_in 2 (codes "b"))
unfolding anchor_row run remap_selection reduce_selection
anchor_run = refl

selected_run : selected_rows (run session new_store) ≡ row_in 2 (codes "b") ∷ []
unfolding selected_rows run remap_selection reduce_selection set_of
selected_run = refl
