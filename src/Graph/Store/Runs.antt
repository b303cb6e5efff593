-- ===== src/Graph/Store/Runs.antt =====
-- extension/webviews-src/graph/store.ts: every event keeps the caches, the highest lane and the selection right.
use gitglasses.Base.{List, [], ◌∷◌}
use gitglasses.Graph.Store.{
  Event, rows_come, resets, scrolls, selects, asks_index, fails, restores, GraphStore, step, run,
  new_store, widen_all, on_error,
}
use gitglasses.Graph.Store.Caches.{
  IsStore, select_index-IsStore, index_of-IsStore, on_reset-IsStore, begin_load_more-IsStore,
  on_rows-IsStore, IsSelection-empty,
}
use gitglasses.Graph.Store.Lanes.{widen_all-IsHighest}
use gitglasses.Graph.Store.Restores.{restore_selection-IsStore}

on_error-IsStore : (s : GraphStore) → IsStore s → IsStore (on_error s)
unfolding on_error
on_error-IsStore s v = record {
  cached_shas = v.cached_shas;
  cached_index = v.cached_index;
  highest = v.highest;
  selection_listed = v.selection_listed;
}

step-IsStore : (event : Event) (s : GraphStore) → IsStore s → IsStore (step event s).1
unfolding step
step-IsStore (rows_come generation replace rows cursor) s v =
    on_rows-IsStore generation replace rows cursor s v
step-IsStore (resets generation) s v = on_reset-IsStore generation s
step-IsStore (scrolls visible_end) s v = begin_load_more-IsStore visible_end s v
step-IsStore (selects index m) s v = select_index-IsStore index m s v
step-IsStore (asks_index sha) s v = index_of-IsStore sha s v
step-IsStore fails s v = on_error-IsStore s v
step-IsStore (restores selected) s v = restore_selection-IsStore selected s v

-- Whatever pages, snapshots, resets, clicks, lookups, errors and restored selections come, in any order: the lazy caches of the shas
-- and of their indices are empty or those of the rows, the highest lane is the highest that a row
-- or one of its edges draws in, and the selection is of commits that are loaded, none twice, with its
-- anchor -1 or a loaded row.
pub run-IsStore : (events : List Event) (s : GraphStore) → IsStore s → IsStore (run events s)
unfolding run
run-IsStore [] s v = v
run-IsStore (event ∷ events) s v = run-IsStore events (step event s).1 (step-IsStore event s v)

pub new_store-IsStore : IsStore new_store
unfolding widen_all
new_store-IsStore = record {
  cached_shas = tt;
  cached_index = tt;
  highest = widen_all-IsHighest [];
  selection_listed = IsSelection-empty [];
}
