-- ===== src/Graph/Store/Generations.antt =====
-- extension/webviews-src/graph/main.ts: `onRows` shows no rows of a superseded snapshot.
use gitglasses.Base.{
  Bool-cases, subst, All, All-append, ltb, not, ◌==◌, List, ℕ, [], ◌∷◌, true, false, inl, inr, ◌≡◌,
  arith,
}
use gitglasses.Graph.Store.{
  GraphRow, GraphStore, Event, rows_come, resets, scrolls, selects, asks_index, fails, restores,
  on_error, accept_rows, begin_load_more, should_load_more, step, run, on_rows, on_reset, reset,
  append_page, replace_all, shas, select_index, index_of,
}
use gitglasses.Graph.Store.Caches.{shas-cached, indices-cached}
use gitglasses.Graph.Store.Restores.{restore_selection-IsKept}

module _ (P : ℕ → GraphRow → Type 0) where
  -- What the host sends of a generation has the property of that generation.
  abbrev pub Sends : Event → Type 0
  Sends (rows_come generation replace rows cursor) = All (P generation) rows
  Sends event = Unit

  abbrev pub Shows : GraphStore → Type 0
  Shows s = All (P s.generation) s.rows

  step-Shows : (event : Event) (s : GraphStore) → Sends event → Shows s → Shows (step event s).1
  unfolding step on_rows accept_rows on_reset reset append_page replace_all shas select_index
      index_of begin_load_more on_error
  step-Shows (rows_come generation true rows cursor) s h v =
      elim (Bool-cases (ltb generation s.generation)) [
        | inl stale ↦ rw stale v
        | inr fresh ↦ rw (fresh, shas-cached (record s { generation = generation })) h
      ]
  step-Shows (rows_come generation false rows cursor) s h v =
      elim (Bool-cases (not (generation == s.generation))) [
        | inl stale ↦ rw stale v
        | inr fresh ↦
            let same : s.generation ≡ generation = ground arith in
            rw fresh
              (All-append (P generation) s.rows rows (subst (λ g. All (P g) s.rows) same v) h)
      ]
  step-Shows (resets generation) s h v = tt
  step-Shows (scrolls visible_end) s h v = elim (Bool-cases (should_load_more visible_end s)) [
    | inl e ↦ rw e v
    | inr e ↦ rw e v
  ]
  step-Shows (selects index m) s h v = rw (shas-cached s) v
  step-Shows (asks_index sha) s h v = rw (indices-cached s) v
  step-Shows fails s h v = v
  step-Shows (restores selected) s h v =
      let kept = restore_selection-IsKept selected s in rw (kept.0, kept.1) v

  -- The rows that are shown all came with the store's generation: whatever is true of every row that the host sends with a
  -- generation, for each generation, is true of all the rows of the store with the generation it has, after any
  -- pages, snapshots, resets, clicks, lookups, errors and restored selections, late ones included.
  pub run-Shows :
      (events : List Event) (s : GraphStore) → All Sends events → Shows s → Shows (run events s)
  unfolding run
  run-Shows [] s h v = v
  run-Shows (event ∷ events) s h v =
      run-Shows events (step event s).1 h.1 (step-Shows event s h.0 v)
