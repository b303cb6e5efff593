-- ===== src/Graph/Store/Caches.antt =====
-- extension/webviews-src/graph/store.ts: the caches, the highest lane and the selection belong to the rows.
use gitglasses.Base.{
  ltb, not, ◌==◌, subst, length-append, Option-cases, Bool-cases, length, Option, Bool, List, Text,
  ℕ, refl, [], ◌∷◌, true, false, none, some, inl, inr, ◌++◌, ◌≡◌, arith,
}
use mathlib.Core.Bool.{false≢true}
use gitglasses.Base.Int.{ℤ, pos, negsuc}
use gitglasses.Base.Sets.{has-append}
use gitglasses.Graph.Selection.{
  ClickModifiers, IsSelection, AnchorIn, SelectionState, empty_selection,
}
use gitglasses.Graph.Selection.Invariant.{reduce_selection-IsSelection, remap_selection-IsSelection}
use gitglasses.Graph.Store.{
  GraphRow, GraphStore, row_shas, shas, index_rows, indices, index_of, accept_rows, append_page,
  replace_all, reset, begin_load_more, on_rows, on_reset, select_index, should_load_more, widen_all,
}
use gitglasses.Graph.Store.Lanes.{IsHighest, widen_all-IsHighest, IsHighest-append}

-- A cache is empty or right.
abbrev pub Caches {ℓ} : {A : Type ℓ} → A → Option A → Type ℓ
Caches right none = Unit
Caches right (some cached) = cached ≡ right

-- The caches are empty or right, the highest lane is that of the rows, and the selection is one of the rows.
pub record IsStore (s : GraphStore) : Type 0 where
  pub cached_shas : Caches (row_shas s.rows) s.sha_cache
  pub cached_index : Caches (index_rows 0 s.rows []) s.index_cache
  pub highest : IsHighest s.rows s.max_lane
  pub selection_listed : IsSelection s.selection (row_shas s.rows)

row_shas-append :
    (rows more : List GraphRow) → row_shas (rows ++ more) ≡ row_shas rows ++ row_shas more
row_shas-append [] more = refl
row_shas-append (row ∷ rows) more = cc (row_shas-append rows more)

AnchorIn-append :
    (anchor : ℤ) (xs ys : List Text)
    → AnchorIn anchor (length xs)
    → AnchorIn anchor (length (xs ++ ys))
AnchorIn-append (negsuc n) xs ys h = h
AnchorIn-append (pos a) xs ys h = omega (arith, length-append xs ys)

IsSelection-append :
    (state : SelectionState) (xs ys : List Text)
    → IsSelection state xs
    → IsSelection state (xs ++ ys)
IsSelection-append state xs ys v = record {
  anchored = AnchorIn-append state.anchor xs ys v.anchored;
  distinct = v.distinct;
  listed = λ sha h. ground (arith, v.listed sha h, has-append sha xs ys);
}

pub IsSelection-empty : (xs : List Text) → IsSelection empty_selection xs
IsSelection-empty xs = record {
  anchored = refl;
  distinct = tt;
  listed = λ sha h. absurd (false≢true h);
}

-- Asking for the shas gives those of the rows, and changes no more than the cache.
shas-rows : (s : GraphStore) → IsStore s → (shas s).0 ≡ row_shas s.rows
unfolding shas
shas-rows s v = elim (Option-cases s.sha_cache) [
  | inl e ↦ rw e refl
  | inr (cached, e) ↦ rw e (subst (Caches (row_shas s.rows)) e v.cached_shas)
]

pub shas-cached : (s : GraphStore) → (shas s).1 ≡ record s { sha_cache = some (shas s).0 }
unfolding shas
shas-cached s = elim (Option-cases s.sha_cache) [ inl e ↦ rw e refl | inr (cached, e) ↦ rw e refl ]

pub indices-cached :
    (s : GraphStore) → (indices s).1 ≡ record s { index_cache = some (indices s).0 }
unfolding indices
indices-cached s = elim (Option-cases s.index_cache) [
  | inl e ↦ rw e refl
  | inr (cached, e) ↦ rw e refl
]

pub indices-rows : (s : GraphStore) → IsStore s → (indices s).0 ≡ index_rows 0 s.rows []
unfolding indices
indices-rows s v = elim (Option-cases s.index_cache) [
  | inl e ↦ rw e refl
  | inr (cached, e) ↦ rw e (subst (Caches (index_rows 0 s.rows [])) e v.cached_index)
]

pub select_index-IsStore :
    (index : ℤ) (m : ClickModifiers) (s : GraphStore) → IsStore s → IsStore (select_index index m s)
unfolding select_index
select_index-IsStore index m s v =
    rw (shas-cached s, shas-rows s v)
      (record {
        cached_shas = refl;
        cached_index = v.cached_index;
        highest = v.highest;
        selection_listed =
            reduce_selection-IsSelection s.selection index m (row_shas s.rows) v.selection_listed;
      })

pub index_of-IsStore : (sha : Text) (s : GraphStore) → IsStore s → IsStore (index_of sha s).1
unfolding index_of
index_of-IsStore sha s v =
    rw (indices-cached s, indices-rows s v)
      (record {
        cached_shas = v.cached_shas;
        cached_index = refl;
        highest = v.highest;
        selection_listed = v.selection_listed;
      })

append_page-IsStore :
    (rows : List GraphRow) (cursor : Option Text) (s : GraphStore)
    → IsStore s
    → IsStore (append_page rows cursor s)
unfolding append_page
append_page-IsStore rows cursor s v = record {
  cached_shas = tt;
  cached_index = tt;
  highest = IsHighest-append s.rows rows s.max_lane v.highest;
  selection_listed =
      rw (row_shas-append s.rows rows)
        (IsSelection-append s.selection (row_shas s.rows) (row_shas rows) v.selection_listed);
}

replace_all-IsStore :
    (rows : List GraphRow) (cursor : Option Text) (s : GraphStore)
    → IsStore s
    → IsStore (replace_all rows cursor s)
unfolding replace_all shas
replace_all-IsStore rows cursor s v =
    rw (shas-cached s, shas-rows s v)
      (record {
        cached_shas = refl;
        cached_index = tt;
        highest = widen_all-IsHighest rows;
        selection_listed =
            (remap_selection-IsSelection s.selection (row_shas s.rows) (row_shas rows)
              v.selection_listed).0;
      })

pub on_reset-IsStore : (generation : ℕ) (s : GraphStore) → IsStore (on_reset generation s)
unfolding on_reset reset widen_all
on_reset-IsStore generation s = record {
  cached_shas = tt;
  cached_index = tt;
  highest = widen_all-IsHighest [];
  selection_listed = IsSelection-empty [];
}

pub begin_load_more-IsStore :
    (visible_end : ℕ) (s : GraphStore) → IsStore s → IsStore (begin_load_more visible_end s).1
unfolding begin_load_more
begin_load_more-IsStore visible_end s v = elim (Bool-cases (should_load_more visible_end s)) [
  | inl e ↦ rw e (record {
    cached_shas = v.cached_shas;
    cached_index = v.cached_index;
    highest = v.highest;
    selection_listed = v.selection_listed;
  })
  | inr e ↦ rw e v
]

adopt-IsStore :
    (generation : ℕ) (s : GraphStore) → IsStore s → IsStore (record s { generation = generation })
adopt-IsStore generation s v = record {
  cached_shas = v.cached_shas;
  cached_index = v.cached_index;
  highest = v.highest;
  selection_listed = v.selection_listed;
}

pub on_rows-IsStore :
    (generation : ℕ) (replace : Bool) (rows : List GraphRow) (cursor : Option Text) (s : GraphStore)
    → IsStore s
    → IsStore (on_rows generation replace rows cursor s)
unfolding on_rows accept_rows
on_rows-IsStore generation true rows cursor s v = elim (Bool-cases (ltb generation s.generation)) [
  | inl stale ↦ rw stale v
  | inr fresh ↦ rw fresh (
      replace_all-IsStore rows cursor (record s { generation = generation })
        (adopt-IsStore generation s v))
]
on_rows-IsStore generation false rows cursor s v =
    elim (Bool-cases (not (generation == s.generation))) [
      | inl stale ↦ rw stale v
      | inr fresh ↦ rw fresh (
          append_page-IsStore rows cursor (record s { generation = generation })
            (adopt-IsStore generation s v))
    ]
