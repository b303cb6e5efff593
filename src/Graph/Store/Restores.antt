-- ===== src/Graph/Store/Restores.antt =====
-- extension/webviews-src/graph/main.ts: a selection that `applyRestore` restores is one of the loaded rows.
use gitglasses.Base.{
  if◌then◌else◌, Bool, List, Text, [], ◌∷◌, ◌≡◌, refl, sym, subst, ◌∙◌, arith, true, false, length,
  Bool-cases, text_eq, text_eq_iff, inl, inr,
}
use gitglasses.Base.Int.{ℤ, pos, negsuc}
use gitglasses.Base.Sets.{has, set_of, has-set_of, IsSetList-set_of}
use gitglasses.Graph.Selection.{AnchorIn, IsSelection}
use gitglasses.Graph.Selection.Invariant.{has-get_elem?, lt-get_elem?}
use gitglasses.Graph.Store.{
  GraphStore, row_shas, index_of, is_loaded, present_shas, select_present, restore_selection,
}
use gitglasses.Graph.Store.Caches.{IsStore, index_of-IsStore, indices-cached}
use gitglasses.Graph.Store.Indices.{IsIndex, index_of-IsIndex}

index_of-rows : (sha : Text) (s : GraphStore) → (index_of sha s).1.rows ≡ s.rows
unfolding index_of
index_of-rows sha s = rw (indices-cached s) refl

IsIndex-has :
    (sha : Text) (shas : List Text) (index : ℤ)
    → IsIndex sha shas index
    → is_loaded index ≡ true
    → has sha shas ≡ true
unfolding is_loaded
IsIndex-has sha shas (negsuc n) is h = cc h
IsIndex-has sha shas (pos i) is h = has-get_elem? sha shas i is.0

IsIndex-AnchorIn :
    (sha : Text) (shas : List Text) (index : ℤ)
    → IsIndex sha shas index
    → AnchorIn index (length shas)
IsIndex-AnchorIn sha shas (negsuc n) is = is.0
IsIndex-AnchorIn sha shas (pos i) is = lt-get_elem? sha shas i is.0

-- The shas are those of rows.
abbrev Listed : List Text → List Text → Type 0
Listed present shas = (sha : Text) → has sha present ≡ true → has sha shas ≡ true

Listed-if :
    (loaded : Bool) (sha : Text) (present shas : List Text)
    → (loaded ≡ true → has sha shas ≡ true)
    → Listed present shas
    → Listed (if loaded then sha ∷ present else present) shas
Listed-if false sha present shas here later other h = later other h
Listed-if true sha present shas here later other h = elim (Bool-cases (text_eq sha other)) [
  | inl e ↦ subst (λ t. has t shas ≡ true) ((text_eq_iff sha other).0 e) (here refl)
  | inr e ↦ later other (ground (arith, e, h))
]

present_shas-Listed :
    (selected : List Text) (s : GraphStore)
    → IsStore s
    → let (present, s') = present_shas selected s in
      IsStore s' × (s'.rows ≡ s.rows) × Listed present (row_shas s.rows)
unfolding present_shas
present_shas-Listed [] s v = (v, refl, λ sha h. cc h)
present_shas-Listed (sha ∷ selected) s v =
    let s' = (index_of sha s).1 in
    let (after, same, listed) = present_shas-Listed selected s' (index_of-IsStore sha s v) in
    let here = IsIndex-has sha (row_shas s.rows) (index_of sha s).0 (index_of-IsIndex sha s v).0 in
    let later =
      subst (λ rows. Listed (present_shas selected s').0 (row_shas rows)) (index_of-rows sha s)
        listed in
    (
      after,
      same ∙ index_of-rows sha s,
      Listed-if (is_loaded (index_of sha s).0) sha (present_shas selected s').0 (row_shas s.rows)
          here later,
    )

select_present-IsStore :
    (present : List Text) (s : GraphStore)
    → IsStore s
    → Listed present (row_shas s.rows)
    → IsStore (select_present present s)
unfolding select_present index_of
select_present-IsStore [] s v listed = v
select_present-IsStore (sha ∷ present) s v listed =
    let s' = (index_of sha s).1 in
    let v' = index_of-IsStore sha s v in
    let is = (index_of-IsIndex sha s v).0 in
    record {
      cached_shas = v'.cached_shas;
      cached_index = v'.cached_index;
      highest = v'.highest;
      selection_listed =
          subst
            (λ rows.
              IsSelection
                (record { selected = set_of (sha ∷ present); anchor = (index_of sha s).0 })
                (row_shas rows))
            (sym (index_of-rows sha s))
            (record {
              anchored = IsIndex-AnchorIn sha (row_shas s.rows) (index_of sha s).0 is;
              distinct = IsSetList-set_of (sha ∷ present);
              listed = λ other h. listed other (sym (has-set_of other (sha ∷ present)) ∙ h);
            });
    }

pub restore_selection-IsStore :
    (selected : List Text) (s : GraphStore) → IsStore s → IsStore (restore_selection selected s)
unfolding restore_selection
restore_selection-IsStore selected s v =
    let (after, same, listed) = present_shas-Listed selected s v in
    select_present-IsStore (present_shas selected s).0 (present_shas selected s).1 after
      (subst (λ rows. Listed (present_shas selected s).0 (row_shas rows)) (sym same) listed)

-- The restoring changes neither the rows, nor their generation, nor the guard.
abbrev pub IsKept : GraphStore → GraphStore → Type 0
IsKept s t =
    (t.rows ≡ s.rows) × (t.generation ≡ s.generation) × (t.request_in_flight ≡ s.request_in_flight)

index_of-IsKept : (sha : Text) (s : GraphStore) → IsKept s (index_of sha s).1
unfolding index_of
index_of-IsKept sha s = rw (indices-cached s) (refl, refl, refl)

IsKept-compose : (s t u : GraphStore) → IsKept s t → IsKept t u → IsKept s u
IsKept-compose s t u h k = (k.0 ∙ h.0, k.1 ∙ h.1, k.2 ∙ h.2)

present_shas-IsKept : (selected : List Text) (s : GraphStore) → IsKept s (present_shas selected s).1
unfolding present_shas
present_shas-IsKept [] s = (refl, refl, refl)
present_shas-IsKept (sha ∷ selected) s =
    let s' = (index_of sha s).1 in
    IsKept-compose s s' (present_shas selected s').1 (index_of-IsKept sha s)
      (present_shas-IsKept selected s')

select_present-IsKept : (present : List Text) (s : GraphStore) → IsKept s (select_present present s)
unfolding select_present
select_present-IsKept [] s = (refl, refl, refl)
select_present-IsKept (sha ∷ present) s = index_of-IsKept sha s

pub restore_selection-IsKept :
    (selected : List Text) (s : GraphStore) → IsKept s (restore_selection selected s)
unfolding restore_selection
restore_selection-IsKept selected s =
    let (present, s') = present_shas selected s in
    IsKept-compose s s' (select_present present s') (present_shas-IsKept selected s)
      (select_present-IsKept present s')
