-- ===== src/Graph/Store/Indices.antt =====
-- extension/webviews-src/graph/store.ts: `indexOf` finds the rows, whatever is in the cache.
use gitglasses.Base.{
  text_eq, text_eq_iff, Bool-cases, subst, ap, ◌∙◌, ◌⊎◌, ◌+◌, get_elem?, drop, List, Text, ℕ, suc,
  refl, [], ◌∷◌, false, some, inl, inr, ◌≡◌, arith,
}
use gitglasses.Base.Int.{ℤ, pos, negsuc}
use gitglasses.Base.Sets.{has}
use gitglasses.Base.Maps.{lookup, set_key, lookup-set_key, lookup-set_key_other}
use gitglasses.Graph.Store.{
  GraphRow, GraphStore, row_shas, index_rows, index_of, index_or_missing, indices,
}
use gitglasses.Graph.Store.Caches.{indices-cached, IsStore, indices-rows}

-- The last place of a sha, -1 where there is none.
abbrev pub IsIndex : Text → List Text → ℤ → Type 0
IsIndex sha shas (pos i) = (get_elem? shas i ≡ some sha) × (has sha (drop (suc i) shas) ≡ false)
IsIndex sha shas (negsuc n) = (n ≡ 0) × (has sha shas ≡ false)

abbrev IsLast : Text → List Text → ℕ → Type 0
IsLast sha shas last = (get_elem? shas last ≡ some sha) × (has sha (drop (suc last) shas) ≡ false)

lookup-index_rows :
    (sha : Text) (i : ℕ) (rows : List GraphRow) (index : List (Text × ℕ))
    → ((last : ℕ) × IsLast sha (row_shas rows) last
        × (lookup sha (index_rows i rows index) ≡ some (i + last)))
      ⊎ ((has sha (row_shas rows) ≡ false)
          × (lookup sha (index_rows i rows index) ≡ lookup sha index))
unfolding index_rows
lookup-index_rows sha i [] index = inr (refl, refl)
lookup-index_rows sha i (row ∷ rows) index =
    elim (lookup-index_rows sha (suc i) rows (set_key row.sha i index)) [
      | inl (last, is, found) ↦
          let later : suc i + last ≡ i + suc last = omega arith in
          inl (suc last, is, found ∙ ap some later)
      | inr (missing, same) ↦ elim (Bool-cases (text_eq row.sha sha)) [
        | inl e ↦
            let here : row.sha ≡ sha = (text_eq_iff row.sha sha).0 e in
            let found =
              subst (λ key. lookup key (set_key row.sha i index) ≡ some i) here
                (lookup-set_key row.sha i index) in
            let last : i ≡ i + 0 = omega arith in
            inl (0, (ap some here, missing), same ∙ found ∙ ap some last)
        | inr e ↦ inr (ground arith, same ∙ lookup-set_key_other row.sha sha i index e)
      ]
    ]

-- In a store whose caches are right, the index of a sha is that of the last loaded row with it, and -1 when no loaded row
-- has it, and the answer is the same when it is asked again.
pub index_of-IsIndex :
    (sha : Text) (s : GraphStore)
    → IsStore s
    → IsIndex sha (row_shas s.rows) (index_of sha s).0
      × ((index_of sha (index_of sha s).1).0 ≡ (index_of sha s).0)
unfolding index_of index_or_missing indices
index_of-IsIndex sha s v = (
  rw (indices-rows s v) (elim (lookup-index_rows sha 0 s.rows []) [
    | inl (last, is, found) ↦ let place : 0 + last ≡ last = omega arith in rw (found, place) is
    | inr (missing, same) ↦ rw same (refl, missing)
  ]),
  rw (indices-cached s) refl,
)
