-- ===== src/Graph/Menus/Restricted.antt =====
-- The menus of Restricted Mode.
use gitglasses.Graph.Menus.{commit_items, row_items, head, branch, remote, tag, stash_ref}
use gitglasses.Graph.Find.{RowKind, commit, wip, stash}
use gitglasses.Base.{
  Bool-cases, ◌==◌, if◌then◌else◌, ◌∙◌, not, map, keep_if, Text, List, Bool, ℕ, refl, [], ◌∷◌, true,
  false, inl, inr, ◌++◌, ◌≡◌, arith,
}
use gitglasses.Graph.Menus.{
  copy_message, compare, copy_sha, open_changes, open_scm, copy_name, show_details, RefKind,
  ungroup_first, mutating_row_action, mutating_ref_action, RowMenuAction, MenuItem,
  without_mutations, row_menu, ref_menu,
}

abbrev pub StartsPlain : {A : Type 0} → List (MenuItem A) → Type 0
StartsPlain [] = Unit
StartsPlain (first ∷ rest) = first.group ≡ false

abbrev pub labels : {A : Type 0} → List (MenuItem A) → List (A × Text)
labels = map (λ i. (i.action, i.label))

module _ {A : Type 0} where
  labels-ungroup_first : (items : List (MenuItem A)) → labels (ungroup_first items) ≡ labels items
  unfolding ungroup_first
  labels-ungroup_first [] = refl
  labels-ungroup_first (i ∷ items) = refl

  ungroup_first-StartsPlain : (items : List (MenuItem A)) → StartsPlain (ungroup_first items)
  unfolding ungroup_first
  ungroup_first-StartsPlain [] = tt
  ungroup_first-StartsPlain (i ∷ items) = refl

  labels-keep_if :
      (p : A → Bool) (items : List (MenuItem A))
      → labels (keep_if (λ i. p i.action) items) ≡ keep_if (λ l. p l.0) (labels items)
  labels-keep_if p [] = refl
  labels-keep_if p (i ∷ items) = ground (arith, labels-keep_if p items)

  without_mutations_lem :
      (items : List (MenuItem A)) (mutating : A → Bool)
      → StartsPlain (without_mutations items mutating)
        × (labels (without_mutations items mutating)
            ≡ keep_if (λ l. not (mutating l.0)) (labels items))
  unfolding without_mutations
  without_mutations_lem items mutating =
      let kept = keep_if (λ i. not (mutating i.action)) items in
      (
        ungroup_first-StartsPlain kept,
        labels-ungroup_first kept ∙ labels-keep_if (λ a. not (mutating a)) items,
      )

-- What Restricted Mode leaves of the row menu: to look at a row and to copy from it.
abbrev pub read_only_row : RowKind → ℕ → List RowMenuAction
read_only_row wip n = show_details ∷ open_scm ∷ []
read_only_row stash n = show_details ∷ open_changes ∷ copy_sha ∷ []
read_only_row commit n =
    (show_details ∷ open_changes ∷ [])
    ++ ((if n == 2 then compare ∷ [] else []) ++ (copy_sha ∷ copy_message ∷ []))

abbrev pub actions : {A : Type 0} → List (MenuItem A) → List A
actions = map (λ i. i.action)

row_actions :
    (kind : RowKind) (selected : ℕ)
    → actions (without_mutations (row_items kind selected) mutating_row_action)
      ≡ read_only_row kind selected
unfolding row_items mutating_row_action without_mutations
row_actions wip selected = refl
row_actions stash selected = refl
row_actions commit selected = elim (Bool-cases (selected == 2)) [
  | inl two ↦ rw (two, commit_items) refl
  | inr other ↦ rw (other, commit_items) refl
]

-- In Restricted Mode the row menu of every kind of row offers exactly the actions that look at the
-- row or copy from it, in the order and with the labels of the full menu, and its first entry has no
-- separator above it.
pub row_menu-restricted :
    (kind : RowKind) (selected : ℕ)
    → (actions (row_menu kind selected false) ≡ read_only_row kind selected)
      × StartsPlain (row_menu kind selected false)
      × (labels (row_menu kind selected false)
          ≡ keep_if (λ l. not (mutating_row_action l.0)) (labels (row_menu kind selected true)))
unfolding row_menu
row_menu-restricted kind selected =
    let l = without_mutations_lem (row_items kind selected) mutating_row_action in
    (row_actions kind selected, l.0, l.1)

-- In Restricted Mode a ref chip offers nothing but to copy its name, with no separator above it.
pub ref_menu-restricted :
    (kind : RefKind) (name : Text) (current : Bool)
    → (actions (ref_menu kind name current false) ≡ copy_name ∷ [])
      × StartsPlain (ref_menu kind name current false)
unfolding ref_menu mutating_ref_action without_mutations
ref_menu-restricted head name current = (refl, refl)
ref_menu-restricted branch name true = (refl, refl)
ref_menu-restricted branch name false = (refl, refl)
ref_menu-restricted remote name current = (refl, refl)
ref_menu-restricted tag name current = (refl, refl)
ref_menu-restricted stash_ref name current = (refl, refl)
