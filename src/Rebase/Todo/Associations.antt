-- ===== src/Rebase/Todo/Associations.antt =====
-- extension/src/webviews/rebaseTodoLogic.ts: whether the list is still the one that was opened, and the
-- editor association of the todo file.
use gitglasses.Base.{
  text_eq_refl, subst, Bool-cases, ◌&&◌, ◌==◌, text_eq, not, if◌then◌else◌, codes, List, trim, Text,
  Option, Bool, refl, [], ◌∷◌, true, false, none, some, inl, inr, ◌≡◌, arith,
}
use gitglasses.Base.Maps.{lookup-remove_key, lookup-set_key, remove_key, set_key, lookup}

-- `text.replace(/\r\n/g, '\n')`
to_newlines : Text → Text
to_newlines [] = []
to_newlines (c ∷ []) = c ∷ []
to_newlines (c ∷ d ∷ s) =
    let cut = 10 ∷ to_newlines s in
    let more = c ∷ to_newlines (d ∷ s) in if c == 13 && d == 10 then cut else more

unfoldable pub todo_unchanged : Text → Option Text → Bool
unfolding to_newlines
todo_unchanged opened none = false
todo_unchanged opened (some on_disk) = text_eq (to_newlines on_disk) (to_newlines opened)

unfoldable pub is_rebase_under_way : Option Text → Bool
unfolding trim
is_rebase_under_way none = false
is_rebase_under_way (some done_text) = not (text_eq (trim done_text) [])

abbrev pub todo_association : Text
todo_association = codes "git-rebase-todo"

is_ours : Text → Option Text → Bool
is_ours view_type none = false
is_ours view_type (some editor) = text_eq editor view_type

associations_of : Option (List (Text × Text)) → List (Text × Text)
associations_of none = []
associations_of (some current) = current

bool_eq : Bool → Bool → Bool
bool_eq true b = b
bool_eq false b = not b

unfoldable pub editor_associations_for :
    Option (List (Text × Text)) → Bool → Text → Option (List (Text × Text))
unfolding is_ours associations_of bool_eq
editor_associations_for current enabled view_type =
    let associations = associations_of current in
    if bool_eq enabled (is_ours view_type (lookup todo_association associations))
    then none
    else if enabled
    then some (set_key todo_association view_type associations)
    else some (remove_key todo_association associations)

changed-settled :
    (enabled : Bool) (view_type : Text) (m changed : List (Text × Text))
    → editor_associations_for (some m) enabled view_type ≡ some changed
    → editor_associations_for (some changed) enabled view_type ≡ none
unfolding editor_associations_for is_ours associations_of bool_eq
changed-settled true view_type m changed h =
    elim (Bool-cases (is_ours view_type (lookup todo_association m))) [
      | inl e ↦ cc
      | inr e ↦
          let q : set_key todo_association view_type m ≡ changed = ground arith in
          subst (λ x. editor_associations_for (some x) true view_type ≡ none) q
            (rw (lookup-set_key todo_association view_type m, text_eq_refl view_type) refl)
    ]
changed-settled false view_type m changed h =
    elim (Bool-cases (is_ours view_type (lookup todo_association m))) [
      | inl e ↦
          let q : remove_key todo_association m ≡ changed = ground arith in
          subst (λ x. editor_associations_for (some x) false view_type ≡ none) q
            (rw (lookup-remove_key todo_association m) refl)
      | inr e ↦ cc
    ]

-- Once the changed associations are stored there is nothing more to change: asking again with the
-- same setting yields no change.
pub editor_associations_for-settled :
    (current : Option (List (Text × Text))) (enabled : Bool) (view_type : Text)
    (changed : List (Text × Text))
    → editor_associations_for current enabled view_type ≡ some changed
    → editor_associations_for (some changed) enabled view_type ≡ none
unfolding editor_associations_for associations_of
editor_associations_for-settled none enabled view_type changed h =
    changed-settled enabled view_type [] changed h
editor_associations_for-settled (some m) enabled view_type changed h =
    changed-settled enabled view_type m changed h
