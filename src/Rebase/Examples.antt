-- ===== src/Rebase/Examples.antt =====
-- Instances of the theorems on the plan and the todo list.
use gitglasses.Rebase.Plan.{
  plan_from_preview, set_message, set_action, removed_at, move, merge_plan, Preview, PlanEntry,
  PlanAction, is_known, clamped, pick, reword, edit, squash, drop_commit,
}
use gitglasses.Base.{
  ◌+◌, is_space, get_elem?, codes, Text, List, refl, [], ◌∷◌, true, false, none, some, ◌≡◌, arith,
}
use gitglasses.Rebase.Todo.{todo_lines, serialize_todo, parse_todo, ParsedTodo}
use gitglasses.Rebase.Todo.Associations.{todo_unchanged, is_rebase_under_way}
use gitglasses.Rebase.Todo.Refs.{planned_refs, refs_in}
use gitglasses.Rebase.Todo.Coverage.{todo_lines-occurrences, occurrences, all_refs_of}
use gitglasses.Rebase.Plan.Merges.{merge_plan-is_previewed, is_previewed}
use gitglasses.Base.Int.{pos}
use gitglasses.Rebase.Plan.Moves.{move_lem}

abbrev entry : Text → PlanAction → Text → PlanEntry
entry sha action message = record { sha = sha; summary = sha; action = action; message = message }

abbrev plan : List PlanEntry
plan =
    entry (codes "a") pick []
    ∷ entry (codes "b") reword (codes "m")
    ∷ entry (codes "c") squash (codes "n")
    ∷ []

abbrev preview : List Preview
preview =
    record { sha = codes "b"; summary = codes "s"; action = none }
    ∷ record { sha = codes "d"; summary = codes "t"; action = none }
    ∷ []

move_lem_example :
    (get_elem? (move plan (pos 0) (pos 9)) 2 ≡ get_elem? plan 0)
    × (removed_at 2 (move plan (pos 0) (pos 9)) ≡ removed_at 0 plan)
unfolding clamped
move_lem_example = move_lem plan 0 (pos 9) (omega arith)

merge_plan-is_previewed_example :
    is_known (codes "d") (merge_plan plan preview) ≡ is_previewed (codes "d") preview
merge_plan-is_previewed_example = merge_plan-is_previewed (codes "d") plan preview

abbrev read : ParsedTodo
read = record {
  commits =
      record { action = pick; sha = codes "a"; summary = []; refs = codes "x" ∷ [] }
      ∷ record { action = pick; sha = codes "b"; summary = []; refs = codes "y" ∷ [] }
      ∷ [];
  leading_refs = codes "z" ∷ [];
  unsupported = [];
  range = none;
}

abbrev edited : List (Text × PlanAction)
edited = (codes "b", pick) ∷ (codes "a", drop_commit) ∷ []

todo_lines-occurrences_example :
    (refs_in (todo_lines edited read) ≡ codes "z" ∷ planned_refs edited read.commits)
    × ((ref : Text)
        → occurrences ref (refs_in (todo_lines edited read))
          ≡ occurrences ref (codes "z" ∷ []) + occurrences ref (all_refs_of read.commits))
todo_lines-occurrences_example =
    todo_lines-occurrences edited read (refl, (refl, tt)) (refl, (refl, tt))

-- A list is read line by line, with its references and its range, and written back.
abbrev text : Text
text = codes "update-ref z\np a one two\nu x\nfixup -C b\n# Rebase 1..2 onto 3 (1 command)\n"

parse_todo_run : parse_todo text ≡ record {
  commits =
      record { action = pick; sha = codes "a"; summary = codes "one two"; refs = codes "x" ∷ [] }
      ∷ [];
  leading_refs = codes "z" ∷ [];
  unsupported = codes "fixup -C b" ∷ [];
  range = some (codes "1..2 onto 3");
}
unfolding parse_todo is_space
parse_todo_run = refl

serialize_todo_run :
    serialize_todo ((codes "a", edit) ∷ []) (parse_todo text)
    ≡ codes "update-ref z\nedit a one two\nupdate-ref x\n"
unfolding serialize_todo parse_todo is_space
serialize_todo_run = refl

todo_unchanged_run : todo_unchanged (codes "a\nb") (some (codes "a\nb")) ≡ true
unfolding todo_unchanged
todo_unchanged_run = refl

is_rebase_under_way_run : is_rebase_under_way (some (codes " ")) ≡ false
unfolding is_rebase_under_way is_space
is_rebase_under_way_run = refl

edited_run :
    set_action
      (set_message
        (plan_from_preview (record { sha = codes "b"; summary = codes "s"; action = none } ∷ []))
        0
        (codes "m"))
      0
      edit
    ≡ record { sha = codes "b"; summary = codes "s"; action = edit; message = codes "m" } ∷ []
unfolding set_action set_message plan_from_preview
edited_run = refl
