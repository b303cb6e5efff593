-- ===== src/Graph/Menus.antt =====
-- The context menus of graphLogic.ts.
pub mod Restricted
use gitglasses.Graph.Find.{RowKind, commit, wip, stash}
use gitglasses.Base.{
  length, text_eq, ltb, drop, ◌==◌, starts_with, not, find_first, map, keep_if, if◌then◌else◌,
  codes, All, Text, Option, List, Bool, ℕ, zero, suc, refl, [], ◌∷◌, true, false, none, some, inl,
  inr, ◌++◌, ◌≡◌, arith,
}
use gitglasses.Graph.Find.{RowKind}
use gitglasses.Base.Decimal.{decimal}

pub data RowMenuAction : Type 0 where
  show_details open_changes compare copy_sha copy_message create_branch create_tag switch_detached
        cherry_pick revert reset merge rebase open_scm stash_changes stash_apply stash_pop
        stash_drop :
      RowMenuAction

pub data RefMenuAction : Type 0 where
  checkout merge_ref rebase_onto create_branch_at rename delete_ref push push_tag delete_tag
        copy_name :
      RefMenuAction

-- `group` starts a new group.
pub record MenuItem (A : Type 0) : Type 0 where
  pub action : A
  pub label : Text
  pub group : Bool

abbrev item : {A : Type 0} → A → Text → MenuItem A
item action label = record { action = action; label = label; group = false }

abbrev group_item : {A : Type 0} → A → Text → MenuItem A
group_item action label = record { action = action; label = label; group = true }

-- Membership of `MUTATING_ROW_ACTIONS`.
pub mutating_row_action : RowMenuAction → Bool
mutating_row_action show_details = false
mutating_row_action open_changes = false
mutating_row_action compare = false
mutating_row_action copy_sha = false
mutating_row_action copy_message = false
mutating_row_action open_scm = false
mutating_row_action _ = true

-- Membership of `MUTATING_REF_ACTIONS`.
pub mutating_ref_action : RefMenuAction → Bool
mutating_ref_action copy_name = false
mutating_ref_action _ = true

module _ {A : Type 0} where
  ungroup_first : List (MenuItem A) → List (MenuItem A)
  ungroup_first [] = []
  ungroup_first (first ∷ rest) = record first { group = false } ∷ rest

  pub without_mutations : List (MenuItem A) → (A → Bool) → List (MenuItem A)
  unfolding ungroup_first
  without_mutations items mutating = ungroup_first (keep_if (λ i. not (mutating i.action)) items)

wip_items : List (MenuItem RowMenuAction)
wip_items =
    item show_details (codes "Show Changes")
    ∷ item open_scm (codes "Open Source Control")
    ∷ group_item stash_changes (codes "Stash Changes…")
    ∷ []

stash_items : List (MenuItem RowMenuAction)
stash_items =
    item show_details (codes "Show Stash Details")
    ∷ item open_changes (codes "Open All Changes")
    ∷ group_item stash_apply (codes "Apply Stash")
    ∷ item stash_pop (codes "Pop Stash")
    ∷ item stash_drop (codes "Drop Stash…")
    ∷ group_item copy_sha (codes "Copy SHA")
    ∷ []

commit_items : ℕ → List (MenuItem RowMenuAction)
commit_items selected =
    (item show_details (codes "Show Commit Details")
      ∷ item open_changes (codes "Open All Changes")
      ∷ [])
    ++ ((if selected == 2 then item compare (codes "Compare Selected Commits") ∷ [] else [])
        ++ (group_item create_branch (codes "Create Branch Here…")
            ∷ item create_tag (codes "Create Tag Here…")
            ∷ item switch_detached (codes "Switch to Commit (Detached)")
            ∷ group_item cherry_pick
                (if ltb 1 selected then codes "Cherry-pick Commits" else codes "Cherry-pick Commit")
            ∷ item revert (if ltb 1 selected then codes "Revert Commits" else codes "Revert Commit")
            ∷ item reset (codes "Reset Current Branch to Here…")
            ∷ item merge (codes "Merge into Current Branch…")
            ∷ item rebase (codes "Rebase Current Branch onto Here…")
            ∷ group_item copy_sha (codes "Copy SHA")
            ∷ item copy_message (codes "Copy Message")
            ∷ []))

row_items : RowKind → ℕ → List (MenuItem RowMenuAction)
unfolding wip_items stash_items commit_items
row_items wip selected = wip_items
row_items stash selected = stash_items
row_items commit selected = commit_items selected

-- The row menu; `can_mutate` is false in Restricted Mode.
pub row_menu : RowKind → ℕ → Bool → List (MenuItem RowMenuAction)
unfolding row_items
row_menu kind selected_commits can_mutate =
    let items = row_items kind selected_commits in
    if can_mutate then items else without_mutations items mutating_row_action

pub data RefKind : Type 0 where
  head branch remote tag stash_ref : RefKind

head_items : List (MenuItem RefMenuAction)
head_items =
    item create_branch_at (codes "Create Branch Here…")
    ∷ group_item copy_name (codes "Copy Name")
    ∷ []

checkout_items : Text → List (MenuItem RefMenuAction)
checkout_items name =
    item checkout (codes "Checkout " ++ name)
    ∷ item merge_ref (codes "Merge " ++ (name ++ codes " into Current Branch…"))
    ∷ item rebase_onto (codes "Rebase Current Branch onto " ++ (name ++ codes "…"))
    ∷ []

branch_items : Text → Bool → List (MenuItem RefMenuAction)
unfolding checkout_items
branch_items name current =
    (if current then [] else checkout_items name)
    ++ (group_item create_branch_at (codes "Create Branch Here…")
        ∷ item rename (codes "Rename Branch…")
        ∷ ((if current then [] else item delete_ref (codes "Delete Branch…") ∷ [])
            ++ (group_item push (codes "Push Branch")
                ∷ group_item copy_name (codes "Copy Branch Name")
                ∷ [])))

remote_items : Text → List (MenuItem RefMenuAction)
unfolding checkout_items
remote_items name =
    checkout_items name
    ++ (group_item create_branch_at (codes "Create Branch Here…")
        ∷ group_item copy_name (codes "Copy Branch Name")
        ∷ [])

tag_items : Text → List (MenuItem RefMenuAction)
tag_items name =
    item checkout (codes "Checkout " ++ (name ++ codes " (Detached)"))
    ∷ item merge_ref (codes "Merge " ++ (name ++ codes " into Current Branch…"))
    ∷ group_item create_branch_at (codes "Create Branch Here…")
    ∷ group_item push_tag (codes "Push Tag…")
    ∷ item delete_tag (codes "Delete Tag…")
    ∷ group_item copy_name (codes "Copy Tag Name")
    ∷ []

ref_items : RefKind → Text → Bool → List (MenuItem RefMenuAction)
unfolding head_items branch_items remote_items tag_items
ref_items head name current = head_items
ref_items branch name current = branch_items name current
ref_items remote name current = remote_items name
ref_items tag name current = tag_items name
ref_items stash_ref name current = item copy_name (codes "Copy Stash Name") ∷ []

-- The chip menu of a ref; `current` is true for the checked-out branch.
pub ref_menu : RefKind → Text → Bool → Bool → List (MenuItem RefMenuAction)
unfolding ref_items
ref_menu kind name current can_mutate =
    let items = ref_items kind name current in
    if can_mutate then items else without_mutations items mutating_ref_action

pub record BranchOption : Type 0 where
  pub name : Text
  pub ref : Text
  pub is_remote : Bool
  pub current : Bool

-- `ref.replace(/^refs\/(heads|remotes)\//, '')`.
abbrev short_ref : Text → Text
short_ref ref =
    if starts_with ref (codes "refs/heads/")
    then drop 11 ref
    else if starts_with ref (codes "refs/remotes/")
    then drop 13 ref
    else ref

name_of : Option BranchOption → Text → Text
name_of none ref = short_ref ref
name_of (some option) ref = option.name

-- The filter button's label; `none` and no branch are all branches.
unfoldable pub filter_label : Option (List Text) → List BranchOption → Text
unfolding name_of
filter_label none options = codes "All Branches"
filter_label (some []) options = codes "All Branches"
filter_label (some (ref ∷ [])) options = name_of (find_first (λ o. text_eq o.ref ref) options) ref
filter_label (some (a ∷ b ∷ rest)) options = decimal (length (a ∷ b ∷ rest)) ++ codes " Branches"
