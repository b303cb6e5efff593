-- ===== src/Editor/Groups/Examples.antt =====
-- Instances of the theorems on the groups.
use gitglasses.Base.Decimal.{decimal}
use gitglasses.Editor.Groups.{
  has, serialize_repo_groups, group_export, workspace_file, unique_group_name, parse_repo_groups,
  parse_group_export, ExportedRepo, imported,
}
use gitglasses.Base.Json.{object, field, array, no_items, no_fields}
use gitglasses.Base.{trim, codes, is_space, Text, refl, [], ◌∷◌, false, none, some, ◌≡◌}
use gitglasses.Editor.Groups.Shared.{parse_group_export-group_export, travellings, all_travel}
use gitglasses.Editor.Groups.Stored.{parse_repo_groups-serialize_repo_groups}
use gitglasses.Editor.Groups.Names.{unique_group_name-free}

parse_repo_groups-serialize_repo_groups_example :
    parse_repo_groups (
      serialize_repo_groups
        (record { id = codes "i"; name = codes "n"; repos = codes "p" ∷ codes "q" ∷ [] } ∷ []))
    ≡ record { id = codes "i"; name = codes "n"; repos = codes "p" ∷ codes "q" ∷ [] } ∷ []
parse_repo_groups-serialize_repo_groups_example =
    parse_repo_groups-serialize_repo_groups
      (record { id = codes "i"; name = codes "n"; repos = codes "p" ∷ codes "q" ∷ [] } ∷ [])

abbrev by_url : ExportedRepo
by_url = record { remote_url = some (codes "u"); path = some (codes "p") }

abbrev by_path : ExportedRepo
by_path = record { remote_url = none; path = some (codes "q") }

parse_group_export-group_export_example :
    parse_group_export (some (group_export (codes " n") (by_url ∷ by_path ∷ [])))
    ≡ imported (trim (codes " n")) (travellings (by_url ∷ by_path ∷ []))
unfolding is_space all_travel
parse_group_export-group_export_example =
    parse_group_export-group_export (codes " n") by_url (by_path ∷ []) (λ e. cc) refl

parse_group_export_run :
    parse_group_export (some (group_export (codes " n") (by_url ∷ [])))
    ≡ imported (codes "n") (record { remote_url = some (codes "u"); path = none } ∷ [])
unfolding parse_group_export group_export is_space
parse_group_export_run = refl

unique_group_name-free_example :
    (u : Text) × (unique_group_name (codes "g") (codes "g" ∷ codes "g (2)" ∷ []) ≡ some u)
    × (has u (codes "g" ∷ codes "g (2)" ∷ []) ≡ false)
unique_group_name-free_example = unique_group_name-free (codes "g") (codes "g" ∷ codes "g (2)" ∷ [])

unique_group_name_run :
    unique_group_name (codes "g") (codes "g" ∷ codes "g (2)" ∷ []) ≡ some (codes "g (3)")
unfolding unique_group_name decimal
unique_group_name_run = refl

workspace_file_run :
    workspace_file (record { id = []; name = []; repos = [] })
    ≡ object (field (codes "folders") (array no_items) no_fields)
unfolding workspace_file
workspace_file_run = refl
