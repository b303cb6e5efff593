-- ===== src/Editor/Groups.antt =====
-- extension/src/groups/groupsLogic.ts: repository groups, their storage and the file that shares one. A file's
-- text is parsed outside; `none` is a text that is not JSON.
pub mod Stored
pub mod Shared
pub mod Names
mod Examples
use gitglasses.Base.Json.{
  null, other_number, boolean, number, string, array, object, no_items, item, no_fields, field,
  Json, Items, Fields, get_field, field_in,
}
use gitglasses.Base.{
  ◌==◌, text_eq, not, length, Bool, trim, if◌then◌else◌, codes, Text, Option, List, ℕ, zero, suc,
  refl, [], ◌∷◌, true, false, none, some, inl, inr, ◌++◌, ◌≡◌, arith,
}
use gitglasses.Base.Decimal.{decimal}
use gitglasses.Base.Sets.{has}

pub record RepoGroup : Type 0 where
  pub id : Text
  pub name : Text
  pub repos : List Text

-- The paths of the `repos` that have one.
path_of : Option Json → List Text → List Text
path_of (some (string path)) paths = path ∷ paths
path_of _ paths = paths

pub paths_of : Items → List Text
unfolding path_of
paths_of no_items = []
paths_of (item repo repos) = path_of (get_field (codes "path") repo) (paths_of repos)

group_from : Option Json → Option Json → Option Json → List RepoGroup → List RepoGroup
unfolding paths_of
group_from (some (string id)) (some (string name)) (some (array repos)) groups =
    record { id = id; name = name; repos = paths_of repos } ∷ groups
group_from _ _ _ groups = groups

-- An entry that is not a group is dropped.
pub groups_in : Items → List RepoGroup
unfolding group_from
groups_in no_items = []
groups_in (item entry entries) =
    group_from (get_field (codes "id") entry) (get_field (codes "name") entry)
      (get_field (codes "repos") entry) (groups_in entries)

pub parse_repo_groups : Json → List RepoGroup
unfolding groups_in
parse_repo_groups (array entries) = groups_in entries
parse_repo_groups _ = []

pub path_items : List Text → Items
path_items [] = no_items
path_items (path ∷ paths) =
    item (object (field (codes "path") (string path) no_fields)) (path_items paths)

group_object : RepoGroup → Json
unfolding path_items
group_object group = object (
    field (codes "id") (string group.id) (
      field (codes "name") (string group.name)
        (field (codes "repos") (array (path_items group.repos)) no_fields)))

pub group_items : List RepoGroup → Items
unfolding group_object
group_items [] = no_items
group_items (group ∷ groups) = item (group_object group) (group_items groups)

pub serialize_repo_groups : List RepoGroup → Json
unfolding group_items
serialize_repo_groups groups = array (group_items groups)

-- `workspaceFileContents`, before it is printed.
pub workspace_file : RepoGroup → Json
unfolding path_items
workspace_file group = object (field (codes "folders") (array (path_items group.repos)) no_fields)

pub record ExportedRepo : Type 0 where
  pub remote_url : Option Text
  pub path : Option Text

repo_fields : Option Text → Option Text → Fields
repo_fields (some (c ∷ url)) path = field (codes "remoteUrl") (string (c ∷ url)) no_fields
repo_fields _ (some path) = field (codes "path") (string path) no_fields
repo_fields _ none = no_fields

pub repo_items : List ExportedRepo → Items
unfolding repo_fields
repo_items [] = no_items
repo_items (repo ∷ repos) = item (object (repo_fields repo.remote_url repo.path)) (repo_items repos)

-- `serializeGroupExport`, before it is printed.
pub group_export : Text → List ExportedRepo → Json
unfolding repo_items
group_export name repos = object (
    field (codes "format") (string (codes "gitglasses-group")) (
      field (codes "version") (number 1) (
        field (codes "name") (string name)
          (field (codes "repos") (array (repo_items repos)) no_fields))))

pub data ImportError : Type 0 where
  not_json not_an_object wrong_format wrong_version no_name no_repos_array no_usable_repos :
      ImportError

pub data GroupImportResult : Type 0 where
  imported : Text → List ExportedRepo → GroupImportResult
  failed : ImportError → GroupImportResult

is_blank : Text → Bool
unfolding trim
is_blank text = text_eq (trim text) []

repo_by_path : Option Json → List ExportedRepo → List ExportedRepo
unfolding is_blank
repo_by_path (some (string path)) repos =
    if is_blank path then repos else record { remote_url = none; path = some path } ∷ repos
repo_by_path _ repos = repos

imported_repo : Option Json → Option Json → List ExportedRepo → List ExportedRepo
unfolding repo_by_path trim
imported_repo (some (string url)) path repos =
    if is_blank url
    then repo_by_path path repos
    else record { remote_url = some (trim url); path = none } ∷ repos
imported_repo _ path repos = repo_by_path path repos

pub imported_repos : Items → List ExportedRepo
unfolding imported_repo
imported_repos no_items = []
imported_repos (item entry entries) =
    imported_repo (get_field (codes "remoteUrl") entry) (get_field (codes "path") entry)
      (imported_repos entries)

import_repos : Text → List ExportedRepo → GroupImportResult
unfolding trim
import_repos name [] = failed no_usable_repos
import_repos name (repo ∷ repos) = imported (trim name) (repo ∷ repos)

import_named : Text → Option Json → GroupImportResult
unfolding import_repos imported_repos
import_named name (some (array entries)) = import_repos name (imported_repos entries)
import_named name _ = failed no_repos_array

import_version_1 : Option Json → Option Json → GroupImportResult
unfolding import_named is_blank
import_version_1 (some (string name)) repos =
    if is_blank name then failed no_name else import_named name repos
import_version_1 _ repos = failed no_name

has_format : Option Json → Bool
has_format (some (string format)) = text_eq format (codes "gitglasses-group")
has_format _ = false

is_version_1 : Option Json → Bool
is_version_1 (some (number n)) = n == 1
is_version_1 _ = false

import_fields : Fields → GroupImportResult
unfolding import_version_1 has_format is_version_1
import_fields fields =
    if not (has_format (field_in (codes "format") fields))
    then failed wrong_format
    else if not (is_version_1 (field_in (codes "version") fields))
    then failed wrong_version
    else import_version_1 (field_in (codes "name") fields) (field_in (codes "repos") fields)

pub parse_group_export : Option Json → GroupImportResult
unfolding import_fields
parse_group_export none = failed not_json
parse_group_export (some (object fields)) = import_fields fields
parse_group_export (some _) = failed not_an_object

pub candidate : Text → ℕ → Text
unfolding decimal
candidate name n = name ++ codes " (" ++ decimal n ++ codes ")"

-- The loop of `uniqueGroupName` from `n` on.
pub next_free : ℕ → ℕ → Text → List Text → Option Text
unfolding candidate
next_free zero n name taken = none
next_free (suc fuel) n name taken =
    let rest = next_free fuel (suc n) name taken in
    if has (candidate name n) taken then rest else some (candidate name n)

-- As many rounds as there are names, and one more.
pub unique_group_name : Text → List Text → Option Text
unfolding next_free
unique_group_name name existing =
    let numbered = next_free (suc (length existing)) 2 name existing in
    if has name existing then numbered else some name
