-- ===== src/Editor/Groups/Shared.antt =====
-- extension/src/groups/groupsLogic.ts: a shared group is imported as it was exported.
use gitglasses.Base.{
  ◌≢◌, text_eq_iff, codes, ap, ◌∙◌, ◌&&◌, text_eq, not, List, Bool, trim, Text, Option, refl, [],
  ◌∷◌, true, false, none, some, ◌≡◌, arith,
}
use gitglasses.Editor.Groups.{
  import_version_1, is_version_1, imported, has_format, field_in, repo_by_path, import_fields,
  array, repo_items, repo_fields, import_repos, group_export, parse_group_export, is_blank,
  imported_repos, imported_repo, import_named, ExportedRepo,
}

-- The repository as it travels: its address when it has one, else its path.
travelling : Option Text → Option Text → ExportedRepo
travelling (some (c ∷ url)) path = record { remote_url = some (c ∷ url); path = none }
travelling _ path = record { remote_url = none; path = path }

pub travellings : List ExportedRepo → List ExportedRepo
unfolding travelling
travellings [] = []
travellings (repo ∷ repos) = travelling repo.remote_url repo.path ∷ travellings repos

has_path : Option Text → Bool
unfolding is_blank
has_path none = false
has_path (some path) = not (is_blank path)

-- A repository can travel by an address without spaces around it, or by a path that is not blank.
can_travel : Option Text → Option Text → Bool
unfolding has_path
can_travel (some (c ∷ url)) path = text_eq (trim (c ∷ url)) (c ∷ url)
can_travel (some []) path = has_path path
can_travel none path = has_path path

unfoldable pub all_travel : List ExportedRepo → Bool
unfolding can_travel
all_travel [] = true
all_travel (repo ∷ repos) = can_travel repo.remote_url repo.path && all_travel repos

imported_repo-fields :
    (url path : Option Text) (repos : List ExportedRepo)
    → can_travel url path ≡ true
    → imported_repo
        (field_in (codes "remoteUrl") (repo_fields url path))
        (field_in (codes "path") (repo_fields url path))
        repos
      ≡ travelling url path ∷ repos
unfolding imported_repo repo_fields can_travel has_path travelling repo_by_path is_blank
imported_repo-fields (some (c ∷ url)) path repos h =
    let e = (text_eq_iff (trim (c ∷ url)) (c ∷ url)).0 h in rw e refl
imported_repo-fields (some []) none repos h = cc
imported_repo-fields (some []) (some path) repos h =
    let e : text_eq (trim path) [] ≡ false = ground arith in rw e refl
imported_repo-fields none none repos h = cc
imported_repo-fields none (some path) repos h =
    let e : text_eq (trim path) [] ≡ false = ground arith in rw e refl

imported_repos-repo_items :
    (repos : List ExportedRepo)
    → all_travel repos ≡ true
    → imported_repos (repo_items repos) ≡ travellings repos
unfolding imported_repos repo_items all_travel travellings
imported_repos-repo_items [] h = refl
imported_repos-repo_items (repo ∷ repos) h =
    imported_repo-fields repo.remote_url repo.path (imported_repos (repo_items repos))
      (ground arith)
    ∙ ap (◌∷◌ (travelling repo.remote_url repo.path))
        (imported_repos-repo_items repos (ground arith))

import_named-repos :
    (name : Text) (repo : ExportedRepo) (repos : List ExportedRepo)
    → all_travel (repo ∷ repos) ≡ true
    → import_named name (some (array (repo_items (repo ∷ repos))))
      ≡ imported (trim name) (travellings (repo ∷ repos))
unfolding import_named import_repos travellings
import_named-repos name repo repos h = rw (imported_repos-repo_items (repo ∷ repos) h) refl

-- A group with a name that is not blank and with at least one repository, all of which can travel, is
-- imported from the file that it was exported to: its name without the spaces around it, and for each
-- repository its address, or its path where it has no address.
pub parse_group_export-group_export :
    (name : Text) (repo : ExportedRepo) (repos : List ExportedRepo)
    → trim name ≢ []
    → all_travel (repo ∷ repos) ≡ true
    → parse_group_export (some (group_export name (repo ∷ repos)))
      ≡ imported (trim name) (travellings (repo ∷ repos))
unfolding parse_group_export group_export import_fields has_format is_version_1 import_version_1
    is_blank
parse_group_export-group_export name repo repos n h =
    let e : text_eq (trim name) [] ≡ false = ground (arith, text_eq_iff (trim name) []) in
    rw e (import_named-repos name repo repos h)
