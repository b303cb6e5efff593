-- ===== src/Editor/Groups/Stored.antt =====
-- extension/src/groups/groupsLogic.ts: groups survive their storage.
use gitglasses.Base.{ap, Text, List, refl, [], ◌∷◌, ◌≡◌}
use gitglasses.Editor.Groups.{
  group_from, RepoGroup, path_of, group_object, serialize_repo_groups, path_items, group_items,
  paths_of, parse_repo_groups, groups_in,
}

paths_of-path_items : (paths : List Text) → paths_of (path_items paths) ≡ paths
unfolding paths_of path_items path_of
paths_of-path_items [] = refl
paths_of-path_items (path ∷ paths) = ap (◌∷◌ path) (paths_of-path_items paths)

groups_in-group_items : (groups : List RepoGroup) → groups_in (group_items groups) ≡ groups
unfolding groups_in group_items group_object group_from
groups_in-group_items [] = refl
groups_in-group_items (group ∷ groups) =
    rw (paths_of-path_items group.repos, groups_in-group_items groups) refl

-- Groups that are stored and parsed again are the groups that were stored.
pub parse_repo_groups-serialize_repo_groups :
    (groups : List RepoGroup) → parse_repo_groups (serialize_repo_groups groups) ≡ groups
unfolding parse_repo_groups serialize_repo_groups
parse_repo_groups-serialize_repo_groups groups = groups_in-group_items groups
