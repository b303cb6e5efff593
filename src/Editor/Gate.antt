-- ===== src/Editor/Gate.antt =====
-- extension/src/engine/capabilityGate.ts: which methods the engine can serve, and the tracker of heads.
use gitglasses.Base.{
  subst, Bool-cases, starts_with, some_of, text_eq_iff, not, if◌then◌else◌, text_eq, codes, Bool,
  Text, Option, List, refl, [], ◌∷◌, true, false, none, some, inl, inr, ◌≡◌, arith,
}
use gitglasses.Base.Sets.{has}
use gitglasses.Base.Maps.{lookup-set_key, lookup-set_key_other, lookup, set_key}

-- The fields of `EngineCapabilities` that are read.
pub record EngineCapabilities : Type 0 where
  pub git_cli : Option Bool
  pub restricted : Option Bool

-- `RESTRICTED_MODE_METHODS` of packages/protocol/src/schema/requests.ts.
abbrev pub restricted_mode_methods : List Text
restricted_mode_methods =
    codes "initialize"
    ∷ codes "shutdown"
    ∷ codes "repo/discover"
    ∷ codes "repo/close"
    ∷ codes "repo/list"
    ∷ codes "repo/state"
    ∷ codes "blame/file"
    ∷ codes "log/commits"
    ∷ codes "log/compare"
    ∷ codes "search/commits"
    ∷ codes "rev/fileAtRev"
    ∷ codes "refs/list"
    ∷ codes "stash/list"
    ∷ codes "status/summary"
    ∷ codes "graph/rows"
    ∷ codes "graph/find"
    ∷ codes "diff/commit"
    ∷ codes "diff/refs"
    ∷ codes "diff/fileHunks"
    ∷ codes "remote/list"
    ∷ codes "commit/details"
    ∷ codes "worktree/list"
    ∷ codes "worktree/status"
    ∷ codes "notes/read"
    ∷ codes "commit/provenance"
    ∷ []

abbrev pub cli_method_prefixes : List Text
cli_method_prefixes =
    codes "mutate/" ∷ codes "rebase/" ∷ codes "patch/" ∷ codes "branch/" ∷ codes "tag/" ∷ []

abbrev pub cli_methods : List Text
cli_methods =
    codes "remote/add"
    ∷ codes "remote/remove"
    ∷ codes "stash/push"
    ∷ codes "stash/apply"
    ∷ codes "stash/drop"
    ∷ codes "worktree/add"
    ∷ codes "worktree/remove"
    ∷ codes "history/file"
    ∷ codes "history/line"
    ∷ codes "search/log"
    ∷ codes "notes/addFetchRefspec"
    ∷ []

pub requires_git_cli : Text → Bool
requires_git_cli method =
    if has method cli_methods then true else some_of (starts_with method) cli_method_prefixes

is_true : Option Bool → Bool
is_true none = false
is_true (some b) = b

is_false : Option Bool → Bool
is_false none = false
is_false (some b) = not b

unfoldable pub is_method_available : Option EngineCapabilities → Text → Bool
unfolding is_true is_false requires_git_cli
is_method_available none method = true
is_method_available (some caps) method =
    if is_true caps.restricted
    then has method restricted_mode_methods
    else if not (requires_git_cli method)
    then true
    else not (is_false caps.git_cli)

-- `HeadChangeTracker`.
changed_from : Option Text → Text → Bool
changed_from none oid = false
changed_from (some previous) oid = not (text_eq previous oid)

pub update_head : Text → Text → List (Text × Text) → List (Text × Text) × Bool
unfolding changed_from
update_head repo_id oid last_oids =
    (set_key repo_id oid last_oids, changed_from (lookup repo_id last_oids) oid)

-- A member of a list without such members is no such member.
has-some_of :
    (p : Text → Bool) (t : Text) (ts : List Text)
    → some_of p ts ≡ false
    → has t ts ≡ true
    → p t ≡ false
has-some_of p t [] h k = cc
has-some_of p t (s ∷ ts) h k = elim (Bool-cases (text_eq s t)) [
  | inl e ↦ subst (λ x. p x ≡ false) ((text_eq_iff s t).0 e) (ground arith)
  | inr e ↦ has-some_of p t ts (ground arith) (ground arith)
]

-- No method of Restricted Mode needs the git CLI.
restricted-requires_git_cli : some_of requires_git_cli restricted_mode_methods ≡ false
unfolding requires_git_cli
restricted-requires_git_cli = refl

either_serves :
    (method : Text) (r : Bool) (c : Option Bool)
    → requires_git_cli method ≡ false
    → has method restricted_mode_methods ≡ true
    → (if r
        then has method restricted_mode_methods
        else if not (requires_git_cli method)
        then true
        else not (is_false c))
      ≡ true
either_serves method true c h k = k
either_serves method false c h k = rw h refl

-- Trust only adds methods: what an engine in Restricted Mode serves, every engine serves, whatever
-- its capabilities; so no feature that is on in Restricted Mode turns off when the folder is trusted.
pub is_method_available-restricted :
    (method : Text) (git_cli : Option Bool) (caps : Option EngineCapabilities)
    → is_method_available (some (record { git_cli = git_cli; restricted = some true })) method
      ≡ true
    → is_method_available caps method ≡ true
unfolding is_method_available is_true
is_method_available-restricted method git_cli none h = refl
is_method_available-restricted method git_cli (some caps) h =
    either_serves method (is_true caps.restricted) caps.git_cli
      (has-some_of requires_git_cli method restricted_mode_methods restricted-requires_git_cli h) h

-- The head of a repository is reported as changed exactly when it differs from the one of its last
-- update, whatever another repository reports in between.
pub update_head_lem :
    (repo_id oid other_id other_oid next : Text) (last_oids : List (Text × Text))
    → text_eq other_id repo_id ≡ false
    → let (seen, _) = update_head repo_id oid last_oids in
      let (later, _) = update_head other_id other_oid seen in
      (update_head repo_id next later).1 ≡ not (text_eq oid next)
unfolding update_head changed_from
update_head_lem repo_id oid other_id other_oid next last_oids h =
    rw
      (
        lookup-set_key_other other_id repo_id other_oid (set_key repo_id oid last_oids) h,
        lookup-set_key repo_id oid last_oids,
      )
      refl
