-- ===== src/Rebase/Autosquash.antt =====
-- extension/webviews-src/rebase/rebaseLogic.ts: `autosquash`. The map of the folds has a sha's chain for value.
pub mod Prefixes
pub mod Kept
pub mod Placed
mod Examples
use gitglasses.Base.{
  ◌==◌, ◌&&◌, ◌||◌, not, leb, starts_with, text_eq, some_of, find_first, drop, length,
  if◌then◌else◌, codes, Text, Option, List, Bool, ℕ, zero, suc, [], ◌∷◌, true, false, none, some,
  ◌++◌,
}
use gitglasses.Base.Maps.{lookup, set_key}
use gitglasses.Rebase.Plan.{PlanAction, PlanEntry, fixup, squash, action_eq}

-- The action that a subject's prefix asks for, and the subject after it.
pub prefixed : Text → Option (PlanAction × Text)
prefixed subject =
    if starts_with subject (codes "fixup! ")
    then some (fixup, drop 7 subject)
    else if starts_with subject (codes "squash! ")
    then some (squash, drop 8 subject)
    else none

strip_next : Text → (Text → Text) → Option (PlanAction × Text) → Text
strip_next subject again none = subject
strip_next subject again (some (action, rest)) = again rest

-- Every prefix goes: a turn for each character is enough.
pub strip : ℕ → Text → Text
unfolding prefixed strip_next
strip zero subject = subject
strip (suc fuel) subject = strip_next subject (strip fuel) (prefixed subject)

pub is_hex : ℕ → Bool
is_hex c = (leb 48 c && leb c 57) || (leb 97 c && leb c 102)

pub is_short_sha : Text → Bool
unfolding is_hex
is_short_sha text =
    leb 4 (length text) && leb (length text) 40 && not (some_of (λ c. not (is_hex c)) text)

abbrev or_entry : Option PlanEntry → Option PlanEntry → Option PlanEntry
or_entry none other = other
or_entry (some entry) other = some entry

pub autosquash_target : Text → List PlanEntry → Option PlanEntry
unfolding strip is_short_sha
autosquash_target subject earlier =
    let rest = strip (length subject) subject in
    or_entry (find_first (λ entry. text_eq entry.summary rest) earlier) (
      or_entry
        (if is_short_sha rest
          then find_first (λ entry. starts_with entry.sha rest) earlier
          else none)
        (find_first (λ entry. starts_with entry.summary rest) earlier))

abbrev pub Folds : Type 0
Folds = List (Text × List PlanEntry)

abbrev pub chain_in : Option (List PlanEntry) → List PlanEntry
chain_in none = []
chain_in (some chain) = chain

abbrev pub chain_of : Text → Folds → List PlanEntry
chain_of sha folds = chain_in (lookup sha folds)

abbrev pub holds : Text → List PlanEntry → Bool
holds sha = some_of (λ entry. text_eq entry.sha sha)

abbrev pub or_target : Option PlanEntry → PlanEntry → PlanEntry
or_target none target = target
or_target (some entry) target = entry

-- The loop that looks for the root of a fold: the last chain with the target in it decides.
pub root_of : List PlanEntry → PlanEntry → Folds → PlanEntry → PlanEntry
root_of plan target [] root = root
root_of plan target ((root_sha, chain) ∷ folds) root = root_of plan target folds (
    if holds target.sha chain
    then or_target (find_first (λ entry. text_eq entry.sha root_sha) plan) target
    else root)

pub aim : PlanAction → Option PlanEntry → Option (PlanAction × PlanEntry)
aim action none = none
aim action (some target) = some (action, target)

-- The fold that an entry asks for: the action, and its target among the earlier ones.
fold_target : Text → List PlanEntry → Option (PlanAction × Text) → Option (PlanAction × PlanEntry)
unfolding autosquash_target aim
fold_target subject earlier none = none
fold_target subject earlier (some (action, rest)) = aim action (autosquash_target subject earlier)

pub fold_of : PlanEntry → List PlanEntry → Option (PlanAction × PlanEntry)
unfolding fold_target prefixed
fold_of entry earlier = fold_target entry.summary earlier (prefixed entry.summary)

abbrev pub append_fold : Text → PlanEntry → Folds → Folds
append_fold sha entry folds = set_key sha (chain_of sha folds ++ entry ∷ []) folds

-- A turn of the loop over the plan.
pub place :
    List PlanEntry
    → PlanEntry
    → Option (PlanAction × PlanEntry)
    → Folds × List PlanEntry
    → Folds × List PlanEntry
unfolding root_of
place plan entry none (folds, rest) = (folds, rest ++ entry ∷ [])
place plan entry (some (action, target)) (folds, rest) = (
  append_fold (root_of plan target folds target).sha (record entry { action = action }) folds,
  rest,
)

pub place_all :
    List PlanEntry
    → List PlanEntry
    → List PlanEntry
    → Folds × List PlanEntry
    → Folds × List PlanEntry
unfolding place fold_of
place_all plan earlier [] state = state
place_all plan earlier (entry ∷ entries) state =
    place_all plan (earlier ++ entry ∷ []) entries (place plan entry (fold_of entry earlier) state)

pub flat : List PlanEntry → Folds → List PlanEntry
flat [] folds = []
flat (entry ∷ rest) folds = entry ∷ (chain_of entry.sha folds ++ flat rest folds)

pub autosquash : List PlanEntry → List PlanEntry
unfolding place_all flat
autosquash plan = let (folds, rest) = place_all plan [] plan ([], []) in flat rest folds

differs : List PlanEntry → List PlanEntry → Bool
differs [] plan = false
differs (entry ∷ squashed) [] = true
differs (entry ∷ squashed) (planned ∷ plan) =
    not (text_eq entry.sha planned.sha && action_eq entry.action planned.action)
    || differs squashed plan

pub has_autosquash_candidates : List PlanEntry → Bool
unfolding differs
has_autosquash_candidates plan = differs (autosquash plan) plan
