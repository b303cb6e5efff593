-- ===== src/Rebase/Autosquash/Examples.antt =====
-- Instances of the theorems on autosquash.
use gitglasses.Base.{codes, Text, List, refl, [], ◌∷◌, true, ◌≡◌}
use gitglasses.Rebase.Plan.{PlanEntry, PlanAction, pick, fixup, squash}
use gitglasses.Rebase.Autosquash.{
  autosquash, has_autosquash_candidates, prefixed, strip, is_short_sha, is_hex,
}
use gitglasses.Rebase.Autosquash.Kept.{count_of}
use gitglasses.Rebase.Autosquash.Placed.{autosquash-count_of}

abbrev commit : Text → Text → PlanAction → PlanEntry
commit sha summary action = record { sha = sha; summary = summary; action = action; message = [] }

-- A fold of a fold, and one that names no commit.
abbrev plan : List PlanEntry
plan =
    commit (codes "a") (codes "one") pick
    ∷ commit (codes "b") (codes "two") pick
    ∷ commit (codes "c") (codes "fixup! one") pick
    ∷ commit (codes "d") (codes "squash! fixup! one") pick
    ∷ commit (codes "e") (codes "fixup! six") pick
    ∷ []

autosquash-count_of_example : count_of (codes "d") (autosquash plan) ≡ count_of (codes "d") plan
autosquash-count_of_example =
    autosquash-count_of plan (codes "d") (refl, (refl, (refl, (refl, (refl, tt)))))

folded_plan :
    autosquash plan
    ≡ commit (codes "a") (codes "one") pick
      ∷ commit (codes "c") (codes "fixup! one") fixup
      ∷ commit (codes "d") (codes "squash! fixup! one") squash
      ∷ commit (codes "b") (codes "two") pick
      ∷ commit (codes "e") (codes "fixup! six") pick
      ∷ []
unfolding autosquash prefixed strip is_short_sha is_hex
folded_plan = refl

candidates_found : has_autosquash_candidates plan ≡ true
unfolding has_autosquash_candidates autosquash prefixed strip is_short_sha is_hex
candidates_found = refl
