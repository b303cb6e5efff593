-- ===== src/Blame/Model/Examples.antt =====
-- Instances of the theorems on the blame model.
use gitglasses.Base.{
  true, codes, get_elem?, ◌&&◌, Text, List, refl, [], ◌∷◌, false, none, some, ◌≡◌,
}
use gitglasses.Base.Int.{ℤ, pos, negsuc}
use gitglasses.Blame.Keys.{
  BlameKey, FileBlame, affects_other_files_blame, cache_key_for, estimate_blame_bytes, options_key,
  hunk_for_line,
}
use gitglasses.Blame.Model.{Event, asks, goes, ends, live, answered, run}
use gitglasses.Blame.Model.Cache.{
  BlameModel, new_model, key_passes, in_repo, of_file, invalidate_saved,
}
use gitglasses.Blame.Model.Budget.{IsModel}
use gitglasses.Blame.Model.Bounded.{run-IsModel, new_model-IsModel}
use gitglasses.Blame.Model.Quiet.{IsCounted}
use gitglasses.Blame.Model.Callers.{run-IsCounted}
use gitglasses.Blame.Model.Dropped.{invalidate_saved-dropped}
use gitglasses.Blame.Model.Reasons.{Reason}
use gitglasses.Blame.Model.Causes.{IsStoppable, step-cancelled}
use gitglasses.Blame.Model.{step}
use gitglasses.Blame.Model.Dropped.{cancelled_at}

abbrev same : Text → Text
same t = t

abbrev key_of : Text → ℤ → BlameKey
key_of path version = record {
  repo_id = codes "r";
  path = path;
  version = version;
  rev = none;
  options = none;
}

abbrev small : FileBlame
small = record {
  hunks =
      record { sha = codes "s"; path = codes "f"; previous = none; result_line = 1; line_count = 2 }
      ∷ [];
  commits = [];
  total_lines = 2;
  lfs = false;
}

-- Two callers of one file, one of them leaves; an answer; a newer version of the buffer; a file that is saved.
abbrev session : List Event
session =
    asks (key_of (codes "f") (pos 1)) live
    ∷ asks (key_of (codes "f") (pos 1)) live
    ∷ goes 0
    ∷ asks (key_of (codes "g") (negsuc 0)) live
    ∷ ends 1 (answered none small)
    ∷ asks (key_of (codes "f") (pos 2)) live
    ∷ []

empty-IsCounted : IsCounted (new_model 1000 2)
empty-IsCounted id = refl

run-IsModel_example : IsModel (run same session (new_model 1000 2))
run-IsModel_example = run-IsModel same session (new_model 1000 2) (new_model-IsModel 1000 2)

run-IsCounted_example : IsCounted (run same session (new_model 1000 2))
run-IsCounted_example =
    run-IsCounted same session (new_model 1000 2) (new_model-IsModel 1000 2) empty-IsCounted

-- The first version of the buffer is in the cache.
abbrev asked : BlameModel
asked = run same (asks (key_of (codes "f") (pos 1)) live ∷ []) (new_model 1000 2)

step-cancelled_example :
    let event = asks (key_of (codes "f") (pos 2)) live in
    (cancelled_at 0 (step same event asked).requests ≡ true → Reason same event 0 asked)
    × (Reason same event 0 asked
        → IsStoppable event 0 asked
        → cancelled_at 0 (step same event asked).requests ≡ true)
unfolding run cache_key_for options_key
step-cancelled_example =
    step-cancelled same (asks (key_of (codes "f") (pos 2)) live) asked 0
      (run-IsModel same (asks (key_of (codes "f") (pos 1)) live ∷ []) (new_model 1000 2)
        (new_model-IsModel 1000 2))
      (run-IsCounted same (asks (key_of (codes "f") (pos 1)) live ∷ []) (new_model 1000 2)
        (new_model-IsModel 1000 2) empty-IsCounted)
      refl

abbrev answered_model : BlameModel
answered_model = run same session (new_model 1000 2)

invalidate_saved-dropped_example :
    let after = invalidate_saved same (codes "r") (codes "g") asked in
    (key_passes (of_file (codes "r") (codes "g")) (get_elem? after.requests 0) ≡ false)
    × ((affects_other_files_blame same (codes "g")
          && key_passes (in_repo (some (codes "r"))) (get_elem? after.requests 0))
        ≡ false)
unfolding run cache_key_for options_key affects_other_files_blame
invalidate_saved-dropped_example =
    invalidate_saved-dropped same (codes "r") (codes "g") asked
      (cache_key_for (key_of (codes "f") (pos 1))) 0 refl

total_after : answered_model.total_bytes ≡ 124
unfolding run cache_key_for options_key estimate_blame_bytes
total_after = refl

hunk_found :
    hunk_for_line small 2
    ≡ some (record {
      sha = codes "s";
      path = codes "f";
      previous = none;
      result_line = 1;
      line_count = 2;
    })
unfolding hunk_for_line
hunk_found = refl
