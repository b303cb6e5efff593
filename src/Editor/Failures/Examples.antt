-- ===== src/Editor/Failures/Examples.antt =====
-- Instances of the theorems on the presentation of failures.
use gitglasses.Base.{codes, Option, some_of, ◌&&◌, not, refl, [], ◌∷◌, true, false, none, some, ◌≡◌}
use gitglasses.Editor.Failures.{
  show_log, GitErrorData, cancelled, signing, idle, rebase, describe_failure, operation_actions,
}
use gitglasses.Editor.Failures.Offers.{
  describe_failure-AreConsistent, AreConsistent, describe_failure-silent, in_progress,
  was_dismissed,
}

-- A prompt that was dismissed in the middle of a rebase.
abbrev dismissed : Option GitErrorData
dismissed = some (record {
  kind = cancelled;
  operation = some rebase;
  host = none;
  partial_clone = false;
  plink = true;
})

describe_failure-AreConsistent_example :
    AreConsistent true true (describe_failure (codes "Pull") [] dismissed true)
describe_failure-AreConsistent_example =
    describe_failure-AreConsistent (codes "Pull") [] dismissed true

describe_failure-silent_example :
    let p = describe_failure (codes "Pull") [] dismissed true in
    (p.silent ≡ (was_dismissed dismissed && not (in_progress dismissed)))
    × ((p.silent && some_of (λ offer. true) p.actions) ≡ false)
describe_failure-silent_example = describe_failure-silent (codes "Pull") [] dismissed true

-- A signing failure with the operation 'none' does not offer to retry.
signing_run :
    (describe_failure
      (codes "Commit")
      []
      (some (record {
        kind = signing;
        operation = some idle;
        host = none;
        partial_clone = false;
        plink = false;
      }))
      true).actions
    ≡ record { label = codes "Show Log"; action = show_log } ∷ []
unfolding describe_failure operation_actions
signing_run = refl
