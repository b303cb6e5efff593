-- ===== src/Editor/Failures.antt =====
-- extension/src/sync/syncLogic.ts: `operationActions` and `describeFailure`, on an error's GitErrorData (none when it
-- carries no such data). A sentence for the user is a constructor with what it is made of; git's own words are a parameter.
pub mod Offers
mod Examples
use gitglasses.Base.{
  Option, Bool, List, Text, codes, if◌then◌else◌, ◌&&◌, not, [], ◌∷◌, true, false, none, some, ◌++◌,
}

pub data SequencerOperation : Type 0 where
  idle merge rebase cherry_pick revert : SequencerOperation

-- The kinds that `describeFailure` tells apart, and any other.
pub data GitErrorKind : Type 0 where
  cancelled auth host_key publickey signing rejected no_upstream no_remote network timeout divergent
        empty_commit other_kind :
      GitErrorKind

pub record GitErrorData : Type 0 where
  pub kind : GitErrorKind
  pub operation : Option SequencerOperation
  pub host : Option Text
  pub partial_clone : Bool
  pub plink : Bool

pub data FailureAction : Type 0 where
  retry show_log pull publish continue skip abort open_conflicts : FailureAction

pub record Offer : Type 0 where
  pub label : Text
  pub action : FailureAction

pub data Sentence : Type 0 where
  plink_cannot_ask took_too_long was_cancelled key_not_accepted not_signed was_rejected
        tracks_nothing has_diverged :
      Text → Sentence
  no_credentials no_credentials_for_clone host_not_verified not_reached : Text → Text → Sentence
  prompt_dismissed already_applied : Text → Sentence
  no_remote_to_publish : Sentence
  git_said git_stopped : Text → Text → Sentence

pub record FailurePresentation : Type 0 where
  pub message : Sentence
  pub actions : List Offer
  pub silent : Bool

abbrev pub show_log_offer : Offer
show_log_offer = record { label = codes "Show Log"; action = show_log }

abbrev pub retry_offer : Offer
retry_offer = record { label = codes "Retry"; action = retry }

abbrev pub label_of : SequencerOperation → Option Text
label_of idle = none
label_of merge = some (codes "Merge")
label_of rebase = some (codes "Rebase")
label_of cherry_pick = some (codes "Cherry-pick")
label_of revert = some (codes "Revert")

abbrev pub operation_label : Option SequencerOperation → Option Text
operation_label none = none
operation_label (some operation) = label_of operation

abbrev pub is_merge : SequencerOperation → Bool
is_merge merge = true
is_merge operation = false

pub steps : SequencerOperation → Bool → Option Text → List Offer
steps operation can_continue none = []
steps operation can_continue (some label) =
    (if can_continue then record { label = codes "Continue"; action = continue } ∷ [] else [])
    ++ (if is_merge operation
        then []
        else record { label = codes "Skip Commit"; action = skip } ∷ [])
    ++ record { label = codes "Abort " ++ label; action = abort } ∷ []

pub operation_actions : Option SequencerOperation → Bool → List Offer
unfolding steps
operation_actions none can_continue = []
operation_actions (some operation) can_continue = steps operation can_continue (label_of operation)

abbrev pub or_text : Option Text → Text → Text
or_text none default = default
or_text (some text) default = text

abbrev pub present : Sentence → List Offer → FailurePresentation
present message actions = record { message = message; actions = actions; silent = false }

abbrev retries : Bool → List Offer
retries can_retry = if can_retry then retry_offer ∷ [] else []

-- The case 'cancelled', by what git stopped in.
on_cancelled : Text → Option SequencerOperation → Option Text → FailurePresentation
unfolding operation_actions
on_cancelled label operation none = record {
  message = was_cancelled label;
  actions = [];
  silent = true;
}
on_cancelled label operation (some stopped_in) =
    present (prompt_dismissed stopped_in) (operation_actions operation true ++ show_log_offer ∷ [])

-- What follows the cases.
on_other : Text → Text → List Offer → Option SequencerOperation → Option Text → FailurePresentation
unfolding operation_actions
on_other label words again operation none =
    present (git_said label words) (again ++ show_log_offer ∷ [])
on_other label words again operation (some stopped_in) =
    present (git_stopped stopped_in words) (operation_actions operation true ++ show_log_offer ∷ [])

-- Without an operation, a signing failure offers to retry.
signing_retries : List Offer → Option SequencerOperation → List Offer
signing_retries again none = again
signing_retries again (some operation) = []

by_kind : GitErrorKind → Text → Text → Text → List Offer → GitErrorData → FailurePresentation
unfolding on_cancelled on_other operation_actions signing_retries
by_kind cancelled label words host again d =
    on_cancelled label d.operation (operation_label d.operation)
by_kind auth label words host again d =
    present
      (if d.partial_clone then no_credentials_for_clone label host else no_credentials label host)
      (again ++ show_log_offer ∷ [])
by_kind host_key label words host again d =
    present (host_not_verified label host) (show_log_offer ∷ [])
by_kind publickey label words host again d =
    present (key_not_accepted label) (again ++ show_log_offer ∷ [])
by_kind signing label words host again d =
    present (not_signed label) (
      operation_actions d.operation true
      ++ signing_retries again d.operation
      ++ show_log_offer ∷ [])
by_kind rejected label words host again d =
    present (was_rejected label)
      (record { label = codes "Pull"; action = pull } ∷ show_log_offer ∷ [])
by_kind no_upstream label words host again d =
    present (tracks_nothing label)
      (record { label = codes "Publish Branch"; action = publish } ∷ [])
by_kind no_remote label words host again d = present no_remote_to_publish []
by_kind network label words host again d =
    present (not_reached label host) (again ++ show_log_offer ∷ [])
by_kind timeout label words host again d =
    present (took_too_long label) (again ++ show_log_offer ∷ [])
by_kind divergent label words host again d =
    present (has_diverged label)
      (record { label = codes "Pull"; action = pull } ∷ show_log_offer ∷ [])
by_kind empty_commit label words host again d =
    present (already_applied (or_text (operation_label d.operation) label))
      (operation_actions d.operation false ++ show_log_offer ∷ [])
by_kind other_kind label words host again d =
    on_other label words again d.operation (operation_label d.operation)

abbrev pub is_cancelled : GitErrorKind → Bool
is_cancelled cancelled = true
is_cancelled kind = false

-- `words` is `gitMessage(error)`.
pub describe_failure : Text → Text → Option GitErrorData → Bool → FailurePresentation
unfolding by_kind on_other
describe_failure label words none can_retry = on_other label words (retries can_retry) none none
describe_failure label words (some d) can_retry =
    if d.plink && not (is_cancelled d.kind)
    then present (plink_cannot_ask label) (retries can_retry ++ show_log_offer ∷ [])
    else by_kind d.kind label words (or_text d.host (codes "the remote")) (retries can_retry) d
