-- ===== src/Editor/Failures/Offers.antt =====
-- extension/src/sync/syncLogic.ts: what `describeFailure` offers for a failure.
use gitglasses.Base.{
  codes, inl, inr, Option-cases, Bool-cases, some_of, Option, Bool, List, Text, ◌&&◌, ◌||◌, not,
  refl, [], ◌∷◌, true, false, none, some, ◌++◌, ◌≡◌, arith,
}
use gitglasses.Editor.Failures.{
  SequencerOperation, idle, merge, rebase, cherry_pick, revert, GitErrorKind, cancelled, auth,
  host_key, publickey, signing, rejected, no_upstream, no_remote, network, timeout, divergent,
  empty_commit, other_kind, GitErrorData, FailureAction, retry, continue, skip, abort, Offer,
  FailurePresentation, describe_failure, by_kind, on_other, on_cancelled, operation_actions, steps,
  signing_retries, retries, is_cancelled, or_text, present, not_signed, show_log_offer,
  operation_label,
}

abbrev pub is_retry : FailureAction → Bool
is_retry retry = true
is_retry action = false

abbrev pub is_abort : FailureAction → Bool
is_abort abort = true
is_abort action = false

-- A step of an operation that git left in progress.
abbrev pub is_step : FailureAction → Bool
is_step continue = true
is_step skip = true
is_step abort = true
is_step action = false

abbrev pub offers : (FailureAction → Bool) → FailurePresentation → Bool
offers test p = some_of (λ offer. test offer.action) p.actions

abbrev pub is_known : Option Text → Bool
is_known none = false
is_known (some label) = true

-- Whether the failure left an operation in progress.
abbrev pub in_progress : Option GitErrorData → Bool
in_progress none = false
in_progress (some d) = is_known (operation_label d.operation)

-- The offers fit together.
abbrev pub AreConsistent : Bool → Bool → FailurePresentation → Type 0
AreConsistent can_retry progress p =
    ((offers is_retry p && not can_retry) ≡ false)
    × ((offers is_step p && not progress) ≡ false)
    × ((offers is_retry p && offers is_step p) ≡ false)
    × (offers is_abort p ≡ offers is_step p)

abbrev acts : (FailureAction → Bool) → Offer → Bool
acts test offer = test offer.action

-- The steps of an operation are offered with its abort, and never to retry.
operation_actions-is_step :
    (operation : Option SequencerOperation) (c : Bool) (more : List Offer)
    → let all = operation_actions operation c ++ more in
      let known = is_known (operation_label operation) in
      (some_of (acts is_retry) all ≡ some_of (acts is_retry) more)
      × (some_of (acts is_step) all ≡ (known || some_of (acts is_step) more))
      × (some_of (acts is_abort) all ≡ (known || some_of (acts is_abort) more))
unfolding operation_actions steps
operation_actions-is_step none c more = (refl, refl, refl)
operation_actions-is_step (some idle) c more = (refl, refl, refl)
operation_actions-is_step (some merge) c more = ground arith
operation_actions-is_step (some rebase) c more = ground arith
operation_actions-is_step (some cherry_pick) c more = ground arith
operation_actions-is_step (some revert) c more = ground arith

signing_retries-known :
    (r : Bool) (operation : Option SequencerOperation)
    → AreConsistent r (is_known (operation_label operation)) (
        present (not_signed []) (
          operation_actions operation true
          ++ signing_retries (retries r) operation
          ++ show_log_offer ∷ []))
unfolding signing_retries operation_actions
signing_retries-known true none = (refl, refl, refl, refl)
signing_retries-known false none = (refl, refl, refl, refl)
signing_retries-known r (some operation) =
    ground (arith, operation_actions-is_step (some operation) true (show_log_offer ∷ []))

by_kind-AreConsistent :
    (kind : GitErrorKind) (operation : Option SequencerOperation) (h : Option Text)
    (label words host : Text) (can_retry clone plink : Bool)
    → AreConsistent can_retry (is_known (operation_label operation)) (
        by_kind kind label words host (retries can_retry) (record {
          kind = kind;
          operation = operation;
          host = h;
          partial_clone = clone;
          plink = plink;
        }))
unfolding by_kind on_other on_cancelled
by_kind-AreConsistent cancelled operation h label words host r c p =
    elim (Option-cases (operation_label operation)) [
      | inl e ↦ rw e (refl, refl, refl, refl)
      | inr (stopped_in, e) ↦
          rw e (ground (arith, e, operation_actions-is_step operation true (show_log_offer ∷ [])))
    ]
by_kind-AreConsistent auth operation h label words host r c p = ground arith
by_kind-AreConsistent host_key operation h label words host r c p = ground arith
by_kind-AreConsistent publickey operation h label words host r c p = ground arith
by_kind-AreConsistent signing operation h label words host r c p = signing_retries-known r operation
by_kind-AreConsistent rejected operation h label words host r c p = ground arith
by_kind-AreConsistent no_upstream operation h label words host r c p = ground arith
by_kind-AreConsistent no_remote operation h label words host r c p = ground arith
by_kind-AreConsistent network operation h label words host r c p = ground arith
by_kind-AreConsistent timeout operation h label words host r c p = ground arith
by_kind-AreConsistent divergent operation h label words host r c p = ground arith
by_kind-AreConsistent empty_commit operation h label words host r c p =
    ground (arith, operation_actions-is_step operation false (show_log_offer ∷ []))
by_kind-AreConsistent other_kind operation h label words host r c p =
    elim (Option-cases (operation_label operation)) [
      | inl e ↦ rw e (ground arith)
      | inr (stopped_in, e) ↦
          rw e (ground (arith, e, operation_actions-is_step operation true (show_log_offer ∷ [])))
    ]

-- Whatever the failure: to retry is offered only where the caller can retry; a step of an operation (continue, skip,
-- abort) only where the failure left one in progress; never both at once; and where a step is offered the abort is too.
pub describe_failure-AreConsistent :
    (label words : Text) (failure : Option GitErrorData) (can_retry : Bool)
    → AreConsistent can_retry (in_progress failure) (describe_failure label words failure can_retry)
unfolding describe_failure on_other
describe_failure-AreConsistent label words none r = ground arith
describe_failure-AreConsistent label words (some d) r =
    elim (Bool-cases (d.plink && not (is_cancelled d.kind))) [
      | inl e ↦ rw e (ground arith)
      | inr e ↦ rw e (
          by_kind-AreConsistent d.kind d.operation d.host label words
            (or_text d.host (codes "the remote")) r d.partial_clone d.plink)
    ]

abbrev pub was_dismissed : Option GitErrorData → Bool
was_dismissed none = false
was_dismissed (some d) = is_cancelled d.kind

by_kind-silent :
    (kind : GitErrorKind) (operation : Option SequencerOperation) (h : Option Text)
    (label words host : Text) (again : List Offer) (clone plink : Bool)
    → let p = by_kind kind label words host again (record {
      kind = kind;
      operation = operation;
      host = h;
      partial_clone = clone;
      plink = plink;
    }) in
      (p.silent ≡ (is_cancelled kind && not (is_known (operation_label operation))))
      × ((p.silent && some_of (λ offer. true) p.actions) ≡ false)
unfolding by_kind on_other on_cancelled
by_kind-silent cancelled operation h label words host again c p =
    elim (Option-cases (operation_label operation)) [
      | inl e ↦ rw e (refl, refl)
      | inr (stopped_in, e) ↦ rw e (refl, refl)
    ]
by_kind-silent other_kind operation h label words host again c p =
    elim (Option-cases (operation_label operation)) [
      | inl e ↦ rw e (refl, refl)
      | inr (stopped_in, e) ↦ rw e (refl, refl)
    ]
by_kind-silent auth operation h label words host again c p = (refl, refl)
by_kind-silent host_key operation h label words host again c p = (refl, refl)
by_kind-silent publickey operation h label words host again c p = (refl, refl)
by_kind-silent signing operation h label words host again c p = (refl, refl)
by_kind-silent rejected operation h label words host again c p = (refl, refl)
by_kind-silent no_upstream operation h label words host again c p = (refl, refl)
by_kind-silent no_remote operation h label words host again c p = (refl, refl)
by_kind-silent network operation h label words host again c p = (refl, refl)
by_kind-silent timeout operation h label words host again c p = (refl, refl)
by_kind-silent divergent operation h label words host again c p = (refl, refl)
by_kind-silent empty_commit operation h label words host again c p = (refl, refl)

-- A failure is passed over in silence exactly when the user dismissed a prompt and git left no operation in
-- progress, whatever the ssh program, and what is passed over offers nothing.
pub describe_failure-silent :
    (label words : Text) (failure : Option GitErrorData) (can_retry : Bool)
    → let p = describe_failure label words failure can_retry in
      (p.silent ≡ (was_dismissed failure && not (in_progress failure)))
      × ((p.silent && some_of (λ offer. true) p.actions) ≡ false)
unfolding describe_failure on_other
describe_failure-silent label words none r = (refl, refl)
describe_failure-silent label words (some d) r =
    elim (Bool-cases (d.plink && not (is_cancelled d.kind))) [
      | inl e ↦ rw e (ground arith)
      | inr e ↦ rw e (
          by_kind-silent d.kind d.operation d.host label words (or_text d.host (codes "the remote"))
            (retries r) d.partial_clone d.plink)
    ]
