-- ===== src/Blame/Model/Reasons.antt =====
-- extension/src/model/blameModel.ts: why a running request is stopped, operation by operation.
pub mod Kept
use mathlib.Core.Bool.{false≢true}
use gitglasses.Base.{
  sym, ap, subst, ◌∙◌, ◌&&◌, ◌==◌, ==_iff, Bool-cases, Option-cases, length, get_elem?, update_at,
  if◌then◌else◌, Bool, List, Text, ℕ, zero, suc, refl, [], ◌∷◌, true, false, some, inl, inr, ◌++◌,
  ◌≡◌, arith,
}
use gitglasses.Base.Maps.{lookup}
use gitglasses.Blame.Keys.{BlameKey, cache_key_for, affects_other_files_blame, estimate_blame_bytes}
use gitglasses.Blame.Model.{
  failure_id, has, Event, asks, goes, times_out, ends, invalidates, invalidates_path, saves, Token,
  no_token, fired, live, Outcome, answered, refused, BlameFailure, failed_with, restarted, stale,
  was_cancelled, settle, measure, pin, wait, leave, abandon, is_entry, new_request, request,
  begin_request, touch, entry_for, get_blame, join, leaves, leave_caller, timer_ends, succeed, fail,
  report_failure, conclude, conclude_running, settles, is_stale, step,
}
use gitglasses.Blame.Model.Cache.{
  Request, BlameModel, number_of, remove, forget, remove_where, key_passes, in_repo, of_file,
  is_working_tree, is_superseded_by, evict_superseded, evict_to_budget, invalidate, invalidate_path,
  invalidate_saved,
}
use gitglasses.Blame.Model.Requests.{update_at-none, get_elem?-update_at_other, get_elem?-update_at}
use gitglasses.Blame.Model.Budget.{IsModel}
use gitglasses.Blame.Model.Quiet.{IsCounted, waiting}
use gitglasses.Blame.Model.Dropped.{flag_of, cancelled_at, flag_of-update_at}
use gitglasses.Blame.Model.Stopped.{remove_where-cancels}
use gitglasses.Blame.Model.Reasons.Kept.{
  pinned_at, is_cancelled, snoc-cancelled, join-cancelled, leaves-cancelled, settles-cancelled,
}

-- Why an event may stop a request: its key is invalidated, its version is superseded by the one that is asked for (newer, or
-- the file on disk), or the timer ends and nobody waits.
abbrev pub Reason : (Text → Text) → Event → ℕ → BlameModel → Type 0
Reason lower (asks key token) id s =
    (is_working_tree key && key_passes (is_superseded_by key) (get_elem? s.requests id)) ≡ true
Reason lower (goes index) id s = ⊥
Reason lower (times_out i) id s =
    (i ≡ id) × (waiting id s.callers ≡ 0) × (pinned_at id s.requests ≡ false)
Reason lower (ends i outcome) id s = ⊥
Reason lower (invalidates repo_id) id s =
    key_passes (in_repo repo_id) (get_elem? s.requests id) ≡ true
Reason lower (invalidates_path repo_id path) id s =
    key_passes (of_file repo_id path) (get_elem? s.requests id) ≡ true
Reason lower (saves repo_id path) id s =
    (if affects_other_files_blame lower path
      then key_passes (in_repo (some repo_id)) (get_elem? s.requests id)
      else key_passes (of_file repo_id path) (get_elem? s.requests id))
    ≡ true

removal-Reason :
    (test : BlameKey → Bool) (s : BlameModel) (id : ℕ)
    → IsModel s
    → cancelled_at id s.requests ≡ false
    → cancelled_at id (remove_where test s.cache s).requests ≡ true
    → key_passes test (get_elem? s.requests id) ≡ true
removal-Reason test s id m before after = ground (
  arith,
  remove_where-cancels test s.cache s id m.keyed (λ key i j listed found. cc (listed, found)) after,
)

superseded-Reason :
    (key : BlameKey) (s : BlameModel) (id : ℕ)
    → IsModel s
    → cancelled_at id s.requests ≡ false
    → cancelled_at id (evict_superseded key s).requests ≡ true
    → (is_working_tree key && key_passes (is_superseded_by key) (get_elem? s.requests id)) ≡ true
unfolding evict_superseded
superseded-Reason key s id m before after = elim (Bool-cases (is_working_tree key)) [
  | inl e ↦
      let same : evict_superseded key s ≡ remove_where (is_superseded_by key) s.cache s =
        rw e refl in
      let passes =
        removal-Reason (is_superseded_by key) s id m before
          (subst (λ t. cancelled_at id t.requests ≡ true) same after) in
      rw e passes
  | inr e ↦
      let same : evict_superseded key s ≡ s = rw e refl in
      absurd (false≢true (sym before ∙ subst (λ t. cancelled_at id t.requests ≡ true) same after))
]

asks-Reason :
    (key : BlameKey) (token : Token) (s : BlameModel) (id : ℕ)
    → IsModel s
    → cancelled_at id s.requests ≡ false
    → cancelled_at id (get_blame key token s).requests ≡ true
    → (is_working_tree key && key_passes (is_superseded_by key) (get_elem? s.requests id)) ≡ true
unfolding get_blame entry_for touch request begin_request evict_to_budget
asks-Reason key token s id m before after =
    elim (Option-cases (lookup (cache_key_for key) s.cache)) [
      | inr (i, e) ↦
          let same : get_blame key token s ≡ join i token (touch (cache_key_for key) i s) =
            rw e refl in
          let kept = join-cancelled i token (touch (cache_key_for key) i s) id in
          absurd (
            false≢true
              (sym before ∙ sym kept ∙ subst (λ t. cancelled_at id t.requests ≡ true) same after))
      | inl e ↦
          let begun = request key (cache_key_for key) s in
          let same : get_blame key token s ≡ join (length s.requests) token begun = rw e refl in
          let kept = join-cancelled (length s.requests) token begun id in
          let after' = sym kept ∙ subst (λ t. cancelled_at id t.requests ≡ true) same after in
          let after'' = sym (snoc-cancelled key (evict_superseded key s).requests id) ∙ after' in
          superseded-Reason key s id m before after''
    ]

timed_out :
    (i : ℕ) (s : BlameModel)
    → IsCounted s
    → cancelled_at i s.requests ≡ false
    → cancelled_at i (timer_ends i s).requests ≡ true
    → (waiting i s.callers ≡ 0) × (pinned_at i s.requests ≡ false)
unfolding timer_ends
timed_out i s v before after = elim (Option-cases (get_elem? s.requests i)) [
  | inl e ↦
      let unchanged = update_at-none abandon s.requests i e in
      absurd (false≢true (sym before ∙ sym (ap (cancelled_at i) unchanged) ∙ after))
  | inr (r, e) ↦
      let running : r.cancelled ≡ false = sym (ap (flag_of is_cancelled) e) ∙ before in
      let stopped : (abandon r).cancelled ≡ true =
        sym (ap (flag_of is_cancelled) (get_elem?-update_at abandon s.requests i r e)) ∙ after in
      let count : r.waiters ≡ waiting i s.callers = sym (ap (number_of (λ q. q.waiters)) e) ∙ v i in
      rw e (ground (arith, running, stopped, count))
]

times_out-Reason :
    (i : ℕ) (s : BlameModel) (id : ℕ)
    → IsCounted s
    → cancelled_at id s.requests ≡ false
    → cancelled_at id (timer_ends i s).requests ≡ true
    → (i ≡ id) × (waiting id s.callers ≡ 0) × (pinned_at id s.requests ≡ false)
unfolding timer_ends
times_out-Reason i s id v before after = elim (Bool-cases (i == id)) [
  | inr e ↦
      let unchanged = get_elem?-update_at_other abandon s.requests i id e in
      absurd (false≢true (sym before ∙ sym (ap (flag_of is_cancelled) unchanged) ∙ after))
  | inl e ↦
      let same : i ≡ id = (==_iff i id).0 e in
      let (left, unpinned) =
        timed_out i s v (subst (λ j. cancelled_at j s.requests ≡ false) (sym same) before)
          (subst (λ j. cancelled_at j (timer_ends i s).requests ≡ true) (sym same) after) in
      (
        same,
        subst (λ j. waiting j s.callers ≡ 0) same left,
        subst (λ j. pinned_at j s.requests ≡ false) same unpinned,
      )
]

-- No caller's leaving and no answer stops a request, and the other events stop it only for their reasons.
pub step-Reason :
    (lower : Text → Text) (event : Event) (s : BlameModel) (id : ℕ)
    → IsModel s
    → IsCounted s
    → cancelled_at id s.requests ≡ false
    → cancelled_at id (step lower event s).requests ≡ true
    → Reason lower event id s
unfolding step invalidate invalidate_path invalidate_saved
step-Reason lower (asks key token) s id m v before after = asks-Reason key token s id m before after
step-Reason lower (goes index) s id m v before after =
    absurd (false≢true (sym before ∙ sym (leaves-cancelled index s id) ∙ after))
step-Reason lower (times_out i) s id m v before after = times_out-Reason i s id v before after
step-Reason lower (ends i outcome) s id m v before after =
    absurd (false≢true (sym before ∙ sym (settles-cancelled i outcome s id) ∙ after))
step-Reason lower (invalidates repo_id) s id m v before after =
    removal-Reason (in_repo repo_id) s id m before after
step-Reason lower (invalidates_path repo_id path) s id m v before after =
    removal-Reason (of_file repo_id path) s id m before after
step-Reason lower (saves repo_id path) s id m v before after =
    elim (Bool-cases (affects_other_files_blame lower path)) [
      | inl e ↦
          let same : step lower (saves repo_id path) s
              ≡ remove_where (in_repo (some repo_id)) s.cache s =
            rw e refl in
          rw e (
            removal-Reason (in_repo (some repo_id)) s id m before
              (subst (λ t. cancelled_at id t.requests ≡ true) same after))
      | inr e ↦
          let same : step lower (saves repo_id path) s
              ≡ remove_where (of_file repo_id path) s.cache s =
            rw e refl in
          rw e (
            removal-Reason (of_file repo_id path) s id m before
              (subst (λ t. cancelled_at id t.requests ≡ true) same after))
    ]
