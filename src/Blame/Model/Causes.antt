-- ===== src/Blame/Model/Causes.antt =====
-- extension/src/model/blameModel.ts: when a running request is stopped, both ways.
use gitglasses.Base.{
  sym, ap, ◌∙◌, ◌&&◌, Bool-cases, Option-cases, length, get_elem?, Bool, List, Text, ℕ, refl, true,
  false, none, some, inl, inr, ◌≡◌, arith,
}
use gitglasses.Base.Maps.{lookup}
use gitglasses.Blame.Keys.{BlameKey, cache_key_for, affects_other_files_blame}
use gitglasses.Blame.Model.{
  Event, asks, goes, times_out, ends, invalidates, invalidates_path, saves, Token, abandon,
  get_blame, entry_for, request, begin_request, join, timer_ends, step,
}
use gitglasses.Blame.Model.Cache.{
  Request, BlameModel, number_of, remove_where, key_passes, in_repo, of_file, is_working_tree,
  is_superseded_by, evict_superseded, evict_to_budget, invalidate, invalidate_path,
  invalidate_saved,
}
use gitglasses.Blame.Model.Requests.{get_elem?-update_at}
use gitglasses.Blame.Model.Budget.{IsModel}
use gitglasses.Blame.Model.Quiet.{IsCounted, waiting}
use gitglasses.Blame.Model.Dropped.{flag_of, cancelled_at}
use gitglasses.Blame.Model.Invalidated.{settled_at, remove_where-stops}
use gitglasses.Blame.Model.Reasons.{Reason, step-Reason}
use gitglasses.Blame.Model.Reasons.Kept.{pinned_at, snoc-cancelled, join-cancelled}

abbrev pub armed_at : ℕ → List Request → Bool
armed_at id requests = flag_of (λ r. r.abandon_timer) (get_elem? requests id)

-- The request is in the cache and has not been answered.
abbrev pub IsRunning : ℕ → BlameModel → Type 0
IsRunning id s = (key : Text) × (lookup key s.cache ≡ some id) × (settled_at id s.requests ≡ false)

-- What an event finds to stop: a cached request that runs, on a key that is not cached where one is asked for; for the
-- timer, one that is armed and runs.
abbrev pub IsStoppable : Event → ℕ → BlameModel → Type 0
IsStoppable (asks key token) id s = (lookup (cache_key_for key) s.cache ≡ none) × IsRunning id s
IsStoppable (goes index) id s = Unit
IsStoppable (times_out i) id s =
    (armed_at id s.requests ≡ true) × (settled_at id s.requests ≡ false)
IsStoppable (ends i outcome) id s = Unit
IsStoppable (invalidates repo_id) id s = IsRunning id s
IsStoppable (invalidates_path repo_id path) id s = IsRunning id s
IsStoppable (saves repo_id path) id s = IsRunning id s

removal-stops :
    (test : BlameKey → Bool) (s : BlameModel) (id : ℕ)
    → IsRunning id s
    → key_passes test (get_elem? s.requests id) ≡ true
    → cancelled_at id (remove_where test s.cache s).requests ≡ true
removal-stops test s id (key, cached, running) passes =
    remove_where-stops test key id s cached running passes

superseded-stops :
    (key : BlameKey) (s : BlameModel) (id : ℕ)
    → IsRunning id s
    → (is_working_tree key && key_passes (is_superseded_by key) (get_elem? s.requests id)) ≡ true
    → cancelled_at id (evict_superseded key s).requests ≡ true
unfolding evict_superseded
superseded-stops key s id running passes = elim (Bool-cases (is_working_tree key)) [
  | inl e ↦ rw e (removal-stops (is_superseded_by key) s id running (ground (arith, e, passes)))
  | inr e ↦ absurd (ground (arith, e, passes))
]

asks-stops :
    (key : BlameKey) (token : Token) (s : BlameModel) (id : ℕ)
    → lookup (cache_key_for key) s.cache ≡ none
    → IsRunning id s
    → (is_working_tree key && key_passes (is_superseded_by key) (get_elem? s.requests id)) ≡ true
    → cancelled_at id (get_blame key token s).requests ≡ true
unfolding get_blame entry_for request begin_request evict_to_budget
asks-stops key token s id e running passes =
    let begun = request key (cache_key_for key) s in
    let same : get_blame key token s ≡ join (length s.requests) token begun = rw e refl in
    ap (λ t. cancelled_at id t.requests) same
    ∙ join-cancelled (length s.requests) token begun id
    ∙ snoc-cancelled key (evict_superseded key s).requests id
    ∙ superseded-stops key s id running passes

times_out-stops :
    (id : ℕ) (s : BlameModel)
    → IsCounted s
    → waiting id s.callers ≡ 0
    → pinned_at id s.requests ≡ false
    → armed_at id s.requests ≡ true
    → settled_at id s.requests ≡ false
    → cancelled_at id (timer_ends id s).requests ≡ true
unfolding timer_ends
times_out-stops id s v left unpinned armed running = elim (Option-cases (get_elem? s.requests id)) [
  | inl e ↦ cc (ap (flag_of (λ r. r.abandon_timer)) e, armed)
  | inr (r, e) ↦
      let timer : r.abandon_timer ≡ true = sym (ap (flag_of (λ q. q.abandon_timer)) e) ∙ armed in
      let free : r.pinned ≡ false = sym (ap (flag_of (λ q. q.pinned)) e) ∙ unpinned in
      let runs : r.settled ≡ false = sym (ap (flag_of (λ q. q.settled)) e) ∙ running in
      let count : r.waiters ≡ 0 = sym (ap (number_of (λ q. q.waiters)) e) ∙ v id ∙ left in
      let stopped : (abandon r).cancelled ≡ true = ground (arith, timer, free, runs, count) in
      ap (flag_of (λ q. q.cancelled)) (get_elem?-update_at abandon s.requests id r e) ∙ stopped
]

-- What is there to stop is stopped for each of the reasons.
step-stops :
    (lower : Text → Text) (event : Event) (s : BlameModel) (id : ℕ)
    → IsCounted s
    → Reason lower event id s
    → IsStoppable event id s
    → cancelled_at id (step lower event s).requests ≡ true
unfolding step invalidate invalidate_path invalidate_saved
step-stops lower (asks key token) s id v passes (missing, running) =
    asks-stops key token s id missing running passes
step-stops lower (goes index) s id v h k = elim h [ ]
step-stops lower (times_out i) s id v (same, left, unpinned) (armed, running) =
    rw same (times_out-stops id s v left unpinned armed running)
step-stops lower (ends i outcome) s id v h k = elim h [ ]
step-stops lower (invalidates repo_id) s id v passes running =
    removal-stops (in_repo repo_id) s id running passes
step-stops lower (invalidates_path repo_id path) s id v passes running =
    removal-stops (of_file repo_id path) s id running passes
step-stops lower (saves repo_id path) s id v passes running =
    elim (Bool-cases (affects_other_files_blame lower path)) [
      | inl e ↦ rw e (removal-stops (in_repo (some repo_id)) s id running (rw e at passes))
      | inr e ↦ rw e (removal-stops (of_file repo_id path) s id running (rw e at passes))
    ]

-- In every state whose bytes and waiters are counted rightly, an event stops a request that had not been stopped only for
-- one of these reasons: its key is invalidated; its buffer version is superseded, since a newer one, or the file on disk, is
-- asked for; its timer ends when no caller with a token waits and none waits without one. For each of these it is stopped,
-- if it is cached and runs (and, where a version is asked for, that version is not cached), or, for the timer, if the timer is
-- armed and it runs.
pub step-cancelled :
    (lower : Text → Text) (event : Event) (s : BlameModel) (id : ℕ)
    → IsModel s
    → IsCounted s
    → cancelled_at id s.requests ≡ false
    → (cancelled_at id (step lower event s).requests ≡ true → Reason lower event id s)
      × (Reason lower event id s
          → IsStoppable event id s
          → cancelled_at id (step lower event s).requests ≡ true)
step-cancelled lower event s id m v before =
    (step-Reason lower event s id m v before, step-stops lower event s id v)
