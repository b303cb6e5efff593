-- ===== src/Blame/Model/Reasons/Kept.antt =====
-- extension/src/model/blameModel.ts: what leaves a running request running.
use gitglasses.Base.{
  ◌∙◌, Bool-cases, Option-cases, get_elem?, update_at, Bool, List, Text, ℕ, zero, suc, refl, [],
  ◌∷◌, false, inl, inr, ◌++◌, ◌≡◌,
}
use gitglasses.Base.Maps.{lookup}
use gitglasses.Blame.Keys.{BlameKey, cache_key_for, estimate_blame_bytes}
use gitglasses.Blame.Model.{
  failure_id, has, Token, no_token, fired, live, Outcome, answered, refused, BlameFailure,
  failed_with, restarted, stale, was_cancelled, settle, measure, pin, wait, leave, is_entry,
  new_request, join, leaves, leave_caller, succeed, fail, report_failure, conclude,
  conclude_running, settles, is_stale,
}
use gitglasses.Blame.Model.Cache.{Request, BlameModel, remove, forget, evict_to_budget}
use gitglasses.Blame.Model.Dropped.{flag_of, cancelled_at, flag_of-update_at}

abbrev pub pinned_at : ℕ → List Request → Bool
pinned_at id requests = flag_of (λ r. r.pinned) (get_elem? requests id)

abbrev pub is_cancelled : Request → Bool
is_cancelled r = r.cancelled

update-cancelled :
    (f : Request → Request) (i id : ℕ) (requests : List Request)
    → ((r : Request) → (f r).cancelled ≡ r.cancelled)
    → cancelled_at id (update_at f requests i) ≡ cancelled_at id requests
update-cancelled f i id requests same = flag_of-update_at is_cancelled f requests i id same

pub snoc-cancelled :
    (key : BlameKey) (requests : List Request) (id : ℕ)
    → cancelled_at id (requests ++ new_request key ∷ []) ≡ cancelled_at id requests
snoc-cancelled key [] zero = refl
snoc-cancelled key [] (suc id) = refl
snoc-cancelled key (r ∷ requests) zero = refl
snoc-cancelled key (r ∷ requests) (suc id) = snoc-cancelled key requests id

pub join-cancelled :
    (i : ℕ) (token : Token) (s : BlameModel) (id : ℕ)
    → cancelled_at id (join i token s).requests ≡ cancelled_at id s.requests
unfolding join
join-cancelled i no_token s id = update-cancelled pin i id s.requests (λ r. refl)
join-cancelled i fired s id = refl
join-cancelled i live s id = update-cancelled wait i id s.requests (λ r. refl)

pub leaves-cancelled :
    (index : ℕ) (s : BlameModel) (id : ℕ)
    → cancelled_at id (leaves index s).requests ≡ cancelled_at id s.requests
unfolding leaves leave_caller
leaves-cancelled index s id = elim (Option-cases (get_elem? s.callers index)) [
  | inl e ↦ rw e refl
  | inr (c, e) ↦ elim (Bool-cases c.left) [
    | inl f ↦ rw (e, f) refl
    | inr f ↦ rw e (simp f (update-cancelled leave c.request id s.requests (λ r. refl)))
  ]
]

pub remove-cancelled :
    (key : Text) (s : BlameModel) (id : ℕ)
    → cancelled_at id (remove key false s).requests ≡ cancelled_at id s.requests
unfolding remove forget
remove-cancelled key s id = elim (Option-cases (lookup key s.cache)) [
  | inl e ↦ rw e refl
  | inr (i, e) ↦ rw e refl
]

report_failure-cancelled :
    (key : BlameKey) (failure : BlameFailure) (s : BlameModel) (id : ℕ)
    → cancelled_at id (report_failure key failure s).requests ≡ cancelled_at id s.requests
unfolding report_failure
report_failure-cancelled key restarted s id = refl
report_failure-cancelled key stale s id = refl
report_failure-cancelled key was_cancelled s id = refl
report_failure-cancelled key (failed_with message) s id =
    elim (Bool-cases (has (failure_id key message) s.logged_failures)) [
      | inl e ↦ rw e refl
      | inr e ↦ rw e refl
    ]

fail-cancelled :
    (i : ℕ) (failure : BlameFailure) (r : Request) (s : BlameModel) (id : ℕ)
    → cancelled_at id (fail i failure r s).requests ≡ cancelled_at id s.requests
unfolding fail
fail-cancelled i failure r s id =
    let s' = record s { requests = update_at settle s.requests i } in
    let key = cache_key_for r.key in
    let settled = update-cancelled settle i id s.requests (λ q. refl) in
    elim (Bool-cases (is_entry i (lookup key s.cache))) [
      | inl e ↦ rw e (
          report_failure-cancelled r.key failure (remove key false s') id
          ∙ remove-cancelled key s' id
          ∙ settled)
      | inr e ↦ rw e (report_failure-cancelled r.key failure s' id ∙ settled)
    ]

succeed-cancelled :
    (i bytes : ℕ) (r : Request) (s : BlameModel) (id : ℕ)
    → cancelled_at id (succeed i bytes r s).requests ≡ cancelled_at id s.requests
unfolding succeed evict_to_budget
succeed-cancelled i bytes r s id =
    let settled = update-cancelled settle i id s.requests (λ q. refl) in
    elim (Bool-cases (is_entry i (lookup (cache_key_for r.key) s.cache))) [
      | inl e ↦ rw e (
          update-cancelled (measure bytes) i id (update_at settle s.requests i) (λ q. refl)
          ∙ settled)
      | inr e ↦ rw e settled
    ]

conclude-cancelled :
    (i : ℕ) (outcome : Outcome) (r : Request) (s : BlameModel) (id : ℕ)
    → cancelled_at id (conclude i outcome r s).requests ≡ cancelled_at id s.requests
unfolding conclude
conclude-cancelled i (refused failure) r s id = fail-cancelled i failure r s id
conclude-cancelled i (answered doc_version blame) r s id =
    elim (Bool-cases (is_stale r.key doc_version)) [
      | inl e ↦ rw e (fail-cancelled i stale r s id)
      | inr e ↦ rw e (succeed-cancelled i (estimate_blame_bytes blame) r s id)
    ]

pub settles-cancelled :
    (i : ℕ) (outcome : Outcome) (s : BlameModel) (id : ℕ)
    → cancelled_at id (settles i outcome s).requests ≡ cancelled_at id s.requests
unfolding settles conclude_running
settles-cancelled i outcome s id = elim (Option-cases (get_elem? s.requests i)) [
  | inl e ↦ rw e refl
  | inr (r, e) ↦ elim (Bool-cases r.settled) [
    | inl f ↦ rw e (simp f refl)
    | inr f ↦ rw e (simp f (conclude-cancelled i outcome r s id))
  ]
]
