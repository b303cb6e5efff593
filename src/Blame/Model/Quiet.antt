-- ===== src/Blame/Model/Quiet.antt =====
-- extension/src/model/blameModel.ts: what the cache does leaves the callers and the waiters alone.
use gitglasses.Base.{
  sym, ap, ◌∙◌, ◌+◌, ◌&&◌, not, ◌==◌, Bool-cases, Option-cases, length, get_elem?, update_at,
  if◌then◌else◌, Bool, List, Text, ℕ, refl, [], ◌∷◌, true, false, inl, inr, ◌≡◌, arith,
}
use gitglasses.Base.Maps.{lookup}
use gitglasses.Blame.Keys.{BlameKey, cache_key_for, estimate_blame_bytes}
use gitglasses.Blame.Model.{
  failure_id, has, Outcome, answered, refused, BlameFailure, failed_with, restarted, stale,
  was_cancelled, measure, settle, succeed, fail, report_failure, conclude, conclude_running,
  settles, is_entry, is_stale,
}
use gitglasses.Blame.Model.Cache.{
  Request, Caller, BlameModel, number_of, stop_running, remove, forget, remove_where, key_passes,
  evict_superseded, evict_to_budget, is_working_tree, is_superseded_by,
}
use gitglasses.Blame.Model.Requests.{number_of-update_at, length-update_at}

-- The callers of a request that have not left.
abbrev pub waiting : ℕ → List Caller → ℕ
waiting id [] = 0
waiting id (caller ∷ callers) =
    (if caller.request == id && not caller.left then 1 else 0) + waiting id callers

abbrev pub waiters_at : ℕ → List Request → ℕ
waiters_at id requests = number_of (λ r. r.waiters) (get_elem? requests id)

abbrev pub IsCounted : BlameModel → Type 0
IsCounted s = (id : ℕ) → waiters_at id s.requests ≡ waiting id s.callers

-- An operation that leaves the callers and the waiters alone.
abbrev pub Quiet : BlameModel → BlameModel → Type 0
Quiet s s' =
    ((id : ℕ) → waiters_at id s'.requests ≡ waiters_at id s.requests)
    × (s'.callers ≡ s.callers)
    × (length s'.requests ≡ length s.requests)

pub Quiet-IsCounted : (s s' : BlameModel) → Quiet s s' → IsCounted s → IsCounted s'
Quiet-IsCounted s s' q v id = q.0 id ∙ v id ∙ ap (waiting id) (sym q.1)

pub waiters_at-update_at :
    (f : Request → Request) (i id : ℕ) (requests : List Request)
    → ((r : Request) → (f r).waiters ≡ r.waiters)
    → waiters_at id (update_at f requests i) ≡ waiters_at id requests
waiters_at-update_at f i id requests same =
    number_of-update_at (λ r. r.waiters) f requests i id same

remove-Quiet : (key : Text) (stop : Bool) (s : BlameModel) → Quiet s (remove key stop s)
unfolding remove forget
remove-Quiet key stop s = elim (Option-cases (lookup key s.cache)) [
  | inl e ↦ rw e ((λ id. refl), refl, refl)
  | inr (id, e) ↦ elim (Bool-cases stop) [
    | inl t ↦
        rw (e, t)
          (
            (λ i. waiters_at-update_at stop_running id i s.requests (λ r. ground arith)),
            refl,
            length-update_at stop_running s.requests id,
          )
    | inr t ↦ rw (e, t) ((λ i. refl), refl, refl)
  ]
]

Quiet-trans : (a b c : BlameModel) → Quiet a b → Quiet b c → Quiet a c
Quiet-trans a b c p q = ((λ id. q.0 id ∙ p.0 id), q.1 ∙ p.1, q.2 ∙ p.2)

remove_if-Quiet :
    (b : Bool) (key : Text) (s : BlameModel) → Quiet s (if b then remove key true s else s)
remove_if-Quiet true key s = remove-Quiet key true s
remove_if-Quiet false key s = ((λ id. refl), refl, refl)

pub remove_where-Quiet :
    (test : BlameKey → Bool) (cache : List (Text × ℕ)) (s : BlameModel)
    → Quiet s (remove_where test cache s)
unfolding remove_where
remove_where-Quiet test [] s = ((λ id. refl), refl, refl)
remove_where-Quiet test ((key, id) ∷ cache) s =
    let passes = key_passes test (get_elem? s.requests id) in
    let s' = if passes then remove key true s else s in
    Quiet-trans s s' (remove_where test cache s') (remove_if-Quiet passes key s)
      (remove_where-Quiet test cache s')

pub evict_superseded-Quiet : (key : BlameKey) (s : BlameModel) → Quiet s (evict_superseded key s)
unfolding evict_superseded
evict_superseded-Quiet key s = elim (Bool-cases (is_working_tree key)) [
  | inl e ↦ rw e (remove_where-Quiet (is_superseded_by key) s.cache s)
  | inr e ↦ rw e ((λ id. refl), refl, refl)
]

report_failure-Quiet :
    (key : BlameKey) (failure : BlameFailure) (s : BlameModel)
    → Quiet s (report_failure key failure s)
unfolding report_failure
report_failure-Quiet key restarted s = ((λ id. refl), refl, refl)
report_failure-Quiet key stale s = ((λ id. refl), refl, refl)
report_failure-Quiet key was_cancelled s = ((λ id. refl), refl, refl)
report_failure-Quiet key (failed_with message) s =
    elim (Bool-cases (has (failure_id key message) s.logged_failures)) [
      | inl e ↦ rw e ((λ id. refl), refl, refl)
      | inr e ↦ rw e ((λ id. refl), refl, refl)
    ]

settle-Quiet :
    (id : ℕ) (s : BlameModel) → Quiet s (record s { requests = update_at settle s.requests id })
settle-Quiet id s = (
  (λ i. waiters_at-update_at settle id i s.requests (λ r. refl)),
  refl,
  length-update_at settle s.requests id,
)

fail-Quiet :
    (id : ℕ) (failure : BlameFailure) (r : Request) (s : BlameModel) → Quiet s (fail id failure r s)
unfolding fail
fail-Quiet id failure r s =
    let s' = record s { requests = update_at settle s.requests id } in
    let key = cache_key_for r.key in
    elim (Bool-cases (is_entry id (lookup key s.cache))) [
      | inl e ↦ rw e (
          Quiet-trans s s' (report_failure r.key failure (remove key false s')) (settle-Quiet id s)
            (Quiet-trans s' (remove key false s')
              (report_failure r.key failure (remove key false s')) (remove-Quiet key false s')
              (report_failure-Quiet r.key failure (remove key false s'))))
      | inr e ↦ rw e (
          Quiet-trans s s' (report_failure r.key failure s') (settle-Quiet id s)
            (report_failure-Quiet r.key failure s'))
    ]

succeed-Quiet : (id bytes : ℕ) (r : Request) (s : BlameModel) → Quiet s (succeed id bytes r s)
unfolding succeed evict_to_budget
succeed-Quiet id bytes r s =
    elim (Bool-cases (is_entry id (lookup (cache_key_for r.key) s.cache))) [
      | inl e ↦
          let settled = update_at settle s.requests id in
          rw e (
            (λ i.
                waiters_at-update_at (measure bytes) id i settled (λ q. refl)
                ∙ waiters_at-update_at settle id i s.requests (λ q. refl)),
            refl,
            length-update_at (measure bytes) settled id ∙ length-update_at settle s.requests id,
          )
      | inr e ↦ rw e (settle-Quiet id s)
    ]

conclude-Quiet :
    (id : ℕ) (outcome : Outcome) (r : Request) (s : BlameModel) → Quiet s (conclude id outcome r s)
unfolding conclude
conclude-Quiet id (refused failure) r s = fail-Quiet id failure r s
conclude-Quiet id (answered doc_version blame) r s =
    elim (Bool-cases (is_stale r.key doc_version)) [
      | inl e ↦ rw e (fail-Quiet id stale r s)
      | inr e ↦ rw e (succeed-Quiet id (estimate_blame_bytes blame) r s)
    ]

pub settles-Quiet : (id : ℕ) (outcome : Outcome) (s : BlameModel) → Quiet s (settles id outcome s)
unfolding settles conclude_running
settles-Quiet id outcome s = elim (Option-cases (get_elem? s.requests id)) [
  | inl e ↦ rw e ((λ i. refl), refl, refl)
  | inr (r, e) ↦ elim (Bool-cases r.settled) [
    | inl f ↦ rw e (simp f ((λ i. refl), refl, refl))
    | inr f ↦ rw e (simp f (conclude-Quiet id outcome r s))
  ]
]
