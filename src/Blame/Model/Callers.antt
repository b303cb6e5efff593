-- ===== src/Blame/Model/Callers.antt =====
-- extension/src/model/blameModel.ts: the waiters of a request are the callers that have not left.
use gitglasses.Base.{
  sym, subst, ◌∙◌, ◌+◌, ◌-◌, ◌<◌, ◌==◌, ==_iff, Bool-cases, Option-cases, length, length-append,
  get_elem?, update_at, if◌then◌else◌, List, Text, ℕ, zero, suc, refl, [], ◌∷◌, false, some, inl,
  inr, ◌++◌, ◌≡◌, arith,
}
use gitglasses.Base.Maps.{lookup}
use gitglasses.Blame.Keys.{BlameKey, cache_key_for, affects_other_files_blame}
use gitglasses.Blame.Model.{
  Event, asks, goes, times_out, ends, invalidates, invalidates_path, saves, Token, no_token, fired,
  live, pin, wait, leave, depart, abandon, touch, request, begin_request, entry_for, get_blame,
  join, leaves, leave_caller, timer_ends, settles, step, run, new_request,
}
use gitglasses.Blame.Model.Cache.{
  Request, Caller, BlameModel, remove_where, evict_superseded, evict_to_budget, invalidate,
  invalidate_path, invalidate_saved, in_repo, of_file,
}
use gitglasses.Blame.Model.Requests.{
  update_at-none, has_id-lookup, get_elem?-update_at, get_elem?-update_at_other, number_of-snoc,
}
use gitglasses.Blame.Model.Budget.{IsModel}
use gitglasses.Blame.Model.Bounded.{step-IsModel}
use gitglasses.Blame.Model.Quiet.{
  waiting, waiters_at, IsCounted, Quiet-IsCounted, remove_where-Quiet, evict_superseded-Quiet,
  settles-Quiet, waiters_at-update_at,
}

waiting-snoc :
    (id i : ℕ) (callers : List Caller)
    → waiting id (callers ++ record { request = i; left = false } ∷ [])
      ≡ waiting id callers + (if i == id then 1 else 0)
waiting-snoc id i [] = ground arith
waiting-snoc id i (c ∷ callers) = omega (arith, waiting-snoc id i callers)

waiting-depart :
    (id index : ℕ) (callers : List Caller) (c : Caller)
    → get_elem? callers index ≡ some c
    → c.left ≡ false
    → waiting id (update_at depart callers index) + (if c.request == id then 1 else 0)
      ≡ waiting id callers
waiting-depart id index [] c h f = cc h
waiting-depart id zero (d ∷ callers) c h f =
    let same : d ≡ c = cc h in
    subst
      (λ (e : Caller).
        waiting id (update_at depart (e ∷ callers) 0) + (if c.request == id then 1 else 0)
        ≡ waiting id (e ∷ callers))
      (sym same) (ground arith)
waiting-depart id (suc index) (d ∷ callers) c h f =
    omega (arith, waiting-depart id index callers c h f)

get_elem?_lt :
    {A : Type 0} (xs : List A) (i : ℕ) → i < length xs → (x : A) × (get_elem? xs i ≡ some x)
get_elem?_lt [] i h = absurd (omega arith)
get_elem?_lt (x ∷ xs) zero h = (x, refl)
get_elem?_lt (x ∷ xs) (suc i) h = get_elem?_lt xs i (omega arith)

waiters_at-wait :
    (id i : ℕ) (requests : List Request)
    → i < length requests
    → waiters_at id (update_at wait requests i)
      ≡ waiters_at id requests + (if i == id then 1 else 0)
waiters_at-wait id i requests h = elim (Bool-cases (i == id)) [
  | inl e ↦
      let same : i ≡ id = (==_iff i id).0 e in
      let (r, at) = get_elem?_lt requests i h in
      subst
        (λ j.
          waiters_at j (update_at wait requests i)
          ≡ waiters_at j requests + (if i == j then 1 else 0))
        same (rw (get_elem?-update_at wait requests i r at, at) (ground arith))
  | inr e ↦ rw (get_elem?-update_at_other wait requests i id e, e) (omega arith)
]

waiters_at-leave :
    (id i : ℕ) (requests : List Request)
    → waiters_at id (update_at leave requests i)
      ≡ waiters_at id requests - (if i == id then 1 else 0)
waiters_at-leave id i requests = elim (Bool-cases (i == id)) [
  | inr e ↦ rw (get_elem?-update_at_other leave requests i id e, e) (omega arith)
  | inl e ↦
      let same : i ≡ id = (==_iff i id).0 e in
      subst
        (λ j.
          waiters_at j (update_at leave requests i)
          ≡ waiters_at j requests - (if i == j then 1 else 0))
        same
        (elim (Option-cases (get_elem? requests i)) [
          | inl at ↦ rw (update_at-none leave requests i at, at) (omega arith)
          | inr (r, at) ↦ rw (get_elem?-update_at leave requests i r at, at) (ground arith)
        ])
]

join-IsCounted :
    (i : ℕ) (token : Token) (s : BlameModel)
    → i < length s.requests
    → IsCounted s
    → IsCounted (join i token s)
unfolding join
join-IsCounted i no_token s h v id = waiters_at-update_at pin i id s.requests (λ r. refl) ∙ v id
join-IsCounted i fired s h v id = v id
join-IsCounted i live s h v id =
    omega (arith, waiters_at-wait id i s.requests h, waiting-snoc id i s.callers, v id)

request-IsCounted :
    (key : BlameKey) (cache_key : Text) (s : BlameModel)
    → IsCounted s
    → IsCounted (request key cache_key s)
      × (length s.requests < length (request key cache_key s).requests)
unfolding request begin_request evict_to_budget
request-IsCounted key cache_key s v =
    let s' = evict_superseded key s in
    let quiet = evict_superseded-Quiet key s in
    (
      (λ id.
          number_of-snoc (λ r. r.waiters) s'.requests (new_request key) id refl
          ∙ Quiet-IsCounted s s' quiet v id),
      omega (arith, quiet.2, length-append s'.requests (new_request key ∷ [])),
    )

get_blame-IsCounted :
    (key : BlameKey) (token : Token) (s : BlameModel)
    → IsModel s
    → IsCounted s
    → IsCounted (get_blame key token s)
unfolding get_blame entry_for touch
get_blame-IsCounted key token s m v =
    let cache_key = cache_key_for key in
    elim (Option-cases (lookup cache_key s.cache)) [
      | inl e ↦
          let begun = request-IsCounted key cache_key s v in
          rw e (join-IsCounted (length s.requests) token (request key cache_key s) begun.1 begun.0)
      | inr (id, e) ↦
          let inside : id < length s.requests =
            grind (arith, m.known id, has_id-lookup cache_key s.cache id e) in
          rw e (join-IsCounted id token (touch cache_key id s) inside v)
    ]

leaves-IsCounted : (index : ℕ) (s : BlameModel) → IsCounted s → IsCounted (leaves index s)
unfolding leaves leave_caller
leaves-IsCounted index s v = elim (Option-cases (get_elem? s.callers index)) [
  | inl e ↦ rw e v
  | inr (c, e) ↦ elim (Bool-cases c.left) [
    | inl f ↦ rw (e, f) v
    | inr f ↦ rw e (
        simp f (λ id. omega (
          arith,
          waiters_at-leave id c.request s.requests,
          waiting-depart id index s.callers c e f,
          v id,
        )))
  ]
]

step-IsCounted :
    (lower : Text → Text) (event : Event) (s : BlameModel)
    → IsModel s
    → IsCounted s
    → IsCounted (step lower event s)
unfolding step invalidate invalidate_path invalidate_saved timer_ends
step-IsCounted lower (asks key token) s m v = get_blame-IsCounted key token s m v
step-IsCounted lower (goes index) s m v = leaves-IsCounted index s v
step-IsCounted lower (times_out i) s m v =
    λ id. waiters_at-update_at abandon i id s.requests (λ r. ground arith) ∙ v id
step-IsCounted lower (ends id outcome) s m v =
    Quiet-IsCounted s (settles id outcome s) (settles-Quiet id outcome s) v
step-IsCounted lower (invalidates repo_id) s m v =
    Quiet-IsCounted s (remove_where (in_repo repo_id) s.cache s)
      (remove_where-Quiet (in_repo repo_id) s.cache s) v
step-IsCounted lower (invalidates_path repo_id path) s m v =
    Quiet-IsCounted s (remove_where (of_file repo_id path) s.cache s)
      (remove_where-Quiet (of_file repo_id path) s.cache s) v
step-IsCounted lower (saves repo_id path) s m v =
    elim (Bool-cases (affects_other_files_blame lower path)) [
      | inl e ↦ rw e (
          Quiet-IsCounted s (remove_where (in_repo (some repo_id)) s.cache s)
            (remove_where-Quiet (in_repo (some repo_id)) s.cache s) v)
      | inr e ↦ rw e (
          Quiet-IsCounted s (remove_where (of_file repo_id path) s.cache s)
            (remove_where-Quiet (of_file repo_id path) s.cache s) v)
    ]

-- Whatever happens, in any order: the waiters that a request counts are the callers with a token that joined it and have
-- not left.
pub run-IsCounted :
    (lower : Text → Text) (events : List Event) (s : BlameModel)
    → IsModel s
    → IsCounted s
    → IsCounted (run lower events s)
unfolding run
run-IsCounted lower [] s m v = v
run-IsCounted lower (event ∷ events) s m v =
    run-IsCounted lower events (step lower event s) (step-IsModel lower event s m)
      (step-IsCounted lower event s m v)
