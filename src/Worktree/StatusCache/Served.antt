-- ===== src/Worktree/StatusCache/Served.antt =====
-- extension/src/views/worktreeLogic.ts: no request for a status is forgotten, and no slot stands idle.
use gitglasses.Worktree.StatusCache.{
  load_settled, retain, set_key, remove_key, new_cache, invalidate, Loaded, step, settle_job, run,
  finish, Event, gets, invalidates, retains, settles,
}
use gitglasses.Base.{
  some_of-append, ap, ◌∙◌, sym, Option, subst, if◌then◌else◌, ltb→lt, get_elem?, text_eq_refl,
  text_eq_iff, length-append, ltb→le, ◌&&◌, ltb, Option-cases, ◌⊎◌, ◌≤◌, ◌||◌, text_eq, Bool-cases,
  some_of, length, Text, List, Bool, ℕ, zero, suc, refl, [], ◌∷◌, true, false, none, some, inl, inr,
  ◌++◌, ◌≡◌, arith,
}
use gitglasses.Worktree.StatusCache.{
  token_of, is_current, request, remove_at, get, enqueue, lookup, is_token, Job, start_jobs, pump,
  job_token, is_wanted, StatusCache,
}
use gitglasses.Base.Maps.{
  lookup-remove_key_other, lookup-remove_key, lookup-set_key_other, lookup-set_key,
}

-- A job for the request of `path` under `token`.
pub serves : Text → Text → Job → Bool
unfolding job_token
serves path token job = text_eq job.path path && text_eq (job_token job) token

module _ {A : Type 0} (t : A → Bool) where
  some_of-remove_at :
      (i : ℕ) (xs : List A) (x : A)
      → get_elem? xs i ≡ some x
      → some_of t xs ≡ (t x || some_of t (remove_at i xs))
  unfolding remove_at
  some_of-remove_at i [] x h = cc
  some_of-remove_at zero (y ∷ xs) x h = ground arith
  some_of-remove_at (suc i) (y ∷ xs) x h = ground (arith, some_of-remove_at i xs x h)

module _ {A : Type 0} (t : A → Bool) where
  snoc-here : (b : Bool) (xs : List A) (x : A) → t x ≡ true → (b || some_of t (xs ++ x ∷ [])) ≡ true
  snoc-here b xs x h = ground (arith, some_of-append t xs (x ∷ []))

  snoc-there :
      (b : Bool) (xs : List A) (x : A)
      → (b || some_of t xs) ≡ true
      → (b || some_of t (xs ++ x ∷ [])) ≡ true
  snoc-there b xs x h = ground (arith, some_of-append t xs (x ∷ []))

length-remove_at : {A : Type 0} (i : ℕ) (xs : List A) → length (remove_at i xs) ≤ length xs
unfolding remove_at
length-remove_at i [] = omega arith
length-remove_at zero (y ∷ xs) = omega arith
length-remove_at (suc i) (y ∷ xs) = omega (arith, length-remove_at i xs)

-- `pump` starts no more loads than there are slots.
length-start_jobs :
    (c : ℕ) (pending : List (Text × Text)) (loads queue : List Job)
    → length loads ≤ c
    → length (start_jobs c pending loads queue).0 ≤ c
unfolding start_jobs
length-start_jobs c pending loads [] h = h
length-start_jobs c pending loads (job ∷ queue) h = elim (Bool-cases (ltb (length loads) c)) [
  | inl e ↦ elim (Bool-cases (is_wanted pending job)) [
    | inl f ↦
        rw (e, f)
          (length-start_jobs c pending (loads ++ job ∷ []) queue
            (omega (arith, length-append loads (job ∷ []), ltb→lt (length loads) c e)))
    | inr f ↦ rw (e, f) (length-start_jobs c pending loads queue h)
  ]
  | inr e ↦ rw e h
]

-- It stops at an empty queue, or with every slot taken.
abbrev IsBusy : ℕ → List Job × List Job → Type 0
IsBusy c r = (r.1 ≡ []) ⊎ (c ≤ length r.0)

start_jobs-IsBusy :
    (c : ℕ) (pending : List (Text × Text)) (loads queue : List Job)
    → IsBusy c (start_jobs c pending loads queue)
unfolding start_jobs
start_jobs-IsBusy c pending loads [] = inl refl
start_jobs-IsBusy c pending loads (job ∷ queue) = elim (Bool-cases (ltb (length loads) c)) [
  | inl e ↦ elim (Bool-cases (is_wanted pending job)) [
    | inl f ↦ rw (e, f) (start_jobs-IsBusy c pending (loads ++ job ∷ []) queue)
    | inr f ↦ rw (e, f) (start_jobs-IsBusy c pending loads queue)
  ]
  | inr e ↦ rw e (inr (ltb→le (length loads) c e))
]

-- It drops no job that is wanted.
start_jobs-some_of :
    (t : Job → Bool) (c : ℕ) (pending : List (Text × Text)) (loads queue : List Job)
    → ((job : Job) → t job ≡ true → is_wanted pending job ≡ true)
    → (some_of t loads || some_of t queue) ≡ true
    → (let (loads', queue') = start_jobs c pending loads queue in
        some_of t loads' || some_of t queue')
      ≡ true
unfolding start_jobs
start_jobs-some_of t c pending loads [] w h = h
start_jobs-some_of t c pending loads (job ∷ queue) w h = elim (Bool-cases (ltb (length loads) c)) [
  | inl e ↦ elim (Bool-cases (is_wanted pending job)) [
    | inl f ↦
        rw (e, f)
          (start_jobs-some_of t c pending (loads ++ job ∷ []) queue w
            (ground (arith, some_of-append t loads (job ∷ []))))
    | inr f ↦ rw (e, f) (start_jobs-some_of t c pending loads queue w (ground (arith, w job)))
  ]
  | inr e ↦ rw e h
]

-- Every request that is pending has a job in the queue or among the loads that run; these are no more
-- than the slots; and a queue that is not empty has every slot taken.
pub record IsServed (slots : ℕ) (c : StatusCache) : Type 0 where
  pub same_slots : c.concurrency ≡ slots
  pub bounded : length c.loads ≤ c.concurrency
  pub busy : IsBusy c.concurrency (c.loads, c.queue)
  pub served :
      (path token : Text)
      → lookup path c.pending ≡ some token
      → (some_of (serves path token) c.loads || some_of (serves path token) c.queue) ≡ true

same_token :
    (path p token u : Text) (pending : List (Text × Text))
    → lookup path pending ≡ some token
    → p ≡ path
    → u ≡ token
    → is_token u (lookup p pending) ≡ true
unfolding is_token
same_token path p token u pending h e f = rw (e, h, f) (text_eq_refl token)

serves-is_wanted :
    (path token : Text) (pending : List (Text × Text)) (job : Job)
    → lookup path pending ≡ some token
    → serves path token job ≡ true
    → is_wanted pending job ≡ true
unfolding serves is_wanted
serves-is_wanted path token pending job h s =
    same_token path job.path token (job_token job) pending h
      (ground (arith, text_eq_iff job.path path))
      (ground (arith, text_eq_iff (job_token job) token))

pump-IsServed :
    (n : ℕ) (c : StatusCache)
    → c.concurrency ≡ n
    → length c.loads ≤ c.concurrency
    → ((path token : Text)
        → lookup path c.pending ≡ some token
        → (some_of (serves path token) c.loads || some_of (serves path token) c.queue) ≡ true)
    → IsServed n (pump c)
unfolding pump
pump-IsServed n c z b s = record {
  same_slots = z;
  bounded = length-start_jobs c.concurrency c.pending c.loads c.queue b;
  busy = start_jobs-IsBusy c.concurrency c.pending c.loads c.queue;
  served = λ path token h.
      start_jobs-some_of (serves path token) c.concurrency c.pending c.loads c.queue
        (λ job. serves-is_wanted path token c.pending job h) (s path token h);
}

-- A request that is queued is served by its own job, and the others by theirs.
request-served :
    (n : ℕ) (path key : Text) (c : StatusCache)
    → IsServed n c
    → (p token : Text) → lookup p (request path key c).pending ≡ some token
    → (some_of (serves p token) (request path key c).loads
        || some_of (serves p token) (request path key c).queue)
      ≡ true
unfolding request serves job_token
request-served n path key c v p token h =
    let tok = token_of c.generation key in
    let job : Job = record { path = path; key = key; generation = c.generation } in
    elim (Bool-cases (text_eq path p)) [
      | inl e ↦
          let q = (text_eq_iff path p).0 e in
          let k = subst (λ x. lookup x (set_key path tok c.pending) ≡ some token) (sym q) h in
          let same : text_eq tok token ≡ true =
            ground (arith, lookup-set_key path tok c.pending, text_eq_iff tok token) in
          snoc-here (serves p token) (some_of (serves p token) c.loads) c.queue job (cc (e, same))
      | inr e ↦
          snoc-there (serves p token) (some_of (serves p token) c.loads) c.queue job
            (v.served p token (sym (lookup-set_key_other path p tok c.pending e) ∙ h))
    ]

enqueue-IsServed :
    (n : ℕ) (path key : Text) (c : StatusCache) → IsServed n c → IsServed n (enqueue path key c)
unfolding enqueue
enqueue-IsServed n path key c v =
    elim (Bool-cases (is_token (token_of c.generation key) (lookup path c.pending))) [
      | inl e ↦ rw e v
      | inr e ↦ rw e (
          pump-IsServed n (request path key c) v.same_slots v.bounded
            (request-served n path key c v))
    ]

get-IsServed :
    (n : ℕ) (path key : Text) (c : StatusCache) → IsServed n c → IsServed n (get path key c).0
unfolding get
get-IsServed n path key c v =
    elim (Bool-cases (is_current key c.generation (lookup path c.entries))) [
      | inl e ↦ rw e v
      | inr e ↦ rw e (enqueue-IsServed n path key c v)
    ]

-- What is still pending after a load was pending before, under a request that the load did not serve.
finish-pending :
    (job : Job) (pending : List (Text × Text)) (p token : Text)
    → lookup p (if is_wanted pending job then remove_key job.path pending else pending) ≡ some token
    → (lookup p pending ≡ some token) × (serves p token job ≡ false)
unfolding serves
finish-pending job pending p token h = elim (Bool-cases (is_wanted pending job)) [
  | inl e ↦
      let h' : lookup p (remove_key job.path pending) ≡ some token = rw e at h in
      elim (Bool-cases (text_eq job.path p)) [
        | inl f ↦
            let gone =
              subst (λ x. lookup x (remove_key job.path pending) ≡ none)
                ((text_eq_iff job.path p).0 f) (lookup-remove_key job.path pending) in
            cc (gone, h')
        | inr f ↦ (sym (lookup-remove_key_other job.path p pending f) ∙ h', ground (arith, f))
      ]
  | inr e ↦
      let h' : lookup p pending ≡ some token = rw e at h in
      (
        h',
        elim (Bool-cases (serves p token job)) [
          | inl s ↦ cc (e, serves-is_wanted p token pending job h' s)
          | inr s ↦ s
        ],
      )
]

finish-served :
    (n : ℕ) (i : ℕ) (job : Job) (result : Loaded) (c : StatusCache)
    → IsServed n c
    → get_elem? c.loads i ≡ some job
    → (p token : Text) → lookup p (finish job result (remove_at i c.loads) c).pending ≡ some token
    → (some_of (serves p token) (remove_at i c.loads) || some_of (serves p token) c.queue) ≡ true
unfolding finish
finish-served n i job result c v g p token h =
    let (a, b) = finish-pending job c.pending p token h in
    ground (arith, v.served p token a, some_of-remove_at (serves p token) i c.loads job g, b)

settle_job-IsServed :
    (n : ℕ) (i : ℕ) (o : Option Job) (result : Loaded) (c : StatusCache)
    → IsServed n c
    → get_elem? c.loads i ≡ o
    → IsServed n (settle_job o result (remove_at i c.loads) c)
unfolding settle_job finish
settle_job-IsServed n i none result c v g = v
settle_job-IsServed n i (some job) result c v g =
    pump-IsServed n (finish job result (remove_at i c.loads) c) v.same_slots
      (omega (arith, v.bounded, length-remove_at i c.loads)) (finish-served n i job result c v g)

step-IsServed : (n : ℕ) (e : Event) (c : StatusCache) → IsServed n c → IsServed n (step e c)
unfolding step invalidate retain load_settled
step-IsServed n (gets path key) c v = get-IsServed n path key c v
step-IsServed n invalidates c v = record {
  same_slots = v.same_slots;
  bounded = v.bounded;
  busy = v.busy;
  served = v.served;
}
step-IsServed n (retains paths) c v = record {
  same_slots = v.same_slots;
  bounded = v.bounded;
  busy = v.busy;
  served = v.served;
}
step-IsServed n (settles i result) c v =
    settle_job-IsServed n i (get_elem? c.loads i) result c v refl

-- However gets, invalidations, clean-ups and settled loads follow one another: no more loads run than
-- there are slots, a queue that is not empty has every slot taken, and every request that is pending
-- has a job of its own, queued or running, so that no request is forgotten.
pub run-IsServed :
    (n : ℕ) (es : List Event) (c : StatusCache) → IsServed n c → IsServed n (run es c)
unfolding run
run-IsServed n [] c v = v
run-IsServed n (e ∷ es) c v = run-IsServed n es (step e c) (step-IsServed n e c v)

pub new_cache-IsServed : (n : ℕ) → IsServed n (new_cache n)
unfolding new_cache
new_cache-IsServed n = record {
  same_slots = refl;
  bounded = omega arith;
  busy = inl refl;
  served = λ path token h. cc;
}

none_pending :
    (n : ℕ) (c : StatusCache) (path : Text)
    → 1 ≤ n
    → IsServed n c
    → c.loads ≡ []
    → (c.queue ≡ []) × (lookup path c.pending ≡ none)
none_pending n c path h v e =
    let empty : c.queue ≡ [] = elim v.busy [
      | inl q ↦ q
      | inr m ↦ absurd (omega (arith, ap length e, v.same_slots))
    ] in
    (
      empty,
      elim (Option-cases (lookup path c.pending)) [
        | inl q ↦ q
        | inr (token, q) ↦ cc (
          ap (some_of (serves path token)) e,
          ap (some_of (serves path token)) empty,
          v.served path token q,
        )
      ],
    )

-- When loads may run and none does, nothing is queued and nothing is pending, whatever came before:
-- requests wait only while a load runs.
pub idle-pending :
    (es : List Event) (concurrency : ℕ) (path : Text)
    → 1 ≤ concurrency
    → (run es (new_cache concurrency)).loads ≡ []
    → ((run es (new_cache concurrency)).queue ≡ [])
      × (lookup path (run es (new_cache concurrency)).pending ≡ none)
idle-pending es concurrency path h e =
    none_pending concurrency (run es (new_cache concurrency)) path h
      (run-IsServed concurrency es _ (new_cache-IsServed concurrency)) e
