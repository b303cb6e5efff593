-- ===== src/Worktree/StatusCache.antt =====
-- extension/src/views/worktreeLogic.ts: `WorktreeStatusCache`, the lazy loads of worktree statuses. The source
-- counts the loads that run; here they are the list of their jobs, each with what its promise's
-- continuation captured. A status and an error are opaque texts.
pub mod Served
pub mod Answers
mod Examples
use gitglasses.Base.{
  get_elem?, ◌==◌, ◌&&◌, text_eq, ltb, ◌+◌, keep_if, if◌then◌else◌, Bool, length, Text, Option,
  List, ℕ, zero, suc, refl, [], ◌∷◌, true, false, none, some, inl, inr, ◌++◌, ◌≡◌, arith,
}
use gitglasses.Base.Decimal.{decimal}
use gitglasses.Base.Maps.{remove_key, set_key, lookup}
use gitglasses.Base.Sets.{has}

pub record Stored : Type 0 where
  pub status : Option Text
  pub error : Option Text
  pub key : Text
  pub generation : ℕ

pub record Job : Type 0 where
  pub path : Text
  pub key : Text
  pub generation : ℕ

pub record StatusCache : Type 0 where
  pub concurrency : ℕ
  pub entries : List (Text × Stored)
  pub pending : List (Text × Text)
  pub queue : List Job
  pub loads : List Job
  pub generation : ℕ

pub new_cache : ℕ → StatusCache
new_cache concurrency = record {
  concurrency = concurrency;
  entries = [];
  pending = [];
  queue = [];
  loads = [];
  generation = 0;
}

-- `${generation}|${key}`
pub token_of : ℕ → Text → Text
unfolding decimal
token_of generation key = decimal generation ++ 124 ∷ key

is_token : Text → Option Text → Bool
is_token token none = false
is_token token (some t) = text_eq t token

pub job_token : Job → Text
unfolding token_of
job_token job = token_of job.generation job.key

-- Whether the job is still the request for its path.
pub is_wanted : List (Text × Text) → Job → Bool
unfolding is_token
is_wanted pending job = is_token (job_token job) (lookup job.path pending)

-- The loop of `pump`: the loads that run then, and the jobs left.
pub start_jobs : ℕ → List (Text × Text) → List Job → List Job → List Job × List Job
unfolding is_wanted
start_jobs concurrency pending loads [] = (loads, [])
start_jobs concurrency pending loads (job ∷ queue) =
    let skipped = start_jobs concurrency pending loads queue in
    let started = start_jobs concurrency pending (loads ++ job ∷ []) queue in
    if ltb (length loads) concurrency
    then (if is_wanted pending job then started else skipped)
    else (loads, job ∷ queue)

pub pump : StatusCache → StatusCache
unfolding start_jobs
pump c =
    let (loads, queue) = start_jobs c.concurrency c.pending c.loads c.queue in
    record c { loads = loads; queue = queue }

-- The job of a request, with its path's token set.
pub request : Text → Text → StatusCache → StatusCache
unfolding token_of
request path key c = record c {
  pending = set_key path (token_of c.generation key) c.pending;
  queue = c.queue ++ record { path = path; key = key; generation = c.generation } ∷ [];
}

pub enqueue : Text → Text → StatusCache → StatusCache
unfolding is_token pump request
enqueue path key c =
    if is_token (token_of c.generation key) (lookup path c.pending)
    then c
    else pump (request path key c)

pub is_current : Text → ℕ → Option Stored → Bool
is_current key generation none = false
is_current key generation (some e) = text_eq e.key key && e.generation == generation

-- The cache after the call, and the entry that it returns.
pub get : Text → Text → StatusCache → StatusCache × Option Stored
unfolding enqueue is_current
get path key c =
    let entry = lookup path c.entries in
    (if is_current key c.generation entry then c else enqueue path key c, entry)

pub invalidate : StatusCache → StatusCache
invalidate c = record c { generation = suc c.generation }

pub retain : List Text → StatusCache → StatusCache
retain paths c = record c { entries = keep_if (λ e. has e.0 paths) c.entries }

pub busy : StatusCache → ℕ
busy c = length c.queue + length c.loads

-- What a load's promise settles with.
pub data Loaded : Type 0 where
  loaded : Text → Loaded
  load_failed : Text → Loaded

status_of : Option Stored → Option Text
status_of none = none
status_of (some e) = e.status

pub stored : Job → Loaded → Option Stored → Stored
unfolding status_of
stored job (loaded status) previous = record {
  status = some status;
  error = none;
  key = job.key;
  generation = job.generation;
}
stored job (load_failed message) previous = record {
  status = status_of previous;
  error = some message;
  key = job.key;
  generation = job.generation;
}

-- The continuation of a load, when `loads` are the others.
pub finish : Job → Loaded → List Job → StatusCache → StatusCache
unfolding is_wanted stored
finish job result loads c = record c {
  loads = loads;
  pending = if is_wanted c.pending job then remove_key job.path c.pending else c.pending;
  entries = set_key job.path (stored job result (lookup job.path c.entries)) c.entries;
}

pub remove_at {ℓ} : {A : Type ℓ} → ℕ → List A → List A
remove_at i [] = []
remove_at zero (x ∷ xs) = xs
remove_at (suc i) (x ∷ xs) = x ∷ remove_at i xs

settle_job : Option Job → Loaded → List Job → StatusCache → StatusCache
unfolding finish pump
settle_job none result others c = c
settle_job (some job) result others c = pump (finish job result others c)

-- The load at position `i` of those that run settles.
pub load_settled : ℕ → Loaded → StatusCache → StatusCache
unfolding settle_job remove_at
load_settled i result c = settle_job (get_elem? c.loads i) result (remove_at i c.loads) c

pub data Event : Type 0 where
  gets : Text → Text → Event
  invalidates : Event
  retains : List Text → Event
  settles : ℕ → Loaded → Event

pub step : Event → StatusCache → StatusCache
unfolding get invalidate retain load_settled
step (gets path key) c = (get path key c).0
step invalidates c = invalidate c
step (retains paths) c = retain paths c
step (settles i result) c = load_settled i result c

unfoldable pub run : List Event → StatusCache → StatusCache
unfolding step
run [] c = c
run (e ∷ es) c = run es (step e c)

text_or_empty : Option Text → Text
text_or_empty none = []
text_or_empty (some t) = t

-- `statusKey`: the commit, the branch and the base.
pub status_key : Text → Option Text → Option Text → Text
unfolding text_or_empty
status_key sha branch base = sha ++ 124 ∷ text_or_empty branch ++ 124 ∷ text_or_empty base
