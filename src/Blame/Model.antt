-- ===== src/Blame/Model.antt =====
-- extension/src/model/blameModel.ts: the class `BlameModel`. A cache entry is a request, by the number of its stream: the
-- requests stay in `requests` when the cache forgets them, as their callers still hold them. A caller is a promise that
-- `join` returned for a token. What happens later (an answer, a failure, a token, the timer) is an operation.
pub mod Cache
pub mod Requests
pub mod Budget
pub mod Bounded
pub mod Quiet
pub mod Callers
pub mod Dropped
pub mod Stopped
pub mod Invalidated
pub mod Reasons
pub mod Causes
mod Examples
use gitglasses.Base.{
  ◌+◌, ◌-◌, ◌||◌, ◌&&◌, not, ◌==◌, ltb, leb, text_eq, length, get_elem?, update_at, codes,
  if◌then◌else◌, Option, Bool, List, Text, ℕ, zero, suc, [], ◌∷◌, true, false, none, some, ◌++◌,
}
use gitglasses.Base.Int.{ℤ, eq_ℤ, lt_ℤ}
use gitglasses.Base.Maps.{lookup, remove_key}
use gitglasses.Base.Sets.{has}
use gitglasses.Blame.Keys.{
  BlameKey, FileBlame, on_disk_version, max_logged_failures, cache_key_for,
  affects_other_files_blame, estimate_blame_bytes,
}
use gitglasses.Blame.Model.Cache.{
  Request, Caller, BlameModel, remove, evict_to_budget, is_working_tree, invalidate,
  invalidate_path, invalidate_saved, evict_superseded,
}

abbrev pub new_request : BlameKey → Request
new_request key = record {
  key = key;
  bytes = 0;
  cancelled = false;
  settled = false;
  waiters = 0;
  pinned = false;
  abandon_timer = false;
}

-- `request` after the superseded versions are gone.
pub begin_request : BlameKey → Text → BlameModel → BlameModel
unfolding evict_to_budget
begin_request key cache_key s = evict_to_budget (record s {
  cache = s.cache ++ (cache_key, length s.requests) ∷ [];
  requests = s.requests ++ new_request key ∷ [];
})

pub request : BlameKey → Text → BlameModel → BlameModel
unfolding begin_request evict_superseded
request key cache_key s = begin_request key cache_key (evict_superseded key s)

pub touch : Text → ℕ → BlameModel → BlameModel
touch cache_key id s = record s { cache = remove_key cache_key s.cache ++ (cache_key, id) ∷ [] }

-- A caller's token: none, one that has fired before, one that may fire.
pub data Token : Type 0 where
  no_token fired live : Token

abbrev pub pin : Request → Request
pin r = record r { pinned = true; abandon_timer = false }

abbrev pub wait : Request → Request
wait r = record r { waiters = r.waiters + 1; abandon_timer = false }

pub join : ℕ → Token → BlameModel → BlameModel
join id no_token s = record s { requests = update_at pin s.requests id }
join id fired s = s
join id live s = record s {
  requests = update_at wait s.requests id;
  callers = s.callers ++ record { request = id; left = false } ∷ [];
}

-- The number of the request that a caller joins, and the model with it in the cache.
pub entry_for : BlameKey → Text → Option ℕ → BlameModel → ℕ × BlameModel
unfolding touch request
entry_for key cache_key (some id) s = (id, touch cache_key id s)
entry_for key cache_key none s = (length s.requests, request key cache_key s)

pub get_blame : BlameKey → Token → BlameModel → BlameModel
unfolding entry_for join
get_blame key token s =
    let cache_key = cache_key_for key in
    let (id, s') = entry_for key cache_key (lookup cache_key s.cache) s in join id token s'

-- A caller is gone; the last one arms the timer.
abbrev pub leave : Request → Request
leave r = record r {
  waiters = r.waiters - 1;
  abandon_timer =
      if r.waiters - 1 == 0 && not r.pinned && not r.settled then true else r.abandon_timer;
}

abbrev pub depart : Caller → Caller
depart caller = record caller { left = true }

pub leave_caller : ℕ → Option Caller → BlameModel → BlameModel
leave_caller index none s = s
leave_caller index (some caller) s = if caller.left then s else record s {
  callers = update_at depart s.callers index;
  requests = update_at leave s.requests caller.request;
}

-- A caller's token fires, or its promise has been settled.
pub leaves : ℕ → BlameModel → BlameModel
unfolding leave_caller
leaves index s = leave_caller index (get_elem? s.callers index) s

-- The timer of `scheduleAbandon` ends.
abbrev pub abandon : Request → Request
abandon r =
    if r.abandon_timer
    then record r {
      abandon_timer = false;
      cancelled = if r.waiters == 0 && not r.pinned && not r.settled then true else r.cancelled;
    }
    else r

pub timer_ends : ℕ → BlameModel → BlameModel
timer_ends id s = record s { requests = update_at abandon s.requests id }

abbrev pub settle : Request → Request
settle r = record r { settled = true; abandon_timer = false }

abbrev pub is_entry : ℕ → Option ℕ → Bool
is_entry id none = false
is_entry id (some other) = other == id

abbrev pub measure : ℕ → Request → Request
measure bytes r = record r { bytes = bytes }

-- The request has been answered with so many bytes.
pub succeed : ℕ → ℕ → Request → BlameModel → BlameModel
unfolding evict_to_budget
succeed id bytes r s =
    let s' = record s { requests = update_at settle s.requests id } in
    if is_entry id (lookup (cache_key_for r.key) s.cache)
    then evict_to_budget (record s' {
      requests = update_at (measure bytes) s'.requests id;
      total_bytes = s'.total_bytes + bytes;
    })
    else s'

pub data BlameFailure : Type 0 where
  restarted stale was_cancelled : BlameFailure
  failed_with : Text → BlameFailure

abbrev pub failure_id : BlameKey → Text → Text
failure_id key message = key.repo_id ++ 0 ∷ key.path ++ 0 ∷ message

abbrev failure_line : BlameKey → Text → Text
failure_line key message =
    codes "blame failed for " ++ key.path ++ codes " in " ++ key.repo_id ++ codes ": " ++ message

pub report_failure : BlameKey → BlameFailure → BlameModel → BlameModel
report_failure key (failed_with message) s =
    if has (failure_id key message) s.logged_failures then s else record s {
      logged_failures =
          (if leb max_logged_failures (length s.logged_failures) then [] else s.logged_failures)
          ++ failure_id key message ∷ [];
      log = s.log ++ failure_line key message ∷ [];
    }
report_failure key restarted s = s
report_failure key stale s = s
report_failure key was_cancelled s = s

pub fail : ℕ → BlameFailure → Request → BlameModel → BlameModel
unfolding remove report_failure
fail id failure r s =
    let s' = record s { requests = update_at settle s.requests id } in
    let cache_key = cache_key_for r.key in
    report_failure r.key failure
      (if is_entry id (lookup cache_key s'.cache) then remove cache_key false s' else s')

-- Whether an answer is for another buffer than the one that was asked about.
pub is_stale : BlameKey → Option ℤ → Bool
is_stale key none = false
is_stale key (some doc_version) = is_working_tree key && not (eq_ℤ doc_version key.version)

-- How a request ends.
pub data Outcome : Type 0 where
  answered : Option ℤ → FileBlame → Outcome
  refused : BlameFailure → Outcome

pub conclude : ℕ → Outcome → Request → BlameModel → BlameModel
unfolding is_stale succeed fail
conclude id (answered doc_version blame) r s =
    if is_stale r.key doc_version
    then fail id stale r s
    else succeed id (estimate_blame_bytes blame) r s
conclude id (refused failure) r s = fail id failure r s

pub conclude_running : ℕ → Outcome → Option Request → BlameModel → BlameModel
unfolding conclude
conclude_running id outcome none s = s
conclude_running id outcome (some r) s = if r.settled then s else conclude id outcome r s

-- A promise is settled once.
pub settles : ℕ → Outcome → BlameModel → BlameModel
unfolding conclude_running
settles id outcome s = conclude_running id outcome (get_elem? s.requests id) s

pub data Event : Type 0 where
  asks : BlameKey → Token → Event
  goes : ℕ → Event
  times_out : ℕ → Event
  ends : ℕ → Outcome → Event
  invalidates : Option Text → Event
  invalidates_path : Text → Text → Event
  saves : Text → Text → Event

pub step : (Text → Text) → Event → BlameModel → BlameModel
unfolding get_blame leaves timer_ends settles invalidate invalidate_path invalidate_saved
step lower (asks key token) s = get_blame key token s
step lower (goes index) s = leaves index s
step lower (times_out id) s = timer_ends id s
step lower (ends id outcome) s = settles id outcome s
step lower (invalidates repo_id) s = invalidate repo_id s
step lower (invalidates_path repo_id path) s = invalidate_path repo_id path s
step lower (saves repo_id path) s = invalidate_saved lower repo_id path s

pub run : (Text → Text) → List Event → BlameModel → BlameModel
unfolding step
run lower [] s = s
run lower (event ∷ events) s = run lower events (step lower event s)
