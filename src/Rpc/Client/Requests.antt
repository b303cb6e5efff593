-- ===== src/Rpc/Client/Requests.antt =====
-- packages/rpc/src/engineClient.ts: requests, their deadlines and cancellations, and the engine's messages. JSON is
-- parsed outside: a message arrives as `Inbound`.
use gitglasses.Rpc.Client.State.{
  inbound_cancelled, Reason, rejected, Act, find, Pending, notified, restricted, sent, remove,
  Client, failed, timed_out, update, resolved, refused, restarted, cancelled, Effect, sent_cancel,
  method_not_supported, long_request_timeout_ms,
}
use gitglasses.Base.{
  not, ◌||◌, ◌==◌, ◌&&◌, max, Bool, ◌-◌, ◌+◌, map, if◌then◌else◌, Text, Option, List, ℕ, suc, [],
  ◌∷◌, true, false, none, some, ◌++◌,
}
use gitglasses.Base.Maps.{lookup, has_key, set_key, remove_key}

-- `transport?.send` while the engine is up.
abbrev pub if_alive : Option ℕ → Bool → (ℕ → Effect) → List Effect
if_alive none alive e = []
if_alive (some t) alive e = if alive then e t ∷ [] else []

unfoldable pub on_transport : Client → (ℕ → Effect) → List Effect
on_transport c = if_alive c.transport c.transport_alive

unfoldable pub notify : Text → Act
unfolding on_transport
notify method c = (c, on_transport c (λ t. notified t method))

unfoldable pub send_cancel : ℕ → Client → List Effect
unfolding on_transport
send_cancel id c = on_transport c (λ t. sent_cancel t id)

unfoldable pub arm : ℕ → ℕ → Pending → Pending
arm now ms p = record p { armed = true; deadline = now + ms }

-- `armDeadline`: starts or restarts the deadline of a request.
pub arm_deadline : ℕ → ℕ → ℕ → Act
unfolding arm
arm_deadline now id ms c = (record c { pending = update id (arm now ms) c.pending }, [])

unfoldable pub pause : ℕ → Pending → Pending
pause now p =
    if p.pauses == 0 && p.armed
    then record p { pauses = p.pauses + 1; armed = false; remaining = p.deadline - now }
    else record p { pauses = p.pauses + 1 }

-- `pauseDeadline`: an engine request is open on the request's behalf.
unfoldable pub pause_deadline : ℕ → ℕ → Act
unfolding pause
pause_deadline now id c = (record c { pending = update id (pause now) c.pending }, [])

unfoldable pub resume : ℕ → Pending → Pending
unfolding arm
resume now p =
    let q = record p { pauses = p.pauses - 1 } in
    if p.pauses - 1 == 0 then arm now p.remaining q else q

-- The function that `pauseDeadline` returns, called once.
unfoldable pub resume_deadline : ℕ → ℕ → Act
unfolding resume
resume_deadline now id c = (record c { pending = update id (resume now) c.pending }, [])

pub timeout_of : Client → Text → ℕ
unfolding long_request_timeout_ms
timeout_of c method = elim (long_request_timeout_ms method) [
  | none ↦ c.request_timeout_ms
  | some ms ↦ max c.request_timeout_ms ms
]

unfoldable pub enroll : ℕ → Text → Client → Client
unfolding timeout_of
enroll now method c = record c {
  next_id = suc c.next_id;
  pending =
      c.pending
      ++ (
        c.next_id,
        record {
          method = method;
          armed = true;
          deadline = now + timeout_of c method;
          pauses = 0;
          remaining = 0;
        },
      )
        ∷ [];
}

-- `send`: `token_cancelled` is `token?.isCancellationRequested`.
unfoldable pub send_on : ℕ → ℕ → Text → Bool → Act
unfolding enroll
send_on t now method token_cancelled c =
    let id = c.next_id in
    let enrolled = enroll now method c in
    if token_cancelled
    then (record enrolled { pending = remove id enrolled.pending }, rejected id cancelled ∷ [])
    else (enrolled, sent t id method ∷ [])

unfoldable pub send_to : Option ℕ → ℕ → Text → Bool → Act
unfolding send_on
send_to none now method token_cancelled c = (c, refused restarted ∷ [])
send_to (some t) now method token_cancelled c =
    let done = send_on t now method token_cancelled c in
    if c.transport_alive then done else (c, refused restarted ∷ [])

unfoldable pub send : ℕ → Text → Bool → Act
unfolding send_to
send now method token_cancelled c = send_to c.transport now method token_cancelled c

-- Settles request `id` with `e` if it is pending, and does nothing otherwise.
abbrev pub settle_found : Option Pending → ℕ → List Effect → Act
settle_found none id es c = (c, [])
settle_found (some p) id es c = (record c { pending = remove id c.pending }, es)

unfoldable pub settle : ℕ → List Effect → Act
settle id es c = settle_found (find id c.pending) id es c

-- The token's listener: reject at once, and tell the engine.
unfoldable pub cancel_request : ℕ → Act
unfolding settle send_cancel
cancel_request id c = settle id (send_cancel id c ++ rejected id cancelled ∷ []) c

-- The deadline's timer runs out.
unfoldable pub deadline_passed : ℕ → Act
unfolding settle send_cancel
deadline_passed id c = settle id (send_cancel id c ++ rejected id timed_out ∷ []) c

pub data Answer : Type 0 where
  result : Answer
  error : ℕ → Text → Answer

-- What a payload of the engine says, once parsed. Of a request of the engine its key is kept while its
-- handler runs; handlers of requests and of notifications belong to the client's user, and the
-- answers that they give are not modelled.
pub data Inbound : Type 0 where
  unparseable : Inbound
  answer : ℕ → Answer → Inbound
  engine_request : Text → Inbound
  cancels_inbound : Text → Inbound
  notification : Text → Inbound

-- ErrorCodes.MethodNotSupported and Restricted are -32003 and -32004; the codes here are negated.
unfoldable pub answer_effects : ℕ → Answer → List Effect
answer_effects id result = resolved id ∷ []
answer_effects id (error code message) =
    (if code == 32003
      then method_not_supported message ∷ []
      else if code == 32004
      then restricted message ∷ []
      else [])
    ++ rejected id (failed code) ∷ []

unfoldable pub handle_message : Inbound → Act
unfolding settle answer_effects
handle_message unparseable c = (c, [])
handle_message (answer id a) c = settle id (answer_effects id a) c
handle_message (engine_request key) c = (
  record c {
    inbound = set_key key c.created_cancellations c.inbound;
    created_cancellations = suc c.created_cancellations;
  },
  [],
)
handle_message (cancels_inbound key) c =
    (c, if has_key key c.inbound then inbound_cancelled key ∷ [] else [])
handle_message (notification method) c = (c, [])

abbrev pub is_held : ℕ → Option ℕ → Bool
is_held cancellation none = false
is_held cancellation (some held) = held == cancellation

-- The handler of the engine's request `key` is done, which was given this cancellation.
unfoldable pub finish_inbound : Text → ℕ → Act
finish_inbound key cancellation c =
    if is_held cancellation (lookup key c.inbound)
    then (record c { inbound = remove_key key c.inbound }, [])
    else (c, [])

-- The transport's message handler, of the generation that registered it.
unfoldable pub on_message : ℕ → Inbound → Act
unfolding handle_message
on_message generation message c =
    if c.disposed || not (generation == c.generation) then (c, []) else handle_message message c

unfoldable pub rejections : Reason → List (ℕ × Pending) → List Effect
rejections r [] = []
rejections r ((id, p) ∷ m) = rejected id r ∷ rejections r m

unfoldable pub fail_all_pending : Reason → Act
unfolding rejections
fail_all_pending r c = (record c { pending = [] }, rejections r c.pending)

unfoldable pub cancellations : Client → List (ℕ × Pending) → List Effect
unfolding send_cancel
cancellations c [] = []
cancellations c ((id, p) ∷ m) = send_cancel id c ++ cancellations c m

unfoldable pub abandon_all : Reason → Act
unfolding fail_all_pending cancellations
abandon_all r c = let (c', es) = fail_all_pending r c in (c', cancellations c c.pending ++ es)

unfoldable pub cancel_inbound : Act
cancel_inbound c = (record c { inbound = [] }, map (λ p. inbound_cancelled p.0) c.inbound)
