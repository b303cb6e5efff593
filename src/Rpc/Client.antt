-- ===== src/Rpc/Client.antt =====
-- packages/rpc/src/engineClient.ts: the crash-safe JSON-RPC client over a pluggable transport.
-- Every operation maps the client and the time (`Date.now()`) to the client after it and the effects
-- that it has on the transport, the callers and the options' callbacks, in order. A promise's
-- continuation is an operation of its own (`transport_up`, `initialized`, `handshake_failed`), called
-- with the generation that its closure captured; so is each timer.
-- The events that drive them, in any order, are `Event`.
pub mod State
pub mod Requests
pub mod Lifecycle
pub mod Settled
pub mod Deadlines
pub mod Backoff
mod Examples
use gitglasses.Rpc.Client.State.{Act, ◌⨾◌}
use gitglasses.Rpc.Client.Requests.{
  finish_inbound, deadline_passed, resume_deadline, pause_deadline, on_message, notify, send,
  cancel_request, Inbound,
}
use gitglasses.Rpc.Client.Lifecycle.{
  respawn, handshake_failed, dispose, initialized, on_exit, restart, start, transport_up,
}
use gitglasses.Base.{
  ◌*◌, not, min, ◌||◌, ◌==◌, ◌&&◌, max, ltb, keep_if, Bool, ◌-◌, ◌+◌, map, length, if◌then◌else◌,
  codes, Text, Option, List, ℕ, zero, suc, refl, [], ◌∷◌, true, false, none, some, inl, inr, ◌++◌,
  ◌≡◌, arith,
}
use gitglasses.Base.Sets.{delete, has, add}

-- What happens to a client, at a time.
pub data Event : Type 0 where
  sends : Text → Bool → Event
  cancels passes pauses resumes : ℕ → Event
  notifies : Text → Event
  receives : ℕ → Inbound → Event
  finishes : Text → ℕ → Event
  exits : ℕ → Event
  comes_up : ℕ → Event
  initializes : ℕ → Text → Event
  fails_handshake : ℕ → ℕ → Event
  respawns starts restarts disposes : Event

pub step : ℕ → Event → Act
unfolding send cancel_request deadline_passed pause_deadline resume_deadline notify on_message
    finish_inbound on_exit transport_up initialized handshake_failed respawn start restart dispose
step now (sends method token_cancelled) = send now method token_cancelled
step now (cancels id) = cancel_request id
step now (passes id) = deadline_passed id
step now (pauses id) = pause_deadline now id
step now (resumes id) = resume_deadline now id
step now (notifies method) = notify method
step now (receives generation message) = on_message generation message
step now (finishes key cancellation) = finish_inbound key cancellation
step now (exits generation) = on_exit now generation
step now (comes_up generation) = transport_up now generation
step now (initializes generation caps) = initialized generation caps
step now (fails_handshake generation t) = handshake_failed generation t
step now respawns = respawn
step now starts = start now
step now restarts = restart
step now disposes = dispose

unfoldable pub run : List (ℕ × Event) → Act
run [] c = (c, [])
run ((now, e) ∷ es) c = (step now e ⨾ run es) c
