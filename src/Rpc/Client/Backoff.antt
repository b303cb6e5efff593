-- ===== src/Rpc/Client/Backoff.antt =====
-- packages/rpc/src/engineClient.ts: the delay before a respawn.
use gitglasses.Rpc.Client.State.{restarted, new_client}
use gitglasses.Rpc.Client.Requests.{
  is_held, finish_inbound, deadline_passed, cancel_request, notify, resume_deadline, abandon_all,
  pause_deadline, on_message, unparseable, answer, engine_request, cancels_inbound, notification,
}
use gitglasses.Rpc.Client.Lifecycle.{
  forget_crashes, orphan, kill_transport, mark_disposed, clear_respawn, restart, respawn,
  initialized, handshake_failed, dispose,
}
use gitglasses.Rpc.Client.{
  step, run, Event, finishes, sends, cancels, passes, resumes, notifies, receives, exits, comes_up,
  initializes, fails_handshake, respawns, starts, restarts, disposes,
}
use gitglasses.Rpc.Client.{pauses}
use gitglasses.Base.{
  inr, inl, Bool-cases, ◌&&◌, not, ◌||◌, codes, ◌≤◌, ◌==◌, if◌then◌else◌, Text, Option, List, Bool,
  ℕ, [], ◌∷◌, true, false, none, some, arith,
}
use gitglasses.Rpc.Client.Lifecycle.{start}
use gitglasses.Rpc.Client.Requests.{
  notification, cancels_inbound, engine_request, answer_effects, answer, settle_found, enroll,
  cancel_inbound, Inbound, send_on, handle_message, fail_all_pending, settle, send_to, send,
}
use gitglasses.Rpc.Client.Lifecycle.{
  report_crash, spawn_unless_ready, start_again, recent_crashes, transport_up, spawn_engine,
  schedule_respawn, on_exit,
}
use gitglasses.Rpc.Client.State.{
  backoff_max_ms, in_order, find, backoff_start_ms, Pending, Effect, Client, Act,
}
use gitglasses.Base.Maps.{lookup}

abbrev pub HasBackoff : Client → Type 0
HasBackoff c = (backoff_start_ms ≤ c.backoff_ms) × (c.backoff_ms ≤ backoff_max_ms)

-- An operation that keeps the delay within its bounds.
abbrev Keeps : Act → Type 0
Keeps m = (c : Client) → HasBackoff c → HasBackoff (m c).0

if-Keeps :
    (t : Bool) (r s : Client × List Effect)
    → HasBackoff r.0
    → HasBackoff s.0
    → HasBackoff (if t then r else s).0
if-Keeps true r s h k = h
if-Keeps false r s h k = k

schedule_respawn-Keeps : (now : ℕ) → Keeps (schedule_respawn now)
unfolding schedule_respawn recent_crashes
schedule_respawn-Keeps now c b = ground arith

spawn_engine-Keeps : Keeps spawn_engine
unfolding spawn_engine
spawn_engine-Keeps c b = if-Keeps c.disposed _ _ b b

on_exit-Keeps : (now generation : ℕ) → Keeps (on_exit now generation)
unfolding on_exit fail_all_pending cancel_inbound report_crash
on_exit-Keeps now generation c b =
    if-Keeps (c.disposed || not (generation == c.generation)) _ _ b (schedule_respawn-Keeps now _ b)

settle_found-Keeps : (o : Option Pending) (id : ℕ) (es : List Effect) → Keeps (settle_found o id es)
settle_found-Keeps none id es c b = b
settle_found-Keeps (some p) id es c b = b

settle-Keeps : (id : ℕ) (es : List Effect) → Keeps (settle id es)
unfolding settle
settle-Keeps id es c b = settle_found-Keeps (find id c.pending) id es c b

handle_message-Keeps : (m : Inbound) → Keeps (handle_message m)
unfolding handle_message
handle_message-Keeps unparseable c b = b
handle_message-Keeps (answer id a) c b = settle-Keeps id (answer_effects id a) c b
handle_message-Keeps (engine_request key) c b = b
handle_message-Keeps (cancels_inbound key) c b = b
handle_message-Keeps (notification method) c b = b

send_to-Keeps : (o : Option ℕ) (now : ℕ) (method : Text) (t : Bool) → Keeps (send_to o now method t)
unfolding send_to send_on enroll
send_to-Keeps none now method t c b = b
send_to-Keeps (some n) now method t c b = if-Keeps c.transport_alive _ _ (if-Keeps t _ _ b b) b

send-Keeps : (now : ℕ) (method : Text) (t : Bool) → Keeps (send now method t)
unfolding send
send-Keeps now method t c b = send_to-Keeps c.transport now method t c b

handshake-Keeps :
    (t : Bool) (now : ℕ) (c : Client)
    → HasBackoff c
    → HasBackoff
        (send now
          (codes "initialize")
          false
          (if t then record c { transport_alive = true } else c)).0
handshake-Keeps true now c b =
    send-Keeps now (codes "initialize") false (record c { transport_alive = true }) b
handshake-Keeps false now c b = send-Keeps now (codes "initialize") false c b

transport_up-Keeps : (now generation : ℕ) → Keeps (transport_up now generation)
unfolding transport_up
transport_up-Keeps now generation c b = handshake-Keeps (generation == c.generation) now c b

spawn_unless_ready-Keeps : Keeps spawn_unless_ready
unfolding spawn_unless_ready
spawn_unless_ready-Keeps c b = if-Keeps c.ready (c, []) (spawn_engine c) b (spawn_engine-Keeps c b)

kept-Keeps :
    (t : Bool) (now : ℕ) (c : Client)
    → HasBackoff c
    → HasBackoff (spawn_unless_ready (if t then (recent_crashes now c).0 else c)).0
unfolding recent_crashes
kept-Keeps true now c b = spawn_unless_ready-Keeps (recent_crashes now c).0 b
kept-Keeps false now c b = spawn_unless_ready-Keeps c b

reset : (c : Client) → HasBackoff (record c { backoff_ms = backoff_start_ms })
reset c = (omega arith, omega arith)

start_again-Keeps : Keeps start_again
unfolding start_again
start_again-Keeps c b =
    spawn_engine-Keeps (record c { gave_up = false; backoff_ms = backoff_start_ms }) (reset c)

start-Keeps : (now : ℕ) → Keeps (start now)
unfolding start recent_crashes
start-Keeps now c b =
    let (aged, crashes) = recent_crashes now c in
    if-Keeps (c.gave_up && crashes == 0) (start_again aged)
      (spawn_unless_ready (if c.gave_up then aged else c)) (start_again-Keeps aged b)
      (kept-Keeps c.gave_up now c b)

initialized-Keeps : (generation : ℕ) (caps : Text) → Keeps (initialized generation caps)
unfolding initialized
initialized-Keeps generation caps c b = if-Keeps (generation == c.generation) _ _ (reset c) b

handshake_failed-Keeps : (generation t : ℕ) → Keeps (handshake_failed generation t)
unfolding handshake_failed
handshake_failed-Keeps generation t c b = if-Keeps (generation == c.generation) _ _ b b

respawn-Keeps : Keeps respawn
unfolding respawn
respawn-Keeps c b =
    let idle = record c { respawn_timer = false } in
    if-Keeps c.disposed (idle, []) (spawn_engine idle) b (spawn_engine-Keeps idle b)

restart-Keeps : Keeps restart
unfolding restart clear_respawn abandon_all fail_all_pending orphan cancel_inbound kill_transport
    forget_crashes
restart-Keeps c b =
    let (d, _) =
      in_order
        (clear_respawn
          ∷ abandon_all restarted
          ∷ orphan
          ∷ cancel_inbound
          ∷ kill_transport
          ∷ forget_crashes
          ∷ [])
        c in
    spawn_engine-Keeps d (omega arith, omega arith)

dispose-Keeps : Keeps dispose
unfolding dispose mark_disposed clear_respawn abandon_all fail_all_pending cancel_inbound
    kill_transport
dispose-Keeps c b = if-Keeps c.disposed _ _ b b

on_message-Keeps : (generation : ℕ) (m : Inbound) → Keeps (on_message generation m)
unfolding on_message
on_message-Keeps generation m c b =
    if-Keeps (c.disposed || not (generation == c.generation)) (c, []) (handle_message m c) b
      (handle_message-Keeps m c b)

step-Keeps : (now : ℕ) (e : Event) → Keeps (step now e)
unfolding step pause_deadline resume_deadline notify cancel_request deadline_passed finish_inbound
step-Keeps now (sends method t) = send-Keeps now method t
step-Keeps now (cancels id) = λ c b. settle-Keeps id _ c b
step-Keeps now (passes id) = λ c b. settle-Keeps id _ c b
step-Keeps now (pauses id) = λ c b. b
step-Keeps now (resumes id) = λ c b. b
step-Keeps now (notifies method) = λ c b. b
step-Keeps now (receives generation m) = on_message-Keeps generation m
step-Keeps now (finishes key cancellation) = λ c b.
    elim (Bool-cases (is_held cancellation (lookup key c.inbound))) [
      | inl e ↦ rw e b
      | inr e ↦ rw e b
    ]
step-Keeps now (exits generation) = on_exit-Keeps now generation
step-Keeps now (comes_up generation) = transport_up-Keeps now generation
step-Keeps now (initializes generation caps) = initialized-Keeps generation caps
step-Keeps now (fails_handshake generation t) = handshake_failed-Keeps generation t
step-Keeps now respawns = respawn-Keeps
step-Keeps now starts = start-Keeps now
step-Keeps now restarts = restart-Keeps
step-Keeps now disposes = dispose-Keeps

run-Keeps : (es : List (ℕ × Event)) → Keeps (run es)
unfolding run
run-Keeps [] c b = b
run-Keeps ((now, e) ∷ es) c b = run-Keeps es (step now e c).0 (step-Keeps now e c b)

-- Whatever happens to a client, the delay before its next respawn is never less than the first delay
-- and never more than the greatest one.
pub run-HasBackoff :
    (request_timeout_ms : ℕ) (events : List (ℕ × Event))
    → HasBackoff (run events (new_client request_timeout_ms)).0
run-HasBackoff request_timeout_ms events =
    run-Keeps events (new_client request_timeout_ms) (omega arith, omega arith)
