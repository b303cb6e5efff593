-- ===== src/Rpc/Client/Settled/Runs.antt =====
-- packages/rpc/src/engineClient.ts: each operation of the client, up to a run of events, settles what it
-- takes from the pending requests.
use gitglasses.Rpc.Client.Requests.{finish_inbound, is_held}
use gitglasses.Base.Maps.{lookup}
use gitglasses.Rpc.Client.{
  finishes, sends, cancels, passes, resumes, notifies, receives, exits, comes_up, initializes,
  fails_handshake, respawns, starts, restarts, disposes,
}
use gitglasses.Rpc.Client.{pauses, pauses}
use gitglasses.Base.{
  inr, inl, Bool-cases, ◌&&◌, ltb, ◌+◌, ◌≤◌, not, ◌||◌, codes, ◌==◌, if◌then◌else◌, Text, All, List,
  Bool, ℕ, refl, [], ◌∷◌, true, false, ◌≡◌, arith,
}
use gitglasses.Rpc.Client.State.{
  backoff_start_ms, in_order, timed_out, notified, new_client, cancelled, restarted,
}
use gitglasses.Rpc.Client.Lifecycle.{spawn_unless_ready, schedule_respawn, restart, dispose, start}
use gitglasses.Rpc.Client.{
  fails_handshake, initializes, comes_up, exits, receives, notifies, resumes, passes, cancels,
  sends, Event, step, run,
}
use gitglasses.Rpc.Client.Requests.{
  resume, pause, resume_deadline, cancel_inbound, pause_deadline, on_transport, notify,
  fail_all_pending, deadline_passed, cancel_request, abandon_all,
}
use gitglasses.Rpc.Client.Lifecycle.{
  spawn_engine, recent_crashes, start_again, report_crash, orphan, mark_disposed, kill_transport,
  forget_crashes, clear_respawn, transport_up, respawn, on_exit, initialized, handshake_failed,
}
use gitglasses.Rpc.Client.Requests.{send}
use gitglasses.Rpc.Client.State.{Client, Act}
use gitglasses.Rpc.Client.Settled.{
  IsKeyed-after, settled-if_alive, count, Conserves-then, settles, one_if, Conserves, started,
  settled, IsKeyed,
}
use gitglasses.Rpc.Client.Settled.Steps.{
  schedule_respawn-Conserves, on_message-Conserves, update-Conserves, spawn_engine-Conserves,
  fail_all_pending-Conserves, cancel_inbound-Conserves, settle_with-Conserves, send_to-Conserves,
  kill_previous-settled, if-Conserves, abandon_all-Conserves,
}

quiet-Conserves : (c : Client) → Conserves c (c, [])
unfolding settled
quiet-Conserves c id = omega arith

report_crash-Conserves : (c : Client) → Conserves c (report_crash c)
unfolding report_crash settled settles
report_crash-Conserves c id = omega arith

handshake-Conserves :
    (b : Bool) (now : ℕ) (c : Client)
    → IsKeyed c
    → Conserves c
        (send now (codes "initialize") false (if b then record c { transport_alive = true } else c))
unfolding send
handshake-Conserves true now c k =
    send_to-Conserves c.transport now (codes "initialize") false
      (record c { transport_alive = true }) k
handshake-Conserves false now c k = send_to-Conserves c.transport now (codes "initialize") false c k

transport_up-Conserves :
    (now generation : ℕ) (c : Client) → IsKeyed c → Conserves c (transport_up now generation c)
unfolding transport_up
transport_up-Conserves now generation c = handshake-Conserves (generation == c.generation) now c

initialized-Conserves :
    (generation : ℕ) (caps : Text) (c : Client) → Conserves c (initialized generation caps c)
unfolding initialized settled settles started
initialized-Conserves generation caps c id = ground arith

handshake_failed-Conserves :
    (generation t : ℕ) (c : Client) → Conserves c (handshake_failed generation t c)
unfolding handshake_failed settled settles started
handshake_failed-Conserves generation t c id = ground arith

respawn-Conserves : (c : Client) → Conserves c (respawn c)
unfolding respawn
respawn-Conserves c =
    if-Conserves c.disposed c _ _ (quiet-Conserves c)
      (spawn_engine-Conserves (record c { respawn_timer = false }))

spawn_unless_ready-Conserves : (c : Client) → Conserves c (spawn_unless_ready c)
unfolding spawn_unless_ready
spawn_unless_ready-Conserves c =
    if-Conserves c.ready c _ _ (quiet-Conserves c) (spawn_engine-Conserves c)

kept-Conserves :
    (b : Bool) (now : ℕ) (c : Client)
    → Conserves c (spawn_unless_ready (if b then (recent_crashes now c).0 else c))
unfolding recent_crashes
kept-Conserves true now c = spawn_unless_ready-Conserves (recent_crashes now c).0
kept-Conserves false now c = spawn_unless_ready-Conserves c

start_again-Conserves : (c : Client) → Conserves c (start_again c)
unfolding start_again
start_again-Conserves c =
    spawn_engine-Conserves (record c { gave_up = false; backoff_ms = backoff_start_ms })

start-Conserves : (now : ℕ) (c : Client) → Conserves c (start now c)
unfolding start recent_crashes
start-Conserves now c =
    let (aged, crashes) = recent_crashes now c in
    if-Conserves (c.gave_up && crashes == 0) c (start_again aged)
      (spawn_unless_ready (if c.gave_up then aged else c)) (start_again-Conserves aged)
      (kept-Conserves c.gave_up now c)

clear_respawn-Conserves : (c : Client) → Conserves c (clear_respawn c)
unfolding clear_respawn settled
clear_respawn-Conserves c id = omega arith

orphan-Conserves : (c : Client) → Conserves c (orphan c)
unfolding orphan settled
orphan-Conserves c id = omega arith

kill_transport-Conserves : (c : Client) → Conserves c (kill_transport c)
unfolding kill_transport
kill_transport-Conserves c id = omega (arith, kill_previous-settled id c.transport)

forget_crashes-Conserves : (c : Client) → Conserves c (forget_crashes c)
unfolding forget_crashes settled
forget_crashes-Conserves c id = omega arith

mark_disposed-Conserves : (c : Client) → Conserves c (mark_disposed c)
unfolding mark_disposed settled
mark_disposed-Conserves c id = omega arith

in_order-Conserves :
    (ms : List Act)
    → All (λ m. (c : Client) → Conserves c (m c)) ms
    → (c : Client) → Conserves c (in_order ms c)
in_order-Conserves [] h c = quiet-Conserves c
in_order-Conserves (m ∷ ms) h c =
    Conserves-then m (in_order ms) c (h.0 c) (in_order-Conserves ms h.1 (m c).0)

on_exit-Conserves : (now generation : ℕ) (c : Client) → Conserves c (on_exit now generation c)
unfolding on_exit
on_exit-Conserves now generation c =
    if-Conserves (c.disposed || not (generation == c.generation)) c _ _ (quiet-Conserves c) (
      in_order-Conserves
        (fail_all_pending restarted ∷ cancel_inbound ∷ report_crash ∷ schedule_respawn now ∷ [])
        (
          fail_all_pending-Conserves restarted,
          (
            cancel_inbound-Conserves,
            (report_crash-Conserves, (schedule_respawn-Conserves now, tt)),
          ),
        )
        (record c { transport_alive = false }))

restart-Conserves : (c : Client) → Conserves c (restart c)
unfolding restart
restart-Conserves =
    in_order-Conserves
      (clear_respawn
        ∷ abandon_all restarted
        ∷ orphan
        ∷ cancel_inbound
        ∷ kill_transport
        ∷ forget_crashes
        ∷ spawn_engine
        ∷ [])
      (
        clear_respawn-Conserves,
        (
          abandon_all-Conserves restarted,
          (
            orphan-Conserves,
            (
              cancel_inbound-Conserves,
              (kill_transport-Conserves, (forget_crashes-Conserves, (spawn_engine-Conserves, tt))),
            ),
          ),
        ),
      )

dispose-Conserves : (c : Client) → Conserves c (dispose c)
unfolding dispose
dispose-Conserves c = if-Conserves c.disposed c _ _ (quiet-Conserves c) (
    in_order-Conserves
      (mark_disposed ∷ clear_respawn ∷ abandon_all restarted ∷ cancel_inbound ∷ kill_transport ∷ [])
      (
        mark_disposed-Conserves,
        (
          clear_respawn-Conserves,
          (
            abandon_all-Conserves restarted,
            (cancel_inbound-Conserves, (kill_transport-Conserves, tt)),
          ),
        ),
      )
      c)

notify-Conserves : (method : Text) (c : Client) → Conserves c (notify method c)
unfolding notify on_transport settles
notify-Conserves method c id =
    omega (
      arith,
      settled-if_alive id c.transport c.transport_alive (λ t. notified t method) (λ t. refl),
    )

cancel_request-Conserves : (j : ℕ) (c : Client) → IsKeyed c → Conserves c (cancel_request j c)
unfolding cancel_request
cancel_request-Conserves j c k = settle_with-Conserves j cancelled c k

deadline_passed-Conserves : (j : ℕ) (c : Client) → IsKeyed c → Conserves c (deadline_passed j c)
unfolding deadline_passed
deadline_passed-Conserves j c k = settle_with-Conserves j timed_out c k

finish_inbound-Conserves :
    (key : Text) (cancellation : ℕ) (c : Client) → Conserves c (finish_inbound key cancellation c)
unfolding finish_inbound settled
finish_inbound-Conserves key cancellation c id =
    elim (Bool-cases (is_held cancellation (lookup key c.inbound))) [
      | inl e ↦ rw e (omega arith)
      | inr e ↦ rw e (omega arith)
    ]

-- No step loses or doubles a request.
step-Conserves : (now : ℕ) (e : Event) (c : Client) → IsKeyed c → Conserves c (step now e c)
unfolding step pause_deadline resume_deadline send
step-Conserves now (sends method b) c k = send_to-Conserves c.transport now method b c k
step-Conserves now (cancels id) c k = cancel_request-Conserves id c k
step-Conserves now (passes id) c k = deadline_passed-Conserves id c k
step-Conserves now (pauses id) c k = update-Conserves id (pause now) c
step-Conserves now (resumes id) c k = update-Conserves id (resume now) c
step-Conserves now (notifies method) c k = notify-Conserves method c
step-Conserves now (receives generation m) c k = on_message-Conserves generation m c k
step-Conserves now (finishes key cancellation) c k = finish_inbound-Conserves key cancellation c
step-Conserves now (exits generation) c k = on_exit-Conserves now generation c
step-Conserves now (comes_up generation) c k = transport_up-Conserves now generation c k
step-Conserves now (initializes generation caps) c k = initialized-Conserves generation caps c
step-Conserves now (fails_handshake generation t) c k = handshake_failed-Conserves generation t c
step-Conserves now respawns c k = respawn-Conserves c
step-Conserves now starts c k = start-Conserves now c
step-Conserves now restarts c k = restart-Conserves c
step-Conserves now disposes c k = dispose-Conserves c

run-Conserves : (es : List (ℕ × Event)) (c : Client) → IsKeyed c → Conserves c (run es c)
unfolding run
run-Conserves [] c k = quiet-Conserves c
run-Conserves ((now, e) ∷ es) c k =
    let h = step-Conserves now e c k in
    Conserves-then (step now e) (run es) c h
      (run-Conserves es _ (IsKeyed-after c (step now e c) k h))

-- Whatever happens to a client, and in whatever order (answers, late or doubled ones included,
-- cancellations, deadlines, crashes, respawns, restarts and the disposal), each request that it has
-- started has been settled once and is no longer pending, or is pending and has not been settled;
-- an identifier that it has not reached yet is neither settled nor pending.
pub settled_once :
    (request_timeout_ms : ℕ) (events : List (ℕ × Event)) (id : ℕ)
    → 1 ≤ id
    → let (c, effects) = run events (new_client request_timeout_ms) in
      settled id effects + count id c.pending ≡ (if ltb id c.next_id then 1 else 0)
unfolding started one_if count
settled_once request_timeout_ms events id h =
    ground (arith, run-Conserves events (new_client request_timeout_ms) (λ i. omega arith) id)
