-- ===== src/Rpc/Client/Lifecycle.antt =====
-- packages/rpc/src/engineClient.ts: starts, crashes, respawns, restarts and the disposal.
use gitglasses.Rpc.Client.State.{
  created, Act, backoff_max_ms, Client, crash_window_ms, gave_up_on, in_order,
  max_crashes_in_window, crashed, restarted, backoff_start_ms, Effect, killed, capabilities_changed,
}
use gitglasses.Rpc.Client.Requests.{abandon_all, fail_all_pending, cancel_inbound, send}
use gitglasses.Base.{
  ◌*◌, not, min, ◌||◌, ◌==◌, ◌&&◌, ltb, keep_if, ◌-◌, length, if◌then◌else◌, codes, Text, Option,
  List, ℕ, suc, [], ◌∷◌, true, false, none, some, ◌++◌,
}

pub recent : ℕ → List ℕ → List ℕ
recent now = keep_if (λ time. ltb (now - time) crash_window_ms)

-- `recentCrashes` forgets the crashes that have aged out of the window.
unfoldable pub recent_crashes : ℕ → Client → Client × ℕ
unfolding recent
recent_crashes now c =
    let times = recent now c.crash_times in (record c { crash_times = times }, length times)

-- `scheduleRespawn`.
unfoldable pub schedule_respawn : ℕ → Act
unfolding recent_crashes
schedule_respawn now c =
    let (c', crashes) = recent_crashes now (record c { crash_times = c.crash_times ++ now ∷ [] }) in
    if ltb max_crashes_in_window crashes then (record c' { gave_up = true }, gave_up_on ∷ []) else (
      record c' { backoff_ms = min (c'.backoff_ms * 2) backoff_max_ms; respawn_timer = true },
      [],
    )

unfoldable pub report_crash : Act
report_crash c = (c, crashed ∷ [])

-- The transport's exit handler, of the generation that registered it.
unfoldable pub on_exit : ℕ → ℕ → Act
unfolding report_crash fail_all_pending cancel_inbound schedule_respawn
on_exit now generation c =
    let rest =
      in_order
        (fail_all_pending restarted ∷ cancel_inbound ∷ report_crash ∷ schedule_respawn now ∷ [])
        (record c { transport_alive = false }) in
    if c.disposed || not (generation == c.generation) then (c, []) else rest

unfoldable pub kill_previous : Option ℕ → List Effect
kill_previous none = []
kill_previous (some t) = killed t ∷ []

-- `this.ready = this.spawnEngine()`, up to the first await of `spawnEngine`; on a disposed client it
-- throws, and `ready` is a rejected promise. The factory makes a fresh transport each time.
unfoldable pub spawn_engine : Act
unfolding kill_previous
spawn_engine c =
    let t = c.created_transports in
    if c.disposed then (record c { ready = true }, []) else (
      record c {
        generation = suc c.generation;
        transport = some t;
        created_transports = suc t;
        ready = true;
      },
      created t ∷ kill_previous c.transport,
    )

-- `transport.start()` has resolved for `generation`; `initialize` is sent.
unfoldable pub transport_up : ℕ → ℕ → Act
unfolding send
transport_up now generation c =
    send now (codes "initialize") false
      (if generation == c.generation then record c { transport_alive = true } else c)

-- The handshake succeeded.
unfoldable pub initialized : ℕ → Text → Act
initialized generation caps c =
    if generation == c.generation
    then (record c { caps = some caps; backoff_ms = backoff_start_ms }, capabilities_changed ∷ [])
    else (c, [])

-- The handshake failed on the transport `t`.
unfoldable pub handshake_failed : ℕ → ℕ → Act
handshake_failed generation t c =
    if generation == c.generation
    then (record c { transport_alive = false; ready = false }, killed t ∷ [])
    else (c, killed t ∷ [])

-- The respawn timer runs out.
unfoldable pub respawn : Act
unfolding spawn_engine
respawn c =
    let idle = record c { respawn_timer = false } in
    let spawned = spawn_engine idle in if c.disposed then (idle, []) else spawned

unfoldable pub start_again : Act
unfolding spawn_engine
start_again c = spawn_engine (record c { gave_up = false; backoff_ms = backoff_start_ms })

unfoldable pub spawn_unless_ready : Act
unfolding spawn_engine
spawn_unless_ready c = let spawned = spawn_engine c in if c.ready then (c, []) else spawned

-- `start`: idempotent; after the client gave up it tries again once the crashes have aged out.
unfoldable pub start : ℕ → Act
unfolding start_again recent_crashes spawn_unless_ready
start now c =
    let (aged, crashes) = recent_crashes now c in
    let again = start_again aged in
    let kept = spawn_unless_ready (if c.gave_up then aged else c) in
    if c.gave_up && crashes == 0 then again else kept

unfoldable pub clear_respawn : Act
clear_respawn c = (record c { respawn_timer = false }, [])

unfoldable pub kill_transport : Act
unfolding kill_previous
kill_transport c = (c, kill_previous c.transport)

unfoldable pub orphan : Act
orphan c = (record c { generation = suc c.generation; transport_alive = false }, [])

unfoldable pub forget_crashes : Act
forget_crashes c =
    (record c { crash_times = []; gave_up = false; backoff_ms = backoff_start_ms }, [])

unfoldable pub restart : Act
unfolding clear_respawn abandon_all orphan cancel_inbound kill_transport forget_crashes spawn_engine
restart = in_order (
    clear_respawn
    ∷ abandon_all restarted
    ∷ orphan
    ∷ cancel_inbound
    ∷ kill_transport
    ∷ forget_crashes
    ∷ spawn_engine
    ∷ [])

unfoldable pub mark_disposed : Act
mark_disposed c = (record c { disposed = true }, [])

unfoldable pub dispose : Act
unfolding mark_disposed clear_respawn abandon_all cancel_inbound kill_transport
dispose c =
    let all =
      in_order
        (mark_disposed
          ∷ clear_respawn
          ∷ abandon_all restarted
          ∷ cancel_inbound
          ∷ kill_transport
          ∷ [])
        c in
    if c.disposed then (c, []) else all
