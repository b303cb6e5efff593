-- ===== src/Rpc/Client/Settled/Steps.antt =====
-- packages/rpc/src/engineClient.ts: the parts of the operations that send, settle and reject.
use gitglasses.Rpc.Client.State.{remove, restarted, refused}
use gitglasses.Rpc.Client.Requests.{
  error, unparseable, answer, engine_request, cancels_inbound, notification,
}
use gitglasses.Base.{
  if◌then◌else◌, ◌+◌, ltb, Bool-cases, Bool, ◌==◌, Text, Option, List, ℕ, suc, refl, [], ◌∷◌, true,
  false, none, some, inl, inr, ◌++◌, ◌≡◌, arith,
}
use gitglasses.Rpc.Client.Requests.{
  rejections, notification, error, engine_request, cancellations, answer, send_cancel, enroll,
  send_on, Answer, settle, send_to, handle_message, answer_effects, Inbound, on_message,
  fail_all_pending, cancel_inbound, abandon_all,
}
use gitglasses.Rpc.Client.State.{find, update, rejected, Effect, Reason, Pending, Client}
use gitglasses.Rpc.Client.Lifecycle.{recent_crashes, kill_previous, spawn_engine, schedule_respawn}
use gitglasses.Rpc.Client.Settled.{
  settled-cancellations, count-remove, count-append, settled-send_cancel, settle_found-Conserves,
  count-update, settled-rejections, settled-cancel_inbound, settled-append, one_if, IsKeyed,
  Conserves, started, settles, count, settled,
}
use gitglasses.Base.Maps.{has_key}

pub if-Conserves :
    (b : Bool) (c : Client) (r s : Client × List Effect)
    → Conserves c r
    → Conserves c s
    → Conserves c (if b then r else s)
if-Conserves true c r s h k = h
if-Conserves false c r s h k = k

-- The counts of a list that a fresh entry is appended to, and of the list without it again.
enrolled_count :
    (id : ℕ) (c : Client) (p : Pending)
    → count id (c.pending ++ (c.next_id, p) ∷ []) ≡ count id c.pending + one_if (c.next_id == id)
unfolding count
enrolled_count id c p = omega (arith, count-append id c.pending ((c.next_id, p) ∷ []))

withdrawn_count :
    (id : ℕ) (c : Client) (p : Pending)
    → IsKeyed c
    → count id (remove c.next_id (c.pending ++ (c.next_id, p) ∷ [])) ≡ count id c.pending
unfolding started one_if
withdrawn_count id c p k = ground (
  arith,
  k id,
  enrolled_count id c p,
  count-remove id c.next_id (c.pending ++ (c.next_id, p) ∷ []),
)

started-suc : (id n : ℕ) → one_if (ltb id (suc n)) ≡ one_if (n == id) + one_if (ltb id n)
unfolding one_if
started-suc id n = ground arith

send_on-Conserves :
    (t now : ℕ) (method : Text) (b : Bool) (c : Client)
    → IsKeyed c
    → Conserves c (send_on t now method b c)
unfolding send_on enroll settled settles started
send_on-Conserves t now method true c k id =
    omega (arith, withdrawn_count id c _ k, started-suc id c.next_id)
send_on-Conserves t now method false c k id =
    omega (arith, enrolled_count id c _, started-suc id c.next_id)

unchanged-Conserves : (c : Client) (e : Reason) → Conserves c (c, refused e ∷ [])
unfolding settled settles
unchanged-Conserves c e id = omega arith

pub send_to-Conserves :
    (o : Option ℕ) (now : ℕ) (method : Text) (b : Bool) (c : Client)
    → IsKeyed c
    → Conserves c (send_to o now method b c)
unfolding send_to
send_to-Conserves none now method b c k = unchanged-Conserves c restarted
send_to-Conserves (some t) now method b c k =
    if-Conserves c.transport_alive c _ _ (send_on-Conserves t now method b c k)
      (unchanged-Conserves c restarted)

answer_effects-settled :
    (id j : ℕ) (a : Answer) → settled id (answer_effects j a) ≡ one_if (j == id)
unfolding answer_effects settled settles
answer_effects-settled id j Answer.result = omega arith
answer_effects-settled id j (error code message) = ground arith

cancel_effects-settled :
    (id j : ℕ) (r : Reason) (c : Client)
    → settled id (send_cancel j c ++ rejected j r ∷ []) ≡ one_if (j == id)
unfolding settled settles
cancel_effects-settled id j r c =
    omega
      (arith, settled-append id (send_cancel j c) (rejected j r ∷ []), settled-send_cancel id j c)

settle-Conserves :
    (j : ℕ) (es : List Effect) (c : Client)
    → IsKeyed c
    → ((id : ℕ) → settled id es ≡ one_if (j == id))
    → Conserves c (settle j es c)
unfolding settle
settle-Conserves j es c k h = settle_found-Conserves j es c (find j c.pending) refl k h

pub settle_with-Conserves :
    (j : ℕ) (r : Reason) (c : Client)
    → IsKeyed c
    → Conserves c (settle j (send_cancel j c ++ rejected j r ∷ []) c)
settle_with-Conserves j r c k = settle-Conserves j _ c k (λ id. cancel_effects-settled id j r c)

handle_message-Conserves : (m : Inbound) (c : Client) → IsKeyed c → Conserves c (handle_message m c)
unfolding handle_message settled settles
handle_message-Conserves unparseable c k id = omega arith
handle_message-Conserves (answer j a) c k id =
    settle-Conserves j (answer_effects j a) c k (λ i. answer_effects-settled i j a) id
handle_message-Conserves (engine_request key) c k id = omega arith
handle_message-Conserves (cancels_inbound key) c k id = elim (Bool-cases (has_key key c.inbound)) [
  | inl e ↦ rw e (omega arith)
  | inr e ↦ rw e (omega arith)
]
handle_message-Conserves (notification method) c k id = omega arith

pub on_message-Conserves :
    (generation : ℕ) (m : Inbound) (c : Client)
    → IsKeyed c
    → Conserves c (on_message generation m c)
unfolding on_message settled
on_message-Conserves generation m c k id = ground (arith, handle_message-Conserves m c k id)

pub update-Conserves :
    (j : ℕ) (f : Pending → Pending) (c : Client)
    → Conserves c (record c { pending = update j f c.pending }, [])
unfolding settled started
update-Conserves j f c id = omega (arith, count-update id j f c.pending)

pub fail_all_pending-Conserves : (r : Reason) (c : Client) → Conserves c (fail_all_pending r c)
unfolding fail_all_pending settled count started
fail_all_pending-Conserves r c id = omega (arith, settled-rejections id r c.pending)

pub abandon_all-Conserves : (r : Reason) (c : Client) → Conserves c (abandon_all r c)
unfolding abandon_all fail_all_pending settled count started
abandon_all-Conserves r c id = omega (
  arith,
  settled-append id (cancellations c c.pending) (rejections r c.pending),
  settled-rejections id r c.pending,
  settled-cancellations id c c.pending,
)

pub cancel_inbound-Conserves : (c : Client) → Conserves c (cancel_inbound c)
unfolding cancel_inbound started
cancel_inbound-Conserves c id = omega (arith, settled-cancel_inbound id c.inbound)

pub schedule_respawn-Conserves : (now : ℕ) (c : Client) → Conserves c (schedule_respawn now c)
unfolding schedule_respawn started settled settles recent_crashes
schedule_respawn-Conserves now c id = ground arith

pub kill_previous-settled : (id : ℕ) (o : Option ℕ) → settled id (kill_previous o) ≡ 0
unfolding kill_previous settled settles
kill_previous-settled id none = refl
kill_previous-settled id (some t) = refl

pub spawn_engine-Conserves : (c : Client) → Conserves c (spawn_engine c)
unfolding spawn_engine settled settles started
spawn_engine-Conserves c id = ground (arith, kill_previous-settled id c.transport)
