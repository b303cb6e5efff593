-- ===== src/Rpc/Client/Settled.antt =====
-- Every request is settled exactly once, or is still pending.
pub mod Steps
pub mod Runs
use gitglasses.Base.{
  Option, Option-cases, map, ◌≤◌, ◌==◌, ◌+◌, ltb, if◌then◌else◌, Text, List, Bool, ℕ, zero, suc,
  refl, [], ◌∷◌, true, false, none, some, inl, inr, ◌++◌, ◌≡◌, arith,
}
use gitglasses.Rpc.Client.Requests.{
  settle_found, if_alive, settle, send_cancel, rejections, on_transport, cancellations,
}
use gitglasses.Rpc.Client.State.{
  ◌⨾◌, inbound_cancelled, rejected, Reason, Pending, update, resolved, remove, find, Effect, Client,
  Act,
}

one_if : Bool → ℕ
one_if true = 1
one_if false = 0

-- How often request `id` is pending, how often the effects settle it, and whether it has been started.
pub count {ℓ} : {A : Type ℓ} → ℕ → List (ℕ × A) → ℕ
unfolding one_if
count id [] = 0
count id ((k, v) ∷ m) = one_if (k == id) + count id m

settles : ℕ → Effect → ℕ
unfolding one_if
settles id (resolved k) = one_if (k == id)
settles id (rejected k r) = one_if (k == id)
settles id _ = 0

pub settled : ℕ → List Effect → ℕ
unfolding settles
settled id [] = 0
settled id (e ∷ es) = settles id e + settled id es

pub started : ℕ → ℕ → ℕ
unfolding one_if
started id next_id = one_if (ltb id next_id)

abbrev pub IsKeyed : Client → Type 0
IsKeyed c = (id : ℕ) → count id c.pending ≤ started id c.next_id

abbrev Conserves : Client → Client × List Effect → Type 0
Conserves c r =
    (id : ℕ)
    → settled id r.1 + count id r.0.pending + started id c.next_id
      ≡ count id c.pending + started id r.0.next_id

settled-append :
    (id : ℕ) (es fs : List Effect) → settled id (es ++ fs) ≡ settled id es + settled id fs
unfolding settled
settled-append id [] fs = omega arith
settled-append id (e ∷ es) fs = omega (arith, settled-append id es fs)

module _ {A : Type 0} (id : ℕ) where
  count-append : (m n : List (ℕ × A)) → count id (m ++ n) ≡ count id m + count id n
  unfolding count
  count-append [] n = omega arith
  count-append ((k, v) ∷ m) n = omega (arith, count-append m n)

  count-remove :
      (j : ℕ) (m : List (ℕ × A)) → count id (remove j m) ≡ (if j == id then 0 else count id m)
  unfolding count
  count-remove j [] = ground arith
  count-remove j ((k, v) ∷ m) = ground (arith, count-remove j m)

  count-update : (j : ℕ) (f : A → A) (m : List (ℕ × A)) → count id (update j f m) ≡ count id m
  unfolding count
  count-update j f [] = refl
  count-update j f ((k, v) ∷ m) = omega (arith, count-update j f m)

  count_found : (m : List (ℕ × A)) (v : A) → find id m ≡ some v → 1 ≤ count id m
  unfolding count
  count_found [] v h = cc
  count_found ((k, w) ∷ m) v h = ground (arith, count_found m v)

IsKeyed-after : (c : Client) (r : Client × List Effect) → IsKeyed c → Conserves c r → IsKeyed r.0
IsKeyed-after c r k h = λ id. omega (arith, k id, h id)

-- One operation after another.
Conserves-then :
    (m n : Act) (c : Client)
    → Conserves c (m c)
    → Conserves (m c).0 (n (m c).0)
    → Conserves c ((m ⨾ n) c)
Conserves-then m n c h k = λ id. omega (arith, h id, k id, settled-append id (m c).1 (n (m c).0).1)

settled-if_alive :
    (id : ℕ) (o : Option ℕ) (b : Bool) (e : ℕ → Effect)
    → ((t : ℕ) → settles id (e t) ≡ 0)
    → settled id (if_alive o b e) ≡ 0
unfolding settled
settled-if_alive id none b e h = refl
settled-if_alive id (some t) b e h = ground (arith, h t)

settled-send_cancel : (id j : ℕ) (c : Client) → settled id (send_cancel j c) ≡ 0
unfolding send_cancel settles on_transport
settled-send_cancel id j c = settled-if_alive id c.transport c.transport_alive _ (λ t. refl)

settle_found-Conserves :
    (j : ℕ) (es : List Effect) (c : Client) (o : Option Pending)
    → find j c.pending ≡ o
    → IsKeyed c
    → ((id : ℕ) → settled id es ≡ one_if (j == id))
    → Conserves c (settle_found o j es c)
unfolding settled one_if started
settle_found-Conserves j es c none e k h id = omega arith
settle_found-Conserves j es c (some p) e k h id =
    ground (arith, h id, k id, count-remove id j c.pending, count_found j c.pending p e)

settled-rejections :
    (id : ℕ) (r : Reason) (m : List (ℕ × Pending)) → settled id (rejections r m) ≡ count id m
unfolding settled rejections count settles
settled-rejections id r [] = refl
settled-rejections id r ((k, p) ∷ m) = omega (arith, settled-rejections id r m)

settled-cancellations :
    (id : ℕ) (c : Client) (m : List (ℕ × Pending)) → settled id (cancellations c m) ≡ 0
unfolding cancellations settled
settled-cancellations id c [] = refl
settled-cancellations id c ((k, p) ∷ m) = omega (
  arith,
  settled-append id (send_cancel k c) (cancellations c m),
  settled-send_cancel id k c,
  settled-cancellations id c m,
)

settled-cancel_inbound :
    (id : ℕ) (inbound : List (Text × ℕ)) → settled id (map (λ p. inbound_cancelled p.0) inbound) ≡ 0
unfolding settled settles
settled-cancel_inbound id [] = refl
settled-cancel_inbound id (k ∷ ks) = omega (arith, settled-cancel_inbound id ks)
