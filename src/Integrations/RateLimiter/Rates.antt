-- ===== src/Integrations/RateLimiter/Rates.antt =====
-- packages/integrations/src/rateLimiter.ts: how many requests a host is sent in a span of time.
use gitglasses.Integrations.RateLimiter.{
  spread, retry, new_host, Limits, HostState, update_from_headers, take_turn, take_token, refill,
  Turn, RateLimitSignals, admits, holds,
}
use native.Mathlib.Nat.{add-mul}
use gitglasses.Base.{
  Option, mul_mono, ◌∙◌, ap, ◌-◌, ◌*◌, ◌+◌, ◌≤◌, List, ℕ, zero, suc, refl, [], ◌∷◌, none, some, ◌≡◌,
  arith,
}

-- What happens to a host's bucket: a caller's turn, or the headers of a response, at a time.
pub data Event : Type 0 where
  turns : ℕ → Event
  updates : ℕ → RateLimitSignals → Event

after : Turn → HostState
after (admits s) = s
after (holds until s) = s

admissions : Turn → ℕ
admissions (admits s) = 1
admissions (holds until s) = 0

-- The state after the events, and how many callers they admit.
unfoldable pub run : Limits → List Event → HostState → HostState × ℕ
unfolding after admissions take_turn update_from_headers
run l [] s = (s, 0)
run l (turns now ∷ es) s =
    let turn = take_turn l now s in let (s', n) = run l es (after turn) in (s', admissions turn + n)
run l (updates now signals ∷ es) s = run l es (update_from_headers l now signals s)

-- The times of the turns do not go back before `from`, and end by `to`.
abbrev pub InOrder : ℕ → List Event → ℕ → Type 0
InOrder from [] to = from ≤ to
InOrder from (turns now ∷ es) to = (from ≤ now) × InOrder now es to
InOrder from (updates now signals ∷ es) to = InOrder from es to

take_token-credit :
    (l : Limits) (now : ℕ) (s : HostState)
    → let turn = take_token l now s in
      ((after turn).tokens + 1000 * admissions turn ≡ s.tokens)
      × ((after turn).last_refill ≡ s.last_refill)
unfolding take_token after admissions
take_token-credit l now s = ground arith

refill-credit :
    (l : Limits) (now : ℕ) (s : HostState)
    → s.last_refill ≤ now
    → (refill l now s).tokens + s.last_refill * l.refill_per_second
      ≤ s.tokens + now * l.refill_per_second
unfolding refill
refill-credit l now s h =
    let gap : now ≡ (now - s.last_refill) + s.last_refill = omega arith in
    let split =
      ap (λ (t : ℕ). t * l.refill_per_second) gap
      ∙ add-mul (now - s.last_refill) s.last_refill l.refill_per_second in
    omega (arith, split)

-- A turn pays for an admission with tokens that were there or that the time since the last refill
-- brought.
take_turn-credit :
    (l : Limits) (now : ℕ) (s : HostState)
    → s.last_refill ≤ now
    → let turn = take_turn l now s in
      ((after turn).tokens + 1000 * admissions turn + s.last_refill * l.refill_per_second
        ≤ s.tokens + (after turn).last_refill * l.refill_per_second)
      × ((after turn).last_refill ≤ now)
unfolding take_turn after admissions
take_turn-credit l now s h =
    let (a, b) = take_token-credit l now (refill l now s) in
    ground (arith, refill-credit l now s h, a, b)

retry-credit :
    (o : Option ℕ) (s : HostState)
    → ((retry o s).tokens ≡ s.tokens) × ((retry o s).last_refill ≡ s.last_refill)
unfolding retry
retry-credit none s = (refl, refl)
retry-credit (some until) s = (refl, refl)

spread-credit :
    (l : Limits) (now : ℕ) (o : Option ℕ) (signals : RateLimitSignals) (s : HostState)
    → ((spread l now o signals s).tokens ≡ s.tokens)
      × ((spread l now o signals s).last_refill ≡ s.last_refill)
unfolding spread
spread-credit l now none signals s = (refl, refl)
spread-credit l now (some zero) signals s = (refl, refl)
spread-credit l now (some (suc n)) signals s = (refl, refl)

-- Headers neither give nor take tokens.
update-credit :
    (l : Limits) (now : ℕ) (signals : RateLimitSignals) (s : HostState)
    → let u = update_from_headers l now signals s in
      (u.tokens ≡ s.tokens) × (u.last_refill ≡ s.last_refill)
unfolding update_from_headers
update-credit l now signals s =
    let (a, b) = retry-credit signals.retry_after_until s in
    let (c, d) =
      spread-credit l now signals.remaining signals (retry signals.retry_after_until s) in
    (c ∙ a, d ∙ b)

run-credit :
    (l : Limits) (es : List Event) (from to : ℕ) (s : HostState)
    → InOrder from es to
    → s.last_refill ≤ from
    → 1000 * (run l es s).1 + s.last_refill * l.refill_per_second
      ≤ s.tokens + to * l.refill_per_second
unfolding run
run-credit l [] from to s h k =
    omega (arith, mul_mono s.last_refill to l.refill_per_second (omega arith))
run-credit l (turns now ∷ es) from to s h k =
    let (a, b) = take_turn-credit l now s (omega arith) in
    omega (arith, a, run-credit l es now to (after (take_turn l now s)) h.1 b)
run-credit l (updates now signals ∷ es) from to s h k =
    let (a, b) = update-credit l now signals s in
    omega (
      arith,
      a,
      ap (λ (t : ℕ). t * l.refill_per_second) b,
      run-credit l es from to (update_from_headers l now signals s) h (omega (arith, b)),
    )

InOrder-le : (es : List Event) (from to : ℕ) → InOrder from es to → from ≤ to
InOrder-le [] from to h = h
InOrder-le (turns now ∷ es) from to h = omega (arith, InOrder-le es now to h.1)
InOrder-le (updates now signals ∷ es) from to h = InOrder-le es from to h

-- From its first use to a time, whatever the callers' turns and the responses' headers in between, a
-- host is sent at most the capacity and the refill of the span between: the admissions, times a
-- thousand, are no more than the capacity, times a thousand, and the span in milliseconds times the
-- refill in a second.
pub run-admissions :
    (l : Limits) (es : List Event) (from to : ℕ)
    → InOrder from es to
    → 1000 * (run l es (new_host l from)).1 ≤ l.capacity * 1000 + (to - from) * l.refill_per_second
unfolding new_host
run-admissions l es from to h =
    let order = InOrder-le es from to h in
    let gap : to ≡ (to - from) + from = omega arith in
    let split =
      ap (λ (t : ℕ). t * l.refill_per_second) gap ∙ add-mul (to - from) from l.refill_per_second in
    omega (arith, split, run-credit l es from to (new_host l from) h (omega arith))
