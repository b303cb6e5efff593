-- ===== src/Integrations/RateLimiter/Waits.antt =====
-- packages/integrations/src/rateLimiter.ts: a wait for a token ends.
use gitglasses.Integrations.RateLimiter.{
  unfinished, refused_until, admitted, after_turn, acquire_by, acquire, Acquired, Limits, refill,
  take_token, take_turn, HostState, holds,
}
use gitglasses.Base.{
  mul_mono, leb→le, ◌-◌, le→leb, leb, Bool, ◌+◌, le→ltb, ltb→le, ltb→lt, lt-ceil_div, ltb,
  Bool-cases, ◌*◌, ceil_div, ◌≤◌, ℕ, suc, refl, true, false, inl, inr, ◌≡◌, arith,
}

le-ceil_div : (a b : ℕ) → 1 ≤ b → a ≤ ceil_div a b * b
le-ceil_div a b h = elim (Bool-cases (ltb (ceil_div a b * b) a)) [
  | inl e ↦ absurd (omega (arith, lt-ceil_div a (ceil_div a b) b h (ltb→lt (ceil_div a b * b) a e)))
  | inr e ↦ ltb→le (ceil_div a b * b) a e
]

pub is_unfinished : Acquired → Bool
is_unfinished unfinished = true
is_unfinished (admitted s) = false
is_unfinished (refused_until until s) = false

-- A caller that holds is refused, or ends as it does after the sleep.
after_turn-holds :
    (again : ℕ → HostState → Acquired) (wake : ℕ → ℕ) (deadline until : ℕ) (s : HostState)
    → is_unfinished (again (wake until) s) ≡ false
    → is_unfinished (after_turn again wake deadline (holds until s)) ≡ false
unfolding after_turn is_unfinished
after_turn-holds again wake deadline until s h = elim (Bool-cases (ltb deadline until)) [
  | inl e ↦ rw e refl
  | inr e ↦ rw e h
]

-- The bucket after the sleep that the missing tokens asked for.
refilled :
    (l : Limits) (now later : ℕ) (s : HostState)
    → 1 ≤ l.capacity
    → 1 ≤ l.refill_per_second
    → s.last_refill ≡ now
    → now + ceil_div (1000 - s.tokens) l.refill_per_second ≤ later
    → 1000 ≤ (refill l later s).tokens
unfolding refill
refilled l now later s c r e h =
    let missing = le-ceil_div (1000 - s.tokens) l.refill_per_second r in
    let waited =
      mul_mono (ceil_div (1000 - s.tokens) l.refill_per_second) (later - s.last_refill)
        l.refill_per_second (omega (arith, h, e)) in
    omega (arith, missing, waited)

module _ (l : Limits) (wake : ℕ → ℕ) (deadline : ℕ) (capacity : 1 ≤ l.capacity)
    (rate : 1 ≤ l.refill_per_second) (woken : (until : ℕ) → until ≤ wake until) where
  take_token-full :
      (turns now : ℕ) (s : HostState)
      → 1000 ≤ s.tokens
      → is_unfinished
          (after_turn (acquire_by l wake deadline turns) wake deadline (take_token l now s))
        ≡ false
  unfolding take_token after_turn is_unfinished
  take_token-full turns now s h = let e = le→leb 1000 s.tokens h in rw e refl

  open_turn :
      (now : ℕ) (s : HostState)
      → s.blocked_until ≤ now
      → s.next_allowed_at ≤ now
      → take_turn l now s ≡ take_token l now (refill l now s)
  unfolding take_turn
  open_turn now s b a = rw (le→ltb now s.blocked_until b, le→ltb now s.next_allowed_at a) refl

  -- With enough tokens, one turn is enough.
  full-ends :
      (turns now : ℕ) (s : HostState)
      → s.blocked_until ≤ now
      → s.next_allowed_at ≤ now
      → 1000 ≤ (refill l now s).tokens
      → is_unfinished (acquire_by l wake deadline (suc turns) now s) ≡ false
  unfolding acquire_by
  full-ends turns now s b a h =
      rw (open_turn now s b a) (take_token-full turns now (refill l now s) h)

  take_token-ends :
      (turns now : ℕ) (s : HostState)
      → s.last_refill ≡ now
      → s.blocked_until ≤ now
      → s.next_allowed_at ≤ now
      → is_unfinished
          (after_turn (acquire_by l wake deadline (suc turns)) wake deadline (take_token l now s))
        ≡ false
  unfolding take_token
  take_token-ends turns now s e b a = elim (Bool-cases (leb 1000 s.tokens)) [
    | inl f ↦ take_token-full (suc turns) now s (leb→le 1000 s.tokens f)
    | inr f ↦
        let until = now + ceil_div (1000 - s.tokens) l.refill_per_second in
        let up = woken until in
        rw f (
          after_turn-holds (acquire_by l wake deadline (suc turns)) wake deadline until s (
            full-ends turns (wake until) s (omega arith) (omega arith)
              (refilled l now (wake until) s capacity rate e up)))
  ]

  open-ends :
      (turns now : ℕ) (s : HostState)
      → s.blocked_until ≤ now
      → s.next_allowed_at ≤ now
      → is_unfinished (acquire_by l wake deadline (suc (suc turns)) now s) ≡ false
  unfolding acquire_by refill
  open-ends turns now s b a =
      rw (open_turn now s b a) (take_token-ends turns now (refill l now s) refl b a)

  unblocked-ends :
      (turns now : ℕ) (s : HostState)
      → s.blocked_until ≤ now
      → is_unfinished (acquire_by l wake deadline (suc (suc (suc turns))) now s) ≡ false
  unfolding acquire_by take_turn
  unblocked-ends turns now s b = elim (Bool-cases (ltb now s.next_allowed_at)) [
    | inl f ↦
        rw (le→ltb now s.blocked_until b, f)
          (after_turn-holds (acquire_by l wake deadline (suc (suc turns))) wake deadline
            s.next_allowed_at s
            (open-ends turns (wake s.next_allowed_at) s
              (omega (arith, woken s.next_allowed_at, ltb→lt now s.next_allowed_at f))
              (woken s.next_allowed_at)))
    | inr f ↦ open-ends (suc turns) now s b (ltb→le now s.next_allowed_at f)
  ]

  acquire_by-ends :
      (turns now : ℕ) (s : HostState)
      → is_unfinished (acquire_by l wake deadline (suc (suc (suc (suc turns)))) now s) ≡ false
  unfolding acquire_by take_turn
  acquire_by-ends turns now s = elim (Bool-cases (ltb now s.blocked_until)) [
    | inl f ↦ rw f (
        after_turn-holds (acquire_by l wake deadline (suc (suc (suc turns)))) wake deadline
          s.blocked_until s (unblocked-ends turns (wake s.blocked_until) s (woken s.blocked_until)))
    | inr f ↦ unblocked-ends (suc turns) now s (ltb→le now s.blocked_until f)
  ]

-- With a capacity and a refill of at least one, and sleeps that do not end early, a caller at the head
-- of the queue is admitted or refused after at most three sleeps, if no headers come in meanwhile:
-- it never waits for ever.
pub acquire-ends :
    (l : Limits) (wake : ℕ → ℕ) (now : ℕ) (s : HostState)
    → 1 ≤ l.capacity
    → 1 ≤ l.refill_per_second
    → ((until : ℕ) → until ≤ wake until)
    → is_unfinished (acquire l wake now s) ≡ false
unfolding acquire
acquire-ends l wake now s c r w = acquire_by-ends l wake (now + l.max_wait_ms) c r w 0 now s
