-- ===== src/Integrations/RateLimiter.antt =====
-- packages/integrations/src/rateLimiter.ts and rateLimitHeaders.ts: the token bucket of one host. Tokens are
-- counted in thousandths, in which the refill of whole milliseconds is exact; the ratio of a low quota
-- is in percent. The callers of a host are admitted in the order of their arrival, so a call's turns are
-- those of the head of the queue. Aborts of the caller's signal, the reading of the header texts and the
-- sleep are outside: `wake` is the time at which a sleep that was to end at a time has ended.
pub mod Rates
pub mod Waits
mod Examples
use gitglasses.Base.{
  ◌||◌, ◌/◌, ceil_div, ◌-◌, max, ltb, leb, ◌+◌, ◌*◌, min, if◌then◌else◌, Option, ℕ, zero, suc, refl,
  [], ◌∷◌, true, false, none, some, inl, inr, ◌++◌, ◌≡◌, arith,
}

pub record Limits : Type 0 where
  pub capacity : ℕ
  pub refill_per_second : ℕ
  pub low_remaining_percent : ℕ
  pub max_wait_ms : ℕ

abbrev pub default_limits : Limits
default_limits = record {
  capacity = 20;
  refill_per_second = 10;
  low_remaining_percent = 15;
  max_wait_ms = 60000;
}

abbrev pub default_exhausted_backoff_ms : ℕ
default_exhausted_backoff_ms = 60000

pub record HostState : Type 0 where
  pub tokens : ℕ
  pub last_refill : ℕ
  pub blocked_until : ℕ
  pub spacing_ms : ℕ
  pub next_allowed_at : ℕ

pub new_host : Limits → ℕ → HostState
new_host l now = record {
  tokens = l.capacity * 1000;
  last_refill = now;
  blocked_until = 0;
  spacing_ms = 0;
  next_allowed_at = 0;
}

pub refill : Limits → ℕ → HostState → HostState
refill l now s = record s {
  tokens = min (l.capacity * 1000) (s.tokens + (now - s.last_refill) * l.refill_per_second);
  last_refill = now;
}

-- One turn of the loop of `acquire`: the caller is admitted, or holds until a time.
pub data Turn : Type 0 where
  admits : HostState → Turn
  holds : ℕ → HostState → Turn

take_token : Limits → ℕ → HostState → Turn
take_token l now s =
    if leb 1000 s.tokens
    then admits (record s {
      tokens = s.tokens - 1000;
      next_allowed_at = if ltb 0 s.spacing_ms then now + s.spacing_ms else s.next_allowed_at;
    })
    else holds (now + ceil_div (1000 - s.tokens) l.refill_per_second) s

pub take_turn : Limits → ℕ → HostState → Turn
unfolding refill take_token
take_turn l now s =
    if ltb now s.blocked_until
    then holds s.blocked_until s
    else if ltb now s.next_allowed_at
    then holds s.next_allowed_at s
    else take_token l now (refill l now s)

pub data Acquired : Type 0 where
  admitted : HostState → Acquired
  refused_until : ℕ → HostState → Acquired
  unfinished : Acquired

after_turn : (ℕ → HostState → Acquired) → (ℕ → ℕ) → ℕ → Turn → Acquired
after_turn again wake deadline (admits s) = admitted s
after_turn again wake deadline (holds until s) =
    let rest = again (wake until) s in if ltb deadline until then refused_until until s else rest

-- `acquire` from a time on, with so many turns at most.
pub acquire_by : Limits → (ℕ → ℕ) → ℕ → ℕ → ℕ → HostState → Acquired
unfolding after_turn take_turn
acquire_by l wake deadline zero now s = unfinished
acquire_by l wake deadline (suc turns) now s =
    after_turn (acquire_by l wake deadline turns) wake deadline (take_turn l now s)

-- Without header updates in between, four turns are enough.
pub acquire : Limits → (ℕ → ℕ) → ℕ → HostState → Acquired
unfolding acquire_by
acquire l wake now s = acquire_by l wake (now + l.max_wait_ms) 4 now s

-- `parseResetValue`, of a header that reads as a whole number.
pub parse_reset_value : ℕ → ℕ → ℕ
parse_reset_value seconds now =
    let absolute = if ltb 100000000000 seconds then seconds else seconds * 1000 in
    if ltb now absolute || ltb 86400 seconds then absolute else now + seconds * 1000

-- What a response's headers say.
pub record RateLimitSignals : Type 0 where
  pub remaining : Option ℕ
  pub limit : Option ℕ
  pub reset_at : Option ℕ
  pub retry_after_until : Option ℕ

or_else : Option ℕ → ℕ → ℕ
or_else none default = default
or_else (some n) default = n

retry : Option ℕ → HostState → HostState
retry none s = s
retry (some until) s = record s { blocked_until = max s.blocked_until until }

limit_of : Limits → Option ℕ → ℕ
limit_of l none = l.capacity
limit_of l (some limit) = if ltb 0 limit then limit else l.capacity

spread : Limits → ℕ → Option ℕ → RateLimitSignals → HostState → HostState
unfolding or_else limit_of
spread l now none signals s = s
spread l now (some zero) signals s = record s {
  blocked_until =
      max s.blocked_until (or_else signals.reset_at (now + default_exhausted_backoff_ms));
}
spread l now (some (suc remaining)) signals s = record s {
  spacing_ms =
      if ltb (suc remaining * 100) (l.low_remaining_percent * limit_of l signals.limit)
      then (or_else signals.reset_at (now + 60000) - now) / suc remaining
      else 0;
}

pub update_from_headers : Limits → ℕ → RateLimitSignals → HostState → HostState
unfolding retry spread
update_from_headers l now signals s =
    spread l now signals.remaining signals (retry signals.retry_after_until s)
