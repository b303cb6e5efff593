-- ===== src/Integrations/RateLimiter/Examples.antt =====
-- Instances of the theorems on the rate limiter.
use gitglasses.Integrations.RateLimiter.{
  new_host, parse_reset_value, acquire, RateLimitSignals, Limits, HostState, admitted,
}
use gitglasses.Integrations.RateLimiter.Rates.{run-admissions, Event, run, turns, updates}
use gitglasses.Base.{◌≤◌, ◌-◌, ◌+◌, ◌*◌, List, refl, [], ◌∷◌, false, none, some, ◌≡◌, arith}
use gitglasses.Integrations.RateLimiter.Waits.{acquire-ends, is_unfinished}

abbrev small : Limits
small = record {
  capacity = 1;
  refill_per_second = 2;
  low_remaining_percent = 15;
  max_wait_ms = 60000;
}

-- A response that reports a low quota.
abbrev low : RateLimitSignals
low = record {
  remaining = some 2;
  limit = some 100;
  reset_at = some 3000;
  retry_after_until = none;
}

abbrev requests : List Event
requests = turns 1000 ∷ updates 1001 low ∷ turns 1200 ∷ turns 1600 ∷ turns 2700 ∷ []

run-admissions_example :
    1000 * (run small requests (new_host small 1000)).1
    ≤ small.capacity * 1000 + (3000 - 1000) * small.refill_per_second
run-admissions_example = run-admissions small requests 1000 3000 (omega arith)

bursts_run : (run small requests (new_host small 1000)).1 ≡ 3
unfolding run new_host
bursts_run = refl

abbrev empty : HostState
empty = record {
  tokens = 0;
  last_refill = 1000;
  blocked_until = 2000;
  spacing_ms = 10;
  next_allowed_at = 2500;
}

acquire-ends_example : is_unfinished (acquire small (λ until. until + 5) 1000 empty) ≡ false
acquire-ends_example =
    acquire-ends small (λ until. until + 5) 1000 empty (omega arith) (omega arith)
      (λ until. omega arith)

acquire_run :
    acquire small (λ until. until + 5) 1000 empty
    ≡ admitted (record {
      tokens = 1000 - 1000;
      last_refill = 2505;
      blocked_until = 2000;
      spacing_ms = 10;
      next_allowed_at = 2515;
    })
unfolding acquire
acquire_run = refl

parse_reset_value_run : parse_reset_value 60 1700000000000 ≡ 1700000060000
unfolding parse_reset_value
parse_reset_value_run = refl
