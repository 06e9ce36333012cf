-- ===== src/Runtime/Breaker.antt =====
-- `CircuitBreaker` of backend/app/ops_runtime.py. Times are whole milliseconds of the monotonic clock.
pub mod Traces
use smart_gatekeeper.Common.{
  ℕ, ◌+◌, Bool, true, false, ◌||◌, ◌&&◌, List, [], ◌∷◌, if◌then◌else◌, leb,
}

pub data Phase : Type 0 where
  closed opened half_open : Phase

pub record Breaker : Type 0 where
  pub failure_threshold : ℕ
  pub reset : ℕ
  pub failures : ℕ
  pub opened_at : ℕ
  pub phase : Phase

abbrev pub is_open : Phase → Bool
is_open opened = true
is_open _ = false

abbrev pub is_closed : Phase → Bool
is_closed closed = true
is_closed _ = false

abbrev pub is_half_open : Phase → Bool
is_half_open half_open = true
is_half_open _ = false

unfoldable pub create : ℕ → ℕ → Breaker
create failure_threshold reset = record {
  failure_threshold = failure_threshold;
  reset = reset;
  failures = 0;
  opened_at = 0;
  phase = closed;
}

unfoldable pub permit : ℕ → Breaker → Bool × Breaker
permit now b =
    if is_open b.phase && leb (b.opened_at + b.reset) now
    then (true, record b { phase = half_open })
    else (is_closed b.phase, b)

unfoldable pub success : Breaker → Breaker
success b = record b { failures = 0; phase = closed }

unfoldable pub failure : ℕ → Breaker → Breaker
failure now b =
    if leb b.failure_threshold (b.failures + 1) || is_half_open b.phase
    then record b { failures = b.failures + 1; opened_at = now; phase = opened }
    else record b { failures = b.failures + 1 }

-- The calls that clients make, in the order in which they get the lock.
pub data Call : Type 0 where
  ask : ℕ → Call
  succeeded : Call
  failed : ℕ → Call

unfoldable pub after : Call → Breaker → Breaker
unfolding permit success failure
after (ask now) b = (permit now b).1
after succeeded b = success b
after (failed now) b = failure now b

unfoldable pub run : List Call → Breaker → Breaker
run [] b = b
run (c ∷ calls) b = run calls (after c b)
