-- ===== src/Examples/Limits.antt =====
-- The limiter, the breaker, the ledger and the metrics on concrete inputs.
use smart_gatekeeper.Common.{ℕ, ◌<◌, ◌≡◌, ◌↔◌, refl, true, false, List, [], ◌∷◌, map, arith, nat_eq}
use smart_gatekeeper.Common.Dict.{lookup, has, set_item, remove}
use smart_gatekeeper.Runtime.RateLimiter.{Limiter, granted, denied, allow, retry_after}
use smart_gatekeeper.Runtime.RateLimiter.Bounds.{IsValid}
use smart_gatekeeper.Runtime.RateLimiter.Retry.{granted_after_retry}
use smart_gatekeeper.Runtime.RateLimiter.Window.{answers, ideal, limiter_refines_window}
use smart_gatekeeper.Runtime.Breaker
use smart_gatekeeper.Runtime.Breaker.{
  Breaker, closed, opened, ask, succeeded, failed, is_closed, permit, failure,
}
use smart_gatekeeper.Runtime.Breaker.Traces
use smart_gatekeeper.Runtime.Breaker.Traces.{
  Refused, failures_since, closed_iff_few_failures, one_probe,
}
use smart_gatekeeper.Runtime.Ledger
use smart_gatekeeper.Runtime.Ledger.{Ledger, Progress, owner, existing, reserve, complete}
use smart_gatekeeper.Runtime.Ledger.Ownership
use smart_gatekeeper.Runtime.Ledger.Ownership.{reserving, completing, one_owner}
use smart_gatekeeper.Runtime.Metrics.{latency_buckets, buckets_or}
use smart_gatekeeper.Runtime.Metrics.Histogram.{
  Request, within, times_of, served, buckets_are_cumulative,
}

-- One call of the caller 7 in a minute
abbrev used : Limiter ℕ
used = record { limit = 1; window = 60000000000; max_keys = 2; hits = (7, 1000 ∷ []) ∷ [] }

used-IsValid : IsValid used
unfolding has
used-IsValid = record {
  limited = omega arith;
  roomy = omega arith;
  distinct = (refl, tt);
  bounded = (omega arith, tt);
  few = omega arith;
}

-- Back after the 59 s that the denial names, the caller is denied again.
still_denied :
    ((allow 7 999501000 used).0 ≡ denied 59)
    × ((allow 7 59999501000 (allow 7 999501000 used).1).0 ≡ denied 1)
unfolding allow lookup retry_after set_item remove
still_denied = (refl, refl)

granted_after_retry_example : (allow 7 60000501000 (allow 7 999501000 used).1).0 ≡ granted
unfolding allow lookup
granted_after_retry_example =
    granted_after_retry 7 999501000 59 60000501000 used used-IsValid refl (omega arith)

abbrev calls : List (ℕ × ℕ)
calls = (7, 1000) ∷ (7, 2000) ∷ (8, 2500) ∷ (7, 61000) ∷ []

limiter_refines_window_example :
    answers calls (record { limit = 1; window = 60000; max_keys = 9; hits = [] })
    ≡ ideal 1 60000 calls []
limiter_refines_window_example =
    limiter_refines_window 1 60000 9 calls 0
      (omega arith, (omega arith, (omega arith, (omega arith, tt)))) (omega arith)

ideal_run : ideal 1 60000 calls [] ≡ true ∷ false ∷ true ∷ true ∷ []
ideal_run = refl

abbrev trace : List Breaker.Call
trace = failed 1 ∷ ask 2 ∷ succeeded ∷ failed 3 ∷ failed 4 ∷ []

closed_iff_few_failures_example :
    (is_closed (Breaker.run trace (Breaker.create 3 100)).phase ≡ true)
    ↔ (failures_since 0 trace < 3)
closed_iff_few_failures_example = closed_iff_few_failures 3 100 trace (omega arith)

abbrev young : Breaker
young = record { failure_threshold = 1; reset = 100; failures = 0; opened_at = 0; phase = closed }

one_probe_example :
    Refused (Traces.answers (6 ∷ 50 ∷ []) (failure 5 young))
    × ((permit 105 (Breaker.run (map ask (6 ∷ 50 ∷ [])) (failure 5 young))).0 ≡ true)
    × Refused (
        Traces.answers
          (106 ∷ 900 ∷ [])
          (permit 105 (Breaker.run (map ask (6 ∷ 50 ∷ [])) (failure 5 young))).1)
unfolding failure
one_probe_example =
    one_probe young 5 (6 ∷ 50 ∷ []) 105 (106 ∷ 900 ∷ []) (λ p. cc) refl
      (omega arith, (omega arith, tt)) (omega arith)

abbrev blank : Ledger ℕ ℕ
blank = record { ttl = 1000; max_entries = 3; entries = [] }

abbrev between : List (Ownership.Call ℕ ℕ)
between = reserving 5 20 ∷ completing 4 77 30 ∷ []

one_owner_example :
    (p : Progress ℕ) × ((reserve 4 900 (Ownership.run between (reserve 4 10 blank).1)).0
      ≡ existing p)
unfolding reserve Ledger.purge lookup
one_owner_example =
    one_owner 4 10 between 900 blank (omega arith) refl
      ((omega arith, omega arith), ((omega arith, omega arith), tt)) (omega arith)

abbrev full : Ledger ℕ ℕ
full = record { ttl = 1000; max_entries = 1; entries = (4, (10, Progress.reserved)) ∷ [] }

abbrev requests : List (Request ℕ)
requests =
    record { group = 1; status_class = 2; time = 70 }
    ∷ record { group = 1; status_class = 2; time = 3000 }
    ∷ []

buckets_are_cumulative_example :
    buckets_or (lookup 1 (served requests).latency) ≡ within (times_of 1 requests) latency_buckets
buckets_are_cumulative_example = buckets_are_cumulative 1 requests
