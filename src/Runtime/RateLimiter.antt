-- ===== src/Runtime/RateLimiter.antt =====
-- `SlidingWindowRateLimiter` of backend/app/ops_runtime.py. Times are whole nanoseconds of the
-- monotonic clock, without the rounding of floating-point sums, `retry` is in whole seconds, and a caller key is any type with decided equality.
pub mod Bounds
pub mod Retry
pub mod Window
use smart_gatekeeper.Common.{
  ℕ, ◌+◌, ◌-◌, ◌/◌, max, Bool, Option, none, some, List, [], ◌∷◌, ◌++◌, Eq, if◌then◌else◌, length,
  keep, ltb, leb, ◌||◌, ◌==◌,
}
use smart_gatekeeper.Common.Dict.{Dict, lookup, remove, set_item, trim}

pub record Limiter (K : Type 0) : Type 0 where
  pub limit : ℕ
  pub window : ℕ
  pub max_keys : ℕ
  pub hits : Dict K (List ℕ)

pub data Decision : Type 0 where
  granted : Decision
  denied : ℕ → Decision
  index_error : Decision

-- `__init__`; `none` is its ValueError
unfoldable pub create : {K : Type 0} → ℕ → ℕ → ℕ → Option (Limiter K)
create limit window max_keys =
    if limit == 0 || window == 0 || max_keys == 0
    then none
    else some (record { limit = limit; window = window; max_keys = max_keys; hits = [] })

-- [hit for hit in hits if hit > now - window]
abbrev pub live : ℕ → ℕ → List ℕ → List ℕ
live now window hits = keep (λ hit. ltb now (hit + window)) hits

-- `d.pop(key, [])`, the value
abbrev pub or_empty : Option (List ℕ) → List ℕ
or_empty none = []
or_empty (some l) = l

-- max(1, int(hits[0] + window - now + 0.999)): a rest of less than a millisecond is cut off. The hits
-- are live, so the difference is positive.
unfoldable pub retry_after : ℕ → ℕ → List ℕ → Decision
retry_after now window [] = index_error
retry_after now window (h ∷ hits) = denied (max 1 ((h + window - now + 999000000) / 1000000000))

module _ {K : Type 0} ⦃e : Eq K⦄ where
  unfoldable pub hits_of : K → Limiter K → List ℕ
  hits_of key s = or_empty (lookup key s.hits)

  unfoldable pub allow : K → ℕ → Limiter K → Decision × Limiter K
  unfolding hits_of retry_after
  allow key now s =
      let hits = live now s.window (hits_of key s) in
      let popped = remove key s.hits in
      if leb s.limit (length hits)
      then (retry_after now s.window hits, record s { hits = set_item key hits popped })
      else (granted, record s { hits = trim s.max_keys (set_item key (hits ++ now ∷ []) popped) })
