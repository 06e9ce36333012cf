-- ===== src/Runtime/Breaker/Traces.antt =====
-- What the breaker does over whole sequences of calls.
use smart_gatekeeper.Common.{
  ℕ, ◌+◌, ◌≤◌, ◌<◌, ◌≡◌, refl, Bool, true, false, List, [], ◌∷◌, arith, ◌↔◌, All, map, ◌≢◌,
}
use smart_gatekeeper.Runtime.Breaker.{
  Breaker, opened, half_open, Call, ask, succeeded, failed, permit, success, failure, after, run,
  create, is_closed,
}

-- The failures since the last success, counted from `n` on: the specification of `_failures`.
abbrev pub failures_since : ℕ → List Call → ℕ
failures_since n [] = n
failures_since n (ask now ∷ calls) = failures_since n calls
failures_since n (succeeded ∷ calls) = failures_since 0 calls
failures_since n (failed now ∷ calls) = failures_since (n + 1) calls

run-failures :
    (calls : List Call) (b : Breaker) → (run calls b).failures ≡ failures_since b.failures calls
unfolding run after
run-failures [] b = refl
run-failures (ask now ∷ calls) b = ground (arith, run-failures calls (permit now b).1)
run-failures (succeeded ∷ calls) b = run-failures calls (success b)
run-failures (failed now ∷ calls) b = ground (arith, run-failures calls (failure now b))

-- The circuit is closed exactly while the failures stay below the threshold.
abbrev IsConsistent : Breaker → Type 0
IsConsistent b = (is_closed b.phase ≡ true) ↔ (b.failures < b.failure_threshold)

after-threshold : (c : Call) (b : Breaker) → (after c b).failure_threshold ≡ b.failure_threshold
unfolding after
after-threshold (ask now) b = ground arith
after-threshold succeeded b = refl
after-threshold (failed now) b = ground arith

after-IsConsistent :
    (c : Call) (b : Breaker) → 0 < b.failure_threshold → IsConsistent b → IsConsistent (after c b)
unfolding after
after-IsConsistent (ask now) b p h = ground arith
after-IsConsistent succeeded b p h = ground arith
after-IsConsistent (failed now) b p h = ground arith

run-IsConsistent :
    (calls : List Call) (b : Breaker)
    → 0 < b.failure_threshold
    → IsConsistent b
    → IsConsistent (run calls b) × ((run calls b).failure_threshold ≡ b.failure_threshold)
unfolding run
run-IsConsistent [] b p h = (h, refl)
run-IsConsistent (c ∷ calls) b p h =
    grind
      (arith, run-IsConsistent calls (after c b), after-IsConsistent c b p h, after-threshold c b)

-- A new breaker with a positive threshold is closed after any calls exactly if fewer failures than
-- the threshold came since the last success.
pub closed_iff_few_failures :
    (threshold reset : ℕ) (calls : List Call)
    → 0 < threshold
    → (is_closed (run calls (create threshold reset)).phase ≡ true)
      ↔ (failures_since 0 calls < threshold)
unfolding create
closed_iff_few_failures threshold reset calls p = grind (
  arith,
  run-failures calls (create threshold reset),
  run-IsConsistent calls (create threshold reset) p,
)

-- The answers of a row of requests for permission, with no outcome reported between them.
abbrev pub answers : List ℕ → Breaker → List Bool
answers [] b = []
answers (now ∷ times) b = (permit now b).0 ∷ answers times (permit now b).1

abbrev pub Refused : List Bool → Type 0
Refused l = All (λ b. b ≡ false) l

half_open_step : (now : ℕ) (b : Breaker) → b.phase ≡ half_open → permit now b ≡ (false, b)
unfolding permit
half_open_step now b h = ground arith

half_open_refuses : (times : List ℕ) (b : Breaker) → b.phase ≡ half_open → Refused (answers times b)
half_open_refuses [] b h = tt
half_open_refuses (now ∷ times) b h =
    rw (half_open_step now b h) (refl, half_open_refuses times b h)

opened_step :
    (now : ℕ) (b : Breaker)
    → b.phase ≡ opened
    → now < b.opened_at + b.reset
    → permit now b ≡ (false, b)
unfolding permit
opened_step now b h l = ground arith

after_opened :
    (now : ℕ) (b : Breaker) → b.phase ≡ opened → now < b.opened_at + b.reset → after (ask now) b ≡ b
unfolding after
after_opened now b h l = ground arith

opened_refuses :
    (times : List ℕ) (b : Breaker)
    → b.phase ≡ opened
    → All (λ t. t < b.opened_at + b.reset) times
    → Refused (answers times b) × (run (map ask times) b ≡ b)
unfolding run
opened_refuses [] b h l = (tt, refl)
opened_refuses (now ∷ times) b h l =
    let rest = opened_refuses times b h l.1 in
    (rw (opened_step now b h l.0) (refl, rest.0), rw (after_opened now b h l.0, run) rest.1)

opened_probe :
    (now : ℕ) (b : Breaker)
    → b.phase ≡ opened
    → b.opened_at + b.reset ≤ now
    → ((permit now b).0 ≡ true) × ((permit now b).1.phase ≡ half_open)
unfolding permit
opened_probe now b h l = ground arith

failure_opens :
    (at : ℕ) (b : Breaker)
    → (failure at b).phase ≡ opened
    → (b.phase ≢ opened)
    → ((failure at b).opened_at ≡ at) × ((failure at b).reset ≡ b.reset)
unfolding failure
failure_opens at b h n = ground arith

-- After a failure that opens a circuit which was not open, every request is refused until the
-- reset time has passed; the first one after it is granted, and the requests that follow are
-- refused while no outcome is reported.
pub one_probe :
    (b : Breaker) (at : ℕ) (early : List ℕ) (now : ℕ) (later : List ℕ)
    → b.phase ≢ opened
    → (failure at b).phase ≡ opened
    → All (λ t. t < at + b.reset) early
    → at + b.reset ≤ now
    → Refused (answers early (failure at b))
      × ((permit now (run (map ask early) (failure at b))).0 ≡ true)
      × Refused (answers later (permit now (run (map ask early) (failure at b))).1)
one_probe b at early now later new o e n =
    let (t, r) = failure_opens at b o new in
    let quiet = opened_refuses early (failure at b) o (rw (t, r) e) in
    let probe = opened_probe now (failure at b) o (rw (t, r) n) in
    rw (quiet.1) (quiet.0, probe.0, half_open_refuses later (permit now (failure at b)).1 probe.1)
