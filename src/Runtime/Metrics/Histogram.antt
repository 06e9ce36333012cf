-- ===== src/Runtime/Metrics/Histogram.antt =====
-- The latency histogram is cumulative, as Prometheus reads it, and counts every request once.
use smart_gatekeeper.Common.{
  ℕ, ◌≡◌, refl, List, [], ◌∷◌, map, Eq, if◌then◌else◌, leb, pair_eq, arith, keep, length,
  Bool-cases, inl, inr, ◌∙◌, ap,
}
use smart_gatekeeper.Common.Dict.{lookup, lookup-set_item}
use smart_gatekeeper.Runtime.Metrics.{Metrics, request, observe, latency_buckets, buckets_or, empty}

pub record Request (K : Type 0) : Type 0 where
  pub group : K
  pub status_class : K
  pub time : ℕ

-- The specification: of each bound, how many of the durations are within it.
abbrev pub within : List ℕ → List ℕ → List ℕ
within times uppers = map (λ u. length (keep (λ t. leb t u) times)) uppers

observe-within :
    (t : ℕ) (times uppers : List ℕ)
    → observe t uppers (within times uppers) ≡ within (t ∷ times) uppers
unfolding observe
observe-within t times [] = refl
observe-within t times (u ∷ uppers) = ground (arith, observe-within t times uppers)

module _ {K : Type 0} ⦃e : Eq K⦄ where
  -- The durations of the requests of a group, the last first.
  abbrev pub times_of : K → List (Request K) → List ℕ
  times_of g [] = []
  times_of g (r ∷ rs) = if e.beq r.group g then r.time ∷ times_of g rs else times_of g rs

  -- The registry after the requests, the last of the list first.
  unfoldable pub served : List (Request K) → Metrics K
  served [] = empty
  served (r ∷ rs) = request r.group r.status_class r.time (served rs)

  -- After any requests the buckets of a group hold, for each bound, the number of its requests that
  -- took no longer.
  pub buckets_are_cumulative :
      (g : K) (rs : List (Request K))
      → buckets_or (lookup g (served rs).latency) ≡ within (times_of g rs) latency_buckets
  unfolding served empty request lookup
  buckets_are_cumulative g [] = refl
  buckets_are_cumulative g (r ∷ rs) =
      let before = served rs in
      let next = observe r.time latency_buckets (buckets_or (lookup r.group before.latency)) in
      let law = lookup-set_item r.group g next before.latency in
      elim (Bool-cases (e.beq r.group g)) [
        | inl same ↦
            rw (law, same)
              (ap (observe r.time latency_buckets) (
                  ap (λ k. buckets_or (lookup k before.latency)) ((e.beq_iff r.group g).0 same)
                  ∙ buckets_are_cumulative g rs)
                ∙ observe-within r.time (times_of g rs) latency_buckets)
        | inr other ↦ rw (law, other) (buckets_are_cumulative g rs)
      ]
