-- ===== src/Runtime/Metrics.antt =====
-- `OperationalMetrics` of backend/app/ops_runtime.py. Durations are whole milliseconds; route groups,
-- status classes, components and outcomes are of any type with decided equality. The rendering as
-- Prometheus text is not modelled.
pub mod Histogram
use smart_gatekeeper.Common.{
  ℕ, zero, ◌+◌, List, [], ◌∷◌, ◌++◌, map, Eq, Option, none, some, if◌then◌else◌, leb, Bool, pair_eq,
}
use smart_gatekeeper.Common.Dict.{Dict, lookup, set_item}
use smart_gatekeeper.Runtime.Breaker.{Phase, is_open}

-- LATENCY_BUCKETS, in milliseconds
abbrev pub latency_buckets : List ℕ
latency_buckets = 50 ∷ 100 ∷ 250 ∷ 500 ∷ 1000 ∷ 2000 ∷ 5000 ∷ []

pub record Metrics (K : Type 0) : Type 0 where
  pub counters : Dict (K × K) ℕ
  pub latency : Dict K (List ℕ)

unfoldable pub empty : {K : Type 0} → Metrics K
empty = record { counters = []; latency = [] }

-- defaultdict(int) and defaultdict(lambda: [0 for _ in self.LATENCY_BUCKETS])
abbrev pub count_or : Option ℕ → ℕ
count_or none = 0
count_or (some n) = n

abbrev pub buckets_or : Option (List ℕ) → List ℕ
buckets_or none = map (λ _. 0) latency_buckets
buckets_or (some l) = l

-- for index, upper in enumerate(...): if seconds <= upper: buckets[index] += 1
unfoldable pub observe : ℕ → List ℕ → List ℕ → List ℕ
observe t [] counts = counts
observe t (u ∷ uppers) [] = []
observe t (u ∷ uppers) (n ∷ counts) = (if leb t u then n + 1 else n) ∷ observe t uppers counts

module _ {K : Type 0} ⦃e : Eq K⦄ where
  unfoldable pub event : K → K → Metrics K → Metrics K
  event component outcome m = record m {
    counters =
        set_item (component, outcome) (count_or (lookup (component, outcome) m.counters) + 1)
          m.counters;
  }

  unfoldable pub request : K → K → ℕ → Metrics K → Metrics K
  unfolding event
  request group status_class time m =
      let counted = event group status_class m in
      record counted {
        latency =
            set_item group (observe time latency_buckets (buckets_or (lookup group m.latency)))
              m.latency;
      }
