-- ===== src/Examples/Refreshing.antt =====
-- The refresh worker on concrete inputs.
use smart_gatekeeper.Common.{
  ◌≡◌, ◌≢◌, ◌⊎◌, refl, true, false, none, some, [], ◌∷◌, arith, list_eq, nat_eq, pair_eq,
}
use smart_gatekeeper.Common.Text.{codes}
use smart_gatekeeper.Common.Dict.{lookup}
use smart_gatekeeper.Targets.AclRefresh.{
  Worker, target_boot, lease_refresh, Pass, pass, select, delay,
}
use smart_gatekeeper.Targets.AclRefresh.Fairness.{
  wakes_on_time, passes, pending_drains, next_deadline, request_served,
}

abbrev asleep : Worker
asleep = record {
  targets = [];
  refresh_interval = 600000;
  retry_interval = 30000;
  pending = [];
  next_due = (codes "T1", 5000) ∷ [];
  stopping = false;
  started = true;
}

wakes_on_time_example : (select 5000 (select 1000 asleep).1).0 ≢ none
unfolding select delay
wakes_on_time_example = wakes_on_time 1000 5000 asleep (λ p. cc) refl (omega arith)

abbrev asked : Worker
asked = record {
  targets = [];
  refresh_interval = 600000;
  retry_interval = 30000;
  pending = (codes "T2", target_boot) ∷ (codes "T1", lease_refresh) ∷ [];
  next_due = [];
  stopping = false;
  started = true;
}

abbrev failing : Pass
failing = record { now = 10; succeeded = false; ended = 20 }

pending_drains_example : (passes (failing ∷ failing ∷ []) asked).pending ≡ []
pending_drains_example = pending_drains (failing ∷ failing ∷ []) asked refl (omega arith)

request_served_example :
    (lookup (codes "T1") (pass failing asked).1.pending ≡ some lease_refresh)
    ⊎ (((pass failing asked).0 ≡ some (codes "T1", lease_refresh))
        × (lookup (codes "T1") (pass failing asked).1.next_due
            ≡ some (next_deadline failing asked)))
unfolding lookup
request_served_example = request_served failing (codes "T1") lease_refresh asked refl refl
