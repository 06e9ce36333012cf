-- ===== src/Targets/AclRefresh.antt =====
-- backend/app/acl_refresh.py: the worker that keeps the ACL lease of every Target fresh. Times are
-- whole milliseconds of the monotonic clock, so the intervals are rounded down to milliseconds; the
-- refresh itself is a parameter of each pass. Target ids are texts, ordered as Python orders them.
pub mod Fairness
use smart_gatekeeper.Common.{
  ℕ, zero, suc, ◌+◌, ◌-◌, ◌*◌, ◌/◌, min, max, Bool, true, false, ◌&&◌, ◌||◌, not, Option, none,
  some, List, [], ◌∷◌, map, if◌then◌else◌, ltb, leb, ◌==◌, list_eq, nat_eq, length,
}
use smart_gatekeeper.Common.Dict.{Dict, lookup, set_item, has, remove, keys}
use smart_gatekeeper.Common.Text.{Text}

pub data Reason : Type 0 where
  target_boot lease_refresh : Reason

pub record Scope : Type 0 where
  pub tenant_id : Text
  pub door_id : Text

pub record Worker : Type 0 where
  pub targets : Dict Text Scope
  pub refresh_interval : ℕ
  pub retry_interval : ℕ
  pub pending : Dict Text Reason
  pub next_due : Dict Text ℕ
  pub stopping : Bool
  pub started : Bool

abbrev pub is_empty {ℓ} : {A : Type ℓ} → List A → Bool
is_empty [] = true
is_empty (x ∷ xs) = false

-- max(0.1, min(300.0, lease_seconds / 3.0)) and so on, in milliseconds
unfoldable pub refresh_interval_of : ℕ → ℕ
refresh_interval_of lease_seconds =
    max 100 (lease_seconds * 1000 - max 100 (min 300000 (lease_seconds * 1000 / 3)))

unfoldable pub retry_interval_of : ℕ → ℕ
retry_interval_of interval = max 100 (min 30000 (interval / 4))

any_empty : List Text → Bool
any_empty [] = false
any_empty (id ∷ ids) = is_empty id || any_empty ids

abbrev pub all_due : ℕ → List Text → Dict Text ℕ
all_due now [] = []
all_due now (id ∷ ids) = (id, now) ∷ all_due now ids

-- `__init__`; `none` is its ValueError
unfoldable pub create : Dict Text Scope → ℕ → ℕ → Option Worker
unfolding any_empty refresh_interval_of retry_interval_of
create targets lease_seconds now =
    if not (leb 1 lease_seconds && leb lease_seconds 3600) || is_empty targets
    then none
    else if any_empty (keys targets)
    then none
    else some (record {
      targets = targets;
      refresh_interval = refresh_interval_of lease_seconds;
      retry_interval = retry_interval_of (refresh_interval_of lease_seconds);
      pending = [];
      next_due = all_due now (keys targets);
      stopping = false;
      started = false;
    })

unfoldable pub start : Worker → Worker
start w = record w { started = true }

-- `reason` is `none` for a text that is neither reason.
unfoldable pub request : Text → Option Reason → Worker → Bool × Worker
request target_id none w = (false, w)
request target_id (some reason) w =
    if w.stopping || not (has target_id w.targets)
    then (false, w)
    else (true, record w { pending = set_item target_id reason w.pending })

unfoldable pub stop : Worker → Worker
stop w = record w { stopping = true }

-- a < b on texts
unfoldable pub text_lt : Text → Text → Bool
text_lt s [] = false
text_lt [] (c ∷ t) = true
text_lt (b ∷ s) (c ∷ t) = ltb b c || b == c && text_lt s t

-- sorted(ids)[0]
unfoldable pub least : Text → List Text → Text
unfolding text_lt
least id [] = id
least id (j ∷ ids) = least (if text_lt j id then j else id) ids

abbrev pub due : ℕ → Dict Text ℕ → List Text
due now [] = []
due now ((id, deadline) ∷ d) = let rest = due now d in if leb deadline now then id ∷ rest else rest

abbrev pub reason_or : Option Reason → Reason
reason_or none = lease_refresh
reason_or (some reason) = reason

abbrev pick_due : List Text → Option (Text × Reason)
pick_due [] = none
pick_due (id ∷ ids) = some (least id ids, lease_refresh)

pick : Dict Text Reason → ℕ → Worker → Option (Text × Reason) × Worker
pick [] now w = (pick_due (due now w.next_due), w)
pick ((id, reason) ∷ d) now w =
    let first = least id (keys d) in
    (
      some (first, reason_or (lookup first ((id, reason) ∷ d))),
      record w { pending = remove first w.pending },
    )

-- `_select_locked`
unfoldable pub select : ℕ → Worker → Option (Text × Reason) × Worker
unfolding pick least
select now w = pick w.pending now w

-- The outcome of a pass: whether the refresh returned true, and the clock after it.
pub record Pass : Type 0 where
  pub now : ℕ
  pub succeeded : Bool
  pub ended : ℕ

reschedule : Pass → Option (Text × Reason) → Worker → Worker
reschedule p none w = w
reschedule p (some (id, reason)) w = record w {
  next_due =
      set_item id (p.ended + (if p.succeeded then w.refresh_interval else w.retry_interval))
        w.next_due;
}

-- One turn of `_run` from the selection on; it changes nothing when nothing is selected (the thread
-- sleeps then) and when the worker is stopping (the thread ends).
unfoldable pub pass : Pass → Worker → Option (Text × Reason) × Worker
unfolding reschedule select
pass p w =
    if w.stopping
    then (none, w)
    else (let (chosen, t) = select p.now w in (chosen, reschedule p chosen t))

-- How long the thread sleeps when nothing is selected: max(0.0, min(self._next_due.values()) - now)
soonest : ℕ → Dict Text ℕ → ℕ
soonest t [] = t
soonest t ((id, u) ∷ d) = soonest (min t u) d

unfoldable pub delay : ℕ → Dict Text ℕ → ℕ
unfolding soonest
delay now [] = 0
delay now ((id, t) ∷ d) = soonest t d - now
