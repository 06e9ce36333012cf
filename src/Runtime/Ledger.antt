-- ===== src/Runtime/Ledger.antt =====
-- `IdempotencyLedger` of backend/app/ops_runtime.py. Times are whole milliseconds of the monotonic
-- clock; keys are any type with decided equality, and responses any type.
pub mod Bounds
pub mod Held
pub mod Ownership
use smart_gatekeeper.Common.{
  ℕ, zero, suc, ◌+◌, Bool, true, false, Option, none, some, List, [], ◌∷◌, Eq, if◌then◌else◌,
  length, leb, ltb,
}
use smart_gatekeeper.Common.Dict.{Dict, lookup, set_item, has, trim}

-- (created, state, response); the state "reserved" has no response
pub data Progress (R : Type 0) : Type 0 where
  reserved : Progress R
  completed : R → Progress R

abbrev pub Entry : Type 0 → Type 0
Entry R = ℕ × Progress R

pub record Ledger (K R : Type 0) : Type 0 where
  pub ttl : ℕ
  pub max_entries : ℕ
  pub entries : Dict K (Entry R)

-- LedgerResult
pub data Reply (R : Type 0) : Type 0 where
  owner : Reply R
  existing : Progress R → Reply R

module _ {K R : Type 0} where
  -- `while self._entries: ... self._entries.pop(first_key)`: the oldest entries that have expired
  unfoldable pub purge : ℕ → ℕ → Dict K (Entry R) → Dict K (Entry R)
  purge ttl now [] = []
  purge ttl now ((k, (created, p)) ∷ d) =
      let rest = purge ttl now d in if ltb now (created + ttl) then (k, (created, p)) ∷ d else rest

  unfoldable pub empty : ℕ → ℕ → Ledger K R
  empty ttl max_entries = record { ttl = ttl; max_entries = max_entries; entries = [] }

module _ {K R : Type 0} ⦃e : Eq K⦄ where
  -- by the result of `self._entries.get(key)` on the purged entries
  reply : K → ℕ → Ledger K R → Option (Entry R) → Reply R × Ledger K R
  reply key now s (some (created, p)) = (existing p, s)
  reply key now s none =
      (owner, record s { entries = trim s.max_entries (set_item key (now, reserved) s.entries) })

  unfoldable pub reserve : K → ℕ → Ledger K R → Reply R × Ledger K R
  unfolding reply
  reserve key now s =
      let purged = record s { entries = purge s.ttl now s.entries } in
      reply key now purged (lookup key purged.entries)

  done : K → R → ℕ → Ledger K R → Option (Entry R) → Option (Ledger K R)
  done key response now s none = none
  done key response now s (some (created, p)) = some (record s {
    entries = set_item key (if leb created now then created else now, completed response) s.entries;
  })

  -- `none` is the KeyError
  unfoldable pub complete : K → R → ℕ → Ledger K R → Option (Ledger K R)
  unfolding done
  complete key response now s = done key response now s (lookup key s.entries)
