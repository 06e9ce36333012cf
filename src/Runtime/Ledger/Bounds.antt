-- ===== src/Runtime/Ledger/Bounds.antt =====
-- The ledger never holds more entries than it may.
use smart_gatekeeper.Common.{
  ℕ, ◌≤◌, ◌≡◌, refl, Option, none, some, [], ◌∷◌, Eq, if◌then◌else◌, length, arith, leb,
}
use smart_gatekeeper.Common.Dict.{Dict, lookup, set_item, length-trim, length-set_item_old}
use smart_gatekeeper.Runtime.Ledger.{
  Ledger, Entry, Progress, completed, purge, reserve, reply, complete, done,
}

length-purge :
    {K R : Type 0} (ttl now : ℕ) (d : Dict K (Entry R)) → length (purge ttl now d) ≤ length d
unfolding purge
length-purge ttl now [] = omega arith
length-purge ttl now ((k, (created, p)) ∷ d) = ground (arith, length-purge ttl now d)

module _ {K R : Type 0} ⦃e : Eq K⦄ where
  reply-bounded :
      (key : K) (now : ℕ) (s : Ledger K R) (o : Option (Entry R))
      → length s.entries ≤ s.max_entries
      → length (reply key now s o).1.entries ≤ (reply key now s o).1.max_entries
  unfolding reply
  reply-bounded key now s none h =
      length-trim s.max_entries (set_item key (now, Progress.reserved) s.entries)
  reply-bounded key now s (some (created, p)) h = h

  done-bounded :
      (key : K) (response : R) (now : ℕ) (s t : Ledger K R) (o : Option (Entry R))
      → lookup key s.entries ≡ o
      → done key response now s o ≡ some t
      → length t.entries ≡ length s.entries
  unfolding done
  done-bounded key response now s t none found h = cc
  done-bounded key response now s t (some (created, p)) found h =
      let at' = if leb created now then created else now in
      let same = length-set_item_old key (at', completed response) (created, p) s.entries found in
      ground arith

  -- A ledger within its bound of entries is within it after `reserve`, whatever the key and the time,
  -- and `complete`, where it returns, changes neither the number of entries nor the bound.
  pub ledger_stays_bounded :
      (key : K) (response : R) (now : ℕ) (s : Ledger K R)
      → length s.entries ≤ s.max_entries
      → (length (reserve key now s).1.entries ≤ (reserve key now s).1.max_entries)
        × ((t : Ledger K R)
            → complete key response now s ≡ some t
            → length t.entries ≡ length s.entries)
  unfolding reserve complete
  ledger_stays_bounded key response now s h =
      let purged = record s { entries = purge s.ttl now s.entries } in
      (
        reply-bounded key now purged (lookup key purged.entries)
            (omega (arith, length-purge s.ttl now s.entries)),
        λ t q. done-bounded key response now s t (lookup key s.entries) refl q,
      )
