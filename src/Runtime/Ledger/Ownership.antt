-- ===== src/Runtime/Ledger/Ownership.antt =====
-- One owner: while a reservation lives, no other caller gets the key.
use smart_gatekeeper.Common.{
  ℕ, suc, ◌+◌, ◌≤◌, ◌<◌, ◌≡◌, refl, ap, ◌∙◌, false, Option, none, some, List, [], ◌∷◌, Eq,
  if◌then◌else◌, length, leb, arith, All, Option-cases, Bool-cases, inl, inr,
}
use smart_gatekeeper.Common.Dict.{Dict, lookup, set_item, set_item_new}
use smart_gatekeeper.Runtime.Ledger.{
  Ledger, Entry, Progress, reserved, completed, owner, existing, purge, reserve, complete, reply,
  done,
}
use smart_gatekeeper.Runtime.Ledger.Held.{
  Held, Held-purge, Held-mono, Held-trim, Held-set_other, Held-set_same, Held-lookup, Held-append,
}

pub data Call (K R : Type 0) : Type 0 where
  reserving : K → ℕ → Call K R
  completing : K → R → ℕ → Call K R

module _ {K R : Type 0} ⦃e : Eq K⦄ where
  or_same : Ledger K R → Option (Ledger K R) → Ledger K R
  or_same s none = s
  or_same s (some t) = t

  unfoldable pub after : Call K R → Ledger K R → Ledger K R
  unfolding or_same
  after (reserving k now) s = (reserve k now s).1
  after (completing k r now) s = or_same s (complete k r now s)

  unfoldable pub run : List (Call K R) → Ledger K R → Ledger K R
  run [] s = s
  run (c ∷ calls) s = run calls (after c s)

  abbrev pub at : Call K R → ℕ
  at (reserving k now) = now
  at (completing k r now) = now

  abbrev Holds : K → ℕ → ℕ → Ledger K R → Type 0
  Holds key since n s = Held key since n s.entries

  -- A call at a time when the reservation of `key` has not expired, with room in the ledger.
  module _ (key : K) (since n : ℕ) (s : Ledger K R) (roomy : n + 1 < s.max_entries) where
    other_key :
        (k : K) (d : Dict K (Entry R))
        → Held key since n d
        → lookup k d ≡ none
        → e.beq k key ≡ false
    other_key k d h absent =
        let (c, p, found, l) = Held-lookup key since n d h in ground (arith, e.beq_iff k key)

    Holds-reply :
        (k : K) (now : ℕ) (t : Ledger K R) (o : Option (Entry R))
        → lookup k t.entries ≡ o
        → t.max_entries ≡ s.max_entries
        → Holds key since n t
        → Holds key since (n + 1) (reply k now t o).1
    unfolding reply
    Holds-reply k now t (some (c, p)) e same h =
        Held-mono key since n (n + 1) t.entries (omega arith) h
    Holds-reply k now t none e same h =
        let next = set_item k (now, reserved) t.entries in
        Held-trim key since (n + 1) t.max_entries next (rw same roomy)
          (Held-set_other key k (now, reserved) since n t.entries (other_key k t.entries h e) h)

    Holds-reserve :
        (k : K) (now : ℕ)
        → now < since + s.ttl
        → Holds key since n s
        → Holds key since (n + 1) (reserve k now s).1
    unfolding reserve
    Holds-reserve k now l h =
        let purged = record s { entries = purge s.ttl now s.entries } in
        Holds-reply k now purged (lookup k purged.entries) refl refl
          (Held-purge key since n s.ttl now s.entries l h)

    Holds-done :
        (k : K) (r : R) (now : ℕ) (o : Option (Entry R))
        → lookup k s.entries ≡ o
        → since ≤ now
        → Holds key since n s
        → Holds key since (n + 1) (or_same s (done k r now s o))
    unfolding done or_same
    Holds-done k r now none found l h = Held-mono key since n (n + 1) s.entries (omega arith) h
    Holds-done k r now (some (c, p)) found l h =
        let at = if leb c now then c else now in
        elim (Bool-cases (e.beq k key)) [
          | inl same ↦
              let (c', q, found', g) = Held-lookup key since n s.entries h in
              let k-eq : k ≡ key = (e.beq_iff k key).0 same in
              let old : since ≤ c = ground (arith, ap (λ (j : K). lookup j s.entries) k-eq) in
              rw k-eq (
                Held-mono key since n (n + 1) (set_item key (at, completed r) s.entries)
                  (omega arith)
                  (Held-set_same key at (completed r) since n s.entries (ground arith) h))
          | inr other ↦ Held-set_other key k (at, completed r) since n s.entries other h
        ]

    Holds-after :
        (c : Call K R)
        → since ≤ at c
        → at c < since + s.ttl
        → Holds key since n s
        → Holds key since (n + 1) (after c s)
    unfolding after complete
    Holds-after (reserving k now) l u h = Holds-reserve k now u h
    Holds-after (completing k r now) l u h = Holds-done k r now (lookup k s.entries) refl l h

  after_config :
      (c : Call K R) (s : Ledger K R)
      → ((after c s).ttl ≡ s.ttl) × ((after c s).max_entries ≡ s.max_entries)
  unfolding after reserve reply complete done
  after_config (reserving k now) s = ground arith
  after_config (completing k r now) s = ground arith

  Holds-run :
      (key : K) (since n : ℕ) (calls : List (Call K R)) (s : Ledger K R)
      → n + length calls < s.max_entries
      → All (λ c. (since ≤ at c) × (at c < since + s.ttl)) calls
      → Holds key since n s
      → Holds key since (n + length calls) (run calls s) × ((run calls s).ttl ≡ s.ttl)
  unfolding run
  Holds-run key since n [] s l b h = (Held-mono key since n (n + 0) s.entries (omega arith) h, refl)
  Holds-run key since n (c ∷ calls) s l b h =
      let (t, m) = after_config c s in
      let step = Holds-after key since n s (omega arith) c b.0.0 b.0.1 h in
      let rest =
        Holds-run key since (n + 1) calls (after c s) (rw m (omega arith)) (rw t b.1) step in
      (
        Held-mono key since (n + 1 + length calls) (n + suc (length calls))
            (run calls (after c s)).entries (omega arith) rest.0,
        rest.1 ∙ t,
      )

  Holds-owner :
      (key : K) (since : ℕ) (s : Ledger K R)
      → 0 < s.max_entries
      → (reserve key since s).0 ≡ owner
      → Holds key since 0 (reserve key since s).1
  unfolding reserve reply
  Holds-owner key since s roomy h =
      let d = purge s.ttl since s.entries in
      elim (Option-cases (lookup key d)) [
        | inl absent ↦
            let fresh : Held key since 0 (set_item key (since, reserved) d) =
              rw (set_item_new key (since, reserved) d absent)
                (Held-append key since reserved d absent) in
            rw absent
              (Held-trim key since 0 s.max_entries (set_item key (since, reserved) d) roomy fresh)
        | inr (v, found) ↦ absurd (ground arith)
      ]

  told :
      (key : K) (since n now : ℕ) (s : Ledger K R)
      → now < since + s.ttl
      → Holds key since n s
      → (p : Progress R) × ((reserve key now s).0 ≡ existing p)
  unfolding reserve reply
  told key since n now s l h =
      let d = purge s.ttl now s.entries in
      let (c, p, found, g) =
        Held-lookup key since n d (Held-purge key since n s.ttl now s.entries l h) in
      (p, rw found refl)

  -- After a caller became the owner of `key`, and any calls of any callers, fewer than the ledger
  -- has room for and all before the reservation expires, a second caller for `key` is told of the
  -- first one's entry and does not become an owner.
  pub one_owner :
      (key : K) (since : ℕ) (calls : List (Call K R)) (again : ℕ) (s : Ledger K R)
      → length calls < s.max_entries
      → (reserve key since s).0 ≡ owner
      → All (λ c. (since ≤ at c) × (at c < since + s.ttl)) calls
      → again < since + s.ttl
      → (p : Progress R) × ((reserve key again (run calls (reserve key since s).1)).0 ≡ existing p)
  unfolding after
  one_owner key since calls again s room first between soon =
      let (t, m) = after_config (reserving key since) s in
      let held = Holds-owner key since s (omega arith) first in
      let (h, l) =
        Holds-run key since 0 calls (reserve key since s).1 (rw m (omega arith)) (rw t between)
          held in
      told key since (0 + length calls) again (run calls (reserve key since s).1) (rw (l ∙ t) soon)
        h
