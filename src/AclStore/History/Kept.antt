-- ===== src/AclStore/History/Kept.antt =====
-- What every transaction, and so every run of them, keeps.
use smart_gatekeeper.Common.{
  ℕ, ◌≤◌, ◌≡◌, refl, ap, sym, ◌∙◌, true, some, Bool-cases, inl, inr, list_eq, nat_eq, pair_eq,
  arith, ◌⊎◌, Eq,
}
use smart_gatekeeper.Common.Dict.{lookup, has, has-set_item}
use smart_gatekeeper.Common.Text.{Text}
use smart_gatekeeper.Acl.Envelope.{Envelope}
use smart_gatekeeper.AclStore.{Dialect, DoorState, Door, Db}
use smart_gatekeeper.AclStore.Tenants.{tenant_status}
use smart_gatekeeper.AclStore.Snapshots.{insert_snapshot}
use smart_gatekeeper.AclStore.History.{
  Step, aside, registered, tenant_disabled, challenged, enrolled, counted, stored, Run, stop, next,
}
use smart_gatekeeper.AclStore.History.Effects.{IsDisabledKept, register-IsTenantWrite}
use smart_gatekeeper.AclStore.History.Effects.Disabling.{disable-IsTenantWrite}
use smart_gatekeeper.AclStore.History.Writes.{
  is_spent, IsSpentKept, challenge-IsChallengeWrite, consume-IsChallengeWrite, IsCounted,
  same-IsCounted, allocate-IsCounterWrite,
}

-- Every stored snapshot has a version that its door's counter has reached, and the door is its tenant's.
abbrev pub IsNumbered : Db → Type 0
IsNumbered db =
    (tenant_id door_id : Text) (version : ℕ)
    → has ((tenant_id, door_id), version) db.snapshots ≡ true
    → (state : DoorState) × (lookup door_id db.door_states ≡ some state)
      × (state.owner ≡ tenant_id)
      × (version ≤ state.last_version)

same_tenants-IsDisabledKept : (a b : Db) → a.acl_tenants ≡ b.acl_tenants → IsDisabledKept a b
unfolding tenant_status
same_tenants-IsDisabledKept a b h tenant_id d = rw (tenant_status, ← h) d

same_challenges-IsSpentKept : (a b : Db) → a.challenges ≡ b.challenges → IsSpentKept a b
unfolding is_spent
same_challenges-IsSpentKept a b h id d = rw (is_spent, ← h) d

-- The counters have not gone back, and the snapshots are the same.
counted-IsNumbered :
    (a b : Db) → IsCounted a b → a.snapshots ≡ b.snapshots → IsNumbered a → IsNumbered b
counted-IsNumbered a b c h n tenant_id door_id version there =
    let (state, found, owned, reached) = n tenant_id door_id version (rw h there) in
    let (later, found', owned', more) = c door_id state found in
    (later, found', owned' ∙ owned, omega arith)

insert-IsSameTables :
    (tenant_id door_id : Text) (version : ℕ) (e : Envelope) (now : ℕ) (a : Db)
    → let b = (insert_snapshot tenant_id door_id version e now a).1 in
      (a.acl_tenants ≡ b.acl_tenants)
      × (a.challenges ≡ b.challenges)
      × (a.door_states ≡ b.door_states)
unfolding insert_snapshot
insert-IsSameTables tenant_id door_id version e now a =
    elim (Bool-cases (has ((tenant_id, door_id), version) a.snapshots)) [
      | inl taken ↦ rw taken (refl, refl, refl)
      | inr free ↦ rw free (refl, refl, refl)
    ]

abbrev key_eq : Eq (Door × ℕ)
key_eq = pair_eq

-- The key that an insertion adds
inserted_key :
    (tenant_id door_id : Text) (version : ℕ) (e : Envelope) (now : ℕ) (a : Db) (tenant door : Text)
    (v : ℕ)
    → has ((tenant, door), v) (insert_snapshot tenant_id door_id version e now a).1.snapshots ≡ true
    → (has ((tenant, door), v) a.snapshots ≡ true)
      ⊎ ((tenant_id ≡ tenant) × (door_id ≡ door) × (version ≡ v))
unfolding insert_snapshot
inserted_key tenant_id door_id version e now a tenant door v h =
    elim (Bool-cases (has ((tenant_id, door_id), version) a.snapshots)) [
      | inl taken ↦ inl (rw taken at h)
      | inr free ↦
          let key : Door × ℕ = ((tenant_id, door_id), version) in
          let other : Door × ℕ = ((tenant, door), v) in
          let there = sym (has-set_item key other _ a.snapshots) ∙ (rw free at h) in
          elim (Bool-cases (key_eq.beq key other)) [
            | inl same ↦
                let q = (key_eq.beq_iff key other).0 same in
                inr (ap (λ k. k.0.0) q, ap (λ k. k.0.1) q, ap (λ k. k.1) q)
            | inr different ↦ inl (rw different at there)
          ]
    ]

insert-IsNumbered :
    (tenant_id door_id : Text) (version : ℕ) (e : Envelope) (now : ℕ) (state : DoorState) (a : Db)
    → lookup door_id a.door_states ≡ some state
    → state.owner ≡ tenant_id
    → version ≤ state.last_version
    → IsNumbered a
    → IsNumbered (insert_snapshot tenant_id door_id version e now a).1
insert-IsNumbered tenant_id door_id version e now state a found owned reached n tenant door v h =
    let (st, dt, dd) = insert-IsSameTables tenant_id door_id version e now a in
    elim (inserted_key tenant_id door_id version e now a tenant door v h) [
      | inl old ↦ let (s, f, o, r) = n tenant door v old in (s, (rw (← dd) f), o, r)
      | inr new ↦
          let f : lookup door a.door_states ≡ some state = rw (← new.1) found in
          (state, (rw (← dd) f), owned ∙ new.0, omega (arith, new.2))
    ]

module _ {dialect : Dialect} where
  pub Step-IsDisabledKept : {a b : Db} → Step dialect a b → IsDisabledKept a b
  Step-IsDisabledKept (aside a b h) = same_tenants-IsDisabledKept a b h.0
  Step-IsDisabledKept (registered id t name now a) =
      (register-IsTenantWrite dialect id t name now a).0
  Step-IsDisabledKept (tenant_disabled t reason now actor a) =
      (disable-IsTenantWrite dialect t reason now actor a).0
  Step-IsDisabledKept (challenged id t actor nonce expires now a) =
      same_tenants-IsDisabledKept a _ (challenge-IsChallengeWrite id t actor nonce expires now a).1
  Step-IsDisabledKept (enrolled t id actor now credential values a) =
      same_tenants-IsDisabledKept a _
        (consume-IsChallengeWrite t id actor now credential values a).1
  Step-IsDisabledKept (counted t d a) =
      same_tenants-IsDisabledKept a _ (allocate-IsCounterWrite dialect t d a).1
  Step-IsDisabledKept (stored t d v e now state a f o r) =
      same_tenants-IsDisabledKept a _ (insert-IsSameTables t d v e now a).0

  pub Step-IsSpentKept : {a b : Db} → Step dialect a b → IsSpentKept a b
  Step-IsSpentKept (aside a b h) = same_challenges-IsSpentKept a b h.1
  Step-IsSpentKept (registered id t name now a) =
      same_challenges-IsSpentKept a _ (register-IsTenantWrite dialect id t name now a).1.0
  Step-IsSpentKept (tenant_disabled t reason now actor a) =
      same_challenges-IsSpentKept a _ (disable-IsTenantWrite dialect t reason now actor a).1.0
  Step-IsSpentKept (challenged id t actor nonce expires now a) =
      (challenge-IsChallengeWrite id t actor nonce expires now a).0
  Step-IsSpentKept (enrolled t id actor now credential values a) =
      (consume-IsChallengeWrite t id actor now credential values a).0
  Step-IsSpentKept (counted t d a) =
      same_challenges-IsSpentKept a _ (allocate-IsCounterWrite dialect t d a).2
  Step-IsSpentKept (stored t d v e now state a f o r) =
      same_challenges-IsSpentKept a _ (insert-IsSameTables t d v e now a).1

  pub Step-IsCounted : {a b : Db} → Step dialect a b → IsCounted a b
  Step-IsCounted (aside a b h) = same-IsCounted a b h.2
  Step-IsCounted {b = b} (registered id t name now a) =
      same-IsCounted a b (register-IsTenantWrite dialect id t name now a).1.1
  Step-IsCounted {b = b} (tenant_disabled t reason now actor a) =
      same-IsCounted a b (disable-IsTenantWrite dialect t reason now actor a).1.1
  Step-IsCounted {b = b} (challenged id t actor nonce expires now a) =
      same-IsCounted a b (challenge-IsChallengeWrite id t actor nonce expires now a).2
  Step-IsCounted {b = b} (enrolled t id actor now credential values a) =
      same-IsCounted a b (consume-IsChallengeWrite t id actor now credential values a).2
  Step-IsCounted (counted t d a) = (allocate-IsCounterWrite dialect t d a).0
  Step-IsCounted {b = b} (stored t d v e now state a f o r) =
      same-IsCounted a b (insert-IsSameTables t d v e now a).2

  pub Step-IsNumbered : {a b : Db} → Step dialect a b → IsNumbered a → IsNumbered b
  Step-IsNumbered (aside a b h) n = counted-IsNumbered a b (same-IsCounted a b h.2) h.3 n
  Step-IsNumbered {b = b} (registered id t name now a) n =
      let w = (register-IsTenantWrite dialect id t name now a).1 in
      counted-IsNumbered a b (same-IsCounted a b w.1) w.2 n
  Step-IsNumbered {b = b} (tenant_disabled t reason now actor a) n =
      let w = (disable-IsTenantWrite dialect t reason now actor a).1 in
      counted-IsNumbered a b (same-IsCounted a b w.1) w.2 n
  Step-IsNumbered {b = b} (challenged id t actor nonce expires now a) n =
      let w = challenge-IsChallengeWrite id t actor nonce expires now a in
      counted-IsNumbered a b (same-IsCounted a b w.2) w.3 n
  Step-IsNumbered {b = b} (enrolled t id actor now credential values a) n =
      let w = consume-IsChallengeWrite t id actor now credential values a in
      counted-IsNumbered a b (same-IsCounted a b w.2) w.3 n
  Step-IsNumbered {b = b} (counted t d a) n =
      let w = allocate-IsCounterWrite dialect t d a in counted-IsNumbered a b w.0 w.3 n
  Step-IsNumbered (stored t d v e now state a f o r) n =
      insert-IsNumbered t d v e now state a f o r n

  pub Run-IsDisabledKept : {a b : Db} → Run dialect a b → IsDisabledKept a b
  Run-IsDisabledKept (stop a) t h = h
  Run-IsDisabledKept (next a b c s r) t h = Run-IsDisabledKept r t (Step-IsDisabledKept s t h)

  pub Run-IsSpentKept : {a b : Db} → Run dialect a b → IsSpentKept a b
  Run-IsSpentKept (stop a) id h = h
  Run-IsSpentKept (next a b c s r) id h = Run-IsSpentKept r id (Step-IsSpentKept s id h)

  pub Run-IsCounted : {a b : Db} → Run dialect a b → IsCounted a b
  Run-IsCounted (stop a) door state h = (state, h, refl, omega arith)
  Run-IsCounted (next a b c s r) door state h =
      let (mid, found, owned, more) = Step-IsCounted s door state h in
      let (end, found', owned', more') = Run-IsCounted r door mid found in
      (end, found', owned' ∙ owned, omega arith)

  pub Run-IsNumbered : {a b : Db} → Run dialect a b → IsNumbered a → IsNumbered b
  Run-IsNumbered (stop a) n = n
  Run-IsNumbered (next a b c s r) n = Run-IsNumbered r (Step-IsNumbered s n)
