-- ===== src/AclStore/History/Writes.antt =====
-- What the transactions on the challenges, on a door's counter and on the snapshots change, and what
-- they leave alone.
use smart_gatekeeper.Common.{
  ℕ, ◌+◌, ◌≤◌, ◌≡◌, refl, sym, ◌∙◌, Bool, true, false, ◌&&◌, ◌||◌, not, Option, none, some,
  Bool-cases, inl, inr, list_eq, nat_eq, pair_eq, list_beq, list_beq_iff, arith, ◌⊎◌, some_of,
}
use smart_gatekeeper.Common.Dict.{lookup, has, set_item, lookup-set_item, has-lookup}
use smart_gatekeeper.Common.Text.{Text}
use smart_gatekeeper.AclStore.{Dialect, Challenge, Credential, DoorState, Db}
use smart_gatekeeper.AclStore.Credentials.{
  insert_challenge, consume_row, consume_challenge_and_insert_credential, insert_credential,
  get_challenge, is_unused, used, committed, has_key,
}
use smart_gatekeeper.AclStore.Snapshots.{allocated, numbered, allocate_snapshot_version}

abbrev pub spent : Option Challenge → Bool
spent none = false
spent (some row) = not (is_unused row)

-- The challenge is there, and consumed.
unfoldable pub is_spent : Text → Db → Bool
is_spent enrollment_id db = spent (lookup enrollment_id db.challenges)

abbrev pub IsSpentKept : Db → Db → Type 0
IsSpentKept a b =
    (enrollment_id : Text) → is_spent enrollment_id a ≡ true → is_spent enrollment_id b ≡ true

-- A write of the challenges keeps those that are consumed, and the other tables.
abbrev pub IsChallengeWrite : Db → Db → Type 0
IsChallengeWrite a b =
    IsSpentKept a b
    × (a.acl_tenants ≡ b.acl_tenants)
    × (a.door_states ≡ b.door_states)
    × (a.snapshots ≡ b.snapshots)

same_challenges : (db : Db) → IsChallengeWrite db db
same_challenges db = ((λ id h. h), refl, refl, refl)

-- Setting the row of an id whose row was not consumed, or to a consumed one.
set-IsSpentKept :
    (id : Text) (row : Challenge) (db : Db)
    → is_spent id db ≡ false ⊎ is_unused row ≡ false
    → IsSpentKept db (record db { challenges = set_item id row db.challenges })
unfolding is_spent
set-IsSpentKept id row db why other h =
    let looked = lookup-set_item id other row db.challenges in
    elim (Bool-cases (list_beq id other)) [
      | inl same ↦
          let q = (list_beq_iff id other).0 same in
          let now_is = rw same at looked in
          elim why [
            | inl fresh ↦
                let h' : is_spent id db ≡ true = rw q h in
                absurd (let bad : false ≡ true = sym fresh ∙ h' in cc)
            | inr unused ↦ rw now_is (rw unused refl)
          ]
      | inr different ↦ let now_is = rw different at looked in rw now_is h
    ]

insert_new-IsChallengeWrite :
    (id : Text) (row : Challenge) (db : Db)
    → has id db.challenges ≡ false
    → IsChallengeWrite db (record db { challenges = set_item id row db.challenges })
unfolding is_spent
insert_new-IsChallengeWrite id row db free =
    (set-IsSpentKept id row db (inl (rw (has-lookup id db.challenges free) refl)), refl, refl, refl)

pub challenge-IsChallengeWrite :
    (id tenant_id actor_ref nonce_hash : Text) (expires_at now : ℕ) (db : Db)
    → IsChallengeWrite db (insert_challenge id tenant_id actor_ref nonce_hash expires_at now db).1
unfolding insert_challenge
challenge-IsChallengeWrite id tenant_id actor_ref nonce_hash expires_at now db =
    elim (Bool-cases (has id db.challenges)) [
      | inl taken ↦ rw taken (same_challenges db)
      | inr free ↦ rw free (insert_new-IsChallengeWrite id _ db free)
    ]

-- What an insertion of a credential leaves, whichever way it ends.
insert-IsChallengeWrite :
    (a : Db) (credential_id : Text) (values : Credential) (b : Db)
    → IsChallengeWrite a b
    → IsChallengeWrite a (committed a (insert_credential credential_id values b)).1
unfolding insert_credential is_spent
insert-IsChallengeWrite a credential_id values b h =
    elim (Bool-cases
      (has credential_id b.credentials || some_of (has_key values.public_key_sec1) b.credentials)) [
        | inl taken ↦ rw taken (same_challenges a)
        | inr free ↦ rw free h
      ]

consume_row-IsChallengeWrite :
    (id actor_ref : Text) (now : ℕ) (credential_id : Text) (values : Credential)
    (o : Option Challenge) (db : Db)
    → IsChallengeWrite db (consume_row id actor_ref now credential_id values o db).1
unfolding consume_row
consume_row-IsChallengeWrite id actor_ref now credential_id values none db = same_challenges db
consume_row-IsChallengeWrite id actor_ref now credential_id values (some row) db =
    let after = record db { challenges = set_item id (used now row) db.challenges } in
    elim (Bool-cases (list_beq row.actor_ref actor_ref && is_unused row)) [
      | inl fresh ↦ rw fresh (
          insert-IsChallengeWrite db credential_id values after
            (set-IsSpentKept id (used now row) db (inr refl), refl, refl, refl))
      | inr closed ↦ rw closed (same_challenges db)
    ]

pub consume-IsChallengeWrite :
    (tenant_id id actor_ref : Text) (now : ℕ) (credential_id : Text) (values : Credential) (db : Db)
    → IsChallengeWrite db
        (consume_challenge_and_insert_credential tenant_id id actor_ref now credential_id values
          db).1
unfolding consume_challenge_and_insert_credential
consume-IsChallengeWrite tenant_id id actor_ref now credential_id values db =
    consume_row-IsChallengeWrite id actor_ref now credential_id values
      (get_challenge tenant_id id db) db

-- A door keeps its owner, and its counter does not go back.
abbrev pub IsCounted : Db → Db → Type 0
IsCounted a b =
    (door_id : Text) (state : DoorState)
    → lookup door_id a.door_states ≡ some state
    → (later : DoorState) × (lookup door_id b.door_states ≡ some later)
      × (later.owner ≡ state.owner)
      × (state.last_version ≤ later.last_version)

pub same-IsCounted : (a b : Db) → a.door_states ≡ b.door_states → IsCounted a b
same-IsCounted a b h door_id state found = (state, (rw (← h) found), refl, omega arith)

-- A write of a door's counter keeps the tables of the tenants, the challenges and the snapshots.
abbrev pub IsCounterWrite : Db → Db → Type 0
IsCounterWrite a b =
    IsCounted a b
    × (a.acl_tenants ≡ b.acl_tenants)
    × (a.challenges ≡ b.challenges)
    × (a.snapshots ≡ b.snapshots)

same_counters : (db : Db) → IsCounterWrite db db
same_counters db = (same-IsCounted db db refl, refl, refl, refl)

raise-IsCounted :
    (tenant_id door_id : Text) (version : ℕ) (db : Db) (old : Option DoorState)
    → lookup door_id db.door_states ≡ old
    → ((state : DoorState)
        → old ≡ some state
        → (tenant_id ≡ state.owner) × (state.last_version ≤ version))
    → IsCounted db (numbered tenant_id door_id version db).1
unfolding numbered
raise-IsCounted tenant_id door_id version db old e grows door state found =
    let new : DoorState = record { owner = tenant_id; last_version = version } in
    let looked = lookup-set_item door_id door new db.door_states in
    elim (Bool-cases (list_beq door_id door)) [
      | inl same ↦
          let q = (list_beq_iff door_id door).0 same in
          let found' : lookup door_id db.door_states ≡ some state = rw q found in
          let (owned, less) = grows state (sym e ∙ found') in
          (new, (rw same at looked), owned, less)
      | inr different ↦ (state, ((rw different at looked) ∙ found), refl, omega arith)
    ]

allocated-IsCounterWrite :
    (dialect : Dialect) (tenant_id door_id : Text) (old : Option DoorState) (db : Db)
    → lookup door_id db.door_states ≡ old
    → IsCounterWrite db (allocated dialect tenant_id door_id old db).1
unfolding allocated numbered
allocated-IsCounterWrite dialect tenant_id door_id none db e =
    (raise-IsCounted tenant_id door_id 1 db none e (λ state q. absurd cc), refl, refl, refl)
allocated-IsCounterWrite dialect tenant_id door_id (some state) db e =
    elim (Bool-cases (list_beq state.owner tenant_id)) [
      | inl own ↦
          let q = (list_beq_iff state.owner tenant_id).0 own in
          rw own (
            raise-IsCounted tenant_id door_id (state.last_version + 1) db (some state) e
                (λ s h. let p : state ≡ s = cc in rw (← p) (sym q, omega arith)),
            refl,
            refl,
            refl,
          )
      | inr foreign ↦ rw foreign (same_counters db)
    ]

pub allocate-IsCounterWrite :
    (dialect : Dialect) (tenant_id door_id : Text) (db : Db)
    → IsCounterWrite db (allocate_snapshot_version dialect tenant_id door_id db).1
unfolding allocate_snapshot_version
allocate-IsCounterWrite dialect tenant_id door_id db =
    allocated-IsCounterWrite dialect tenant_id door_id (lookup door_id db.door_states) db refl
