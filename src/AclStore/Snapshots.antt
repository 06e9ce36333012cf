-- ===== src/AclStore/Snapshots.antt =====
-- The doors' versions, the published snapshots, the Targets' answers and the audit rows of `AclStore` of
-- backend/app/acl_management.py.
pub mod Acks
use smart_gatekeeper.Common.{
  ℕ, ◌+◌, Bool, true, false, ◌&&◌, Option, none, some, List, [], ◌∷◌, ◌++◌, if◌then◌else◌, ◌==◌,
  ltb, list_eq, nat_eq, pair_eq, list_beq, some_of, not,
}
use smart_gatekeeper.Common.Dict.{Dict, lookup, set_item, has}
use smart_gatekeeper.Common.Text.{Text}
use smart_gatekeeper.Common.Json.{Json}
use smart_gatekeeper.Acl.Envelope.{Envelope}
use smart_gatekeeper.AclStore.{
  Door, Dialect, sqlite, mysql, Error, Result, ok, failed, integrity_error, type_error, value_error,
  DoorState, Stored, AckStatus, applied, rejected, AckKey, Ack, Audit, Db,
}

-- What the statements raise on a door of another tenant: sqlite's ON CONFLICT clause does not cover the
-- UNIQUE door, and after mysql's the SELECT finds no row.
abbrev pub foreign_door : Dialect → Error
foreign_door sqlite = integrity_error
foreign_door mysql = type_error

unfoldable pub numbered : Text → Text → ℕ → Db → Result ℕ × Db
numbered tenant_id door_id version db = (
  ok version,
  record db {
    door_states =
        set_item door_id (record { owner = tenant_id; last_version = version }) db.door_states;
  },
)

unfoldable pub allocated : Dialect → Text → Text → Option DoorState → Db → Result ℕ × Db
unfolding numbered
allocated dialect tenant_id door_id none db = numbered tenant_id door_id 1 db
allocated dialect tenant_id door_id (some state) db =
    if list_beq state.owner tenant_id
    then numbered tenant_id door_id (state.last_version + 1) db
    else (failed (foreign_door dialect), db)

unfoldable pub allocate_snapshot_version : Dialect → Text → Text → Db → Result ℕ × Db
unfolding allocated
allocate_snapshot_version dialect tenant_id door_id db =
    allocated dialect tenant_id door_id (lookup door_id db.door_states) db

unfoldable pub door_owner : Text → Db → Option Text
door_owner door_id db = elim (lookup door_id db.door_states) [
  | none ↦ none
  | some state ↦ some state.owner
]

unfoldable pub snapshot_by_version : Text → Text → ℕ → Db → Option Stored
snapshot_by_version tenant_id door_id version db =
    lookup ((tenant_id, door_id), version) db.snapshots

unfoldable pub insert_snapshot : Text → Text → ℕ → Envelope → ℕ → Db → Result (Unit {0}) × Db
insert_snapshot tenant_id door_id version envelope now db =
    if has ((tenant_id, door_id), version) db.snapshots then (failed integrity_error, db) else (
      ok tt,
      record db {
        snapshots =
            set_item ((tenant_id, door_id), version)
              (record { sha256 = envelope.sha256; envelope = envelope; created_at = now })
              db.snapshots;
      },
    )

-- of two rows the one of the greater version
abbrev pub later : ℕ × Stored → Option (ℕ × Stored) → Option (ℕ × Stored)
later row none = some row
later row (some other) = if ltb row.0 other.0 then some other else some row

-- ORDER BY acl_version DESC LIMIT 1
unfoldable pub latest_of : Text → Text → Dict (Door × ℕ) Stored → Option (ℕ × Stored)
latest_of tenant_id door_id [] = none
latest_of tenant_id door_id ((((tenant, door), version), row) ∷ rows) =
    let rest = latest_of tenant_id door_id rows in
    if list_beq tenant tenant_id && list_beq door door_id then later (version, row) rest else rest

unfoldable pub latest_snapshot : Text → Text → Db → Option (ℕ × Stored)
latest_snapshot tenant_id door_id db = latest_of tenant_id door_id db.snapshots

abbrev pub same_answer : AckStatus → AckStatus → Bool
same_answer applied applied = true
same_answer rejected rejected = true
same_answer _ _ = false

-- by the row that is there
unfoldable pub upserted : AckKey → AckStatus → ℕ → Option Ack → Db → Result (ℕ × Bool) × Db
upserted key status now none db = (
  ok (db.next_ack_id, false),
  record db {
    acks =
        set_item key (record { ack_id = db.next_ack_id; status = status; acked_at = now }) db.acks;
    next_ack_id = db.next_ack_id + 1;
  },
)
upserted key status now (some ack) db =
    if same_answer ack.status status then (ok (ack.ack_id, true), db) else (failed value_error, db)

unfoldable pub upsert_ack : AckKey → AckStatus → ℕ → Db → Result (ℕ × Bool) × Db
unfolding upserted
upsert_ack key status now db = upserted key status now (lookup key db.acks) db

-- The answers for a door, the newest first: ack ids grow from row to row.
abbrev pub acks_onto : Text → Text → List (AckKey × Ack) → Dict AckKey Ack → List (AckKey × Ack)
acks_onto tenant_id door_id newer [] = newer
acks_onto tenant_id door_id newer ((((((tenant, door), target), version), digest), ack) ∷ rows) =
    let next =
      if list_beq tenant tenant_id && list_beq door door_id
      then (((((tenant, door), target), version), digest), ack) ∷ newer
      else newer in
    acks_onto tenant_id door_id next rows

-- `if row["target_id"] not in seen`
abbrev pub first_of_each : List Text → List (AckKey × Ack) → List (AckKey × Ack)
first_of_each seen [] = []
first_of_each seen (((((place, target), version), digest), ack) ∷ rows) =
    let old = first_of_each seen rows in
    let new = first_of_each (target ∷ seen) rows in
    if some_of (λ t. list_beq t target) seen
    then old
    else ((((place, target), version), digest), ack) ∷ new

unfoldable pub latest_acks : Text → Text → Db → List (AckKey × Ack)
latest_acks tenant_id door_id db = first_of_each [] (acks_onto tenant_id door_id [] db.acks)

unfoldable pub append_audit : Text → Text → Text → Option Text → Dict Text Json → ℕ → Db → Db
append_audit tenant_id actor_ref action credential_id metadata now db = record db {
  audit =
      db.audit
      ++ record {
        tenant_id = tenant_id;
        actor_ref = actor_ref;
        action = action;
        credential_id = credential_id;
        metadata = metadata;
        created_at = now;
      }
        ∷ [];
}
