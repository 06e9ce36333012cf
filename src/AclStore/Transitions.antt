-- ===== src/AclStore/Transitions.antt =====
-- The transactions of `AclStore` of backend/app/acl_management.py that end an access and queue the
-- replacement of every affected snapshot. An exception rolls all of it back.
pub mod Queued
pub mod Ended
use Prim.Native.String.{String}
use smart_gatekeeper.Common.{
  ℕ, Bool, true, false, ◌&&◌, Option, none, some, List, [], ◌∷◌, ◌++◌, if◌then◌else◌, list_eq,
  nat_eq, pair_eq, list_beq, some_of, map,
}
use smart_gatekeeper.Common.Dict.{Dict, lookup, set_item, has, keys}
use smart_gatekeeper.Common.Text.{Text, codes}
use smart_gatekeeper.Common.Json.{Json, str}
use smart_gatekeeper.AclStore.{
  Door, Dialect, sqlite, mysql, TenantStatus, active, disabled, CredentialStatus, LegacyTenant,
  Tenant, Credential, Grant, DoorState, Db,
}
use smart_gatekeeper.AclStore.Tenants.{has_uuid}
use smart_gatekeeper.AclStore.Credentials.{get_credential, same_status, set_credential_status}
use smart_gatekeeper.AclStore.Grants.{order_by, doors_where, active_grant_doors, revoke_grant}
use smart_gatekeeper.AclStore.Jobs.{queue_snapshot_job, queue_snapshot_job_if_absent}
use smart_gatekeeper.AclStore.Snapshots.{append_audit}

-- `for queued_door_id in door_ids`; a job that is there is preserved if the status does not change.
unfoldable pub queue_all : Bool → Text → Text → ℕ → List Text → Db → Db
queue_all preserve tenant_id reason now [] db = db
queue_all preserve tenant_id reason now (door ∷ doors) db =
    queue_all preserve tenant_id reason now doors (
      if preserve
      then queue_snapshot_job_if_absent tenant_id door reason now db
      else queue_snapshot_job tenant_id door reason now db)

unfoldable pub set_and_queue :
    Text → Text → CredentialStatus → Text → ℕ → Option Credential → Db → Option (List Text) × Db
set_and_queue tenant_id credential_id status reason now none db = (none, db)
set_and_queue tenant_id credential_id status reason now (some row) db =
    let doors = active_grant_doors tenant_id credential_id db in
    let same = same_status row.status status in
    (
      some doors,
      queue_all same tenant_id reason now doors
          (if same then db else (set_credential_status tenant_id credential_id status now db).1),
    )

unfoldable pub set_credential_status_and_queue :
    Text → Text → CredentialStatus → Text → ℕ → Db → Option (List Text) × Db
unfolding set_and_queue
set_credential_status_and_queue tenant_id credential_id status reason now db =
    set_and_queue tenant_id credential_id status reason now
      (get_credential tenant_id credential_id db) db

unfoldable pub revoke_grant_and_queue : Text → Text → Text → Text → ℕ → Db → Bool × Db
revoke_grant_and_queue tenant_id door_id credential_id reason now db =
    let (changed, db') = revoke_grant tenant_id door_id credential_id now db in
    if changed then (true, queue_snapshot_job tenant_id door_id reason now db') else (false, db)

-- UPDATE tenants SET is_active=FALSE WHERE tenant_uuid=...
abbrev pub inactive_rows : Text → Dict ℕ LegacyTenant → Dict ℕ LegacyTenant
inactive_rows tenant_id [] = []
inactive_rows tenant_id ((id, row) ∷ rows) =
    (id, (if has_uuid tenant_id row then record row { is_active = false } else row))
    ∷ inactive_rows tenant_id rows

abbrev pub disable_legacy : Dialect → Text → Db → Db
disable_legacy sqlite tenant_id db = db
disable_legacy mysql tenant_id db = record db { tenants = inactive_rows tenant_id db.tenants }

abbrev pub doors_of_states : Text → Dict Text DoorState → List Text
doors_of_states tenant_id [] = []
doors_of_states tenant_id ((door, state) ∷ rows) =
    let rest = doors_of_states tenant_id rows in
    if list_beq state.owner tenant_id then door ∷ rest else rest

abbrev pub doors_of_jobs : Text → List Door → List Text
doors_of_jobs tenant_id [] = []
doors_of_jobs tenant_id ((tenant, door) ∷ rest) =
    let doors = doors_of_jobs tenant_id rest in
    if list_beq tenant tenant_id then door ∷ doors else doors

-- UNION
unfoldable pub distinct : List Text → List Text
distinct [] = []
distinct (x ∷ xs) =
    let rest = distinct xs in if some_of (λ y. list_beq y x) rest then rest else x ∷ rest

-- Every door of a state, a grant (a revoked one too) or a job of the tenant
unfoldable pub affected_doors : Text → Db → List Text
affected_doors tenant_id db =
    order_by (λ door. door)
      (distinct (
        doors_of_states tenant_id db.door_states
        ++ doors_where (λ credential row. true) tenant_id db.grants
        ++ doors_of_jobs tenant_id (keys db.jobs)))

unfoldable pub pending_doors : Text → Db → List Text
pending_doors tenant_id db = order_by (λ door. door) (doors_of_jobs tenant_id (keys db.jobs))

-- UPDATE acl_tenants SET status='DISABLED'
abbrev pub disable_row : Text → ℕ → Tenant → Db → Db
disable_row tenant_id now row db = record db {
  acl_tenants =
      set_item tenant_id (record row { status = disabled; updated_at = now }) db.acl_tenants;
}

abbrev pub disabled_metadata : Dict Text Json
disabled_metadata = (codes "status", str (codes "DISABLED")) ∷ []

-- The result: whether the status changed, and the doors that need a replacement
unfoldable pub disable_found :
    Dialect → Text → Text → ℕ → Text → Option Tenant → Db → Option (Bool × List Text) × Db
disable_found dialect tenant_id reason now actor_ref none db = (none, db)
disable_found dialect tenant_id reason now actor_ref (some row) db =
    let db' = disable_legacy dialect tenant_id db in
    elim row.status [
      | disabled ↦ (some (false, pending_doors tenant_id db'), db')
      | active ↦
          let doors = affected_doors tenant_id db' in
          (
            some (true, doors),
            append_audit tenant_id actor_ref (codes "TENANT_DISABLED") none disabled_metadata now
                (queue_all false tenant_id reason now doors (disable_row tenant_id now row db')),
          )
    ]

unfoldable pub disable_tenant_and_queue :
    Dialect → Text → Text → ℕ → Text → Db → Option (Bool × List Text) × Db
unfolding disable_found
disable_tenant_and_queue dialect tenant_id reason now actor_ref db =
    disable_found dialect tenant_id reason now actor_ref (lookup tenant_id db.acl_tenants) db
