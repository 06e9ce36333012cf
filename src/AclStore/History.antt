-- ===== src/AclStore/History.antt =====
-- How the transactions of `AclStore` of backend/app/acl_management.py change the tables that a later
-- decision rests on: the tenants, the enrollment challenges, the doors' versions and the snapshots.
pub mod Frames
pub mod Effects
pub mod Writes
pub mod Kept
use smart_gatekeeper.Common.{ℕ, ◌≤◌, ◌≡◌, refl, Option, none, some, list_eq, nat_eq}
use smart_gatekeeper.Common.Dict.{lookup}
use smart_gatekeeper.Common.Text.{Text}
use smart_gatekeeper.Acl.Envelope.{Envelope}
use smart_gatekeeper.AclStore.{Dialect, TenantStatus, Credential, DoorState, Db}
use smart_gatekeeper.AclStore.Tenants.{upsert_tenant, register_legacy_tenant}
use smart_gatekeeper.AclStore.Credentials.{
  insert_challenge, consume_challenge_and_insert_credential,
}
use smart_gatekeeper.AclStore.Snapshots.{allocate_snapshot_version, insert_snapshot}
use smart_gatekeeper.AclStore.Transitions.{disable_tenant_and_queue}

-- Two databases agree on those tables.
abbrev pub IsSameHistory : Db → Db → Type 0
IsSameHistory a b =
    (a.acl_tenants ≡ b.acl_tenants)
    × (a.challenges ≡ b.challenges)
    × (a.door_states ≡ b.door_states)
    × (a.snapshots ≡ b.snapshots)

-- A transaction. `aside` writes only to other tables; a snapshot is stored under a version that its
-- door's counter has reached.
pub data Step (dialect : Dialect) : Db → Db → Type 0 where
  aside : (a b : Db) → IsSameHistory a b → Step dialect a b
  registered :
      (id : ℕ) (tenant_id display_name : Text) (now : ℕ) (a : Db)
      → Step dialect a (register_legacy_tenant dialect id tenant_id display_name now a).1
  tenant_disabled :
      (tenant_id reason : Text) (now : ℕ) (actor_ref : Text) (a : Db)
      → Step dialect a (disable_tenant_and_queue dialect tenant_id reason now actor_ref a).1
  challenged :
      (enrollment_id tenant_id actor_ref nonce_hash : Text) (expires_at now : ℕ) (a : Db)
      → Step dialect a
          (insert_challenge enrollment_id tenant_id actor_ref nonce_hash expires_at now a).1
  enrolled :
      (tenant_id enrollment_id actor_ref : Text) (now : ℕ) (credential_id : Text)
      (values : Credential) (a : Db)
      → Step dialect a
          (consume_challenge_and_insert_credential tenant_id enrollment_id actor_ref now
            credential_id values a).1
  counted :
      (tenant_id door_id : Text) (a : Db)
      → Step dialect a (allocate_snapshot_version dialect tenant_id door_id a).1
  stored :
      (tenant_id door_id : Text) (version : ℕ) (e : Envelope) (now : ℕ) (state : DoorState) (a : Db)
      → lookup door_id a.door_states ≡ some state
      → state.owner ≡ tenant_id
      → version ≤ state.last_version
      → Step dialect a (insert_snapshot tenant_id door_id version e now a).1

-- A run of transactions
pub data Run (dialect : Dialect) : Db → Db → Type 0 where
  stop : (a : Db) → Run dialect a a
  next : (a b c : Db) → Step dialect a b → Run dialect b c → Run dialect a c

pub Run-append :
    {dialect : Dialect} {a b c : Db} → Run dialect a b → Run dialect b c → Run dialect a c
Run-append (stop a) k = k
Run-append (next a b c s r) k = next a b _ s (Run-append r k)
