-- ===== src/AclStore.antt =====
-- The tables of `AclStore` of backend/app/acl_management.py, with the keys that the schema declares. A
-- table is a dictionary from its key to the rest of the row; a key that the schema calls UNIQUE beside
-- the primary one is checked where a row is inserted. Ids, references and digests are texts.
pub mod Tenants
pub mod Credentials
pub mod Grants
pub mod Jobs
pub mod Snapshots
pub mod Transitions
pub mod History
use smart_gatekeeper.Common.{ℕ, Bool, Option, List, []}
use smart_gatekeeper.Common.Dict.{Dict}
use smart_gatekeeper.Common.Text.{Text}
use smart_gatekeeper.Common.Json.{Json}
use smart_gatekeeper.Acl.Envelope.{Envelope}

-- `dialect`
pub data Dialect : Type 0 where
  sqlite mysql : Dialect

-- The exceptions: the code's own, and the database's for a key that is there already.
pub data Error : Type 0 where
  lookup_error permission_error value_error conflict_error runtime_error mqtt_error : Error
  integrity_error type_error : Error

pub data Result {ℓ} (A : Type ℓ) : Type ℓ where
  ok : A → Result A
  failed : Error → Result A

pub data TenantStatus : Type 0 where
  active disabled : TenantStatus

-- KNOWN_CREDENTIAL_STATUSES
pub data CredentialStatus : Type 0 where
  is_pending is_active is_disabled is_revoked is_expired : CredentialStatus

pub record LegacyTenant : Type 0 where
  pub name : Text
  pub unit_number : Text
  pub ble_device_mac : Option Text
  pub is_active : Bool
  pub tenant_uuid : Option Text
  pub credential_mode : Text
  pub credential_id : Option Text
  pub mobile_role : Text

pub record Tenant : Type 0 where
  pub display_name : Text
  pub status : TenantStatus
  pub updated_at : ℕ
  pub created_at : ℕ

pub record Challenge : Type 0 where
  pub tenant_id : Text
  pub actor_ref : Text
  pub nonce_hash : Text
  pub expires_at : ℕ
  pub used_at : Option ℕ
  pub created_at : ℕ

pub record Credential : Type 0 where
  pub tenant_id : Text
  pub public_key_sec1 : Text
  pub status : CredentialStatus
  pub expires_at : Option ℕ
  pub legacy_device_ref : Option Text
  pub min_protocol : ℕ
  pub max_protocol : ℕ
  pub created_at : ℕ
  pub updated_at : ℕ

pub record Grant : Type 0 where
  pub permissions : ℕ
  pub granted_at : ℕ
  pub revoked_at : Option ℕ

-- `acl_door_state`, whose door_id is UNIQUE: a door has one row, which names its tenant.
pub record DoorState : Type 0 where
  pub owner : Text
  pub last_version : ℕ

pub record Stored : Type 0 where
  pub sha256 : Text
  pub envelope : Envelope
  pub created_at : ℕ

pub record Job : Type 0 where
  pub reason : Text
  pub requested_at : ℕ
  pub generated_version : Option ℕ
  pub revision : ℕ

pub data AckStatus : Type 0 where
  applied rejected : AckStatus

-- tenant_id and door_id
abbrev pub Door : Type 0
Door = Text × Text

-- The UNIQUE key of `target_acl_acks`: tenant_id and door_id, target_id, acl_version and sha256
abbrev pub AckKey : Type 0
AckKey = ((Door × Text) × ℕ) × Text

pub record Ack : Type 0 where
  pub ack_id : ℕ
  pub status : AckStatus
  pub acked_at : ℕ

pub record Audit : Type 0 where
  pub tenant_id : Text
  pub actor_ref : Text
  pub action : Text
  pub credential_id : Option Text
  pub metadata : Dict Text Json
  pub created_at : ℕ

pub record Db : Type 0 where
  pub tenants : Dict ℕ LegacyTenant
  pub acl_tenants : Dict Text Tenant
  pub challenges : Dict Text Challenge
  pub credentials : Dict Text Credential
  -- by tenant, door and credential
  pub grants : Dict (Door × Text) Grant
  pub door_states : Dict Text DoorState
  -- by tenant, door and version
  pub snapshots : Dict (Door × ℕ) Stored
  -- by tenant and door
  pub jobs : Dict Door Job
  pub acks : Dict AckKey Ack
  pub next_ack_id : ℕ
  pub audit : List Audit

-- The database that `initialize_sqlite_test_schema` creates
unfoldable pub empty : Db
empty = record {
  tenants = [];
  acl_tenants = [];
  challenges = [];
  credentials = [];
  grants = [];
  door_states = [];
  snapshots = [];
  jobs = [];
  acks = [];
  next_ack_id = 1;
  audit = [];
}
