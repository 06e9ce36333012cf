-- ===== src/Examples/Serving.antt =====
-- The access service on a concrete database: one tenant, one door, one credential.
use smart_gatekeeper.Common.{
  ℕ, ◌+◌, ◌≤◌, ◌<◌, ◌≡◌, refl, true, false, none, some, List, [], ◌∷◌, list_eq, nat_eq, pair_eq,
}
use smart_gatekeeper.Common.Dict.{lookup, has, set_item}
use smart_gatekeeper.Common.Text.{Text, codes}
use smart_gatekeeper.Common.Try.{compare_digest}
use smart_gatekeeper.Acl.{
  encode_acl, validate_acl_fields, hex_bytes, from_hex, parse_public_key, from_bytes, to_bytes, u8,
  u16, u32, u64, prime, curve_b,
}
use smart_gatekeeper.Common.Strings.{strip, lstrip, rstrip}
use smart_gatekeeper.Acl.Envelope.{Envelope, to_hex}
use smart_gatekeeper.AclStore.{
  sqlite, Result, ok, failed, Tenant, TenantStatus, active, disabled, Credential, is_active,
  DoorState, Db, empty,
}
use smart_gatekeeper.AclStore.Tenants.{
  tenant_exists, tenant_status, legacy_tenant_is_active, register_legacy_tenant, create_tenant,
  upsert_tenant,
}
use smart_gatekeeper.AclStore.Credentials.{get_credential}
use smart_gatekeeper.AclStore.Grants.{sort_onto, order_by, granted_rows, list_granted_credentials}
use smart_gatekeeper.AclStore.Grants.Entitled.{is_entitled}
use smart_gatekeeper.AclStore.Snapshots.{
  numbered, allocated, allocate_snapshot_version, door_owner, insert_snapshot, append_audit,
}
use smart_gatekeeper.AclStore.History.Kept.{IsNumbered}
use smart_gatekeeper.AclService.{
  Signer, Config, World, pure, look, write, transact, or_raise, ◌>>=◌, update, require, of_try,
  compare, is_hex_of, redacted, existing_tenant, time, push, audit, reconcile_by,
  reconcile_legacy_disable,
}
use smart_gatekeeper.AclService.Enrolling.{register_tenant}
use smart_gatekeeper.AclService.Signing.{
  entries_of, sort_entries, fields_of, sign_explicit_snapshot,
}
use smart_gatekeeper.AclService.Signing.Listed.{is_listed, is_usable_row}
use smart_gatekeeper.AclService.Publishing.{
  topic_of, owned_by, store_rows, build_snapshot, publish_snapshot,
}
use smart_gatekeeper.AclService.Publishing.Listed.{publish_snapshot-is_listed}
use smart_gatekeeper.AclService.Requests.{
  Request, to_register, to_publish, to_revoke, serve, serve_all,
}
use smart_gatekeeper.AclService.Requests.Lasting.{
  disabled_for_good, serve_all-IsNumbered, door_kept, publish_snapshot-newer,
}
use smart_gatekeeper.Examples.Encoding.{stand_in, digest_of, entry}

abbrev pub tenant : Text
tenant = codes "0000000000000000000000000000000a"

abbrev pub door : Text
door = codes "0000000000000000000000000000000d"

abbrev pub phone : Text
phone = codes "00000000000000000000000000000001"

abbrev pub staff : Text
staff = codes "admin:1"

abbrev signer : Signer
signer = record { signing_key_id = 4; public_key_sec1 = []; sign = λ message. [] }

abbrev pub config : Config
config = record {
  dialect = sqlite;
  signer = signer;
  transition_signers = [];
  lease_seconds = 900;
  legacy_lookup_enabled = false;
  legacy_hmac_key = [];
  clock = λ n. 1000 + n;
  token_bytes = λ n size. to_bytes size (n + 16);
  push = λ n. some true;
  sha256 = digest_of;
  hmac = λ key message. [];
  inverse = stand_in;
}

abbrev pub credential : Credential
credential = record {
  tenant_id = tenant;
  public_key_sec1 = entry.public_key_sec1;
  status = is_active;
  expires_at = none;
  legacy_device_ref = none;
  min_protocol = 1;
  max_protocol = 2;
  created_at = 5;
  updated_at = 5;
}

abbrev home : TenantStatus → Tenant
home status = record {
  display_name = codes "home";
  status = status;
  updated_at = 1;
  created_at = 1;
}

abbrev pub stocked : TenantStatus → Db
stocked status = record {
  tenants = [];
  acl_tenants = (tenant, home status) ∷ [];
  challenges = [];
  credentials = (phone, credential) ∷ [];
  grants =
      (((tenant, door), phone), record { permissions = 1; granted_at = 6; revoked_at = none }) ∷ [];
  door_states = (door, record { owner = tenant; last_version = 3 }) ∷ [];
  snapshots = [];
  jobs = [];
  acks = [];
  next_ack_id = 1;
  audit = [];
}

abbrev pub world : Db → World
world db = record { db = db; clock_reads = 0; draws = 0; pushed = [] }

abbrev envelope_of : Result Envelope → Envelope
envelope_of (ok e) = e
envelope_of (failed x) = record {
  fields = fields_of config [] 0 0 0 0 [];
  canonical_hex = [];
  sha256 = [];
  signature_raw64 = none;
  signatures = [];
}

abbrev published : World → Result Envelope × World
published w = publish_snapshot config tenant door staff 2 2 w

abbrev issued : Result Envelope × World
issued = published (world (stocked active))

publish_snapshot-is_listed_example :
    is_listed phone (envelope_of issued.0).fields.entries
    ≡ is_entitled
        (is_usable_row 2 2 (envelope_of issued.0).fields.issued_at)
        tenant
        door
        phone
        issued.1.db
unfolding publish_snapshot existing_tenant is_hex_of or_raise ◌>>=◌ pure look write transact update
    require of_try compare time push audit redacted reconcile_legacy_disable reconcile_by
    tenant_exists tenant_status legacy_tenant_is_active door_owner owned_by build_snapshot
    store_rows allocate_snapshot_version allocated numbered list_granted_credentials granted_rows
    order_by sort_onto get_credential entries_of sort_entries fields_of sign_explicit_snapshot
    insert_snapshot append_audit topic_of lookup has set_item compare_digest to_hex encode_acl
    validate_acl_fields hex_bytes from_hex parse_public_key from_bytes to_bytes u8 u16 u32 u64 prime
    curve_b
publish_snapshot-is_listed_example =
    publish_snapshot-is_listed config tenant door 2 2 staff (world (stocked active))
      (envelope_of issued.0) issued.1 phone refl

abbrev pub asked : List Request
asked = to_publish tenant door staff 2 2 ∷ to_revoke tenant phone staff ∷ []

disabled_for_good_example :
    (tenant_status tenant (serve_all config asked (world (stocked disabled))).db ≡ some disabled)
    × ((door_id actor_ref : Text) (low high : ℕ) (e : Envelope) (w' : World) (credential_id : Text)
        → publish_snapshot config tenant door_id actor_ref low high
            (serve_all config asked (world (stocked disabled)))
          ≡ (ok e, w')
        → is_listed credential_id e.fields.entries ≡ false)
unfolding tenant_status lookup
disabled_for_good_example = disabled_for_good config tenant (world (stocked disabled)) asked refl

serve_all-IsNumbered_example : IsNumbered (serve_all config asked (world empty)).db
serve_all-IsNumbered_example = serve_all-IsNumbered config (world empty) asked refl

abbrev counter : DoorState
counter = record { owner = tenant; last_version = 3 }

door_kept_example :
    (later : DoorState) × (lookup door
        (serve_all config asked (world (stocked active))).db.door_states
      ≡ some later)
    × (later.owner ≡ counter.owner)
    × (counter.last_version ≤ later.last_version)
unfolding lookup
door_kept_example = door_kept config door counter (world (stocked active)) asked refl

-- From the empty database: the tenant is registered and its door published twice.
abbrev first_requests : List Request
first_requests = to_register tenant (codes "home") 1 staff ∷ to_publish tenant door staff 2 2 ∷ []

abbrev second : Result Envelope × World
second = published (serve_all config first_requests (world empty))

publish_snapshot-newer_example : 1 < (envelope_of second.0).fields.acl_version
unfolding empty serve serve_all register_tenant register_legacy_tenant create_tenant upsert_tenant
    strip lstrip rstrip publish_snapshot existing_tenant is_hex_of or_raise ◌>>=◌ pure look write
    transact update require of_try compare time push audit redacted reconcile_legacy_disable
    reconcile_by tenant_exists tenant_status legacy_tenant_is_active door_owner owned_by
    build_snapshot store_rows allocate_snapshot_version allocated numbered list_granted_credentials
    granted_rows order_by sort_onto get_credential entries_of sort_entries fields_of
    sign_explicit_snapshot insert_snapshot append_audit topic_of lookup has set_item compare_digest
    to_hex encode_acl validate_acl_fields hex_bytes from_hex parse_public_key from_bytes to_bytes u8
    u16 u32 u64 prime curve_b
publish_snapshot-newer_example =
    publish_snapshot-newer config tenant door staff 2 2 (world empty) first_requests
      (envelope_of second.0) second.1 tenant 1 refl refl refl
