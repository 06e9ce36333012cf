-- ===== src/AclService/Enrolling.antt =====
-- Tenants, enrollment and the granting of access by `AclManagementService` of
-- backend/app/acl_management.py.
pub mod Quiet
pub mod Enrolled
use smart_gatekeeper.Common.{
  ℕ, ◌+◌, Bool, true, false, ◌&&◌, not, Option, none, some, [], ◌∷◌, if◌then◌else◌, leb, ◌==◌,
  list_eq, nat_eq, ltb,
}
use smart_gatekeeper.Common.Dict.{Dict}
use smart_gatekeeper.Common.Text.{Text, codes}
use smart_gatekeeper.Common.Strings.{strip, utf8}
use smart_gatekeeper.Common.Json.{Json, str}
use smart_gatekeeper.Acl.{Bytes, hex_bytes, from_hex}
use smart_gatekeeper.Acl.Receipts.{is_blank}
use smart_gatekeeper.Acl.Curve.{verify_raw64}
use smart_gatekeeper.Acl.Enrollment.{build_enrollment_input}
use smart_gatekeeper.Acl.Envelope.{to_hex}
use smart_gatekeeper.AclStore.{
  Error, lookup_error, permission_error, value_error, CredentialStatus, is_pending, is_active,
  Challenge, Credential,
}
use smart_gatekeeper.AclStore.Tenants.{register_legacy_tenant}
use smart_gatekeeper.AclStore.Credentials.{
  insert_challenge, get_challenge, is_unused, consume_challenge_and_insert_credential,
  get_credential, same_status, set_credential_status, find_by_legacy_ref,
}
use smart_gatekeeper.AclStore.Grants.{grant_credential}
use smart_gatekeeper.AclService.{
  Config, World, Action, pure, raise, look, write, transact, or_raise, ◌>>=◌, ◌>>◌, update, require,
  of_try, compare, is_hex_of, existing_tenant, authorize_tenant, time, token, audit, active_tenant,
}

-- What a phone submits
pub record Submission : Type 0 where
  pub enrollment_id : Text
  pub nonce_hex : Text
  pub public_key_hex : Text
  pub signature_hex : Text
  pub legacy_device_id : Option Text
  pub expires_at : Option ℕ
  pub min_protocol : ℕ
  pub max_protocol : ℕ

module _ (c : Config) where
  unfoldable pub register_tenant : Text → Text → ℕ → Text → Action (Unit {0})
  register_tenant tenant_id display_name legacy_tenant_id actor_ref = do
    is_hex_of tenant_id 16
    require (not (is_blank (strip display_name))) value_error
    require (leb 1 legacy_tenant_id) value_error
    now ← time c
    transact (register_legacy_tenant c.dialect legacy_tenant_id tenant_id (strip display_name) now)
    audit c tenant_id actor_ref (codes "ACL_TENANT_REGISTERED") none []

  -- The result is the enrollment id, the nonce and the end of the challenge.
  unfoldable pub issue_enrollment_challenge : Text → Text → Option Text → Action (Text × Text × ℕ)
  issue_enrollment_challenge tenant_id actor_ref actor_tenant_id = do
    active_tenant c tenant_id
    authorize_tenant tenant_id actor_tenant_id
    now ← time c
    enrollment_id ← token c 16
    nonce ← token c 32
    nonce_bytes ← or_raise (from_hex nonce) value_error
    transact (
        insert_challenge enrollment_id tenant_id actor_ref (to_hex (c.sha256 nonce_bytes))
          (now + 300) now)
    audit c tenant_id actor_ref (codes "ENROLLMENT_CHALLENGE_ISSUED") none []
    pure (enrollment_id, nonce, now + 300)

  -- `_legacy_ref`
  unfoldable pub legacy_ref : Text → Action Text
  legacy_ref device_id = do
    require (not (is_blank device_id)) value_error
    message ← or_raise (utf8 (strip device_id)) value_error
    pure (to_hex (c.hmac c.legacy_hmac_key message))

  -- `self._legacy_ref(legacy_device_id) if legacy_device_id else None`
  abbrev pub legacy_ref_of : Option Text → Action (Option Text)
  legacy_ref_of none = pure none
  legacy_ref_of (some device_id) =
      if is_blank device_id then pure none else (do ref ← legacy_ref device_id; pure (some ref))

  abbrev pub ref_metadata : Option Text → Dict Text Json
  ref_metadata none = []
  ref_metadata (some ref) = if is_blank ref then [] else (codes "legacy_device_ref", str ref) ∷ []

  -- The checks of a submission against its challenge
  unfoldable pub check_challenge : Challenge → Text → Submission → ℕ → Action (Unit {0})
  check_challenge challenge actor_ref s now = do
    same_actor ← compare challenge.actor_ref actor_ref
    require same_actor permission_error
    require (is_unused challenge) value_error
    require (ltb now challenge.expires_at) value_error
    nonce ← or_raise (hex_bytes s.nonce_hex 32) value_error
    same_nonce ← compare (to_hex (c.sha256 nonce)) challenge.nonce_hash
    require same_nonce value_error

  -- The phone's signature over the enrollment input
  unfoldable pub check_signature : Text → Submission → Action (Unit {0})
  check_signature tenant_id s = do
    payload ←
        or_raise (build_enrollment_input tenant_id s.enrollment_id s.nonce_hex s.public_key_hex 1)
          value_error
    public_key ← or_raise (hex_bytes s.public_key_hex 65) value_error
    signature ← or_raise (from_hex s.signature_hex) value_error
    valid ← of_try (verify_raw64 c.inverse c.sha256 public_key payload signature)
    require valid value_error

  abbrev pub submitted : Text → Submission → Option Text → ℕ → Credential
  submitted tenant_id s ref now = record {
    tenant_id = tenant_id;
    public_key_sec1 = s.public_key_hex;
    status = is_pending;
    expires_at = s.expires_at;
    legacy_device_ref = ref;
    min_protocol = s.min_protocol;
    max_protocol = s.max_protocol;
    created_at = now;
    updated_at = now;
  }

  -- The part of `submit_enrollment` behind the checks
  unfoldable pub enroll : Text → Submission → Text → ℕ → Action Text
  enroll tenant_id s actor_ref now = do
    credential_id ← token c 16
    ref ← legacy_ref_of s.legacy_device_id
    fresh ← transact (
        consume_challenge_and_insert_credential tenant_id s.enrollment_id actor_ref now
          credential_id (submitted tenant_id s ref now))
    require fresh value_error
    audit c tenant_id actor_ref (codes "CREDENTIAL_ENROLLED") (some credential_id)
        (ref_metadata ref)
    pure credential_id

  -- The result is the credential's id.
  unfoldable pub submit_enrollment : Text → Submission → Text → Option Text → Action Text
  submit_enrollment tenant_id s actor_ref actor_tenant_id = do
    active_tenant c tenant_id
    authorize_tenant tenant_id actor_tenant_id
    now ← time c
    found ← look (get_challenge tenant_id s.enrollment_id)
    challenge ← or_raise found lookup_error
    check_challenge challenge actor_ref s now
    check_signature tenant_id s
    require (leb 1 s.min_protocol && leb s.min_protocol s.max_protocol) value_error
    enroll tenant_id s actor_ref now

  -- `_set_status`; the status is a known one by its type.
  unfoldable pub set_status : Text → Text → CredentialStatus → Text → Text → Action (Unit {0})
  set_status tenant_id credential_id status actor_ref action = do
    existing_tenant tenant_id
    now ← time c
    changed ← write (set_credential_status tenant_id credential_id status now)
    require changed lookup_error
    audit c tenant_id actor_ref action (some credential_id) []

  unfoldable pub approve_credential : Text → Text → Text → Action (Unit {0})
  approve_credential tenant_id credential_id actor_ref = do
    active_tenant c tenant_id
    found ← look (get_credential tenant_id credential_id)
    row ← or_raise found lookup_error
    require (same_status row.status is_pending) value_error
    set_status tenant_id credential_id is_active actor_ref (codes "CREDENTIAL_APPROVED")

  unfoldable pub grant_credential_to_door : Text → Text → Text → Text → ℕ → Action (Unit {0})
  grant_credential_to_door tenant_id door_id credential_id actor_ref permissions = do
    active_tenant c tenant_id
    is_hex_of door_id 16
    require (permissions == 1) value_error
    found ← look (get_credential tenant_id credential_id)
    row ← or_raise found lookup_error
    now ← time c
    update (grant_credential tenant_id door_id credential_id permissions now)
    audit c tenant_id actor_ref (codes "CREDENTIAL_DOOR_GRANTED") (some credential_id)
        ((codes "door_id", str door_id) ∷ [])

  abbrev pub id_of : Option (Text × Credential) → Option Text
  id_of none = none
  id_of (some (credential_id, row)) = some credential_id

  unfoldable pub lookup_legacy_device : Text → Text → Action (Option Text)
  lookup_legacy_device tenant_id device_id =
      if c.legacy_lookup_enabled
      then (do
        ref ← legacy_ref device_id
        found ← look (find_by_legacy_ref tenant_id ref)
        pure (id_of found))
      else pure none
