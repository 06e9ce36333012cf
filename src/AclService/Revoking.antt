-- ===== src/AclService/Revoking.antt =====
-- The methods of `AclManagementService` of backend/app/acl_management.py that end an access.
use smart_gatekeeper.Common.{ℕ, Bool, true, not, Option, some, List, [], ◌∷◌}
use smart_gatekeeper.Common.Text.{Text, codes}
use smart_gatekeeper.Common.Json.{str}
use smart_gatekeeper.Acl.Envelope.{Envelope}
use smart_gatekeeper.AclStore.{lookup_error, CredentialStatus, is_disabled, is_revoked}
use smart_gatekeeper.AclStore.Transitions.{
  set_credential_status_and_queue, revoke_grant_and_queue, disable_tenant_and_queue,
}
use smart_gatekeeper.AclService.{
  Config, Action, pure, write, or_raise, ◌>>=◌, ◌>>◌, require, is_hex_of, existing_tenant,
  authorize_tenant, time, audit,
}
use smart_gatekeeper.AclService.Publishing.{publish_replacements, first}

module _ (c : Config) where
  -- The result is the version of the replacement.
  unfoldable pub remove_credential_from_door : Text → Text → Text → Text → Action ℕ
  remove_credential_from_door tenant_id door_id credential_id actor_ref = do
    existing_tenant tenant_id
    is_hex_of door_id 16
    now ← time c
    changed ← write (
        revoke_grant_and_queue tenant_id door_id credential_id (codes "CREDENTIAL_DOOR_REMOVED")
          now)
    require changed lookup_error
    audit c tenant_id actor_ref (codes "CREDENTIAL_DOOR_REMOVED") (some credential_id)
        ((codes "door_id", str door_id) ∷ [])
    envelopes ← publish_replacements c tenant_id actor_ref true (door_id ∷ [])
    envelope ← first c envelopes
    pure envelope.fields.acl_version

  -- The result is `already_disabled` and the replacements.
  unfoldable pub disable_tenant : Text → Text → Option Text → Action (Bool × List Envelope)
  disable_tenant tenant_id actor_ref actor_tenant_id = do
    existing_tenant tenant_id
    authorize_tenant tenant_id actor_tenant_id
    now ← time c
    transition ←
        write (disable_tenant_and_queue c.dialect tenant_id (codes "TENANT_DISABLED") now actor_ref)
    found ← or_raise transition lookup_error
    envelopes ← publish_replacements c tenant_id actor_ref true found.1
    pure (not found.0, envelopes)

  -- The common body of `disable_credential` and `revoke_credential`
  unfoldable pub end_credential :
      CredentialStatus → Text → Text → Text → Text → Action (List Envelope)
  end_credential status action tenant_id credential_id actor_ref = do
    existing_tenant tenant_id
    now ← time c
    transition ← write (set_credential_status_and_queue tenant_id credential_id status action now)
    doors ← or_raise transition lookup_error
    audit c tenant_id actor_ref action (some credential_id) []
    publish_replacements c tenant_id actor_ref true doors

  unfoldable pub disable_credential : Text → Text → Text → Action (List Envelope)
  disable_credential tenant_id credential_id actor_ref =
      end_credential is_disabled (codes "CREDENTIAL_DISABLED") tenant_id credential_id actor_ref

  unfoldable pub revoke_credential : Text → Text → Text → Action (List Envelope)
  revoke_credential tenant_id credential_id actor_ref =
      end_credential is_revoked (codes "CREDENTIAL_REVOKED") tenant_id credential_id actor_ref
