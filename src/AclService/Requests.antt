-- ===== src/AclService/Requests.antt =====
-- The service as its callers see it: requests, one after the other, each served by its method. A method
-- that raises leaves the world that it has reached.
pub mod Traced
pub mod Lasting
pub mod Once
use smart_gatekeeper.Common.{ℕ, Bool, Option, List, [], ◌∷◌}
use smart_gatekeeper.Common.Text.{Text}
use smart_gatekeeper.AclStore.{AckStatus}
use smart_gatekeeper.AclService.{Config, World, Action}
use smart_gatekeeper.AclService.Enrolling.{
  Submission, register_tenant, issue_enrollment_challenge, submit_enrollment, approve_credential,
  grant_credential_to_door,
}
use smart_gatekeeper.AclService.Publishing.{publish_snapshot, refresh_snapshot}
use smart_gatekeeper.AclService.Revoking.{
  remove_credential_from_door, disable_tenant, disable_credential, revoke_credential,
}
use smart_gatekeeper.AclService.Reading.{pull_snapshot, ack_snapshot}

-- The methods that write, with their arguments
pub data Request : Type 0 where
  to_register : Text → Text → ℕ → Text → Request
  to_challenge : Text → Text → Option Text → Request
  to_submit : Text → Submission → Text → Option Text → Request
  to_approve : Text → Text → Text → Request
  to_grant : Text → Text → Text → Text → ℕ → Request
  to_publish : Text → Text → Text → ℕ → ℕ → Request
  to_refresh : Text → Text → Text → Text → Request
  to_remove : Text → Text → Text → Text → Request
  to_disable_tenant : Text → Text → Option Text → Request
  to_disable : Text → Text → Text → Request
  to_revoke : Text → Text → Text → Request
  to_pull : Text → Text → Request
  to_ack : Text → Text → Text → ℕ → Text → Option AckStatus → Request

module _ (c : Config) where
  unfoldable pub serve : Request → World → World
  serve (to_register t name id actor) w = (register_tenant c t name id actor w).1
  serve (to_challenge t actor tenant) w = (issue_enrollment_challenge c t actor tenant w).1
  serve (to_submit t s actor tenant) w = (submit_enrollment c t s actor tenant w).1
  serve (to_approve t credential actor) w = (approve_credential c t credential actor w).1
  serve (to_grant t door credential actor permissions) w =
      (grant_credential_to_door c t door credential actor permissions w).1
  serve (to_publish t door actor low high) w = (publish_snapshot c t door actor low high w).1
  serve (to_refresh t door actor reason) w = (refresh_snapshot c t door actor reason w).1
  serve (to_remove t door credential actor) w =
      (remove_credential_from_door c t door credential actor w).1
  serve (to_disable_tenant t actor tenant) w = (disable_tenant c t actor tenant w).1
  serve (to_disable t credential actor) w = (disable_credential c t credential actor w).1
  serve (to_revoke t credential actor) w = (revoke_credential c t credential actor w).1
  serve (to_pull t door) w = (pull_snapshot c t door w).1
  serve (to_ack t target door version digest status) w =
      (ack_snapshot c t target door version digest status w).1

  unfoldable pub serve_all : List Request → World → World
  serve_all [] w = w
  serve_all (r ∷ rs) w = serve_all rs (serve r w)
