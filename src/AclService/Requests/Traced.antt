-- ===== src/AclService/Requests/Traced.antt =====
-- Whatever is asked of the service, it runs transactions of the history.
use smart_gatekeeper.Common.{ℕ, Option, none, some, List, [], ◌∷◌}
use smart_gatekeeper.Common.Text.{Text}
use smart_gatekeeper.AclStore.{CredentialStatus, is_disabled, is_revoked, AckStatus, Job}
use smart_gatekeeper.AclStore.History.{aside, tenant_disabled, Run, stop, Run-append}
use smart_gatekeeper.AclStore.History.Frames.{upsert_ack-IsSameHistory}
use smart_gatekeeper.AclStore.History.Frames.Queues.{
  set_status_and_queue-IsSameHistory, revoke_and_queue-IsSameHistory,
}
use smart_gatekeeper.AclService.{Config, World}
use smart_gatekeeper.AclService.Revoking.{
  remove_credential_from_door, disable_tenant, end_credential, disable_credential,
  revoke_credential,
}
use smart_gatekeeper.AclService.Reading.{recover, pull_snapshot, ack_snapshot}
use smart_gatekeeper.AclService.Requests.{
  Request, to_register, to_challenge, to_submit, to_approve, to_grant, to_publish, to_refresh,
  to_remove, to_disable_tenant, to_disable, to_revoke, to_pull, to_ack, serve, serve_all,
}
use smart_gatekeeper.AclService.Traces.{
  IsTraced, write-IsTraced, transact-IsTraced, traced, tenant_traced,
}
use smart_gatekeeper.AclService.Traces.Enrolling.{
  register_tenant-IsTraced, issue-IsTraced, submit-IsTraced, approve-IsTraced, grant-IsTraced,
}
use smart_gatekeeper.AclService.Traces.Publishing.{
  publish_snapshot-IsTraced, replacements-IsTraced, first-IsTraced, refresh-IsTraced,
}

module _ (c : Config) where
  remove-IsTraced :
      (tenant_id door_id credential_id actor_ref : Text)
      → IsTraced c (remove_credential_from_door c tenant_id door_id credential_id actor_ref)
  unfolding remove_credential_from_door
  remove-IsTraced tenant_id door_id credential_id actor_ref =
      search
        (
          tenant_traced, write-IsTraced, aside, revoke_and_queue-IsSameHistory,
          replacements-IsTraced, first-IsTraced,
        )
        depth 20

  disable_tenant-IsTraced :
      (tenant_id actor_ref : Text) (actor : Option Text)
      → IsTraced c (disable_tenant c tenant_id actor_ref actor)
  unfolding disable_tenant
  disable_tenant-IsTraced tenant_id actor_ref actor =
      search (tenant_traced, write-IsTraced, tenant_disabled, replacements-IsTraced) depth 20

  end_credential-IsTraced :
      (status : CredentialStatus) (action tenant_id credential_id actor_ref : Text)
      → IsTraced c (end_credential c status action tenant_id credential_id actor_ref)
  unfolding end_credential
  end_credential-IsTraced status action tenant_id credential_id actor_ref =
      search
        (
          tenant_traced, write-IsTraced, aside, set_status_and_queue-IsSameHistory,
          replacements-IsTraced,
        )
        depth 20

  disable_credential-IsTraced :
      (tenant_id credential_id actor_ref : Text)
      → IsTraced c (disable_credential c tenant_id credential_id actor_ref)
  unfolding disable_credential
  disable_credential-IsTraced tenant_id credential_id actor_ref =
      end_credential-IsTraced is_disabled _ tenant_id credential_id actor_ref

  revoke_credential-IsTraced :
      (tenant_id credential_id actor_ref : Text)
      → IsTraced c (revoke_credential c tenant_id credential_id actor_ref)
  unfolding revoke_credential
  revoke_credential-IsTraced tenant_id credential_id actor_ref =
      end_credential-IsTraced is_revoked _ tenant_id credential_id actor_ref

  recover-IsTraced :
      (tenant_id door_id : Text) (job : Option Job) → IsTraced c (recover c tenant_id door_id job)
  unfolding recover
  recover-IsTraced tenant_id door_id none = search traced
  recover-IsTraced tenant_id door_id (some job) = search (traced, replacements-IsTraced) depth 20

  pull-IsTraced : (tenant_id door_id : Text) → IsTraced c (pull_snapshot c tenant_id door_id)
  unfolding pull_snapshot
  pull-IsTraced tenant_id door_id = search (tenant_traced, recover-IsTraced) depth 20

  ack-IsTraced :
      (tenant_id target_id door_id : Text) (version : ℕ) (digest : Text) (status : Option AckStatus)
      → IsTraced c (ack_snapshot c tenant_id target_id door_id version digest status)
  unfolding ack_snapshot
  ack-IsTraced tenant_id target_id door_id version digest status =
      search (tenant_traced, transact-IsTraced, aside, upsert_ack-IsSameHistory) depth 20

  serve-Run : (r : Request) (w : World) → Run c.dialect w.db (serve c r w).db
  unfolding serve IsTraced
  serve-Run (to_register t name id actor) w = register_tenant-IsTraced c t name id actor w
  serve-Run (to_challenge t actor tenant) w = issue-IsTraced c t actor tenant w
  serve-Run (to_submit t s actor tenant) w = submit-IsTraced c t s actor tenant w
  serve-Run (to_approve t credential actor) w = approve-IsTraced c t credential actor w
  serve-Run (to_grant t door credential actor permissions) w =
      grant-IsTraced c t door credential actor permissions w
  serve-Run (to_publish t door actor low high) w =
      publish_snapshot-IsTraced c t door actor low high w
  serve-Run (to_refresh t door actor reason) w = refresh-IsTraced c t door actor reason w
  serve-Run (to_remove t door credential actor) w = remove-IsTraced t door credential actor w
  serve-Run (to_disable_tenant t actor tenant) w = disable_tenant-IsTraced t actor tenant w
  serve-Run (to_disable t credential actor) w = disable_credential-IsTraced t credential actor w
  serve-Run (to_revoke t credential actor) w = revoke_credential-IsTraced t credential actor w
  serve-Run (to_pull t door) w = pull-IsTraced t door w
  serve-Run (to_ack t target door version digest status) w =
      ack-IsTraced t target door version digest status w

  pub serve_all-Run : (rs : List Request) (w : World) → Run c.dialect w.db (serve_all c rs w).db
  unfolding serve_all
  serve_all-Run [] w = stop w.db
  serve_all-Run (r ∷ rs) w = Run-append (serve-Run r w) (serve_all-Run rs (serve c r w))
