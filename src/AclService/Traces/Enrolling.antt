-- ===== src/AclService/Traces/Enrolling.antt =====
-- The enrolling methods of the service run transactions of the history.
use smart_gatekeeper.Common.{ℕ, Option, none, some, Bool-cases, inl, inr}
use smart_gatekeeper.Common.Text.{Text}
use smart_gatekeeper.Acl.Receipts.{is_blank}
use smart_gatekeeper.AclStore.{CredentialStatus, Challenge}
use smart_gatekeeper.AclStore.History.{aside, registered, challenged, enrolled}
use smart_gatekeeper.AclStore.History.Frames.{
  set_credential_status-IsSameHistory, grant_credential-IsSameHistory,
}
use smart_gatekeeper.AclService.{Config}
use smart_gatekeeper.AclService.Enrolling.{
  Submission, register_tenant, issue_enrollment_challenge, legacy_ref, legacy_ref_of,
  check_challenge, check_signature, enroll, submit_enrollment, set_status, approve_credential,
  grant_credential_to_door,
}
use smart_gatekeeper.AclService.Traces.{
  IsTraced, write-IsTraced, transact-IsTraced, update-IsTraced, traced, tenant_traced,
}

module _ (c : Config) where
  pub register_tenant-IsTraced :
      (tenant_id display_name : Text) (id : ℕ) (actor_ref : Text)
      → IsTraced c (register_tenant c tenant_id display_name id actor_ref)
  unfolding register_tenant
  register_tenant-IsTraced tenant_id display_name id actor_ref =
      search (traced, transact-IsTraced, registered) depth 20

  pub issue-IsTraced :
      (tenant_id actor_ref : Text) (actor : Option Text)
      → IsTraced c (issue_enrollment_challenge c tenant_id actor_ref actor)
  unfolding issue_enrollment_challenge
  issue-IsTraced tenant_id actor_ref actor =
      search (tenant_traced, transact-IsTraced, challenged) depth 20

  legacy_ref-IsTraced : (device : Text) → IsTraced c (legacy_ref c device)
  unfolding legacy_ref
  legacy_ref-IsTraced device = search traced depth 20

  legacy_ref_of-IsTraced : (device : Option Text) → IsTraced c (legacy_ref_of c device)
  legacy_ref_of-IsTraced none = search traced depth 20
  legacy_ref_of-IsTraced (some device) = elim (Bool-cases (is_blank device)) [
    | inl blank ↦ rw blank (search traced depth 20)
    | inr given ↦ rw given (search (traced, legacy_ref-IsTraced) depth 20)
  ]

  check_challenge-IsTraced :
      (challenge : Challenge) (actor_ref : Text) (s : Submission) (now : ℕ)
      → IsTraced c (check_challenge c challenge actor_ref s now)
  unfolding check_challenge
  check_challenge-IsTraced challenge actor_ref s now = search traced depth 20

  check_signature-IsTraced :
      (tenant_id : Text) (s : Submission) → IsTraced c (check_signature c tenant_id s)
  unfolding check_signature
  check_signature-IsTraced tenant_id s = search traced depth 20

  enroll-IsTraced :
      (tenant_id : Text) (s : Submission) (actor_ref : Text) (now : ℕ)
      → IsTraced c (enroll c tenant_id s actor_ref now)
  unfolding enroll
  enroll-IsTraced tenant_id s actor_ref now =
      search (traced, legacy_ref_of-IsTraced, transact-IsTraced, enrolled) depth 20

  pub submit-IsTraced :
      (tenant_id : Text) (s : Submission) (actor_ref : Text) (actor : Option Text)
      → IsTraced c (submit_enrollment c tenant_id s actor_ref actor)
  unfolding submit_enrollment
  submit-IsTraced tenant_id s actor_ref actor =
      search (tenant_traced, check_challenge-IsTraced, check_signature-IsTraced, enroll-IsTraced)
        depth 20

  set_status-IsTraced :
      (tenant_id credential_id : Text) (status : CredentialStatus) (actor_ref action : Text)
      → IsTraced c (set_status c tenant_id credential_id status actor_ref action)
  unfolding set_status
  set_status-IsTraced tenant_id credential_id status actor_ref action =
      search (tenant_traced, write-IsTraced, aside, set_credential_status-IsSameHistory) depth 20

  pub approve-IsTraced :
      (tenant_id credential_id actor_ref : Text)
      → IsTraced c (approve_credential c tenant_id credential_id actor_ref)
  unfolding approve_credential
  approve-IsTraced tenant_id credential_id actor_ref =
      search (tenant_traced, set_status-IsTraced) depth 20

  pub grant-IsTraced :
      (tenant_id door_id credential_id actor_ref : Text) (permissions : ℕ)
      → IsTraced c
          (grant_credential_to_door c tenant_id door_id credential_id actor_ref permissions)
  unfolding grant_credential_to_door
  grant-IsTraced tenant_id door_id credential_id actor_ref permissions =
      search (tenant_traced, update-IsTraced, grant_credential-IsSameHistory) depth 20
