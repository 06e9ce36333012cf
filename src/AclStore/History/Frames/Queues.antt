-- ===== src/AclStore/History/Frames/Queues.antt =====
-- The transactions that queue snapshots leave the tenants, the challenges, the versions and the
-- snapshots alone.
use smart_gatekeeper.Common.{
  ℕ, Bool, true, false, Option, none, some, List, [], ◌∷◌, if◌then◌else◌, Bool-cases, inl, inr,
  list_eq, nat_eq, pair_eq,
}
use smart_gatekeeper.Common.Dict.{lookup}
use smart_gatekeeper.Common.Text.{Text}
use smart_gatekeeper.AclStore.{CredentialStatus, Credential, Db}
use smart_gatekeeper.AclStore.Credentials.{get_credential, set_credential_status, same_status}
use smart_gatekeeper.AclStore.Grants.{revoke_grant, active_grant_doors}
use smart_gatekeeper.AclStore.Jobs.{queue_snapshot_job, queue_snapshot_job_if_absent}
use smart_gatekeeper.AclStore.Transitions.{
  queue_all, set_and_queue, set_credential_status_and_queue, revoke_grant_and_queue,
}
use smart_gatekeeper.AclStore.History.{IsSameHistory}
use smart_gatekeeper.AclStore.History.Frames.{
  IsSameHistory-refl, IsSameHistory-trans, set_credential_status-IsSameHistory,
  revoked-IsSameHistory, queue-IsSameHistory, queue_if_absent-IsSameHistory,
}

queue_one-IsSameHistory :
    (preserve : Bool) (tenant_id door_id reason : Text) (now : ℕ) (db : Db)
    → IsSameHistory db (
        if preserve
        then queue_snapshot_job_if_absent tenant_id door_id reason now db
        else queue_snapshot_job tenant_id door_id reason now db)
queue_one-IsSameHistory true tenant_id door_id reason now db =
    queue_if_absent-IsSameHistory tenant_id door_id reason now db
queue_one-IsSameHistory false tenant_id door_id reason now db =
    queue-IsSameHistory tenant_id door_id reason now db

pub queue_all-IsSameHistory :
    (preserve : Bool) (tenant_id reason : Text) (now : ℕ) (doors : List Text) (db : Db)
    → IsSameHistory db (queue_all preserve tenant_id reason now doors db)
unfolding queue_all
queue_all-IsSameHistory preserve tenant_id reason now [] db = IsSameHistory-refl db
queue_all-IsSameHistory preserve tenant_id reason now (door ∷ doors) db =
    let queued =
      if preserve
      then queue_snapshot_job_if_absent tenant_id door reason now db
      else queue_snapshot_job tenant_id door reason now db in
    IsSameHistory-trans db queued (queue_all preserve tenant_id reason now doors queued)
      (queue_one-IsSameHistory preserve tenant_id door reason now db)
      (queue_all-IsSameHistory preserve tenant_id reason now doors queued)

set_and_queue-IsSameHistory :
    (tenant_id credential_id : Text) (status : CredentialStatus) (reason : Text) (now : ℕ)
    (o : Option Credential) (db : Db)
    → IsSameHistory db (set_and_queue tenant_id credential_id status reason now o db).1
unfolding set_and_queue
set_and_queue-IsSameHistory tenant_id credential_id status reason now none db =
    IsSameHistory-refl db
set_and_queue-IsSameHistory tenant_id credential_id status reason now (some row) db =
    let doors = active_grant_doors tenant_id credential_id db in
    let ended = (set_credential_status tenant_id credential_id status now db).1 in
    elim (Bool-cases (same_status row.status status)) [
      | inl same ↦ rw same (queue_all-IsSameHistory true tenant_id reason now doors db)
      | inr other ↦ rw other (
          IsSameHistory-trans db ended (queue_all false tenant_id reason now doors ended)
            (set_credential_status-IsSameHistory tenant_id credential_id status now db)
            (queue_all-IsSameHistory false tenant_id reason now doors ended))
    ]

pub set_status_and_queue-IsSameHistory :
    (tenant_id credential_id : Text) (status : CredentialStatus) (reason : Text) (now : ℕ) (db : Db)
    → IsSameHistory db
        (set_credential_status_and_queue tenant_id credential_id status reason now db).1
unfolding set_credential_status_and_queue
set_status_and_queue-IsSameHistory tenant_id credential_id status reason now db =
    set_and_queue-IsSameHistory tenant_id credential_id status reason now
      (get_credential tenant_id credential_id db) db

pub revoke_grant-IsSameHistory :
    (tenant_id door_id credential_id : Text) (now : ℕ) (db : Db)
    → IsSameHistory db (revoke_grant tenant_id door_id credential_id now db).1
unfolding revoke_grant
revoke_grant-IsSameHistory tenant_id door_id credential_id now db =
    revoked-IsSameHistory ((tenant_id, door_id), credential_id) now
      (lookup ((tenant_id, door_id), credential_id) db.grants) db

pub revoke_and_queue-IsSameHistory :
    (tenant_id door_id credential_id reason : Text) (now : ℕ) (db : Db)
    → IsSameHistory db (revoke_grant_and_queue tenant_id door_id credential_id reason now db).1
unfolding revoke_grant_and_queue
revoke_and_queue-IsSameHistory tenant_id door_id credential_id reason now db =
    let ended = (revoke_grant tenant_id door_id credential_id now db).1 in
    elim (Bool-cases (revoke_grant tenant_id door_id credential_id now db).0) [
      | inl changed ↦ rw changed (
          IsSameHistory-trans db ended (queue_snapshot_job tenant_id door_id reason now ended)
            (revoke_grant-IsSameHistory tenant_id door_id credential_id now db)
            (queue-IsSameHistory tenant_id door_id reason now ended))
      | inr kept ↦ rw kept (IsSameHistory-refl db)
    ]
