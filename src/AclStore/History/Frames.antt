-- ===== src/AclStore/History/Frames.antt =====
-- The transactions that leave the tenants, the challenges, the doors' versions and the snapshots alone.
pub mod Queues
use smart_gatekeeper.Common.{
  ℕ, refl, ◌∙◌, Bool, true, false, ◌&&◌, Option, none, some, List, [], ◌∷◌, if◌then◌else◌,
  Bool-cases, inl, inr, list_eq, nat_eq, pair_eq, ◌==◌,
}
use smart_gatekeeper.Common.Dict.{Dict, lookup}
use smart_gatekeeper.Common.Text.{Text}
use smart_gatekeeper.Common.Json.{Json}
use smart_gatekeeper.AclStore.{
  Door, CredentialStatus, Credential, Grant, Job, Ack, AckKey, AckStatus, Db,
}
use smart_gatekeeper.AclStore.Credentials.{
  update_status, get_credential, set_credential_status, same_status,
}
use smart_gatekeeper.AclStore.Grants.{
  grant_credential, revoked, revoke_grant, is_live, active_grant_doors,
}
use smart_gatekeeper.AclStore.Jobs.{
  queued_if_absent, expired, marked, deleted, snapshot_job, queue_snapshot_job,
  queue_snapshot_job_if_absent, supersede_snapshot_job, expire_snapshot_job_artifact,
  mark_snapshot_job_generated, delete_snapshot_job, is_generated,
}
use smart_gatekeeper.AclStore.Snapshots.{upserted, upsert_ack, same_answer, append_audit}
use smart_gatekeeper.AclStore.Transitions.{
  queue_all, set_and_queue, set_credential_status_and_queue, revoke_grant_and_queue,
}
use smart_gatekeeper.AclStore.History.{IsSameHistory}

pub IsSameHistory-refl : (a : Db) → IsSameHistory a a
IsSameHistory-refl a = (refl, refl, refl, refl)

pub IsSameHistory-trans : (a b c : Db) → IsSameHistory a b → IsSameHistory b c → IsSameHistory a c
IsSameHistory-trans a b c h k = (h.0 ∙ k.0, h.1 ∙ k.1, h.2 ∙ k.2, h.3 ∙ k.3)

update_status-IsSameHistory :
    (id : Text) (status : CredentialStatus) (now : ℕ) (o : Option Credential) (db : Db)
    → IsSameHistory db (update_status id status now o db).1
unfolding update_status
update_status-IsSameHistory id status now none db = IsSameHistory-refl db
update_status-IsSameHistory id status now (some row) db = IsSameHistory-refl db

pub set_credential_status-IsSameHistory :
    (tenant_id credential_id : Text) (status : CredentialStatus) (now : ℕ) (db : Db)
    → IsSameHistory db (set_credential_status tenant_id credential_id status now db).1
unfolding set_credential_status
set_credential_status-IsSameHistory tenant_id credential_id status now db =
    update_status-IsSameHistory credential_id status now (get_credential tenant_id credential_id db)
      db

pub grant_credential-IsSameHistory :
    (tenant_id door_id credential_id : Text) (permissions now : ℕ) (db : Db)
    → IsSameHistory db (grant_credential tenant_id door_id credential_id permissions now db)
unfolding grant_credential
grant_credential-IsSameHistory tenant_id door_id credential_id permissions now db =
    (refl, refl, refl, refl)

revoked-IsSameHistory :
    (key : Door × Text) (now : ℕ) (o : Option Grant) (db : Db)
    → IsSameHistory db (revoked key now o db).1
unfolding revoked
revoked-IsSameHistory key now none db = IsSameHistory-refl db
revoked-IsSameHistory key now (some row) db = elim (Bool-cases (is_live row)) [
  | inl live ↦ rw live (refl, refl, refl, refl)
  | inr ended ↦ rw ended (refl, refl, refl, refl)
]

pub queue-IsSameHistory :
    (tenant_id door_id reason : Text) (now : ℕ) (db : Db)
    → IsSameHistory db (queue_snapshot_job tenant_id door_id reason now db)
unfolding queue_snapshot_job
queue-IsSameHistory tenant_id door_id reason now db = (refl, refl, refl, refl)

pub supersede-IsSameHistory :
    (tenant_id door_id reason : Text) (now : ℕ) (db : Db)
    → IsSameHistory db (supersede_snapshot_job tenant_id door_id reason now db)
unfolding supersede_snapshot_job
supersede-IsSameHistory tenant_id door_id reason now db =
    queue-IsSameHistory tenant_id door_id reason now db

queued_if_absent-IsSameHistory :
    (tenant_id door_id reason : Text) (now : ℕ) (o : Option Job) (db : Db)
    → IsSameHistory db (queued_if_absent tenant_id door_id reason now o db)
unfolding queued_if_absent
queued_if_absent-IsSameHistory tenant_id door_id reason now none db = (refl, refl, refl, refl)
queued_if_absent-IsSameHistory tenant_id door_id reason now (some job) db = IsSameHistory-refl db

pub queue_if_absent-IsSameHistory :
    (tenant_id door_id reason : Text) (now : ℕ) (db : Db)
    → IsSameHistory db (queue_snapshot_job_if_absent tenant_id door_id reason now db)
unfolding queue_snapshot_job_if_absent
queue_if_absent-IsSameHistory tenant_id door_id reason now db =
    queued_if_absent-IsSameHistory tenant_id door_id reason now (snapshot_job tenant_id door_id db)
      db

expired-IsSameHistory :
    (tenant_id door_id : Text) (version revision : ℕ) (o : Option Job) (db : Db)
    → IsSameHistory db (expired tenant_id door_id version revision o db).1
unfolding expired
expired-IsSameHistory tenant_id door_id version revision none db = IsSameHistory-refl db
expired-IsSameHistory tenant_id door_id version revision (some job) db =
    elim (Bool-cases (is_generated version job && job.revision == revision)) [
      | inl same ↦ rw same (refl, refl, refl, refl)
      | inr other ↦ rw other (refl, refl, refl, refl)
    ]

pub expire-IsSameHistory :
    (tenant_id door_id : Text) (version revision : ℕ) (db : Db)
    → IsSameHistory db (expire_snapshot_job_artifact tenant_id door_id version revision db).1
unfolding expire_snapshot_job_artifact
expire-IsSameHistory tenant_id door_id version revision db =
    expired-IsSameHistory tenant_id door_id version revision (snapshot_job tenant_id door_id db) db

marked-IsSameHistory :
    (tenant_id door_id : Text) (version revision : ℕ) (o : Option Job) (db : Db)
    → IsSameHistory db (marked tenant_id door_id version revision o db).1
unfolding marked
marked-IsSameHistory tenant_id door_id version revision none db = IsSameHistory-refl db
marked-IsSameHistory tenant_id door_id version revision (some job) db =
    elim (Bool-cases (job.revision == revision)) [
      | inl same ↦ rw same (refl, refl, refl, refl)
      | inr other ↦ rw other (refl, refl, refl, refl)
    ]

pub mark-IsSameHistory :
    (tenant_id door_id : Text) (version revision : ℕ) (db : Db)
    → IsSameHistory db (mark_snapshot_job_generated tenant_id door_id version revision db).1
unfolding mark_snapshot_job_generated
mark-IsSameHistory tenant_id door_id version revision db =
    marked-IsSameHistory tenant_id door_id version revision (snapshot_job tenant_id door_id db) db

deleted-IsSameHistory :
    (tenant_id door_id : Text) (revision : ℕ) (o : Option Job) (db : Db)
    → IsSameHistory db (deleted tenant_id door_id revision o db).1
unfolding deleted
deleted-IsSameHistory tenant_id door_id revision none db = IsSameHistory-refl db
deleted-IsSameHistory tenant_id door_id revision (some job) db =
    elim (Bool-cases (job.revision == revision)) [
      | inl same ↦ rw same (refl, refl, refl, refl)
      | inr other ↦ rw other (refl, refl, refl, refl)
    ]

pub delete-IsSameHistory :
    (tenant_id door_id : Text) (revision : ℕ) (db : Db)
    → IsSameHistory db (delete_snapshot_job tenant_id door_id revision db).1
unfolding delete_snapshot_job
delete-IsSameHistory tenant_id door_id revision db =
    deleted-IsSameHistory tenant_id door_id revision (snapshot_job tenant_id door_id db) db

upserted-IsSameHistory :
    (key : AckKey) (status : AckStatus) (now : ℕ) (o : Option Ack) (db : Db)
    → IsSameHistory db (upserted key status now o db).1
unfolding upserted
upserted-IsSameHistory key status now none db = (refl, refl, refl, refl)
upserted-IsSameHistory key status now (some ack) db =
    elim (Bool-cases (same_answer ack.status status)) [
      | inl same ↦ rw same (refl, refl, refl, refl)
      | inr other ↦ rw other (refl, refl, refl, refl)
    ]

pub upsert_ack-IsSameHistory :
    (key : AckKey) (status : AckStatus) (now : ℕ) (db : Db)
    → IsSameHistory db (upsert_ack key status now db).1
unfolding upsert_ack
upsert_ack-IsSameHistory key status now db =
    upserted-IsSameHistory key status now (lookup key db.acks) db

pub append_audit-IsSameHistory :
    (tenant_id actor_ref action : Text) (credential_id : Option Text) (metadata : Dict Text Json)
    (now : ℕ) (db : Db)
    → IsSameHistory db (append_audit tenant_id actor_ref action credential_id metadata now db)
unfolding append_audit
append_audit-IsSameHistory tenant_id actor_ref action credential_id metadata now db =
    (refl, refl, refl, refl)
