-- ===== src/Examples/Storing.antt =====
-- Transactions of the store of access lists in backend/app/acl_management.py.
use smart_gatekeeper.Common.{◌≡◌, refl, true, false, [], ◌∷◌, list_eq, nat_eq, pair_eq, arith}
use smart_gatekeeper.Common.Dict.{lookup, set_item}
use smart_gatekeeper.Common.Text.{codes}
use smart_gatekeeper.AclStore.{ok, active, is_revoked, AckKey, applied, Db}
use smart_gatekeeper.AclStore.Credentials.{get_credential}
use smart_gatekeeper.AclStore.Grants.{sort_onto, order_by, active_grant_doors}
use smart_gatekeeper.AclStore.Jobs.{
  snapshot_job, queue_snapshot_job, delete_snapshot_job, mark_snapshot_job_generated,
  expire_snapshot_job_artifact,
}
use smart_gatekeeper.AclStore.Jobs.Durable.{stale_worker_changes_nothing}
use smart_gatekeeper.AclStore.Snapshots.{upsert_ack, upserted}
use smart_gatekeeper.AclStore.Snapshots.Acks.{upsert_ack-again}
use smart_gatekeeper.AclStore.Transitions.{set_and_queue, set_credential_status_and_queue}
use smart_gatekeeper.AclStore.Transitions.Ended.{IsEnded, set_credential_status_and_queue-IsEnded}
use smart_gatekeeper.Examples.Serving.{tenant, door, phone, stocked}

set_credential_status_and_queue-IsEnded_example :
    IsEnded tenant phone
      (stocked active)
      (set_credential_status_and_queue tenant phone is_revoked
        (codes "CREDENTIAL_REVOKED")
        9
        (stocked active)).1
unfolding set_credential_status_and_queue set_and_queue get_credential active_grant_doors order_by
    sort_onto lookup
set_credential_status_and_queue-IsEnded_example =
    set_credential_status_and_queue-IsEnded tenant phone is_revoked (codes "CREDENTIAL_REVOKED") 9
      (stocked active) (door ∷ [])
      (set_credential_status_and_queue tenant phone is_revoked (codes "CREDENTIAL_REVOKED") 9
        (stocked active)).1
      refl refl

abbrev queued : Db
queued = queue_snapshot_job tenant door (codes "ACL_LEASE_REFRESH") 7 (stocked active)

abbrev requeued : Db
requeued = queue_snapshot_job tenant door (codes "CREDENTIAL_REVOKED") 9 queued

stale_worker_changes_nothing_example :
    (delete_snapshot_job tenant door 1 requeued ≡ (false, requeued))
    × (mark_snapshot_job_generated tenant door 4 1 requeued ≡ (false, requeued))
    × (expire_snapshot_job_artifact tenant door 4 1 requeued ≡ (false, requeued))
unfolding queue_snapshot_job snapshot_job lookup set_item
stale_worker_changes_nothing_example =
    stale_worker_changes_nothing tenant door (codes "CREDENTIAL_REVOKED") 9 1 4 queued (omega arith)

abbrev answer : AckKey
answer = ((((tenant, door), codes "T1"), 4), codes "01")

upsert_ack-again_example :
    upsert_ack answer applied 30 (upsert_ack answer applied 20 (stocked active)).1
    ≡ (ok (1, true), (upsert_ack answer applied 20 (stocked active)).1)
unfolding upsert_ack upserted lookup
upsert_ack-again_example =
    upsert_ack-again answer applied 20 30 (stocked active) 1 false
      (upsert_ack answer applied 20 (stocked active)).1 refl
