-- ===== src/AclStore/History/Effects/Disabling.antt =====
-- The transaction that disables a tenant writes the tenants only, of what the history holds.
use smart_gatekeeper.Common.{
  ℕ, refl, Bool, true, false, Option, none, some, List, list_eq, nat_eq, pair_eq,
}
use smart_gatekeeper.Common.Dict.{lookup}
use smart_gatekeeper.Common.Text.{Text, codes}
use smart_gatekeeper.AclStore.{Dialect, sqlite, mysql, TenantStatus, active, disabled, Tenant, Db}
use smart_gatekeeper.AclStore.Snapshots.{append_audit}
use smart_gatekeeper.AclStore.Transitions.{
  disable_found, disable_tenant_and_queue, disable_legacy, disable_row, queue_all, affected_doors,
  pending_doors, disabled_metadata,
}
use smart_gatekeeper.AclStore.History.Frames.{append_audit-IsSameHistory}
use smart_gatekeeper.AclStore.History.Frames.Queues.{queue_all-IsSameHistory}
use smart_gatekeeper.AclStore.History.Effects.{
  IsTenantWrite, same_tenants, disable_row-IsDisabledKept, same-IsTenantWrite, IsTenantWrite-trans,
}

disable_legacy-IsTenantWrite :
    (dialect : Dialect) (tenant_id : Text) (db : Db)
    → IsTenantWrite db (disable_legacy dialect tenant_id db)
disable_legacy-IsTenantWrite sqlite tenant_id db = same_tenants db
disable_legacy-IsTenantWrite mysql tenant_id db =
    same-IsTenantWrite db (disable_legacy mysql tenant_id db) (refl, refl, refl, refl)

disable_active-IsTenantWrite :
    (tenant_id reason : Text) (now : ℕ) (actor_ref : Text) (doors : List Text) (row : Tenant)
    (db : Db)
    → IsTenantWrite db (
        append_audit tenant_id actor_ref
          (codes "TENANT_DISABLED")
          none
          disabled_metadata
          now
          (queue_all false tenant_id reason now doors (disable_row tenant_id now row db)))
disable_active-IsTenantWrite tenant_id reason now actor_ref doors row db =
    let off = disable_row tenant_id now row db in
    let queued = queue_all false tenant_id reason now doors off in
    let audited =
      append_audit tenant_id actor_ref (codes "TENANT_DISABLED") none disabled_metadata now
        queued in
    IsTenantWrite-trans db off audited
      (disable_row-IsDisabledKept tenant_id now row db, (refl, refl, refl))
      (IsTenantWrite-trans off queued audited
        (same-IsTenantWrite off queued
          (queue_all-IsSameHistory false tenant_id reason now doors off))
        (same-IsTenantWrite queued audited (
          append_audit-IsSameHistory tenant_id actor_ref (codes "TENANT_DISABLED") none
            disabled_metadata now queued)))

disable_found-IsTenantWrite :
    (dialect : Dialect) (tenant_id reason : Text) (now : ℕ) (actor_ref : Text) (o : Option Tenant)
    (db : Db)
    → IsTenantWrite db (disable_found dialect tenant_id reason now actor_ref o db).1
unfolding disable_found
disable_found-IsTenantWrite dialect tenant_id reason now actor_ref none db = same_tenants db
disable_found-IsTenantWrite dialect tenant_id reason now actor_ref (some row) db =
    by_status row.status
  where
    legacy : Db
    legacy = disable_legacy dialect tenant_id db

    by_status :
        (s : TenantStatus)
        → let r : Option (Bool × List Text) × Db = elim s [
          | disabled ↦ (some (false, pending_doors tenant_id legacy), legacy)
          | active ↦
              let doors = affected_doors tenant_id legacy in
              (
                some (true, doors),
                append_audit tenant_id actor_ref
                    (codes "TENANT_DISABLED")
                    none
                    disabled_metadata
                    now
                    (queue_all false tenant_id reason now doors
                      (disable_row tenant_id now row legacy)),
              )
        ] in
          IsTenantWrite db r.1
    by_status disabled = disable_legacy-IsTenantWrite dialect tenant_id db
    by_status active =
        IsTenantWrite-trans db legacy
          (append_audit tenant_id actor_ref (codes "TENANT_DISABLED") none disabled_metadata now (
            queue_all false tenant_id reason now (affected_doors tenant_id legacy)
              (disable_row tenant_id now row legacy)))
          (disable_legacy-IsTenantWrite dialect tenant_id db)
          (disable_active-IsTenantWrite tenant_id reason now actor_ref
            (affected_doors tenant_id legacy) row legacy)

pub disable-IsTenantWrite :
    (dialect : Dialect) (tenant_id reason : Text) (now : ℕ) (actor_ref : Text) (db : Db)
    → IsTenantWrite db (disable_tenant_and_queue dialect tenant_id reason now actor_ref db).1
unfolding disable_tenant_and_queue
disable-IsTenantWrite dialect tenant_id reason now actor_ref db =
    disable_found-IsTenantWrite dialect tenant_id reason now actor_ref
      (lookup tenant_id db.acl_tenants) db
