-- ===== src/AclStore/History/Effects.antt =====
-- What each of the transactions that write the history changes, and what it leaves alone.
pub mod Disabling
use smart_gatekeeper.Common.{
  ℕ, ◌≡◌, refl, ap, ◌∙◌, Bool, true, false, ◌&&◌, not, Option, none, some, List, if◌then◌else◌,
  Bool-cases, inl, inr, list_eq, nat_eq, pair_eq, list_beq, list_beq_iff, ◌==◌, some_of,
}
use smart_gatekeeper.Common.Dict.{lookup, set_item, lookup-set_item}
use smart_gatekeeper.Common.Text.{Text, codes}
use smart_gatekeeper.Acl.{Bytes, hex_bytes}
use smart_gatekeeper.AclStore.{
  Dialect, sqlite, mysql, Result, ok, failed, value_error, TenantStatus, active, disabled,
  LegacyTenant, Tenant, Db,
}
use smart_gatekeeper.AclStore.Tenants.{
  upserted_tenant, upsert_tenant, create_tenant, register_row, register_legacy_tenant,
  tenant_status, is_mapped_elsewhere, has_uuid,
}
use smart_gatekeeper.AclStore.Snapshots.{append_audit}
use smart_gatekeeper.AclStore.Transitions.{
  disable_found, disable_tenant_and_queue, disable_legacy, disable_row, queue_all, affected_doors,
  pending_doors, disabled_metadata,
}
use smart_gatekeeper.AclStore.History.{IsSameHistory}
use smart_gatekeeper.AclStore.History.Frames.{append_audit-IsSameHistory}
use smart_gatekeeper.AclStore.History.Frames.Queues.{queue_all-IsSameHistory}

-- The tables other than the tenants
abbrev pub IsSameDoors : Db → Db → Type 0
IsSameDoors a b =
    (a.challenges ≡ b.challenges) × (a.door_states ≡ b.door_states) × (a.snapshots ≡ b.snapshots)

-- A tenant that is DISABLED stays so.
abbrev pub IsDisabledKept : Db → Db → Type 0
IsDisabledKept a b =
    (tenant_id : Text)
    → tenant_status tenant_id a ≡ some disabled
    → tenant_status tenant_id b ≡ some disabled

pub disabled_row :
    (tenant_id : Text) (db : Db)
    → tenant_status tenant_id db ≡ some disabled
    → (row : Tenant) × (lookup tenant_id db.acl_tenants ≡ some row) × (row.status ≡ disabled)
unfolding tenant_status
disabled_row tenant_id db h = by_row (lookup tenant_id db.acl_tenants) h
  where
    by_row :
        (o : Option Tenant)
        → (elim o [ none ↦ none | some row ↦ some row.status ]) ≡ some disabled
        → (row : Tenant) × (o ≡ some row) × (row.status ≡ disabled)
    by_row none h = cc
    by_row (some row) h = (row, refl, cc)

status_found :
    (tenant_id : Text) (db : Db) (row : Tenant)
    → lookup tenant_id db.acl_tenants ≡ some row
    → row.status ≡ disabled
    → tenant_status tenant_id db ≡ some disabled
unfolding tenant_status
status_found tenant_id db row h k = rw (tenant_status, h) (ap (λ s. some s) k)

upserted-status :
    (dialect : Dialect) (display_name : Text) (status : TenantStatus) (now : ℕ) (row : Tenant)
    → (upserted_tenant dialect display_name status now (some row)).status ≡ row.status
upserted-status sqlite display_name status now row = refl
upserted-status mysql display_name status now row = refl

upsert-IsDisabledKept :
    (dialect : Dialect) (id display_name : Text) (status : TenantStatus) (now : ℕ) (db : Db)
    → IsDisabledKept db (upsert_tenant dialect id display_name status now db)
unfolding upsert_tenant
upsert-IsDisabledKept dialect id display_name status now db tenant_id h =
    let (row, found, off) = disabled_row tenant_id db h in
    let after = upsert_tenant dialect id display_name status now db in
    let new = upserted_tenant dialect display_name status now (lookup id db.acl_tenants) in
    let looked = lookup-set_item id tenant_id new db.acl_tenants in
    elim (Bool-cases (list_beq id tenant_id)) [
      | inl same ↦
          let q = (list_beq_iff id tenant_id).0 same in
          let found' : lookup id db.acl_tenants ≡ some row = rw q found in
          status_found tenant_id after new (rw same at looked)
            (rw found' (upserted-status dialect display_name status now row ∙ off))
      | inr other ↦ status_found tenant_id after row ((rw other at looked) ∙ found) off
    ]

-- What a write of the tenants does: it keeps who is DISABLED, and the other tables.
abbrev pub IsTenantWrite : Db → Db → Type 0
IsTenantWrite a b = IsDisabledKept a b × IsSameDoors a b

same_tenants : (db : Db) → IsTenantWrite db db
same_tenants db = ((λ tenant_id h. h), (refl, refl, refl))

upsert-IsTenantWrite :
    (dialect : Dialect) (id display_name : Text) (status : TenantStatus) (now : ℕ) (db : Db)
    → IsTenantWrite db (upsert_tenant dialect id display_name status now db)
unfolding upsert_tenant
upsert-IsTenantWrite dialect id display_name status now db =
    (upsert-IsDisabledKept dialect id display_name status now db, (refl, refl, refl))

create-IsTenantWrite :
    (dialect : Dialect) (id display_name : Text) (now : ℕ) (db : Db)
    → IsTenantWrite db (create_tenant dialect id display_name now db).1
unfolding create_tenant
create-IsTenantWrite dialect id display_name now db = by_id (hex_bytes id 16)
  where
    by_id :
        (o : Option Bytes)
        → let r : Result (Unit {0}) × Db = elim o [
          | none ↦ (failed value_error, db)
          | some bytes ↦ (ok tt, upsert_tenant dialect id display_name active now db)
        ] in
          IsTenantWrite db r.1
    by_id none = same_tenants db
    by_id (some bytes) = upsert-IsTenantWrite dialect id display_name active now db

register_row-IsTenantWrite :
    (id : ℕ) (tenant_id display_name : Text) (now : ℕ) (o : Option LegacyTenant) (db : Db)
    → IsTenantWrite db (register_row id tenant_id display_name now o db).1
unfolding register_row tenant_status
register_row-IsTenantWrite id tenant_id display_name now none db = same_tenants db
register_row-IsTenantWrite id tenant_id display_name now (some row) db =
    let mapped = record db {
      tenants = set_item id (record row { tenant_uuid = some tenant_id }) db.tenants;
    } in
    elim (Bool-cases (is_mapped_elsewhere row.tenant_uuid tenant_id)) [
      | inl elsewhere ↦ rw elsewhere (same_tenants db)
      | inr here ↦
          elim (Bool-cases
            (some_of (λ entry. not (entry.0 == id) && has_uuid tenant_id entry.1) db.tenants)) [
              | inl taken ↦ rw (here, taken) (same_tenants db)
              | inr free ↦
                  rw (here, free)
                    (let (kept, same) =
                        upsert-IsTenantWrite mysql tenant_id display_name
                          (if row.is_active then active else disabled) now mapped in
                      (kept, same))
            ]
    ]

pub register-IsTenantWrite :
    (dialect : Dialect) (id : ℕ) (tenant_id display_name : Text) (now : ℕ) (db : Db)
    → IsTenantWrite db (register_legacy_tenant dialect id tenant_id display_name now db).1
unfolding register_legacy_tenant
register-IsTenantWrite sqlite id tenant_id display_name now db =
    create-IsTenantWrite sqlite tenant_id display_name now db
register-IsTenantWrite mysql id tenant_id display_name now db =
    register_row-IsTenantWrite id tenant_id display_name now (lookup id db.tenants) db

disable_row-IsDisabledKept :
    (tenant_id : Text) (now : ℕ) (row : Tenant) (db : Db)
    → IsDisabledKept db (disable_row tenant_id now row db)
disable_row-IsDisabledKept id now row db tenant_id h =
    let (old, found, off) = disabled_row tenant_id db h in
    let new = record row { status = disabled; updated_at = now } in
    let looked = lookup-set_item id tenant_id new db.acl_tenants in
    elim (Bool-cases (list_beq id tenant_id)) [
      | inl same ↦ status_found tenant_id (disable_row id now row db) new (rw same at looked) refl
      | inr other ↦
          status_found tenant_id (disable_row id now row db) old ((rw other at looked) ∙ found) off
    ]

-- Agreement on the history is more than a tenant write.
pub same-IsTenantWrite : (a b : Db) → IsSameHistory a b → IsTenantWrite a b
unfolding tenant_status
same-IsTenantWrite a b h = ((λ tenant_id d. rw (tenant_status, ← h.0) d), (h.1, h.2, h.3))

IsTenantWrite-trans : (a b c : Db) → IsTenantWrite a b → IsTenantWrite b c → IsTenantWrite a c
IsTenantWrite-trans a b c h k = (
  (λ tenant_id d. k.0 tenant_id (h.0 tenant_id d)),
  (h.1.0 ∙ k.1.0, h.1.1 ∙ k.1.1, h.1.2 ∙ k.1.2),
)
