-- ===== src/AclStore/Tenants.antt =====
-- The tenants' rows of `AclStore` of backend/app/acl_management.py.
use smart_gatekeeper.Common.{
  ℕ, Bool, true, false, Option, none, some, [], ◌∷◌, if◌then◌else◌, list_eq, nat_eq, list_beq, not,
  ◌&&◌, ◌==◌, some_of,
}
use smart_gatekeeper.Common.Dict.{Dict, lookup, set_item}
use smart_gatekeeper.Common.Text.{Text}
use smart_gatekeeper.Acl.{hex_bytes}
use smart_gatekeeper.AclStore.{
  Dialect, sqlite, mysql, Result, ok, failed, value_error, lookup_error, integrity_error,
  TenantStatus, active, disabled, LegacyTenant, Tenant, Db,
}

abbrev pub new_tenant : Text → TenantStatus → ℕ → Tenant
new_tenant display_name status now = record {
  display_name = display_name;
  status = status;
  updated_at = now;
  created_at = now;
}

-- `INSERT OR IGNORE` of sqlite, `ON DUPLICATE KEY UPDATE display_name` of mysql, by the row that is there
abbrev pub upserted_tenant : Dialect → Text → TenantStatus → ℕ → Option Tenant → Tenant
upserted_tenant dialect display_name status now none = new_tenant display_name status now
upserted_tenant sqlite display_name status now (some row) = row
upserted_tenant mysql display_name status now (some row) = record row {
  display_name = display_name;
}

unfoldable pub upsert_tenant : Dialect → Text → Text → TenantStatus → ℕ → Db → Db
upsert_tenant dialect tenant_id display_name status now db = record db {
  acl_tenants =
      set_item tenant_id
        (upserted_tenant dialect display_name status now (lookup tenant_id db.acl_tenants))
        db.acl_tenants;
}

unfoldable pub create_tenant : Dialect → Text → Text → ℕ → Db → Result (Unit {0}) × Db
create_tenant dialect tenant_id display_name now db = elim (hex_bytes tenant_id 16) [
  | none ↦ (failed value_error, db)
  | some id ↦ (ok tt, upsert_tenant dialect tenant_id display_name active now db)
]

-- The row's canonical id is another one than the given.
abbrev pub is_mapped_elsewhere : Option Text → Text → Bool
is_mapped_elsewhere none tenant_id = false
is_mapped_elsewhere (some existing) tenant_id = if list_beq existing tenant_id then false else true

-- tenant_uuid=?
abbrev pub has_uuid : Text → LegacyTenant → Bool
has_uuid tenant_id row = elim row.tenant_uuid [ none ↦ false | some id ↦ list_beq id tenant_id ]

-- The canonical ids are ASCII, and UNIQUE.
unfoldable pub register_row :
    ℕ → Text → Text → ℕ → Option LegacyTenant → Db → Result (Unit {0}) × Db
register_row id tenant_id display_name now none db = (failed lookup_error, db)
register_row id tenant_id display_name now (some row) db =
    if is_mapped_elsewhere row.tenant_uuid tenant_id
    then (failed value_error, db)
    else if some_of (λ entry. not (entry.0 == id) && has_uuid tenant_id entry.1) db.tenants
    then (failed integrity_error, db)
    else (
      ok tt,
      upsert_tenant mysql tenant_id display_name (if row.is_active then active else disabled) now
          (record db {
            tenants = set_item id (record row { tenant_uuid = some tenant_id }) db.tenants;
          }),
    )

unfoldable pub register_legacy_tenant : Dialect → ℕ → Text → Text → ℕ → Db → Result (Unit {0}) × Db
unfolding register_row
register_legacy_tenant sqlite id tenant_id display_name now db =
    create_tenant sqlite tenant_id display_name now db
register_legacy_tenant mysql id tenant_id display_name now db =
    register_row id tenant_id display_name now (lookup id db.tenants) db

unfoldable pub tenant_exists : Text → Db → Bool
tenant_exists tenant_id db = elim (lookup tenant_id db.acl_tenants) [
  | none ↦ false
  | some row ↦ true
]

unfoldable pub tenant_status : Text → Db → Option TenantStatus
tenant_status tenant_id db = elim (lookup tenant_id db.acl_tenants) [
  | none ↦ none
  | some row ↦ some row.status
]

abbrev pub activity_of : Text → Dict ℕ LegacyTenant → Option Bool
activity_of tenant_id [] = none
activity_of tenant_id ((id, row) ∷ rows) =
    if has_uuid tenant_id row then some row.is_active else activity_of tenant_id rows

unfoldable pub legacy_tenant_is_active : Dialect → Text → Db → Option Bool
legacy_tenant_is_active sqlite tenant_id db = none
legacy_tenant_is_active mysql tenant_id db = activity_of tenant_id db.tenants

-- status == "ACTIVE"
abbrev pub is_enabled : Option TenantStatus → Bool
is_enabled (some active) = true
is_enabled _ = false
