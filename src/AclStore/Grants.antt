-- ===== src/AclStore/Grants.antt =====
-- The door grants of `AclStore` of backend/app/acl_management.py.
pub mod Entitled
use smart_gatekeeper.Common.{
  ℕ, Bool, true, false, ◌&&◌, Option, none, some, List, [], ◌∷◌, if◌then◌else◌, list_eq, nat_eq,
  pair_eq, list_beq, ◌++◌,
}
use smart_gatekeeper.Common.Dict.{Dict, lookup, set_item}
use smart_gatekeeper.Common.Text.{Text}
use smart_gatekeeper.Acl.{bytes_leb}
use smart_gatekeeper.AclStore.{
  Door, TenantStatus, active, disabled, is_active, Tenant, Credential, Grant, Db,
}
use smart_gatekeeper.AclStore.Credentials.{same_status, get_credential}
use smart_gatekeeper.AclStore.Tenants.{tenant_status}

-- ORDER BY: insertion behind what is not greater
module _ {ℓ} {A : Type ℓ} (key : A → Text) where
  abbrev pub insert : A → List A → List A
  insert x [] = x ∷ []
  insert x (y ∷ ys) =
      let rest = insert x ys in if bytes_leb (key y) (key x) then y ∷ rest else x ∷ y ∷ ys

  unfoldable pub sort_onto : List A → List A → List A
  sort_onto done [] = done
  sort_onto done (x ∷ xs) = sort_onto (insert x done) xs

  unfoldable pub order_by : List A → List A
  order_by xs = sort_onto [] xs

unfoldable pub grant_credential : Text → Text → Text → ℕ → ℕ → Db → Db
grant_credential tenant_id door_id credential_id permissions now db = record db {
  grants =
      set_item ((tenant_id, door_id), credential_id)
        (record { permissions = permissions; granted_at = now; revoked_at = none }) db.grants;
}

abbrev pub is_live : Grant → Bool
is_live row = elim row.revoked_at [ none ↦ true | some at ↦ false ]

unfoldable pub revoked : Door × Text → ℕ → Option Grant → Db → Bool × Db
revoked key now none db = (false, db)
revoked key now (some row) db =
    if is_live row
    then (
      true,
      record db { grants = set_item key (record row { revoked_at = some now }) db.grants },
    )
    else (false, db)

unfoldable pub revoke_grant : Text → Text → Text → ℕ → Db → Bool × Db
unfolding revoked
revoke_grant tenant_id door_id credential_id now db =
    revoked ((tenant_id, door_id), credential_id) now
      (lookup ((tenant_id, door_id), credential_id) db.grants) db

-- The doors of the tenant's rows that a test of the row and the credential keeps
abbrev pub doors_where : (Text → Grant → Bool) → Text → Dict (Door × Text) Grant → List Text
doors_where p tenant_id [] = []
doors_where p tenant_id ((((tenant, door), credential), row) ∷ rows) =
    let rest = doors_where p tenant_id rows in
    if list_beq tenant tenant_id && p credential row then door ∷ rest else rest

unfoldable pub active_grant_doors : Text → Text → Db → List Text
active_grant_doors tenant_id credential_id db =
    order_by (λ door. door)
      (doors_where (λ credential row. list_beq credential credential_id && is_live row) tenant_id
        db.grants)

-- A row of `list_granted_credentials`: the credential's id, its row and the grant's permissions
abbrev pub Granted : Type 0
Granted = Text × Credential × ℕ

abbrev pub granted_row : Text → Text → Option Credential → Grant → List Granted
granted_row tenant_id credential_id none grant = []
granted_row tenant_id credential_id (some row) grant =
    if same_status row.status is_active then (credential_id, row, grant.permissions) ∷ [] else []

-- The join, by the grants of the door
unfoldable pub granted_rows : Text → Text → Db → Dict (Door × Text) Grant → List Granted
granted_rows tenant_id door_id db [] = []
granted_rows tenant_id door_id db ((((tenant, door), credential), grant) ∷ rows) =
    let rest = granted_rows tenant_id door_id db rows in
    if list_beq tenant tenant_id && list_beq door door_id && is_live grant
    then granted_row tenant_id credential (get_credential tenant_id credential db) grant ++ rest
    else rest

abbrev pub of_active_tenant : Option TenantStatus → List Granted → List Granted
of_active_tenant (some active) rows = rows
of_active_tenant _ rows = []

unfoldable pub list_granted_credentials : Text → Text → Db → List Granted
list_granted_credentials tenant_id door_id db =
    order_by (λ row. row.0)
      (of_active_tenant (tenant_status tenant_id db) (granted_rows tenant_id door_id db db.grants))
