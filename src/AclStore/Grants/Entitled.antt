-- ===== src/AclStore/Grants/Entitled.antt =====
-- Who has access to a door, said of a credential id instead of by joining tables.
use smart_gatekeeper.Common.{
  ◌≡◌, refl, ◌∙◌, Bool, true, false, ◌&&◌, ◌||◌, Option, none, some, List, [], ◌∷◌, ◌++◌,
  if◌then◌else◌, list_eq, nat_eq, pair_eq, list_beq, list_beq_iff, some_of, Bool-cases, inl, inr,
  arith,
}
use smart_gatekeeper.Common.Dict.{Dict}
use smart_gatekeeper.Common.Text.{Text}
use smart_gatekeeper.AclStore.{
  Door, TenantStatus, active, disabled, is_active, Credential, Grant, Db,
}
use smart_gatekeeper.AclStore.Credentials.{same_status, get_credential}
use smart_gatekeeper.AclStore.Tenants.{tenant_status, is_enabled}
use smart_gatekeeper.AclStore.Grants.{
  insert, sort_onto, order_by, is_live, Granted, granted_row, granted_rows, of_active_tenant,
  list_granted_credentials,
}

module _ {ℓ} {A : Type ℓ} (key : A → Text) (q : A → Bool) where
  some_of-insert : (x : A) (xs : List A) → some_of q (insert key x xs) ≡ (q x || some_of q xs)
  some_of-insert x [] = refl
  some_of-insert x (y ∷ ys) = ground (arith, some_of-insert x ys)

  some_of-sort_onto :
      (done xs : List A) → some_of q (sort_onto key done xs) ≡ (some_of q done || some_of q xs)
  unfolding sort_onto
  some_of-sort_onto done [] = ground arith
  some_of-sort_onto done (x ∷ xs) =
      ground (arith, some_of-sort_onto (insert key x done) xs, some_of-insert x done)

  pub some_of-order_by : (xs : List A) → some_of q (order_by key xs) ≡ some_of q xs
  unfolding order_by
  some_of-order_by xs = some_of-sort_onto [] xs

module _ {ℓ} {A : Type ℓ} (q : A → Bool) where
  pub some_of-append : (xs ys : List A) → some_of q (xs ++ ys) ≡ (some_of q xs || some_of q ys)
  some_of-append [] ys = refl
  some_of-append (x ∷ xs) ys = ground (arith, some_of-append xs ys)

  some_of-joined :
      (b : Bool) (xs ys : List A)
      → some_of q (if b then xs ++ ys else ys) ≡ ((b && some_of q xs) || some_of q ys)
  some_of-joined true xs ys = some_of-append xs ys
  some_of-joined false xs ys = refl

regroup :
    (a d l i h s : Bool) → ((a && d && l) && (i && h) || h && s) ≡ (h && ((a && d && l && i) || s))
regroup a d l i true s = ground arith
regroup a d l i false s = ground arith

abbrev pub is_live_for : Text → Text → Text → (Door × Text) × Grant → Bool
is_live_for tenant_id door_id credential_id (((tenant, door), credential), grant) =
    list_beq tenant tenant_id
    && list_beq door door_id
    && is_live grant
    && list_beq credential credential_id

abbrev pub holds_of : (Credential → Bool) → Option Credential → Bool
holds_of p none = false
holds_of p (some row) = p row && same_status row.status is_active

-- The tenant is ACTIVE, the credential is one of its ACTIVE ones, the door's grant is not revoked, and
-- the credential's row passes a test.
unfoldable pub is_entitled : (Credential → Bool) → Text → Text → Text → Db → Bool
is_entitled p tenant_id door_id credential_id db =
    is_enabled (tenant_status tenant_id db)
    && (holds_of p (get_credential tenant_id credential_id db)
        && some_of (is_live_for tenant_id door_id credential_id) db.grants)

-- The test of a joined row: its id, and its credential
abbrev pub row_passes : (Credential → Bool) → Text → Granted → Bool
row_passes p credential_id (id, row, permissions) = list_beq id credential_id && p row

module _ (p : Credential → Bool) (tenant_id door_id credential_id : Text) (db : Db) where
  passes_row :
      (id : Text) (found : Option Credential) (grant : Grant)
      → some_of (row_passes p credential_id) (granted_row tenant_id id found grant)
        ≡ (list_beq id credential_id && holds_of p found)
  passes_row id none grant = ground arith
  passes_row id (some row) grant = ground arith

  passes_found :
      (id : Text)
      → (list_beq id credential_id && holds_of p (get_credential tenant_id id db))
        ≡ (list_beq id credential_id && holds_of p (get_credential tenant_id credential_id db))
  passes_found id = elim (Bool-cases (list_beq id credential_id)) [
    | inl same ↦ let q = (list_beq_iff id credential_id).0 same in rw q refl
    | inr other ↦ rw other refl
  ]

  some_of-granted_rows :
      (grants : Dict (Door × Text) Grant)
      → some_of (row_passes p credential_id) (granted_rows tenant_id door_id db grants) ≡ (
          holds_of p (get_credential tenant_id credential_id db)
          && some_of (is_live_for tenant_id door_id credential_id) grants)
  unfolding granted_rows
  some_of-granted_rows [] = ground arith
  some_of-granted_rows ((((tenant, door), id), grant) ∷ grants) =
      some_of-joined (row_passes p credential_id)
        (list_beq tenant tenant_id && list_beq door door_id && is_live grant)
        (granted_row tenant_id id (get_credential tenant_id id db) grant)
        (granted_rows tenant_id door_id db grants)
      ∙ rw
          (
            passes_row id (get_credential tenant_id id db) grant,
            passes_found id,
            some_of-granted_rows grants,
          )
          (regroup (list_beq tenant tenant_id) (list_beq door door_id) (is_live grant)
            (list_beq id credential_id) (holds_of p (get_credential tenant_id credential_id db))
            (some_of (is_live_for tenant_id door_id credential_id) grants))

  some_of-of_active :
      (status : Option TenantStatus) (rows : List Granted)
      → some_of (row_passes p credential_id) (of_active_tenant status rows)
        ≡ (is_enabled status && some_of (row_passes p credential_id) rows)
  some_of-of_active none rows = refl
  some_of-of_active (some active) rows = refl
  some_of-of_active (some disabled) rows = refl

  -- The rows that the join lists are those of the entitled credentials.
  pub some_of-list_granted :
      some_of (row_passes p credential_id) (list_granted_credentials tenant_id door_id db)
      ≡ is_entitled p tenant_id door_id credential_id db
  unfolding list_granted_credentials is_entitled
  some_of-list_granted =
      some_of-order_by (λ row. row.0) (row_passes p credential_id)
        (of_active_tenant (tenant_status tenant_id db)
          (granted_rows tenant_id door_id db db.grants))
      ∙ some_of-of_active (tenant_status tenant_id db) (granted_rows tenant_id door_id db db.grants)
      ∙ rw (some_of-granted_rows db.grants) refl
