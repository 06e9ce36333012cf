-- ===== src/AclStore/Transitions/Ended.antt =====
-- What ending a credential leaves: nobody is entitled by it, and every door that it opened has a job.
use mathlib.Core.Path.{subst}
use smart_gatekeeper.Common.{
  ℕ, ◌≡◌, refl, sym, ◌∙◌, ap, Bool, true, false, ◌&&◌, Option, none, some, List, list_eq, nat_eq,
  list_beq, some_of, Bool-cases, inl, inr, beq_refl,
}
use smart_gatekeeper.Common.Dict.{lookup, lookup-set_item}
use smart_gatekeeper.Common.Text.{Text}
use smart_gatekeeper.AclStore.{
  CredentialStatus, is_pending, is_active, is_disabled, is_revoked, is_expired, Credential, Db,
}
use smart_gatekeeper.AclStore.Tenants.{tenant_status, is_enabled}
use smart_gatekeeper.AclStore.Credentials.{
  credential_of, get_credential, same_status, with_status, update_status, set_credential_status,
}
use smart_gatekeeper.AclStore.Grants.{active_grant_doors}
use smart_gatekeeper.AclStore.Grants.Entitled.{is_live_for, holds_of, is_entitled}
use smart_gatekeeper.AclStore.Transitions.{
  queue_all, set_and_queue, set_credential_status_and_queue,
}
use smart_gatekeeper.AclStore.Transitions.Queued.{
  has_job, queue_all-has_job, active-some_of, queue_all-credentials,
}

both_false : (a b c : Bool) → b ≡ false → (a && (b && c)) ≡ false
both_false true b c h = rw h refl
both_false false b c h = refl

-- A credential whose row is not ACTIVE entitles nobody.
ended-is_entitled :
    (p : Credential → Bool) (tenant_id door_id credential_id : Text) (row : Credential) (db : Db)
    → get_credential tenant_id credential_id db ≡ some row
    → same_status row.status is_active ≡ false
    → is_entitled p tenant_id door_id credential_id db ≡ false
unfolding is_entitled
ended-is_entitled p tenant_id door_id credential_id row db h off =
    both_false (is_enabled (tenant_status tenant_id db))
      (holds_of p (get_credential tenant_id credential_id db))
      (some_of (is_live_for tenant_id door_id credential_id) db.grants) (rw h (off_row (p row)))
  where
    off_row : (b : Bool) → (b && same_status row.status is_active) ≡ false
    off_row true = off
    off_row false = refl

-- The transition to a status leaves the credential's row with it.
found_row :
    (tenant_id : Text) (o : Option Credential) (row : Credential)
    → credential_of tenant_id o ≡ some row
    → (o ≡ some row) × (list_beq row.tenant_id tenant_id ≡ true)
found_row tenant_id none row h = absurd cc
found_row tenant_id (some other) row h = elim (Bool-cases (list_beq other.tenant_id tenant_id)) [
  | inl same ↦
      let h' : some other ≡ some row = rw same at h in
      let q : other ≡ row = cc in (h', rw (← q) same)
  | inr different ↦ let h' : none ≡ some row = rw different at h in absurd cc
]

set_status-row :
    (tenant_id credential_id : Text) (status : CredentialStatus) (now : ℕ) (row : Credential)
    (db : Db)
    → get_credential tenant_id credential_id db ≡ some row
    → get_credential tenant_id credential_id
        (set_credential_status tenant_id credential_id status now db).1
      ≡ some (with_status status now row)
unfolding set_credential_status update_status get_credential
set_status-row tenant_id credential_id status now row db h =
    let (there, own) = found_row tenant_id (lookup credential_id db.credentials) row h in
    let new = with_status status now row in
    let looked = lookup-set_item credential_id credential_id new db.credentials in
    let found = rw (beq_refl credential_id) at looked in rw (h, found, own) refl

same_status-cong :
    (a b : CredentialStatus)
    → same_status a b ≡ true
    → same_status b is_active ≡ false
    → same_status a is_active ≡ false
same_status-cong is_pending b h k = refl
same_status-cong is_disabled b h k = refl
same_status-cong is_revoked b h k = refl
same_status-cong is_expired b h k = refl
same_status-cong is_active is_active h k = k
same_status-cong is_active is_pending h k = sym h
same_status-cong is_active is_disabled h k = sym h
same_status-cong is_active is_revoked h k = sym h
same_status-cong is_active is_expired h k = sym h

get_credential-queue_all :
    (preserve : Bool) (tenant_id reason : Text) (now : ℕ) (doors : List Text) (credential_id : Text)
    (db : Db)
    → get_credential tenant_id credential_id (queue_all preserve tenant_id reason now doors db)
      ≡ get_credential tenant_id credential_id db
unfolding get_credential
get_credential-queue_all preserve tenant_id reason now doors credential_id db =
    rw (queue_all-credentials preserve tenant_id reason now doors db) refl

-- What the transition leaves
abbrev pub IsEnded : Text → Text → Db → Db → Type 0
IsEnded tenant_id credential_id before after =
    ((p : Credential → Bool) (door_id : Text)
      → is_entitled p tenant_id door_id credential_id after ≡ false)
    × ((door_id : Text)
        → some_of (is_live_for tenant_id door_id credential_id) before.grants ≡ true
        → has_job tenant_id door_id after ≡ true)

queued-IsEnded :
    (preserve : Bool) (tenant_id credential_id reason : Text) (now : ℕ) (row : Credential)
    (before middle : Db)
    → get_credential tenant_id credential_id middle ≡ some row
    → same_status row.status is_active ≡ false
    → IsEnded tenant_id credential_id before (
        queue_all preserve tenant_id reason now
          (active_grant_doors tenant_id credential_id before)
          middle)
queued-IsEnded preserve tenant_id credential_id reason now row before middle h off =
    let doors = active_grant_doors tenant_id credential_id before in
    let after = queue_all preserve tenant_id reason now doors middle in
    let found =
      get_credential-queue_all preserve tenant_id reason now doors credential_id middle ∙ h in
    (
      (λ p door_id. ended-is_entitled p tenant_id door_id credential_id row after found off),
      λ door_id live.
          queue_all-has_job preserve tenant_id reason now door_id doors middle
          ∙ rw (active-some_of tenant_id credential_id door_id before, live) refl,
    )

set_and_queue-IsEnded :
    (tenant_id credential_id : Text) (status : CredentialStatus) (reason : Text) (now : ℕ)
    (o : Option Credential) (db : Db) (doors : List Text) (db' : Db)
    → get_credential tenant_id credential_id db ≡ o
    → same_status status is_active ≡ false
    → set_and_queue tenant_id credential_id status reason now o db ≡ (some doors, db')
    → IsEnded tenant_id credential_id db db'
unfolding set_and_queue
set_and_queue-IsEnded tenant_id credential_id status reason now none db doors db' e off h =
    absurd (let bad : none ≡ some doors = ap (λ r. r.0) h in cc)
set_and_queue-IsEnded tenant_id credential_id status reason now (some row) db doors db' e off h =
    let is_db = ap (λ r. r.1) h in
    elim (Bool-cases (same_status row.status status)) [
      | inl same ↦ subst (IsEnded tenant_id credential_id db) (rw same at is_db) (
          queued-IsEnded true tenant_id credential_id reason now row db db e
            (same_status-cong row.status status same off))
      | inr other ↦ subst (IsEnded tenant_id credential_id db) (rw other at is_db) (
          queued-IsEnded false tenant_id credential_id reason now (with_status status now row) db
            (set_credential_status tenant_id credential_id status now db).1
            (set_status-row tenant_id credential_id status now row db e) off)
    ]

-- When a credential of the tenant is disabled or revoked, in any status but ACTIVE: afterwards it
-- entitles nobody at any door, and every door for which it had a grant that was not revoked has a
-- snapshot job.
pub set_credential_status_and_queue-IsEnded :
    (tenant_id credential_id : Text) (status : CredentialStatus) (reason : Text) (now : ℕ) (db : Db)
    (doors : List Text) (db' : Db)
    → same_status status is_active ≡ false
    → set_credential_status_and_queue tenant_id credential_id status reason now db
      ≡ (some doors, db')
    → IsEnded tenant_id credential_id db db'
unfolding set_credential_status_and_queue
set_credential_status_and_queue-IsEnded tenant_id credential_id status reason now db doors db' off
      h =
    set_and_queue-IsEnded tenant_id credential_id status reason now
      (get_credential tenant_id credential_id db) db doors db' refl off h
