-- ===== src/AclStore/Credentials.antt =====
-- The enrollment challenges and the credentials of `AclStore` of backend/app/acl_management.py. An
-- enrollment id is the challenge's key and a credential id the credential's, whatever the tenant.
pub mod Once
use smart_gatekeeper.Common.{
  ℕ, Bool, true, false, ◌&&◌, ◌||◌, Option, none, some, List, [], ◌∷◌, if◌then◌else◌, list_eq,
  nat_eq, list_beq, some_of, keep,
}
use smart_gatekeeper.Common.Dict.{Dict, lookup, set_item, has}
use smart_gatekeeper.Common.Text.{Text}
use smart_gatekeeper.AclStore.{
  Result, ok, failed, integrity_error, CredentialStatus, is_pending, is_active, is_disabled,
  is_revoked, is_expired, Challenge, Credential, Db,
}

unfoldable pub insert_challenge : Text → Text → Text → Text → ℕ → ℕ → Db → Result (Unit {0}) × Db
insert_challenge enrollment_id tenant_id actor_ref nonce_hash expires_at now db =
    if has enrollment_id db.challenges then (failed integrity_error, db) else (
      ok tt,
      record db {
        challenges =
            set_item enrollment_id
              (record {
                tenant_id = tenant_id;
                actor_ref = actor_ref;
                nonce_hash = nonce_hash;
                expires_at = expires_at;
                used_at = none;
                created_at = now;
              })
              db.challenges;
      },
    )

-- WHERE tenant_id=?
abbrev pub challenge_of : Text → Option Challenge → Option Challenge
challenge_of tenant_id none = none
challenge_of tenant_id (some row) = if list_beq row.tenant_id tenant_id then some row else none

unfoldable pub get_challenge : Text → Text → Db → Option Challenge
get_challenge tenant_id enrollment_id db =
    challenge_of tenant_id (lookup enrollment_id db.challenges)

abbrev pub is_unused : Challenge → Bool
is_unused row = elim row.used_at [ none ↦ true | some at ↦ false ]

abbrev pub used : ℕ → Challenge → Challenge
used now row = record row { used_at = some now }

unfoldable pub consumed : Text → ℕ → Option Challenge → Db → Bool × Db
consumed enrollment_id now none db = (false, db)
consumed enrollment_id now (some row) db =
    if is_unused row
    then (true, record db { challenges = set_item enrollment_id (used now row) db.challenges })
    else (false, db)

unfoldable pub consume_challenge : Text → Text → ℕ → Db → Bool × Db
unfolding consumed
consume_challenge tenant_id enrollment_id now db =
    consumed enrollment_id now (get_challenge tenant_id enrollment_id db) db

abbrev pub has_key : Text → Text × Credential → Bool
has_key key entry = list_beq entry.1.public_key_sec1 key

-- `INSERT INTO credentials`: the id and the public key are UNIQUE.
unfoldable pub insert_credential : Text → Credential → Db → Result (Unit {0}) × Db
insert_credential credential_id row db =
    if has credential_id db.credentials || some_of (has_key row.public_key_sec1) db.credentials
    then (failed integrity_error, db)
    else (ok tt, record db { credentials = set_item credential_id row db.credentials })

-- `connection.commit()`, or `connection.rollback()` to the database before
abbrev pub committed : Db → Result (Unit {0}) × Db → Result Bool × Db
committed before (ok u, after) = (ok true, after)
committed before (failed e, after) = (failed e, before)

unfoldable pub consume_row :
    Text → Text → ℕ → Text → Credential → Option Challenge → Db → Result Bool × Db
consume_row enrollment_id actor_ref now credential_id values none db = (ok false, db)
consume_row enrollment_id actor_ref now credential_id values (some row) db =
    if list_beq row.actor_ref actor_ref && is_unused row
    then committed db (
        insert_credential credential_id values
          (record db { challenges = set_item enrollment_id (used now row) db.challenges }))
    else (ok false, db)

unfoldable pub consume_challenge_and_insert_credential :
    Text → Text → Text → ℕ → Text → Credential → Db → Result Bool × Db
unfolding consume_row
consume_challenge_and_insert_credential tenant_id enrollment_id actor_ref now credential_id values
      db =
    consume_row enrollment_id actor_ref now credential_id values
      (get_challenge tenant_id enrollment_id db) db

abbrev pub credential_of : Text → Option Credential → Option Credential
credential_of tenant_id none = none
credential_of tenant_id (some row) = if list_beq row.tenant_id tenant_id then some row else none

unfoldable pub get_credential : Text → Text → Db → Option Credential
get_credential tenant_id credential_id db =
    credential_of tenant_id (lookup credential_id db.credentials)

abbrev pub same_status : CredentialStatus → CredentialStatus → Bool
same_status is_pending is_pending = true
same_status is_active is_active = true
same_status is_disabled is_disabled = true
same_status is_revoked is_revoked = true
same_status is_expired is_expired = true
same_status _ _ = false

abbrev pub with_status : CredentialStatus → ℕ → Credential → Credential
with_status status now row = record row { status = status; updated_at = now }

unfoldable pub update_status : Text → CredentialStatus → ℕ → Option Credential → Db → Bool × Db
update_status credential_id status now none db = (false, db)
update_status credential_id status now (some row) db = (
  true,
  record db { credentials = set_item credential_id (with_status status now row) db.credentials },
)

unfoldable pub set_credential_status : Text → Text → CredentialStatus → ℕ → Db → Bool × Db
unfolding update_status
set_credential_status tenant_id credential_id status now db =
    update_status credential_id status now (get_credential tenant_id credential_id db) db

abbrev pub has_legacy_ref : Text → Text → Credential → Bool
has_legacy_ref tenant_id legacy_ref row =
    list_beq row.tenant_id tenant_id
    && (elim row.legacy_device_ref [ none ↦ false | some ref ↦ list_beq ref legacy_ref ])

abbrev pub first_by_ref : Text → Text → Dict Text Credential → Option (Text × Credential)
first_by_ref tenant_id legacy_ref [] = none
first_by_ref tenant_id legacy_ref ((id, row) ∷ rows) =
    if has_legacy_ref tenant_id legacy_ref row
    then some (id, row)
    else first_by_ref tenant_id legacy_ref rows

unfoldable pub find_by_legacy_ref : Text → Text → Db → Option (Text × Credential)
find_by_legacy_ref tenant_id legacy_ref db = first_by_ref tenant_id legacy_ref db.credentials
