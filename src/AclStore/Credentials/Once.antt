-- ===== src/AclStore/Credentials/Once.antt =====
-- What a successful consumption of a challenge leaves.
use smart_gatekeeper.Common.{
  ℕ, ◌≡◌, refl, Bool, true, false, ◌&&◌, ◌||◌, Option, none, some, list_eq, nat_eq, list_beq,
  some_of, Bool-cases, inl, inr, beq_refl,
}
use smart_gatekeeper.Common.Dict.{lookup, set_item, has, lookup-set_item}
use smart_gatekeeper.Common.Text.{Text}
use smart_gatekeeper.AclStore.{Result, ok, failed, Challenge, Credential, Db}
use smart_gatekeeper.AclStore.Credentials.{
  insert_credential, has_key, committed, is_unused, used, consume_row, get_challenge,
  consume_challenge_and_insert_credential,
}
use smart_gatekeeper.AclStore.History.Writes.{is_spent}

-- The credential is stored, and the challenge is consumed.
abbrev pub IsConsumed : Text → Text → Credential → Db → Type 0
IsConsumed enrollment_id credential_id values db =
    (lookup credential_id db.credentials ≡ some values) × (is_spent enrollment_id db ≡ true)

-- What a transaction that does not return True leaves: the database before
abbrev pub IsUndone : Db → Result Bool × Db → Type 0
IsUndone before (ok true, after) = Unit {0}
IsUndone before (ok false, after) = after ≡ before
IsUndone before (failed e, after) = after ≡ before

set_spent :
    (enrollment_id : Text) (row : Challenge) (db : Db)
    → is_unused row ≡ false
    → is_spent enrollment_id (record db { challenges = set_item enrollment_id row db.challenges })
      ≡ true
unfolding is_spent
set_spent enrollment_id row db h =
    let looked = lookup-set_item enrollment_id enrollment_id row db.challenges in
    let there = rw (beq_refl enrollment_id) at looked in rw there (rw h refl)

insert_committed :
    (enrollment_id credential_id : Text) (values : Credential) (before after : Db)
    → is_spent enrollment_id after ≡ true
    → let r = committed before (insert_credential credential_id values after) in
      (r.0 ≡ ok true → IsConsumed enrollment_id credential_id values r.1) × IsUndone before r
unfolding insert_credential is_spent
insert_committed enrollment_id credential_id values before after h =
    elim (Bool-cases (
      has credential_id after.credentials
      || some_of (has_key values.public_key_sec1) after.credentials)) [
        | inl taken ↦ rw taken ((λ q. absurd cc), refl)
        | inr free ↦
            let looked = lookup-set_item credential_id credential_id values after.credentials in
            let there = rw (beq_refl credential_id) at looked in rw free ((λ q. (there, h)), tt)
      ]

consume_row_ends :
    (enrollment_id actor_ref : Text) (now : ℕ) (credential_id : Text) (values : Credential)
    (o : Option Challenge) (db : Db)
    → let r = consume_row enrollment_id actor_ref now credential_id values o db in
      (r.0 ≡ ok true → IsConsumed enrollment_id credential_id values r.1) × IsUndone db r
unfolding consume_row
consume_row_ends enrollment_id actor_ref now credential_id values none db = ((λ q. absurd cc), refl)
consume_row_ends enrollment_id actor_ref now credential_id values (some row) db =
    let after = record db { challenges = set_item enrollment_id (used now row) db.challenges } in
    elim (Bool-cases (list_beq row.actor_ref actor_ref && is_unused row)) [
      | inl fresh ↦ rw fresh (
          insert_committed enrollment_id credential_id values db after
            (set_spent enrollment_id (used now row) db refl))
      | inr closed ↦ rw closed ((λ q. absurd cc), refl)
    ]

-- The transaction that consumes a challenge and stores its credential: if it returns True, the
-- credential is stored and the challenge is consumed, and if it returns False or raises, the database is
-- the one before.
pub consume_ends :
    (tenant_id enrollment_id actor_ref : Text) (now : ℕ) (credential_id : Text)
    (values : Credential) (db : Db)
    → let r =
        consume_challenge_and_insert_credential tenant_id enrollment_id actor_ref now credential_id
          values db in
      (r.0 ≡ ok true → IsConsumed enrollment_id credential_id values r.1) × IsUndone db r
unfolding consume_challenge_and_insert_credential
consume_ends tenant_id enrollment_id actor_ref now credential_id values db =
    consume_row_ends enrollment_id actor_ref now credential_id values
      (get_challenge tenant_id enrollment_id db) db
