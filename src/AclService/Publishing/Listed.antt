-- ===== src/AclService/Publishing/Listed.antt =====
-- Who is on a published snapshot.
use smart_gatekeeper.Common.{
  ℕ, ◌≡◌, refl, sym, ◌∙◌, ap, Bool, Option, none, some, ◌∷◌, map, list_eq, nat_eq, pair_eq,
  Bool-cases, inl, inr,
}
use smart_gatekeeper.Common.Dict.{has}
use smart_gatekeeper.Common.Text.{Text, codes}
use smart_gatekeeper.Acl.{Bytes, Snapshot, encode_acl}
use smart_gatekeeper.Acl.Envelope.{Envelope, to_hex}
use smart_gatekeeper.AclStore.{ok, Credential, Db}
use smart_gatekeeper.AclStore.Credentials.{get_credential}
use smart_gatekeeper.AclStore.Tenants.{tenant_status}
use smart_gatekeeper.AclStore.Grants.{list_granted_credentials}
use smart_gatekeeper.AclStore.Grants.Entitled.{is_entitled, some_of-list_granted}
use smart_gatekeeper.AclStore.Snapshots.{insert_snapshot, append_audit, allocate_snapshot_version}
use smart_gatekeeper.AclService.{Config, World, redacted}
use smart_gatekeeper.AclService.Signing.{fields_of, sign_explicit_snapshot, signed_by}
use smart_gatekeeper.AclService.Signing.Listed.{
  has_id, is_listed, is_usable_row, is_listed-entries_of, some_of-sort_entries,
}
use smart_gatekeeper.AclService.Publishing.{publish_snapshot, published_metadata}
use smart_gatekeeper.AclService.Publishing.Built.{Built, publish_snapshot-Published}

-- Two databases agree on who has access.
abbrev pub IsSameAccess : Db → Db → Type 0
IsSameAccess a b =
    (a.acl_tenants ≡ b.acl_tenants) × (a.credentials ≡ b.credentials) × (a.grants ≡ b.grants)

pub is_entitled-IsSameAccess :
    (p : Credential → Bool) (tenant_id door_id credential_id : Text) (a b : Db)
    → IsSameAccess a b
    → is_entitled p tenant_id door_id credential_id a
      ≡ is_entitled p tenant_id door_id credential_id b
unfolding is_entitled get_credential tenant_status
is_entitled-IsSameAccess p tenant_id door_id credential_id a b h = rw (h.0, h.1, h.2) refl

insert_snapshot-IsSameAccess :
    (tenant_id door_id : Text) (version : ℕ) (e : Envelope) (now : ℕ) (db : Db)
    → IsSameAccess db (insert_snapshot tenant_id door_id version e now db).1
unfolding insert_snapshot
insert_snapshot-IsSameAccess tenant_id door_id version e now db =
    elim (Bool-cases (has ((tenant_id, door_id), version) db.snapshots)) [
      | inl taken ↦ rw taken (refl, refl, refl)
      | inr free ↦ rw free (refl, refl, refl)
    ]

pub fields-sign :
    (c : Config) (fields : Snapshot) (e : Envelope)
    → sign_explicit_snapshot c fields ≡ some e
    → e.fields ≡ fields
unfolding sign_explicit_snapshot
fields-sign c fields e h = by_bytes (encode_acl fields) h
  where
    by_bytes :
        (b : Option Bytes)
        → (elim b [
          | none ↦ none
          | some canonical ↦ some (record {
            fields = fields;
            canonical_hex = to_hex canonical;
            sha256 = to_hex (c.sha256 canonical);
            signature_raw64 = some (to_hex (c.signer.sign canonical));
            signatures = map (signed_by c canonical) (c.signer ∷ c.transition_signers);
          })
        ])
          ≡ some e
        → e.fields ≡ fields
    by_bytes none h = cc
    by_bytes (some canonical) h = sym (ap (λ o. elim o [ none ↦ fields | some x ↦ x.fields ]) h)

module _ (c : Config) (tenant_id door_id : Text) (min_protocol max_protocol : ℕ) where
  audit-IsSameAccess :
      (actor_ref : Text) (at : ℕ) (e : Envelope) (db : Db)
      → IsSameAccess db (
          append_audit tenant_id actor_ref
            (codes "ACL_SNAPSHOT_PUBLISHED")
            none
            (redacted (published_metadata c e.fields.acl_version door_id))
            at
            db)
  unfolding append_audit
  audit-IsSameAccess actor_ref at e db = (refl, refl, refl)

  Built-is_listed :
      (w : World) (e : Envelope) (w' : World) (credential_id : Text)
      → Built c tenant_id door_id min_protocol max_protocol w e w'
      → is_listed credential_id e.fields.entries
        ≡ is_entitled
            (is_usable_row min_protocol max_protocol e.fields.issued_at)
            tenant_id
            door_id
            credential_id
            w'.db
  unfolding fields_of
  Built-is_listed w e w' credential_id b =
      let now = c.clock w.clock_reads in
      let db1 = (allocate_snapshot_version c.dialect tenant_id door_id w.db).1 in
      let usable = is_usable_row min_protocol max_protocol now in
      let same = fields-sign c _ e b.signed in
      let issued : e.fields.issued_at ≡ now = ap (λ f. f.issued_at) same in
      let entries : e.fields.entries ≡ b.entries = ap (λ f. f.entries) same in
      let access : IsSameAccess db1 w'.db =
        rw (b.database) (insert_snapshot-IsSameAccess tenant_id door_id b.version e now db1) in
      rw (issued, entries)
        (some_of-sort_entries (has_id credential_id) _ b.entries b.sorted
          ∙ is_listed-entries_of min_protocol max_protocol now credential_id
              (list_granted_credentials tenant_id door_id db1)
          ∙ some_of-list_granted usable tenant_id door_id credential_id db1
          ∙ is_entitled-IsSameAccess usable tenant_id door_id credential_id db1 w'.db access)

  -- When `publish_snapshot` returns an envelope, a credential is among its entries exactly if the tenant
  -- is ACTIVE, the credential is an ACTIVE one of the tenant that has not expired at the time of issue and
  -- whose protocols meet the snapshot's, and it has a grant for the door that is not revoked: all of this
  -- in the database that the call leaves.
  pub publish_snapshot-is_listed :
      (actor_ref : Text) (w : World) (e : Envelope) (w' : World) (credential_id : Text)
      → publish_snapshot c tenant_id door_id actor_ref min_protocol max_protocol w ≡ (ok e, w')
      → is_listed credential_id e.fields.entries
        ≡ is_entitled
            (is_usable_row min_protocol max_protocol e.fields.issued_at)
            tenant_id
            door_id
            credential_id
            w'.db
  publish_snapshot-is_listed actor_ref w e w' credential_id h =
      let p =
        publish_snapshot-Published c tenant_id door_id min_protocol max_protocol actor_ref w e w'
          h in
      Built-is_listed p.before e p.after credential_id p.built
      ∙ is_entitled-IsSameAccess (is_usable_row min_protocol max_protocol e.fields.issued_at)
          tenant_id door_id credential_id p.after.db w'.db
          (rw p.database (audit-IsSameAccess p.actor_ref p.audited_at e p.after.db))
