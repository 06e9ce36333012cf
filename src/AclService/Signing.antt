-- ===== src/AclService/Signing.antt =====
-- The snapshot that `AclManagementService` of backend/app/acl_management.py signs for a door.
pub mod Listed
use smart_gatekeeper.Common.{
  ℕ, ◌+◌, Bool, true, false, ◌&&◌, Option, none, some, List, [], ◌∷◌, ◌++◌, if◌then◌else◌, leb, ltb,
  ◌==◌, map, min, max,
}
use smart_gatekeeper.Common.Text.{Text}
use smart_gatekeeper.Acl.{Bytes, Entry, Snapshot, from_hex, bytes_leb, encode_acl}
use smart_gatekeeper.Acl.Envelope.{Envelope, Signed, to_hex}
use smart_gatekeeper.AclStore.{Credential, value_error}
use smart_gatekeeper.AclStore.Grants.{Granted, order_by}
use smart_gatekeeper.AclService.{Signer, Config, Action, pure, or_raise, ◌>>=◌, ◌>>◌}

-- row["expires_at"] is not None and int(row["expires_at"]) <= now
abbrev pub is_past : ℕ → Option ℕ → Bool
is_past now none = false
is_past now (some at) = leb at now

-- int(row["expires_at"] or now + 86400)
abbrev pub end_of : ℕ → Option ℕ → ℕ
end_of now none = now + 86400
end_of now (some at) = if at == 0 then now + 86400 else at

abbrev pub entry_of : ℕ → ℕ → ℕ → Granted → Entry
entry_of min_protocol max_protocol now (credential_id, row, permissions) = record {
  credential_id = credential_id;
  public_key_sec1 = row.public_key_sec1;
  status = 1;
  permissions = permissions;
  not_before = row.created_at;
  not_after = end_of now row.expires_at;
  min_protocol = if leb min_protocol row.min_protocol then row.min_protocol else min_protocol;
  max_protocol = if leb max_protocol row.max_protocol then max_protocol else row.max_protocol;
}

-- `for row in self.store.list_granted_credentials(...)`
unfoldable pub entries_of : ℕ → ℕ → ℕ → List Granted → List Entry
entries_of min_protocol max_protocol now [] = []
entries_of min_protocol max_protocol now ((credential_id, row, permissions) ∷ rows) =
    let rest = entries_of min_protocol max_protocol now rows in
    let entry = entry_of min_protocol max_protocol now (credential_id, row, permissions) in
    if is_past now row.expires_at
    then rest
    else if ltb entry.max_protocol entry.min_protocol
    then rest
    else entry ∷ rest

abbrev pub keyed : List Entry → Option (List (Bytes × Entry))
keyed [] = some []
keyed (e ∷ es) = elim (from_hex e.credential_id) [
  | none ↦ none
  | some key ↦ elim (keyed es) [ none ↦ none | some rest ↦ some ((key, e) ∷ rest) ]
]

abbrev pub values : List (Bytes × Entry) → List Entry
values [] = []
values ((key, e) ∷ es) = e ∷ values es

-- entries.sort(key=lambda item: bytes.fromhex(item["credential_id"])); `none` is the ValueError
unfoldable pub sort_entries : List Entry → Option (List Entry)
sort_entries es = elim (keyed es) [
  | none ↦ none
  | some pairs ↦ some (values (order_by (λ pair. pair.0) pairs))
]

module _ (c : Config) where
  unfoldable pub fields_of : Text → ℕ → ℕ → ℕ → ℕ → List Entry → Snapshot
  fields_of door_id version now min_protocol max_protocol entries = record {
    schema_version = 1;
    door_id = door_id;
    acl_version = version;
    issued_at = now;
    not_before = now;
    expires_at = now + c.lease_seconds;
    lease_duration = c.lease_seconds;
    min_protocol = min_protocol;
    max_protocol = max_protocol;
    signing_key_id = c.signer.signing_key_id;
    entries = entries;
  }

  abbrev pub signed_by : Bytes → Signer → Signed
  signed_by canonical signer = record {
    signing_key_id = some signer.signing_key_id;
    signature_raw64 = some (to_hex (signer.sign canonical));
  }

  -- The envelope's copies of the public keys, which no check reads, are left out.
  unfoldable pub sign_explicit_snapshot : Snapshot → Option Envelope
  sign_explicit_snapshot fields = elim (encode_acl fields) [
    | none ↦ none
    | some canonical ↦ some (record {
      fields = fields;
      canonical_hex = to_hex canonical;
      sha256 = to_hex (c.sha256 canonical);
      signature_raw64 = some (to_hex (c.signer.sign canonical));
      signatures = map (signed_by canonical) (c.signer ∷ c.transition_signers);
    })
  ]
