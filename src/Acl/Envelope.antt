-- ===== src/Acl/Envelope.antt =====
-- `verify_snapshot_envelope` of backend/app/acl_management.py. `gave_up` is a ValueError, `raised` the
-- TypeError of comparing texts outside ASCII.
pub mod Verified
use smart_gatekeeper.Common.{
  ℕ, ◌+◌, ◌/◌, ◌%◌, ◌≤◌, ◌<◌, ◌≡◌, ◌≢◌, refl, Bool, true, false, ◌&&◌, ◌||◌, not, Option, none,
  some, List, [], ◌∷◌, if◌then◌else◌, ltb, leb, ◌==◌, arith, nat_eq, list_beq, list_beq_iff,
}
use smart_gatekeeper.Common.Dict.{Dict, lookup}
use smart_gatekeeper.Common.Text.{Text}
use smart_gatekeeper.Common.Try.{
  Try, done, gave_up, raised, given, check, compare_digest, is_ascii, ◌>>=◌, ◌>>◌,
}
use smart_gatekeeper.Acl.{Bytes, Snapshot, encode_acl, hex_bytes, from_hex}
use smart_gatekeeper.Acl.Receipts.{is_blank}
use smart_gatekeeper.Acl.Curve.{verify_raw64}

-- An element of `signatures`; `none` is a missing or unusable part.
pub record Signed : Type 0 where
  pub signing_key_id : Option ℕ
  pub signature_raw64 : Option Text

pub record Envelope : Type 0 where
  pub fields : Snapshot
  pub canonical_hex : Text
  pub sha256 : Text
  pub signature_raw64 : Option Text
  pub signatures : List Signed

-- The keyword arguments
pub record Expected : Type 0 where
  pub trusted_signing_keys : Dict ℕ Bytes
  pub door_id : Text
  pub min_protocol : ℕ
  pub max_protocol : ℕ
  pub trusted_now : ℕ
  pub current_boot_id : Text
  pub receipt_boot_id : Text
  pub high_watermark : ℕ
  pub current_digest : Text

pub data Verdict : Type 0 where
  reject_stale idempotent_no_lease_refresh reject_version_conflict activate : Verdict

abbrev hex_char : ℕ → ℕ
hex_char n = if ltb n 10 then n + 48 else n + 87

-- bytes.hex()
unfoldable pub to_hex : Bytes → Text
to_hex [] = []
to_hex (b ∷ bs) = hex_char (b / 16) ∷ hex_char (b % 16) ∷ to_hex bs

abbrev decoded : Option Text → Option Bytes
decoded none = none
decoded (some t) = from_hex t

abbrev all_signatures : Envelope → List Signed
all_signatures e =
    record { signing_key_id = some e.fields.signing_key_id; signature_raw64 = e.signature_raw64 }
    ∷ e.signatures

module _ (inverse : ℕ → ℕ → Option ℕ) (sha256 : Bytes → Bytes) where
  abbrev tried : Option Bytes → Bytes → Bytes → Try Bool → Try Bool
  tried none canonical signature rest = rest
  tried (some key) canonical signature rest = do
    valid ← verify_raw64 inverse sha256 key canonical signature
    if valid then done true else rest

  -- `for signed in signatures`: whether one of a trusted key is valid
  unfoldable pub has_signature : Dict ℕ Bytes → Bytes → List Signed → Try Bool
  has_signature keys canonical [] = done false
  has_signature keys canonical (x ∷ xs) =
      let rest = has_signature keys canonical xs in
      do
        id ← given x.signing_key_id
        signature ← given (decoded x.signature_raw64)
        tried (lookup id keys) canonical signature rest

  abbrev verdict : ℕ → ℕ → Text → Text → Try Verdict
  verdict version high digest current =
      if ltb version high
      then done reject_stale
      else if version == high
      then (do
        same ← compare_digest digest current
        done (if same then idempotent_no_lease_refresh else reject_version_conflict))
      else done activate

  -- The checks of the fields against what the Target expects
  unfoldable pub is_expected : Envelope → Expected → Try (Unit {0})
  is_expected e x = do
    expected_door ← given (hex_bytes x.door_id 16)
    same_door ← compare_digest e.fields.door_id x.door_id
    check same_door
    check (leb 1 x.min_protocol && leb x.min_protocol x.max_protocol)
    check
        (not (ltb e.fields.max_protocol x.min_protocol || ltb x.max_protocol e.fields.min_protocol))
    check (leb e.fields.not_before x.trusted_now && ltb x.trusted_now e.fields.expires_at)
    check (not (is_blank x.current_boot_id))
    same_boot ← compare_digest x.current_boot_id x.receipt_boot_id
    check same_boot

  -- The checks of the bytes and the digest
  unfoldable pub is_intact : Envelope → Bytes → Try (Unit {0})
  is_intact e canonical = do
    same_bytes ← compare_digest (to_hex canonical) e.canonical_hex
    check same_bytes
    same_digest ← compare_digest (to_hex (sha256 canonical)) e.sha256
    check same_digest

  unfoldable pub verify_snapshot_envelope : Envelope → Expected → Try Verdict
  verify_snapshot_envelope e x = do
    canonical ← given (encode_acl e.fields)
    is_intact e canonical
    is_expected e x
    valid ← has_signature x.trusted_signing_keys canonical (all_signatures e)
    check valid
    verdict e.fields.acl_version x.high_watermark (to_hex (sha256 canonical)) x.current_digest
