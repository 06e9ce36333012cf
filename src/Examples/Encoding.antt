-- ===== src/Examples/Encoding.antt =====
-- The snapshots on concrete inputs.
use smart_gatekeeper.Common.{
  ℕ, ◌+◌, ◌*◌, ◌≤◌, ◌<◌, ◌≡◌, ◌≢◌, refl, Bool, ◌||◌, if◌then◌else◌, ◌==◌, take, arith, Option, none,
  some, [], ◌∷◌, length, list_eq, nat_eq, pair_eq,
}
use smart_gatekeeper.Common.Text.{Text, codes, is_letter, is_digit, is_lower_hex}
use smart_gatekeeper.Common.Try.{compare_digest}
use smart_gatekeeper.Acl.{
  Bytes, Entry, Snapshot, encode_acl, validate_acl_fields, hex_bytes, from_hex, parse_public_key,
  from_bytes, to_bytes, u8, u16, u32, u64, prime, curve_b,
}
use smart_gatekeeper.Acl.Receipts.{Receipt, acl_snapshot_is_usable}
use smart_gatekeeper.Common.Dict.{lookup}
use smart_gatekeeper.Acl.Curve.{
  order, base, out_of_fuel, point_add, mult_rounds, scalar_mult, verify_raw64, scalar_mult_ends,
}
use smart_gatekeeper.Acl.Envelope.{
  Envelope, Expected, to_hex, has_signature, is_expected, is_intact, verify_snapshot_envelope,
}
use smart_gatekeeper.Acl.Envelope.Verified.{IsVerified, verify_snapshot_envelope-IsVerified}
use smart_gatekeeper.Targets.AclDelivery.Wire.{
  Wire, checked_signature, build_target_acl_wire_payload, wire_payload-layout,
}
use smart_gatekeeper.Common.Int.{negsuc}
use smart_gatekeeper.CommandSecurity.{
  Order, canonical_command, envelope_of, build_signed_command, digits,
}
use smart_gatekeeper.CommandSecurity.Canonical.{IsBound, build_signed_command-IsBound}
use smart_gatekeeper.Acl.Enrollment.{build_enrollment_input}
use smart_gatekeeper.Acl.Encoding.{encode_acl-layout}
use smart_gatekeeper.Acl.Lease.{IsUsable, acl_snapshot_is_usable-IsUsable}

-- The base point of P-256
abbrev pub entry : Entry
entry = record {
  credential_id = codes "00000000000000000000000000000001";
  public_key_sec1 =
      codes
        "046b17d1f2e12c4247f8bce6e563a440f277037d812deb33a0f4a13945d898c2964fe342e2fe1a7f9b8ee7eb4a7c0f9e162bce33576b315ececbb6406837bf51f5";
  status = 1;
  permissions = 1;
  not_before = 10;
  not_after = 99;
  min_protocol = 1;
  max_protocol = 1;
}

abbrev snapshot : Snapshot
snapshot = record {
  schema_version = 1;
  door_id = codes "000000000000000000000000000000aa";
  acl_version = 3;
  issued_at = 5;
  not_before = 10;
  expires_at = 90;
  lease_duration = 60;
  min_protocol = 1;
  max_protocol = 2;
  signing_key_id = 4;
  entries = entry ∷ [];
}

abbrev pub text_or : Option Text → Text
text_or none = []
text_or (some t) = t

abbrev pub bytes_or : Option Bytes → Bytes
bytes_or none = []
bytes_or (some b) = b

abbrev bytes : Bytes
bytes = bytes_or (encode_acl snapshot)

encode_acl-layout_example :
    (length bytes ≡ 72 + 106 * length snapshot.entries)
    × (length bytes ≤ 6856)
    × (1 ≤ snapshot.lease_duration)
    × (snapshot.lease_duration ≤ 3600)
    × (snapshot.not_before < snapshot.expires_at)
unfolding encode_acl validate_acl_fields hex_bytes from_hex parse_public_key from_bytes to_bytes u8
    u16 u32 u64 prime curve_b
encode_acl-layout_example = encode_acl-layout snapshot bytes refl

abbrev receipt : Receipt
receipt = record {
  received_monotonic = 100;
  now_monotonic = 130;
  lease_seconds = 60;
  receipt_boot_id = codes "b";
  current_boot_id = codes "b";
  not_before = 10;
  expires_at = 90;
  received_epoch = some 20;
  trusted_now = some 50;
}

acl_snapshot_is_usable-IsUsable_example : IsUsable receipt
unfolding acl_snapshot_is_usable compare_digest
acl_snapshot_is_usable-IsUsable_example = acl_snapshot_is_usable-IsUsable receipt refl

-- Numbers in place of modular inverses, under which the signature below is valid
abbrev pub stand_in : ℕ → ℕ → Option ℕ
stand_in x m =
    if m == order
    then some 1
    else some 90726025901376578452171448803560828960051214914794653302071279672111570522704

abbrev pub digest_of : Bytes → Bytes
digest_of b = 1 ∷ []

scalar_mult_ends_example : scalar_mult stand_in 1000000 base ≢ out_of_fuel
scalar_mult_ends_example = scalar_mult_ends stand_in 1000000 base (omega arith)

abbrev pub signature_hex : Text
signature_hex =
    codes
      "00000000000000000000000000000000000000000000000000000000000000010000000000000000000000000000000000000000000000000000000000000001"

abbrev envelope : Envelope
envelope = record {
  fields = snapshot;
  canonical_hex = to_hex bytes;
  sha256 = codes "01";
  signature_raw64 = some signature_hex;
  signatures = [];
}

abbrev expected : Expected
expected = record {
  trusted_signing_keys =
      (
        4,
        bytes_or (
            from_hex (
              codes
                "047cf27b188d034f7e8a52380304b51ac3c08969e277f21b35a60b48fc4766997807775510db8ed040293d9ac69f7430dbba7dade63ce982299e04b79d227873d1")),
      )
      ∷ [];
  door_id = codes "000000000000000000000000000000aa";
  min_protocol = 1;
  max_protocol = 3;
  trusted_now = 50;
  current_boot_id = codes "b";
  receipt_boot_id = codes "b";
  high_watermark = 2;
  current_digest = codes "00";
}

verify_snapshot_envelope-IsVerified_example : IsVerified stand_in digest_of envelope expected
unfolding verify_snapshot_envelope is_intact is_expected has_signature to_hex verify_raw64
    scalar_mult mult_rounds point_add order lookup compare_digest encode_acl validate_acl_fields
    hex_bytes from_hex parse_public_key from_bytes to_bytes u8 u16 u32 u64 prime curve_b
verify_snapshot_envelope-IsVerified_example =
    verify_snapshot_envelope-IsVerified stand_in digest_of envelope expected refl

abbrev wire : Wire
wire = record {
  fields = some snapshot;
  canonical_hex = some (to_hex bytes);
  signature_raw64 = some signature_hex;
  sha256 = some (codes "0000000000000000000000000000000000000000000000000000000000000000");
}

abbrev zeros : Bytes → Bytes
zeros b = to_bytes 32 0

abbrev payload : Bytes
payload = bytes_or (build_target_acl_wire_payload zeros wire)

wire_payload-layout_example :
    (s : Snapshot) × (canonical : Bytes) × (wire.fields ≡ some s)
    × (encode_acl s ≡ some canonical)
    × (length payload ≡ 136 + 106 * length s.entries)
    × (take (72 + 106 * length s.entries) payload ≡ canonical)
unfolding build_target_acl_wire_payload checked_signature to_hex is_lower_hex encode_acl
    validate_acl_fields hex_bytes from_hex parse_public_key from_bytes to_bytes u8 u16 u32 u64 prime
    curve_b
wire_payload-layout_example = wire_payload-layout zeros wire payload refl

abbrev is_alnum : ℕ → Bool
is_alnum c = is_letter c || is_digit c

abbrev order_of : Order is_alnum
order_of = record {
  target_id = codes "T1";
  tenant_id = codes "home";
  door_id = codes "d1";
  boot_id = codes "b1";
  action = codes "set_tx_power";
  value = negsuc 5;
  now = 1000;
  ttl_seconds = 60;
  session_id = none;
  nonce = none;
  fresh_session = codes "s1";
  fresh_nonce = codes "n1";
}

build_signed_command-IsBound_example :
    IsBound is_alnum
      (λ t. t)
      (envelope_of is_alnum 4 order_of)
      (text_or (canonical_command is_alnum (envelope_of is_alnum 4 order_of)))
unfolding build_signed_command canonical_command digits
build_signed_command-IsBound_example =
    build_signed_command-IsBound is_alnum (λ t. t) 4 order_of (envelope_of is_alnum 4 order_of)
      (text_or (canonical_command is_alnum (envelope_of is_alnum 4 order_of))) refl refl

abbrev enrollment : Bytes
enrollment = bytes_or (
    build_enrollment_input entry.credential_id entry.credential_id
      (codes "0000000000000000000000000000000000000000000000000000000000000001")
      entry.public_key_sec1 1)
