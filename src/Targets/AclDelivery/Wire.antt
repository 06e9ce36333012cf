-- ===== src/Targets/AclDelivery/Wire.antt =====
-- `build_target_acl_wire_payload` of backend/app/target_acl_delivery.py: the bytes that a Target takes.
-- SHA-256 is a parameter, and `none` is a ValueError.
use smart_gatekeeper.Common.{
  ◌+◌, ◌*◌, ◌≡◌, ◌&&◌, not, Option, some, ◌++◌, list_beq, nat_eq, ◌==◌, length, every, arith, take,
  take-append, length-append,
}
use smart_gatekeeper.Common.Text.{Text, is_hex, is_lower_hex}
use smart_gatekeeper.Common.Result.{◌>>=◌, ◌>>◌, guard, >>=-eq-some}
use smart_gatekeeper.Acl.{Bytes, Snapshot, encode_acl, from_hex}
use smart_gatekeeper.Acl.Receipts.{is_blank}
use smart_gatekeeper.Acl.Encoding.{encode_acl-layout}
use smart_gatekeeper.Acl.Envelope.{to_hex}

-- The parts of the envelope; `none` is a part that is missing or of another type.
pub record Wire : Type 0 where
  pub fields : Option Snapshot
  pub canonical_hex : Option Text
  pub signature_raw64 : Option Text
  pub sha256 : Option Text

module _ (sha256 : Bytes → Bytes) where
  -- The checks of the hexadecimal parts against the canonical bytes, and the signature
  unfoldable pub checked_signature : Wire → Bytes → Option Bytes
  checked_signature e canonical = do
    canonical_hex ← e.canonical_hex
    signature_hex ← e.signature_raw64
    digest_hex ← e.sha256
    guard (not (is_blank canonical_hex) && every is_hex canonical_hex)
    guard (is_lower_hex 128 signature_hex)
    guard (is_lower_hex 64 digest_hex)
    persisted ← from_hex canonical_hex
    signature ← from_hex signature_hex
    guard (
        list_beq persisted canonical
        && length signature == 64
        && list_beq (to_hex (sha256 canonical)) digest_hex)
    some signature

  unfoldable pub build_target_acl_wire_payload : Wire → Option Bytes
  build_target_acl_wire_payload e = do
    snapshot ← e.fields
    canonical ← encode_acl snapshot
    signature ← checked_signature e canonical
    some (canonical ++ signature)

  signature-length :
      (e : Wire) (canonical signature : Bytes)
      → checked_signature e canonical ≡ some signature
      → length signature ≡ 64
  unfolding checked_signature
  signature-length e canonical signature h = ground arith

  -- If a payload is built, then the envelope has fields that encode, the payload is 136 bytes and 106
  -- more for each entry, and its part before the last 64 bytes is the encoding of the fields.
  pub wire_payload-layout :
      (e : Wire) (payload : Bytes)
      → build_target_acl_wire_payload e ≡ some payload
      → (s : Snapshot) × (canonical : Bytes) × (e.fields ≡ some s)
        × (encode_acl s ≡ some canonical)
        × (length payload ≡ 136 + 106 * length s.entries)
        × (take (72 + 106 * length s.entries) payload ≡ canonical)
  unfolding build_target_acl_wire_payload
  wire_payload-layout e payload h =
      let (s, fields, h1) =
        >>=-eq-some e.fields
          (λ s. encode_acl s >>= λ c. checked_signature e c >>= λ g. some (c ++ g)) h in
      let (c, encoded, h2) =
        >>=-eq-some (encode_acl s) (λ c. checked_signature e c >>= λ g. some (c ++ g)) h1 in
      let (g, signed, h3) = >>=-eq-some (checked_signature e c) (λ g. some (c ++ g)) h2 in
      let whole : c ++ g ≡ payload = cc in
      let layout = encode_acl-layout s c encoded in
      let size = signature-length e c g signed in
      (
        s,
        c,
        fields,
        encoded,
        rw (← whole) (omega (arith, layout.0, size, length-append c g)),
        rw (← whole, ← layout.0) (take-append c g),
      )
