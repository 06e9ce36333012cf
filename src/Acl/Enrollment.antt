-- ===== src/Acl/Enrollment.antt =====
-- `build_enrollment_input` of backend/app/acl_management.py: the bytes that an enrolling phone signs.
-- `none` is a ValueError.
use smart_gatekeeper.Common.{ℕ, ◌≡◌, refl, Option, some, List, [], ◌∷◌, arith, length}
use smart_gatekeeper.Common.Text.{Text, codes}
use smart_gatekeeper.Common.Result.{◌>>=◌, >>=-eq-some}
use smart_gatekeeper.Acl.{Bytes, hex_bytes, parse_public_key, u16, join}
use smart_gatekeeper.Acl.Encoding.{length-join, length-hex_bytes, length-u16}

abbrev pub enrollment_parts : Text → Text → Text → Bytes → ℕ → List (Option Bytes)
enrollment_parts tenant_id enrollment_id nonce public_key protocol_version =
    some (codes "SGKENR01")
    ∷ u16 protocol_version
    ∷ hex_bytes tenant_id 16
    ∷ hex_bytes enrollment_id 16
    ∷ hex_bytes nonce 32
    ∷ some public_key
    ∷ []

unfoldable pub build_enrollment_input : Text → Text → Text → Text → ℕ → Option Bytes
build_enrollment_input tenant_id enrollment_id nonce public_key_hex protocol_version = do
  public_key ← hex_bytes public_key_hex 65
  point ← parse_public_key public_key
  join (enrollment_parts tenant_id enrollment_id nonce public_key protocol_version)

known_length : (a b : Bytes) → some a ≡ some b → length b ≡ length a
known_length a b h = let e : a ≡ b = cc in rw e refl

-- What `build_enrollment_input` returns is 139 bytes, whatever the ids, the nonce, the key and the version.
pub build_enrollment_input-length :
    (tenant_id enrollment_id nonce public_key_hex : Text) (protocol_version : ℕ) (b : Bytes)
    → build_enrollment_input tenant_id enrollment_id nonce public_key_hex protocol_version ≡ some b
    → length b ≡ 139
unfolding build_enrollment_input
build_enrollment_input-length tenant_id enrollment_id nonce public_key_hex protocol_version b h =
    let parts =
      λ (key : Bytes). enrollment_parts tenant_id enrollment_id nonce key protocol_version in
    let (key, is_key, h1) =
      >>=-eq-some (hex_bytes public_key_hex 65)
        (λ k. parse_public_key k >>= λ point. join (parts k)) h in
    let (point, on_curve, h2) = >>=-eq-some (parse_public_key key) (λ point. join (parts key)) h1 in
    let size = length-hex_bytes public_key_hex 65 key is_key in
    length-join (parts key) (8 ∷ 2 ∷ 16 ∷ 16 ∷ 32 ∷ 65 ∷ []) b
      (
        known_length (codes "SGKENR01"),
        (
          length-u16 protocol_version,
          (
            length-hex_bytes tenant_id 16,
            (
              length-hex_bytes enrollment_id 16,
              (length-hex_bytes nonce 32, (λ c e. omega (arith, known_length key c e, size), tt)),
            ),
          ),
        ),
      )
      h2
