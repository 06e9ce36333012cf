-- ===== src/Acl.antt =====
-- backend/app/acl_management.py: the signed snapshots of a door's access list, their canonical bytes and
-- the local check of a lease. `none` is a ValueError. The numbers of a snapshot are not negative.
pub mod Receipts
pub mod Curve
pub mod Encoding
pub mod Enrollment
pub mod Envelope
pub mod Lease
use smart_gatekeeper.Common.{
  ℕ, zero, suc, ◌+◌, ◌-◌, ◌*◌, ◌/◌, ◌%◌, ◌^◌, Bool, true, false, ◌&&◌, ◌||◌, not, Option, none,
  some, List, [], ◌∷◌, ◌++◌, if◌then◌else◌, ltb, leb, ◌==◌, list_eq, nat_eq, list_beq, length,
  every, some_of, take, drop, Eq,
}
use smart_gatekeeper.Common.Text.{Text, codes, is_digit}
use smart_gatekeeper.Common.Result.{◌>>=◌, ◌>>◌, guard}
use smart_gatekeeper.Common.Try.{Try, compare_digest}

abbrev pub Bytes : Type 0
Bytes = List ℕ

-- value.to_bytes(n, "big")
unfoldable pub to_bytes : ℕ → ℕ → Bytes
to_bytes zero value = []
to_bytes (suc n) value = (value / 256 ^ n) % 256 ∷ to_bytes n value

-- int.from_bytes(bytes, "big")
unfoldable pub from_bytes : ℕ → Bytes → ℕ
from_bytes acc [] = acc
from_bytes acc (b ∷ bs) = from_bytes (acc * 256 + b) bs

-- `_u8`, `_u16`, `_u32` and `_u64`
unfoldable pub u8 : ℕ → Option Bytes
u8 value = if leb value 255 then some (to_bytes 1 value) else none

unfoldable pub u16 : ℕ → Option Bytes
u16 value = if leb value 65535 then some (to_bytes 2 value) else none

unfoldable pub u32 : ℕ → Option Bytes
u32 value = if leb value 4294967295 then some (to_bytes 4 value) else none

unfoldable pub u64 : ℕ → Option Bytes
u64 value = if leb value 18446744073709551615 then some (to_bytes 8 value) else none

abbrev pub hex_digit : ℕ → Option ℕ
hex_digit c =
    if is_digit c
    then some (c - 48)
    else if leb b'a' c && leb c b'f'
    then some (c - 87)
    else if leb b'A' c && leb c b'F'
    then some (c - 55)
    else none

abbrev pub is_space : ℕ → Bool
is_space c = c == 32 || leb 9 c && leb c 13

abbrev pub byte_then : Option ℕ → Option ℕ → Option Bytes → Option Bytes
byte_then (some high) (some low) (some rest) = some ((high * 16 + low) ∷ rest)
byte_then _ _ _ = none

-- bytes.fromhex, which skips white space between bytes
unfoldable pub from_hex : Text → Option Bytes
from_hex [] = some []
from_hex (c ∷ []) = if is_space c then some [] else none
from_hex (c ∷ d ∷ t) =
    let skipped = from_hex (d ∷ t) in
    let after = from_hex t in
    if is_space c then skipped else byte_then (hex_digit c) (hex_digit d) after

abbrev pub is_upper : ℕ → Bool
is_upper c = leb b'A' c && leb c b'Z'

abbrev pub of_size : ℕ → Option Bytes → Option Bytes
of_size size none = none
of_size size (some bytes) = if length bytes == size then some bytes else none

-- `_hex_bytes`
unfoldable pub hex_bytes : Text → ℕ → Option Bytes
hex_bytes value size =
    if not (length value == size * 2) || some_of is_upper value
    then none
    else of_size size (from_hex value)

-- P and B of P-256; A is P - 3.
unfoldable pub prime : ℕ
prime = 115792089210356248762697446949407573530086143415290314195533631308867097853951

unfoldable pub curve_b : ℕ
curve_b = 41058363725152142129326129780047268409114441015993725554835256314039467401291

abbrev pub starts_with : ℕ → Bytes → Bool
starts_with b [] = false
starts_with b (c ∷ bs) = c == b

-- `_parse_public_key`
unfoldable pub parse_public_key : Bytes → Option (ℕ × ℕ)
parse_public_key value =
    let x = from_bytes 0 (take 32 (drop 1 value)) in
    let y = from_bytes 0 (drop 33 value) in
    if not (length value == 65 && starts_with 4 value)
    then none
    else if not (ltb x prime && ltb y prime)
    then none
    else if not ((y * y) % prime == (x * x * x + (prime - 3) * x + curve_b) % prime)
    then none
    else some (x, y)

pub record Entry : Type 0 where
  pub credential_id : Text
  pub public_key_sec1 : Text
  pub status : ℕ
  pub permissions : ℕ
  pub not_before : ℕ
  pub not_after : ℕ
  pub min_protocol : ℕ
  pub max_protocol : ℕ

pub record Snapshot : Type 0 where
  pub schema_version : ℕ
  pub door_id : Text
  pub acl_version : ℕ
  pub issued_at : ℕ
  pub not_before : ℕ
  pub expires_at : ℕ
  pub lease_duration : ℕ
  pub min_protocol : ℕ
  pub max_protocol : ℕ
  pub signing_key_id : ℕ
  pub entries : List Entry

-- a <= b of byte strings
abbrev pub bytes_leb : Bytes → Bytes → Bool
bytes_leb [] ys = true
bytes_leb (x ∷ xs) [] = false
bytes_leb (x ∷ xs) (y ∷ ys) = ltb x y || x == y && bytes_leb xs ys

-- ids == sorted(ids)
abbrev pub is_sorted : List Bytes → Bool
is_sorted [] = true
is_sorted (x ∷ []) = true
is_sorted (x ∷ y ∷ ys) = bytes_leb x y && is_sorted (y ∷ ys)

-- len(set(ids)) == len(ids)
abbrev pub is_unique : List Bytes → Bool
is_unique [] = true
is_unique (x ∷ xs) = not (some_of (λ y. list_beq y x) xs) && is_unique xs

abbrev pub credential_ids : List Entry → Option (List Bytes)
credential_ids [] = some []
credential_ids (e ∷ es) = do
  id ← hex_bytes e.credential_id 16
  rest ← credential_ids es
  some (id ∷ rest)

abbrev pub is_given {ℓ} : {A : Type ℓ} → Option A → Bool
is_given none = false
is_given (some a) = true

abbrev pub is_valid_entry : Snapshot → Entry → Bool
is_valid_entry s e =
    is_given (hex_bytes e.public_key_sec1 65 >>= parse_public_key)
    && leb e.status 1
    && leb e.permissions 1
    && ltb e.not_before e.not_after
    && leb s.min_protocol e.min_protocol
    && leb e.min_protocol e.max_protocol
    && leb e.max_protocol s.max_protocol

unfoldable pub validate_acl_fields : Snapshot → Option (Unit {0})
validate_acl_fields s = do
  guard (s.schema_version == 1)
  guard (leb 1 s.acl_version)
  guard (leb 1 s.lease_duration && leb s.lease_duration 3600)
  guard (leb s.issued_at s.not_before && ltb s.not_before s.expires_at)
  guard (leb 1 s.min_protocol && leb s.min_protocol s.max_protocol)
  guard (leb (length s.entries) 64)
  ids ← credential_ids s.entries
  guard (is_sorted ids && is_unique ids)
  guard (every (is_valid_entry s) s.entries)

-- b"".join(parts), or the error of the first part that has one
abbrev pub join : List (Option Bytes) → Option Bytes
join [] = some []
join (part ∷ parts) = do bytes ← part; rest ← join parts; some (bytes ++ rest)

abbrev pub entry_parts : Entry → List (Option Bytes)
entry_parts e =
    hex_bytes e.credential_id 16
    ∷ hex_bytes e.public_key_sec1 65
    ∷ u8 e.status
    ∷ u32 e.permissions
    ∷ u64 e.not_before
    ∷ u64 e.not_after
    ∷ u16 e.min_protocol
    ∷ u16 e.max_protocol
    ∷ []

abbrev pub encoded_entries : List Entry → List (Option Bytes)
encoded_entries [] = []
encoded_entries (e ∷ es) = join (entry_parts e) ∷ encoded_entries es

abbrev pub header_parts : Snapshot → List (Option Bytes)
header_parts s =
    some (codes "SGKACL01")
    ∷ u16 s.schema_version
    ∷ hex_bytes s.door_id 16
    ∷ u64 s.acl_version
    ∷ u64 s.issued_at
    ∷ u64 s.not_before
    ∷ u64 s.expires_at
    ∷ u32 s.lease_duration
    ∷ u16 s.min_protocol
    ∷ u16 s.max_protocol
    ∷ u32 s.signing_key_id
    ∷ u16 (length s.entries)
    ∷ []

unfoldable pub encode_acl : Snapshot → Option Bytes
encode_acl s = do
  validate_acl_fields s
  header ← join (header_parts s)
  body ← join (encoded_entries s.entries)
  some (header ++ body)
