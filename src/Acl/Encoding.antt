-- ===== src/Acl/Encoding.antt =====
-- The canonical bytes have a fixed layout.
use smart_gatekeeper.Common.{
  ℕ, zero, suc, ◌+◌, ◌*◌, ◌≤◌, ◌<◌, ◌≡◌, refl, ap, true, false, Option, none, some, List, [], ◌∷◌,
  ◌++◌, length, arith, length-append,
}
use smart_gatekeeper.Common.Text.{Text, codes}
use smart_gatekeeper.Common.Result.{◌>>=◌, >>=-eq-some}
use smart_gatekeeper.Acl.{
  Bytes, Entry, Snapshot, to_bytes, u8, u16, u32, u64, hex_bytes, from_hex, of_size, join,
  entry_parts, encoded_entries, header_parts, encode_acl, validate_acl_fields,
}

length-to_bytes : (n value : ℕ) → length (to_bytes n value) ≡ n
unfolding to_bytes
length-to_bytes zero value = refl
length-to_bytes (suc n) value = ap (λ (m : ℕ). suc m) (length-to_bytes n value)

length-u8 : (value : ℕ) (b : Bytes) → u8 value ≡ some b → length b ≡ 1
unfolding u8
length-u8 value b h = ground (arith, length-to_bytes 1 value)

pub length-u16 : (value : ℕ) (b : Bytes) → u16 value ≡ some b → length b ≡ 2
unfolding u16
length-u16 value b h = ground (arith, length-to_bytes 2 value)

length-u32 : (value : ℕ) (b : Bytes) → u32 value ≡ some b → length b ≡ 4
unfolding u32
length-u32 value b h = ground (arith, length-to_bytes 4 value)

length-u64 : (value : ℕ) (b : Bytes) → u64 value ≡ some b → length b ≡ 8
unfolding u64
length-u64 value b h = ground (arith, length-to_bytes 8 value)

length-of_size :
    (size : ℕ) (o : Option Bytes) (b : Bytes) → of_size size o ≡ some b → length b ≡ size
length-of_size size none b h = cc
length-of_size size (some a) b h = ground arith

pub length-hex_bytes :
    (value : Text) (size : ℕ) (b : Bytes) → hex_bytes value size ≡ some b → length b ≡ size
unfolding hex_bytes
length-hex_bytes value size b h = ground (arith, length-of_size size (from_hex value) b)

join-cons :
    (n m : ℕ) (part : Option Bytes) (parts : List (Option Bytes)) (b : Bytes)
    → ((c : Bytes) → part ≡ some c → length c ≡ n)
    → ((c : Bytes) → join parts ≡ some c → length c ≡ m)
    → join (part ∷ parts) ≡ some b
    → length b ≡ n + m
join-cons n m part parts b one rest h =
    let (c, pc, h') =
      >>=-eq-some part (λ bytes. join parts >>= λ others. some (bytes ++ others)) h in
    let (d, pd, h2) = >>=-eq-some (join parts) (λ others. some (c ++ others)) h' in
    let e : c ++ d ≡ b = cc in
    omega (arith, ap (λ (l : Bytes). length l) e, length-append c d, one c pc, rest d pd)

join-nil : (b : Bytes) → join [] ≡ some b → length b ≡ 0
join-nil b h = let e : [] ≡ b = cc in rw (← e) refl

length-domain : (b : Bytes) → some (codes "SGKACL01") ≡ some b → length b ≡ 8
length-domain b h = let e : codes "SGKACL01" ≡ b = cc in rw (← e) refl

-- Each part, where it is there, has the size that stands at its place.
abbrev pub IsSized : List (Option Bytes) → List ℕ → Type 0
IsSized [] [] = Unit
IsSized (part ∷ parts) (n ∷ sizes) =
    ((c : Bytes) → part ≡ some c → length c ≡ n) × IsSized parts sizes
IsSized _ _ = true ≡ false

abbrev pub sum : List ℕ → ℕ
sum [] = 0
sum (n ∷ sizes) = n + sum sizes

pub length-join :
    (parts : List (Option Bytes)) (sizes : List ℕ) (b : Bytes)
    → IsSized parts sizes
    → join parts ≡ some b
    → length b ≡ sum sizes
length-join [] [] b p h = join-nil b h
length-join [] (n ∷ sizes) b p h = cc
length-join (part ∷ parts) [] b p h = cc
length-join (part ∷ parts) (n ∷ sizes) b p h =
    join-cons n (sum sizes) part parts b p.0 (λ c h'. length-join parts sizes c p.1 h') h

length-entry : (e : Entry) (b : Bytes) → join (entry_parts e) ≡ some b → length b ≡ 106
length-entry e b h =
    length-join (entry_parts e) (16 ∷ 65 ∷ 1 ∷ 4 ∷ 8 ∷ 8 ∷ 2 ∷ 2 ∷ []) b
      (
        length-hex_bytes e.credential_id 16,
        (
          length-hex_bytes e.public_key_sec1 65,
          (
            length-u8 e.status,
            (
              length-u32 e.permissions,
              (
                length-u64 e.not_before,
                (
                  length-u64 e.not_after,
                  (length-u16 e.min_protocol, (length-u16 e.max_protocol, tt)),
                ),
              ),
            ),
          ),
        ),
      )
      h

length-header : (s : Snapshot) (b : Bytes) → join (header_parts s) ≡ some b → length b ≡ 72
length-header s b h =
    length-join (header_parts s) (8 ∷ 2 ∷ 16 ∷ 8 ∷ 8 ∷ 8 ∷ 8 ∷ 4 ∷ 2 ∷ 2 ∷ 4 ∷ 2 ∷ []) b
      (
        length-domain,
        (
          length-u16 s.schema_version,
          (
            length-hex_bytes s.door_id 16,
            (
              length-u64 s.acl_version,
              (
                length-u64 s.issued_at,
                (
                  length-u64 s.not_before,
                  (
                    length-u64 s.expires_at,
                    (
                      length-u32 s.lease_duration,
                      (
                        length-u16 s.min_protocol,
                        (
                          length-u16 s.max_protocol,
                          (length-u32 s.signing_key_id, (length-u16 (length s.entries), tt)),
                        ),
                      ),
                    ),
                  ),
                ),
              ),
            ),
          ),
        ),
      )
      h

length-entries :
    (es : List Entry) (b : Bytes) → join (encoded_entries es) ≡ some b → length b ≡ 106 * length es
length-entries [] b h = join-nil b h
length-entries (e ∷ es) b h = omega (
  arith,
  join-cons 106 (106 * length es) (join (entry_parts e)) (encoded_entries es) b (length-entry e)
      (length-entries es) h,
)

few_entries :
    (s : Snapshot) {u : Unit {0}}
    → validate_acl_fields s ≡ some u
    → (length s.entries ≤ 64)
      × (1 ≤ s.lease_duration)
      × (s.lease_duration ≤ 3600)
      × (s.not_before < s.expires_at)
unfolding validate_acl_fields
few_entries s h = ground arith

-- Where `encode_acl` returns, the snapshot has at most 64 entries, a lease between one second and an
-- hour and a range of validity that is not empty, and the bytes are 72 for the header and 106 for each
-- entry, so at most 6,856.
pub encode_acl-layout :
    (s : Snapshot) (b : Bytes)
    → encode_acl s ≡ some b
    → (length b ≡ 72 + 106 * length s.entries)
      × (length b ≤ 6856)
      × (1 ≤ s.lease_duration)
      × (s.lease_duration ≤ 3600)
      × (s.not_before < s.expires_at)
unfolding encode_acl
encode_acl-layout s b h =
    let (u, valid, h1) =
      >>=-eq-some (validate_acl_fields s)
        (λ _. join (header_parts s) >>= λ header.
          join (encoded_entries s.entries) >>= λ body. some (header ++ body))
        h in
    let (header, hh, h2) =
      >>=-eq-some (join (header_parts s))
        (λ header. join (encoded_entries s.entries) >>= λ body. some (header ++ body)) h1 in
    let (body, hb, h3) =
      >>=-eq-some (join (encoded_entries s.entries)) (λ body. some (header ++ body)) h2 in
    let e : header ++ body ≡ b = cc in
    let (few, lease, hour, valid') = few_entries s valid in
    let size : length b ≡ 72 + 106 * length s.entries = omega (
      arith,
      ap (λ (l : Bytes). length l) e,
      length-append header body,
      length-header s header hh,
      length-entries s.entries body hb,
    ) in
    (size, omega arith, lease, hour, valid')
