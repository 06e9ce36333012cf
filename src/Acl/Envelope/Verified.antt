-- ===== src/Acl/Envelope/Verified.antt =====
-- What a verified envelope carries.
use smart_gatekeeper.Common.{
  ℕ, ◌≤◌, ◌<◌, ◌≡◌, ◌⊎◌, inl, inr, refl, Bool, true, false, Option, none, some, List, [], ◌∷◌,
  if◌then◌else◌, arith, nat_eq, list_eq, Bool-cases,
}
use smart_gatekeeper.Common.Dict.{Dict, lookup}
use smart_gatekeeper.Common.Text.{Text}
use smart_gatekeeper.Common.Try.{
  Try, done, gave_up, raised, given, check, compare_digest, compare_digest-done, ◌>>=◌, ◌>>◌,
}
use smart_gatekeeper.Acl.{Bytes, encode_acl}
use smart_gatekeeper.Acl.Curve.{verify_raw64}
use smart_gatekeeper.Acl.Envelope.{
  Signed, Envelope, Expected, Verdict, activate, to_hex, decoded, all_signatures, has_signature,
  tried, verdict, is_expected, is_intact, verify_snapshot_envelope,
}

>>=-done {ℓ κ} :
    {A : Type ℓ} {B : Type κ} (m : Try A) (f : A → Try B) {b : B}
    → (m >>= f) ≡ done b
    → (a : A) × (m ≡ done a) × (f a ≡ done b)
>>=-done (done a) f h = (a, refl, h)
>>=-done gave_up f h = cc
>>=-done raised f h = cc

given-done {ℓ} : {A : Type ℓ} (o : Option A) {a : A} → given o ≡ done a → o ≡ some a
given-done (some a) h = cc
given-done none h = cc

module _ (inverse : ℕ → ℕ → Option ℕ) (sha256 : Bytes → Bytes) where
  -- One of the signatures is valid for the bytes under a trusted key.
  abbrev pub IsSigned : Dict ℕ Bytes → Bytes → List Signed → Type 0
  IsSigned keys canonical [] = true ≡ false
  IsSigned keys canonical (x ∷ xs) =
      ((id : ℕ) × (key : Bytes) × (signature : Bytes) × (x.signing_key_id ≡ some id)
        × (lookup id keys ≡ some key)
        × (decoded x.signature_raw64 ≡ some signature)
        × (verify_raw64 inverse sha256 key canonical signature ≡ done true))
      ⊎ IsSigned keys canonical xs

  tried-true :
      (o : Option Bytes) (canonical signature : Bytes) (rest : Try Bool)
      → tried inverse sha256 o canonical signature rest ≡ done true
      → ((key : Bytes) × (o ≡ some key)
          × (verify_raw64 inverse sha256 key canonical signature ≡ done true))
        ⊎ (rest ≡ done true)
  tried-true none canonical signature rest h = inr h
  tried-true (some key) canonical signature rest h =
      let (valid, e, h') =
        >>=-done (verify_raw64 inverse sha256 key canonical signature)
          (λ valid. if valid then done true else rest) h in
      elim (Bool-cases valid) [
        | inl yes' ↦ inl (key, refl, rw yes' at e)
        | inr no' ↦ inr (rw no' at h')
      ]

  has_signature-IsSigned :
      (keys : Dict ℕ Bytes) (canonical : Bytes) (xs : List Signed)
      → has_signature inverse sha256 keys canonical xs ≡ done true
      → IsSigned keys canonical xs
  unfolding has_signature
  has_signature-IsSigned keys canonical [] h = cc
  has_signature-IsSigned keys canonical (x ∷ xs) h =
      let rest = has_signature inverse sha256 keys canonical xs in
      let (id, e, h1) =
        >>=-done (given x.signing_key_id)
          (λ id. given (decoded x.signature_raw64) >>= λ signature.
            tried inverse sha256 (lookup id keys) canonical signature rest)
          h in
      let (signature, d, h2) =
        >>=-done (given (decoded x.signature_raw64))
          (λ signature. tried inverse sha256 (lookup id keys) canonical signature rest) h1 in
      elim (tried-true (lookup id keys) canonical signature rest h2) [
        | inl (key, known, valid) ↦ inl (
          id,
          key,
          signature,
          given-done x.signing_key_id e,
          known,
          given-done (decoded x.signature_raw64) d,
          valid,
        )
        | inr later ↦ inr (has_signature-IsSigned keys canonical xs later)
      ]

  is_intact-done :
      (e : Envelope) (canonical : Bytes) {u : Unit {0}}
      → is_intact inverse sha256 e canonical ≡ done u
      → (to_hex canonical ≡ e.canonical_hex) × (to_hex (sha256 canonical) ≡ e.sha256)
  unfolding is_intact
  is_intact-done e canonical h = ground (
    arith,
    compare_digest-done (to_hex canonical) e.canonical_hex,
    compare_digest-done (to_hex (sha256 canonical)) e.sha256,
  )

  abbrev Matches : Envelope → Expected → Type 0
  Matches e x =
      (e.fields.door_id ≡ x.door_id)
      × (x.min_protocol ≤ e.fields.max_protocol)
      × (e.fields.min_protocol ≤ x.max_protocol)
      × (e.fields.not_before ≤ x.trusted_now)
      × (x.trusted_now < e.fields.expires_at)
      × (x.current_boot_id ≡ x.receipt_boot_id)

  is_expected-done :
      (e : Envelope) (x : Expected) {u : Unit {0}}
      → is_expected inverse sha256 e x ≡ done u
      → Matches e x
  unfolding is_expected
  is_expected-done e x h = ground (
    arith,
    compare_digest-done e.fields.door_id x.door_id,
    compare_digest-done x.current_boot_id x.receipt_boot_id,
  )

  -- What `verify_snapshot_envelope` found, for the version that it answers to activate
  pub record IsVerified (e : Envelope) (x : Expected) : Type 0 where
    pub canonical : Bytes
    pub encoded : encode_acl e.fields ≡ some canonical
    pub intact : (to_hex canonical ≡ e.canonical_hex) × (to_hex (sha256 canonical) ≡ e.sha256)
    pub matches : Matches e x
    pub signed : IsSigned x.trusted_signing_keys canonical (all_signatures e)
    pub newer : x.high_watermark < e.fields.acl_version

  newer-verdict :
      (version high : ℕ) (digest current : Text)
      → verdict inverse sha256 version high digest current ≡ done activate
      → high < version
  unfolding compare_digest
  newer-verdict version high digest current h = ground arith

  -- If `verify_snapshot_envelope` answers to activate the snapshot, then its fields encode to the
  -- envelope's bytes, whose SHA-256 is the envelope's, the door, the protocols, the trusted time and the
  -- boot are those that the Target expects, one of the signatures is valid for the bytes under a trusted
  -- key, and the version is above the high watermark.
  pub verify_snapshot_envelope-IsVerified :
      (e : Envelope) (x : Expected)
      → verify_snapshot_envelope inverse sha256 e x ≡ done activate
      → IsVerified e x
  unfolding verify_snapshot_envelope
  verify_snapshot_envelope-IsVerified e x h =
      let digest : Bytes → Text = λ c. to_hex (sha256 c) in
      let judged : Bytes → Try Verdict = λ c.
        verdict inverse sha256 e.fields.acl_version x.high_watermark (digest c) x.current_digest in
      let signed' : Bytes → Try Bool =
        λ c. has_signature inverse sha256 x.trusted_signing_keys c (all_signatures e) in
      let (c, encoded, h1) =
        >>=-done (given (encode_acl e.fields))
          (λ c.
            is_intact inverse sha256 e c
            >> (is_expected inverse sha256 e x >> (signed' c >>= λ valid. check valid >> judged c)))
          h in
      let (u, intact, h2) =
        >>=-done (is_intact inverse sha256 e c)
          (λ _. is_expected inverse sha256 e x >> (signed' c >>= λ valid. check valid >> judged c))
          h1 in
      let (w, matches, h3) =
        >>=-done (is_expected inverse sha256 e x)
          (λ _. signed' c >>= λ valid. check valid >> judged c) h2 in
      let (valid, found, h4) = >>=-done (signed' c) (λ valid. check valid >> judged c) h3 in
      elim (Bool-cases valid) [
        | inr no' ↦ absurd (let h5 : gave_up ≡ done activate = rw no' at h4 in cc)
        | inl yes' ↦ record {
          canonical = c;
          encoded = given-done (encode_acl e.fields) encoded;
          intact = is_intact-done e c intact;
          matches = is_expected-done e x matches;
          signed =
              has_signature-IsSigned x.trusted_signing_keys c (all_signatures e) (rw yes' at found);
          newer =
              newer-verdict e.fields.acl_version x.high_watermark (digest c) x.current_digest
                (rw yes' at h4);
        }
      ]
