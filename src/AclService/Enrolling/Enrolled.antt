-- ===== src/AclService/Enrolling/Enrolled.antt =====
-- What a successful enrollment means.
use smart_gatekeeper.Common.{
  ℕ, ◌<◌, ◌≤◌, ◌≡◌, ◌∙◌, ap, Bool, true, Option, some, list_eq, nat_eq, arith,
}
use smart_gatekeeper.Common.Dict.{lookup}
use smart_gatekeeper.Common.Text.{Text}
use smart_gatekeeper.Common.Try.{Try, compare_digest, compare_digest-done}
use smart_gatekeeper.Acl.{Bytes, hex_bytes, from_hex}
use smart_gatekeeper.Acl.Curve.{verify_raw64}
use smart_gatekeeper.Acl.Enrollment.{build_enrollment_input}
use smart_gatekeeper.Acl.Envelope.{to_hex}
use smart_gatekeeper.AclStore.{ok, Challenge, Db}
use smart_gatekeeper.AclStore.Credentials.{get_challenge, challenge_of, is_unused}
use smart_gatekeeper.AclStore.Credentials.Once.{consume_ends}
use smart_gatekeeper.AclStore.Snapshots.{append_audit}
use smart_gatekeeper.AclStore.History.Writes.{is_spent}
use smart_gatekeeper.AclService.{Config, World, Action, compare, ◌>>=◌}
use smart_gatekeeper.AclService.Enrolling.Quiet.{
  active_tenant-IsQuiet, authorize_tenant-IsQuiet, require-same, legacy_ref_of-same,
}
use smart_gatekeeper.AclService.Binds.{
  >>=-ok, or_raise->>=, transact->>=, look->>=, require->>=, require-ok, pure-ok, time->>=,
  audit->>=, of_try->>=, token->>=,
}
use smart_gatekeeper.AclService.Enrolling.{
  Submission, check_challenge, check_signature, submitted, enroll, submit_enrollment,
}

get_challenge-same :
    (tenant_id enrollment_id : Text) (a b : Db)
    → a.challenges ≡ b.challenges
    → get_challenge tenant_id enrollment_id a ≡ get_challenge tenant_id enrollment_id b
unfolding get_challenge
get_challenge-same tenant_id enrollment_id a b h =
    ap (λ d. challenge_of tenant_id (lookup enrollment_id d)) h

module _ (c : Config) where
  -- The challenge is the actor's, unused and not over, and the nonce is the one that was issued.
  pub record IsAnswered (challenge : Challenge) (actor_ref : Text) (s : Submission) (now : ℕ)
      : Type 0 where
    pub nonce : Bytes
    pub same_actor : challenge.actor_ref ≡ actor_ref
    pub unused : is_unused challenge ≡ true
    pub in_time : now < challenge.expires_at
    pub is_nonce : hex_bytes s.nonce_hex 32 ≡ some nonce
    pub same_nonce : to_hex (c.sha256 nonce) ≡ challenge.nonce_hash

  -- The signature over the enrollment input verifies under the submitted key.
  pub record IsSigned (tenant_id : Text) (s : Submission) : Type 0 where
    pub payload : Bytes
    pub key : Bytes
    pub signature : Bytes
    pub is_payload :
        build_enrollment_input tenant_id s.enrollment_id s.nonce_hex s.public_key_hex 1
        ≡ some payload
    pub is_key : hex_bytes s.public_key_hex 65 ≡ some key
    pub is_signature : from_hex s.signature_hex ≡ some signature
    pub verified : verify_raw64 c.inverse c.sha256 key payload signature ≡ Try.done true

  compare->>= :
      {B : Type 0} (a b : Text) (f : Bool → Action B) (w : World) (x : B) (w' : World)
      → (compare a b >>= f) w ≡ (ok x, w')
      → (r : Bool) × (compare_digest a b ≡ Try.done r) × (f r w ≡ (ok x, w'))
  unfolding compare
  compare->>= a b f w x w' h = of_try->>= (compare_digest a b) f w x w' h

  check_challenge-IsAnswered :
      (challenge : Challenge) (actor_ref : Text) (s : Submission) (now : ℕ) (w : World)
      (u : Unit {0}) (w' : World)
      → check_challenge c challenge actor_ref s now w ≡ (ok u, w')
      → IsAnswered challenge actor_ref s now × (w ≡ w')
  unfolding check_challenge
  check_challenge-IsAnswered challenge actor_ref s now w u w' h =
      let (same, actor, k1) = compare->>= _ _ _ w u w' h in
      let (is_same, k2) = require->>= _ _ _ w u w' k1 in
      let (unused, k3) = require->>= _ _ _ w u w' k2 in
      let (in_time, k4) = require->>= _ _ _ w u w' k3 in
      let (nonce, is_nonce, k5) = or_raise->>= _ _ _ w u w' k4 in
      let (match, hashes, k6) = compare->>= _ _ _ w u w' k5 in
      let is_match = require-ok match _ w u w' k6 in
      (
        record {
          nonce = nonce;
          same_actor = compare_digest-done _ _ (rw is_same at actor);
          unused = unused;
          in_time = ground arith;
          is_nonce = is_nonce;
          same_nonce = compare_digest-done _ _ (rw is_match at hashes);
        },
        require-same match _ w u w' k6,
      )

  check_signature-IsSigned :
      (tenant_id : Text) (s : Submission) (w : World) (u : Unit {0}) (w' : World)
      → check_signature c tenant_id s w ≡ (ok u, w')
      → IsSigned tenant_id s × (w ≡ w')
  unfolding check_signature
  check_signature-IsSigned tenant_id s w u w' h =
      let (payload, is_payload, k1) = or_raise->>= _ _ _ w u w' h in
      let (key, is_key, k2) = or_raise->>= _ _ _ w u w' k1 in
      let (signature, is_signature, k3) = or_raise->>= _ _ _ w u w' k2 in
      let (valid, verified, k4) = of_try->>= _ _ w u w' k3 in
      let is_valid = require-ok valid _ w u w' k4 in
      (
        record {
          payload = payload;
          key = key;
          signature = signature;
          is_payload = is_payload;
          is_key = is_key;
          is_signature = is_signature;
          verified = rw is_valid at verified;
        },
        require-same valid _ w u w' k4,
      )

  -- The credential is stored as a PENDING one, and the challenge consumed.
  abbrev pub IsStored : Text → Submission → ℕ → Text → World → Type 0
  IsStored tenant_id s now credential_id w =
      (ref : Option Text) × (lookup credential_id w.db.credentials
        ≡ some (submitted c tenant_id s ref now))
      × (is_spent s.enrollment_id w.db ≡ true)

  enroll-IsStored :
      (tenant_id : Text) (s : Submission) (actor_ref : Text) (now : ℕ) (w : World)
      (credential_id : Text) (w' : World)
      → enroll c tenant_id s actor_ref now w ≡ (ok credential_id, w')
      → IsStored tenant_id s now credential_id w' × (w.clock_reads < w'.clock_reads)
  unfolding enroll append_audit is_spent
  enroll-IsStored tenant_id s actor_ref now w id w' h =
      let made = to_hex (c.token_bytes w.draws 16) in
      let k1 = token->>= c 16 _ w id w' h in
      let (ref, w2, h2, k2) = >>=-ok _ _ _ id w' k1 in
      let values = submitted c tenant_id s ref now in
      let (fresh, returned, k3) = transact->>= _ _ w2 id w' k2 in
      let (is_fresh, k4) = require->>= _ _ _ _ id w' k3 in
      let k5 = audit->>= c _ _ _ _ _ _ _ id w' k4 in
      let (is_id, is_w) = pure-ok _ _ id w' k5 in
      let ends = consume_ends tenant_id s.enrollment_id actor_ref now made values w2.db in
      let (there, consumed) = ends.0 (returned ∙ ap (λ b. ok b) is_fresh) in
      let credentials = ap (λ x. x.db.credentials) is_w in
      let challenges = ap (λ x. x.db.challenges) is_w in
      let same = legacy_ref_of-same c s.legacy_device_id _ ref w2 h2 in
      let reads = ap (λ x. x.clock_reads) same in
      let reads' = ap (λ x. x.clock_reads) is_w in
      (
        (ref, rw (← is_id, ← credentials) there, rw (← challenges) consumed),
        omega (arith, reads, reads'),
      )

  -- What a submission that returned a credential id says
  pub record IsEnrolled (tenant_id : Text) (s : Submission) (actor_ref : Text) (w : World)
      (credential_id : Text) (w' : World) : Type 0 where
    pub challenge : Challenge
    -- which reading of the clock it was
    pub reading : ℕ
    pub is_during : (w.clock_reads ≤ reading) × (reading < w'.clock_reads)
    pub issued : get_challenge tenant_id s.enrollment_id w.db ≡ some challenge
    pub answered : IsAnswered challenge actor_ref s (c.clock reading)
    pub signed : IsSigned tenant_id s
    pub stored : IsStored tenant_id s (c.clock reading) credential_id w'

  -- When `submit_enrollment` returns a credential id, then before the call the tenant's challenge was
  -- stored under the enrollment id, for the same actor and unused; at a time that the clock showed
  -- during the call it had not ended; the nonce is the one whose hash it holds; the signature over the
  -- enrollment input verifies under the submitted key; and afterwards the challenge is consumed and the
  -- credential is stored under the id as a PENDING one with that key and of that time.
  pub submit_enrollment-IsEnrolled :
      (tenant_id : Text) (s : Submission) (actor_ref : Text) (actor : Option Text) (w : World)
      (credential_id : Text) (w' : World)
      → submit_enrollment c tenant_id s actor_ref actor w ≡ (ok credential_id, w')
      → IsEnrolled tenant_id s actor_ref w credential_id w'
  unfolding submit_enrollment
  submit_enrollment-IsEnrolled tenant_id s actor_ref actor w id w' h =
      let (u1, w1, h1, k1) = >>=-ok _ _ w id w' h in
      let (u2, w2, h2, k2) = >>=-ok _ _ w1 id w' k1 in
      let k3 = time->>= c _ w2 id w' k2 in
      let k4 = look->>= _ _ _ id w' k3 in
      let (challenge, is_challenge, k5) = or_raise->>= _ _ _ _ id w' k4 in
      let (u5, w5, h5, k6) = >>=-ok _ _ _ id w' k5 in
      let (u6, w6, h6, k7) = >>=-ok _ _ w5 id w' k6 in
      let (range, k8) = require->>= _ _ _ w6 id w' k7 in
      let now = c.clock w2.clock_reads in
      let answers = check_challenge-IsAnswered challenge actor_ref s now _ u5 w5 h5 in
      let signature = check_signature-IsSigned tenant_id s w5 u6 w6 h6 in
      let end = enroll-IsStored tenant_id s actor_ref now w6 id w' k8 in
      let checks = ap (λ x. x.clock_reads) answers.1 in
      let signs = ap (λ x. x.clock_reads) signature.1 in
      let since = active_tenant-IsQuiet c tenant_id w u1 w1 h1 in
      let same = authorize_tenant-IsQuiet tenant_id actor w1 u2 w2 h2 in
      record {
        challenge = challenge;
        reading = w2.clock_reads;
        is_during = (omega (arith, since.1, same.1), omega (arith, checks, signs, end.1));
        issued =
            get_challenge-same tenant_id s.enrollment_id w.db w2.db (since.0 ∙ same.0)
            ∙ is_challenge;
        answered = answers.0;
        signed = signature.0;
        stored = end.0;
      }
