-- ===== src/CommandSecurity/Canonical.antt =====
-- What is bound by a signed command.
use mathlib.Core.Path.{subst}
use smart_gatekeeper.Common.{
  ℕ, ◌+◌, ◌≤◌, ◌<◌, ◌≡◌, refl, Bool, true, false, ◌&&◌, not, Option, none, some, List, [], ◌∷◌, leb,
  ◌==◌, arith, length, every, ltb, All, and_parts, nat_eq, Bool-cases, inl, inr,
}
use smart_gatekeeper.Common.Text.{Text, codes}
use smart_gatekeeper.CommandSecurity.{
  Command, Order, text, fields, is_action, is_name_char, is_valid_value, canonical_command,
  envelope_of, signed, header, encode_ascii, build_signed_command,
}

-- A text that fits in one line of the canonical text
abbrev pub IsLine : Text → Type 0
IsLine t = (0 < length t) × (length t ≤ 48) × (every (λ c. not (c == 10)) t ≡ true)

every-All {ℓ} :
    {A : Type ℓ} (p : A → Bool) (xs : List A) → every p xs ≡ true → All (λ x. p x ≡ true) xs
every-All p [] h = tt
every-All p (x ∷ xs) h =
    let (first, rest) = and_parts (p x) (every p xs) h in (first, every-All p xs rest)

lifetime :
    (now ttl : ℕ)
    → not (leb 1 ttl && leb ttl 120) ≡ false
    → (now < now + ttl) × (now + ttl ≤ now + 120)
lifetime now ttl h = ground arith

module _ (is_alnum : ℕ → Bool) where
  no_break :
      (t : Text)
      → is_alnum 10 ≡ false
      → every (is_name_char is_alnum) t ≡ true
      → every (λ c. not (c == 10)) t ≡ true
  no_break [] h v = refl
  no_break (c ∷ t) h v = elim (Bool-cases (c == 10)) [
    | inl line ↦ absurd (let e : c ≡ 10 = ground arith in let v' = rw e at v in ground arith)
    | inr other ↦ rw other (no_break t h (ground arith))
  ]

  valid_line :
      (name t : Text)
      → is_alnum 10 ≡ false
      → is_valid_value is_alnum (name, text t) ≡ true
      → IsLine t
  valid_line name t h v = (ground arith, ground arith, no_break t h (ground arith))

  pub record IsBound (sign : Text → Text) (c : Command) (signature : Text) : Type 0 where
    pub canonical : Text
    pub shown : canonical_command is_alnum c ≡ some canonical
    pub ascii : every (λ b. ltb b 128) canonical ≡ true
    pub by_signer : signature ≡ sign canonical
    pub short_lived : (c.issued_at < c.expires_at) × (c.expires_at ≤ c.issued_at + 120)
    pub known_action : is_action c.action ≡ true
    pub target : IsLine c.target_id
    pub tenant : IsLine c.tenant_id
    pub door : IsLine c.door_id
    pub boot : IsLine c.boot_id
    pub session : IsLine c.session_id
    pub fresh : IsLine c.nonce

  encoded : (t u : Text) → encode_ascii is_alnum t ≡ some u → every (λ b. ltb b 128) u ≡ true
  encoded t u h = elim (Bool-cases (every (λ b. ltb b 128) t)) [
    | inr no' ↦ absurd (let h' : none ≡ some u = rw no' at h in cc)
    | inl plain ↦ let h' : some t ≡ some u = rw plain at h in let e : t ≡ u = cc in rw (← e) plain
  ]

  canonical-parts :
      (c : Command) (t : Text)
      → canonical_command is_alnum c ≡ some t
      → (is_action c.action ≡ true)
        × (every (is_valid_value is_alnum) (fields c) ≡ true)
        × (every (λ b. ltb b 128) t ≡ true)
  unfolding canonical_command
  canonical-parts c t h = elim (Bool-cases (is_action c.action)) [
    | inr no' ↦ absurd (let h' : none ≡ some t = rw no' at h in cc)
    | inl known ↦ elim (Bool-cases (every (is_valid_value is_alnum) (fields c))) [
      | inr no' ↦ absurd (let h' : none ≡ some t = rw (known, no') at h in cc)
      | inl valid ↦
          let h' : encode_ascii is_alnum (header is_alnum c) ≡ some t = rw (known, valid) at h in
          (known, valid, encoded (header is_alnum c) t h')
    ]
  ]

  signed-parts :
      (sign : Text → Text) (c d : Command) (o : Option Text) (signature : Text)
      → signed is_alnum c sign o ≡ some (d, signature)
      → (t : Text) × (o ≡ some t) × (c ≡ d) × (signature ≡ sign t)
  signed-parts sign c d none signature h = cc
  signed-parts sign c d (some t) signature h = (t, refl, cc, cc)

  -- Where `str.isalnum` is false of a line break: a command that is built has a canonical text, which is
  -- what the signer signed, in ASCII; it expires between 1 and 120 seconds after it was issued; its action is one
  -- of the allowed ones; and the Target, tenant, door, boot, session and nonce that it names are texts of
  -- 1 to 48 characters without a line break.
  pub build_signed_command-IsBound :
      (sign : Text → Text) (key_id : ℕ) (o : Order is_alnum) (c : Command) (signature : Text)
      → is_alnum 10 ≡ false
      → build_signed_command is_alnum key_id sign o ≡ some (c, signature)
      → IsBound sign c signature
  unfolding build_signed_command
  build_signed_command-IsBound sign key_id o c signature no_line h =
      elim (Bool-cases (not (leb 1 o.ttl_seconds && leb o.ttl_seconds 120))) [
        | inl refused ↦ absurd (let h' : none ≡ some (c, signature) = rw refused at h in cc)
        | inr allowed ↦
            let e = envelope_of is_alnum key_id o in
            let (t, shown, same, by) =
              signed-parts sign e c (canonical_command is_alnum e) signature (rw allowed at h) in
            let (known, valid, plain) = canonical-parts e t shown in
            let values = every-All (is_valid_value is_alnum) (fields e) valid in
            let bound : IsBound sign e signature = record {
              canonical = t;
              shown = shown;
              ascii = plain;
              by_signer = by;
              short_lived = lifetime o.now o.ttl_seconds allowed;
              known_action = known;
              target =
                  valid_line (codes "target_id") e.target_id no_line values.1.1.1.1.1.1.1.1.1.0;
              tenant =
                  valid_line (codes "tenant_id") e.tenant_id no_line values.1.1.1.1.1.1.1.1.1.1.0;
              door = valid_line (codes "door_id") e.door_id no_line values.1.1.0;
              boot = valid_line (codes "boot_id") e.boot_id no_line values.1.0;
              session =
                  valid_line (codes "session_id") e.session_id no_line values.1.1.1.1.1.1.1.1.0;
              fresh = valid_line (codes "nonce") e.nonce no_line values.1.1.1.1.1.1.0;
            } in
            subst (λ d. IsBound sign d signature) same bound
      ]
