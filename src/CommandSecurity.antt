-- ===== src/CommandSecurity.antt =====
-- backend/app/command_security.py: the canonical text of a command that is signed for a Target, and the
-- envelope. `none` is a ValueError, and so is the UnicodeEncodeError of `encode("ascii")`; the signer, the
-- test `str.isalnum` and the fresh ids are parameters. The value of a command is an integer; the times and
-- the key id are not negative.
pub mod Canonical
use Prim.Native.String.{String}
use smart_gatekeeper.Common.{
  ℕ, zero, suc, ◌+◌, ◌/◌, ◌%◌, Bool, true, false, ◌&&◌, ◌||◌, not, Option, none, some, List, [],
  ◌∷◌, ◌++◌, if◌then◌else◌, ltb, leb, ◌==◌, nat_eq, list_beq, length, every, some_of,
}
use smart_gatekeeper.Common.Text.{Text, codes}
use smart_gatekeeper.Common.Int.{ℤ, pos, negsuc}

-- The values of an envelope that are signed
pub record Command : Type 0 where
  pub schema_version : ℕ
  pub target_id : Text
  pub tenant_id : Text
  pub door_id : Text
  pub boot_id : Text
  pub action : Text
  pub session_id : Text
  pub nonce : Text
  pub issued_at : ℕ
  pub expires_at : ℕ
  pub key_id : ℕ
  pub value : ℤ

-- ALLOWED_ACTIONS
abbrev pub allowed_actions : List Text
allowed_actions =
    codes "arm"
    ∷ codes "manual_remote"
    ∷ codes "set_tx_power"
    ∷ codes "set_distance_threshold"
    ∷ codes "set_duration"
    ∷ codes "set_relay_cooldown"
    ∷ codes "ota_check"
    ∷ codes "reboot"
    ∷ []

abbrev pub is_action : Text → Bool
is_action action = some_of (λ a. list_beq a action) allowed_actions

-- str(n), with fuel for its digits
unfoldable pub digits : ℕ → ℕ → Text
digits zero n = []
digits (suc f) n =
    let rest = digits f (n / 10) in if ltb n 10 then (n + 48) ∷ [] else rest ++ (n % 10 + 48) ∷ []

-- a field, as text or number
pub data Value : Type 0 where
  text : Text → Value
  number : ℤ → Value

abbrev pub fields : Command → List (Text × Value)
fields c =
    (codes "action", text c.action)
    ∷ (codes "boot_id", text c.boot_id)
    ∷ (codes "door_id", text c.door_id)
    ∷ (codes "expires_at", number (pos c.expires_at))
    ∷ (codes "issued_at", number (pos c.issued_at))
    ∷ (codes "key_id", number (pos c.key_id))
    ∷ (codes "nonce", text c.nonce)
    ∷ (codes "schema_version", number (pos c.schema_version))
    ∷ (codes "session_id", text c.session_id)
    ∷ (codes "target_id", text c.target_id)
    ∷ (codes "tenant_id", text c.tenant_id)
    ∷ (codes "value", number c.value)
    ∷ []

module _ (is_alnum : ℕ → Bool) where
  abbrev pub is_name_char : ℕ → Bool
  is_name_char c = is_alnum c || c == b'-' || c == b'_' || c == b'.' || c == b':'

  abbrev pub is_valid_value : Text × Value → Bool
  is_valid_value (name, number n) = true
  is_valid_value (name, text t) = ltb 0 (length t) && leb (length t) 48 && every is_name_char t

  abbrev pub shown : Value → Text
  shown (text t) = t
  shown (number (pos n)) = digits (suc n) n
  shown (number (negsuc n)) = 45 ∷ digits (suc (suc n)) (suc n)

  -- "".join(f"{name}={value}\n" for name, value in fields)
  abbrev pub lines : List (Text × Value) → Text
  lines [] = []
  lines ((name, v) ∷ fs) = name ++ (61 ∷ []) ++ shown v ++ (10 ∷ []) ++ lines fs

  abbrev pub header : Command → Text
  header c = codes "sgk-command-v1" ++ (10 ∷ []) ++ lines (fields c)

  -- encode("ascii")
  abbrev pub encode_ascii : Text → Option Text
  encode_ascii t = if every (λ b. ltb b 128) t then some t else none

  unfoldable pub canonical_command : Command → Option Text
  canonical_command c =
      if not (is_action c.action)
      then none
      else if not (every is_valid_value (fields c))
      then none
      else encode_ascii (header c)

  -- The envelope: the command and what the signer makes of its canonical text
  abbrev signed : Command → (Text → Text) → Option Text → Option (Command × Text)
  signed c sign none = none
  signed c sign (some t) = some (c, sign t)

  abbrev or_fresh : Option Text → Text → Text
  or_fresh none fresh = fresh
  or_fresh (some []) fresh = fresh
  or_fresh (some (c ∷ t)) fresh = c ∷ t

  -- The keyword arguments of `build_signed_command`, with the two ids that `uuid4` returns
  pub record Order : Type 0 where
    pub target_id : Text
    pub tenant_id : Text
    pub door_id : Text
    pub boot_id : Text
    pub action : Text
    pub value : ℤ
    pub now : ℕ
    pub ttl_seconds : ℕ
    pub session_id : Option Text
    pub nonce : Option Text
    pub fresh_session : Text
    pub fresh_nonce : Text

  abbrev pub envelope_of : ℕ → Order → Command
  envelope_of key_id o = record {
    schema_version = 1;
    target_id = o.target_id;
    tenant_id = o.tenant_id;
    door_id = o.door_id;
    boot_id = o.boot_id;
    action = o.action;
    session_id = or_fresh o.session_id o.fresh_session;
    nonce = or_fresh o.nonce o.fresh_nonce;
    issued_at = o.now;
    expires_at = o.now + o.ttl_seconds;
    key_id = key_id;
    value = o.value;
  }

  unfoldable pub build_signed_command : ℕ → (Text → Text) → Order → Option (Command × Text)
  build_signed_command key_id sign o =
      if not (leb 1 o.ttl_seconds && leb o.ttl_seconds 120)
      then none
      else signed (envelope_of key_id o) sign (canonical_command (envelope_of key_id o))
