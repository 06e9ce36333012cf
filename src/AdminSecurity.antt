-- ===== src/AdminSecurity.antt =====
-- backend/app/admin_security.py: administrator sessions and their authorization. Times are whole
-- seconds of `time.time()`; SHA-256 and the random tokens are parameters. A call reads the
-- clock once. `authenticate_personal_password` is two steps, one for each time that it takes the lock, and
-- other calls may come between them; every other call is one step.
pub mod Logins
pub mod Sessions
pub mod Authorization
pub mod Guessing
use smart_gatekeeper.Common.{
  ℕ, ◌+◌, Bool, true, false, ◌&&◌, ◌||◌, not, Option, none, some, List, [], ◌∷◌, ◌++◌,
  if◌then◌else◌, ltb, leb, ◌==◌, list_eq, nat_eq, list_beq, length, keep, some_of, Eq,
}
use smart_gatekeeper.Common.Dict.{Dict, lookup, set_item, remove}
use smart_gatekeeper.Common.Int.{ℤ, leb_ℤ}
use smart_gatekeeper.Common.Text.{Text, codes, is_lower_hex}
use smart_gatekeeper.Common.Json.{Json, Items, nil, cons, str, arr, Fields, get, as_object, as_text}
use smart_gatekeeper.Common.Result.{◌>>=◌}
use smart_gatekeeper.Common.Try.{Try, done, gave_up, raised, compare_digest}

-- What a call returns: `http` is an HTTPException with its status code, and `type_error` the TypeError
-- that the comparison of a text outside ASCII raises.
pub data Answer {ℓ} (A : Type ℓ) : Type ℓ where
  ok : A → Answer A
  http : ℕ → Answer A
  type_error : Answer A

pub record Identity : Type 0 where
  pub subject : Text
  pub roles : List Text
  pub tenants : List Text
  pub auth_method : Text

-- AdminPrincipal
pub record Principal : Type 0 where
  pub subject : Text
  pub roles : List Text
  pub tenants : List Text
  pub session_id : Text
  pub csrf_token : Text
  pub expires_at : ℕ
  pub auth_method : Text

-- _Session
pub record Session : Type 0 where
  pub subject : Text
  pub roles : List Text
  pub tenants : List Text
  pub csrf_token : Text
  pub expires_at : ℕ
  pub key_epoch : ℕ
  pub issued_at : ℕ
  pub auth_method : Text

pub record Admin : Type 0 where
  pub identities : Dict Text Json
  pub session_seconds : ℕ
  pub reauth_seconds : ℕ
  pub auth_attempts : ℕ
  pub auth_window : ℕ
  pub key_epoch : ℕ
  pub trusted_proxies : List Text
  pub personal_password : Text
  pub sessions : Dict Text Session
  pub attempts : Dict Text (List ℕ)

-- The parts of an HTTP request that are read, a missing header with its default of "".
pub record Request : Type 0 where
  pub client : Option Text
  pub cookie : Option Text
  pub csrf : Text
  pub reauth : Text
  pub client_verify : Option Text
  pub client_fingerprint : Text
  pub now : ℕ

abbrev pub is_empty {ℓ} : {A : Type ℓ} → List A → Bool
is_empty [] = true
is_empty (x ∷ xs) = false

abbrev pub is_member : Text → List Text → Bool
is_member t ts = some_of (λ u. list_beq u t) ts

unfoldable pub create : Dict Text Json → List Text → Text → Admin
create identities proxies password = record {
  identities = identities;
  session_seconds = 900;
  reauth_seconds = 120;
  auth_attempts = 5;
  auth_window = 60;
  key_epoch = 1;
  trusted_proxies = proxies;
  personal_password = if leb 20 (length password) then password else [];
  sessions = [];
  attempts = [];
}

-- `_positive_env`, of what `int` makes of the variable's text
unfoldable pub positive_env : ℤ → ℤ → ℤ → Option ℤ → ℤ
positive_env default minimum maximum none = default
positive_env default minimum maximum (some value) =
    if leb_ℤ minimum value && leb_ℤ value maximum then value else default

unfoldable pub enabled : Admin → Bool
enabled s = not (is_empty s.identities) || not (is_empty s.personal_password)

unfoldable pub browser_login_ready : Admin → Bool
browser_login_ready s =
    not (is_empty s.personal_password)
    || not (is_empty s.identities) && not (is_empty s.trusted_proxies)

unfoldable pub rotate_sessions : Admin → Admin
rotate_sessions s = record s { key_epoch = s.key_epoch + 1; sessions = [] }

-- request.client.host if request.client else "unknown"
abbrev pub client_key : Request → Text
client_key r = elim r.client [ none ↦ codes "unknown" | some host ↦ host ]

abbrev stamps_of : Option (List ℕ) → List ℕ
stamps_of none = []
stamps_of (some stamps) = stamps

abbrev pub recent : ℕ → ℕ → List ℕ → List ℕ
recent now window stamps = keep (λ stamp. ltb now (stamp + window)) stamps

unfoldable pub live_attempts : Text → ℕ → Admin → List ℕ
live_attempts client now s = recent now s.auth_window (stamps_of (lookup client s.attempts))

-- `_failed_attempt`
unfoldable pub failed_attempt : Text → ℕ → Admin → Admin
failed_attempt client now s = record s {
  attempts = set_item client (live_attempts client now s ++ now ∷ []) s.attempts;
}

abbrev pub is_limited : Text → ℕ → Admin → Bool
is_limited client now s = leb s.auth_attempts (length (live_attempts client now s))

abbrev pub keep_live : Text → ℕ → Admin → Admin
keep_live client now s = record s {
  attempts = set_item client (live_attempts client now s) s.attempts;
}
