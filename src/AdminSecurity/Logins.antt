-- ===== src/AdminSecurity/Logins.antt =====
-- The logins of backend/app/admin_security.py, by password and by client certificate, and the session
-- that one is given.
use smart_gatekeeper.Common.{
  ℕ, ◌+◌, Bool, true, false, ◌&&◌, not, Option, none, some, List, [], ◌∷◌, if◌then◌else◌, leb, ◌==◌,
  list_eq, nat_eq, list_beq,
}
use smart_gatekeeper.Common.Dict.{lookup, set_item, remove}
use smart_gatekeeper.Common.Text.{Text, codes, is_lower_hex}
use smart_gatekeeper.Common.Json.{Json, Items, nil, cons, str, arr, Fields, get, as_object, as_text}
use smart_gatekeeper.Common.Result.{◌>>=◌}
use smart_gatekeeper.Common.Try.{Try, done, compare_digest}
use smart_gatekeeper.AdminSecurity.{
  Answer, ok, http, type_error, Identity, Principal, Session, Admin, Request, is_empty, is_member,
  client_key, failed_attempt, is_limited, keep_live,
}

abbrev pub personal_identity : Identity
personal_identity = record {
  subject = codes "personal-admin";
  roles = codes "TENANT_ADMIN" ∷ codes "AUDITOR" ∷ codes "SECURITY_OPERATOR" ∷ [];
  tenants = codes "*" ∷ [];
  auth_method = codes "personal-session";
}

-- not candidate or not secrets.compare_digest(...), negated
abbrev pub is_same : Text → Text → Try Bool
is_same supplied expected =
    if is_empty supplied then done false else compare_digest supplied expected

unfoldable pub password_checked : Text → ℕ → Try Bool → Admin → Answer Identity × Admin
password_checked client now (done true) s =
    (ok personal_identity, record s { attempts = remove client s.attempts })
password_checked client now (done false) s = (http 401, failed_attempt client now s)
password_checked client now _ s = (type_error, s)

-- `authenticate_personal_password` up to the end of its first section under the lock: its answer, or
-- `none` where it goes on to the comparison
unfoldable pub password_gate : Request → Admin → Option (Answer Identity) × Admin
password_gate r s =
    if is_empty s.personal_password
    then (some (http 503), s)
    else if is_limited (client_key r) r.now s
    then (some (http 429), keep_live (client_key r) r.now s)
    else (none, s)

-- The rest of it: the comparison, and the section that counts a failure or forgets the attempts
unfoldable pub password_settled : Request → Text → Admin → Answer Identity × Admin
unfolding password_checked
password_settled r candidate s =
    password_checked (client_key r) r.now (is_same candidate s.personal_password) s

-- `_valid_strings`, with the strings
unfoldable pub strings : Items → Option (List Text)
strings nil = some []
strings (cons (str (c ∷ t)) rest) = do others ← strings rest; some ((c ∷ t) ∷ others)
strings (cons _ rest) = none

unfoldable pub valid_strings : Json → Option (List Text)
unfolding strings
valid_strings (arr (cons v rest)) = strings (cons v rest)
valid_strings _ = none

unfoldable pub identity_of : Fields → Option Identity
identity_of fs = do
  subject ← as_text (get "subject" fs)
  given_subject ← if is_empty subject then none else some subject
  roles ← valid_strings (get "roles" fs)
  tenants ← valid_strings (get "tenants" fs)
  some (record {
    subject = given_subject;
    roles = roles;
    tenants = tenants;
    auth_method = codes "mtls";
  })

unfoldable pub configured : Text → ℕ → Option Identity → Admin → Answer Identity × Admin
configured client now none s = (http 503, failed_attempt client now s)
configured client now (some i) s = (ok i, s)

unfoldable pub identified : Text → ℕ → Option Fields → Admin → Answer Identity × Admin
unfolding configured
identified client now none s = (http 401, failed_attempt client now s)
identified client now (some fs) s = configured client now (identity_of fs) s

-- `.lower().replace(":", "")`
abbrev pub lower : ℕ → ℕ
lower c = if leb b'A' c && leb c b'Z' then c + 32 else c

abbrev pub fingerprint : Text → Text
fingerprint [] = []
fingerprint (c ∷ t) = let rest = fingerprint t in if c == b':' then rest else lower c ∷ rest

abbrev pub is_verified : Option Text → Bool
is_verified none = false
is_verified (some t) = list_beq t (codes "SUCCESS")

unfoldable pub authenticate_mtls : Request → Admin → Answer Identity × Admin
unfolding identified
authenticate_mtls r s =
    if is_empty s.identities
    then (http 503, s)
    else if is_limited (client_key r) r.now s
    then (http 429, keep_live (client_key r) r.now s)
    else if not (is_member (client_key r) s.trusted_proxies)
    then (http 401, failed_attempt (client_key r) r.now s)
    else if not (is_verified r.client_verify)
    then (http 401, failed_attempt (client_key r) r.now s)
    else if not (is_lower_hex 64 (fingerprint r.client_fingerprint))
    then (http 401, failed_attempt (client_key r) r.now s)
    else identified (client_key r) r.now
        (as_object (lookup (fingerprint r.client_fingerprint) s.identities)) s

abbrev pub principal_of : Text → Session → Principal
principal_of id e = record {
  subject = e.subject;
  roles = e.roles;
  tenants = e.tenants;
  session_id = id;
  csrf_token = e.csrf_token;
  expires_at = e.expires_at;
  auth_method = e.auth_method;
}

unfoldable pub issue_session :
    (Text → Text) → Text → Text → ℕ → Identity → Admin → Principal × Admin
issue_session sha256 token csrf now i s =
    let e : Session = record {
      subject = i.subject;
      roles = i.roles;
      tenants = i.tenants;
      csrf_token = csrf;
      expires_at = now + s.session_seconds;
      key_epoch = s.key_epoch;
      issued_at = now;
      auth_method = i.auth_method;
    } in
    (principal_of (sha256 token) e, record s { sessions = set_item (sha256 token) e s.sessions })
