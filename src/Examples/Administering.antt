-- ===== src/Examples/Administering.antt =====
-- The administrator's sessions on concrete inputs.
use smart_gatekeeper.Common.{
  ◌≤◌, ◌≡◌, ◌+◌, ◌-◌, List, refl, true, none, some, [], ◌∷◌, arith, list_eq, nat_eq, pair_eq,
}
use smart_gatekeeper.Common.Text.{Text, codes}
use smart_gatekeeper.Common.Dict.{lookup, set_item}
use smart_gatekeeper.Common.Try.{compare_digest}
use smart_gatekeeper.AdminSecurity.{Admin, Request, Session, live_attempts, failed_attempt}
use smart_gatekeeper.AdminSecurity.Logins.{principal_of}
use smart_gatekeeper.AdminSecurity.Sessions.{Demand, principal, can_access_tenant}
use smart_gatekeeper.AdminSecurity.Authorization.{IsAuthorized, principal-IsAuthorized}
use smart_gatekeeper.AdminSecurity.Guessing.{
  Guess, Step, entering, settling, step, wrong_answers, guesses_limited,
}
use smart_gatekeeper.AdminSecurity.Logins.{password_gate, password_settled}

abbrev signed_in : Session
signed_in = record {
  subject = codes "alice";
  roles = codes "AUDITOR" ∷ [];
  tenants = codes "house" ∷ [];
  csrf_token = codes "abc";
  expires_at = 1900;
  key_epoch = 1;
  issued_at = 1000;
  auth_method = codes "personal-session";
}

abbrev admin : Admin
admin = record {
  identities = [];
  session_seconds = 900;
  reauth_seconds = 120;
  auth_attempts = 2;
  auth_window = 60;
  key_epoch = 1;
  trusted_proxies = [];
  personal_password = codes "correct horse battery";
  sessions = (codes "t", signed_in) ∷ [];
  attempts = [];
}

abbrev request : Request
request = record {
  client = some (codes "h");
  cookie = some (codes "t");
  csrf = codes "abc";
  reauth = codes "personal-session";
  client_verify = none;
  client_fingerprint = [];
  now = 1100;
}

abbrev demand : Demand
demand = record {
  unsafe = true;
  roles = codes "AUDITOR" ∷ [];
  tenant_id = some (codes "house");
  reauthenticate = true;
}

abbrev same : Text → Text
same t = t

principal-IsAuthorized_example :
    IsAuthorized same request demand admin (principal_of (codes "t") signed_in)
unfolding principal lookup compare_digest can_access_tenant
principal-IsAuthorized_example =
    principal-IsAuthorized same request demand admin (principal_of (codes "t") signed_in) refl

abbrev strict : Admin
strict = record admin { auth_attempts = 1 }

abbrev guess : Guess
guess = (request, codes "letmein")

-- With two threads, two guesses pass the limit before either of them is counted.
abbrev at_once : List Step
at_once =
    entering guess ∷ entering guess ∷ settling 0 ∷ settling 0 ∷ entering guess ∷ settling 0 ∷ []

overtaken : wrong_answers 2 at_once (record { admin = strict; in_flight = [] }) ≡ 2
unfolding wrong_answers step password_gate password_settled lookup live_attempts compare_digest
    failed_attempt set_item
overtaken = refl

guesses_limited_example :
    wrong_answers 2 at_once (record { admin = strict; in_flight = [] })
    ≤ strict.auth_attempts - 1 + 2
guesses_limited_example = guesses_limited 2 1100 (codes "h") at_once strict (
  (refl, omega arith, omega arith, λ p. cc),
  (
    (refl, omega arith, omega arith, λ p. cc),
    (tt, (tt, ((refl, omega arith, omega arith, λ p. cc), (tt, tt)))),
  ),
)
