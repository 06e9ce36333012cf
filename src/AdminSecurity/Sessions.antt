-- ===== src/AdminSecurity/Sessions.antt =====
-- `principal` of backend/app/admin_security.py: who a request acts for, and what it may do.
use smart_gatekeeper.Common.{
  ◌+◌, Bool, true, false, ◌&&◌, ◌||◌, not, Option, none, some, List, [], ◌∷◌, if◌then◌else◌, leb,
  ◌==◌, list_eq, nat_eq, list_beq, some_of,
}
use smart_gatekeeper.Common.Dict.{lookup}
use smart_gatekeeper.Common.Text.{Text, codes}
use smart_gatekeeper.Common.Try.{Try, done}
use smart_gatekeeper.AdminSecurity.{
  Answer, ok, http, type_error, Identity, Principal, Session, Admin, Request, is_empty, is_member,
}
use smart_gatekeeper.AdminSecurity.Logins.{is_same, authenticate_mtls, principal_of}

-- The keyword arguments of `principal`
pub record Demand : Type 0 where
  pub unsafe : Bool
  pub roles : List Text
  pub tenant_id : Option Text
  pub reauthenticate : Bool

unfoldable pub can_access_tenant : Text → List Text → Bool
can_access_tenant tenant_id tenants = is_member (codes "*") tenants || is_member tenant_id tenants

abbrev pub is_scoped : Option Text → List Text → Bool
is_scoped none tenants = true
is_scoped (some []) tenants = true
is_scoped (some (c ∷ t)) tenants = can_access_tenant (c ∷ t) tenants

abbrev pub has_role : List Text → List Text → Bool
has_role required roles = is_empty required || some_of (λ role. is_member role roles) required

unfoldable pub same_actor : Request → Principal → Answer Identity × Admin → Answer Principal × Admin
same_actor r p (ok i, s) =
    if not (list_beq i.subject p.subject)
    then (http 403, s)
    else if not (list_beq r.reauth (codes "mtls"))
    then (http 403, s)
    else (ok p, s)
same_actor r p (http n, s) = (http n, s)
same_actor r p (type_error, s) = (type_error, s)

abbrev pub is_fresh : Request → Session → Admin → Bool
is_fresh r e s =
    list_beq r.reauth (codes "personal-session") && leb r.now (e.issued_at + s.reauth_seconds)

unfoldable pub reauthenticated : Request → Session → Principal → Admin → Answer Principal × Admin
unfolding same_actor
reauthenticated r e p s =
    if list_beq e.auth_method (codes "personal-session")
    then if is_fresh r e s then (ok p, s) else (http 403, s)
    else same_actor r p (authenticate_mtls r s)

unfoldable pub authorized : Request → Demand → Text → Session → Admin → Answer Principal × Admin
unfolding reauthenticated
authorized r d id e s =
    if not (has_role d.roles e.roles)
    then (http 403, s)
    else if not (is_scoped d.tenant_id e.tenants)
    then (http 403, s)
    else if d.reauthenticate
    then reauthenticated r e (principal_of id e) s
    else (ok (principal_of id e), s)

unfoldable pub csrf_checked :
    Request → Demand → Text → Session → Try Bool → Admin → Answer Principal × Admin
unfolding authorized
csrf_checked r d id e (done true) s = authorized r d id e s
csrf_checked r d id e (done false) s = (http 403, s)
csrf_checked r d id e _ s = (type_error, s)

abbrev pub csrf_test : Request → Demand → Session → Try Bool
csrf_test r d e = if d.unsafe then is_same r.csrf e.csrf_token else done true

unfoldable pub with_session :
    Request → Demand → Text → Option Session → Admin → Answer Principal × Admin
unfolding csrf_checked
with_session r d id none s = (http 401, s)
with_session r d id (some e) s =
    if leb e.expires_at r.now || not (e.key_epoch == s.key_epoch)
    then (http 401, s)
    else csrf_checked r d id e (csrf_test r d e) s

module _ (sha256 : Text → Text) where
  unfoldable pub with_token : Request → Demand → Option Text → Admin → Answer Principal × Admin
  unfolding with_session
  with_token r d none s = (http 401, s)
  with_token r d (some []) s = (http 401, s)
  with_token r d (some (c ∷ t)) s =
      with_session r d (sha256 (c ∷ t)) (lookup (sha256 (c ∷ t)) s.sessions) s

  unfoldable pub principal : Request → Demand → Admin → Answer Principal × Admin
  unfolding with_token
  principal r d s = with_token r d r.cookie s
