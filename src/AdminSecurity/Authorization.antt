-- ===== src/AdminSecurity/Authorization.antt =====
-- What a principal that `principal` returns stands for, and that a session just issued is one.
use smart_gatekeeper.Common.{
  ◌+◌, ◌<◌, ◌≤◌, ◌≡◌, ◌≢◌, ◌⊎◌, refl, Bool, true, false, ◌||◌, not, Option, none, some, [], ◌∷◌,
  arith, ◌==◌, leb, list_eq, nat_eq, list_beq, list_beq_iff, Bool-cases, inl, inr,
}
use smart_gatekeeper.Common.Dict.{lookup}
use smart_gatekeeper.Common.Text.{Text, codes}
use smart_gatekeeper.Common.Try.{Try, done, gave_up, raised, compare_digest}
use smart_gatekeeper.AdminSecurity.{
  Answer, ok, http, type_error, Identity, Principal, Session, Admin, Request,
}
use smart_gatekeeper.AdminSecurity.Logins.{is_same, principal_of, authenticate_mtls}
use smart_gatekeeper.AdminSecurity.Sessions.{
  Demand, principal, with_token, with_session, csrf_checked, authorized, reauthenticated,
  same_actor, csrf_test, has_role, is_scoped,
}

-- The re-authentication that a risky action asks for: a recent personal session, or a client
-- certificate of the same subject with this request.
abbrev pub IsReauthenticated : Request → Session → Admin → Type 0
IsReauthenticated r e s =
    ((e.auth_method ≡ codes "personal-session")
      × (r.reauth ≡ codes "personal-session")
      × (r.now ≤ e.issued_at + s.reauth_seconds))
    ⊎ ((i : Identity) × ((authenticate_mtls r s).0 ≡ ok i)
        × (i.subject ≡ e.subject)
        × (r.reauth ≡ codes "mtls"))

pub record IsAuthorized (sha256 : Text → Text) (r : Request) (d : Demand) (s : Admin)
    (p : Principal) : Type 0 where
  pub token : Text
  pub session : Session
  pub sent : r.cookie ≡ some token
  pub stored : lookup (sha256 token) s.sessions ≡ some session
  pub of_session : p ≡ principal_of (sha256 token) session
  pub unexpired : r.now < session.expires_at
  pub current : session.key_epoch ≡ s.key_epoch
  pub same_origin : d.unsafe ≡ true → (r.csrf ≡ session.csrf_token) × (r.csrf ≢ [])
  pub in_role : has_role d.roles session.roles ≡ true
  pub in_scope : is_scoped d.tenant_id session.tenants ≡ true
  pub proven : d.reauthenticate ≡ true → IsReauthenticated r session s

pub is_same-true : (a b : Text) → is_same a b ≡ done true → (a ≡ b) × (a ≢ [])
unfolding compare_digest
is_same-true [] b h = cc
is_same-true (c ∷ a) b h = (ground (arith, list_beq_iff (c ∷ a) b), λ e. cc)

csrf_sound :
    (r : Request) (d : Demand) (e : Session)
    → csrf_test r d e ≡ done true
    → d.unsafe ≡ true
    → (r.csrf ≡ e.csrf_token) × (r.csrf ≢ [])
csrf_sound r d e h u = is_same-true r.csrf e.csrf_token (rw u at h)

same_actor-ok :
    (r : Request) (q p : Principal) (x : Answer Identity × Admin)
    → (same_actor r q x).0 ≡ ok p
    → (p ≡ q)
      × ((i : Identity) × (x.0 ≡ ok i) × (i.subject ≡ q.subject) × (r.reauth ≡ codes "mtls"))
unfolding same_actor
same_actor-ok r q p (http n, s) h = cc
same_actor-ok r q p (type_error, s) h = cc
same_actor-ok r q p (ok i, s) h =
    let (same, subject, marker) : (ok q ≡ ok p)
        × (i.subject ≡ q.subject)
        × (r.reauth ≡ codes "mtls") =
      ground (arith, list_beq_iff i.subject q.subject, list_beq_iff r.reauth (codes "mtls")) in
    (cc, (i, refl, subject, marker))

reauthenticated-ok :
    (r : Request) (id : Text) (e : Session) (p : Principal) (s : Admin)
    → (reauthenticated r e (principal_of id e) s).0 ≡ ok p
    → (p ≡ principal_of id e) × IsReauthenticated r e s
unfolding reauthenticated
reauthenticated-ok r id e p s h =
    elim (Bool-cases (list_beq e.auth_method (codes "personal-session"))) [
      | inl personal ↦ ground (
        arith,
        list_beq_iff e.auth_method (codes "personal-session"),
        list_beq_iff r.reauth (codes "personal-session"),
      )
      | inr certificate ↦
          let (same, i) =
            same_actor-ok r (principal_of id e) p (authenticate_mtls r s) (rw certificate at h) in
          (same, inr i)
    ]

abbrev Rest : Request → Demand → Text → Session → Admin → Principal → Type 0
Rest r d id e s p =
    (p ≡ principal_of id e)
    × (has_role d.roles e.roles ≡ true)
    × (is_scoped d.tenant_id e.tenants ≡ true)
    × (d.reauthenticate ≡ true → IsReauthenticated r e s)

authorized-ok :
    (r : Request) (d : Demand) (id : Text) (e : Session) (p : Principal) (s : Admin)
    → (authorized r d id e s).0 ≡ ok p
    → Rest r d id e s p
unfolding authorized
authorized-ok r d id e p s h = elim (Bool-cases (has_role d.roles e.roles)) [
  | inr no' ↦ absurd (let h' : http 403 ≡ ok p = rw no' at h in cc)
  | inl role ↦ elim (Bool-cases (is_scoped d.tenant_id e.tenants)) [
    | inr no' ↦ absurd (let h' : http 403 ≡ ok p = rw (role, no') at h in cc)
    | inl scope ↦ elim (Bool-cases d.reauthenticate) [
      | inl again ↦
          let (same, fresh) = reauthenticated-ok r id e p s (rw (role, scope, again) at h) in
          (same, role, scope, λ _. fresh)
      | inr not_again ↦
          let h' : ok (principal_of id e) ≡ ok p = rw (role, scope, not_again) at h in
          (cc, role, scope, λ again. absurd cc)
    ]
  ]
]

csrf_checked-ok :
    (r : Request) (d : Demand) (id : Text) (e : Session) (o : Try Bool) (p : Principal) (s : Admin)
    → (csrf_checked r d id e o s).0 ≡ ok p
    → (o ≡ done true) × Rest r d id e s p
unfolding csrf_checked
csrf_checked-ok r d id e (done true) p s h = (refl, authorized-ok r d id e p s h)
csrf_checked-ok r d id e (done false) p s h = cc
csrf_checked-ok r d id e gave_up p s h = cc
csrf_checked-ok r d id e raised p s h = cc

with_session-ok :
    (r : Request) (d : Demand) (id : Text) (found : Option Session) (p : Principal) (s : Admin)
    → (with_session r d id found s).0 ≡ ok p
    → (e : Session) × (found ≡ some e)
      × (r.now < e.expires_at)
      × (e.key_epoch ≡ s.key_epoch)
      × (csrf_test r d e ≡ done true)
      × Rest r d id e s p
unfolding with_session
with_session-ok r d id none p s h = cc
with_session-ok r d id (some e) p s h =
    elim (Bool-cases (leb e.expires_at r.now || not (e.key_epoch == s.key_epoch))) [
      | inl late ↦ absurd (let h' : http 401 ≡ ok p = rw late at h in cc)
      | inr live ↦
          let (csrf, rest) = csrf_checked-ok r d id e (csrf_test r d e) p s (rw live at h) in
          (e, refl, ground arith, ground arith, csrf, rest)
    ]

with_token-ok :
    (sha256 : Text → Text) (r : Request) (d : Demand) (cookie : Option Text) (s : Admin)
    (p : Principal)
    → r.cookie ≡ cookie
    → (with_token sha256 r d cookie s).0 ≡ ok p
    → IsAuthorized sha256 r d s p
unfolding with_token
with_token-ok sha256 r d none s p sent h = cc
with_token-ok sha256 r d (some []) s p sent h = cc
with_token-ok sha256 r d (some (c ∷ t)) s p sent h =
    let (e, stored, unexpired, current, csrf, rest) =
      with_session-ok r d (sha256 (c ∷ t)) (lookup (sha256 (c ∷ t)) s.sessions) p s h in
    let (same, role, scope, fresh) = rest in
    record {
      token = c ∷ t;
      session = e;
      sent = sent;
      stored = stored;
      of_session = same;
      unexpired = unexpired;
      current = current;
      same_origin = csrf_sound r d e csrf;
      in_role = role;
      in_scope = scope;
      proven = fresh;
    }

-- For every request and demand, if `principal` returns a principal, then the request's cookie is the
-- token of a stored session, which has not expired and is of the current key epoch, and the principal
-- is that session's; where the demand is unsafe the CSRF header is the session's token and not empty;
-- the session has one of the demanded roles and access to the demanded tenant; and where
-- re-authentication is demanded the session is a recent personal one, or the request authenticates the
-- same subject by mTLS.
pub principal-IsAuthorized :
    (sha256 : Text → Text) (r : Request) (d : Demand) (s : Admin) (p : Principal)
    → (principal sha256 r d s).0 ≡ ok p
    → IsAuthorized sha256 r d s p
unfolding principal
principal-IsAuthorized sha256 r d s p h = with_token-ok sha256 r d r.cookie s p refl h
