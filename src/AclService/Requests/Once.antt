-- ===== src/AclService/Requests/Once.antt =====
-- An enrollment challenge gives one credential, whatever is asked of the service.
use smart_gatekeeper.Common.{
  ◌≡◌, refl, sym, ◌∙◌, ◌≢◌, true, false, Option, none, some, List, list_beq, list_eq, nat_eq,
  Bool-cases, inl, inr,
}
use smart_gatekeeper.Common.Dict.{lookup}
use smart_gatekeeper.Common.Text.{Text}
use smart_gatekeeper.AclStore.{ok, Challenge, Db}
use smart_gatekeeper.AclStore.Credentials.{get_challenge, challenge_of, is_unused}
use smart_gatekeeper.AclStore.History.Writes.{spent, is_spent}
use smart_gatekeeper.AclStore.History.Kept.{Run-IsSpentKept}
use smart_gatekeeper.AclService.{Config, World}
use smart_gatekeeper.AclService.Enrolling.{Submission, submit_enrollment}
use smart_gatekeeper.AclService.Enrolling.Enrolled.{submit_enrollment-IsEnrolled}
use smart_gatekeeper.AclService.Requests.{Request, serve_all}
use smart_gatekeeper.AclService.Requests.Traced.{serve_all-Run}

found_unused :
    (tenant_id : Text) (o : Option Challenge) (row : Challenge)
    → challenge_of tenant_id o ≡ some row
    → is_unused row ≡ true
    → spent o ≡ false
found_unused tenant_id none row h u = refl
found_unused tenant_id (some other) row h u =
    elim (Bool-cases (list_beq other.tenant_id tenant_id)) [
      | inl same ↦
          let h' : some other ≡ some row = rw same at h in
          let q : other ≡ row = cc in rw q (rw u refl)
      | inr different ↦ let h' : none ≡ some row = rw different at h in absurd cc
    ]

-- A challenge that is found and unused is not a consumed one.
unused-is_spent :
    (tenant_id enrollment_id : Text) (row : Challenge) (db : Db)
    → get_challenge tenant_id enrollment_id db ≡ some row
    → is_unused row ≡ true
    → is_spent enrollment_id db ≡ false
unfolding get_challenge is_spent
unused-is_spent tenant_id enrollment_id row db h u =
    found_unused tenant_id (lookup enrollment_id db.challenges) row h u

-- After a submission that returned a credential id, and whatever requests, no submission for the same
-- challenge returns one again, whichever tenant and actor it comes from and whatever it holds.
pub enrolled_once :
    (c : Config) (tenant_id other_tenant : Text) (s other : Submission) (actor_ref other_ref : Text)
    (actor other_actor : Option Text) (w : World) (requests : List Request) (id other_id : Text)
    (w' w2 : World)
    → submit_enrollment c tenant_id s actor_ref actor w ≡ (ok id, w')
    → s.enrollment_id ≡ other.enrollment_id
    → submit_enrollment c other_tenant other other_ref other_actor (serve_all c requests w')
      ≢ (ok other_id, w2)
enrolled_once c tenant_id other_tenant s other actor_ref other_ref actor other_actor w requests id
      other_id w' w2 h same k =
    let first = submit_enrollment-IsEnrolled c tenant_id s actor_ref actor w id w' h in
    let second =
      submit_enrollment-IsEnrolled c other_tenant other other_ref other_actor
        (serve_all c requests w') other_id w2 k in
    let run = serve_all-Run c requests w' in
    let gone = Run-IsSpentKept run s.enrollment_id first.stored.2 in
    let there =
      unused-is_spent other_tenant other.enrollment_id second.challenge (serve_all c requests w').db
        second.issued second.answered.unused in
    let gone' : is_spent other.enrollment_id (serve_all c requests w').db ≡ true =
      rw same at gone in
    let bad : false ≡ true = sym there ∙ gone' in cc
