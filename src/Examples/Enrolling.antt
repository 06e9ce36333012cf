-- ===== src/Examples/Enrolling.antt =====
-- An enrollment and what consumes its challenge, of backend/app/acl_management.py.
use smart_gatekeeper.Common.{
  ◌≡◌, refl, ◌≢◌, Bool, true, none, List, [], ◌∷◌, list_eq, nat_eq, pair_eq,
}
use smart_gatekeeper.Common.Dict.{lookup, has, set_item}
use smart_gatekeeper.Common.Text.{Text, codes}
use smart_gatekeeper.Common.Try.{compare_digest}
use smart_gatekeeper.Acl.{
  hex_bytes, from_hex, parse_public_key, from_bytes, to_bytes, u16, prime, curve_b,
}
use smart_gatekeeper.Acl.Curve.{order, point_add, mult_rounds, scalar_mult, verify_raw64}
use smart_gatekeeper.Acl.Enrollment.{build_enrollment_input}
use smart_gatekeeper.Acl.Envelope.{to_hex}
use smart_gatekeeper.AclStore.{Result, ok, active, Credential, is_pending, Db}
use smart_gatekeeper.AclStore.Tenants.{tenant_exists, tenant_status, legacy_tenant_is_active}
use smart_gatekeeper.AclStore.Credentials.{
  get_challenge, consume_row, consume_challenge_and_insert_credential, insert_credential,
}
use smart_gatekeeper.AclStore.Credentials.Once.{IsConsumed, IsUndone, consume_ends}
use smart_gatekeeper.AclStore.Snapshots.{append_audit}
use smart_gatekeeper.AclService.{
  World, pure, look, write, transact, or_raise, ◌>>=◌, update, require, of_try, compare, is_hex_of,
  redacted, existing_tenant, authorize_tenant, time, token, audit, reconcile_by,
  reconcile_legacy_disable, active_tenant,
}
use smart_gatekeeper.AclService.Enrolling.{
  Submission, check_challenge, check_signature, enroll, submit_enrollment,
}
use smart_gatekeeper.AclService.Enrolling.Enrolled.{IsEnrolled, submit_enrollment-IsEnrolled}
use smart_gatekeeper.AclService.Requests.{Request, serve_all}
use smart_gatekeeper.AclService.Requests.Once.{enrolled_once}
use smart_gatekeeper.Examples.Encoding.{signature_hex}
use smart_gatekeeper.Examples.Serving.{tenant, staff, config, credential, stocked, world, asked}

abbrev new_phone : Text
new_phone =
    codes
      "047cf27b188d034f7e8a52380304b51ac3c08969e277f21b35a60b48fc4766997807775510db8ed040293d9ac69f7430dbba7dade63ce982299e04b79d227873d1"

abbrev invited : Db
invited = record (stocked active) {
  challenges =
      (
        codes "000000000000000000000000000000ee",
        record {
          tenant_id = tenant;
          actor_ref = staff;
          nonce_hash = codes "01";
          expires_at = 1300;
          used_at = none;
          created_at = 1000;
        },
      )
      ∷ [];
}

abbrev submission : Submission
submission = record {
  enrollment_id = codes "000000000000000000000000000000ee";
  nonce_hex = codes "0000000000000000000000000000000000000000000000000000000000000001";
  public_key_hex = new_phone;
  signature_hex = signature_hex;
  legacy_device_id = none;
  expires_at = none;
  min_protocol = 1;
  max_protocol = 2;
}

abbrev new_id : Text
new_id = codes "00000000000000000000000000000010"

abbrev joined : Result Text × World
joined = submit_enrollment config tenant submission staff none (world invited)

submit_enrollment-IsEnrolled_example :
    IsEnrolled config tenant submission staff (world invited) new_id joined.1
unfolding submit_enrollment active_tenant authorize_tenant check_challenge check_signature enroll
    existing_tenant is_hex_of or_raise ◌>>=◌ pure look write transact update require of_try compare
    time token audit redacted reconcile_legacy_disable reconcile_by tenant_exists tenant_status
    legacy_tenant_is_active get_challenge consume_challenge_and_insert_credential consume_row
    insert_credential append_audit lookup has set_item compare_digest to_hex build_enrollment_input
    verify_raw64 scalar_mult mult_rounds point_add order hex_bytes from_hex parse_public_key
    from_bytes to_bytes u16 prime curve_b
submit_enrollment-IsEnrolled_example =
    submit_enrollment-IsEnrolled config tenant submission staff none (world invited) new_id joined.1
      refl

-- Another actor sends the same answer after more requests.
abbrev retried : List Request → Result Text × World
retried requests =
    submit_enrollment config tenant submission (codes "admin:2") none
      (serve_all config requests joined.1)

enrolled_once_example : retried asked ≢ (ok new_id, joined.1)
unfolding submit_enrollment active_tenant authorize_tenant check_challenge check_signature enroll
    existing_tenant is_hex_of or_raise ◌>>=◌ pure look write transact update require of_try compare
    time token audit redacted reconcile_legacy_disable reconcile_by tenant_exists tenant_status
    legacy_tenant_is_active get_challenge consume_challenge_and_insert_credential consume_row
    insert_credential append_audit lookup has set_item compare_digest to_hex build_enrollment_input
    verify_raw64 scalar_mult mult_rounds point_add order hex_bytes from_hex parse_public_key
    from_bytes to_bytes u16 prime curve_b
enrolled_once_example =
    enrolled_once config tenant tenant submission submission staff (codes "admin:2") none none
      (world invited) asked new_id new_id joined.1 joined.1 refl refl

abbrev stored_credential : Credential
stored_credential = record credential { public_key_sec1 = new_phone; status = is_pending }

abbrev consumption : Result Bool × Db
consumption =
    consume_challenge_and_insert_credential tenant submission.enrollment_id staff 1000
      (codes "00000000000000000000000000000002") stored_credential invited

consume_ends_example :
    (consumption.0 ≡ ok true
      → IsConsumed submission.enrollment_id
          (codes "00000000000000000000000000000002")
          stored_credential
          consumption.1)
    × IsUndone invited consumption
consume_ends_example =
    consume_ends tenant submission.enrollment_id staff 1000
      (codes "00000000000000000000000000000002") stored_credential invited
