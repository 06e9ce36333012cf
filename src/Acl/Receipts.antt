-- ===== src/Acl/Receipts.antt =====
-- `acl_snapshot_is_usable` of backend/app/acl_management.py: which snapshot a Target may still use.
use smart_gatekeeper.Common.{
  ℕ, ◌+◌, Bool, true, false, ◌&&◌, ◌||◌, not, Option, none, some, [], ◌∷◌, if◌then◌else◌, ltb, leb,
  list_eq, nat_eq,
}
use smart_gatekeeper.Common.Text.{Text}
use smart_gatekeeper.Common.Try.{Try, compare_digest}
use smart_gatekeeper.Acl.{is_given}

-- The keyword arguments of `acl_snapshot_is_usable`
pub record Receipt : Type 0 where
  pub received_monotonic : ℕ
  pub now_monotonic : ℕ
  pub lease_seconds : ℕ
  pub receipt_boot_id : Text
  pub current_boot_id : Text
  pub not_before : ℕ
  pub expires_at : ℕ
  pub received_epoch : Option ℕ
  pub trusted_now : Option ℕ

abbrev pub in_lease : ℕ → ℕ → Option ℕ → Bool
in_lease lease now none = true
in_lease lease now (some received) = leb received now && ltb now (received + lease)

abbrev pub trusted_time_valid : Receipt → Option ℕ → Bool
trusted_time_valid r none = false
trusted_time_valid r (some now) =
    leb r.not_before now && ltb now r.expires_at && in_lease r.lease_seconds now r.received_epoch

abbrev pub is_blank : Text → Bool
is_blank [] = true
is_blank (c ∷ t) = false

-- by the comparison of the boot ids
abbrev pub usable_by : Receipt → Bool → Bool
usable_by r false = is_given r.received_epoch && trusted_time_valid r r.trusted_now
usable_by r true =
    if ltb r.now_monotonic r.received_monotonic
    then false
    else if is_given r.trusted_now && not (trusted_time_valid r r.trusted_now)
    then false
    else ltb r.now_monotonic (r.received_monotonic + r.lease_seconds)

abbrev pub decided : Receipt → Try Bool → Try Bool
decided r (Try.done b) = Try.done (usable_by r b)
decided r other = other

-- `raised` is the TypeError of comparing texts outside ASCII.
unfoldable pub acl_snapshot_is_usable : Receipt → Try Bool
acl_snapshot_is_usable r =
    if not (leb 1 r.lease_seconds && leb r.lease_seconds 3600)
      || is_blank r.receipt_boot_id
      || is_blank r.current_boot_id
    then Try.done false
    else decided r (compare_digest r.receipt_boot_id r.current_boot_id)
