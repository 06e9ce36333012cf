-- ===== src/HaBridge/Topics.antt =====
-- The topics of the bridge in backend/app/home_assistant_bridge.py; `none` is a ValueError.
use smart_gatekeeper.Common.{
  Bool, true, false, Option, none, some, ◌++◌, if◌then◌else◌, ◌||◌, list_beq, nat_eq,
}
use smart_gatekeeper.Common.Text.{Text, codes, is_target_id}
use smart_gatekeeper.HaBridge.Controls.{control}

abbrev pub is_given {ℓ} : {A : Type ℓ} → Option A → Bool
is_given none = false
is_given (some a) = true

-- `_validate_target_id` and `bridge_prefix`
unfoldable pub bridge_prefix : Text → Option Text
bridge_prefix id = if is_target_id id then some (codes "gatekeeper/v1/ha-bridge/" ++ id) else none

abbrev pub under : Text → Option Text → Option Text
under suffix none = none
under suffix (some prefix) = some (prefix ++ suffix)

abbrev pub is_known : Text → Bool
is_known object_id = list_beq object_id (codes "+") || is_given (control object_id)

unfoldable pub bridge_request_topic : Text → Text → Option Text
bridge_request_topic id object_id =
    if is_known object_id then under (codes "/request/" ++ object_id) (bridge_prefix id) else none

unfoldable pub bridge_availability_topic : Text → Option Text
bridge_availability_topic id = under (codes "/availability") (bridge_prefix id)

unfoldable pub bridge_result_topic : Text → Option Text
bridge_result_topic id = under (codes "/result") (bridge_prefix id)

unfoldable pub bridge_verified_status_topic : Text → Option Text
bridge_verified_status_topic id = under (codes "/verified-status") (bridge_prefix id)

unfoldable pub bridge_connectivity_diagnostic_topic : Text → Option Text
bridge_connectivity_diagnostic_topic id =
    under (codes "/connectivity-diagnostic") (bridge_prefix id)

unfoldable pub bridge_access_event_topic : Text → Option Text
bridge_access_event_topic id = under (codes "/access-event") (bridge_prefix id)
