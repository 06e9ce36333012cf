-- ===== src/HaBridge/Requests.antt =====
-- The requests of Home Assistant in backend/app/home_assistant_bridge.py, and what their publication
-- leaves behind.
use smart_gatekeeper.Common.{
  ℕ, ◌+◌, Bool, false, ◌&&◌, ◌||◌, not, Option, none, some, [], ◌∷◌, if◌then◌else◌, ltb, ◌==◌,
  list_eq, nat_eq, list_beq, length, drop,
}
use smart_gatekeeper.Common.Dict.{Dict, lookup, set_item, remove, pop_first}
use smart_gatekeeper.Common.Text.{Text, strip_prefix, is_lower_hex}
use smart_gatekeeper.Common.Int.{ℤ}
use smart_gatekeeper.HaBridge.Controls.{Action, Control, action_eq, control, parse_value, is_manual}
use smart_gatekeeper.HaBridge.{
  Command, retained_request, qos_duplicate, outside_ingress_namespace, unsupported_control,
  manual_remote_disabled, invalid_payload, target_status_stale, duplicate_window, rate_limited,
  token_generation_failed, Decision, accepted, refused, Bridge, request_prefix, live_boot_id,
}

-- A request as the subscriber hands it over, with the clock and what the two factories return.
pub record Request : Type 0 where
  pub topic : Text
  pub payload : Text
  pub retained : Bool
  pub duplicate : Bool
  pub now : ℕ
  pub session_id : Text
  pub nonce : Text

abbrev pub in_window : Request → Option (Text × Text × ℕ) → Bool
in_window r none = false
in_window r (some (topic, payload, time)) =
    list_beq topic r.topic && list_beq payload r.payload && ltb r.now (time + 2000)

abbrev pub too_soon : ℕ → ℕ → Option ℕ → Bool
too_soon now interval none = false
too_soon now interval (some last) = ltb now (last + interval)

-- [0-9a-f]{12}4[0-9a-f]{3}[89ab][0-9a-f]{15}
abbrev pub is_variant : Text → Bool
is_variant [] = false
is_variant (c ∷ t) = c == b'8' || c == b'9' || c == b'a' || c == b'b'

abbrev pub starts_with_four : Text → Bool
starts_with_four [] = false
starts_with_four (c ∷ t) = c == b'4'

unfoldable pub is_session_id : Text → Bool
is_session_id t = is_lower_hex 32 t && starts_with_four (drop 12 t) && is_variant (drop 16 t)

-- Under the lock, with the live boot id: the rate limits, the tokens and the reservation.
unfoldable pub reserve : Request → Text → Control → ℤ → Text → Bridge → Decision × Bridge
reserve r object_id c value boot s =
    if in_window r s.fingerprint
    then (refused duplicate_window, s)
    else if too_soon r.now c.interval (lookup c.action s.last_action)
    then (refused rate_limited, s)
    else if not (is_session_id r.session_id && is_lower_hex 32 r.nonce)
    then (refused token_generation_failed, s)
    else (
      accepted (record {
        object_id = object_id;
        action = c.action;
        value = value;
        expected_boot_id = boot;
        session_id = r.session_id;
        nonce = r.nonce;
      }),
      record s {
        fingerprint = some (r.topic, r.payload, r.now);
        last_action = set_item c.action r.now s.last_action;
      },
    )

unfoldable pub with_boot : Request → Text → Control → ℤ → Option Text → Bridge → Decision × Bridge
with_boot r object_id c value none s = (refused target_status_stale, s)
with_boot r object_id c value (some boot) s = reserve r object_id c value boot s

unfoldable pub with_value : Request → Text → Control → Option ℤ → Bridge → Decision × Bridge
with_value r object_id c none s = (refused invalid_payload, s)
with_value r object_id c (some value) s = with_boot r object_id c value (live_boot_id r.now s) s

unfoldable pub with_control : Request → Text → Option Control → Bridge → Decision × Bridge
with_control r object_id none s = (refused unsupported_control, s)
with_control r object_id (some c) s =
    if is_manual c.action && not s.allow_manual_remote
    then (refused manual_remote_disabled, s)
    else with_value r object_id c (parse_value c r.payload) s

unfoldable pub with_object : Request → Option Text → Bridge → Decision × Bridge
with_object r none s = (refused outside_ingress_namespace, s)
with_object r (some object_id) s = with_control r object_id (control object_id) s

unfoldable pub accept_request : Request → Bridge → Decision × Bridge
unfolding with_object with_control with_value with_boot reserve
accept_request r s =
    if r.retained
    then (refused retained_request, s)
    else if r.duplicate
    then (refused qos_duplicate, s)
    else with_object r (strip_prefix (request_prefix s.target_id) r.topic) s

-- `if len(self._pending) > 32:` the oldest goes
abbrev pub cap : Dict Text (Action × Text × Text) → Dict Text (Action × Text × Text)
cap d = if ltb 32 (length d) then pop_first d else d

unfoldable pub note_published : Command → Bridge → Bridge
note_published c s = record s {
  pending = cap (set_item c.session_id (c.action, c.nonce, c.expected_boot_id) s.pending);
}

unfoldable pub note_publish_failed : Command → Bridge → Bridge
note_publish_failed c s = record s {
  last_action = remove c.action s.last_action;
  fingerprint = none;
}
