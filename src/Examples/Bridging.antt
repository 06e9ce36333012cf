-- ===== src/Examples/Bridging.antt =====
-- The bridge on concrete inputs.
use smart_gatekeeper.Common.{◌≡◌}
use smart_gatekeeper.Common.{
  ℕ, ◌+◌, ◌≤◌, refl, true, false, Option, none, some, [], ◌∷◌, list_eq, nat_eq, pair_eq,
}
use smart_gatekeeper.Common.Text.{Text, codes, is_lower_hex, strip_prefix}
use smart_gatekeeper.Common.Dict.{lookup, set_item}
use smart_gatekeeper.Common.Json.{Json, obj, str, int, field, end, get}
use smart_gatekeeper.Common.Try.{compare_digest}
use smart_gatekeeper.Common.Int.{pos}
use smart_gatekeeper.HaBridge.Controls.{Control, control, parse_value, manual_remote}
use smart_gatekeeper.HaBridge.{Bridge, Command, idle, live_boot_id, decode_document, ack_topic}
use smart_gatekeeper.HaBridge.Requests.{Request, accept_request, is_session_id}
use smart_gatekeeper.HaBridge.Answers.{accept_ack}
use smart_gatekeeper.HaBridge.{Reason, refused}
use smart_gatekeeper.Common.{◌⊎◌}
use smart_gatekeeper.HaBridge.Checked.{IsChecked, accept_request-IsChecked}
use smart_gatekeeper.HaBridge.RateLimit
use smart_gatekeeper.HaBridge.RateLimit.{Input, reconnected, accepted_requests_spaced}
use smart_gatekeeper.HaBridge.Acks.{IsMatched, accept_ack-IsMatched}

abbrev boot : Text
boot = codes "0123456789abcdef0123456789abcdef"

abbrev session : Text
session = codes "0123456789ab4def8123456789abcdef"

abbrev nonce : Text
nonce = codes "00000000000000000000000000000001"

abbrev seen : Bridge
seen = record {
  target_id = codes "T1";
  allow_manual_remote = true;
  max_age = 15000;
  boot_id = some boot;
  seen_at = some 100;
  gate = some idle;
  last_action = [];
  fingerprint = none;
  pending = [];
}

abbrev press_at : ℕ → Request
press_at now = record {
  topic = codes "gatekeeper/v1/ha-bridge/T1/request/open_gate";
  payload = codes "PRESS";
  retained = false;
  duplicate = false;
  now = now;
  session_id = session;
  nonce = nonce;
}

abbrev opening : Command
opening = record {
  object_id = codes "open_gate";
  action = manual_remote;
  value = pos 0;
  expected_boot_id = boot;
  session_id = session;
  nonce = nonce;
}

accept_request-IsChecked_example :
    ((why : Reason) × (accept_request (press_at 1000) seen ≡ (refused why, seen)))
    ⊎ IsChecked (press_at 1000) seen (accept_request (press_at 1000) seen)
accept_request-IsChecked_example = accept_request-IsChecked (press_at 1000) seen

abbrev answer : Text → Option Json
answer payload = some (
    obj (
      field "target_id" (str (codes "T1")) (
        field "session_id" (str session) (field "nonce" (str nonce) (field "result" (int 0) end)))))

abbrev gate_control : Control
gate_control = record { action = manual_remote; range = none; interval = 5000 }

accepted_requests_spaced_example : (press_at 1000).now + gate_control.interval ≤ (press_at 7000).now
unfolding accept_request RateLimit.run control parse_value is_session_id is_lower_hex lookup
    set_item strip_prefix live_boot_id
accepted_requests_spaced_example =
    accepted_requests_spaced answer (press_at 1000) (press_at 7000) [] seen opening opening
      gate_control refl tt refl refl refl

abbrev waiting : Bridge
waiting = record {
  target_id = codes "T1";
  allow_manual_remote = true;
  max_age = 15000;
  boot_id = some boot;
  seen_at = some 100;
  gate = some idle;
  last_action = [];
  fingerprint = none;
  pending = (session, (manual_remote, nonce, boot)) ∷ [];
}

accept_ack-IsMatched_example :
    IsMatched 900 waiting manual_remote session
      (accept_ack answer 900 (ack_topic (codes "T1")) (codes "{}") waiting).1
unfolding accept_ack decode_document get compare_digest lookup live_boot_id
accept_ack-IsMatched_example =
    accept_ack-IsMatched answer 900 (ack_topic (codes "T1")) (codes "{}") waiting manual_remote
      session 0 refl
