-- ===== src/HaBridge.antt =====
-- backend/app/home_assistant_bridge.py: the command ingress of Home Assistant. Times are whole
-- milliseconds of the monotonic clock; the JSON decoder and the token factories are parameters.
pub mod Requests
pub mod Answers
pub mod Controls
pub mod Ingress
pub mod Checked
pub mod RateLimit
pub mod Acks
pub mod Topics
use Prim.Native.String.{String}
use smart_gatekeeper.Common.{
  ℕ, ◌+◌, ◌-◌, Bool, true, false, ◌&&◌, ◌||◌, not, Option, none, some, List, [], ◌∷◌, ◌++◌,
  if◌then◌else◌, ltb, leb, ◌==◌, list_eq, nat_eq, list_beq, length, every, Eq, take, drop,
}
use smart_gatekeeper.Common.Dict.{Dict, lookup, set_item, remove, pop_first}
use smart_gatekeeper.Common.Text.{Text, codes, strip_prefix, is_lower_hex, is_target_id, is_hex}
use smart_gatekeeper.Common.Int.{ℤ}
use smart_gatekeeper.Common.Json.{Json, null, str, Fields, get, as_object, as_text, as_nat}
use smart_gatekeeper.Common.Try.{
  Try, done, gave_up, raised, given, check, compare_digest, ◌>>=◌, ◌>>◌,
}
use Controls.{Action, Control, action_eq, control, parse_value, manual_remote, is_manual}

-- BridgeCommand
pub record Command : Type 0 where
  pub object_id : Text
  pub action : Action
  pub value : ℤ
  pub expected_boot_id : Text
  pub session_id : Text
  pub nonce : Text

pub data Reason : Type 0 where
  retained_request qos_duplicate outside_ingress_namespace unsupported_control : Reason
  manual_remote_disabled invalid_payload target_status_stale duplicate_window : Reason
  rate_limited token_generation_failed : Reason

-- BridgeDecision
pub data Decision : Type 0 where
  accepted : Command → Decision
  refused : Reason → Decision

pub data Gate : Type 0 where
  idle auth_pending armed relay_hold cooldown : Gate

pub record Bridge : Type 0 where
  pub target_id : Text
  pub allow_manual_remote : Bool
  pub max_age : ℕ
  pub boot_id : Option Text
  pub seen_at : Option ℕ
  pub gate : Option Gate
  pub last_action : Dict Action ℕ
  pub fingerprint : Option (Text × Text × ℕ)
  pub pending : Dict Text (Action × Text × Text)

-- `__init__`; `none` is its ValueError
unfoldable pub create : Text → Bool → ℕ → Option Bridge
create target_id allow max_age =
    if not (is_target_id target_id && leb 1000 max_age && leb max_age 60000)
    then none
    else some (record {
      target_id = target_id;
      allow_manual_remote = allow;
      max_age = max_age;
      boot_id = none;
      seen_at = none;
      gate = none;
      last_action = [];
      fingerprint = none;
      pending = [];
    })

unfoldable pub reset_transport : Bridge → Bridge
reset_transport s = record s {
  boot_id = none;
  seen_at = none;
  gate = none;
  fingerprint = none;
  pending = [];
}

-- bridge_request_topic(target_id, "+")[:-1]
abbrev pub request_prefix : Text → Text
request_prefix id = codes "gatekeeper/v1/ha-bridge/" ++ (id ++ codes "/request/")

abbrev pub status_topic : Text → Text
status_topic id = codes "gatekeeper/v1/targets/" ++ (id ++ codes "/status")

abbrev pub availability_topic : Text → Text
availability_topic id = codes "gatekeeper/v1/targets/" ++ (id ++ codes "/availability")

abbrev pub ack_topic : Text → Text
ack_topic id = codes "gatekeeper/v1/targets/" ++ (id ++ codes "/command-ack")

-- `_live_boot_locked`
live_boot : ℕ → ℕ → Option Text → Option ℕ → Option Text
live_boot now max_age (some boot) (some seen) =
    if ltb now seen || ltb (seen + max_age) now then none else some boot
live_boot now max_age _ _ = none

unfoldable pub live_boot_id : ℕ → Bridge → Option Text
unfolding live_boot
live_boot_id now s = live_boot now s.max_age s.boot_id s.seen_at

unfoldable pub live_gate_state : ℕ → Bridge → Option Gate
live_gate_state now s = elim (live_boot_id now s) [ none ↦ none | some boot ↦ s.gate ]

module _ (decode : Text → Option Json) where
  -- `_decode_document`
  unfoldable pub decode_document : Text → ℕ → Option Fields
  decode_document payload maximum =
      if ltb 0 (length payload) && leb (length payload) maximum
      then as_object (decode payload)
      else none

-- The test of `state`: `unhashable` is the TypeError that a list or an object raises in a set test.
pub data GateField : Type 0 where
  known : Option Gate → GateField
  unknown unhashable : GateField

gate_named : Text → GateField
gate_named t =
    if list_beq t (codes "IDLE")
    then known (some idle)
    else if list_beq t (codes "AUTH_PENDING")
    then known (some auth_pending)
    else if list_beq t (codes "ARMED")
    then known (some armed)
    else if list_beq t (codes "RELAY_HOLD")
    then known (some relay_hold)
    else if list_beq t (codes "COOLDOWN")
    then known (some cooldown)
    else unknown

unfoldable pub gate_field : Json → GateField
unfolding gate_named
gate_field null = known none
gate_field (str t) = gate_named t
gate_field (Json.arr xs) = unhashable
gate_field (Json.obj fs) = unhashable
gate_field _ = unknown

pub data Noted : Type 0 where
  noted ignored type_error : Noted

note_gate : ℕ → Text → GateField → Bridge → Noted × Bridge
note_gate now boot (known g) s =
    (noted, record s { boot_id = some boot; seen_at = some now; gate = g })
note_gate now boot unknown s = (ignored, s)
note_gate now boot unhashable s = (type_error, s)

-- The checks of a status document before `state`: its boot id
status_boot : Text → Option Fields → Try (Text × Json)
status_boot own found = do
  document ← given found
  target_id ← given (as_text (get "target_id" document))
  same ← compare_digest target_id own
  check same
  boot_id ← given (as_text (get "boot_id" document))
  check (is_lower_hex 32 boot_id)
  done (boot_id, get "state" document)

note_checked : ℕ → Try (Text × Json) → Bridge → Noted × Bridge
unfolding note_gate
note_checked now gave_up s = (ignored, s)
note_checked now raised s = (type_error, s)
note_checked now (done (boot, state)) s = note_gate now boot (gate_field state) s

module _ (decode : Text → Option Json) where
  unfoldable pub note_status : ℕ → Text → Text → Bridge → Noted × Bridge
  unfolding note_checked status_boot
  note_status now topic payload s =
      if list_beq topic (status_topic s.target_id)
      then note_checked now (status_boot s.target_id (decode_document decode payload 4096)) s
      else (ignored, s)

  -- true is "online", and `gave_up` is None
  unfoldable pub note_target_availability : Text → Text → Bridge → Try Bool
  note_target_availability topic payload s = do
    check (list_beq topic (availability_topic s.target_id))
    document ← given (decode_document decode payload 512)
    target_id ← given (as_text (get "target_id" document))
    same ← compare_digest target_id s.target_id
    check same
    state ← given (as_text (get "status" document))
    if list_beq state (codes "online")
        then done true
        else if list_beq state (codes "offline")
        then done false
        else gave_up
