-- ===== src/HaBridge/Controls.antt =====
-- The table `_CONTROLS` and `_parse_value` of backend/app/home_assistant_bridge.py.
use smart_gatekeeper.Common.{
  ℕ, ◌≡◌, ◌↔◌, Bool, true, false, ◌&&◌, Option, none, some, if◌then◌else◌, ltb, leb, list_eq,
  nat_eq, list_beq, length, every, Eq, arith,
}
use smart_gatekeeper.Common.Text.{Text, codes}
use smart_gatekeeper.Common.Int.{ℤ, pos, negsuc, leb_ℤ, parse_integer}

pub data Action : Type 0 where
  manual_remote ota_check reboot set_tx_power : Action
  set_distance_threshold set_duration set_relay_cooldown : Action

abbrev pub number : Action → ℕ
number manual_remote = 0
number ota_check = 1
number reboot = 2
number set_tx_power = 3
number set_distance_threshold = 4
number set_duration = 5
number set_relay_cooldown = 6

abbrev pub action_beq : Action → Action → Bool
action_beq a b = nat_eq.beq (number a) (number b)

pub action_beq_iff : (a b : Action) → (action_beq a b ≡ true) ↔ (a ≡ b)
action_beq_iff a b = ground arith

instance abbrev pub action_eq : Eq Action
action_eq = record { beq = action_beq; beq_iff = action_beq_iff }

abbrev pub is_manual : Action → Bool
is_manual manual_remote = true
is_manual _ = false

-- _ControlDefinition; the interval is in milliseconds
pub record Control : Type 0 where
  pub action : Action
  pub range : Option (ℤ × ℤ)
  pub interval : ℕ

abbrev press : Action → ℕ → Option Control
press action interval = some (record { action = action; range = none; interval = interval })

abbrev number_in : Action → ℤ → ℤ → Option Control
number_in action low high =
    some (record { action = action; range = some (low, high); interval = 500 })

-- _CONTROLS.get(object_id)
unfoldable pub control : Text → Option Control
control id =
    if list_beq id (codes "open_gate")
    then press manual_remote 5000
    else if list_beq id (codes "trigger_ota")
    then press ota_check 60000
    else if list_beq id (codes "reboot")
    then press reboot 60000
    else if list_beq id (codes "config_tx_power_num")
    then number_in set_tx_power (negsuc 5) (pos 9)
    else if list_beq id (codes "config_dist_thresh_num")
    then number_in set_distance_threshold (pos 20) (pos 200)
    else if list_beq id (codes "config_duration_num")
    then number_in set_duration (pos 1000) (pos 60000)
    else if list_beq id (codes "config_relay_cooldown_num")
    then number_in set_relay_cooldown (pos 1000) (pos 10000)
    else none

unfoldable pub in_range : ℤ × ℤ → Option ℤ → Option ℤ
in_range (low, high) none = none
in_range (low, high) (some v) = if leb_ℤ low v && leb_ℤ v high then some v else none

unfoldable pub ranged : Option (ℤ × ℤ) → Text → Option ℤ
unfolding in_range
ranged none payload = if list_beq payload (codes "PRESS") then some (pos 0) else none
ranged (some bounds) payload = in_range bounds (parse_integer payload)

-- `_parse_value`; a byte above 127 is the UnicodeDecodeError
unfoldable pub parse_value : Control → Text → Option ℤ
unfolding ranged
parse_value c payload =
    if ltb 0 (length payload) && leb (length payload) 32 && every (λ b. ltb b 128) payload
    then ranged c.range payload
    else none
