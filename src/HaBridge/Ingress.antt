-- ===== src/HaBridge/Ingress.antt =====
-- What an accepted request met, test by test, and that a refused one changes nothing.
use mathlib.Core.Path.{subst}
use smart_gatekeeper.Common.{
  ◌≡◌, ◌⊎◌, inl, inr, refl, sym, true, false, ◌&&◌, not, Option, none, some, list_eq, nat_eq,
  Bool-cases,
}
use smart_gatekeeper.Common.Dict.{lookup, set_item}
use smart_gatekeeper.Common.Text.{Text, strip_prefix, is_lower_hex}
use smart_gatekeeper.Common.Int.{ℤ}
use smart_gatekeeper.HaBridge.Controls.{Control, control, parse_value, is_manual, action_eq}
use smart_gatekeeper.HaBridge.{
  Bridge, Command, Decision, Reason, accepted, refused, request_prefix, live_boot_id,
  duplicate_window, rate_limited, token_generation_failed, target_status_stale, invalid_payload,
  unsupported_control, manual_remote_disabled, outside_ingress_namespace, retained_request,
  qos_duplicate,
}
use smart_gatekeeper.HaBridge.Requests.{
  Request, accept_request, with_object, with_control, with_value, with_boot, reserve, in_window,
  too_soon, is_session_id,
}

-- The command that `accept_request` issues, and the state that it leaves.
abbrev pub command_of : Request → Text → Control → ℤ → Text → Command
command_of r object_id c value boot = record {
  object_id = object_id;
  action = c.action;
  value = value;
  expected_boot_id = boot;
  session_id = r.session_id;
  nonce = r.nonce;
}

abbrev pub reserved : Request → Control → Bridge → Bridge
reserved r c s = record s {
  fingerprint = some (r.topic, r.payload, r.now);
  last_action = set_item c.action r.now s.last_action;
}

-- All that an accepted request met, and what it leaves.
pub record IsAccepted (r : Request) (s : Bridge) (result : Decision × Bridge) : Type 0 where
  pub object_id : Text
  pub chosen : Control
  pub value : ℤ
  pub boot : Text
  pub is_live_message : (r.retained ≡ false) × (r.duplicate ≡ false)
  pub in_namespace : strip_prefix (request_prefix s.target_id) r.topic ≡ some object_id
  pub is_control : control object_id ≡ some chosen
  pub is_allowed : (is_manual chosen.action && not s.allow_manual_remote) ≡ false
  pub is_value : parse_value chosen r.payload ≡ some value
  pub is_live : live_boot_id r.now s ≡ some boot
  pub is_new : in_window r s.fingerprint ≡ false
  pub is_spaced : too_soon r.now chosen.interval (lookup chosen.action s.last_action) ≡ false
  pub has_tokens : (is_session_id r.session_id && is_lower_hex 32 r.nonce) ≡ true
  pub outcome : result ≡ (accepted (command_of r object_id chosen value boot), reserved r chosen s)

abbrev pub Decided : Request → Bridge → Decision × Bridge → Type 0
Decided r s result = ((why : Reason) × (result ≡ (refused why, s))) ⊎ IsAccepted r s result

module _ (r : Request) (s : Bridge) (fresh : r.retained ≡ false)
    (single : r.duplicate ≡ false) where
  module _ (id : Text) (on : strip_prefix (request_prefix s.target_id) r.topic ≡ some id) where
    module _ (c : Control) (known : control id ≡ some c)
        (allowed : (is_manual c.action && not s.allow_manual_remote) ≡ false) where
      reserve-cases :
          (v : ℤ) (boot : Text)
          → parse_value c r.payload ≡ some v
          → live_boot_id r.now s ≡ some boot
          → Decided r s (reserve r id c v boot s)
      unfolding reserve
      reserve-cases v boot iv lv = elim (Bool-cases (in_window r s.fingerprint)) [
        | inl again ↦ inl (duplicate_window, rw again refl)
        | inr new ↦ elim (Bool-cases (too_soon r.now c.interval (lookup c.action s.last_action))) [
          | inl soon ↦ inl (rate_limited, rw (new, soon) refl)
          | inr spaced ↦ elim (Bool-cases (is_session_id r.session_id && is_lower_hex 32 r.nonce)) [
            | inr bad ↦ inl (token_generation_failed, rw (new, spaced, bad) refl)
            | inl good ↦ inr (record {
              object_id = id;
              chosen = c;
              value = v;
              boot = boot;
              is_live_message = (fresh, single);
              in_namespace = on;
              is_control = known;
              is_allowed = allowed;
              is_value = iv;
              is_live = lv;
              is_new = new;
              is_spaced = spaced;
              has_tokens = good;
              outcome = rw (new, spaced, good) refl;
            })
          ]
        ]
      ]

      boot-cases :
          (v : ℤ) (o : Option Text)
          → parse_value c r.payload ≡ some v
          → live_boot_id r.now s ≡ o
          → Decided r s (with_boot r id c v o s)
      unfolding with_boot
      boot-cases v none iv lv = inl (target_status_stale, refl)
      boot-cases v (some boot) iv lv = reserve-cases v boot iv lv

      value-cases :
          (o : Option ℤ) → parse_value c r.payload ≡ o → Decided r s (with_value r id c o s)
      unfolding with_value
      value-cases none iv = inl (invalid_payload, refl)
      value-cases (some v) iv = boot-cases v (live_boot_id r.now s) iv refl

    control-cases : (o : Option Control) → control id ≡ o → Decided r s (with_control r id o s)
    unfolding with_control
    control-cases none ic = inl (unsupported_control, refl)
    control-cases (some c) ic =
        elim (Bool-cases (is_manual c.action && not s.allow_manual_remote)) [
          | inl denied ↦ inl (manual_remote_disabled, rw denied refl)
          | inr allowed ↦ rw allowed (value-cases c ic allowed (parse_value c r.payload) refl)
        ]

  object-cases :
      (o : Option Text)
      → strip_prefix (request_prefix s.target_id) r.topic ≡ o
      → Decided r s (with_object r o s)
  unfolding with_object
  object-cases none on = inl (outside_ingress_namespace, refl)
  object-cases (some id) on = control-cases id on (control id) refl

live_message :
    (r : Request) (s : Bridge)
    → r.retained ≡ false
    → r.duplicate ≡ false
    → accept_request r s ≡ with_object r (strip_prefix (request_prefix s.target_id) r.topic) s
unfolding accept_request
live_message r s fresh single = simp (fresh, single)

-- Every request is refused, and then nothing changes, or it passed every test.
pub accept_request-cases : (r : Request) (s : Bridge) → Decided r s (accept_request r s)
unfolding accept_request
accept_request-cases r s = elim (Bool-cases r.retained) [
  | inl old ↦ inl (retained_request, simp old)
  | inr fresh ↦ elim (Bool-cases r.duplicate) [
    | inl again ↦ inl (qos_duplicate, simp (fresh, again))
    | inr single ↦
        subst (Decided r s) (sym (live_message r s fresh single))
          (object-cases r s fresh single (strip_prefix (request_prefix s.target_id) r.topic) refl)
  ]
]
