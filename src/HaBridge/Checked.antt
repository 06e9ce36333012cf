-- ===== src/HaBridge/Checked.antt =====
-- What the requests that the bridge accepts have in common, in numbers and texts.
use smart_gatekeeper.Common.{
  ℕ, ◌+◌, ◌≤◌, ◌≡◌, ◌⊎◌, inl, inr, refl, ap, true, false, ◌&&◌, not, Bool, Option, none, some, ltb,
  list_eq, nat_eq, list_beq, ◌++◌, arith, and_parts, Bool-cases, beq_refl,
}
use smart_gatekeeper.Common.Dict.{lookup}
use smart_gatekeeper.Common.Text.{Text, codes, strip_prefix-eq, is_lower_hex}
use smart_gatekeeper.Common.Int.{ℤ, leb_ℤ, parse_integer}
use smart_gatekeeper.HaBridge.Controls.{
  Action, Control, action_eq, control, manual_remote, is_manual, parse_value, ranged, in_range,
}
use smart_gatekeeper.HaBridge.{
  Bridge, Decision, Reason, accepted, refused, request_prefix, live_boot, live_boot_id,
}
use smart_gatekeeper.HaBridge.Requests.{Request, accept_request, in_window, too_soon, is_session_id}
use smart_gatekeeper.HaBridge.Ingress.{IsAccepted, accept_request-cases, command_of, reserved}

pub record IsChecked (r : Request) (s : Bridge) (result : Decision × Bridge) : Type 0 where
  pub object_id : Text
  pub chosen : Control
  pub value : ℤ
  pub boot : Text
  pub seen : ℕ
  pub is_live_message : (r.retained ≡ false) × (r.duplicate ≡ false)
  pub in_namespace : r.topic ≡ request_prefix s.target_id ++ object_id
  pub is_control : control object_id ≡ some chosen
  pub is_allowed : chosen.action ≡ manual_remote → s.allow_manual_remote ≡ true
  pub is_press : chosen.range ≡ none → r.payload ≡ codes "PRESS"
  pub is_number :
      (low high : ℤ)
      → chosen.range ≡ some (low, high)
      → (parse_integer r.payload ≡ some value)
        × (leb_ℤ low value ≡ true)
        × (leb_ℤ value high ≡ true)
  pub is_boot : s.boot_id ≡ some boot
  pub is_seen : s.seen_at ≡ some seen
  pub is_fresh : (seen ≤ r.now) × (r.now ≤ seen + s.max_age)
  pub is_new : (at : ℕ) → s.fingerprint ≡ some (r.topic, r.payload, at) → at + 2000 ≤ r.now
  pub is_spaced :
      (last : ℕ) → lookup chosen.action s.last_action ≡ some last → last + chosen.interval ≤ r.now
  pub has_tokens : (is_session_id r.session_id ≡ true) × (is_lower_hex 32 r.nonce ≡ true)
  pub outcome : result ≡ (accepted (command_of r object_id chosen value boot), reserved r chosen s)

allowed :
    (a : Action) (allow : Bool)
    → (is_manual a && not allow) ≡ false
    → a ≡ manual_remote
    → allow ≡ true
allowed a true h e = refl
allowed a false h e = let h' : true ≡ false = rw e at h in absurd cc

fresh_boot :
    (now max_age : ℕ) (b : Option Text) (a : Option ℕ) (boot : Text)
    → live_boot now max_age b a ≡ some boot
    → (seen : ℕ) × (b ≡ some boot) × (a ≡ some seen) × (seen ≤ now) × (now ≤ seen + max_age)
unfolding live_boot
fresh_boot now max_age none a boot h = cc
fresh_boot now max_age (some b) none boot h = cc
fresh_boot now max_age (some b) (some seen) boot h =
    (seen, ground arith, refl, ground arith, ground arith)

is_live-fresh :
    (r : Request) (s : Bridge) (boot : Text)
    → live_boot_id r.now s ≡ some boot
    → (seen : ℕ) × (s.boot_id ≡ some boot)
      × (s.seen_at ≡ some seen)
      × (seen ≤ r.now)
      × (r.now ≤ seen + s.max_age)
unfolding live_boot_id
is_live-fresh r s boot h = fresh_boot r.now s.max_age s.boot_id s.seen_at boot h

press_only : (payload : Text) (v : ℤ) → ranged none payload ≡ some v → payload ≡ codes "PRESS"
unfolding ranged
press_only payload v h = elim (Bool-cases (list_beq payload (codes "PRESS"))) [
  | inl same ↦ (list_eq.beq_iff payload (codes "PRESS")).0 same
  | inr other ↦ absurd (let h' : none ≡ some v = rw other at h in cc)
]

bounded :
    (low high : ℤ) (o : Option ℤ) (v : ℤ)
    → in_range (low, high) o ≡ some v
    → (o ≡ some v) × (leb_ℤ low v ≡ true) × (leb_ℤ v high ≡ true)
unfolding in_range
bounded low high none v h = cc
bounded low high (some u) v h = elim (Bool-cases (leb_ℤ low u && leb_ℤ u high)) [
  | inr out ↦ absurd (let h' : none ≡ some v = rw out at h in cc)
  | inl within ↦
      let h' : some u ≡ some v = rw within at h in
      let q : u ≡ v = cc in
      let (above, below) = and_parts (leb_ℤ low u) (leb_ℤ u high) within in
      (ap (λ x. some x) q, rw (← q) above, rw (← q) below)
]

ranged_value :
    (range : Option (ℤ × ℤ)) (payload : Text) (v : ℤ)
    → ranged range payload ≡ some v
    → (range ≡ none → payload ≡ codes "PRESS")
      × ((low high : ℤ)
          → range ≡ some (low, high)
          → (parse_integer payload ≡ some v) × (leb_ℤ low v ≡ true) × (leb_ℤ v high ≡ true))
unfolding ranged in_range
ranged_value none payload v h = (λ e. press_only payload v h, λ low high e. absurd cc)
ranged_value (some (low, high)) payload v h = (
  λ e. absurd cc,
  λ low2 high2 e.
      let (parsed, above, below) = bounded low high (parse_integer payload) v h in
      let q : low ≡ low2 = cc in
      let q2 : high ≡ high2 = cc in (parsed, rw (← q) above, rw (← q2) below),
)

parsed_value :
    (c : Control) (payload : Text) (v : ℤ)
    → parse_value c payload ≡ some v
    → ranged c.range payload ≡ some v
unfolding parse_value
parsed_value c payload v h = ground arith

not_repeated :
    (r : Request) (o : Option (Text × Text × ℕ)) (at : ℕ)
    → in_window r o ≡ false
    → o ≡ some (r.topic, r.payload, at)
    → at + 2000 ≤ r.now
not_repeated r o at h e =
    let h' : in_window r (some (r.topic, r.payload, at)) ≡ false = rw e at h in
    let h2 : ltb r.now (at + 2000) ≡ false = rw (beq_refl r.topic, beq_refl r.payload) at h' in
    ground arith

spaced :
    (now interval : ℕ) (o : Option ℕ) (last : ℕ)
    → too_soon now interval o ≡ false
    → o ≡ some last
    → last + interval ≤ now
spaced now interval o last h e =
    let h' : too_soon now interval (some last) ≡ false = rw e at h in ground arith

checked :
    (r : Request) (s : Bridge) (result : Decision × Bridge)
    → IsAccepted r s result
    → IsChecked r s result
checked r s result y =
    let (seen, is_boot, is_seen, from, until) = is_live-fresh r s y.boot y.is_live in
    let (press, number) =
      ranged_value y.chosen.range r.payload y.value
        (parsed_value y.chosen r.payload y.value y.is_value) in
    record {
      object_id = y.object_id;
      chosen = y.chosen;
      value = y.value;
      boot = y.boot;
      seen = seen;
      is_live_message = y.is_live_message;
      in_namespace =
          strip_prefix-eq (request_prefix s.target_id) r.topic y.object_id y.in_namespace;
      is_control = y.is_control;
      is_allowed = allowed y.chosen.action s.allow_manual_remote y.is_allowed;
      is_press = press;
      is_number = number;
      is_boot = is_boot;
      is_seen = is_seen;
      is_fresh = (from, until);
      is_new = λ at e. not_repeated r s.fingerprint at y.is_new e;
      is_spaced = λ last e.
          spaced r.now y.chosen.interval (lookup y.chosen.action s.last_action) last y.is_spaced e;
      has_tokens = and_parts (is_session_id r.session_id) (is_lower_hex 32 r.nonce) y.has_tokens;
      outcome = y.outcome;
    }

-- Every request is either refused, and then nothing changes, or it is neither retained nor a
-- duplicate delivery and names a control, one of the manual remote only where that is allowed; its
-- payload is PRESS or an integer in the control's range; the last status came at most `max_age` before
-- it, and not after it; it is not the last accepted request again within two seconds of that one; and
-- the control's interval has passed since the control's action was last accepted. The command then
-- carries the integer, the boot of that status and the fresh tokens, and the request is remembered.
pub accept_request-IsChecked :
    (r : Request) (s : Bridge)
    → ((why : Reason) × (accept_request r s ≡ (refused why, s)))
      ⊎ IsChecked r s (accept_request r s)
accept_request-IsChecked r s = elim (accept_request-cases r s) [
  | inl refusal ↦ inl refusal
  | inr y ↦ inr (checked r s (accept_request r s) y)
]
