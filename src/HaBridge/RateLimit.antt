-- ===== src/HaBridge/RateLimit.antt =====
-- Accepted requests for one action keep its minimum interval.
use smart_gatekeeper.Common.{
  ℕ, ◌+◌, ◌≤◌, ◌≡◌, ◌≢◌, inl, inr, refl, sym, ap, ◌∙◌, false, Option, some, List, [], ◌∷◌, arith,
  Bool-cases, All,
}
use smart_gatekeeper.Common.Dict.{lookup, lookup-set_item, lookup-remove}
use smart_gatekeeper.Common.Text.{Text}
use smart_gatekeeper.Common.Json.{Json}
use smart_gatekeeper.Common.Try.{Try, done, gave_up, raised}
use smart_gatekeeper.HaBridge.Controls.{
  Action, Control, control, action_eq, action_beq_iff, action_beq,
}
use smart_gatekeeper.HaBridge.{
  Bridge, Command, Decision, Reason, accepted, refused, note_status, reset_transport, note_checked,
  note_gate, GateField, known, unknown, unhashable, status_boot, decode_document, gate_field,
}
use smart_gatekeeper.HaBridge.Requests.{
  Request, accept_request, note_published, note_publish_failed, too_soon,
}
use smart_gatekeeper.HaBridge.Answers.{accept_ack, ack_parsed, match_ack}
use smart_gatekeeper.HaBridge.Ingress.{IsAccepted, Decided, accept_request-cases, command_of}

-- Everything that the bridge is told.
pub data Input : Type 0 where
  request : Request → Input
  status ack : ℕ → Text → Text → Input
  published failed : Command → Input
  reconnected : Input

other_action : (a b : Action) → a ≢ b → action_beq a b ≡ false
other_action a b n = ground (arith, action_beq_iff a b)

refused_accepted : (why : Reason) (c : Command) → ¬ (refused why ≡ accepted c)
refused_accepted why c e = cc

accepted_inj : (c d : Command) → accepted c ≡ accepted d → c ≡ d
accepted_inj c d e = cc

accepted_as :
    (r : Request) (s : Bridge) (c : Command) (result : Decision × Bridge)
    → result.0 ≡ accepted c
    → Decided r s result
    → (y : IsAccepted r s result) × (command_of r y.object_id y.chosen y.value y.boot ≡ c)
accepted_as r s c result h (inl (why, e)) =
    absurd (refused_accepted why c (sym (ap (λ (d : Decision × Bridge). d.0) e) ∙ h))
accepted_as r s c result h (inr y) = (
  y,
  accepted_inj (command_of r y.object_id y.chosen y.value y.boot) c
      (sym (ap (λ (d : Decision × Bridge). d.0) y.outcome) ∙ h),
)

spaced :
    (now : ℕ) (c k : Control) (o : Option ℕ) (since last : ℕ)
    → some c ≡ some k
    → o ≡ some last
    → since ≤ last
    → too_soon now c.interval o ≡ false
    → since + k.interval ≤ now
spaced now c k o since last e f l h = ground arith

module _ (decode : Text → Option Json) where
  after : Input → Bridge → Bridge
  after (request r) s = (accept_request r s).1
  after (status now topic payload) s = (note_status decode now topic payload s).1
  after (ack now topic payload) s = (accept_ack decode now topic payload s).1
  after (published c) s = note_published c s
  after (failed c) s = note_publish_failed c s
  after reconnected s = reset_transport s

  unfoldable pub run : List Input → Bridge → Bridge
  unfolding after
  run [] s = s
  run (i ∷ inputs) s = run inputs (after i s)

  -- No request of the inputs is older than `since`, and no publication of `a` is reported as failed.
  abbrev pub Later : Action → ℕ → Input → Type 0
  Later a since (request r) = since ≤ r.now
  Later a since (failed c) = c.action ≢ a
  Later a since _ = Unit

  -- The last accepted request for `a` is remembered, and is no older than `since`.
  pub record Remembers (a : Action) (since : ℕ) (s : Bridge) : Type 0 where
    pub last : ℕ
    pub found : lookup a s.last_action ≡ some last
    pub recent : since ≤ last

  note_gate-last :
      (now : ℕ) (boot : Text) (g : GateField) (s : Bridge)
      → (note_gate now boot g s).1.last_action ≡ s.last_action
  unfolding note_gate
  note_gate-last now boot (known g) s = refl
  note_gate-last now boot unknown s = refl
  note_gate-last now boot unhashable s = refl

  note_checked-last :
      (now : ℕ) (o : Try (Text × Json)) (s : Bridge)
      → (note_checked now o s).1.last_action ≡ s.last_action
  unfolding note_checked
  note_checked-last now gave_up s = refl
  note_checked-last now raised s = refl
  note_checked-last now (done (boot, state)) s = note_gate-last now boot (gate_field state) s

  note_status-last :
      (now : ℕ) (topic payload : Text) (s : Bridge)
      → (note_status decode now topic payload s).1.last_action ≡ s.last_action
  unfolding note_status
  note_status-last now topic payload s = ground (
    arith,
    note_checked-last now (status_boot s.target_id (decode_document decode payload 4096)) s,
  )

  accept_ack-last :
      (now : ℕ) (topic payload : Text) (s : Bridge)
      → (accept_ack decode now topic payload s).1.last_action ≡ s.last_action
  unfolding accept_ack ack_parsed match_ack
  accept_ack-last now topic payload s = ground arith

  kept :
      (a : Action) (since : ℕ) (s t : Bridge)
      → t.last_action ≡ s.last_action
      → Remembers a since s
      → Remembers a since t
  kept a since s t e m = record { last = m.last; found = rw e (m.found); recent = m.recent }

  after_request :
      (a : Action) (since : ℕ) (r : Request) (s : Bridge)
      → since ≤ r.now
      → Remembers a since s
      → Decided r s (accept_request r s)
      → Remembers a since (accept_request r s).1
  after_request a since r s l m (inl (why, e)) =
      kept a since s (accept_request r s).1 (ap (λ (d : Decision × Bridge). d.1.last_action) e) m
  after_request a since r s l m (inr y) =
      let e = ap (λ (d : Decision × Bridge). d.1.last_action) y.outcome in
      let law = lookup-set_item y.chosen.action a r.now s.last_action in
      elim (Bool-cases (action_beq y.chosen.action a)) [
        | inl same ↦ record { last = r.now; found = rw (e, law, same) refl; recent = l }
        | inr other ↦ record {
          last = m.last;
          found = rw (e, law, other) m.found;
          recent = m.recent;
        }
      ]

  after-Remembers :
      (a : Action) (since : ℕ) (i : Input) (s : Bridge)
      → Later a since i
      → Remembers a since s
      → Remembers a since (after i s)
  unfolding after
  after-Remembers a since (request r) s l m =
      after_request a since r s l m (accept_request-cases r s)
  after-Remembers a since (status now topic payload) s l m =
      kept a since s (note_status decode now topic payload s).1
        (note_status-last now topic payload s) m
  after-Remembers a since (ack now topic payload) s l m =
      kept a since s (accept_ack decode now topic payload s).1 (accept_ack-last now topic payload s)
        m
  after-Remembers a since (published c) s l m =
      kept a since s (note_published c s) (unfold note_published in refl) m
  after-Remembers a since (failed c) s l m = record {
    last = m.last;
    found =
        unfold note_publish_failed in
        rw (lookup-remove c.action a s.last_action, other_action c.action a l) m.found;
    recent = m.recent;
  }
  after-Remembers a since reconnected s l m =
      kept a since s (reset_transport s) (unfold reset_transport in refl) m

  run-Remembers :
      (a : Action) (since : ℕ) (inputs : List Input) (s : Bridge)
      → All (Later a since) inputs
      → Remembers a since s
      → Remembers a since (run inputs s)
  unfolding run
  run-Remembers a since [] s l m = m
  run-Remembers a since (i ∷ inputs) s l m =
      run-Remembers a since inputs (after i s) l.1 (after-Remembers a since i s l.0 m)

  remembered :
      (r : Request) (s : Bridge) (c : Command)
      → (accept_request r s).0 ≡ accepted c
      → Remembers c.action r.now (accept_request r s).1
  remembered r s c h =
      let (y, e) = accepted_as r s c (accept_request r s) h (accept_request-cases r s) in
      let left = ap (λ (d : Decision × Bridge). d.1.last_action) y.outcome in
      let act : y.chosen.action ≡ c.action = ap (λ (d : Command). d.action) e in
      let law = lookup-set_item y.chosen.action c.action r.now s.last_action in
      record {
        last = r.now;
        found = rw (left, law, (action_beq_iff y.chosen.action c.action).1 act) refl;
        recent = omega arith;
      }

  -- Between two accepted requests for one action lies at least the interval of the control, whatever
  -- else the bridge is told in between, a new connection included, as long as no publication of that
  -- action is reported as failed and the clock does not run backwards.
  pub accepted_requests_spaced :
      (first second : Request) (inputs : List Input) (s : Bridge) (c d : Command) (k : Control)
      → (accept_request first s).0 ≡ accepted c
      → All (Later c.action first.now) inputs
      → (accept_request second (run inputs (accept_request first s).1)).0 ≡ accepted d
      → d.action ≡ c.action
      → control d.object_id ≡ some k
      → first.now + k.interval ≤ second.now
  accepted_requests_spaced first second inputs s c d k one between two same table =
      let t = run inputs (accept_request first s).1 in
      let m =
        run-Remembers c.action first.now inputs (accept_request first s).1 between
          (remembered first s c one) in
      let (y, e) =
        accepted_as second t d (accept_request second t) two (accept_request-cases second t) in
      let act : y.chosen.action ≡ c.action = ap (λ (x : Command). x.action) e ∙ same in
      let chosen : some y.chosen ≡ some k =
        sym y.is_control ∙ ap (λ (x : Command). control x.object_id) e ∙ table in
      spaced second.now y.chosen k (lookup y.chosen.action t.last_action) first.now m.last chosen
        (ap (λ (x : Action). lookup x t.last_action) act ∙ m.found) m.recent y.is_spaced
