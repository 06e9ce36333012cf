-- ===== src/HaBridge/Acks.antt =====
-- ACKs of commands: one for each published command, from the boot that it was meant for.
use smart_gatekeeper.Common.{
  ℕ, ◌≤◌, ◌≡◌, refl, sym, ap, ◌∙◌, Bool, true, false, Option, none, some, [], ◌∷◌, arith,
  if◌then◌else◌, ◌==◌, list_eq, nat_eq, list_beq, list_beq_iff, Bool-cases, inl, inr, length,
}
use smart_gatekeeper.Common.Dict.{Dict, lookup, set_item, lookup-remove, pop_first, length-set_item}
use smart_gatekeeper.Common.Text.{Text}
use smart_gatekeeper.Common.Json.{Json}
use smart_gatekeeper.Common.Try.{Try, done, gave_up, raised, compare_digest}
use smart_gatekeeper.HaBridge.Controls.{Action}
use smart_gatekeeper.HaBridge.{Bridge, Command, live_boot_id, ack_topic, decode_document}
use smart_gatekeeper.HaBridge.Requests.{note_published, cap}
use smart_gatekeeper.HaBridge.Answers.{
  AckDecision, target_accepted, target_rejected, accept_ack, ack_parsed, match_ack, settle,
  compare_ack, parse_ack,
}

-- What an accepted ACK is about: its action, session and result.
abbrev pub about : AckDecision → Option (Action × Text × ℕ)
about (target_accepted a s n) = some (a, s, n)
about (target_rejected a s n) = some (a, s, n)
about _ = none

compare_ack-true :
    (expected nonce boot live : Text)
    → compare_ack expected nonce boot live ≡ done true
    → (expected ≡ nonce) × (boot ≡ live)
unfolding compare_ack compare_digest
compare_ack-true expected nonce boot live h =
    ground (arith, list_beq_iff expected nonce, list_beq_iff boot live)

-- The pending command that an accepted ACK belongs to, and that it is pending no more.
pub record IsMatched (now : ℕ) (s : Bridge) (action : Action) (session_id : Text) (after : Bridge)
    : Type 0 where
  pub nonce : Text
  pub boot : Text
  pub was_pending : lookup session_id s.pending ≡ some (action, nonce, boot)
  pub is_live : live_boot_id now s ≡ some boot
  pub no_more : lookup session_id after.pending ≡ none

answered :
    (b : Bool) (a : Action) (id : Text) (n : ℕ)
    → about (if b then target_accepted a id n else target_rejected a id n) ≡ some (a, id, n)
answered true a id n = refl
answered false a id n = refl

parts : (x y : Action × Text × ℕ) → some x ≡ some y → (x.0 ≡ y.0) × (x.1 ≡ y.1)
parts x y h = let e : x ≡ y = cc in (ap (λ z. z.0) e, ap (λ z. z.1) e)

settled :
    (a action : Action) (id session : Text) (n result : ℕ) (o : Try Bool) (s : Bridge)
    → about (settle a id n o s).0 ≡ some (action, session, result)
    → (o ≡ done true)
      × (a ≡ action)
      × (id ≡ session)
      × (lookup session (settle a id n o s).1.pending ≡ none)
unfolding settle
settled a action id session n result (done true) s h =
    let (same_action, same) =
      parts (a, id, n) (action, session, result) (sym (answered (n == 0) a id n) ∙ h) in
    (
      refl,
      same_action,
      same,
      ground (arith, lookup-remove id session s.pending, list_beq_iff id session),
    )
settled a action id session n result (done false) s h = cc
settled a action id session n result gave_up s h = cc
settled a action id session n result raised s h = cc

matched :
    (now : ℕ) (action : Action) (id nonce session : Text) (n result : ℕ)
    (p : Option (Action × Text × Text)) (l : Option Text) (s : Bridge)
    → lookup id s.pending ≡ p
    → live_boot_id now s ≡ l
    → about (match_ack (id, nonce, n) p l s).0 ≡ some (action, session, result)
    → IsMatched now s action session (match_ack (id, nonce, n) p l s).1
unfolding match_ack
matched now action id nonce session n result none l s was live h = cc
matched now action id nonce session n result (some (a, expected, boot)) none s was live h = cc
matched now action id nonce session n result (some (a, expected, boot)) (some b) s was live h =
    let (yes', same_action, same_id, gone) =
      settled a action id session n result (compare_ack expected nonce boot b) s h in
    let (_, same_boot) = compare_ack-true expected nonce boot b yes' in
    record { nonce = expected; boot = boot; was_pending = cc; is_live = cc; no_more = gone }

parsed :
    (now : ℕ) (action : Action) (session : Text) (result : ℕ) (o : Try (Text × Text × ℕ))
    (s : Bridge)
    → about (ack_parsed now o s).0 ≡ some (action, session, result)
    → IsMatched now s action session (ack_parsed now o s).1
unfolding ack_parsed
parsed now action session result gave_up s h = cc
parsed now action session result raised s h = cc
parsed now action session result (done (id, nonce, n)) s h =
    matched now action id nonce session n result (lookup id s.pending) (live_boot_id now s) s refl
      refl h

-- An ACK that the bridge accepts, as a success or as a rejection of the target, is about a command
-- that was pending under the ACK's session for the same action and whose expected boot is the live
-- one; the command is pending no more, so no second ACK of the session is accepted.
pub accept_ack-IsMatched :
    (decode : Text → Option Json) (now : ℕ) (topic payload : Text) (s : Bridge) (action : Action)
    (session : Text) (result : ℕ)
    → about (accept_ack decode now topic payload s).0 ≡ some (action, session, result)
    → IsMatched now s action session (accept_ack decode now topic payload s).1
unfolding accept_ack
accept_ack-IsMatched decode now topic payload s action session result h =
    elim (Bool-cases (list_beq topic (ack_topic s.target_id))) [
      | inl ours ↦ rw ours (
          parsed now action session result
            (parse_ack s.target_id (decode_document decode payload 1024)) s (rw ours at h))
      | inr other ↦ absurd (let h' : none ≡ some (action, session, result) = rw other at h in cc)
    ]

capped : (d : Dict Text (Action × Text × Text)) → length d ≤ 33 → length (cap d) ≤ 32
unfolding pop_first
capped [] q = ground arith
capped (e ∷ d) q = ground arith

-- If at most 32 commands wait for their ACK, then at most 32 do after another is published.
pub note_published-bounded :
    (c : Command) (s : Bridge) → length s.pending ≤ 32 → length (note_published c s).pending ≤ 32
unfolding note_published
note_published-bounded c s h =
    capped (set_item c.session_id (c.action, c.nonce, c.expected_boot_id) s.pending) (
      omega
        (arith, h, length-set_item c.session_id (c.action, c.nonce, c.expected_boot_id) s.pending))
