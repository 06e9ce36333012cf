-- ===== src/HaBridge/Answers.antt =====
-- The ACKs of the Target in backend/app/home_assistant_bridge.py, each matched with its pending command.
use smart_gatekeeper.Common.{
  ℕ, Bool, true, false, Option, some, if◌then◌else◌, leb, ◌==◌, list_eq, nat_eq, list_beq,
}
use smart_gatekeeper.Common.Dict.{lookup, remove}
use smart_gatekeeper.Common.Text.{Text}
use smart_gatekeeper.Common.Json.{Json, Fields, get, as_text, as_nat}
use smart_gatekeeper.Common.Try.{
  Try, done, gave_up, raised, given, check, compare_digest, ◌>>=◌, ◌>>◌,
}
use smart_gatekeeper.HaBridge.Controls.{Action, action_eq}
use smart_gatekeeper.HaBridge.{Bridge, ack_topic, live_boot_id, decode_document}

-- AckDecision, and the TypeError that leaves `accept_ack`
pub data AckDecision : Type 0 where
  outside_ack_namespace invalid_ack unmatched_ack ack_type_error : AckDecision
  target_accepted target_rejected : Action → Text → ℕ → AckDecision

-- (session_id, nonce, result)
unfoldable pub parse_ack : Text → Option Fields → Try (Text × Text × ℕ)
parse_ack own found = do
  document ← given found
  target_id ← given (as_text (get "target_id" document))
  same ← compare_digest target_id own
  check same
  session_id ← given (as_text (get "session_id" document))
  nonce ← given (as_text (get "nonce" document))
  result ← given (as_nat (get "result" document))
  check (leb result 13)
  done (session_id, nonce, result)

abbrev pub ack_answer : Action → Text → ℕ → AckDecision
ack_answer action session_id result =
    if result == 0
    then target_accepted action session_id result
    else target_rejected action session_id result

-- The nonce and the boot id of the pending command against those of the ACK and of the live status.
unfoldable pub compare_ack : Text → Text → Text → Text → Try Bool
compare_ack expected nonce boot live = do
  same_nonce ← compare_digest expected nonce
  if same_nonce then compare_digest boot live else done false

unfoldable pub settle : Action → Text → ℕ → Try Bool → Bridge → AckDecision × Bridge
settle action session_id result (done true) s =
    (ack_answer action session_id result, record s { pending = remove session_id s.pending })
settle action session_id result raised s = (ack_type_error, s)
settle action session_id result _ s = (unmatched_ack, s)

unfoldable pub match_ack :
    Text × Text × ℕ → Option (Action × Text × Text) → Option Text → Bridge → AckDecision × Bridge
unfolding compare_ack settle
match_ack (session_id, nonce, result) (some (action, expected, boot)) (some live) s =
    settle action session_id result (compare_ack expected nonce boot live) s
match_ack _ _ _ s = (unmatched_ack, s)

unfoldable pub ack_parsed : ℕ → Try (Text × Text × ℕ) → Bridge → AckDecision × Bridge
unfolding match_ack
ack_parsed now gave_up s = (invalid_ack, s)
ack_parsed now raised s = (ack_type_error, s)
ack_parsed now (done (session_id, nonce, result)) s =
    match_ack (session_id, nonce, result) (lookup session_id s.pending) (live_boot_id now s) s

module _ (decode : Text → Option Json) where
  unfoldable pub accept_ack : ℕ → Text → Text → Bridge → AckDecision × Bridge
  unfolding ack_parsed parse_ack
  accept_ack now topic payload s =
      if list_beq topic (ack_topic s.target_id)
      then ack_parsed now (parse_ack s.target_id (decode_document decode payload 1024)) s
      else (outside_ack_namespace, s)
