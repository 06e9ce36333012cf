-- ===== src/Targets/BootRegistry/Message.antt =====
-- The checks before the transaction, and what they let through: (target_id, boot_id, boot_count).
use smart_gatekeeper.Common.{ℕ, ◌&&◌, Option, ltb, leb, nat_eq}
use smart_gatekeeper.Common.Text.{Text, codes, match_topic, is_lower_hex}
use smart_gatekeeper.Common.Json.{Json, get, as_object, as_text, as_nat}
use smart_gatekeeper.Common.Try.{Try, done, given, check, compare_digest, ◌>>=◌, ◌>>◌}

abbrev pub topic_prefix : Text
topic_prefix = codes "gatekeeper/v1/targets/"

-- _TOPIC
unfoldable pub boot_topic : Text → Option Text
boot_topic topic = match_topic topic_prefix (codes "/boot") topic

abbrev pub max_boot_count : ℕ
max_boot_count = 0xFFFFFFFF

module _ (decode : Text → Option Json) where
  -- The first part of `refresh_outcome_from_authenticated_topic`
  unfoldable pub parse : Text → Text → Try (Text × Text × ℕ)
  parse topic payload = do
    target_id ← given (boot_topic topic)
    document ← given (as_object (decode payload))
    payload_target_id ← given (as_text (get "target_id" document))
    same ← compare_digest payload_target_id target_id
    check same
    boot_id ← given (as_text (get "boot_id" document))
    check (is_lower_hex 32 boot_id)
    boot_count ← given (as_nat (get "boot_count" document))
    check (ltb 0 boot_count && leb boot_count max_boot_count)
    done (target_id, boot_id, boot_count)
