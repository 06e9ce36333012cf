-- ===== src/Examples/Delivering.antt =====
-- The delivery tracker on concrete inputs.
use smart_gatekeeper.Common.{ℕ, refl, List, [], ◌∷◌, ◌++◌, All, list_eq, nat_eq, pair_eq}
use smart_gatekeeper.Common.Text.{
  Text, codes, is_target_id, strip_prefix, strip_suffix, match_topic,
}
use smart_gatekeeper.Common.Dict.{set_item, remove, has}
use smart_gatekeeper.Targets.AclDelivery
use smart_gatekeeper.Targets.AclDelivery.{
  Tracker, Event, ack, Round, mark_applied, begin_delivery, wait_for, expected_keys, ack_topic,
  ack_topic_id, prune, forget, happen, wait_rounds,
}
use smart_gatekeeper.Targets.AclDelivery.Forgetting.{Heard}
use smart_gatekeeper.Targets.AclDelivery.Waiting.{happened, applied_after_begin}

abbrev target : Text
target = codes "T1"

abbrev tracker : Tracker
tracker = record { maximum = 8; ttl = 60000; applied = ((target, 5), 10) ∷ [] }

abbrev rounds : List Round
rounds =
    record { now = 150; again = 151; meanwhile = ack target 5 160 ∷ [] }
    ∷ record { now = 170; again = 171; meanwhile = [] }
    ∷ []

applied_after_begin_example :
    All (λ key. (t : ℕ) × Heard key t ([] ++ happened rounds)) (expected_keys (target ∷ []) 5)
unfolding begin_delivery wait_for ack_topic_id match_topic strip_prefix strip_suffix is_target_id
    prune forget remove happen mark_applied ack_topic AclDelivery.run wait_rounds set_item has
applied_after_begin_example =
    applied_after_begin (target ∷ []) 5 100 tracker [] 3000 120 rounds refl refl
