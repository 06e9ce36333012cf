-- ===== src/Targets/AclDelivery.antt =====
-- backend/app/target_acl_delivery.py: the ACK that a Target answers with, and the tracker that waits
-- for ACKs. Times are whole milliseconds of the monotonic clock; the JSON decoder is a parameter.
pub mod Bounds
pub mod Waiting
pub mod Forgetting
pub mod Wire
use smart_gatekeeper.Common.{
  ℕ, zero, suc, ◌+◌, ◌-◌, Bool, true, false, ◌&&◌, ◌||◌, not, Option, none, some, List, [], ◌∷◌,
  ◌++◌, map, if◌then◌else◌, ltb, leb, ◌==◌, list_eq, nat_eq, pair_eq, list_beq, length, every, keep,
}
use smart_gatekeeper.Common.Dict.{Dict, lookup, set_item, has, remove}
use smart_gatekeeper.Common.Text.{Text, codes, match_topic, is_target_id}
use smart_gatekeeper.Common.Json.{Json, Fields, get, as_object, as_text, as_nat, has_exactly}
use smart_gatekeeper.Common.Result.{◌>>=◌, ◌>>◌, guard}

-- TargetAclAppliedAck
pub record AppliedAck : Type 0 where
  pub target_id : Text
  pub acl_version : ℕ
  pub high_watermark : ℕ

abbrev pub topic_prefix : Text
topic_prefix = codes "gatekeeper/v1/targets/"

abbrev pub max_version : ℕ
max_version = 0xFFFFFFFFFFFFFFFF

-- _ACK_TOPIC
unfoldable pub ack_topic_id : Text → Option Text
ack_topic_id topic = match_topic topic_prefix (codes "/acl/ack") topic

abbrev pub topic_of : Text → Text
topic_of target_id = topic_prefix ++ (target_id ++ codes "/acl/ack")

abbrev pub kept : {A : Type 0} → A → Option Text → Option A
kept a none = none
kept a (some id) = some a

-- `target_acl_ack_topic`; `none` is its ValueError
unfoldable pub ack_topic : Text → Option Text
ack_topic target_id = kept (topic_of target_id) (ack_topic_id (topic_of target_id))

module _ (decode : Text → Option Json) where
  -- `parse_target_acl_ack`
  unfoldable pub parse_ack : Text → Text → Bool → Option AppliedAck
  parse_ack topic payload retained = do
    guard (not retained)
    target_id ← ack_topic_id topic
    guard (ltb 0 (length payload) && leb (length payload) 256)
    document ← as_object (decode payload)
    guard (has_exactly ("status" ∷ "acl_version" ∷ "high_watermark" ∷ []) document)
    status ← as_text (get "status" document)
    guard (list_beq status (codes "applied"))
    version ← as_nat (get "acl_version" document)
    high_watermark ← as_nat (get "high_watermark" document)
    guard (leb 1 version && leb version max_version && high_watermark == version)
    some (record { target_id = target_id; acl_version = version; high_watermark = high_watermark })

-- TargetAclDeliveryTracker
abbrev pub Key : Type 0
Key = Text × ℕ

pub record Tracker : Type 0 where
  pub maximum : ℕ
  pub ttl : ℕ
  pub applied : Dict Key ℕ

-- `__init__`; `none` is its ValueError
unfoldable pub create : ℕ → ℕ → Option Tracker
create maximum ttl =
    if ltb maximum 1 || not (ltb 0 ttl && leb ttl 300000)
    then none
    else some (record { maximum = maximum; ttl = ttl; applied = [] })

abbrev pub is_fresh : ℕ → ℕ → Key × ℕ → Bool
is_fresh now ttl (key, received) = ltb now (received + ttl)

-- `_prune_locked`
unfoldable pub prune : ℕ → Tracker → Tracker
prune now s = record s { applied = keep (is_fresh now s.ttl) s.applied }

-- for key in expected: self._applied.pop(key, None)
unfoldable pub forget : List Key → Dict Key ℕ → Dict Key ℕ
forget [] d = d
forget (key ∷ expected) d = forget expected (remove key d)

abbrev pub is_empty {ℓ} : {A : Type ℓ} → List A → Bool
is_empty [] = true
is_empty (x ∷ xs) = false

-- {(target_id, acl_version) for target_id in target_ids}
abbrev pub expected_keys : List Text → ℕ → List Key
expected_keys target_ids version = map (λ id. (id, version)) target_ids

abbrev pub has_topic : Text → Bool
has_topic id = elim (ack_topic_id (topic_of id)) [ none ↦ false | some t ↦ true ]

unfoldable pub begin_delivery : List Text → ℕ → ℕ → Tracker → Bool × Tracker
unfolding prune
begin_delivery target_ids version now s =
    let expected = expected_keys target_ids version in
    if is_empty expected || not (leb 1 version && leb version max_version)
    then (false, s)
    else if not (every has_topic target_ids)
    then (false, s)
    else (true, record s { applied = forget expected (prune now s).applied })

unfoldable pub reset_transport : Tracker → Tracker
reset_transport s = record s { applied = [] }

-- min(self._applied, key=self._applied.get): the first key of the least time
oldest : Key → ℕ → Dict Key ℕ → Key
oldest key time [] = key
oldest key time ((k, t) ∷ d) =
    let newer = oldest key time d in let older = oldest k t d in if ltb t time then older else newer

-- One round of `while len(self._applied) > maximum`
evict_oldest : Dict Key ℕ → Dict Key ℕ
unfolding oldest
evict_oldest [] = []
evict_oldest ((key, time) ∷ d) = remove (oldest key time d) ((key, time) ∷ d)

evict : ℕ → ℕ → Dict Key ℕ → Dict Key ℕ
unfolding evict_oldest
evict zero limit d = d
evict (suc f) limit d =
    let rest = evict f limit (evict_oldest d) in if ltb limit (length d) then rest else d

-- `none` is its ValueError
unfoldable pub mark_applied : Text → ℕ → ℕ → Tracker → Option Tracker
unfolding evict prune
mark_applied target_id version now s = do
  matched ← ack_topic target_id
  guard (leb 1 version && leb version max_version)
  let marked = set_item (target_id, version) now (prune now s).applied
  some (record s { applied = evict (length marked) s.maximum marked })

-- expected.issubset(self._applied)
abbrev pub all_applied : List Key → Dict Key ℕ → Bool
all_applied expected d = every (λ key. has key d) expected

-- What other threads do while a delivery waits.
pub data Event : Type 0 where
  ack : Text → ℕ → ℕ → Event
  delivery : List Text → ℕ → ℕ → Event
  reset : Event

abbrev or_same : Tracker → Option Tracker → Tracker
or_same s none = s
or_same s (some t) = t

unfoldable pub happen : Event → Tracker → Tracker
happen (ack id version now) s = or_same s (mark_applied id version now s)
happen (delivery ids version now) s = (begin_delivery ids version now s).1
happen reset s = reset_transport s

unfoldable pub run : List Event → Tracker → Tracker
run [] s = s
run (e ∷ events) s = run events (happen e s)

-- A round of the wait: the clock when it looks, the clock before it sleeps, and what happens while it
-- sleeps.
pub record Round : Type 0 where
  pub now : ℕ
  pub again : ℕ
  pub meanwhile : List Event

-- `none`: the schedule ends before the wait does
unfoldable pub wait_rounds : List Round → ℕ → List Key → Tracker → Option Bool × Tracker
wait_rounds [] deadline expected s = (none, s)
wait_rounds (r ∷ rounds) deadline expected s =
    let pruned = prune r.now s in
    let rest = wait_rounds rounds deadline expected (run r.meanwhile pruned) in
    if all_applied expected pruned.applied
    then (some true, pruned)
    else if leb deadline r.again
    then (some false, pruned)
    else rest

unfoldable pub wait_for : List Text → ℕ → ℕ → ℕ → List Round → Tracker → Option Bool × Tracker
wait_for target_ids version timeout started rounds s =
    let expected = expected_keys target_ids version in
    if is_empty expected || not (ltb 0 timeout && leb timeout 30000)
    then (some false, s)
    else wait_rounds rounds (started + timeout) expected s
