-- ===== src/Targets/BootRegistry.antt =====
-- backend/app/target_boot_registry.py. The table `target_boot_state` is a dictionary from Target ids
-- to rows; the JSON decoder is a parameter, and so is what the database connection does.
pub mod Message
pub mod Monotone
pub mod Topics
use Prim.Native.String.{String}
use smart_gatekeeper.Common.{
  ℕ, ◌≤◌, Bool, true, false, ◌&&◌, ◌||◌, not, Option, none, some, List, [], ◌∷◌, ◌++◌,
  if◌then◌else◌, ltb, leb, ◌==◌, list_eq, nat_eq, list_beq, ◌^◌, ◌-◌,
}
use smart_gatekeeper.Common.Dict.{Dict, lookup, set_item}
use smart_gatekeeper.Common.Text.{Text, codes, match_topic, is_lower_hex}
use smart_gatekeeper.Common.Json.{Json, Fields, get, as_object, as_text, as_nat}
use smart_gatekeeper.Common.Result.{◌>>=◌}
use smart_gatekeeper.Common.Try.{Try, done, gave_up, raised}
use Message.{topic_prefix, boot_topic, parse}

-- BootRefreshOutcome, and the TypeError that leaves the function
pub data Outcome : Type 0 where
  rejected unchanged advanced type_error : Outcome

pub record Row : Type 0 where
  pub boot_id : Text
  pub boot_count : ℕ
  pub updated_at : ℕ

abbrev pub Table : Type 0
Table = Dict Text Row

-- _STATUS_TOPIC
unfoldable pub status_topic : Text → Option Text
status_topic topic = match_topic topic_prefix (codes "/status") topic

-- The transaction: the clock it reads, and whether an exception ends it before the commit.
pub record Database : Type 0 where
  pub clock : ℕ
  pub fails : Bool

-- By the row that `SELECT ... FOR UPDATE` finds.
store : Text → Text → ℕ → ℕ → Option Row → Table → Outcome × Table
store target_id boot_id boot_count now none table = (
  advanced,
  set_item target_id (record { boot_id = boot_id; boot_count = boot_count; updated_at = now })
      table,
)
store target_id boot_id boot_count now (some row) table =
    if ltb boot_count row.boot_count
      || boot_count == row.boot_count && not (list_beq boot_id row.boot_id)
    then (rejected, table)
    else if boot_count == row.boot_count
    then (unchanged, table)
    else (
      advanced,
      set_item target_id (record { boot_id = boot_id; boot_count = boot_count; updated_at = now })
          table,
    )

-- `except Exception: connection.rollback()`
unfoldable pub transact : Database → Text × Text × ℕ → Table → Outcome × Table
unfolding store
transact db (target_id, boot_id, boot_count) table =
    if db.fails
    then (rejected, table)
    else store target_id boot_id boot_count db.clock (lookup target_id table) table

refresh_parsed : Database → Try (Text × Text × ℕ) → Table → Outcome × Table
refresh_parsed db gave_up table = (rejected, table)
refresh_parsed db raised table = (type_error, table)
refresh_parsed db (done m) table = transact db m table

-- current_boot_id's check of the row
valid_boot_id : Option Row → Option Text
valid_boot_id none = none
valid_boot_id (some row) = if is_lower_hex 32 row.boot_id then some row.boot_id else none

-- `current_boot_id`
unfoldable pub current_boot_id : Database → Text → Table → Option Text
unfolding valid_boot_id
current_boot_id db target_id table = do
  matched ← boot_topic (topic_prefix ++ (target_id ++ codes "/boot"))
  if db.fails then none else valid_boot_id (lookup target_id table)

module _ (decode : Text → Option Json) where
  -- `refresh_outcome_from_authenticated_topic`
  unfoldable pub refresh : Database → Text → Text → Table → Outcome × Table
  unfolding refresh_parsed
  refresh db topic payload table = refresh_parsed db (parse decode topic payload) table

  refresh_matched : Database → Option Text → Text → Table → Outcome × Table
  refresh_matched db none payload table = (rejected, table)
  refresh_matched db (some target_id) payload table =
      refresh db (topic_prefix ++ (target_id ++ codes "/boot")) payload table

  -- `refresh_outcome_from_authenticated_status_topic`
  unfoldable pub refresh_status : Database → Text → Text → Bool → Table → Outcome × Table
  unfolding refresh_matched
  refresh_status db topic payload retained table =
      if retained then (rejected, table) else refresh_matched db (status_topic topic) payload table

-- `outcome is not BootRefreshOutcome.REJECTED`; `none` is the TypeError
abbrev pub not_rejected : Outcome → Option Bool
not_rejected rejected = some false
not_rejected type_error = none
not_rejected _ = some true

module _ (decode : Text → Option Json) where
  -- `refresh_from_authenticated_topic` and `refresh_from_authenticated_status_topic`
  unfoldable pub refresh_ok : Database → Text → Text → Table → Option Bool
  refresh_ok db topic payload table = not_rejected (refresh decode db topic payload table).0

  unfoldable pub refresh_status_ok : Database → Text → Text → Bool → Table → Option Bool
  refresh_status_ok db topic payload retained table =
      not_rejected (refresh_status decode db topic payload retained table).0
