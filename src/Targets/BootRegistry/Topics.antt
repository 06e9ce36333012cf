-- ===== src/Targets/BootRegistry/Topics.antt =====
-- Which messages the registry takes, and what a client reads afterwards.
use smart_gatekeeper.Common.{
  ℕ, ◌≤◌, ◌<◌, ◌≡◌, ◌≢◌, ◌↔◌, inl, inr, refl, true, false, Option, none, some, ◌++◌, arith,
  list_beq_iff, nat_eq, list_eq, beq_refl, Bool-cases,
}
use smart_gatekeeper.Common.Dict.{lookup, lookup-set_item}
use smart_gatekeeper.Common.Text.{Text, codes, match_topic_iff, is_target_id, is_lower_hex}
use smart_gatekeeper.Common.Json.{Json, Fields, get, as_text, as_object}
use smart_gatekeeper.Common.Try.{done, compare_digest, is_ascii}
use smart_gatekeeper.Targets.BootRegistry.Message.{parse, boot_topic, topic_prefix, max_boot_count}
use smart_gatekeeper.Targets.BootRegistry.{
  Table, Row, rejected, Database, store, transact, refresh, refresh_parsed, refresh_status,
  refresh_matched, status_topic, current_boot_id, valid_boot_id, type_error,
}

abbrev pub boot_of : Text → Text
boot_of id = topic_prefix ++ (id ++ codes "/boot")

abbrev pub status_of : Text → Text
status_of id = topic_prefix ++ (id ++ codes "/status")

boot_topic_iff :
    (topic id : Text)
    → (boot_topic topic ≡ some id) ↔ ((topic ≡ boot_of id) × (is_target_id id ≡ true))
unfolding boot_topic
boot_topic_iff topic id = match_topic_iff topic_prefix (codes "/boot") topic id

status_topic_iff :
    (topic id : Text)
    → (status_topic topic ≡ some id) ↔ ((topic ≡ status_of id) × (is_target_id id ≡ true))
unfolding status_topic
status_topic_iff topic id = match_topic_iff topic_prefix (codes "/status") topic id

boot_at : Option Row → Option Text
boot_at none = none
boot_at (some row) = some row.boot_id

stored_lookup :
    (id boot : Text) (count now : ℕ) (o : Option Row) (t : Table)
    → lookup id t ≡ o
    → (store id boot count now o t).0 ≢ rejected
    → boot_at (lookup id (store id boot count now o t).1) ≡ some boot
unfolding store boot_at
stored_lookup id boot count now none t e ok = rw (lookup-set_item id id _ t, beq_refl id) refl
stored_lookup id boot count now (some row) t e ok = ground (
  arith,
  beq_refl id,
  list_beq_iff boot row.boot_id,
  e,
  lookup-set_item id id (record { boot_id = boot; boot_count = count; updated_at = now }) t,
)

stored :
    (db : Database) (id boot : Text) (count : ℕ) (t : Table)
    → (transact db (id, boot, count) t).0 ≢ rejected
    → boot_at (lookup id (transact db (id, boot, count) t).1) ≡ some boot
unfolding transact
stored db id boot count t ok = elim (Bool-cases db.fails) [
  | inl broken ↦ absurd (ok (rw broken refl))
  | inr fine ↦ rw fine (stored_lookup id boot count db.clock (lookup id t) t refl (rw fine at ok))
]

valid_boot :
    (o : Option Row) (boot : Text)
    → boot_at o ≡ some boot
    → is_lower_hex 32 boot ≡ true
    → valid_boot_id o ≡ some boot
unfolding boot_at valid_boot_id
valid_boot none boot h v = cc
valid_boot (some row) boot h v = ground arith

module _ (decode : Text → Option Json) where
  -- A fresh status message of a Target does what a boot message of that Target with the same payload
  -- does, and a retained one does nothing and is rejected.
  pub status_as_boot :
      (db : Database) (id payload : Text) (t : Table)
      → is_target_id id ≡ true
      → (refresh_status decode db (status_of id) payload false t
          ≡ refresh decode db (boot_of id) payload t)
        × (refresh_status decode db (status_of id) payload true t ≡ (rejected, t))
  unfolding refresh_status refresh_matched
  status_as_boot db id payload t valid =
      (rw ((status_topic_iff (status_of id) id).1 (refl, valid)) refl, refl)

  parse_parts :
      (topic payload id boot : Text) (count : ℕ)
      → parse decode topic payload ≡ done (id, boot, count)
      → (boot_topic topic ≡ some id)
        × (is_lower_hex 32 boot ≡ true)
        × (0 < count)
        × (count ≤ max_boot_count)
  unfolding parse compare_digest
  parse_parts topic payload id boot count h = ground arith

  -- A message is taken into account only if its topic is the boot topic of a valid Target id, its
  -- document names that Target, and its boot id and count are well formed.
  pub parse_sound :
      (topic payload id boot : Text) (count : ℕ)
      → parse decode topic payload ≡ done (id, boot, count)
      → (topic ≡ boot_of id)
        × (is_target_id id ≡ true)
        × (is_lower_hex 32 boot ≡ true)
        × (0 < count)
        × (count ≤ max_boot_count)
  parse_sound topic payload id boot count h =
      let (t, l, p, m) = parse_parts topic payload id boot count h in
      let (e, v) = (boot_topic_iff topic id).0 t in (e, v, l, p, m)

  -- After a message that is well formed and was not rejected, `current_boot_id` of its Target, where
  -- the database does not fail, is the boot id that the message carried.
  pub current_after_refresh :
      (db later : Database) (topic payload id boot : Text) (count : ℕ) (t : Table)
      → parse decode topic payload ≡ done (id, boot, count)
      → (refresh decode db topic payload t).0 ≢ rejected
      → later.fails ≡ false
      → current_boot_id later id (refresh decode db topic payload t).1 ≡ some boot
  unfolding refresh refresh_parsed current_boot_id
  current_after_refresh db later topic payload id boot count t p ok fine =
      let (e, valid, hex, _, _) = parse_sound topic payload id boot count p in
      let found = (boot_topic_iff (boot_of id) id).1 (refl, valid) in
      let ok' : (transact db (id, boot, count) t).0 ≢ rejected = rw p at ok in
      rw (found, fine, p)
        (valid_boot (lookup id (transact db (id, boot, count) t).1) boot
          (stored db id boot count t ok') hex)

  -- A boot message on the topic of a valid Target id whose `target_id` text has a non-ASCII character
  -- is not rejected: the comparison raises a TypeError that leaves the function.
  pub non_ascii_target_raises :
      (db : Database) (id payload text : Text) (document : Fields) (t : Table)
      → is_target_id id ≡ true
      → as_object (decode payload) ≡ some document
      → as_text (get "target_id" document) ≡ some text
      → is_ascii text ≡ false
      → refresh decode db (boot_of id) payload t ≡ (type_error, t)
  unfolding refresh refresh_parsed parse compare_digest
  non_ascii_target_raises db id payload text document t valid doc has_text foreign =
      rw ((boot_topic_iff (boot_of id) id).1 (refl, valid), doc, has_text, foreign) refl
