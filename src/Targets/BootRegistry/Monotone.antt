-- ===== src/Targets/BootRegistry/Monotone.antt =====
-- The boot registry only moves forward.
use smart_gatekeeper.Common.{
  ℕ, ◌≤◌, ◌≡◌, inl, inr, refl, ◌∙◌, Bool, Option, none, some, List, [], ◌∷◌, ◌++◌, arith, list_beq,
  list_beq_iff, nat_eq, list_eq, if◌then◌else◌, ltb, Bool-cases, ◌==◌, ◌&&◌, ◌||◌, not,
}
use smart_gatekeeper.Common.Dict.{lookup, set_item, lookup-set_item}
use smart_gatekeeper.Common.Text.{Text, codes}
use smart_gatekeeper.Common.Json.{Json}
use smart_gatekeeper.Common.Try.{Try, done, gave_up, raised}
use smart_gatekeeper.Targets.BootRegistry.Message.{parse, topic_prefix}
use smart_gatekeeper.Targets.BootRegistry.{
  Table, Row, Database, store, transact, refresh, refresh_parsed, refresh_status, refresh_matched,
  status_topic,
}

-- `new` follows `old`: a row is never lost, its count never falls, and one count has one boot id.
abbrev pub Follows : Option Row → Option Row → Type 0
Follows none new = Unit
Follows (some r) none = ⊥
Follows (some r) (some q) =
    (r.boot_count ≤ q.boot_count) × (r.boot_count ≡ q.boot_count → r.boot_id ≡ q.boot_id)

pub Follows-refl : (o : Option Row) → Follows o o
Follows-refl none = tt
Follows-refl (some r) = (omega arith, λ e. refl)

pub Follows-trans : (a b c : Option Row) → Follows a b → Follows b c → Follows a c
Follows-trans none b c h k = tt
Follows-trans (some r) none c h k = absurd h
Follows-trans (some r) (some q) none h k = absurd k
Follows-trans (some r) (some q) (some p) h k =
    (omega (arith, h.0, k.0), λ e. h.1 (omega (arith, h.0, k.0)) ∙ k.1 (omega (arith, h.0, k.0)))

Follows-set_item :
    (id j : Text) (row : Row) (t : Table)
    → Follows (lookup id t) (some row)
    → Follows (lookup j t) (lookup j (set_item id row t))
Follows-set_item id j row t h =
    let law = lookup-set_item id j row t in
    elim (Bool-cases (list_beq id j)) [
      | inl same ↦ rw (law, same) (rw (← (list_beq_iff id j).0 same) h)
      | inr other ↦ rw (law, other) (Follows-refl (lookup j t))
    ]

store-Follows :
    (id boot : Text) (count now : ℕ) (t : Table) (o : Option Row) (j : Text)
    → lookup id t ≡ o
    → Follows (lookup j t) (lookup j (store id boot count now o t).1)
unfolding store
store-Follows id boot count now t none j e = Follows-set_item id j _ t (rw e tt)
store-Follows id boot count now t (some row) j e =
    elim (Bool-cases
      (ltb count row.boot_count || count == row.boot_count && not (list_beq boot row.boot_id))) [
        | inl old ↦ rw old (Follows-refl (lookup j t))
        | inr new ↦ elim (Bool-cases (count == row.boot_count)) [
          | inl same ↦ rw (new, same) (Follows-refl (lookup j t))
          | inr later ↦
              rw (new, later)
                (Follows-set_item id j _ t (rw e (ground arith, λ p. absurd (ground arith))))
        ]
      ]

transact-Follows :
    (db : Database) (m : Text × Text × ℕ) (t : Table) (j : Text)
    → Follows (lookup j t) (lookup j (transact db m t).1)
unfolding transact
transact-Follows db (id, boot, count) t j = elim (Bool-cases db.fails) [
  | inl broken ↦ rw broken (Follows-refl (lookup j t))
  | inr fine ↦ rw fine (store-Follows id boot count db.clock t (lookup id t) j refl)
]

module _ (decode : Text → Option Json) where
  refresh_parsed-Follows :
      (db : Database) (o : Try (Text × Text × ℕ)) (t : Table) (j : Text)
      → Follows (lookup j t) (lookup j (refresh_parsed db o t).1)
  unfolding refresh_parsed
  refresh_parsed-Follows db gave_up t j = Follows-refl (lookup j t)
  refresh_parsed-Follows db raised t j = Follows-refl (lookup j t)
  refresh_parsed-Follows db (done m) t j = transact-Follows db m t j

  -- One message of either topic, as the subscriber hands it over.
  pub record Message : Type 0 where
    pub db : Database
    pub topic : Text
    pub payload : Text
    pub from_status : Bool
    pub retained : Bool

  handle : Message → Table → Table
  handle m t =
      if m.from_status
      then (refresh_status decode m.db m.topic m.payload m.retained t).1
      else (refresh decode m.db m.topic m.payload t).1

  unfoldable pub handle_all : List Message → Table → Table
  unfolding handle
  handle_all [] t = t
  handle_all (m ∷ messages) t = handle_all messages (handle m t)

  refresh-Follows :
      (db : Database) (topic payload : Text) (t : Table) (j : Text)
      → Follows (lookup j t) (lookup j (refresh decode db topic payload t).1)
  unfolding refresh
  refresh-Follows db topic payload t j = refresh_parsed-Follows db (parse decode topic payload) t j

  refresh_matched-Follows :
      (db : Database) (o : Option Text) (payload : Text) (t : Table) (j : Text)
      → Follows (lookup j t) (lookup j (refresh_matched decode db o payload t).1)
  unfolding refresh_matched
  refresh_matched-Follows db none payload t j = Follows-refl (lookup j t)
  refresh_matched-Follows db (some id) payload t j =
      refresh-Follows db (topic_prefix ++ (id ++ codes "/boot")) payload t j

  handle-Follows :
      (m : Message) (t : Table) (j : Text) → Follows (lookup j t) (lookup j (handle m t))
  unfolding handle refresh_status
  handle-Follows m t j = elim (Bool-cases m.from_status) [
    | inr boot ↦ rw boot (refresh-Follows m.db m.topic m.payload t j)
    | inl status ↦ elim (Bool-cases m.retained) [
      | inl kept ↦ rw (status, kept) (Follows-refl (lookup j t))
      | inr live ↦
          rw (status, live) (refresh_matched-Follows m.db (status_topic m.topic) m.payload t j)
    ]
  ]

  -- Whatever messages come, on whatever topics and however the database fails, no Target's row is
  -- lost, its boot count never falls, and its boot id changes only together with the count.
  pub registry_never_goes_back :
      (messages : List Message) (t : Table) (j : Text)
      → Follows (lookup j t) (lookup j (handle_all messages t))
  unfolding handle_all
  registry_never_goes_back [] t j = Follows-refl (lookup j t)
  registry_never_goes_back (m ∷ messages) t j =
      Follows-trans (lookup j t) (lookup j (handle m t))
        (lookup j (handle_all messages (handle m t))) (handle-Follows m t j)
        (registry_never_goes_back messages (handle m t) j)
