-- ===== src/AclService/Traces/Storing.antt =====
-- Building a snapshot runs transactions of the history: the version that it stores is the one that its
-- door's counter has reached.
use smart_gatekeeper.Common.{
  ℕ, ◌+◌, ◌≤◌, ◌≡◌, refl, Option, none, some, List, list_eq, nat_eq, list_beq, Bool-cases, inl, inr,
  arith, beq_refl,
}
use smart_gatekeeper.Common.Dict.{lookup, lookup-set_item}
use smart_gatekeeper.Common.Text.{Text}
use smart_gatekeeper.Acl.Envelope.{Envelope}
use smart_gatekeeper.AclStore.{Dialect, Error, Result, ok, failed, value_error, DoorState, Db}
use smart_gatekeeper.AclStore.Grants.{Granted, list_granted_credentials}
use smart_gatekeeper.AclStore.Snapshots.{
  numbered, allocated, allocate_snapshot_version, insert_snapshot, foreign_door,
}
use smart_gatekeeper.AclStore.History.{counted, stored, Run, stop, next}
use smart_gatekeeper.AclService.{Config, World, Action, pure, look, transact, or_raise, ◌>>=◌, ◌>>◌}
use smart_gatekeeper.AclService.Signing.{
  entries_of, sort_entries, fields_of, sign_explicit_snapshot,
}
use smart_gatekeeper.AclService.Publishing.{store_rows, build_snapshot}
use smart_gatekeeper.AclService.Traces.{IsTraced, >>=-IsTraced, time-IsTraced}

-- The door's counter has reached a version, and the door is the tenant's.
abbrev pub HasReached : Text → Text → ℕ → Db → Type 0
HasReached tenant_id door_id version db =
    (state : DoorState) × (lookup door_id db.door_states ≡ some state)
    × (state.owner ≡ tenant_id)
    × (version ≤ state.last_version)

numbered-HasReached :
    (tenant_id door_id : Text) (n version : ℕ) (db : Db)
    → (numbered tenant_id door_id n db).0 ≡ ok version
    → HasReached tenant_id door_id version (numbered tenant_id door_id n db).1
unfolding numbered
numbered-HasReached tenant_id door_id n version db h =
    let new : DoorState = record { owner = tenant_id; last_version = n } in
    let looked = lookup-set_item door_id door_id new db.door_states in
    let q : n ≡ version = cc in (new, (rw (beq_refl door_id) at looked), refl, omega arith)

allocated-HasReached :
    (dialect : Dialect) (tenant_id door_id : Text) (version : ℕ) (old : Option DoorState) (db : Db)
    → (allocated dialect tenant_id door_id old db).0 ≡ ok version
    → HasReached tenant_id door_id version (allocated dialect tenant_id door_id old db).1
unfolding allocated
allocated-HasReached dialect tenant_id door_id version none db h =
    numbered-HasReached tenant_id door_id 1 version db h
allocated-HasReached dialect tenant_id door_id version (some state) db h =
    elim (Bool-cases (list_beq state.owner tenant_id)) [
      | inl own ↦
          rw own (
            numbered-HasReached tenant_id door_id (state.last_version + 1) version db (rw own at h))
      | inr foreign ↦
          let h' : failed (foreign_door dialect) ≡ ok version = rw foreign at h in absurd cc
    ]

pub allocate-HasReached :
    (dialect : Dialect) (tenant_id door_id : Text) (version : ℕ) (db : Db)
    → (allocate_snapshot_version dialect tenant_id door_id db).0 ≡ ok version
    → HasReached tenant_id door_id version
        (allocate_snapshot_version dialect tenant_id door_id db).1
unfolding allocate_snapshot_version
allocate-HasReached dialect tenant_id door_id version db h =
    allocated-HasReached dialect tenant_id door_id version (lookup door_id db.door_states) db h

module _ (c : Config) (tenant_id door_id : Text) where
  insert-Run :
      (version now : ℕ) (e : Envelope) (w : World)
      → HasReached tenant_id door_id version w.db
      → Run c.dialect w.db
          ((transact (insert_snapshot tenant_id door_id version e now) >> pure e) w).1.db
  unfolding ◌>>=◌ transact pure
  insert-Run version now e w (state, found, owned, reached) =
      by_result (insert_snapshot tenant_id door_id version e now w.db).0
    where
      after : Db
      after = (insert_snapshot tenant_id door_id version e now w.db).1

      by_result :
          (r : Result (Unit {0}))
          → let s : Result Envelope × World = elim r [
            | ok u ↦ (ok e, record w { db = after })
            | failed x ↦ (failed x, record w { db = after })
          ] in
            Run c.dialect w.db s.1.db
      by_result (ok u) =
          next w.db after after
            (stored tenant_id door_id version e now state w.db found owned reached) (stop after)
      by_result (failed x) =
          next w.db after after
            (stored tenant_id door_id version e now state w.db found owned reached) (stop after)

  -- An action that may raise and writes nothing, before one that runs transactions from such a database
  or_raise-Run :
      {A B : Type 0} (o : Option A) (x : Error) (f : A → Action B) (w : World)
      → ((a : A) → Run c.dialect w.db (f a w).1.db)
      → Run c.dialect w.db ((or_raise o x >>= f) w).1.db
  unfolding ◌>>=◌ or_raise
  or_raise-Run none x f w h = stop w.db
  or_raise-Run (some a) x f w h = h a

  store_rows-Run :
      (min_protocol max_protocol now version : ℕ) (rows : List Granted) (w : World)
      → HasReached tenant_id door_id version w.db
      → Run c.dialect w.db
          (store_rows c tenant_id door_id min_protocol max_protocol now version rows w).1.db
  unfolding store_rows
  store_rows-Run min_protocol max_protocol now version rows w h =
      or_raise-Run (sort_entries (entries_of min_protocol max_protocol now rows)) value_error _ w
        (λ entries.
          or_raise-Run
            (sign_explicit_snapshot c
              (fields_of c door_id version now min_protocol max_protocol entries))
            value_error _ w (λ e. insert-Run version now e w h))

  numbered-IsTraced :
      (min_protocol max_protocol now : ℕ)
      → IsTraced c (
          transact (allocate_snapshot_version c.dialect tenant_id door_id) >>= λ version.
          look (list_granted_credentials tenant_id door_id) >>= λ rows.
          store_rows c tenant_id door_id min_protocol max_protocol now version rows)
  unfolding IsTraced ◌>>=◌ transact look
  numbered-IsTraced min_protocol max_protocol now w =
      by_result (allocate_snapshot_version c.dialect tenant_id door_id w.db).0 refl
    where
      after : Db
      after = (allocate_snapshot_version c.dialect tenant_id door_id w.db).1

      by_result :
          (r : Result ℕ)
          → (allocate_snapshot_version c.dialect tenant_id door_id w.db).0 ≡ r
          → let s : Result Envelope × World = elim r [
            | ok version ↦
                store_rows c tenant_id door_id min_protocol max_protocol now version
                  (list_granted_credentials tenant_id door_id after)
                  (record w { db = after })
            | failed x ↦ (failed x, record w { db = after })
          ] in
            Run c.dialect w.db s.1.db
      by_result (failed x) q = next w.db after after (counted tenant_id door_id w.db) (stop after)
      by_result (ok version) q = next w.db after _ (counted tenant_id door_id w.db) (
          store_rows-Run min_protocol max_protocol now version
            (list_granted_credentials tenant_id door_id after) (record w { db = after })
            (allocate-HasReached c.dialect tenant_id door_id version w.db q))

  pub build_snapshot-IsTraced :
      (min_protocol max_protocol : ℕ)
      → IsTraced c (build_snapshot c tenant_id door_id min_protocol max_protocol)
  unfolding build_snapshot store_rows
  build_snapshot-IsTraced min_protocol max_protocol =
      >>=-IsTraced c _ _ (time-IsTraced c) (λ now. numbered-IsTraced min_protocol max_protocol now)
