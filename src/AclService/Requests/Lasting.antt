-- ===== src/AclService/Requests/Lasting.antt =====
-- What lasts, whatever is asked of the service.
use smart_gatekeeper.Common.{
  ℕ, ◌+◌, ◌≤◌, ◌<◌, ◌≡◌, refl, ◌∙◌, ap, Bool, true, false, some, List, list_eq, nat_eq, pair_eq,
  list_beq, Bool-cases, inl, inr, arith,
}
use smart_gatekeeper.Common.Dict.{lookup, has}
use smart_gatekeeper.Common.Text.{Text}
use smart_gatekeeper.Acl.Envelope.{Envelope}
use smart_gatekeeper.AclStore.{Dialect, ok, failed, disabled, DoorState, Credential, Db, empty}
use smart_gatekeeper.AclStore.Tenants.{tenant_status}
use smart_gatekeeper.AclStore.Grants.Entitled.{is_entitled}
use smart_gatekeeper.AclStore.Snapshots.{
  numbered, allocated, allocate_snapshot_version, foreign_door,
}
use smart_gatekeeper.AclStore.History.Kept.{
  IsNumbered, Run-IsDisabledKept, Run-IsCounted, Run-IsNumbered,
}
use smart_gatekeeper.AclService.{Config, World}
use smart_gatekeeper.AclService.Signing.{fields_of}
use smart_gatekeeper.AclService.Signing.Listed.{is_listed, is_usable_row}
use smart_gatekeeper.AclService.Publishing.{publish_snapshot}
use smart_gatekeeper.AclService.Publishing.Built.{publish_snapshot-Published}
use smart_gatekeeper.AclService.Publishing.Listed.{publish_snapshot-is_listed, fields-sign}
use smart_gatekeeper.AclService.Traces.{reached}
use smart_gatekeeper.AclService.Traces.Publishing.{publish_snapshot-IsTraced}
use smart_gatekeeper.AclService.Requests.{Request, serve_all}
use smart_gatekeeper.AclService.Requests.Traced.{serve_all-Run}

-- A tenant that is DISABLED entitles nobody.
disabled-is_entitled :
    (p : Credential → Bool) (tenant_id door_id credential_id : Text) (db : Db)
    → tenant_status tenant_id db ≡ some disabled
    → is_entitled p tenant_id door_id credential_id db ≡ false
unfolding is_entitled
disabled-is_entitled p tenant_id door_id credential_id db h = rw h refl

numbered-greater :
    (tenant_id door_id : Text) (n version : ℕ) (db : Db)
    → (numbered tenant_id door_id n db).0 ≡ ok version
    → n ≡ version
unfolding numbered
numbered-greater tenant_id door_id n version db h = cc

allocated-greater :
    (dialect : Dialect) (tenant_id door_id : Text) (version : ℕ) (state : DoorState) (db : Db)
    → (allocated dialect tenant_id door_id (some state) db).0 ≡ ok version
    → state.last_version < version
unfolding allocated
allocated-greater dialect tenant_id door_id version state db h =
    elim (Bool-cases (list_beq state.owner tenant_id)) [
      | inl own ↦
          let q =
            numbered-greater tenant_id door_id (state.last_version + 1) version db (rw own at h) in
          omega (arith, q)
      | inr foreign ↦
          let h' : failed (foreign_door dialect) ≡ ok version = rw foreign at h in absurd cc
    ]

-- An allocated version is greater than the one before.
allocate-greater :
    (dialect : Dialect) (tenant_id door_id : Text) (version : ℕ) (state : DoorState) (db : Db)
    → (allocate_snapshot_version dialect tenant_id door_id db).0 ≡ ok version
    → lookup door_id db.door_states ≡ some state
    → state.last_version < version
unfolding allocate_snapshot_version
allocate-greater dialect tenant_id door_id version state db h found =
    allocated-greater dialect tenant_id door_id version state db (rw found at h)

empty-IsNumbered : IsNumbered empty
unfolding empty has
empty-IsNumbered tenant_id door_id version there = absurd cc

module _ (c : Config) where
  -- Once a tenant is DISABLED, no request gives anyone access to its doors: whatever the service serves
  -- after that, the tenant stays DISABLED, and a snapshot that `publish_snapshot` then returns lists no
  -- credential.
  pub disabled_for_good :
      (tenant_id : Text) (w : World) (requests : List Request)
      → tenant_status tenant_id w.db ≡ some disabled
      → let later = serve_all c requests w in
        (tenant_status tenant_id later.db ≡ some disabled)
        × ((door_id actor_ref : Text) (low high : ℕ) (e : Envelope) (w' : World)
              (credential_id : Text)
            → publish_snapshot c tenant_id door_id actor_ref low high later ≡ (ok e, w')
            → is_listed credential_id e.fields.entries ≡ false)
  disabled_for_good tenant_id w requests h =
      let off = Run-IsDisabledKept (serve_all-Run c requests w) tenant_id h in
      (
        off,
        λ door_id actor_ref low high e w' credential_id q.
            let made =
              reached c _ _ (publish_snapshot-IsTraced c tenant_id door_id actor_ref low high) q in
            publish_snapshot-is_listed c tenant_id door_id low high actor_ref _ e w' credential_id q
            ∙ disabled-is_entitled (is_usable_row low high e.fields.issued_at) tenant_id door_id
                credential_id w'.db (Run-IsDisabledKept made tenant_id off),
      )

  -- From the empty database, whatever the service has served, every stored snapshot has a version that
  -- its door's counter has reached, and the door's owner is the snapshot's tenant.
  pub serve_all-IsNumbered :
      (w : World) (requests : List Request) → w.db ≡ empty → IsNumbered (serve_all c requests w).db
  serve_all-IsNumbered w requests h =
      Run-IsNumbered (serve_all-Run c requests w) (rw h empty-IsNumbered)

  -- A door never changes its tenant, and its version never goes back, whatever is asked.
  pub door_kept :
      (door_id : Text) (state : DoorState) (w : World) (requests : List Request)
      → lookup door_id w.db.door_states ≡ some state
      → (later : DoorState) × (lookup door_id (serve_all c requests w).db.door_states ≡ some later)
        × (later.owner ≡ state.owner)
        × (state.last_version ≤ later.last_version)
  door_kept door_id state w requests h = Run-IsCounted (serve_all-Run c requests w) door_id state h

  newer :
      (tenant_id door_id actor_ref : Text) (low high : ℕ) (w : World) (e : Envelope) (w' : World)
      (tenant : Text) (version : ℕ)
      → IsNumbered w.db
      → publish_snapshot c tenant_id door_id actor_ref low high w ≡ (ok e, w')
      → has ((tenant, door_id), version) w.db.snapshots ≡ true
      → version < e.fields.acl_version
  unfolding fields_of
  newer tenant_id door_id actor_ref low high w e w' tenant version n h there =
      let p = publish_snapshot-Published c tenant_id door_id low high actor_ref w e w' h in
      let (state, found, owned, reached) = n tenant door_id version there in
      let (later, found', owned', more) = Run-IsCounted p.start door_id state found in
      let less =
        allocate-greater c.dialect tenant_id door_id p.built.version later p.before.db
          p.built.allocated found' in
      let is_version : e.fields.acl_version ≡ p.built.version =
        ap (λ f. f.acl_version) (fields-sign c _ e p.built.signed) in
      omega (arith, is_version, less, more, reached)

  -- Started on the empty database, and after whatever requests: a snapshot that `publish_snapshot`
  -- returns has a greater version than every stored snapshot of its door, of any tenant.
  pub publish_snapshot-newer :
      (tenant_id door_id actor_ref : Text) (low high : ℕ) (w : World) (requests : List Request)
      (e : Envelope) (w' : World) (tenant : Text) (version : ℕ)
      → w.db ≡ empty
      → publish_snapshot c tenant_id door_id actor_ref low high (serve_all c requests w)
        ≡ (ok e, w')
      → has ((tenant, door_id), version) (serve_all c requests w).db.snapshots ≡ true
      → version < e.fields.acl_version
  publish_snapshot-newer tenant_id door_id actor_ref low high w requests e w' tenant version h q
        there =
      newer tenant_id door_id actor_ref low high (serve_all c requests w) e w' tenant version
        (serve_all-IsNumbered w requests h) q there
