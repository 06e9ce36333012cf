-- ===== src/AclService/Publishing.antt =====
-- How `AclManagementService` of backend/app/acl_management.py publishes snapshots and works through the
-- durable jobs.
pub mod Built
pub mod Listed
use smart_gatekeeper.Common.{
  ℕ, ◌+◌, Bool, true, false, ◌&&◌, ◌||◌, Option, none, some, List, [], ◌∷◌, ◌++◌, if◌then◌else◌,
  leb, ltb, ◌==◌, list_eq, nat_eq, list_beq,
}
use smart_gatekeeper.Common.Dict.{Dict}
use smart_gatekeeper.Common.Text.{Text, codes}
use smart_gatekeeper.Common.Json.{Json, str, int}
use smart_gatekeeper.Acl.{Entry}
use smart_gatekeeper.Acl.Envelope.{Envelope}
use smart_gatekeeper.AclStore.{
  Error, Result, ok, failed, permission_error, value_error, runtime_error, mqtt_error, Job, Stored,
}
use smart_gatekeeper.AclStore.Grants.{Granted, list_granted_credentials}
use smart_gatekeeper.AclStore.Jobs.{
  snapshot_job, queue_snapshot_job_if_absent, supersede_snapshot_job, expire_snapshot_job_artifact,
  mark_snapshot_job_generated, delete_snapshot_job,
}
use smart_gatekeeper.AclStore.Snapshots.{
  allocate_snapshot_version, door_owner, snapshot_by_version, insert_snapshot, latest_snapshot,
}
use smart_gatekeeper.AclService.{
  Config, World, Action, pure, raise, look, write, transact, or_raise, ◌>>=◌, ◌>>◌, update, require,
  compare, is_hex_of, existing_tenant, time, push, audit, reconcile_legacy_disable, active_tenant,
}
use smart_gatekeeper.AclService.Signing.{
  entries_of, sort_entries, fields_of, sign_explicit_snapshot,
}

unfoldable pub topic_of : Text → Text → Text
topic_of tenant_id door_id = codes "gatekeeper/acl/v1/" ++ tenant_id ++ codes "/" ++ door_id

unfoldable pub owned_by : Text → Option Text → Action (Unit {0})
owned_by tenant_id none = pure tt
owned_by tenant_id (some owner) = do same ← compare owner tenant_id; require same permission_error

module _ (c : Config) where
  -- The snapshot of the rows that the door lists
  unfoldable pub store_rows : Text → Text → ℕ → ℕ → ℕ → ℕ → List Granted → Action Envelope
  store_rows tenant_id door_id min_protocol max_protocol now version rows = do
    entries ← or_raise (sort_entries (entries_of min_protocol max_protocol now rows)) value_error
    envelope ←
        or_raise
          (sign_explicit_snapshot c
            (fields_of c door_id version now min_protocol max_protocol entries))
          value_error
    transact (insert_snapshot tenant_id door_id version envelope now)
    pure envelope

  -- From the allocation of the version to the stored snapshot
  unfoldable pub build_snapshot : Text → Text → ℕ → ℕ → Action Envelope
  build_snapshot tenant_id door_id min_protocol max_protocol = do
    now ← time c
    version ← transact (allocate_snapshot_version c.dialect tenant_id door_id)
    rows ← look (list_granted_credentials tenant_id door_id)
    store_rows tenant_id door_id min_protocol max_protocol now version rows

  abbrev pub published_metadata : ℕ → Text → Dict Text Json
  published_metadata version door_id =
      (codes "acl_version", int version) ∷ (codes "door_id", str door_id) ∷ []

  -- `publish_snapshot` with `_publish_snapshot_locked`
  unfoldable pub publish_snapshot : Text → Text → Text → ℕ → ℕ → Action Envelope
  publish_snapshot tenant_id door_id actor_ref min_protocol max_protocol = do
    existing_tenant tenant_id
    reconcile_legacy_disable c tenant_id
    is_hex_of door_id 16
    require (leb 1 min_protocol && leb min_protocol max_protocol) value_error
    owner ← look (door_owner door_id)
    owned_by tenant_id owner
    envelope ← build_snapshot tenant_id door_id min_protocol max_protocol
    audit c tenant_id actor_ref (codes "ACL_SNAPSHOT_PUBLISHED") none
        (published_metadata envelope.fields.acl_version door_id)
    sent ← push c (topic_of tenant_id door_id) envelope
    require sent mqtt_error
    pure envelope

  -- A step of the loop gives the envelope and whether its push failed.
  unfoldable pub mark_latest : Text → Text → ℕ → Option (ℕ × Stored) → Action (Envelope × Bool)
  mark_latest tenant_id door_id revision none = raise mqtt_error
  mark_latest tenant_id door_id revision (some (version, row)) = do
    write (mark_snapshot_job_generated tenant_id door_id version revision)
    pure (row.envelope, true)

  -- `except MqttPublishError`, `except Exception` and `else`
  unfoldable pub after_publish : Text → Text → ℕ → Result Envelope → Action (Envelope × Bool)
  unfolding mark_latest
  after_publish tenant_id door_id revision (ok envelope) = do
    write (delete_snapshot_job tenant_id door_id revision)
    pure (envelope, false)
  after_publish tenant_id door_id revision (failed mqtt_error) = do
    latest ← look (latest_snapshot tenant_id door_id)
    mark_latest tenant_id door_id revision latest
  after_publish tenant_id door_id revision (failed other) = raise runtime_error

  unfoldable pub generate : Text → Text → Text → ℕ → Action (Envelope × Bool)
  unfolding after_publish
  generate tenant_id door_id actor_ref revision w =
      let (r, w') = publish_snapshot tenant_id door_id actor_ref 2 2 w in
      after_publish tenant_id door_id revision r w'

  unfoldable pub after_push : Text → Text → ℕ → Envelope → Bool → Action (Envelope × Bool)
  after_push tenant_id door_id revision envelope false = pure (envelope, true)
  after_push tenant_id door_id revision envelope true = do
    write (delete_snapshot_job tenant_id door_id revision)
    pure (envelope, false)

  -- The push of the artifact that the job names already
  unfoldable pub push_again : Text → Text → ℕ → Envelope → Action (Envelope × Bool)
  unfolding after_push
  push_again tenant_id door_id revision envelope = do
    sent ← push c (topic_of tenant_id door_id) envelope
    after_push tenant_id door_id revision envelope sent

  -- by whether the artifact has expired
  unfoldable pub replace_artifact :
      Text → Text → Text → ℕ → ℕ → Envelope → Bool → Action (Envelope × Bool)
  replace_artifact tenant_id door_id actor_ref revision version envelope false =
      push_again tenant_id door_id revision envelope
  replace_artifact tenant_id door_id actor_ref revision version envelope true = do
    retired ← write (expire_snapshot_job_artifact tenant_id door_id version revision)
    require retired runtime_error
    generate tenant_id door_id actor_ref (revision + 1)

  unfoldable pub replace_generated : Text → Text → Text → ℕ → ℕ → Action (Envelope × Bool)
  unfolding replace_artifact
  replace_generated tenant_id door_id actor_ref revision version = do
    found ← look (snapshot_by_version tenant_id door_id version)
    stored ← or_raise found runtime_error
    now ← time c
    replace_artifact tenant_id door_id actor_ref revision version stored.envelope
        (leb stored.envelope.fields.expires_at now)

  unfoldable pub replace_by : Text → Text → Text → Option Job → Action (Envelope × Bool)
  unfolding replace_generated
  replace_by tenant_id door_id actor_ref none = generate tenant_id door_id actor_ref 0
  replace_by tenant_id door_id actor_ref (some job) = elim job.generated_version [
    | none ↦ generate tenant_id door_id actor_ref job.revision
    | some version ↦ replace_generated tenant_id door_id actor_ref job.revision version
  ]

  -- One round of the loop
  unfoldable pub replace_door : Text → Text → Text → Action (Envelope × Bool)
  unfolding replace_by
  replace_door tenant_id door_id actor_ref = do
    job ← look (snapshot_job tenant_id door_id)
    replace_by tenant_id door_id actor_ref job

  -- The loop, with whether a push has failed so far
  unfoldable pub replace_all : Text → Text → Bool → List Text → Action (List Envelope × Bool)
  replace_all tenant_id actor_ref any_failed [] = pure ([], any_failed)
  replace_all tenant_id actor_ref any_failed (door ∷ doors) = do
    round ← replace_door tenant_id door actor_ref
    rest ← replace_all tenant_id actor_ref (any_failed || round.1) doors
    pure (round.0 ∷ rest.0, rest.1)

  -- `_publish_replacement_snapshots` with the locked body
  unfoldable pub publish_replacements : Text → Text → Bool → List Text → Action (List Envelope)
  publish_replacements tenant_id actor_ref raise_mqtt_failure doors = do
    done ← replace_all tenant_id actor_ref false doors
    require (if raise_mqtt_failure && done.1 then false else true) runtime_error
    pure done.0

  -- `[0]`; a list of no doors has none.
  unfoldable pub first : List Envelope → Action Envelope
  first [] = raise runtime_error
  first (e ∷ es) = pure e

  -- `reason in {"TARGET_BOOT_REFRESH", "ACL_LEASE_REFRESH"}`
  unfoldable pub refresh_snapshot : Text → Text → Text → Text → Action Envelope
  refresh_snapshot tenant_id door_id actor_ref reason = do
    let boot = list_beq reason (codes "TARGET_BOOT_REFRESH")
    require (boot || list_beq reason (codes "ACL_LEASE_REFRESH")) value_error
    active_tenant c tenant_id
    is_hex_of door_id 16
    now ← time c
    update (
        if boot
        then supersede_snapshot_job tenant_id door_id reason now
        else queue_snapshot_job_if_absent tenant_id door_id reason now)
    envelopes ← publish_replacements tenant_id actor_ref true (door_id ∷ [])
    first envelopes
