-- ===== src/AclService/Reading.antt =====
-- The Targets' side of `AclManagementService` of backend/app/acl_management.py: the periodic pull, the
-- answers and the fleet's state.
use smart_gatekeeper.Common.{
  ℕ, ◌+◌, Bool, false, ◌&&◌, Option, none, some, List, [], ◌∷◌, if◌then◌else◌, ◌==◌, list_eq,
  nat_eq,
}
use smart_gatekeeper.Common.Text.{Text, codes}
use smart_gatekeeper.Acl.Envelope.{Envelope}
use smart_gatekeeper.AclStore.{
  lookup_error, value_error, Job, Stored, AckStatus, applied, AckKey, Ack,
}
use smart_gatekeeper.AclStore.Jobs.{snapshot_job}
use smart_gatekeeper.AclStore.Snapshots.{
  snapshot_by_version, latest_snapshot, upsert_ack, latest_acks, same_answer,
}
use smart_gatekeeper.AclService.{
  Config, Action, pure, look, transact, or_raise, ◌>>=◌, ◌>>◌, require, compare, existing_tenant,
  time, reconcile_legacy_disable,
}
use smart_gatekeeper.AclService.Publishing.{publish_replacements}

abbrev pub version_of : Option (ℕ × Stored) → ℕ
version_of none = 0
version_of (some (version, row)) = version

abbrev pub digest_of : Option (ℕ × Stored) → Text
digest_of none = []
digest_of (some (version, row)) = row.sha256

-- row["status"] == "APPLIED" and int(row["acl_version"]) == ... and hmac.compare_digest(...)
unfoldable pub is_synced : ℕ → Text → AckKey × Ack → Action Bool
is_synced version digest (((place, acked), sha256), ack) =
    if same_answer ack.status applied && acked == version then compare sha256 digest else pure false

unfoldable pub count_synced : ℕ → Text → List (AckKey × Ack) → Action ℕ
count_synced version digest [] = pure 0
count_synced version digest (row ∷ rows) = do
  synced ← is_synced version digest row
  rest ← count_synced version digest rows
  pure (if synced then rest + 1 else rest)

-- latest_acl_version, synced_targets and targets
unfoldable pub fleet_status : Text → Text → Action (ℕ × ℕ × List (AckKey × Ack))
fleet_status tenant_id door_id = do
  existing_tenant tenant_id
  snapshot ← look (latest_snapshot tenant_id door_id)
  targets ← look (latest_acks tenant_id door_id)
  synced ← count_synced (version_of snapshot) (digest_of snapshot) targets
  pure (version_of snapshot, synced, targets)

module _ (c : Config) where
  unfoldable pub recover : Text → Text → Option Job → Action (Unit {0})
  recover tenant_id door_id none = pure tt
  recover tenant_id door_id (some job) = do
    publish_replacements c tenant_id (codes "system:periodic-pull-recovery") false (door_id ∷ [])
    pure tt

  unfoldable pub pull_snapshot : Text → Text → Action Envelope
  pull_snapshot tenant_id door_id = do
    existing_tenant tenant_id
    reconcile_legacy_disable c tenant_id
    job ← look (snapshot_job tenant_id door_id)
    recover tenant_id door_id job
    latest ← look (latest_snapshot tenant_id door_id)
    row ← or_raise latest lookup_error
    pure row.1.envelope

  -- The result is the ack id and whether it is a duplicate.
  unfoldable pub ack_snapshot : Text → Text → Text → ℕ → Text → Option AckStatus → Action (ℕ × Bool)
  ack_snapshot tenant_id target_id door_id acl_version digest status = do
    existing_tenant tenant_id
    known ← or_raise status value_error
    found ← look (snapshot_by_version tenant_id door_id acl_version)
    snapshot ← or_raise found value_error
    same ← compare snapshot.sha256 digest
    require same value_error
    now ← time c
    transact (upsert_ack ((((tenant_id, door_id), target_id), acl_version), digest) known now)
