-- ===== src/AclStore/Jobs/Durable.antt =====
-- A job that replaced the one a worker has read outlives that worker.
use smart_gatekeeper.Common.{
  ℕ, ◌≤◌, ◌<◌, ◌≡◌, refl, false, Option, none, some, ◌==◌, list_eq, nat_eq, pair_eq, Bool-cases,
  inl, inr, arith, beq_refl,
}
use smart_gatekeeper.Common.Dict.{lookup, lookup-set_item}
use smart_gatekeeper.Common.Text.{Text}
use smart_gatekeeper.AclStore.{Door, Job, Db}
use smart_gatekeeper.AclStore.Jobs.{
  snapshot_job, requested, queue_snapshot_job, is_generated, expired, marked, deleted,
  expire_snapshot_job_artifact, mark_snapshot_job_generated, delete_snapshot_job,
}

-- `int(job["revision"]) if job else 0`
abbrev pub revision_of : Option Job → ℕ
revision_of none = 0
revision_of (some job) = job.revision

-- What a queued request leaves
queued :
    (tenant_id door_id reason : Text) (now : ℕ) (db : Db)
    → snapshot_job tenant_id door_id (queue_snapshot_job tenant_id door_id reason now db)
      ≡ some (requested reason now (snapshot_job tenant_id door_id db))
unfolding snapshot_job queue_snapshot_job
queued tenant_id door_id reason now db =
    let key : Door = (tenant_id, door_id) in
    let looked = lookup-set_item key key (requested reason now (lookup key db.jobs)) db.jobs in
    rw (beq_refl key) at looked

-- A request has a greater revision than the job that it replaces.
newer :
    (reason : Text) (now revision : ℕ) (o : Option Job)
    → revision ≤ revision_of o
    → revision < (requested reason now o).revision
newer reason now revision none h = omega arith
newer reason now revision (some job) h = omega arith

expired_stale :
    (tenant_id door_id : Text) (version revision : ℕ) (job : Job) (db : Db)
    → (job.revision == revision) ≡ false
    → expired tenant_id door_id version revision (some job) db ≡ (false, db)
unfolding expired
expired_stale tenant_id door_id version revision job db h =
    elim (Bool-cases (is_generated version job)) [
      | inl same ↦ rw (same, h) refl
      | inr other ↦ rw other refl
    ]

stale : (a b : ℕ) → a < b → (b == a) ≡ false
stale a b h = ground arith

-- A worker has read a job of a door, or that there is none, and its revision. A revocation then queues a
-- replacement. Whatever the worker then writes under the revision that it has read, or an older one,
-- changes nothing: it neither deletes the new job nor marks it as generated nor retires its artifact, so
-- the replacement stays queued.
pub stale_worker_changes_nothing :
    (tenant_id door_id reason : Text) (now revision version : ℕ) (db : Db)
    → revision ≤ revision_of (snapshot_job tenant_id door_id db)
    → let after = queue_snapshot_job tenant_id door_id reason now db in
      (delete_snapshot_job tenant_id door_id revision after ≡ (false, after))
      × (mark_snapshot_job_generated tenant_id door_id version revision after ≡ (false, after))
      × (expire_snapshot_job_artifact tenant_id door_id version revision after ≡ (false, after))
unfolding delete_snapshot_job mark_snapshot_job_generated expire_snapshot_job_artifact deleted
    marked
stale_worker_changes_nothing tenant_id door_id reason now revision version db h =
    let old = snapshot_job tenant_id door_id db in
    let found = queued tenant_id door_id reason now db in
    let less = newer reason now revision old h in
    let differs = stale revision (requested reason now old).revision less in
    (
      rw (found, differs) refl,
      rw (found, differs) refl,
      rw found (
          expired_stale tenant_id door_id version revision (requested reason now old)
            (queue_snapshot_job tenant_id door_id reason now db) differs),
    )
