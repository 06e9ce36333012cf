-- ===== src/AclStore/Jobs.antt =====
-- The durable snapshot jobs of `AclStore` of backend/app/acl_management.py: one row for a tenant's door,
-- whose revision counts what replaced the request.
pub mod Durable
use smart_gatekeeper.Common.{
  ℕ, ◌+◌, Bool, true, false, ◌&&◌, Option, none, some, [], ◌∷◌, if◌then◌else◌, ◌==◌, list_eq,
  nat_eq, pair_eq,
}
use smart_gatekeeper.Common.Dict.{lookup, set_item, remove}
use smart_gatekeeper.Common.Text.{Text}
use smart_gatekeeper.AclStore.{Job, Db}

unfoldable pub snapshot_job : Text → Text → Db → Option Job
snapshot_job tenant_id door_id db = lookup (tenant_id, door_id) db.jobs

abbrev pub first_job : Text → ℕ → Job
first_job reason now = record {
  reason = reason;
  requested_at = now;
  generated_version = none;
  revision = 1;
}

-- ON CONFLICT DO UPDATE SET ... revision=revision + 1
abbrev pub requested : Text → ℕ → Option Job → Job
requested reason now none = first_job reason now
requested reason now (some job) = record {
  reason = reason;
  requested_at = now;
  generated_version = none;
  revision = job.revision + 1;
}

unfoldable pub queue_snapshot_job : Text → Text → Text → ℕ → Db → Db
queue_snapshot_job tenant_id door_id reason now db = record db {
  jobs =
      set_item (tenant_id, door_id) (requested reason now (snapshot_job tenant_id door_id db))
        db.jobs;
}

-- the same statement in a transaction of its own
unfoldable pub supersede_snapshot_job : Text → Text → Text → ℕ → Db → Db
supersede_snapshot_job tenant_id door_id reason now db =
    queue_snapshot_job tenant_id door_id reason now db

unfoldable pub queued_if_absent : Text → Text → Text → ℕ → Option Job → Db → Db
queued_if_absent tenant_id door_id reason now none db = record db {
  jobs = set_item (tenant_id, door_id) (first_job reason now) db.jobs;
}
queued_if_absent tenant_id door_id reason now (some job) db = db

unfoldable pub queue_snapshot_job_if_absent : Text → Text → Text → ℕ → Db → Db
unfolding queued_if_absent
queue_snapshot_job_if_absent tenant_id door_id reason now db =
    queued_if_absent tenant_id door_id reason now (snapshot_job tenant_id door_id db) db

-- generated_version=?
abbrev pub is_generated : ℕ → Job → Bool
is_generated version job = elim job.generated_version [ none ↦ false | some v ↦ v == version ]

unfoldable pub expired : Text → Text → ℕ → ℕ → Option Job → Db → Bool × Db
expired tenant_id door_id version revision none db = (false, db)
expired tenant_id door_id version revision (some job) db =
    if is_generated version job && job.revision == revision
    then (
      true,
      record db {
        jobs =
            set_item (tenant_id, door_id)
              (record job { generated_version = none; revision = job.revision + 1 }) db.jobs;
      },
    )
    else (false, db)

unfoldable pub expire_snapshot_job_artifact : Text → Text → ℕ → ℕ → Db → Bool × Db
unfolding expired
expire_snapshot_job_artifact tenant_id door_id version revision db =
    expired tenant_id door_id version revision (snapshot_job tenant_id door_id db) db

unfoldable pub marked : Text → Text → ℕ → ℕ → Option Job → Db → Bool × Db
marked tenant_id door_id version revision none db = (false, db)
marked tenant_id door_id version revision (some job) db =
    if job.revision == revision
    then (
      true,
      record db {
        jobs =
            set_item (tenant_id, door_id) (record job { generated_version = some version }) db.jobs;
      },
    )
    else (false, db)

unfoldable pub mark_snapshot_job_generated : Text → Text → ℕ → ℕ → Db → Bool × Db
unfolding marked
mark_snapshot_job_generated tenant_id door_id version revision db =
    marked tenant_id door_id version revision (snapshot_job tenant_id door_id db) db

unfoldable pub deleted : Text → Text → ℕ → Option Job → Db → Bool × Db
deleted tenant_id door_id revision none db = (false, db)
deleted tenant_id door_id revision (some job) db =
    if job.revision == revision
    then (true, record db { jobs = remove (tenant_id, door_id) db.jobs })
    else (false, db)

unfoldable pub delete_snapshot_job : Text → Text → ℕ → Db → Bool × Db
unfolding deleted
delete_snapshot_job tenant_id door_id revision db =
    deleted tenant_id door_id revision (snapshot_job tenant_id door_id db) db
