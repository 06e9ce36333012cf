-- ===== src/AclService/Traces/Publishing.antt =====
-- Publishing and the work on the jobs run transactions of the history.
use smart_gatekeeper.Common.{
  ℕ, Bool, true, false, ◌||◌, Option, none, some, List, [], ◌∷◌, if◌then◌else◌,
}
use smart_gatekeeper.Common.Text.{Text}
use smart_gatekeeper.Acl.Envelope.{Envelope}
use smart_gatekeeper.AclStore.{
  Result, ok, failed, lookup_error, permission_error, value_error, conflict_error, runtime_error,
  mqtt_error, integrity_error, type_error, Job, Stored, Db,
}
use smart_gatekeeper.AclStore.Jobs.{supersede_snapshot_job, queue_snapshot_job_if_absent}
use smart_gatekeeper.AclStore.History.{aside, IsSameHistory, Run-append}
use smart_gatekeeper.AclStore.History.Frames.{
  supersede-IsSameHistory, queue_if_absent-IsSameHistory, expire-IsSameHistory, mark-IsSameHistory,
  delete-IsSameHistory,
}
use smart_gatekeeper.AclService.{Config}
use smart_gatekeeper.AclService.Publishing.{
  publish_snapshot, mark_latest, after_publish, generate, after_push, push_again, replace_artifact,
  replace_generated, replace_by, replace_door, replace_all, publish_replacements, first,
  refresh_snapshot,
}
use smart_gatekeeper.AclService.Traces.{
  IsTraced, >>=-IsTraced, write-IsTraced, update-IsTraced, raise-IsTraced, traced, tenant_traced,
}
use smart_gatekeeper.AclService.Traces.Owners.{owned_by-IsTraced}
use smart_gatekeeper.AclService.Traces.Storing.{build_snapshot-IsTraced}

module _ (c : Config) where
  pub publish_snapshot-IsTraced :
      (tenant_id door_id actor_ref : Text) (min_protocol max_protocol : ℕ)
      → IsTraced c (publish_snapshot c tenant_id door_id actor_ref min_protocol max_protocol)
  unfolding publish_snapshot
  publish_snapshot-IsTraced tenant_id door_id actor_ref min_protocol max_protocol =
      search (tenant_traced, owned_by-IsTraced, build_snapshot-IsTraced) depth 20

  module _ (tenant_id door_id : Text) where
    mark_latest-IsTraced :
        (revision : ℕ) (latest : Option (ℕ × Stored))
        → IsTraced c (mark_latest c tenant_id door_id revision latest)
    unfolding mark_latest
    mark_latest-IsTraced revision none = search traced depth 20
    mark_latest-IsTraced revision (some (version, row)) =
        search (traced, write-IsTraced, aside, mark-IsSameHistory) depth 20

    after_publish-IsTraced :
        (revision : ℕ) (r : Result Envelope)
        → IsTraced c (after_publish c tenant_id door_id revision r)
    unfolding after_publish
    after_publish-IsTraced revision (ok envelope) =
        search (traced, write-IsTraced, aside, delete-IsSameHistory) depth 20
    after_publish-IsTraced revision (failed mqtt_error) =
        search (traced, mark_latest-IsTraced) depth 20
    after_publish-IsTraced revision (failed lookup_error) = raise-IsTraced c _ runtime_error
    after_publish-IsTraced revision (failed permission_error) = raise-IsTraced c _ runtime_error
    after_publish-IsTraced revision (failed value_error) = raise-IsTraced c _ runtime_error
    after_publish-IsTraced revision (failed conflict_error) = raise-IsTraced c _ runtime_error
    after_publish-IsTraced revision (failed runtime_error) = raise-IsTraced c _ runtime_error
    after_publish-IsTraced revision (failed integrity_error) = raise-IsTraced c _ runtime_error
    after_publish-IsTraced revision (failed type_error) = raise-IsTraced c _ runtime_error

    generate-IsTraced :
        (actor_ref : Text) (revision : ℕ)
        → IsTraced c (generate c tenant_id door_id actor_ref revision)
    unfolding generate IsTraced
    generate-IsTraced actor_ref revision w =
        let m = publish_snapshot c tenant_id door_id actor_ref 2 2 w in
        Run-append (publish_snapshot-IsTraced tenant_id door_id actor_ref 2 2 w)
          (after_publish-IsTraced revision m.0 m.1)

    after_push-IsTraced :
        (revision : ℕ) (envelope : Envelope) (sent : Bool)
        → IsTraced c (after_push c tenant_id door_id revision envelope sent)
    unfolding after_push
    after_push-IsTraced revision envelope false = search traced depth 20
    after_push-IsTraced revision envelope true =
        search (traced, write-IsTraced, aside, delete-IsSameHistory) depth 20

    push_again-IsTraced :
        (revision : ℕ) (envelope : Envelope)
        → IsTraced c (push_again c tenant_id door_id revision envelope)
    unfolding push_again
    push_again-IsTraced revision envelope = search (traced, after_push-IsTraced) depth 20

    replace_artifact-IsTraced :
        (actor_ref : Text) (revision version : ℕ) (envelope : Envelope) (past : Bool)
        → IsTraced c (replace_artifact c tenant_id door_id actor_ref revision version envelope past)
    unfolding replace_artifact
    replace_artifact-IsTraced actor_ref revision version envelope false =
        push_again-IsTraced revision envelope
    replace_artifact-IsTraced actor_ref revision version envelope true =
        search (traced, write-IsTraced, aside, expire-IsSameHistory, generate-IsTraced) depth 20

    replace_generated-IsTraced :
        (actor_ref : Text) (revision version : ℕ)
        → IsTraced c (replace_generated c tenant_id door_id actor_ref revision version)
    unfolding replace_generated
    replace_generated-IsTraced actor_ref revision version =
        search (traced, replace_artifact-IsTraced) depth 20

    replace_by-IsTraced :
        (actor_ref : Text) (o : Option Job)
        → IsTraced c (replace_by c tenant_id door_id actor_ref o)
    unfolding replace_by
    replace_by-IsTraced actor_ref none = generate-IsTraced actor_ref 0
    replace_by-IsTraced actor_ref (some job) = by_version job.generated_version
      where
        by_version :
            (o : Option ℕ)
            → IsTraced c (elim o [
              | none ↦ generate c tenant_id door_id actor_ref job.revision
              | some version ↦ replace_generated c tenant_id door_id actor_ref job.revision version
            ])
        by_version none = generate-IsTraced actor_ref job.revision
        by_version (some version) = replace_generated-IsTraced actor_ref job.revision version

    replace_door-IsTraced :
        (actor_ref : Text) → IsTraced c (replace_door c tenant_id door_id actor_ref)
    unfolding replace_door
    replace_door-IsTraced actor_ref = search (traced, replace_by-IsTraced) depth 20

  replace_all-IsTraced :
      (tenant_id actor_ref : Text) (any_failed : Bool) (doors : List Text)
      → IsTraced c (replace_all c tenant_id actor_ref any_failed doors)
  unfolding replace_all
  replace_all-IsTraced tenant_id actor_ref any_failed [] = search traced depth 20
  replace_all-IsTraced tenant_id actor_ref any_failed (door ∷ doors) =
      >>=-IsTraced c _ _ (replace_door-IsTraced tenant_id door actor_ref) (λ round.
        >>=-IsTraced c _ _ (replace_all-IsTraced tenant_id actor_ref (any_failed || round.1) doors)
          (λ rest. search traced))

  pub replacements-IsTraced :
      (tenant_id actor_ref : Text) (raise_failure : Bool) (doors : List Text)
      → IsTraced c (publish_replacements c tenant_id actor_ref raise_failure doors)
  unfolding publish_replacements
  replacements-IsTraced tenant_id actor_ref raise_failure doors =
      search (traced, replace_all-IsTraced) depth 20

  pub first-IsTraced : (es : List Envelope) → IsTraced c (first c es)
  unfolding first
  first-IsTraced [] = search traced
  first-IsTraced (e ∷ es) = search traced

  queue-IsSameHistory :
      (boot : Bool) (tenant_id door_id reason : Text) (now : ℕ) (db : Db)
      → IsSameHistory db (
          (if boot
              then supersede_snapshot_job tenant_id door_id reason now
              else queue_snapshot_job_if_absent tenant_id door_id reason now)
            db)
  queue-IsSameHistory true tenant_id door_id reason now db =
      supersede-IsSameHistory tenant_id door_id reason now db
  queue-IsSameHistory false tenant_id door_id reason now db =
      queue_if_absent-IsSameHistory tenant_id door_id reason now db

  pub refresh-IsTraced :
      (tenant_id door_id actor_ref reason : Text)
      → IsTraced c (refresh_snapshot c tenant_id door_id actor_ref reason)
  unfolding refresh_snapshot
  refresh-IsTraced tenant_id door_id actor_ref reason =
      search
        (tenant_traced, update-IsTraced, queue-IsSameHistory, replacements-IsTraced, first-IsTraced)
        depth 20
