-- ===== src/AclStore/Transitions/Queued.antt =====
-- Which doors have a job once a transition has queued them.
use smart_gatekeeper.Common.{
  ℕ, ◌≡◌, refl, sym, ◌∙◌, Bool, true, false, ◌&&◌, ◌||◌, Option, none, some, List, [], ◌∷◌,
  if◌then◌else◌, list_eq, nat_eq, pair_eq, list_beq, list_beq_iff, some_of, Bool-cases, inl, inr,
  arith, beq_refl,
}
use smart_gatekeeper.Common.Dict.{Dict, has, has-set_item, has-lookup}
use smart_gatekeeper.Common.Text.{Text}
use smart_gatekeeper.AclStore.{Door, Grant, Job, Db}
use smart_gatekeeper.AclStore.Grants.{doors_where, active_grant_doors, is_live}
use smart_gatekeeper.AclStore.Grants.Entitled.{some_of-order_by, is_live_for}
use smart_gatekeeper.AclStore.Jobs.{
  snapshot_job, queue_snapshot_job, queued_if_absent, queue_snapshot_job_if_absent,
}
use smart_gatekeeper.AclStore.Transitions.{queue_all}

-- The doors that are queued have a job, and those that had one keep one.
abbrev pub has_job : Text → Text → Db → Bool
has_job tenant_id door_id db = has (tenant_id, door_id) db.jobs

queue-has_job :
    (tenant_id door_id reason : Text) (now : ℕ) (other : Text) (db : Db)
    → has_job tenant_id other (queue_snapshot_job tenant_id door_id reason now db)
      ≡ (list_beq door_id other || has_job tenant_id other db)
unfolding queue_snapshot_job
queue-has_job tenant_id door_id reason now other db =
    let key : Door = (tenant_id, door_id) in
    let asked : Door = (tenant_id, other) in
    has-set_item key asked _ db.jobs ∙ rw (beq_refl tenant_id) refl

there_already :
    (tenant_id door_id : Text) (job : Job) (db : Db)
    → snapshot_job tenant_id door_id db ≡ some job
    → has_job tenant_id door_id db ≡ true
unfolding snapshot_job
there_already tenant_id door_id job db h = elim (Bool-cases (has_job tenant_id door_id db)) [
  | inl there ↦ there
  | inr absent ↦
      let key : Door = (tenant_id, door_id) in
      let none_is : none ≡ some job = sym (has-lookup key db.jobs absent) ∙ h in absurd cc
]

queued_if_absent-has_job :
    (tenant_id door_id reason : Text) (now : ℕ) (other : Text) (o : Option Job) (db : Db)
    → snapshot_job tenant_id door_id db ≡ o
    → has_job tenant_id other (queued_if_absent tenant_id door_id reason now o db)
      ≡ (list_beq door_id other || has_job tenant_id other db)
unfolding queued_if_absent
queued_if_absent-has_job tenant_id door_id reason now other none db e =
    let key : Door = (tenant_id, door_id) in
    let asked : Door = (tenant_id, other) in
    has-set_item key asked _ db.jobs ∙ rw (beq_refl tenant_id) refl
queued_if_absent-has_job tenant_id door_id reason now other (some job) db e =
    elim (Bool-cases (list_beq door_id other)) [
      | inl same ↦
          let q = (list_beq_iff door_id other).0 same in
          let there = there_already tenant_id door_id job db e in rw same (rw q at there)
      | inr different ↦ rw different refl
    ]

queue_one-has_job :
    (preserve : Bool) (tenant_id door_id reason : Text) (now : ℕ) (other : Text) (db : Db)
    → has_job tenant_id other (
        if preserve
        then queue_snapshot_job_if_absent tenant_id door_id reason now db
        else queue_snapshot_job tenant_id door_id reason now db)
      ≡ (list_beq door_id other || has_job tenant_id other db)
unfolding queue_snapshot_job_if_absent
queue_one-has_job true tenant_id door_id reason now other db =
    queued_if_absent-has_job tenant_id door_id reason now other (snapshot_job tenant_id door_id db)
      db refl
queue_one-has_job false tenant_id door_id reason now other db =
    queue-has_job tenant_id door_id reason now other db

-- Every queued door has a job.
pub queue_all-has_job :
    (preserve : Bool) (tenant_id reason : Text) (now : ℕ) (other : Text) (doors : List Text)
    (db : Db)
    → has_job tenant_id other (queue_all preserve tenant_id reason now doors db)
      ≡ (some_of (λ door. list_beq door other) doors || has_job tenant_id other db)
unfolding queue_all
queue_all-has_job preserve tenant_id reason now other [] db = refl
queue_all-has_job preserve tenant_id reason now other (door ∷ doors) db =
    let rest = queue_all-has_job preserve tenant_id reason now other doors (
      if preserve
      then queue_snapshot_job_if_absent tenant_id door reason now db
      else queue_snapshot_job tenant_id door reason now db) in
    let one = queue_one-has_job preserve tenant_id door reason now other db in
    rest ∙ rw one (ground arith)

some_of-doors_where :
    (tenant_id credential_id other : Text) (grants : Dict (Door × Text) Grant)
    → some_of
        (λ door. list_beq door other)
        (doors_where
          (λ credential row. list_beq credential credential_id && is_live row)
          tenant_id
          grants)
      ≡ some_of (is_live_for tenant_id other credential_id) grants
some_of-doors_where tenant_id credential_id other [] = refl
some_of-doors_where tenant_id credential_id other ((((tenant, door), credential), row) ∷ grants) =
    ground (arith, some_of-doors_where tenant_id credential_id other grants)

-- The doors that a credential opens
pub active-some_of :
    (tenant_id credential_id other : Text) (db : Db)
    → some_of (λ door. list_beq door other) (active_grant_doors tenant_id credential_id db)
      ≡ some_of (is_live_for tenant_id other credential_id) db.grants
unfolding active_grant_doors
active-some_of tenant_id credential_id other db =
    some_of-order_by (λ door. door) (λ door. list_beq door other) _
    ∙ some_of-doors_where tenant_id credential_id other db.grants

queue_one-credentials :
    (preserve : Bool) (tenant_id door_id reason : Text) (now : ℕ) (o : Option Job) (db : Db)
    → (if preserve
        then queued_if_absent tenant_id door_id reason now o db
        else queue_snapshot_job tenant_id door_id reason now db).credentials
      ≡ db.credentials
unfolding queued_if_absent queue_snapshot_job
queue_one-credentials true tenant_id door_id reason now none db = refl
queue_one-credentials true tenant_id door_id reason now (some job) db = refl
queue_one-credentials false tenant_id door_id reason now o db = refl

pub queue_all-credentials :
    (preserve : Bool) (tenant_id reason : Text) (now : ℕ) (doors : List Text) (db : Db)
    → (queue_all preserve tenant_id reason now doors db).credentials ≡ db.credentials
unfolding queue_all queue_snapshot_job_if_absent
queue_all-credentials preserve tenant_id reason now [] db = refl
queue_all-credentials preserve tenant_id reason now (door ∷ doors) db =
    queue_all-credentials preserve tenant_id reason now doors _
    ∙ queue_one-credentials preserve tenant_id door reason now (snapshot_job tenant_id door db) db
