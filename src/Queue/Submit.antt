-- ===== src/Queue/Submit.antt =====
-- The submission part of queue/store.py. `uuid4().hex` is the argument `job_id`.
use fallow.Prelude.{
  ℕ, Bool, not, ◌&&◌, ◌||◌, Option, none, some, String, List, [], ◌∷◌, ◌++◌, map, if◌then◌else◌,
  any, filter, is_some,
}
use fallow.Prelude.Eq.{◌==◌, String_eq, Option_eq, ℕ_eq, Pair_eq}
use fallow.Prelude.Table.{has, delete}
use fallow.Queue.Rows.{
  JobState, WorkUnitState, WorkResultStatus, Job, WorkUnit, Membership, Db, JobSubmit, WorkUnitSpec,
  is_pending, is_leased, is_done, is_dead, kind_eq, int_eq, unit_key, result_key, membership_key,
  backup_key,
}
use fallow.Queue.Tables.{unit_of, job_of, result_of, bound_ref, succeeded_result}
use fallow.Queue.Status.{recompute_job_state}

-- The units whose id was not seen before, in order: the loop of `submit_job` over `units`.
unfoldable pub unique_units : List String → List WorkUnitSpec → List WorkUnitSpec
unique_units seen [] = []
unique_units seen (u ∷ us) =
    let rest = unique_units (u.work_unit_id ∷ seen) us in
    let skip = unique_units seen us in
    if any (λ s. s == u.work_unit_id) seen then skip else u ∷ rest

abbrev pub job_row : String → JobSubmit → ℕ → Job
job_row job_id job now = record {
  job_id = job_id;
  kind = job.kind;
  model_id = job.model_id;
  payload_ref = job.payload_ref;
  params_json = job.params_json;
  priority = job.priority;
  state = JobState.pending;
  created_at = now;
}

-- SNAPSHOT_TERMINAL_OWNER's conflict clause: only a membership with no outcome takes one.
unfoldable pub settle : Membership → Membership → Membership
settle new m =
    if membership_key m == membership_key new && not (is_some m.terminal_state)
    then record m {
      terminal_state = new.terminal_state;
      result_status = new.result_status;
      result_ref = new.result_ref;
    }
    else m

unfoldable pub upsert_membership : Membership → Db → Db
unfolding settle
upsert_membership new db =
    if has membership_key (membership_key new) db.memberships
    then record db { memberships = map (settle new) db.memberships }
    else record db { memberships = db.memberships ++ new ∷ [] }

-- The outcome of a terminal unit, as a membership of the job that owns it.
unfoldable pub owner_row : Db → WorkUnit → Membership
unfolding bound_ref
owner_row db w = record {
  job_id = w.job_id;
  work_unit_id = w.work_unit_id;
  idx = w.idx;
  input_ref = w.input_ref;
  terminal_state = some w.state;
  result_status = elim (result_of w.work_unit_id db) [
    | none ↦ none
    | some r ↦ if is_done w.state then some r.status else none
  ];
  result_ref = elim (result_of w.work_unit_id db) [
    | none ↦ none
    | some r ↦ if is_done w.state then bound_ref r db else none
  ];
}

unfoldable pub snapshot_terminal_owner : String → Db → Db
unfolding upsert_membership owner_row
snapshot_terminal_owner u db = elim (unit_of u db) [
  | none ↦ db
  | some w ↦
      if is_done w.state || is_dead w.state then upsert_membership (owner_row db w) db else db
]

-- DELETE_INCOMPLETE_RESULT_BINDINGS, DELETE_STALE_RESULT and DELETE_BACKUP_LEASE.
unfoldable pub forget_unit : String → Db → Db
forget_unit u db = record db {
  bindings = filter (λ b. not (b.work_unit_id == u)) db.bindings;
  unit_results = delete result_key u db.unit_results;
  backup_leases = delete backup_key u db.backup_leases;
}

abbrev pub fresh_row : String → WorkUnitSpec → Bool → ℕ → WorkUnit
fresh_row job_id u is_done now = record {
  work_unit_id = u.work_unit_id;
  job_id = job_id;
  idx = u.idx;
  input_ref = u.input_ref;
  est_duration = u.est_duration;
  state = if is_done then WorkUnitState.done else WorkUnitState.pending;
  attempts = 0;
  lease_agent = none;
  lease_expires = none;
  created_at = now;
}

unfoldable pub replace_row : WorkUnit → WorkUnit → WorkUnit
replace_row new w = if w.work_unit_id == new.work_unit_id then new else w

-- UPSERT_WORK_UNIT.
unfoldable pub upsert_unit : WorkUnit → Db → Db
unfolding replace_row
upsert_unit new db =
    if has unit_key new.work_unit_id db.work_units
    then record db { work_units = map (replace_row new) db.work_units }
    else record db { work_units = db.work_units ++ new ∷ [] }

abbrev pub membership_row : String → WorkUnitSpec → Option String → Membership
membership_row job_id u found = record {
  job_id = job_id;
  work_unit_id = u.work_unit_id;
  idx = u.idx;
  input_ref = u.input_ref;
  terminal_state = if is_some found then some WorkUnitState.done else none;
  result_status = if is_some found then some WorkResultStatus.succeeded else none;
  result_ref = found;
}

-- The body of the loop over the units; `found` is the unit's entry in `deduped`.
unfoldable pub attach_unit : String → ℕ → WorkUnitSpec → Option String → Db → Db
unfolding snapshot_terminal_owner forget_unit upsert_unit
attach_unit job_id now u found db =
    let db1 = snapshot_terminal_owner u.work_unit_id db in
    let db2 = if is_some found then db1 else forget_unit u.work_unit_id db1 in
    let db3 = upsert_unit (fresh_row job_id u (is_some found) now) db2 in
    record db3 { memberships = db3.memberships ++ membership_row job_id u found ∷ [] }

unfoldable pub attach_units : String → ℕ → (String → Option String) → List WorkUnitSpec → Db → Db
unfolding attach_unit
attach_units job_id now deduped [] db = db
attach_units job_id now deduped (u ∷ us) db =
    attach_units job_id now deduped us (attach_unit job_id now u (deduped u.work_unit_id) db)

-- The submission behind the reuse test.
unfoldable pub insert_job : String → JobSubmit → List WorkUnitSpec → ℕ → Db → Db
unfolding attach_units succeeded_result recompute_job_state
insert_job job_id job units now db =
    let db1 = record db { jobs = db.jobs ++ job_row job_id job now ∷ [] } in
    recompute_job_state job_id (attach_units job_id now (succeeded_result db1) units db1)

pub data Submitted : Type 0 where
  submitted reused : String → Submitted
  -- ActiveWorkUnitConflictError, and the IntegrityError of a job id that is taken.
  active_conflict duplicate_job : Submitted

-- SELECT_ACTIVE_JOBS_FOR_UNITS, as a test on the jobs, so that each comes once.
unfoldable pub is_active_for : List WorkUnitSpec → Db → Job → Bool
is_active_for units db j =
    any
      (λ w.
        w.job_id == j.job_id
        && (is_pending w.state || is_leased w.state)
        && any (λ (u : WorkUnitSpec). u.work_unit_id == w.work_unit_id) units)
      db.work_units

unfoldable pub same_submission : JobSubmit → Job → Bool
same_submission job j =
    kind_eq j.kind job.kind
    && j.model_id == job.model_id
    && j.payload_ref == job.payload_ref
    && j.params_json == job.params_json
    && int_eq j.priority job.priority

pub data ActiveMatch : Type 0 where
  no_match conflict : ActiveMatch
  matched : String → ActiveMatch

-- The verdict on the rows: one job, and it is this submission's.
unfoldable pub judge : JobSubmit → List Job → ActiveMatch
unfolding same_submission
judge job [] = no_match
judge job (j ∷ []) = if same_submission job j then matched j.job_id else conflict
judge job (j ∷ k ∷ js) = conflict

unfoldable pub matching_active_job : JobSubmit → List WorkUnitSpec → Db → ActiveMatch
unfolding judge is_active_for
matching_active_job job [] db = no_match
matching_active_job job (u ∷ us) db = judge job (filter (is_active_for (u ∷ us) db) db.jobs)

abbrev pub insert_new : String → JobSubmit → List WorkUnitSpec → ℕ → Db → Db × Submitted
insert_new job_id job units now db =
    if is_some (job_of job_id db)
    then (db, duplicate_job)
    else (insert_job job_id job units now db, submitted job_id)

unfoldable pub submit_job : String → JobSubmit → List WorkUnitSpec → Bool → ℕ → Db → Db × Submitted
unfolding unique_units matching_active_job insert_job
submit_job job_id job units reuse_active now db =
    let unique = unique_units [] units in
    if reuse_active
    then elim (matching_active_job job unique db) [
      | no_match ↦ insert_new job_id job unique now db
      | conflict ↦ (db, active_conflict)
      | matched j ↦ (db, reused j)
    ]
    else insert_new job_id job unique now db
