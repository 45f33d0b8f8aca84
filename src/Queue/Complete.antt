-- ===== src/Queue/Complete.antt =====
-- The completion part of queue/store.py: the first accepted result finalizes a unit.
use fallow.Prelude.{
  ℕ, Bool, true, false, not, ◌&&◌, ◌||◌, Option, none, some, String, [], ◌∷◌, map, if◌then◌else◌,
}
use fallow.Prelude.Eq.{◌==◌, String_eq, Option_eq, ℕ_eq, Pair_eq}
use fallow.Prelude.Table.{lookup}
use fallow.Queue.Rows.{
  WorkUnitState, WorkUnit, UnitResult, Db, Reply, WorkResult, is_pending, is_leased, status_eq,
  succeeded, binding_key,
}
use fallow.Queue.Tables.{unit_of, result_of, result_exists, insert_result, done_row, mark_terminal}
use fallow.Queue.Status.{recompute_job_state}
use fallow.Queue.Backup.{backup_holder_exists}

-- `result_row_params`.
abbrev pub result_row : WorkResult → String → ℕ → UnitResult
result_row r agent at = record {
  work_unit_id = r.work_unit_id;
  status = r.status;
  result_ref = r.result_ref;
  error = r.error;
  metrics_json = r.metrics_json;
  agent_id = agent;
  completed_at = at;
}

-- SELECT_MATCHING_COMPLETION: the stored result is this one, from this agent and lease attempt.
unfoldable pub matching_completion : String → ℕ → WorkResult → Db → Bool
matching_completion agent attempt r db = elim (result_of r.work_unit_id db) [
  | none ↦ false
  | some old ↦ elim (unit_of r.work_unit_id db) [
    | none ↦ false
    | some w ↦
        status_eq old.status r.status
        && old.result_ref == r.result_ref
        && old.error == r.error
        && old.metrics_json == r.metrics_json
        && old.agent_id == agent
        && w.lease_agent == some agent
        && w.attempts == attempt
  ]
]

-- `_completion_accepted`.
unfoldable pub completion_accepted : String → ℕ → WorkUnit → Bool
completion_accepted agent attempt w =
    is_leased w.state && w.lease_agent == some agent && w.attempts == attempt

-- `_result_binding_accepted`: SELECT_RESULT_BINDING_FOR_COMPLETION, by the bindings' primary key.
unfoldable pub result_binding_accepted : String → ℕ → WorkResult → Db → Bool
result_binding_accepted agent attempt r db =
    elim (lookup binding_key (r.work_unit_id, attempt) db.bindings) [
      | none ↦ false
      | some b ↦ b.agent_id == agent && some b.result_ref == r.result_ref
    ]

-- `_backup_role`.
unfoldable pub backup_role : String → String → ℕ → WorkUnit → Db → Bool
unfolding backup_holder_exists
backup_role u agent attempt w db =
    if is_leased w.state || is_pending w.state
    then backup_holder_exists u agent attempt db
    else false

-- `_backup_binding_accepted`.
unfoldable pub backup_binding_accepted : String → ℕ → WorkResult → Db → Bool
unfolding backup_holder_exists result_binding_accepted
backup_binding_accepted agent attempt r db =
    backup_holder_exists r.work_unit_id agent attempt db
    && result_binding_accepted agent attempt r db

-- The result's reference is kept in the membership only of a success.
abbrev pub kept_ref : WorkResult → Option String
kept_ref r = if status_eq r.status succeeded then r.result_ref else none

-- The writes of an accepted completion.
unfoldable pub finalize : WorkUnit → String → ℕ → WorkResult → Db → Db
unfolding insert_result done_row recompute_job_state
finalize w agent now r db =
    let db1 = insert_result (result_row r agent now) db in
    let db2 = record db1 { work_units = map (done_row r.work_unit_id) db1.work_units } in
    recompute_job_state w.job_id
      (mark_terminal w.job_id r.work_unit_id WorkUnitState.done (some r.status) (kept_ref r) db2)

abbrev pub refused : Bool → Db → Reply Bool
refused b db = record { db = db; value = b; emitted = [] }

-- The guards of `complete_unit` on a unit that has no result yet.
unfoldable pub may_finalize : WorkUnit → String → ℕ → WorkResult → Db → Bool
unfolding completion_accepted backup_role result_binding_accepted backup_binding_accepted
may_finalize w agent attempt r db =
    let is_primary = completion_accepted agent attempt w in
    let is_backup = not is_primary && backup_role r.work_unit_id agent attempt w db in
    let bound =
      if is_primary
      then result_binding_accepted agent attempt r db
      else backup_binding_accepted agent attempt r db in
    (is_primary || is_backup) && (not (status_eq r.status succeeded) || bound)

unfoldable pub complete_unit : String → ℕ → WorkResult → ℕ → Db → Reply Bool
unfolding matching_completion backup_holder_exists may_finalize finalize
complete_unit agent attempt r now db = elim (unit_of r.work_unit_id db) [
  | none ↦ refused false db
  | some w ↦
      if result_exists r.work_unit_id db
      then refused
          (if matching_completion agent attempt r db
            then true
            else backup_holder_exists r.work_unit_id agent attempt db)
          db
      else if may_finalize w agent attempt r db
      then record {
        db = finalize w agent now r db;
        value = true;
        emitted =
            record {
              work_unit_id = r.work_unit_id;
              job_id = w.job_id;
              agent_id = agent;
              attempt = w.attempts;
              state = WorkUnitState.done;
              at = now;
            }
            ∷ [];
      }
      else refused false db
]
