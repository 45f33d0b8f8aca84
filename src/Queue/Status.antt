-- ===== src/Queue/Status.antt =====
-- queue/_jobstate.py, and the status part of queue/store.py: unit counts, the job's state derived
-- from them, and the finalization marker.
use fallow.Prelude.{
  is_some, ℕ, ◌+◌, ◌&&◌, ◌||◌, Option, none, some, String, [], ◌∷◌, ◌++◌, ltb, if◌then◌else◌,
  length, count,
}
use fallow.Prelude.Eq.{◌==◌, String_eq, ℕ_eq}
use fallow.Prelude.Table.{lookup}
use fallow.Queue.Rows.{
  JobState, WorkUnitState, WorkResultStatus, Db, is_pending, is_leased, is_done, is_dead,
  finalization_key,
}
use fallow.Queue.Tables.{job_of, members, member_state, holds, set_job_state}

pub record UnitCounts : Type 0 where
  pub total : ℕ
  pub pending : ℕ
  pub leased : ℕ
  pub done : ℕ
  pub dead : ℕ

-- `_unit_counts`: COUNT_JOB_UNITS.
unfoldable pub unit_counts : String → Db → UnitCounts
unit_counts job db = record {
  total = length (members job db);
  pending = count (λ m. holds is_pending (member_state db m)) (members job db);
  leased = count (λ m. holds is_leased (member_state db m)) (members job db);
  done = count (λ m. holds is_done (member_state db m)) (members job db);
  dead = count (λ m. holds is_dead (member_state db m)) (members job db);
}

unfoldable pub next_job_state : UnitCounts → JobState
next_job_state counts =
    if counts.total == 0 || (counts.pending == 0 && counts.leased == 0)
    then JobState.done
    else if ltb 0 (counts.done + counts.dead + counts.leased)
    then JobState.running
    else JobState.pending

unfoldable pub recompute_job_state : String → Db → Db
recompute_job_state job db = set_job_state (next_job_state (unit_counts job db)) job db

pub record JobStatus : Type 0 where
  pub job_id : String
  pub state : JobState
  pub total_units : ℕ
  pub done_units : ℕ
  pub dead_units : ℕ

unfoldable pub job_status : String → Db → Option JobStatus
job_status job db = elim (job_of job db) [
  | none ↦ none
  | some row ↦
      let counts = unit_counts job db in
      some (record {
        job_id = job;
        state = row.state;
        total_units = counts.total;
        done_units = counts.done;
        dead_units = counts.dead;
      })
]

pub record JobUnitOutcome : Type 0 where
  pub work_unit_id : String
  pub idx : ℕ
  pub input_ref : String
  pub state : Option WorkUnitState
  pub result_status : Option WorkResultStatus
  pub result_ref : Option String

-- `job_finalization`: SELECT_JOB_FINALIZATION.
unfoldable pub job_finalization : String → Db → Option ℕ
job_finalization job db = elim (lookup finalization_key job db.finalizations) [
  | none ↦ none
  | some f ↦ some f.indexed_items
]

-- INSERT_JOB_FINALIZATION: the first marker stays, and the foreign key keeps out the marker of a job
-- that does not exist.
unfoldable pub insert_finalization : String → ℕ → Db → Db
insert_finalization job items db = elim (lookup finalization_key job db.finalizations) [
  | none ↦
      if is_some (job_of job db)
      then record db {
        finalizations = db.finalizations ++ record { job_id = job; indexed_items = items } ∷ [];
      }
      else db
  | some f ↦ db
]

-- `mark_job_finalized` returns what the marker holds after the insert, and none for the
-- IntegrityError of a job that does not exist; the refusal of a negative count has no case here.
unfoldable pub mark_job_finalized : String → ℕ → Db → Db × Option ℕ
unfolding insert_finalization job_finalization
mark_job_finalized job items db =
    let db' = insert_finalization job items db in (db', job_finalization job db')
