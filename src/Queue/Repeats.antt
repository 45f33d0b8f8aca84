-- ===== src/Queue/Repeats.antt =====
-- What an accepted completion leaves behind, and that repeating it is harmless.

use mathlib.Core.Option.{some-injective}
use fallow.Prelude.{
  ℕ, ◌≡◌, ◌≢◌, refl, sym, ◌∙◌, ap, subst, ◌⊎◌, true, false, some, String, arith, if◌then◌else◌,
  Bool-cases, inl, inr, Option-cases,
}
use fallow.Prelude.Eq.{String_eq, ℕ_eq, Option_eq, ==_iff, ==_refl}
use fallow.Prelude.Table.{lookup-key}
use fallow.Queue.Rows.{
  WorkUnitState, WorkResultStatus, succeeded, failed, WorkUnit, WorkResult, Db, unit_key, status_eq,
}
use fallow.Queue.Tables.{unit_of, result_of, result_exists, done_row, insert_result, set_job_state}
use fallow.Queue.Status.{recompute_job_state}
use fallow.Queue.Backup.{backup_holder_exists}
use fallow.Queue.Complete.{result_row, finalize, complete_unit, matching_completion, refused}
use fallow.Queue.Completion.{HoldsLease, HoldsBackup, complete_unit-authorised}
use fallow.Queue.Invariant.Finals.{unit_of-finalize, result_of-finalize, done_row-other}

pub done_row_lem :
    (w : WorkUnit) (u : String)
    → w.work_unit_id ≡ u
    → done_row u w ≡ record w { state = WorkUnitState.done }
unfolding done_row
done_row_lem w u e = ground (arith, ==_iff w.work_unit_id u)

status_refl : (s : WorkResultStatus) → status_eq s s ≡ true
status_refl succeeded = refl
status_refl failed = refl

backup_holder_exists-finalize :
    (w : WorkUnit) (agent : String) (now : ℕ) (r : WorkResult) (db : Db) (u a : String) (n : ℕ)
    → backup_holder_exists u a n (finalize w agent now r db) ≡ backup_holder_exists u a n db
unfolding finalize insert_result recompute_job_state set_job_state backup_holder_exists
backup_holder_exists-finalize w agent now r db u a n = ground arith

-- What an accepted completion of a unit without a result does.
pub record IsCompleted (agent : String) (now : ℕ) (r : WorkResult) (w : WorkUnit) (db db' : Db)
    : Type 0 where
  pub marked : unit_of r.work_unit_id db' ≡ some (record w { state = WorkUnitState.done })
  pub stored : result_of r.work_unit_id db' ≡ some (result_row r agent now)
  pub other_units : (u : String) → u ≢ r.work_unit_id → unit_of u db' ≡ unit_of u db
  pub other_results : (u : String) → u ≢ r.work_unit_id → result_of u db' ≡ result_of u db

finalize-IsCompleted :
    (w : WorkUnit) (agent : String) (now : ℕ) (r : WorkResult) (db : Db)
    → unit_of r.work_unit_id db ≡ some w
    → result_exists r.work_unit_id db ≡ false
    → IsCompleted agent now r w db (finalize w agent now r db)
finalize-IsCompleted w agent now r db found fresh =
    let key : w.work_unit_id ≡ r.work_unit_id = lookup-key unit_key _ db.work_units found in
    record {
      marked =
          rw (unit_of-finalize w agent now r db r.work_unit_id, found)
            (ap some (done_row_lem w r.work_unit_id key));
      stored =
          rw (result_of-finalize w agent now r db r.work_unit_id fresh, ==_refl r.work_unit_id);
      other_units = λ u ne. rw (unit_of-finalize w agent now r db u) (
          done_row-other r.work_unit_id u (unit_of u db) (λ x. lookup-key unit_key u db.work_units)
            (ground (arith, ne, ==_iff r.work_unit_id u)));
      other_results = λ u ne.
          rw (result_of-finalize w agent now r db u fresh)
            (ground (arith, ne, ==_iff r.work_unit_id u));
    }

pub accepted-finalize :
    (agent : String) (attempt : ℕ) (r : WorkResult) (now : ℕ) (db : Db) (w : WorkUnit)
    → unit_of r.work_unit_id db ≡ some w
    → result_exists r.work_unit_id db ≡ false
    → (complete_unit agent attempt r now db).value ≡ true
    → (complete_unit agent attempt r now db).db ≡ finalize w agent now r db
unfolding complete_unit
accepted-finalize agent attempt r now db w found fresh h = ground (arith, found, fresh, h)

-- An accepted completion of a unit that has no result marks the unit done, stores the result under
-- the caller's name, and leaves every other unit and every other result as they were.
pub complete_unit-IsCompleted :
    (agent : String) (attempt : ℕ) (r : WorkResult) (now : ℕ) (db : Db) (w : WorkUnit)
    → unit_of r.work_unit_id db ≡ some w
    → result_exists r.work_unit_id db ≡ false
    → (complete_unit agent attempt r now db).value ≡ true
    → IsCompleted agent now r w db (complete_unit agent attempt r now db).db
complete_unit-IsCompleted agent attempt r now db w found fresh h =
    rw (accepted-finalize agent attempt r now db w found fresh h)
      (finalize-IsCompleted w agent now r db found fresh)

matching_own :
    (agent : String) (attempt : ℕ) (r : WorkResult) (now : ℕ) (w : WorkUnit) (db : Db)
    → result_of r.work_unit_id db ≡ some (result_row r agent now)
    → unit_of r.work_unit_id db ≡ some (record w { state = WorkUnitState.done })
    → HoldsLease agent attempt w
    → matching_completion agent attempt r db ≡ true
unfolding matching_completion
matching_own agent attempt r now w db stored marked h = ground (
  arith,
  stored,
  marked,
  h,
  status_refl r.status,
  ==_refl r.result_ref,
  ==_refl r.error,
  ==_refl r.metrics_json,
  ==_refl agent,
  ==_iff w.lease_agent (some agent),
  ==_iff w.attempts attempt,
)

-- The answer to a completion of a unit that has a result already.
pub complete_unit-again :
    (agent : String) (attempt : ℕ) (r : WorkResult) (now : ℕ) (db : Db) (w : WorkUnit)
    → unit_of r.work_unit_id db ≡ some w
    → result_exists r.work_unit_id db ≡ true
    → complete_unit agent attempt r now db
      ≡ refused
          (if matching_completion agent attempt r db
            then true
            else backup_holder_exists r.work_unit_id agent attempt db)
          db
unfolding complete_unit
complete_unit-again agent attempt r now db w found there = rw (found, complete_unit, there)

entitled_again :
    (agent : String) (attempt : ℕ) (r : WorkResult) (now : ℕ) (w : WorkUnit) (db db' : Db)
    → result_of r.work_unit_id db' ≡ some (result_row r agent now)
    → unit_of r.work_unit_id db' ≡ some (record w { state = WorkUnitState.done })
    → w.work_unit_id ≡ r.work_unit_id
    → backup_holder_exists r.work_unit_id agent attempt db'
      ≡ backup_holder_exists r.work_unit_id agent attempt db
    → HoldsLease agent attempt w ⊎ HoldsBackup agent attempt w db
    → (if matching_completion agent attempt r db'
        then true
        else backup_holder_exists r.work_unit_id agent attempt db')
      ≡ true
entitled_again agent attempt r now w db db' stored marked key same (inl h) =
    rw (matching_own agent attempt r now w db' stored marked h)
entitled_again agent attempt r now w db db' stored marked key same (inr h) =
    let held : backup_holder_exists r.work_unit_id agent attempt db ≡ true =
      subst (λ u. backup_holder_exists u agent attempt db ≡ true) key h.backup in
    ground (arith, same, held)

-- A completion that was accepted, sent again as the very next call on the store, is accepted and
-- then changes nothing and announces nothing, whatever the clock says: an agent that lost the answer
-- may send its result once more.
pub complete_unit_twice :
    (agent : String) (attempt : ℕ) (r : WorkResult) (now later : ℕ) (db : Db)
    → (complete_unit agent attempt r now db).value ≡ true
    → let db' = (complete_unit agent attempt r now db).db in
      complete_unit agent attempt r later db' ≡ refused true db'
complete_unit_twice agent attempt r now later db h =
    elim (Option-cases (unit_of r.work_unit_id db)) [
      | inl e ↦ absurd (unfold complete_unit in ground (arith, e, h))
      | inr (w, e) ↦ elim (Bool-cases (result_exists r.work_unit_id db)) [
        | inl there ↦
            let again = complete_unit-again agent attempt r later db w e there in
            let first = complete_unit-again agent attempt r now db w e there in
            rw first (again ∙ ap (λ b. refused b db) (rw first at h))
        | inr fresh ↦
            let db' = (complete_unit agent attempt r now db).db in
            let c = complete_unit-IsCompleted agent attempt r now db w e fresh h in
            let key : w.work_unit_id ≡ r.work_unit_id = lookup-key unit_key _ db.work_units e in
            let same : backup_holder_exists r.work_unit_id agent attempt db'
                ≡ backup_holder_exists r.work_unit_id agent attempt db =
              rw (accepted-finalize agent attempt r now db w e fresh h)
                (backup_holder_exists-finalize w agent now r db r.work_unit_id agent attempt) in
            complete_unit-again agent attempt r later db' _ c.marked (rw c.stored)
            ∙ ap (λ b. refused b db')
                (entitled_again agent attempt r now w db db' c.stored c.marked key same
                  (entitled e fresh))
      ]
    ]
  where
    entitled :
        {w : WorkUnit}
        → unit_of r.work_unit_id db ≡ some w
        → result_exists r.work_unit_id db ≡ false
        → HoldsLease agent attempt w ⊎ HoldsBackup agent attempt w db
    entitled {w = w} e fresh =
        let a = complete_unit-authorised agent attempt r now db fresh h in
        subst (λ x. HoldsLease agent attempt x ⊎ HoldsBackup agent attempt x db)
          (some-injective _ _ (sym a.1 ∙ e)) a.2
