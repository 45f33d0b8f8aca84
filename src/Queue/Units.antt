-- ===== src/Queue/Units.antt =====
-- How the statements act on the row of one unit: equations on `unit_of` and on the results.
use mathlib.Core.Option
use fallow.Prelude.{ℕ, ◌≡◌, refl, Bool, String, List, [], ◌∷◌, map, arith}
use fallow.Prelude.Eq.{String_eq, ==_iff}
use fallow.Prelude.Table.{lookup, lookup-map}
use fallow.Queue.Rows.{WorkUnitState, WorkUnit, UnitTransition, Db, Config, unit_key}
use fallow.Queue.Tables.{claim_row, extend_row, done_row, set_job_state}
use fallow.Queue.Status.{recompute_job_state}
use fallow.Queue.Requeue.{
  branch_row, mark_dead, recompute_jobs, requeue, run_requeue_branch, retry, give_up,
}
use fallow.Queue.Submit.{replace_row}

-- An update of rows that keeps the ids.
abbrev pub KeepsId : (WorkUnit → WorkUnit) → Type 0
KeepsId g = (w : WorkUnit) → (g w).work_unit_id ≡ w.work_unit_id

pub claim_row-KeepsId : (agent : String) (t : ℕ) (u : String) → KeepsId (claim_row agent t u)
unfolding claim_row
claim_row-KeepsId agent t u w = ground arith

pub extend_row-KeepsId :
    (agent : String) (t : ℕ) (us : List String) → KeepsId (extend_row agent t us)
unfolding extend_row
extend_row-KeepsId agent t us w = ground arith

pub done_row-KeepsId : (u : String) → KeepsId (done_row u)
unfolding done_row
done_row-KeepsId u w = ground arith

pub branch_row-KeepsId : (test : WorkUnit → Bool) (s : WorkUnitState) → KeepsId (branch_row test s)
unfolding branch_row
branch_row-KeepsId test s w = ground arith

pub replace_row-KeepsId : (new : WorkUnit) → KeepsId (replace_row new)
unfolding replace_row
replace_row-KeepsId new w = ground (arith, ==_iff w.work_unit_id new.work_unit_id)

-- The row of a unit after an update of the table.
pub unit_of-map :
    (g : WorkUnit → WorkUnit)
    → KeepsId g
    → (u : String) (ws : List WorkUnit)
    → lookup unit_key u (map g ws) ≡ Option.map g (lookup unit_key u ws)
unit_of-map g keeps u ws = lookup-map unit_key g keeps u ws

-- Recomputing a job's state touches the jobs alone.
pub work_units-recompute :
    (job : String) (db : Db) → (recompute_job_state job db).work_units ≡ db.work_units
unfolding recompute_job_state set_job_state
work_units-recompute job db = refl

pub unit_results-recompute :
    (job : String) (db : Db) → (recompute_job_state job db).unit_results ≡ db.unit_results
unfolding recompute_job_state set_job_state
unit_results-recompute job db = refl

pub work_units-recompute_jobs :
    (ts : List UnitTransition) (db : Db) → (recompute_jobs ts db).work_units ≡ db.work_units
unfolding recompute_jobs recompute_job_state set_job_state
work_units-recompute_jobs [] db = refl
work_units-recompute_jobs (t ∷ ts) db =
    work_units-recompute_jobs ts (recompute_job_state t.job_id db)

pub unit_results-recompute_jobs :
    (ts : List UnitTransition) (db : Db) → (recompute_jobs ts db).unit_results ≡ db.unit_results
unfolding recompute_jobs recompute_job_state set_job_state
unit_results-recompute_jobs [] db = refl
unit_results-recompute_jobs (t ∷ ts) db =
    unit_results-recompute_jobs ts (recompute_job_state t.job_id db)

pub work_units-mark_dead :
    (ts : List UnitTransition) (db : Db) → (mark_dead ts db).work_units ≡ db.work_units
unfolding mark_dead
work_units-mark_dead [] db = refl
work_units-mark_dead (t ∷ ts) db = work_units-mark_dead ts _

pub unit_results-mark_dead :
    (ts : List UnitTransition) (db : Db) → (mark_dead ts db).unit_results ≡ db.unit_results
unfolding mark_dead
unit_results-mark_dead [] db = refl
unit_results-mark_dead (t ∷ ts) db = unit_results-mark_dead ts _

-- The two updates of a requeue, one after the other.
abbrev pub requeue_row : Config → (WorkUnit → Bool) → WorkUnit → WorkUnit
requeue_row cfg selects w =
    branch_row (give_up cfg selects) WorkUnitState.dead
      (branch_row (retry cfg selects) WorkUnitState.pending w)

pub work_units-requeue :
    (cfg : Config) (selects : WorkUnit → Bool) (at : ℕ) (db : Db)
    → (requeue cfg selects at db).0.work_units ≡ map (requeue_row cfg selects) db.work_units
unfolding requeue run_requeue_branch
work_units-requeue cfg selects at db =
    simp (work_units-recompute_jobs, work_units-mark_dead) (map-map' db.work_units)
  where
    map-map' :
        (ws : List WorkUnit)
        → map
            (branch_row (give_up cfg selects) WorkUnitState.dead)
            (map (branch_row (retry cfg selects) WorkUnitState.pending) ws)
          ≡ map (requeue_row cfg selects) ws
    map-map' [] = refl
    map-map' (w ∷ ws) = rw (map-map' ws)

pub unit_results-requeue :
    (cfg : Config) (selects : WorkUnit → Bool) (at : ℕ) (db : Db)
    → (requeue cfg selects at db).0.unit_results ≡ db.unit_results
unfolding requeue run_requeue_branch
unit_results-requeue cfg selects at db = simp (unit_results-recompute_jobs, unit_results-mark_dead)
