-- ===== src/Queue/Runs.antt =====
-- Histories of the store: any sequence of calls, in the order in which the store's lock admits them.
use fallow.Prelude.{ℕ, ◌<◌, refl, Bool, String, List, [], ◌∷◌, arith}
use fallow.Prelude.Table.{lookup}
use fallow.Queue.Rows.{Db, Config, JobSubmit, WorkUnitSpec, WorkResult, Binding}
use fallow.Queue.Status.{mark_job_finalized, insert_finalization}
use fallow.Queue.Lease.{lease_next, extend_leases}
use fallow.Queue.Requeue.{requeue_expired, requeue_agent}
use fallow.Queue.Backup.{lease_backup, bind_result_payload}
use fallow.Queue.Complete.{complete_unit}
use fallow.Queue.Submit.{submit_job}
use fallow.Queue.Invariant.Rows.{IsValid}
use fallow.Queue.Invariant.Moves.{
  lease_next-IsValid, extend_leases-IsValid, requeue-IsValid, lease_backup-IsValid,
  bind_result_payload-IsValid, expired-SelectsLeased, held_by-SelectsLeased,
}
use fallow.Queue.Invariant.Finals.{complete_unit-IsValid}
use fallow.Queue.Invariant.Submits.{submit_job-IsValid}

-- The calls that change state, with the time at which each is made.
pub data Call : Type 0 where
  submit : String → JobSubmit → List WorkUnitSpec → Bool → ℕ → Call
  lease : String → List String → ℕ → Call
  extend : String → List String → ℕ → Call
  backup : String → String → ℕ → Call
  bind : Binding → Call
  complete : String → ℕ → WorkResult → ℕ → Call
  expire : ℕ → Call
  drop_agent : String → ℕ → Call
  mark_final : String → ℕ → Call

unfoldable pub step : Config → Db → Call → Db
unfolding submit_job lease_next extend_leases lease_backup bind_result_payload complete_unit
    requeue_expired requeue_agent mark_job_finalized
step cfg db (submit id job us reuse now) = (submit_job id job us reuse now db).0
step cfg db (lease agent models now) = (lease_next cfg agent models now db).db
step cfg db (extend agent us now) = extend_leases cfg agent us now db
step cfg db (backup agent u now) = (lease_backup cfg agent u now db).0
step cfg db (bind b) = (bind_result_payload b db).0
step cfg db (complete agent attempt r now) = (complete_unit agent attempt r now db).db
step cfg db (expire now) = (requeue_expired cfg now db).db
step cfg db (drop_agent agent now) = (requeue_agent cfg agent now db).db
step cfg db (mark_final job items) = (mark_job_finalized job items db).0

unfoldable pub run : Config → Db → List Call → Db
unfolding step
run cfg db [] = db
run cfg db (c ∷ cs) = run cfg (step cfg db c) cs

-- The store as its schema creates it.
abbrev pub empty : Db
empty = record {
  jobs = [];
  work_units = [];
  unit_results = [];
  bindings = [];
  memberships = [];
  finalizations = [];
  backup_leases = [];
}

mark_job_finalized-IsValid :
    (cfg : Config) (job : String) (items : ℕ) (db : Db)
    → IsValid cfg db
    → IsValid cfg (mark_job_finalized job items db).0
unfolding mark_job_finalized insert_finalization
mark_job_finalized-IsValid cfg job items db v = ground (arith, v)

module _ (cfg : Config) (some_attempt : 0 < cfg.max_attempts) where
  pub step-IsValid : (c : Call) (db : Db) → IsValid cfg db → IsValid cfg (step cfg db c)
  unfolding step requeue_expired requeue_agent
  step-IsValid (submit id job us reuse now) db v =
      submit_job-IsValid cfg some_attempt id job us reuse now db v
  step-IsValid (lease agent models now) db v = lease_next-IsValid cfg agent models now db v
  step-IsValid (extend agent us now) db v = extend_leases-IsValid cfg agent us now db v
  step-IsValid (backup agent u now) db v = lease_backup-IsValid cfg agent u now db v
  step-IsValid (bind b) db v = bind_result_payload-IsValid cfg b db v
  step-IsValid (complete agent attempt r now) db v =
      complete_unit-IsValid cfg agent attempt r now db v
  step-IsValid (expire now) db v = requeue-IsValid cfg _ (expired-SelectsLeased now) now db v
  step-IsValid (drop_agent agent now) db v =
      requeue-IsValid cfg _ (held_by-SelectsLeased agent) now db v
  step-IsValid (mark_final job items) db v = mark_job_finalized-IsValid cfg job items db v

  run-keeps-IsValid : (cs : List Call) (db : Db) → IsValid cfg db → IsValid cfg (run cfg db cs)
  unfolding run
  run-keeps-IsValid [] db v = v
  run-keeps-IsValid (c ∷ cs) db v = run-keeps-IsValid cs (step cfg db c) (step-IsValid c db v)

-- Whatever calls are made on a new store with a budget of at least one attempt, and in whatever
-- order: ids stay unique in the unit and result tables, no unit is leased more often than the
-- budget allows, pending units have an attempt left, leased units name a holder and an expiry, dead
-- units have used the whole budget, and a unit has a stored result exactly when it is done.
pub run-IsValid :
    (cfg : Config) (calls : List Call) → 0 < cfg.max_attempts → IsValid cfg (run cfg empty calls)
run-IsValid cfg calls h = run-keeps-IsValid cfg h calls empty empty-IsValid
  where
    empty-IsValid : IsValid cfg empty
    empty-IsValid = record {
      units = tt;
      units_keyed = tt;
      results_keyed = tt;
      final = λ u. unfold lookup in refl;
    }
