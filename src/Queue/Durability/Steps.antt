-- ===== src/Queue/Durability/Steps.antt =====
-- Completion and submission keep every stored success; so does every history of calls.

use fallow.Prelude.{
  ℕ, ◌≡◌, refl, sym, subst, Bool, true, false, not, Option, none, some, String, List, [], ◌∷◌, ◌++◌,
  arith, if◌then◌else◌, is_some, any, filter, Bool-cases, inl, inr, Option-cases,
}
use fallow.Prelude.Eq.{◌==◌, String_eq, ==_iff}
use fallow.Queue.Rows.{
  WorkUnit, UnitResult, WorkResult, Binding, Db, Config, WorkUnitSpec, JobSubmit,
}
use fallow.Queue.Tables.{
  unit_of, result_of, result_exists, succeeded_result, set_job_state, insert_result,
}
use fallow.Queue.Status.{recompute_job_state, mark_job_finalized, insert_finalization}
use fallow.Queue.Requeue.{requeue_expired, requeue_agent, expired, held_by}
use fallow.Queue.Complete.{complete_unit, finalize}
use fallow.Queue.Submit.{
  submit_job, insert_job, attach_units, attach_unit, forget_unit, upsert_unit,
  snapshot_terminal_owner, upsert_membership, unique_units, job_row,
}
use fallow.Queue.Invariant.Finals.{result_of-finalize}
use fallow.Queue.Invariant.Submits.{result_of-attach}
use fallow.Queue.Runs.{
  Call, submit, lease, extend, backup, bind, complete, expire, drop_agent, mark_final, step, run,
}
use fallow.Queue.Durability.{
  any-filter, Lasts, Lasts-same, succeeded-more, requeue-Lasts, lease_next-Lasts,
  extend_leases-Lasts, lease_backup-Lasts, bind-Lasts,
}

bindings-finalize :
    (w : WorkUnit) (agent : String) (now : ℕ) (r : WorkResult) (db : Db)
    → (finalize w agent now r db).bindings ≡ db.bindings
unfolding finalize insert_result recompute_job_state set_job_state
bindings-finalize w agent now r db = ground arith

-- A result that is there is not the one that is being stored.
result-finalize :
    (w : WorkUnit) (agent : String) (now : ℕ) (r : WorkResult) (db : Db) (u : String)
    (old : UnitResult)
    → result_exists r.work_unit_id db ≡ false
    → result_of u db ≡ some old
    → result_of u (finalize w agent now r db) ≡ some old
result-finalize w agent now r db u old fresh there =
    rw (result_of-finalize w agent now r db u fresh) (elim (Bool-cases (r.work_unit_id == u)) [
      | inl e ↦
          let gone : result_exists u db ≡ false =
            subst (λ k. result_exists k db ≡ false) ((==_iff _ _).0 e) fresh in
          absurd (ground (arith, gone, there))
      | inr e ↦ rw e there
    ])

complete_unit-Lasts :
    (agent : String) (attempt : ℕ) (r : WorkResult) (now : ℕ) (db : Db)
    → Lasts db (complete_unit agent attempt r now db).db
complete_unit-Lasts agent attempt r now db u ref h =
    succeeded-more db _ u ref (λ old e. same e) (λ p f k. kept p k) h
  where
    same :
        {old : UnitResult}
        → result_of u db ≡ some old
        → result_of u (complete_unit agent attempt r now db).db ≡ some old
    same {old = old} e = elim (Option-cases (unit_of r.work_unit_id db)) [
      | inl p ↦ unfold complete_unit in ground (arith, p, e)
      | inr (w, p) ↦
          unfold complete_unit in ground (arith, p, e, result-finalize w agent now r db u old)
    ]

    kept :
        (p : Binding → Bool)
        → any p db.bindings ≡ true
        → any p (complete_unit agent attempt r now db).db.bindings ≡ true
    kept p k = elim (Option-cases (unit_of r.work_unit_id db)) [
      | inl q ↦ unfold complete_unit in ground (arith, q, k)
      | inr (w, q) ↦
          unfold complete_unit in ground (arith, q, k, bindings-finalize w agent now r db)
    ]

bindings-snapshot : (u : String) (db : Db) → (snapshot_terminal_owner u db).bindings ≡ db.bindings
unfolding snapshot_terminal_owner upsert_membership
bindings-snapshot u db = ground arith

bindings-upsert : (new : WorkUnit) (db : Db) → (upsert_unit new db).bindings ≡ db.bindings
unfolding upsert_unit
bindings-upsert new db = ground arith

bindings-attach :
    (job : String) (now : ℕ) (v : WorkUnitSpec) (found : Option String) (db : Db)
    → (attach_unit job now v found db).bindings ≡ (
        if is_some found
        then db.bindings
        else filter (λ b. not (b.work_unit_id == v.work_unit_id)) db.bindings)
unfolding attach_unit forget_unit
bindings-attach job now v none db = rw (bindings-upsert, bindings-snapshot)
bindings-attach job now v (some ref) db = rw (bindings-upsert, bindings-snapshot)

-- A unit's turn in a submission keeps the successes of the units that are not started afresh.
attach_unit-lasts :
    (job : String) (now : ℕ) (v : WorkUnitSpec) (found : Option String) (db : Db) (u ref : String)
    → (v.work_unit_id ≡ u → is_some found ≡ true)
    → succeeded_result db u ≡ some ref
    → succeeded_result (attach_unit job now v found db) u ≡ some ref
attach_unit-lasts job now v found db u ref spared h =
    succeeded-more db _ u ref
      (λ old e.
        rw (result_of-attach job now v found db u)
          (ground (arith, e, spared, ==_iff v.work_unit_id u)))
      (λ p f k. rw (bindings-attach job now v found db) (elim (Bool-cases (is_some found)) [
        | inl e ↦ rw e k
        | inr e ↦ rw e (
            any-filter p _ db.bindings
              (λ b pb. ground (arith, e, f b pb, spared, ==_iff b.work_unit_id v.work_unit_id)) k)
      ]))
      h

attach_units-lasts :
    (job : String) (now : ℕ) (deduped : String → Option String) (vs : List WorkUnitSpec) (db : Db)
    (u ref : String)
    → deduped u ≡ some ref
    → succeeded_result db u ≡ some ref
    → succeeded_result (attach_units job now deduped vs db) u ≡ some ref
unfolding attach_units
attach_units-lasts job now deduped [] db u ref d h = h
attach_units-lasts job now deduped (v ∷ vs) db u ref d h =
    attach_units-lasts job now deduped vs _ u ref d (
      attach_unit-lasts job now v (deduped v.work_unit_id) db u ref
        (λ e. subst (λ k. is_some (deduped k) ≡ true) (sym e) (rw d)) h)

insert_job-Lasts :
    (job_id : String) (job : JobSubmit) (us : List WorkUnitSpec) (now : ℕ) (db : Db)
    → Lasts db (insert_job job_id job us now db)
unfolding insert_job recompute_job_state set_job_state
insert_job-Lasts job_id job us now db u ref h =
    let db1 = record db { jobs = db.jobs ++ job_row job_id job now ∷ [] } in
    let start : succeeded_result db1 u ≡ some ref = Lasts-same db db1 refl refl u ref h in
    Lasts-same (attach_units job_id now (succeeded_result db1) us db1)
      (recompute_job_state job_id (attach_units job_id now (succeeded_result db1) us db1)) refl refl
      u ref (attach_units-lasts job_id now (succeeded_result db1) us db1 u ref start start)

submit_job-Lasts :
    (job_id : String) (job : JobSubmit) (us : List WorkUnitSpec) (reuse : Bool) (now : ℕ) (db : Db)
    → Lasts db (submit_job job_id job us reuse now db).0
unfolding submit_job
submit_job-Lasts job_id job us reuse now db u ref h =
    ground (arith, h, insert_job-Lasts job_id job (unique_units [] us) now db u ref h)

mark_job_finalized-Lasts :
    (job : String) (items : ℕ) (db : Db) → Lasts db (mark_job_finalized job items db).0
unfolding mark_job_finalized insert_finalization
mark_job_finalized-Lasts job items db = Lasts-same db _ (ground arith) (ground arith)

step-Lasts : (cfg : Config) (c : Call) (db : Db) → Lasts db (step cfg db c)
unfolding step requeue_expired requeue_agent
step-Lasts cfg (submit id job us reuse now) db = submit_job-Lasts id job us reuse now db
step-Lasts cfg (lease agent models now) db = lease_next-Lasts cfg agent models now db
step-Lasts cfg (extend agent us now) db = extend_leases-Lasts cfg agent us now db
step-Lasts cfg (backup agent u now) db = lease_backup-Lasts cfg agent u now db
step-Lasts cfg (bind b) db = bind-Lasts b db
step-Lasts cfg (complete agent attempt r now) db = complete_unit-Lasts agent attempt r now db
step-Lasts cfg (expire now) db = requeue-Lasts cfg (expired now) now db
step-Lasts cfg (drop_agent agent now) db = requeue-Lasts cfg (held_by agent) now db
step-Lasts cfg (mark_final job items) db = mark_job_finalized-Lasts job items db

-- Once the store holds a successful result of a unit with its payload bound, the unit has that same
-- result reference after every further history of calls: retries, sweeps, other agents' results
-- and resubmissions of the unit included.
pub run-Lasts :
    (cfg : Config) (calls : List Call) (db : Db) (u ref : String)
    → succeeded_result db u ≡ some ref
    → succeeded_result (run cfg db calls) u ≡ some ref
unfolding run
run-Lasts cfg [] db u ref h = h
run-Lasts cfg (c ∷ calls) db u ref h =
    run-Lasts cfg calls (step cfg db c) u ref (step-Lasts cfg c db u ref h)
