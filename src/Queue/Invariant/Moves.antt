-- ===== src/Queue/Invariant/Moves.antt =====
-- Leasing, extending, requeueing and backups keep the invariant.
use fallow.Prelude.{
  ℕ, ◌≡◌, refl, Bool, true, String, List, [], ◌∷◌, arith, inl, inr, Option-cases, map,
}
use fallow.Queue.Rows.{WorkUnitState, WorkUnit, Db, Config, Binding, is_done, is_leased}
use fallow.Queue.Tables.{claim_row, extend_row, insert_binding}
use fallow.Queue.Status.{recompute_job_state}
use fallow.Queue.Tables.{set_job_state}
use fallow.Queue.Lease.{
  Candidate, claim_unit, lease_candidate, lease_next, extend_leases, select_candidate, lease_expiry,
}
use fallow.Queue.Requeue.{branch_row, requeue, expired, held_by, set_unit_state}
use fallow.Queue.Backup.{lease_backup, insert_backup, bind_result_payload}
use fallow.Queue.Units.{
  KeepsId, claim_row-KeepsId, extend_row-KeepsId, requeue_row, work_units-requeue,
  unit_results-requeue,
}
use fallow.Queue.Invariant.Rows.{
  IsValid, map-IsValid, claim_row-UnitOk, extend_row-UnitOk, retry_row-UnitOk, give_up_row-UnitOk,
}

claim_row-is_done :
    (agent : String) (t : ℕ) (u : String) (w : WorkUnit)
    → is_done (claim_row agent t u w).state ≡ is_done w.state
unfolding claim_row
claim_row-is_done agent t u w = ground arith

extend_row-is_done :
    (agent : String) (t : ℕ) (us : List String) (w : WorkUnit)
    → is_done (extend_row agent t us w).state ≡ is_done w.state
unfolding extend_row
extend_row-is_done agent t us w = ground arith

-- A selector of leased units, as both requeues use.
abbrev pub SelectsLeased : (WorkUnit → Bool) → Type 0
SelectsLeased selects = (w : WorkUnit) → selects w ≡ true → is_leased w.state ≡ true

pub expired-SelectsLeased : (now : ℕ) → SelectsLeased (expired now)
unfolding expired
expired-SelectsLeased now w h = ground arith

pub held_by-SelectsLeased : (agent : String) → SelectsLeased (held_by agent)
unfolding held_by
held_by-SelectsLeased agent w h = ground arith

module _ (cfg : Config) (selects : WorkUnit → Bool) (leased : SelectsLeased selects) where
  requeue_row-is_done : (w : WorkUnit) → is_done (requeue_row cfg selects w).state ≡ is_done w.state
  unfolding branch_row
  requeue_row-is_done w = ground (arith, leased w, leased (set_unit_state WorkUnitState.pending w))

  pub requeue_row-KeepsId : KeepsId (requeue_row cfg selects)
  unfolding branch_row
  requeue_row-KeepsId w = ground arith

  pub requeue-IsValid :
      (at : ℕ) (db : Db) → IsValid cfg db → IsValid cfg (requeue cfg selects at db).0
  requeue-IsValid at db v =
      map-IsValid cfg (requeue_row cfg selects) requeue_row-KeepsId
        (λ w h. give_up_row-UnitOk cfg selects _ (retry_row-UnitOk cfg selects w h))
        requeue_row-is_done db _ (work_units-requeue cfg selects at db)
        (unit_results-requeue cfg selects at db) v

module _ (cfg : Config) where
  claimed-IsValid :
      (agent : String) (t : ℕ) (u : String) (db db' : Db)
      → db'.work_units ≡ map (claim_row agent t u) db.work_units
      → db'.unit_results ≡ db.unit_results
      → IsValid cfg db
      → IsValid cfg db'
  claimed-IsValid agent t u db db' eu er v =
      map-IsValid cfg _ (claim_row-KeepsId agent t u) (claim_row-UnitOk cfg agent t u)
        (claim_row-is_done agent t u) db db' eu er v

  lease_candidate-IsValid :
      (c : Candidate) (agent : String) (now : ℕ) (db : Db)
      → IsValid cfg db
      → IsValid cfg (lease_candidate cfg c agent now db).db
  unfolding lease_candidate claim_unit recompute_job_state set_job_state
  lease_candidate-IsValid c agent now db v = ground (
    arith,
    v,
    claimed-IsValid agent (lease_expiry now c.unit.est_duration cfg.default_lease)
        c.unit.work_unit_id db
        (recompute_job_state c.unit.job_id
          (claim_unit agent (lease_expiry now c.unit.est_duration cfg.default_lease)
            c.unit.work_unit_id db).0)
        refl refl v,
  )

  pub lease_next-IsValid :
      (agent : String) (models : List String) (now : ℕ) (db : Db)
      → IsValid cfg db
      → IsValid cfg (lease_next cfg agent models now db).db
  unfolding lease_next
  lease_next-IsValid agent [] now db v = v
  lease_next-IsValid agent (m ∷ ms) now db v = elim (Option-cases (select_candidate (m ∷ ms) db)) [
    | inl e ↦ rw (e, lease_next) v
    | inr (c, e) ↦ rw (e, lease_next) (lease_candidate-IsValid c agent now db v)
  ]

  pub extend_leases-IsValid :
      (agent : String) (us : List String) (now : ℕ) (db : Db)
      → IsValid cfg db
      → IsValid cfg (extend_leases cfg agent us now db)
  unfolding extend_leases
  extend_leases-IsValid agent [] now db v = v
  extend_leases-IsValid agent (u ∷ us) now db v =
      map-IsValid cfg _ (extend_row-KeepsId agent _ (u ∷ us))
        (extend_row-UnitOk cfg agent _ (u ∷ us)) (extend_row-is_done agent _ (u ∷ us)) db _ refl
        refl v

  pub lease_backup-IsValid :
      (agent u : String) (now : ℕ) (db : Db)
      → IsValid cfg db
      → IsValid cfg (lease_backup cfg agent u now db).0
  unfolding lease_backup insert_backup
  lease_backup-IsValid agent u now db v = ground arith

  pub bind_result_payload-IsValid :
      (b : Binding) (db : Db) → IsValid cfg db → IsValid cfg (bind_result_payload b db).0
  unfolding bind_result_payload insert_binding
  bind_result_payload-IsValid b db v = ground arith
