-- ===== src/Queue/Durability.antt =====
-- A success that was accepted is never lost: the stored success of a unit, and the calls that do
-- not store results. `Durability/Steps.antt` has the others, and the theorem.
pub mod Steps
use mathlib.Core.Option
use fallow.Prelude.{
  ℕ, ◌≡◌, ◌≢◌, refl, sym, ◌∙◌, ap, subst, Bool, true, false, not, ◌&&◌, Option, none, some, String,
  List, [], ◌∷◌, ◌++◌, arith, if◌then◌else◌, is_some, any, filter, Bool-cases, inl, inr,
  Option-cases,
}
use fallow.Prelude.Eq.{◌==◌, String_eq, ==_iff, ==_refl}
use fallow.Prelude.Table.{lookup, lookup-key}
use fallow.Queue.Rows.{
  UnitTransition, WorkUnit, UnitResult, WorkResult, Binding, Db, Config, WorkUnitSpec, JobSubmit,
  result_key, status_eq, succeeded,
}
use fallow.Queue.Tables.{
  unit_of, result_of, result_exists, payload_bound, bound_ref, succeeded_result, set_job_state,
  insert_binding, insert_result,
}
use fallow.Queue.Status.{recompute_job_state, mark_job_finalized, insert_finalization}
use fallow.Queue.Lease.{
  lease_next, lease_candidate, claim_unit, Candidate, extend_leases, select_candidate,
}
use fallow.Queue.Requeue.{
  requeue, requeue_expired, requeue_agent, run_requeue_branch, recompute_jobs, mark_dead,
}
use fallow.Queue.Backup.{lease_backup, insert_backup, bind_result_payload}
use fallow.Queue.Complete.{complete_unit, finalize, may_finalize}
use fallow.Queue.Submit.{
  submit_job, insert_job, attach_units, attach_unit, forget_unit, upsert_unit,
  snapshot_terminal_owner, upsert_membership, unique_units, job_row,
}
use fallow.Queue.Units.{unit_results-requeue}
use fallow.Queue.Invariant.Finals.{result_of-finalize}
use fallow.Queue.Invariant.Submits.{result_of-attach}
use fallow.Queue.Runs.{
  Call, submit, lease, extend, backup, bind, complete, expire, drop_agent, mark_final, step, run,
}

any-append {ℓ} :
    {A : Type ℓ} (p : A → Bool) (xs ys : List A) → any p xs ≡ true → any p (xs ++ ys) ≡ true
any-append p [] ys h = absurd (cc)
any-append p (x ∷ xs) ys h = ground (arith, any-append p xs ys)

any-filter {ℓ} :
    {A : Type ℓ} (p q : A → Bool) (xs : List A)
    → ((a : A) → p a ≡ true → q a ≡ true)
    → any p xs ≡ true
    → any p (filter q xs) ≡ true
any-filter p q [] f h = absurd (cc)
any-filter p q (x ∷ xs) f h = ground (arith, f x, any-filter p q xs f)

-- The stored success of a unit depends on two tables.
bound_ref-same :
    (r : UnitResult) (db db' : Db) → db'.bindings ≡ db.bindings → bound_ref r db' ≡ bound_ref r db
unfolding bound_ref
bound_ref-same r db db' e = rw e

succeeded-same :
    (db db' : Db) (u : String)
    → db'.unit_results ≡ db.unit_results
    → db'.bindings ≡ db.bindings
    → succeeded_result db' u ≡ succeeded_result db u
unfolding succeeded_result bound_ref
succeeded-same db db' u er eb = rw (er, eb)

-- The row and the reference behind a stored success.
succeeded-row :
    (db : Db) (u ref : String)
    → succeeded_result db u ≡ some ref
    → (r : UnitResult) × (result_of u db ≡ some r) × (bound_ref r db ≡ some ref)
unfolding succeeded_result
succeeded-row db u ref h = go (result_of u db) refl h
  where
    go :
        (o : Option UnitResult)
        → result_of u db ≡ o
        → (elim o [ none ↦ none | some r ↦ bound_ref r db ]) ≡ some ref
        → (r : UnitResult) × (result_of u db ≡ some r) × (bound_ref r db ≡ some ref)
    go none e k = absurd (cc)
    go (some r) e k = (r, e, k)

row-succeeded :
    (db : Db) (u ref : String) (r : UnitResult)
    → result_of u db ≡ some r
    → bound_ref r db ≡ some ref
    → succeeded_result db u ≡ some ref
unfolding succeeded_result
row-succeeded db u ref r e k = rw (e, succeeded_result) k

-- More bindings, or fewer of other units, keep a payload bound.
abbrev Keeps : String → Db → Db → Type 0
Keeps u db db' =
    (p : Binding → Bool)
    → ((b : Binding) → p b ≡ true → b.work_unit_id ≡ u)
    → any p db.bindings ≡ true
    → any p db'.bindings ≡ true

payload_bound-more :
    (r : UnitResult) (ref : String) (db db' : Db)
    → Keeps r.work_unit_id db db'
    → payload_bound r ref db ≡ true
    → payload_bound r ref db' ≡ true
unfolding payload_bound
payload_bound-more r ref db db' more h =
    more _ (λ b k. (==_iff b.work_unit_id r.work_unit_id).0 (ground (arith, k))) h

bound_ref-more :
    (r : UnitResult) (ref : String) (db db' : Db)
    → Keeps r.work_unit_id db db'
    → bound_ref r db ≡ some ref
    → bound_ref r db' ≡ some ref
unfolding bound_ref
bound_ref-more r ref db db' more h = go r.result_ref h
  where
    go :
        (o : Option String)
        → Path
            (Option String)
            (elim o [
              | none ↦ none
              | some x ↦
                  if status_eq r.status succeeded && payload_bound r x db then some x else none
            ])
            (some ref)
        → Path
            (Option String)
            (elim o [
              | none ↦ none
              | some x ↦
                  if status_eq r.status succeeded && payload_bound r x db' then some x else none
            ])
            (some ref)
    go none k = k
    go (some x) k = ground (arith, k, payload_bound-more r x db db' more)

-- A step that keeps the unit's result and its bindings keeps its success.
succeeded-more :
    (db db' : Db) (u ref : String)
    → ((r : UnitResult) → result_of u db ≡ some r → result_of u db' ≡ some r)
    → Keeps u db db'
    → succeeded_result db u ≡ some ref
    → succeeded_result db' u ≡ some ref
succeeded-more db db' u ref rows more h =
    let s = succeeded-row db u ref h in
    let key : s.0.work_unit_id ≡ u = lookup-key result_key u db.unit_results s.1 in
    row-succeeded db' u ref s.0 (rows s.0 s.1)
      (bound_ref-more s.0 ref db db' (subst (λ k. Keeps k db db') (sym key) more) s.2)

-- The calls, one by one.
abbrev Lasts : Db → Db → Type 0
Lasts db db' =
    (u ref : String) → succeeded_result db u ≡ some ref → succeeded_result db' u ≡ some ref

Lasts-same :
    (db db' : Db) → db'.unit_results ≡ db.unit_results → db'.bindings ≡ db.bindings → Lasts db db'
Lasts-same db db' er eb u ref h = succeeded-same db db' u er eb ∙ h

bindings-recompute_jobs :
    (ts : List UnitTransition) (db : Db) → (recompute_jobs ts db).bindings ≡ db.bindings
unfolding recompute_jobs recompute_job_state set_job_state
bindings-recompute_jobs [] db = refl
bindings-recompute_jobs (t ∷ ts) db = bindings-recompute_jobs ts (recompute_job_state t.job_id db)

bindings-mark_dead : (ts : List UnitTransition) (db : Db) → (mark_dead ts db).bindings ≡ db.bindings
unfolding mark_dead
bindings-mark_dead [] db = refl
bindings-mark_dead (t ∷ ts) db = bindings-mark_dead ts _

requeue-Lasts :
    (cfg : Config) (selects : WorkUnit → Bool) (at : ℕ) (db : Db)
    → Lasts db (requeue cfg selects at db).0
requeue-Lasts cfg selects at db =
    Lasts-same db _ (unit_results-requeue cfg selects at db)
      (unfold requeue run_requeue_branch in simp (bindings-recompute_jobs, bindings-mark_dead))

lease_candidate-Lasts :
    (cfg : Config) (c : Candidate) (agent : String) (now : ℕ) (db : Db)
    → Lasts db (lease_candidate cfg c agent now db).db
unfolding lease_candidate claim_unit recompute_job_state set_job_state
lease_candidate-Lasts cfg c agent now db = Lasts-same db _ (ground arith) (ground arith)

lease_next-Lasts :
    (cfg : Config) (agent : String) (models : List String) (now : ℕ) (db : Db)
    → Lasts db (lease_next cfg agent models now db).db
unfolding lease_next
lease_next-Lasts cfg agent [] now db = λ u ref h. h
lease_next-Lasts cfg agent (m ∷ ms) now db = elim (Option-cases (select_candidate (m ∷ ms) db)) [
  | inl e ↦ rw (e, lease_next) (λ u ref h. h)
  | inr (c, e) ↦ rw (e, lease_next) (lease_candidate-Lasts cfg c agent now db)
]

extend_leases-Lasts :
    (cfg : Config) (agent : String) (us : List String) (now : ℕ) (db : Db)
    → Lasts db (extend_leases cfg agent us now db)
unfolding extend_leases
extend_leases-Lasts cfg agent [] now db = Lasts-same db _ refl refl
extend_leases-Lasts cfg agent (u ∷ us) now db = Lasts-same db _ refl refl

lease_backup-Lasts :
    (cfg : Config) (agent u : String) (now : ℕ) (db : Db)
    → Lasts db (lease_backup cfg agent u now db).0
unfolding lease_backup insert_backup
lease_backup-Lasts cfg agent u now db = Lasts-same db _ (ground arith) (ground arith)

bind-Lasts : (b : Binding) (db : Db) → Lasts db (bind_result_payload b db).0
bind-Lasts b db u ref h = succeeded-more db _ u ref (λ r e. same e) (λ p f k. kept p k) h
  where
    same :
        {r : UnitResult}
        → result_of u db ≡ some r
        → result_of u (bind_result_payload b db).0 ≡ some r
    same {r = r} e = unfold bind_result_payload insert_binding in ground (arith, e)

    kept :
        (p : Binding → Bool)
        → any p db.bindings ≡ true
        → any p (bind_result_payload b db).0.bindings ≡ true
    kept p k =
        unfold bind_result_payload insert_binding in
        ground (arith, k, any-append p db.bindings (b ∷ []) k)
