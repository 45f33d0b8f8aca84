-- ===== src/Queue/Orphans.antt =====
-- A submission without `reuse_active` takes units over from the job that owns them.
use mathlib.Core.Option
use fallow.Prelude.{
  ◌||◌, ℕ, ◌≡◌, ◌≢◌, refl, ◌∙◌, ap, ◌⊎◌, true, false, Option, none, some, String, List, [], ◌∷◌,
  ◌++◌, arith, is_some, any, Bool-cases, inl, inr,
}
use fallow.Prelude.Eq.{Pair_eq, ◌==◌, String_eq, ==_iff, ==_refl}
use fallow.Prelude.Table.{lookup, lookup-append, lookup-key}
use fallow.Queue.Rows.{
  is_leased, is_pending, membership_key, WorkUnit, Job, Membership, Db, WorkUnitSpec, JobSubmit,
  job_key, JobState,
}
use fallow.Queue.Tables.{unit_of, job_of, member_state, succeeded_result, set_job_state}
use fallow.Queue.Status.{recompute_job_state}
use fallow.Queue.Submit.{
  submit_job, insert_job, attach_units, attach_unit, unique_units, job_row, fresh_row, upsert_unit,
  snapshot_terminal_owner, upsert_membership, forget_unit,
}
use fallow.Queue.Invariant.Submits.{unit_of-attach}
use fallow.Queue.Members.{insert_job-keeps_member, waiting_unit}
use fallow.Queue.Jobs.{job_of-recompute, state_row}

abbrev pub Among : String → List WorkUnitSpec → Type 0
Among u us = any (λ v. v.work_unit_id == u) us ≡ true

unique_units-Among :
    (seen : List String) (us : List WorkUnitSpec) (u : String)
    → Among u us
    → (any (λ s. s == u) seen ≡ true) ⊎ Among u (unique_units seen us)
unfolding unique_units
unique_units-Among seen [] u h = absurd (cc)
unique_units-Among seen (v ∷ us) u h = elim (Bool-cases (v.work_unit_id == u)) [
  | inl e ↦
      let same : any (λ s. s == v.work_unit_id) seen ≡ any (λ s. s == u) seen =
        ap (λ k. any (λ s. s == k) seen) ((==_iff _ _).0 e) in
      ground (arith, e, same)
  | inr e ↦
      ground
        (arith, e, h, unique_units-Among seen us u, unique_units-Among (v.work_unit_id ∷ seen) us u)
]

abbrev OwnedBy : String → String → Db → Type 0
OwnedBy job u db = (w : WorkUnit) × (unit_of u db ≡ some w) × (w.job_id ≡ job)

attach_unit-OwnedBy :
    (job : String) (now : ℕ) (v : WorkUnitSpec) (found : Option String) (db : Db) (u : String)
    → (v.work_unit_id ≡ u) ⊎ OwnedBy job u db
    → OwnedBy job u (attach_unit job now v found db)
attach_unit-OwnedBy job now v found db u (inl e) = (
  fresh_row job v (is_some found) now,
  unit_of-attach job now v found db u ∙ (rw (e, ==_refl u)),
  refl,
)
attach_unit-OwnedBy job now v found db u (inr (w, f, o)) = elim (Bool-cases (v.work_unit_id == u)) [
  | inl e ↦ (fresh_row job v (is_some found) now, unit_of-attach job now v found db u ∙ rw e, refl)
  | inr e ↦ (w, unit_of-attach job now v found db u ∙ (rw e f), o)
]

attach_units-OwnedBy :
    (job : String) (now : ℕ) (deduped : String → Option String) (vs : List WorkUnitSpec) (db : Db)
    (u : String)
    → Among u vs ⊎ OwnedBy job u db
    → OwnedBy job u (attach_units job now deduped vs db)
unfolding attach_units
attach_units-OwnedBy job now deduped [] db u (inl h) = absurd (cc)
attach_units-OwnedBy job now deduped [] db u (inr o) = o
attach_units-OwnedBy job now deduped (v ∷ vs) db u (inr o) =
    attach_units-OwnedBy job now deduped vs _ u
      (inr (attach_unit-OwnedBy job now v (deduped v.work_unit_id) db u (inr o)))
attach_units-OwnedBy job now deduped (v ∷ vs) db u (inl h) =
    elim (Bool-cases (v.work_unit_id == u)) [
      | inl e ↦ attach_units-OwnedBy job now deduped vs _ u (
          inr
            (attach_unit-OwnedBy job now v (deduped v.work_unit_id) db u (inl ((==_iff _ _).0 e))))
      | inr e ↦ attach_units-OwnedBy job now deduped vs _ u (inl (ground (arith, e, h)))
    ]

jobs-attach :
    (job : String) (now : ℕ) (v : WorkUnitSpec) (found : Option String) (db : Db)
    → (attach_unit job now v found db).jobs ≡ db.jobs
unfolding attach_unit upsert_unit forget_unit snapshot_terminal_owner upsert_membership
jobs-attach job now v found db = ground arith

jobs-attach_units :
    (job : String) (now : ℕ) (deduped : String → Option String) (vs : List WorkUnitSpec) (db : Db)
    → (attach_units job now deduped vs db).jobs ≡ db.jobs
unfolding attach_units
jobs-attach_units job now deduped [] db = refl
jobs-attach_units job now deduped (v ∷ vs) db =
    jobs-attach_units job now deduped vs _ ∙ jobs-attach job now v (deduped v.work_unit_id) db

-- The store after a plain submission under a new id.
insert_job-takes_over :
    (job_id : String) (job : JobSubmit) (us : List WorkUnitSpec) (now : ℕ) (db : Db) (u : String)
    → Among u us
    → OwnedBy job_id u (insert_job job_id job us now db)
unfolding insert_job
insert_job-takes_over job_id job us now db u h =
    let db1 = record db { jobs = db.jobs ++ job_row job_id job now ∷ [] } in
    let o = attach_units-OwnedBy job_id now (succeeded_result db1) us db1 u (inl h) in
    (o.0, unfold recompute_job_state set_job_state in o.1, o.2)

insert_job-old_jobs :
    (job_id : String) (job : JobSubmit) (us : List WorkUnitSpec) (now : ℕ) (db : Db) (k : String)
    → k ≢ job_id
    → job_of k (insert_job job_id job us now db) ≡ job_of k db
unfolding insert_job
insert_job-old_jobs job_id job us now db k ne =
    job_of-recompute job_id k _
    ∙ (rw jobs-attach_units (
        other_row _ (job_of k (record db { jobs = db.jobs ++ job_row job_id job now ∷ [] }))
          (λ x. lookup-key job_key k (db.jobs ++ job_row job_id job now ∷ []))
        ∙ appended))
  where
    other_row :
        (s : JobState) (o : Option Job)
        → ((x : Job) → o ≡ some x → x.job_id ≡ k)
        → Option.map (state_row s job_id) o ≡ o
    other_row s none key = refl
    other_row s (some x) key =
        unfold state_row in ground (arith, key x refl, ne, ==_iff x.job_id job_id)

    appended : job_of k (record db { jobs = db.jobs ++ job_row job_id job now ∷ [] }) ≡ job_of k db
    appended =
        unfold lookup in
        ground (
          arith,
          lookup-append job_key k db.jobs (job_row job_id job now ∷ []),
          ne,
          ==_iff job_id k,
        )

-- A submission without `reuse_active`, under a job id that is new, takes away a unit that another
-- job waits for. For a membership of the other job with no outcome, whose unit is named by the
-- submission and was pending or leased, the row of the memberships is afterwards still the same and
-- the unit lends it no state, so the other job counts the unit neither as waiting nor as finished;
-- and the other job's own row, its state included, stays as it was.
pub submit_job-orphans :
    (job_id : String) (job : JobSubmit) (us : List WorkUnitSpec) (now : ℕ) (db : Db) (j u : String)
    (m : Membership) (w : WorkUnit)
    → job_of job_id db ≡ none
    → j ≢ job_id
    → Among u us
    → lookup membership_key (j, u) db.memberships ≡ some m
    → m.terminal_state ≡ none
    → unit_of u db ≡ some w
    → (is_pending w.state || is_leased w.state) ≡ true
    → let db' = (submit_job job_id job us false now db).0 in
      (lookup membership_key (j, u) db'.memberships ≡ some m)
      × (member_state db' m ≡ none)
      × (job_of j db' ≡ job_of j db)
unfolding submit_job
submit_job-orphans job_id job us now db j u m w fresh other named row open_yet found waits =
    let unique = unique_units [] us in
    rw fresh (
      insert_job-keeps_member job_id job unique now db j u m other row
          (waiting_unit j u db w found waits),
      unnamed _ (lookup-key membership_key (j, u) db.memberships row) (
          insert_job-takes_over job_id job unique now db u
            (among (unique_units-Among [] us u named))),
      insert_job-old_jobs job_id job unique now db j other,
    )
  where
    among : (false ≡ true) ⊎ Among u (unique_units [] us) → Among u (unique_units [] us)
    among (inl p) = absurd (cc)
    among (inr h) = h

    unnamed :
        (db' : Db) → membership_key m ≡ (j, u) → OwnedBy job_id u db' → member_state db' m ≡ none
    unnamed db' key (v, at, owner) =
        let mine : m.job_id ≡ j = ap (λ k. k.0) key in
        let its : m.work_unit_id ≡ u = ap (λ k. k.1) key in
        unfold member_state in
        rw (open_yet, its, at) (ground (arith, owner, mine, other, ==_iff v.job_id m.job_id))
