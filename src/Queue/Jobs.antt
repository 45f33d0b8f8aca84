-- ===== src/Queue/Jobs.antt =====
-- The state that the store derives for a job from its units.
use mathlib.Core.Option
use fallow.Prelude.{
  ℕ, ◌<◌, ◌≡◌, ◌↔◌, ◌⊎◌, refl, sym, ◌∙◌, Bool, true, false, ◌||◌, Option, none, some, String, List,
  [], ◌∷◌, arith, if◌then◌else◌, count, length, inl, inr, All,
}
use fallow.Prelude.Eq.{◌==◌, String_eq, ℕ_eq, ==_iff}
use fallow.Prelude.Table.{lookup-map, lookup-key}
use fallow.Queue.Rows.{
  JobState, Job, WorkUnit, WorkResult, Membership, Db, job_key, is_pending, is_leased,
}
use fallow.Queue.Complete.{complete_unit, finalize}
use fallow.Queue.Repeats.{accepted-finalize}
use fallow.Queue.Tables.{
  unit_of, result_exists, job_of, members, member_state, holds, set_job_state,
}
use fallow.Queue.Status.{UnitCounts, unit_counts, next_job_state, recompute_job_state}

-- The derived state, case by case.
pub next_job_state-done :
    (c : UnitCounts)
    → (next_job_state c ≡ JobState.done) ↔ ((c.total ≡ 0) ⊎ ((c.pending ≡ 0) × (c.leased ≡ 0)))
unfolding next_job_state
next_job_state-done c = ground arith

pub next_job_state-pending :
    (c : UnitCounts)
    → (next_job_state c ≡ JobState.pending)
      ↔ ((0 < c.total) × (0 < c.pending) × (c.leased ≡ 0) × (c.done ≡ 0) × (c.dead ≡ 0))
unfolding next_job_state
next_job_state-pending c = ground arith

count-zero {ℓ} :
    {A : Type ℓ} (p : A → Bool) (xs : List A) → count p xs ≡ 0 → All (λ a. p a ≡ false) xs
count-zero p [] h = tt
count-zero p (x ∷ xs) h = ground (arith, count-zero p xs)

zero-count {ℓ} :
    {A : Type ℓ} (p : A → Bool) (xs : List A) → All (λ a. p a ≡ false) xs → count p xs ≡ 0
zero-count p [] h = refl
zero-count p (x ∷ xs) h = ground (arith, zero-count p xs h.1)

-- A member that may still run: its unit is pending or leased.
abbrev pub unfinished : Db → Membership → Bool
unfinished db m = holds is_pending (member_state db m) || holds is_leased (member_state db m)

abbrev pub AllFinished : Db → List Membership → Type 0
AllFinished db = All (λ m. unfinished db m ≡ false)

split-finished :
    (db : Db) (ms : List Membership)
    → AllFinished db ms
    → (count (λ m. holds is_pending (member_state db m)) ms ≡ 0)
      × (count (λ m. holds is_leased (member_state db m)) ms ≡ 0)
split-finished db [] h = (refl, refl)
split-finished db (m ∷ ms) h =
    let ih = split-finished db ms h.1 in (ground (arith, ih, h.0), ground (arith, ih, h.0))

join-finished :
    (db : Db) (ms : List Membership)
    → count (λ m. holds is_pending (member_state db m)) ms ≡ 0
    → count (λ m. holds is_leased (member_state db m)) ms ≡ 0
    → AllFinished db ms
join-finished db [] p l = tt
join-finished db (m ∷ ms) p l = ground (arith, join-finished db ms)

-- The derivation of a job's state does not read the jobs.
unit_counts-recompute :
    (job : String) (db : Db) (k : String)
    → unit_counts k (recompute_job_state job db) ≡ unit_counts k db
unfolding recompute_job_state set_job_state unit_counts member_state
unit_counts-recompute job db k = refl

counts-AllFinished :
    (job : String) (db : Db)
    → (next_job_state (unit_counts job db) ≡ JobState.done) ↔ AllFinished db (members job db)
counts-AllFinished job db = (
  λ h. go (next_job_state-done (unit_counts job db)).0 h,
  λ h.
      (next_job_state-done (unit_counts job db)).1
        (inr (unfold unit_counts in split-finished db (members job db) h)),
)
  where
    empty_or_none :
        (ms : List Membership)
        → (length ms ≡ 0)
          ⊎ ((count (λ m. holds is_pending (member_state db m)) ms ≡ 0)
              × (count (λ m. holds is_leased (member_state db m)) ms ≡ 0))
        → AllFinished db ms
    empty_or_none [] h = tt
    empty_or_none (m ∷ ms) (inl e) = absurd (omega arith)
    empty_or_none (m ∷ ms) (inr (p, l)) = join-finished db (m ∷ ms) p l

    go :
        (next_job_state (unit_counts job db) ≡ JobState.done
          → (unit_counts job db).total ≡ 0
            ⊎ ((unit_counts job db).pending ≡ 0) × ((unit_counts job db).leased ≡ 0))
        → next_job_state (unit_counts job db) ≡ JobState.done
        → AllFinished db (members job db)
    go f h = empty_or_none (members job db) (unfold unit_counts in f h)

unfoldable pub state_row : JobState → String → Job → Job
state_row s job j = if j.job_id == job then record j { state = s } else j

state_row-key : (s : JobState) (job : String) (j : Job) → (state_row s job j).job_id ≡ j.job_id
unfolding state_row
state_row-key s job j = ground arith

pub job_of-recompute :
    (job k : String) (db : Db)
    → job_of k (recompute_job_state job db)
      ≡ Option.map (state_row (next_job_state (unit_counts job db)) job) (job_of k db)
unfolding recompute_job_state set_job_state state_row
job_of-recompute job k db =
    lookup-map job_key (state_row (next_job_state (unit_counts job db)) job)
      (state_row-key (next_job_state (unit_counts job db)) job) k db.jobs

derived_state :
    (s : JobState) (job : String) (o : Option Job) (j : Job)
    → ((x : Job) → o ≡ some x → x.job_id ≡ job)
    → Option.map (state_row s job) o ≡ some j
    → j.state ≡ s
unfolding state_row
derived_state s job none j key h = absurd (cc)
derived_state s job (some x) j key h = ground (arith, h, key x refl, ==_iff x.job_id job)

-- After a job's state is derived anew, the job is done exactly when none of its units is pending or
-- leased.
recompute-done :
    (job : String) (db : Db) (j : Job)
    → job_of job (recompute_job_state job db) ≡ some j
    → (j.state ≡ JobState.done)
      ↔ AllFinished (recompute_job_state job db) (members job (recompute_job_state job db))
recompute-done job db j h =
    let s = next_job_state (unit_counts job db) in
    let e : j.state ≡ s =
      derived_state s job (job_of job db) j (λ x. lookup-key job_key job db.jobs)
        (sym (job_of-recompute job job db) ∙ h) in
    let c = counts-AllFinished job db in
    (
      λ d. unfold recompute_job_state set_job_state member_state in c.0 (sym e ∙ d),
      λ a. e ∙ c.1 (unfold recompute_job_state set_job_state member_state in a),
    )

-- After an accepted completion of a unit that had no result, the unit's job is done exactly when
-- none of the job's units is pending or leased any more.
pub complete_unit-job_done :
    (agent : String) (attempt : ℕ) (r : WorkResult) (now : ℕ) (db : Db) (w : WorkUnit) (j : Job)
    → unit_of r.work_unit_id db ≡ some w
    → result_exists r.work_unit_id db ≡ false
    → (complete_unit agent attempt r now db).value ≡ true
    → job_of w.job_id (complete_unit agent attempt r now db).db ≡ some j
    → (j.state ≡ JobState.done)
      ↔ AllFinished
          (complete_unit agent attempt r now db).db
          (members w.job_id (complete_unit agent attempt r now db).db)
complete_unit-job_done agent attempt r now db w j found fresh ok h =
    rw (accepted-finalize agent attempt r now db w found fresh ok) (
      unfold finalize in
      recompute-done w.job_id _ j
        (rw (accepted-finalize agent attempt r now db w found fresh ok) at h))
