-- ===== src/Queue/Scenarios.antt =====
-- The queue's theorems at one store: a job with a waiting unit and a leased one.
use fallow.Prelude.{
  ◌≡◌, refl, true, false, none, some, String, List, [], ◌∷◌, arith, All, count, ◌↔◌, ◌⊎◌,
}
use fallow.Prelude.Eq.{Pair_eq, ◌==◌, String_eq, ==_iff}
use fallow.Prelude.Table.{lookup}
use fallow.Queue.Rows.{
  membership_key, JobState, WorkUnitState, Job, WorkUnit, Membership, Db, Config, WorkResult,
  WorkUnitLease, succeeded, pos, embed,
}
use fallow.Queue.Tables.{
  terminal_row, set_job_state, unit_of, job_of, member_state, members, succeeded_result,
}
use fallow.Queue.Status.{unit_counts, next_job_state}
use fallow.Queue.Lease.{Candidate, lease_next}
use fallow.Queue.Requeue.{requeue_expired, expired}
use fallow.Queue.Complete.{complete_unit, refused}
use fallow.Queue.Submit.{submit_job}
use fallow.Queue.Invariant.Rows.{IsValid}
use fallow.Queue.Runs.{Call, submit, lease, expire, run, empty, run-IsValid}
use fallow.Queue.Exclusive.{IsGrant, lease_next-IsGrant}
use fallow.Queue.Fairness.{IsWaiting, Precedes, lease_next-Precedes}
use fallow.Queue.Refusal.{MayComplete, complete_unit-refused}
use fallow.Queue.Completion.{HoldsLease, HoldsBackup, PayloadBound, complete_unit-authorised}
use fallow.Queue.Repeats.{IsCompleted, complete_unit-IsCompleted, complete_unit_twice}
use fallow.Queue.Retry.{IsSwept, HasExpired, requeue_expired-IsSwept, requeue_expired_complete}
use fallow.Queue.Durability.Steps.{run-Lasts}
use fallow.Queue.Jobs.{AllFinished, complete_unit-job_done}
use fallow.Queue.Orphans.{submit_job-orphans}

abbrev config : Config
config = record { max_attempts = 2; default_lease = 120 }

abbrev embed_job : Job
embed_job = record {
  job_id = "j1";
  kind = embed;
  model_id = "m";
  payload_ref = "p";
  params_json = "{}";
  priority = pos 0;
  state = JobState.running;
  created_at = 5;
}

abbrev waiting : WorkUnit
waiting = record {
  work_unit_id = "u1";
  job_id = "j1";
  idx = 0;
  input_ref = "i1";
  est_duration = none;
  state = WorkUnitState.pending;
  attempts = 0;
  lease_agent = none;
  lease_expires = none;
  created_at = 5;
}

abbrev held : WorkUnit
held = record {
  work_unit_id = "u2";
  job_id = "j1";
  idx = 1;
  input_ref = "i2";
  est_duration = none;
  state = WorkUnitState.leased;
  attempts = 1;
  lease_agent = some "a";
  lease_expires = some 100;
  created_at = 5;
}

abbrev member : String → Membership
member u = record {
  job_id = "j1";
  work_unit_id = u;
  idx = 0;
  input_ref = "i";
  terminal_state = none;
  result_status = none;
  result_ref = none;
}

abbrev store : Db
store = record {
  jobs = embed_job ∷ [];
  work_units = waiting ∷ held ∷ [];
  unit_results = [];
  bindings =
      record {
        work_unit_id = "u2";
        agent_id = "a";
        attempt = 1;
        digest = "d";
        result_ref = "r2";
        accepted_at = 50;
      }
      ∷ [];
  memberships = member "u1" ∷ member "u2" ∷ [];
  finalizations = [];
  backup_leases = [];
}

abbrev success : WorkResult
success = record {
  work_unit_id = "u2";
  status = succeeded;
  result_ref = some "r2";
  error = none;
  metrics_json = none;
}

abbrev script : List Call
script =
    submit "j1"
      (record {
        kind = embed;
        model_id = "m";
        payload_ref = "p";
        params_json = "{}";
        priority = pos 0;
      })
      (record { work_unit_id = "u1"; idx = 0; input_ref = "i1"; est_duration = none } ∷ []) false 5
    ∷ lease "a" ("m" ∷ []) 10
    ∷ expire 500
    ∷ []

run-IsValid_example : IsValid config (run config empty script)
run-IsValid_example = run-IsValid config script (omega arith)

abbrev granted_lease : WorkUnitLease
granted_lease = record {
  work_unit_id = "u1";
  job_id = "j1";
  kind = embed;
  model_id = "m";
  input_url = "i1";
  lease_expires = 140;
  attempt = 1;
  est_duration = none;
}

lease_next-IsGrant_example :
    (w : WorkUnit) × (j : Job) × IsGrant "b"
      ("m" ∷ [])
      store
      (lease_next config "b" ("m" ∷ []) 20 store).db
      granted_lease
      w
      j
unfolding lease_next lookup
lease_next-IsGrant_example =
    lease_next-IsGrant config "b" ("m" ∷ []) 20 store granted_lease (refl, (refl, tt)) refl

lease_next-Precedes_example :
    (c : Candidate) × (unit_of "u1" store ≡ some c.unit)
    × (job_of c.unit.job_id store ≡ some c.job)
    × All
        (λ v.
          (j : Job) → IsWaiting ("m" ∷ []) store v j → Precedes c (record { unit = v; job = j }))
        store.work_units
unfolding lease_next lookup
lease_next-Precedes_example =
    lease_next-Precedes config "b" ("m" ∷ []) 20 store granted_lease (refl, (refl, tt)) refl

complete_unit-authorised_example :
    (w : WorkUnit) × (unit_of "u2" store ≡ some w)
    × (HoldsLease "a" 1 w ⊎ HoldsBackup "a" 1 w store)
    × (succeeded ≡ succeeded → PayloadBound "a" 1 success store)
unfolding complete_unit lookup
complete_unit-authorised_example = complete_unit-authorised "a" 1 success 60 store refl refl

-- Attempt 2 is not the lease's.
complete_unit-refused_example :
    ((complete_unit "a" 2 success 60 store).value ≡ true ↔ MayComplete "a" 2 success store)
    × (((complete_unit "a" 2 success 60 store).value ≡ true)
        ⊎ (complete_unit "a" 2 success 60 store ≡ refused false store))
unfolding lookup
complete_unit-refused_example = complete_unit-refused "a" 2 success 60 store refl

complete_unit-IsCompleted_example :
    IsCompleted "a" 60 success held store (complete_unit "a" 1 success 60 store).db
unfolding complete_unit lookup
complete_unit-IsCompleted_example =
    complete_unit-IsCompleted "a" 1 success 60 store held refl refl refl

complete_unit_twice_example :
    complete_unit "a" 1 success 90 (complete_unit "a" 1 success 60 store).db
    ≡ refused true (complete_unit "a" 1 success 60 store).db
unfolding complete_unit lookup
complete_unit_twice_example = complete_unit_twice "a" 1 success 60 90 store refl

requeue_expired-IsSwept_example : IsSwept config 200 "u2" held (requeue_expired config 200 store).db
unfolding lookup
requeue_expired-IsSwept_example = requeue_expired-IsSwept config 200 store "u2" held refl

requeue_expired_complete_example :
    All (λ w. ¬ HasExpired 200 w) (requeue_expired config 200 store).db.work_units
    × ((requeue_expired config 200 store).value ≡ count (expired 200) store.work_units)
    × (count (λ t. t.work_unit_id == "u2") (requeue_expired config 200 store).emitted ≡ 1)
unfolding expired
requeue_expired_complete_example =
    requeue_expired_complete config 200 store (λ t. t.work_unit_id == "u2")

-- The store after `success` was accepted.
abbrev completed : Db
completed = record store {
  work_units = waiting ∷ record held { state = WorkUnitState.done } ∷ [];
  unit_results =
      record {
        work_unit_id = "u2";
        status = succeeded;
        result_ref = some "r2";
        error = none;
        metrics_json = none;
        agent_id = "a";
        completed_at = 60;
      }
      ∷ [];
}

resubmission : List Call
resubmission =
    submit "j2"
      (record {
        kind = embed;
        model_id = "m";
        payload_ref = "p";
        params_json = "{}";
        priority = pos 0;
      })
      (record { work_unit_id = "u2"; idx = 0; input_ref = "i2"; est_duration = none } ∷ []) false 70
    ∷ expire 500
    ∷ []

run-Lasts_example : succeeded_result (run config completed resubmission) "u2" ≡ some "r2"
unfolding succeeded_result lookup
run-Lasts_example = run-Lasts config resubmission completed "u2" "r2" refl

complete_unit-job_done_example :
    (JobState.running ≡ JobState.done)
    ↔ AllFinished
        (complete_unit "a" 1 success 60 store).db
        (members "j1" (complete_unit "a" 1 success 60 store).db)
unfolding complete_unit lookup unit_counts set_job_state next_job_state terminal_row member_state
complete_unit-job_done_example =
    complete_unit-job_done "a" 1 success 60 store held embed_job refl refl refl refl

submit_job-orphans_example :
    let db' =
      (submit_job "j2"
        (record {
          kind = embed;
          model_id = "m";
          payload_ref = "p";
          params_json = "{}";
          priority = pos 0;
        })
        (record { work_unit_id = "u1"; idx = 0; input_ref = "i1"; est_duration = none } ∷ [])
        false
        70
        store).0 in
    (lookup membership_key ("j1", "u1") db'.memberships ≡ some (member "u1"))
    × (member_state db' (member "u1") ≡ none)
    × (job_of "j1" db' ≡ job_of "j1" store)
unfolding lookup
submit_job-orphans_example =
    submit_job-orphans "j2"
      (record {
        kind = embed;
        model_id = "m";
        payload_ref = "p";
        params_json = "{}";
        priority = pos 0;
      })
      (record { work_unit_id = "u1"; idx = 0; input_ref = "i1"; est_duration = none } ∷ []) 70 store
      "j1" "u1" (member "u1") waiting refl (λ e. cc ((==_iff {A = String} "j1" "j2").1 e)) refl refl
      refl refl refl
