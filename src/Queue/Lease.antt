-- ===== src/Queue/Lease.antt =====
-- The leasing part of queue/store.py, with queue/_serialization.py's lease windows.
use fallow.Prelude.{
  ℕ, ◌+◌, ◌*◌, ◌≡◌, ◌⊎◌, true, false, Option, none, some, String, List, [], ◌∷◌, map, max,
  if◌then◌else◌, any, filter_map, arith,
}
use fallow.Prelude.Eq.{◌==◌, String_eq}
use fallow.Prelude.Rank.{Rank, ascending, descending, by, followed_by, least}
use fallow.Queue.Rows.{
  WorkUnitState, Job, WorkUnit, Db, Config, Reply, WorkUnitLease, ℤ, is_pending, int_before,
}
use fallow.Queue.Tables.{unit_of, job_of, claim_row, extend_row}
use fallow.Queue.Status.{recompute_job_state}

-- `lease_window_s`: the larger of twice the estimate and the floor; no estimate counts as 0.
unfoldable pub lease_window : Option ℕ → ℕ → ℕ
lease_window none floor = max 0 floor
lease_window (some est) floor = max (est * 2) floor

unfoldable pub lease_expiry : ℕ → Option ℕ → ℕ → ℕ
unfolding lease_window
lease_expiry now est floor = now + lease_window est floor

pub record Candidate : Type 0 where
  pub unit : WorkUnit
  pub job : Job

-- The rows of SELECT_LEASE_CANDIDATE: pending units whose job asks for one of the models.
unfoldable pub candidate_of : List String → Db → WorkUnit → Option Candidate
candidate_of models db w = elim (job_of w.job_id db) [
  | none ↦ none
  | some j ↦
      if is_pending w.state
      then (if any (λ m. m == j.model_id) models then some (record { unit = w; job = j }) else none)
      else none
]

int_asym : (a b : ℤ) → int_before a b ≡ true → int_before b a ≡ false
int_asym a b h = ground arith

int_split : (a b c : ℤ) → int_before a c ≡ true → (int_before a b ≡ true) ⊎ (int_before b c ≡ true)
int_split a b c h = ground arith

abbrev int_rank : Rank ℤ
int_rank = record { before = int_before; asym = int_asym; split = int_split }

-- ORDER BY j.priority DESC, w.created_at ASC, w.idx ASC.
unfoldable pub lease_order : Rank Candidate
unfolding int_asym int_split ascending descending by followed_by
lease_order =
    followed_by (by (descending int_rank) (λ c. c.job.priority))
      (followed_by (by ascending (λ c. c.unit.created_at)) (by ascending (λ c. c.unit.idx)))

-- `_select_candidate`.
unfoldable pub select_candidate : List String → Db → Option Candidate
unfolding lease_order least candidate_of
select_candidate models db = least lease_order (filter_map (candidate_of models db) db.work_units)

-- CLAIM_UNIT ... RETURNING attempts: the row as it is after the update.
unfoldable pub claim_unit : String → ℕ → String → Db → Db × Option ℕ
unfolding claim_row
claim_unit agent expires u db = (
  record db { work_units = map (claim_row agent expires u) db.work_units },
  elim (unit_of u db) [
    | none ↦ none
    | some w ↦ if is_pending w.state then some (w.attempts + 1) else none
  ],
)

abbrev pub nothing : {A : Type 0} → Db → Reply (Option A)
nothing db = record { db = db; value = none; emitted = [] }

abbrev pub lease_row : Candidate → ℕ → ℕ → WorkUnitLease
lease_row c expires attempt = record {
  work_unit_id = c.unit.work_unit_id;
  job_id = c.unit.job_id;
  kind = c.job.kind;
  model_id = c.job.model_id;
  input_url = c.unit.input_ref;
  lease_expires = expires;
  attempt = attempt;
  est_duration = c.unit.est_duration;
}

abbrev pub granted : Candidate → String → ℕ → ℕ → ℕ → Db → Reply (Option WorkUnitLease)
granted c agent now expires attempt db = record {
  db = recompute_job_state c.unit.job_id db;
  value = some (lease_row c expires attempt);
  emitted =
      record {
        work_unit_id = c.unit.work_unit_id;
        job_id = c.unit.job_id;
        agent_id = agent;
        attempt = attempt;
        state = WorkUnitState.leased;
        at = now;
      }
      ∷ [];
}

-- A claim that matched no row leaves the store as it was.
abbrev pub hand_out : Candidate → String → ℕ → ℕ → Db → Db × Option ℕ → Reply (Option WorkUnitLease)
hand_out c agent now expires db (db', none) = nothing db
hand_out c agent now expires db (db', some attempt) = granted c agent now expires attempt db'

-- What `lease_next` does with the candidate.
unfoldable pub lease_candidate : Config → Candidate → String → ℕ → Db → Reply (Option WorkUnitLease)
unfolding claim_unit lease_expiry
lease_candidate cfg c agent now db =
    let expires = lease_expiry now c.unit.est_duration cfg.default_lease in
    hand_out c agent now expires db (claim_unit agent expires c.unit.work_unit_id db)

unfoldable pub lease_next : Config → String → List String → ℕ → Db → Reply (Option WorkUnitLease)
unfolding lease_candidate select_candidate
lease_next cfg agent [] now db = nothing db
lease_next cfg agent (m ∷ ms) now db = elim (select_candidate (m ∷ ms) db) [
  | none ↦ nothing db
  | some c ↦ lease_candidate cfg c agent now db
]

unfoldable pub extend_leases : Config → String → List String → ℕ → Db → Db
unfolding extend_row lease_expiry
extend_leases cfg agent [] now db = db
extend_leases cfg agent (u ∷ us) now db =
    let expires = lease_expiry now none cfg.default_lease in
    record db { work_units = map (extend_row agent expires (u ∷ us)) db.work_units }
