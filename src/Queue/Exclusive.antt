-- ===== src/Queue/Exclusive.antt =====
-- What a lease hands out: one pending unit, to one agent.
use mathlib.Core.Option
use mathlib.Core.Option.{some-injective}
use fallow.Prelude.{
  ℕ, ◌+◌, ◌≡◌, ◌≢◌, refl, subst, true, Option, none, some, String, List, [], ◌∷◌, arith, any, inl,
  inr, Option-cases, map, filter_map, All-filter_map,
}
use fallow.Prelude.Eq.{◌==◌, String_eq, ==_iff, ==_refl}
use fallow.Prelude.Rank.{least-All}
use fallow.Prelude.Table.{lookup_self, lookup-key, IsKeyed}
use fallow.Queue.Rows.{
  WorkUnitState, WorkUnit, Job, Db, Config, Reply, WorkUnitLease, unit_key, is_pending,
}
use fallow.Queue.Tables.{unit_of, job_of, claim_row, set_job_state}
use fallow.Queue.Status.{recompute_job_state}
use fallow.Queue.Lease.{
  Candidate, candidate_of, granted, lease_row, lease_order, select_candidate, lease_candidate,
  lease_next, claim_unit, lease_expiry,
}
use fallow.Queue.Units.{unit_of-map, claim_row-KeepsId}

-- A candidate of the query: a pending unit with its job, which asks for one of the models.
pub record IsCandidate (models : List String) (db : Db) (c : Candidate) : Type 0 where
  pub found : unit_of c.unit.work_unit_id db ≡ some c.unit
  pub pending : is_pending c.unit.state ≡ true
  pub owner : job_of c.unit.job_id db ≡ some c.job
  pub wanted : any (λ m. m == c.job.model_id) models ≡ true

candidate_of-IsCandidate :
    (models : List String) (db : Db) (w : WorkUnit) (c : Candidate)
    → unit_of w.work_unit_id db ≡ some w
    → candidate_of models db w ≡ some c
    → IsCandidate models db c
unfolding candidate_of
candidate_of-IsCandidate models db w c here h = ground arith

pub select_candidate-IsCandidate :
    (models : List String) (db : Db) (c : Candidate)
    → IsKeyed unit_key db.work_units
    → select_candidate models db ≡ some c
    → IsCandidate models db c
unfolding select_candidate
select_candidate-IsCandidate models db c keyed h =
    least-All lease_order (IsCandidate models db)
      (filter_map (candidate_of models db) db.work_units) h
      (All-filter_map (λ w. unit_of w.work_unit_id db ≡ some w) (IsCandidate models db)
        (candidate_of models db) (candidate_of-IsCandidate models db) db.work_units
        (lookup_self unit_key db.work_units keyed))

-- The unit's row as a claim leaves it.
abbrev pub claimed_row : String → WorkUnitLease → WorkUnit → WorkUnit
claimed_row agent l w = record w {
  state = WorkUnitState.leased;
  attempts = w.attempts + 1;
  lease_agent = some agent;
  lease_expires = some l.lease_expires;
}

-- What a lease says of the store before and after it.
pub record IsGrant (agent : String) (models : List String) (db db' : Db) (l : WorkUnitLease)
    (w : WorkUnit) (j : Job) : Type 0 where
  pub before : unit_of l.work_unit_id db ≡ some w
  pub pending : is_pending w.state ≡ true
  pub owner : job_of w.job_id db ≡ some j
  pub wanted : any (λ m. m == j.model_id) models ≡ true
  pub after : unit_of l.work_unit_id db' ≡ some (claimed_row agent l w)
  pub attempt : l.attempt ≡ w.attempts + 1
  pub others : (u : String) → u ≢ l.work_unit_id → unit_of u db' ≡ unit_of u db

module _ (agent : String) (expires : ℕ) (u : String) where
  claim_row-other :
      (v : String) (o : Option WorkUnit)
      → ((w : WorkUnit) → o ≡ some w → w.work_unit_id ≡ v)
      → v ≢ u
      → Option.map (claim_row agent expires u) o ≡ o
  unfolding claim_row
  claim_row-other v none key ne = refl
  claim_row-other v (some w) key ne = ground (arith, key w refl, ==_iff w.work_unit_id u, ne)

-- A claim of a pending unit matches its row.
claim_unit-pending :
    (agent : String) (expires : ℕ) (u : String) (db : Db) (w : WorkUnit)
    → unit_of u db ≡ some w
    → is_pending w.state ≡ true
    → claim_unit agent expires u db ≡ (
      record db { work_units = map (claim_row agent expires u) db.work_units },
      some (w.attempts + 1),
    )
unfolding claim_unit
claim_unit-pending agent expires u db w found pending = rw (found, pending)

claim_row_self :
    (agent : String) (expires : ℕ) (w : WorkUnit)
    → is_pending w.state ≡ true
    → some (claim_row agent expires w.work_unit_id w)
      ≡ some (record w {
        state = WorkUnitState.leased;
        attempts = w.attempts + 1;
        lease_agent = some agent;
        lease_expires = some expires;
      })
unfolding claim_row
claim_row_self agent expires w h = rw (==_refl w.work_unit_id, h)

module _ (cfg : Config) (agent : String) (models : List String) (now : ℕ) (db : Db) where
  abbrev grant_of : Candidate → Reply (Option WorkUnitLease)
  grant_of c =
      let expires = lease_expiry now c.unit.est_duration cfg.default_lease in
      granted c agent now expires (c.unit.attempts + 1)
        (record db { work_units = map (claim_row agent expires c.unit.work_unit_id) db.work_units })

  lease_candidate-granted :
      (c : Candidate) → IsCandidate models db c → lease_candidate cfg c agent now db ≡ grant_of c
  unfolding lease_candidate
  lease_candidate-granted c k =
      rw (claim_unit-pending agent _ c.unit.work_unit_id db c.unit k.found k.pending)

  granted-IsGrant :
      (c : Candidate)
      → IsCandidate models db c
      → let expires = lease_expiry now c.unit.est_duration cfg.default_lease in
        IsGrant agent models db
          (grant_of c).db
          (lease_row c expires (c.unit.attempts + 1))
          c.unit
          c.job
  unfolding recompute_job_state set_job_state
  granted-IsGrant c k =
      let u = c.unit.work_unit_id in
      let expires = lease_expiry now c.unit.est_duration cfg.default_lease in
      let moves = λ (v : String).
        unit_of-map (claim_row agent expires u) (claim_row-KeepsId agent expires u) v
          db.work_units in
      record {
        before = k.found;
        pending = k.pending;
        owner = k.owner;
        wanted = k.wanted;
        after = rw (moves u, k.found) (claim_row_self agent expires c.unit k.pending);
        attempt = refl;
        others = λ v ne. rw (moves v) (
            claim_row-other agent expires u v (unit_of v db)
              (λ w. lookup-key unit_key v db.work_units) ne);
      }

  pub lease_candidate-ne-none :
      (c : Candidate) → IsCandidate models db c → (lease_candidate cfg c agent now db).value ≢ none
  lease_candidate-ne-none c k h = cc (rw (lease_candidate-granted c k) at h)

  pub lease_candidate-IsGrant :
      (c : Candidate) (l : WorkUnitLease)
      → IsCandidate models db c
      → (lease_candidate cfg c agent now db).value ≡ some l
      → IsGrant agent models db (lease_candidate cfg c agent now db).db l c.unit c.job
  lease_candidate-IsGrant c l k h = rw (lease_candidate-granted c k) (
      subst (λ x. IsGrant agent models db (grant_of c).db x c.unit c.job)
        (some-injective _ _ (rw (lease_candidate-granted c k) at h)) (granted-IsGrant c k))

-- A lease that `lease_next` returns is for a unit that was pending, of a job that asks for one of
-- the models; the unit is now leased to the caller for one more attempt, which is the lease's, and
-- until the lease's expiry; and every other unit is as it was, so no unit is handed out twice.
pub lease_next-IsGrant :
    (cfg : Config) (agent : String) (models : List String) (now : ℕ) (db : Db) (l : WorkUnitLease)
    → IsKeyed unit_key db.work_units
    → (lease_next cfg agent models now db).value ≡ some l
    → (w : WorkUnit) × (j : Job) × IsGrant agent models db
        (lease_next cfg agent models now db).db
        l
        w
        j
unfolding lease_next
lease_next-IsGrant cfg agent [] now db l keyed h = absurd (cc)
lease_next-IsGrant cfg agent (m ∷ ms) now db l keyed h =
    elim (Option-cases (select_candidate (m ∷ ms) db)) [
      | inl e ↦ absurd (ground (arith, e, h))
      | inr (c, e) ↦
          let k = select_candidate-IsCandidate (m ∷ ms) db c keyed e in
          (
            c.unit,
            c.job,
            rw (e, lease_next)
                (lease_candidate-IsGrant cfg agent (m ∷ ms) now db c l k (rw (e, lease_next) at h)),
          )
    ]
