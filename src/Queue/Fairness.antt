-- ===== src/Queue/Fairness.antt =====
-- Which unit a lease hands out, and when it hands out none.
use fallow.Prelude.{
  ℕ, ◌≤◌, ◌≡◌, true, false, none, some, String, List, [], ◌∷◌, arith, ltb, not, ◌&&◌, ◌||◌, any,
  inl, inr, Option-cases, All, All-mono, filter_map, filter_map-All,
}
use fallow.Prelude.Eq.{◌==◌, String_eq}
use fallow.Prelude.Rank.{
  least-NotBefore, least-eq-none, NotBefore, ascending, descending, by, followed_by,
}
use fallow.Prelude.Table.{IsKeyed}
use fallow.Queue.Rows.{
  WorkUnit, Job, Db, Config, WorkUnitLease, unit_key, is_pending, ℤ, pos, negsuc, int_before,
}
use fallow.Queue.Tables.{unit_of, job_of}
use fallow.Queue.Lease.{Candidate, candidate_of, lease_order, select_candidate, lease_next}
use fallow.Queue.Exclusive.{
  select_candidate-IsCandidate, lease_candidate-IsGrant, lease_candidate-ne-none,
}

abbrev pub ◌≤ℤ◌ : ℤ → ℤ → Type 0
◌≤ℤ◌ (pos a) (pos b) = a ≤ b
◌≤ℤ◌ (pos a) (negsuc b) = ⊥
◌≤ℤ◌ (negsuc a) (pos b) = Unit
◌≤ℤ◌ (negsuc a) (negsuc b) = b ≤ a

-- `c` may go before `d`: its priority is no lower, at equal priority its unit is no younger, and at
-- equal age its index is no higher.
pub record Precedes (c d : Candidate) : Type 0 where
  pub priority : ◌≤ℤ◌ d.job.priority c.job.priority
  pub age : d.job.priority ≡ c.job.priority → c.unit.created_at ≤ d.unit.created_at
  pub index :
      d.job.priority ≡ c.job.priority
      → d.unit.created_at ≡ c.unit.created_at
      → c.unit.idx ≤ d.unit.idx

-- The order's test on the numbers, read as inequalities.
key_order :
    (p q : ℤ) (a b i k : ℕ)
    → (int_before p q || not (int_before q p) && (ltb b a || not (ltb a b) && ltb k i)) ≡ false
    → (◌≤ℤ◌ q p) × (q ≡ p → a ≤ b) × (q ≡ p → b ≡ a → i ≤ k)
key_order (pos m) (pos n) a b i k h = ground (arith)
key_order (pos m) (negsuc n) a b i k h = ground arith
key_order (negsuc m) (pos n) a b i k h = ground arith
key_order (negsuc m) (negsuc n) a b i k h = ground arith

NotBefore-Precedes : (c d : Candidate) → NotBefore lease_order c d → Precedes c d
unfolding lease_order ascending descending by followed_by
NotBefore-Precedes c d h =
    let k =
      key_order c.job.priority d.job.priority c.unit.created_at d.unit.created_at c.unit.idx
        d.unit.idx h in
    record { priority = k.0; age = k.1; index = k.2 }

candidate_of-waiting :
    (models : List String) (db : Db) (w : WorkUnit) (j : Job)
    → is_pending w.state ≡ true
    → job_of w.job_id db ≡ some j
    → any (λ m. m == j.model_id) models ≡ true
    → candidate_of models db w ≡ some (record { unit = w; job = j })
unfolding candidate_of
candidate_of-waiting models db w j p o h = ground (arith, p, o, h)

-- A pending unit whose job asks for one of the models.
pub record IsWaiting (models : List String) (db : Db) (w : WorkUnit) (j : Job) : Type 0 where
  pub pending : is_pending w.state ≡ true
  pub owner : job_of w.job_id db ≡ some j
  pub wanted : any (λ m. m == j.model_id) models ≡ true

pub select_candidate-Precedes :
    (models : List String) (db : Db) (c : Candidate)
    → select_candidate models db ≡ some c
    → All
        (λ v. (j : Job) → IsWaiting models db v j → Precedes c (record { unit = v; job = j }))
        db.work_units
unfolding select_candidate
select_candidate-Precedes models db c h =
    All-mono (λ v. (d : Candidate) → candidate_of models db v ≡ some d → NotBefore lease_order c d)
      _
      (λ v f j w.
        NotBefore-Precedes c _
          (f _ (candidate_of-waiting models db v j w.pending w.owner w.wanted)))
      db.work_units
      (filter_map-All (NotBefore lease_order c) (candidate_of models db) db.work_units
        (least-NotBefore lease_order (filter_map (candidate_of models db) db.work_units) h))

-- The unit that `lease_next` hands out goes before every other waiting unit: by its job's priority,
-- then by its age, then by its index in the job.
pub lease_next-Precedes :
    (cfg : Config) (agent : String) (models : List String) (now : ℕ) (db : Db) (l : WorkUnitLease)
    → IsKeyed unit_key db.work_units
    → (lease_next cfg agent models now db).value ≡ some l
    → (c : Candidate) × (unit_of l.work_unit_id db ≡ some c.unit)
      × (job_of c.unit.job_id db ≡ some c.job)
      × All
          (λ v. (j : Job) → IsWaiting models db v j → Precedes c (record { unit = v; job = j }))
          db.work_units
unfolding lease_next
lease_next-Precedes cfg agent [] now db l keyed h = absurd (cc)
lease_next-Precedes cfg agent (m ∷ ms) now db l keyed h =
    elim (Option-cases (select_candidate (m ∷ ms) db)) [
      | inl e ↦ absurd (ground (arith, e, h))
      | inr (c, e) ↦
          let k = select_candidate-IsCandidate (m ∷ ms) db c keyed e in
          let g =
            lease_candidate-IsGrant cfg agent (m ∷ ms) now db c l k (rw (e, lease_next) at h) in
          (c, g.before, k.owner, select_candidate-Precedes (m ∷ ms) db c e)
    ]

-- A lease is refused only if no pending unit belongs to a job that asks for one of the models.
lease_next-none :
    (cfg : Config) (agent m : String) (ms : List String) (now : ℕ) (db : Db)
    → IsKeyed unit_key db.work_units
    → (lease_next cfg agent (m ∷ ms) now db).value ≡ none
    → All (λ v. (j : Job) → ¬ IsWaiting (m ∷ ms) db v j) db.work_units
unfolding lease_next
lease_next-none cfg agent m ms now db keyed h = elim (Option-cases (select_candidate (m ∷ ms) db)) [
  | inl e ↦
      All-mono (λ v. (d : Candidate) → candidate_of (m ∷ ms) db v ≡ some d → ⊥) _
        (λ v f j w. f _ (candidate_of-waiting (m ∷ ms) db v j w.pending w.owner w.wanted))
        db.work_units
        (filter_map-All (λ d. ⊥) (candidate_of (m ∷ ms) db) db.work_units
          (rw (nothing_collected e) tt))
  | inr (c, e) ↦
      let k = select_candidate-IsCandidate (m ∷ ms) db c keyed e in
      absurd (lease_candidate-ne-none cfg agent (m ∷ ms) now db c k (rw (e, lease_next) at h))
]
  where
    nothing_collected :
        select_candidate (m ∷ ms) db ≡ none
        → filter_map (candidate_of (m ∷ ms) db) db.work_units ≡ []
    nothing_collected e = unfold select_candidate in least-eq-none lease_order _ e
