-- ===== src/Queue/Refusal.antt =====
-- When a first completion is refused.
use fallow.Prelude.{
  ℕ, ◌≡◌, refl, ◌⊎◌, true, false, ◌||◌, some, String, arith, Bool-cases, inl, inr, Option-cases,
  ◌↔◌, not, subst,
}
use fallow.Prelude.Eq.{String_eq, ℕ_eq, Option_eq, ==_iff, Pair_eq}
use fallow.Prelude.Table.{lookup-key}
use fallow.Queue.Rows.{WorkResultStatus, succeeded, WorkUnit, WorkResult, Db, unit_key, status_eq}
use fallow.Queue.Tables.{unit_of, result_exists}
use fallow.Queue.Backup.{backup_holder_exists}
use fallow.Queue.Complete.{
  complete_unit, may_finalize, completion_accepted, refused, backup_role, result_binding_accepted,
  backup_binding_accepted,
}
use fallow.Queue.Completion.{HoldsLease, HoldsBackup, PayloadBound, complete_unit-authorised}

-- The agent may finalize the unit: it holds a lease on it, and what a success names is bound.
pub record MayComplete (agent : String) (attempt : ℕ) (r : WorkResult) (db : Db) : Type 0 where
  pub unit : WorkUnit
  pub found : unit_of r.work_unit_id db ≡ some unit
  pub entitled : HoldsLease agent attempt unit ⊎ HoldsBackup agent attempt unit db
  pub bound : r.status ≡ succeeded → PayloadBound agent attempt r db

PayloadBound-binding_accepted :
    (agent : String) (attempt : ℕ) (r : WorkResult) (db : Db)
    → PayloadBound agent attempt r db
    → result_binding_accepted agent attempt r db ≡ true
unfolding result_binding_accepted
PayloadBound-binding_accepted agent attempt r db (b, e, own, ref) =
    rw (e, result_binding_accepted)
      (ground (arith, own, ref, ==_iff b.agent_id agent, ==_iff (some b.result_ref) r.result_ref))

status-Bound :
    (agent : String) (attempt : ℕ) (r : WorkResult) (db : Db)
    → (r.status ≡ succeeded → PayloadBound agent attempt r db)
    → (not (status_eq r.status succeeded) || result_binding_accepted agent attempt r db) ≡ true
status-Bound agent attempt r db h = go r.status refl
  where
    go :
        (s : WorkResultStatus)
        → r.status ≡ s
        → (not (status_eq r.status succeeded) || result_binding_accepted agent attempt r db) ≡ true
    go WorkResultStatus.succeeded e =
        ground (arith, PayloadBound-binding_accepted agent attempt r db (h e))
    go WorkResultStatus.failed e = rw e refl

HoldsLease-may_finalize :
    (w : WorkUnit) (agent : String) (attempt : ℕ) (r : WorkResult) (db : Db)
    → HoldsLease agent attempt w
    → (r.status ≡ succeeded → PayloadBound agent attempt r db)
    → may_finalize w agent attempt r db ≡ true
unfolding may_finalize completion_accepted
HoldsLease-may_finalize w agent attempt r db h bound = ground (
  arith,
  h.leased,
  h.holder,
  h.current,
  ==_iff w.lease_agent (some agent),
  ==_iff w.attempts attempt,
  status-Bound agent attempt r db bound,
)

HoldsBackup-may_finalize :
    (w : WorkUnit) (agent : String) (attempt : ℕ) (r : WorkResult) (db : Db)
    → w.work_unit_id ≡ r.work_unit_id
    → HoldsBackup agent attempt w db
    → (r.status ≡ succeeded → PayloadBound agent attempt r db)
    → may_finalize w agent attempt r db ≡ true
unfolding may_finalize backup_role backup_binding_accepted
HoldsBackup-may_finalize w agent attempt r db key h bound = ground (
  arith,
  h.open_unit,
  subst (λ u. backup_holder_exists u agent attempt db ≡ true) key h.backup,
  status-Bound agent attempt r db bound,
)

MayComplete-may_finalize :
    (agent : String) (attempt : ℕ) (r : WorkResult) (db : Db) (m : MayComplete agent attempt r db)
    → may_finalize m.unit agent attempt r db ≡ true
MayComplete-may_finalize agent attempt r db m = elim m.entitled [
  | inl h ↦ HoldsLease-may_finalize m.unit agent attempt r db h m.bound
  | inr h ↦
      HoldsBackup-may_finalize m.unit agent attempt r db
        (lookup-key unit_key _ db.work_units m.found) h m.bound
]

complete_unit-turned_away :
    (agent : String) (attempt : ℕ) (r : WorkResult) (now : ℕ) (db : Db)
    → result_exists r.work_unit_id db ≡ false
    → (complete_unit agent attempt r now db).value ≡ false
    → complete_unit agent attempt r now db ≡ refused false db
unfolding complete_unit
complete_unit-turned_away agent attempt r now db fresh h =
    elim (Option-cases (unit_of r.work_unit_id db)) [
      | inl e ↦ rw (e, complete_unit) refl
      | inr (w, e) ↦ ground (arith, e, fresh, h)
    ]

-- A completion of a unit that has no result is accepted when its agent holds the unit's current
-- lease, or its backup lease while the unit is leased or pending, and a success names a payload that
-- the agent bound for the attempt; in every other case it is refused, and then it changes nothing
-- and announces nothing.
pub complete_unit-refused :
    (agent : String) (attempt : ℕ) (r : WorkResult) (now : ℕ) (db : Db)
    → result_exists r.work_unit_id db ≡ false
    → ((complete_unit agent attempt r now db).value ≡ true ↔ MayComplete agent attempt r db)
      × (((complete_unit agent attempt r now db).value ≡ true)
          ⊎ (complete_unit agent attempt r now db ≡ refused false db))
complete_unit-refused agent attempt r now db fresh = (
  (accepted, allowed),
  elim (Bool-cases (complete_unit agent attempt r now db).value) [
    | inl e ↦ inl e
    | inr e ↦ inr (complete_unit-turned_away agent attempt r now db fresh e)
  ],
)
  where
    accepted : (complete_unit agent attempt r now db).value ≡ true → MayComplete agent attempt r db
    accepted h =
        let (w, e, who, bound) = complete_unit-authorised agent attempt r now db fresh h in
        record { unit = w; found = e; entitled = who; bound = bound }

    allowed : MayComplete agent attempt r db → (complete_unit agent attempt r now db).value ≡ true
    allowed m =
        unfold complete_unit in
        ground (arith, m.found, fresh, MayComplete-may_finalize agent attempt r db m)
