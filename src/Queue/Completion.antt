-- ===== src/Queue/Completion.antt =====
-- Who may complete a unit, what a completion leaves behind, and that it may be repeated.

use fallow.Prelude.{
  ℕ, ◌≡◌, refl, ◌⊎◌, true, false, ◌&&◌, ◌||◌, Option, none, some, String, arith, Bool-cases, inl,
  inr, Option-cases,
}
use fallow.Prelude.Eq.{◌==◌, String_eq, ℕ_eq, Option_eq, ==_iff, Pair_eq}
use fallow.Prelude.Table.{lookup, lookup-key}
use fallow.Queue.Rows.{
  succeeded, WorkUnit, WorkResult, Binding, Db, is_leased, is_pending, unit_key, binding_key,
  status_eq,
}
use fallow.Queue.Tables.{unit_of, result_exists}
use fallow.Queue.Backup.{backup_holder_exists}
use fallow.Queue.Complete.{
  complete_unit, may_finalize, completion_accepted, backup_role, result_binding_accepted,
  backup_binding_accepted,
}

-- The two ways to be entitled to finalize a unit.
pub record HoldsLease (agent : String) (attempt : ℕ) (w : WorkUnit) : Type 0 where
  pub leased : is_leased w.state ≡ true
  pub holder : w.lease_agent ≡ some agent
  pub current : w.attempts ≡ attempt

pub record HoldsBackup (agent : String) (attempt : ℕ) (w : WorkUnit) (db : Db) : Type 0 where
  pub open_unit : (is_leased w.state || is_pending w.state) ≡ true
  pub backup : backup_holder_exists w.work_unit_id agent attempt db ≡ true

-- The payload that a success names was bound by this agent for this attempt.
abbrev pub PayloadBound : String → ℕ → WorkResult → Db → Type 0
PayloadBound agent attempt r db =
    (b : Binding) × (lookup binding_key (r.work_unit_id, attempt) db.bindings ≡ some b)
    × (b.agent_id ≡ agent)
    × (some b.result_ref ≡ r.result_ref)

binding_accepted-PayloadBound :
    (agent : String) (attempt : ℕ) (r : WorkResult) (db : Db)
    → result_binding_accepted agent attempt r db ≡ true
    → PayloadBound agent attempt r db
unfolding result_binding_accepted
binding_accepted-PayloadBound agent attempt r db h =
    go (lookup binding_key (r.work_unit_id, attempt) db.bindings) refl h
  where
    go :
        (o : Option Binding)
        → lookup binding_key (r.work_unit_id, attempt) db.bindings ≡ o
        → (elim o [
          | none ↦ false
          | some b ↦ b.agent_id == agent && some b.result_ref == r.result_ref
        ])
          ≡ true
        → PayloadBound agent attempt r db
    go none e k = absurd (cc)
    go (some b) e k = (
      b,
      e,
      ground (arith, k, ==_iff b.agent_id agent),
      ground (arith, k, ==_iff (some b.result_ref) r.result_ref),
    )

completion_accepted-HoldsLease :
    (agent : String) (attempt : ℕ) (w : WorkUnit)
    → completion_accepted agent attempt w ≡ true
    → HoldsLease agent attempt w
unfolding completion_accepted
completion_accepted-HoldsLease agent attempt w h =
    ground (arith, ==_iff w.lease_agent (some agent), ==_iff w.attempts attempt)

may_finalize-entitled :
    (w : WorkUnit) (agent : String) (attempt : ℕ) (r : WorkResult) (db : Db)
    → w.work_unit_id ≡ r.work_unit_id
    → may_finalize w agent attempt r db ≡ true
    → HoldsLease agent attempt w ⊎ HoldsBackup agent attempt w db
unfolding may_finalize
may_finalize-entitled w agent attempt r db e h =
    elim (Bool-cases (completion_accepted agent attempt w)) [
      | inl p ↦ inl (completion_accepted-HoldsLease agent attempt w p)
      | inr p ↦ inr (backup_role-HoldsBackup (ground (arith, h, p)))
    ]
  where
    backup_role-HoldsBackup :
        backup_role r.work_unit_id agent attempt w db ≡ true → HoldsBackup agent attempt w db
    backup_role-HoldsBackup k = rw e (unfold backup_role in ground (arith, k))

may_finalize-PayloadBound :
    (w : WorkUnit) (agent : String) (attempt : ℕ) (r : WorkResult) (db : Db)
    → may_finalize w agent attempt r db ≡ true
    → status_eq r.status succeeded ≡ true
    → PayloadBound agent attempt r db
unfolding may_finalize backup_binding_accepted
may_finalize-PayloadBound w agent attempt r db h s =
    binding_accepted-PayloadBound agent attempt r db (ground (arith, h, s))

-- A completion that is accepted for a unit with no result comes from the holder of the current
-- lease, or from the holder of the unit's backup lease while the unit is leased or pending; and a
-- success names a payload that the same agent bound for the same attempt.
pub complete_unit-authorised :
    (agent : String) (attempt : ℕ) (r : WorkResult) (now : ℕ) (db : Db)
    → result_exists r.work_unit_id db ≡ false
    → (complete_unit agent attempt r now db).value ≡ true
    → (w : WorkUnit) × (unit_of r.work_unit_id db ≡ some w)
      × (HoldsLease agent attempt w ⊎ HoldsBackup agent attempt w db)
      × (r.status ≡ succeeded → PayloadBound agent attempt r db)
unfolding complete_unit
complete_unit-authorised agent attempt r now db fresh h =
    elim (Option-cases (unit_of r.work_unit_id db)) [
      | inl e ↦ absurd (ground (arith, e, h))
      | inr (w, e) ↦
          let ok : may_finalize w agent attempt r db ≡ true = ground (arith, fresh, e, h) in
          (
            w,
            e,
            may_finalize-entitled w agent attempt r db (lookup-key unit_key _ db.work_units e) ok,
            λ s. may_finalize-PayloadBound w agent attempt r db ok (rw s),
          )
    ]
