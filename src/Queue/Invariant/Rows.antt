-- ===== src/Queue/Invariant/Rows.antt =====
-- The invariant, row by row and across the tables.
use mathlib.Core.Option
use fallow.Prelude.{
  ℕ, ◌≡◌, ◌≤◌, ◌<◌, refl, sym, Bool, true, false, Option, none, some, String, List, arith, is_some,
  All, All-map, map,
}
use fallow.Prelude.Eq.{String_eq}
use fallow.Prelude.Table.{IsKeyed, IsKeyed-map}
use fallow.Queue.Rows.{
  WorkUnitState, WorkUnit, Db, Config, unit_key, result_key, is_done, is_leased, is_pending,
  is_dead,
}
use fallow.Queue.Tables.{unit_of, result_exists, claim_row, extend_row, done_row}
use fallow.Queue.Requeue.{branch_row, retry, give_up}
use fallow.Queue.Units.{KeepsId, unit_of-map}

-- The retry budget: at most `max_attempts` leases; a pending unit has one left, a leased one has
-- its holder and its expiry on record, and a dead one has used them all.
pub record UnitOk (cfg : Config) (w : WorkUnit) : Type 0 where
  pub budget : w.attempts ≤ cfg.max_attempts
  pub room : is_pending w.state ≡ true → w.attempts < cfg.max_attempts
  pub held :
      is_leased w.state ≡ true
      → (0 < w.attempts) × (is_some w.lease_agent ≡ true) × (is_some w.lease_expires ≡ true)
  pub spent : is_dead w.state ≡ true → w.attempts ≡ cfg.max_attempts

abbrev pub done_unit : Option WorkUnit → Bool
done_unit none = false
done_unit (some w) = is_done w.state

-- A result is stored for the units that are done, and for no other id.
abbrev pub IsFinal : Db → Type 0
IsFinal db = (u : String) → result_exists u db ≡ done_unit (unit_of u db)

pub record IsValid (cfg : Config) (db : Db) : Type 0 where
  pub units : All (UnitOk cfg) db.work_units
  pub units_keyed : IsKeyed unit_key db.work_units
  pub results_keyed : IsKeyed result_key db.unit_results
  pub final : IsFinal db

-- An update of the units that is right on each row, and completes and reopens none.
pub map-IsValid :
    (cfg : Config) (g : WorkUnit → WorkUnit)
    → KeepsId g
    → ((w : WorkUnit) → UnitOk cfg w → UnitOk cfg (g w))
    → ((w : WorkUnit) → is_done (g w).state ≡ is_done w.state)
    → (db db' : Db) → db'.work_units ≡ map g db.work_units
    → db'.unit_results ≡ db.unit_results
    → IsValid cfg db
    → IsValid cfg db'
map-IsValid cfg g keeps right same db db' eu er v = record {
  units = rw eu (All-map (UnitOk cfg) (UnitOk cfg) g right db.work_units v.units);
  units_keyed = rw eu (IsKeyed-map unit_key g keeps db.work_units v.units_keyed);
  results_keyed = rw er v.results_keyed;
  final = λ u.
      rw (er, eu, unit_of-map g keeps u db.work_units, v.final u) (done_unit-map (unit_of u db));
}
  where
    done_unit-map : (o : Option WorkUnit) → done_unit o ≡ done_unit (Option.map g o)
    done_unit-map none = refl
    done_unit-map (some w) = sym (same w)

module _ (cfg : Config) where
  pub claim_row-UnitOk :
      (agent : String) (t : ℕ) (u : String) (w : WorkUnit)
      → UnitOk cfg w
      → UnitOk cfg (claim_row agent t u w)
  unfolding claim_row
  claim_row-UnitOk agent t u w h = ground arith

  pub extend_row-UnitOk :
      (agent : String) (t : ℕ) (us : List String) (w : WorkUnit)
      → UnitOk cfg w
      → UnitOk cfg (extend_row agent t us w)
  unfolding extend_row
  extend_row-UnitOk agent t us w h = ground arith

  pub done_row-UnitOk : (u : String) (w : WorkUnit) → UnitOk cfg w → UnitOk cfg (done_row u w)
  unfolding done_row
  done_row-UnitOk u w h = ground arith

  pub retry_row-UnitOk :
      (selects : WorkUnit → Bool) (w : WorkUnit)
      → UnitOk cfg w
      → UnitOk cfg (branch_row (retry cfg selects) WorkUnitState.pending w)
  unfolding branch_row
  retry_row-UnitOk selects w h = ground arith

  pub give_up_row-UnitOk :
      (selects : WorkUnit → Bool) (w : WorkUnit)
      → UnitOk cfg w
      → UnitOk cfg (branch_row (give_up cfg selects) WorkUnitState.dead w)
  unfolding branch_row
  give_up_row-UnitOk selects w h = ground arith
