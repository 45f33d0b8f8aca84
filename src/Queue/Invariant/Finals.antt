-- ===== src/Queue/Invariant/Finals.antt =====
-- Completion keeps the invariant.
use mathlib.Core.Option
use fallow.Prelude.{
  ℕ, ◌≡◌, refl, sym, subst, true, false, Option, none, some, String, [], ◌∷◌, arith, if◌then◌else◌,
  is_some, Bool-cases, inl, inr, Option-cases, All-map,
}
use fallow.Prelude.Eq.{◌==◌, String_eq, ==_iff}
use fallow.Prelude.Table.{lookup, lookup-append, lookup-key, IsKeyed-append, IsKeyed-map}
use fallow.Queue.Rows.{WorkUnit, WorkResult, Db, Config, is_done, unit_key, result_key}
use fallow.Queue.Tables.{unit_of, result_of, result_exists, done_row, insert_result, set_job_state}
use fallow.Queue.Status.{recompute_job_state}
use fallow.Queue.Complete.{result_row, finalize, complete_unit}
use fallow.Queue.Units.{unit_of-map, done_row-KeepsId}
use fallow.Queue.Invariant.Rows.{UnitOk, IsValid, IsFinal, done_row-UnitOk}

-- Another unit's row is as it was.
pub done_row-other :
    (u v : String) (o : Option WorkUnit)
    → ((w : WorkUnit) → o ≡ some w → w.work_unit_id ≡ v)
    → (u == v) ≡ false
    → Option.map (done_row u) o ≡ o
unfolding done_row
done_row-other u v none key other = refl
done_row-other u v (some w) key other =
    ground (arith, key w refl, ==_iff w.work_unit_id u, ==_iff u v)

done_row_self :
    (u : String) (w : WorkUnit) → w.work_unit_id ≡ u → is_done (done_row u w).state ≡ true
unfolding done_row
done_row_self u w h = ground (arith, ==_iff w.work_unit_id u)

-- `finalize` puts the one result in the table and marks the one unit.
pub unit_of-finalize :
    (w : WorkUnit) (agent : String) (now : ℕ) (r : WorkResult) (db : Db) (u : String)
    → unit_of u (finalize w agent now r db) ≡ Option.map (done_row r.work_unit_id) (unit_of u db)
unfolding finalize insert_result recompute_job_state set_job_state
unit_of-finalize w agent now r db u = elim (Bool-cases (result_exists r.work_unit_id db)) [
  | inl e ↦ rw e (unit_of-map _ (done_row-KeepsId r.work_unit_id) u db.work_units)
  | inr e ↦ rw e (unit_of-map _ (done_row-KeepsId r.work_unit_id) u db.work_units)
]

pub result_of-finalize :
    (w : WorkUnit) (agent : String) (now : ℕ) (r : WorkResult) (db : Db) (u : String)
    → result_exists r.work_unit_id db ≡ false
    → result_of u (finalize w agent now r db)
      ≡ (if r.work_unit_id == u then some (result_row r agent now) else result_of u db)
unfolding finalize insert_result recompute_job_state set_job_state lookup
result_of-finalize w agent now r db u fresh = rw fresh (
    ground (
      arith,
      fresh,
      lookup-append result_key u db.unit_results (result_row r agent now ∷ []),
      ==_iff r.work_unit_id u,
    ))

none_of_absent {ℓ} : {A : Type ℓ} (o : Option A) → is_some o ≡ false → o ≡ none
none_of_absent none h = refl
none_of_absent (some a) h = cc

module _ (cfg : Config) (w : WorkUnit) (agent : String) (now : ℕ) (r : WorkResult) (db : Db) where
  finalize-IsFinal :
      unit_of r.work_unit_id db ≡ some w
      → result_exists r.work_unit_id db ≡ false
      → IsFinal db
      → IsFinal (finalize w agent now r db)
  finalize-IsFinal found fresh final u =
      rw (result_of-finalize w agent now r db u fresh, unit_of-finalize w agent now r db u)
        (elim (Bool-cases (r.work_unit_id == u)) [
          | inl e ↦
              let same : r.work_unit_id ≡ u = (==_iff _ _).0 e in
              let here : unit_of u db ≡ some w = subst (λ k. unit_of k db ≡ some w) same found in
              rw (e, here)
                (sym (done_row_self r.work_unit_id w (lookup-key unit_key _ db.work_units found)))
          | inr e ↦
              rw
                (
                  e,
                  done_row-other r.work_unit_id u (unit_of u db)
                      (λ x. lookup-key unit_key u db.work_units) e,
                )
                (final u)
        ])

  pub finalize-IsValid :
      unit_of r.work_unit_id db ≡ some w
      → result_exists r.work_unit_id db ≡ false
      → IsValid cfg db
      → IsValid cfg (finalize w agent now r db)
  unfolding finalize insert_result recompute_job_state set_job_state
  finalize-IsValid found fresh v = record {
    units = rw fresh (
        All-map (UnitOk cfg) (UnitOk cfg) _ (done_row-UnitOk cfg r.work_unit_id) db.work_units
          v.units);
    units_keyed =
        rw fresh
          (IsKeyed-map unit_key _ (done_row-KeepsId r.work_unit_id) db.work_units v.units_keyed);
    results_keyed = rw fresh (
        IsKeyed-append result_key db.unit_results (result_row r agent now) (none_of_absent _ fresh)
          v.results_keyed);
    final = finalize-IsFinal found fresh v.final;
  }

pub complete_unit-IsValid :
    (cfg : Config) (agent : String) (attempt : ℕ) (r : WorkResult) (now : ℕ) (db : Db)
    → IsValid cfg db
    → IsValid cfg (complete_unit agent attempt r now db).db
unfolding complete_unit
complete_unit-IsValid cfg agent attempt r now db v =
    elim (Option-cases (unit_of r.work_unit_id db)) [
      | inl e ↦ rw (e, complete_unit) v
      | inr (w, e) ↦
          rw (e, complete_unit) (ground (arith, v, finalize-IsValid cfg w agent now r db e))
    ]
