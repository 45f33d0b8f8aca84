-- ===== src/Queue/Invariant/Submits.antt =====
-- Submission keeps the invariant.
use mathlib.Core.Option
use fallow.Prelude.{
  ℕ, ◌≡◌, ◌<◌, refl, sym, subst, Bool, true, false, not, ◌&&◌, Option, none, some, String, List, [],
  ◌∷◌, ◌++◌, arith, if◌then◌else◌, is_some, Bool-cases, inl, inr, All, All-map, All-append,
}
use fallow.Prelude.Eq.{◌==◌, String_eq, ==_iff}
use fallow.Prelude.Table.{
  lookup, has, lookup-append, lookup-key, lookup-delete, IsKeyed, IsKeyed-append, IsKeyed-map,
  IsKeyed-delete,
}
use fallow.Queue.Rows.{WorkUnit, Db, Config, WorkUnitSpec, JobSubmit, unit_key, result_key}
use fallow.Queue.Tables.{unit_of, result_of, result_exists, set_job_state, succeeded_result}
use fallow.Queue.Status.{recompute_job_state}
use fallow.Queue.Submit.{
  replace_row, upsert_unit, snapshot_terminal_owner, upsert_membership, forget_unit, fresh_row,
  attach_unit, attach_units, insert_job, job_row, submit_job, unique_units,
}
use fallow.Queue.Units.{unit_of-map, replace_row-KeepsId}
use fallow.Queue.Invariant.Rows.{UnitOk, IsValid, IsFinal}

replace_row-lookup :
    (new : WorkUnit) (v : String) (o : Option WorkUnit)
    → ((w : WorkUnit) → o ≡ some w → w.work_unit_id ≡ v)
    → (new.work_unit_id ≡ v → is_some o ≡ true)
    → Option.map (replace_row new) o ≡ (if new.work_unit_id == v then some new else o)
unfolding replace_row
replace_row-lookup new v none key there = ground (arith, ==_iff new.work_unit_id v)
replace_row-lookup new v (some w) key there =
    ground (arith, key w refl, ==_iff w.work_unit_id new.work_unit_id, ==_iff new.work_unit_id v)

pub unit_of-upsert :
    (new : WorkUnit) (db : Db) (v : String)
    → unit_of v (upsert_unit new db) ≡ (if new.work_unit_id == v then some new else unit_of v db)
unfolding upsert_unit
unit_of-upsert new db v = elim (Bool-cases (has unit_key new.work_unit_id db.work_units)) [
  | inl e ↦
      rw (e, unit_of-map (replace_row new) (replace_row-KeepsId new) v db.work_units)
        (replace_row-lookup new v (unit_of v db) (λ w. lookup-key unit_key v db.work_units)
          (λ p. subst (λ k. has unit_key k db.work_units ≡ true) p e))
  | inr e ↦ rw e (
      unfold lookup in
      ground
        (arith, e, lookup-append unit_key v db.work_units (new ∷ []), ==_iff new.work_unit_id v))
]

work_units-snapshot :
    (u : String) (db : Db) → (snapshot_terminal_owner u db).work_units ≡ db.work_units
unfolding snapshot_terminal_owner upsert_membership
work_units-snapshot u db = ground arith

unit_results-snapshot :
    (u : String) (db : Db) → (snapshot_terminal_owner u db).unit_results ≡ db.unit_results
unfolding snapshot_terminal_owner upsert_membership
unit_results-snapshot u db = ground arith

unit_results-upsert :
    (new : WorkUnit) (db : Db) → (upsert_unit new db).unit_results ≡ db.unit_results
unfolding upsert_unit
unit_results-upsert new db = ground arith

-- What a unit's turn in the loop does to the units and to the results.
pub unit_of-attach :
    (job : String) (now : ℕ) (u : WorkUnitSpec) (found : Option String) (db : Db) (v : String)
    → unit_of v (attach_unit job now u found db)
      ≡ (if u.work_unit_id == v then some (fresh_row job u (is_some found) now) else unit_of v db)
unfolding attach_unit forget_unit
unit_of-attach job now u none db v =
    rw (unit_of-upsert _ _ v, work_units-snapshot u.work_unit_id db)
unit_of-attach job now u (some ref) db v =
    rw (unit_of-upsert _ _ v, work_units-snapshot u.work_unit_id db)

pub result_of-attach :
    (job : String) (now : ℕ) (u : WorkUnitSpec) (found : Option String) (db : Db) (v : String)
    → result_of v (attach_unit job now u found db)
      ≡ (if not (is_some found) && u.work_unit_id == v then none else result_of v db)
unfolding attach_unit forget_unit
result_of-attach job now u none db v =
    rw (unit_results-upsert, unit_results-snapshot u.work_unit_id db)
      (lookup-delete result_key u.work_unit_id v db.unit_results)
result_of-attach job now u (some ref) db v =
    rw (unit_results-upsert, unit_results-snapshot u.work_unit_id db)

module _ (cfg : Config) (some_attempt : 0 < cfg.max_attempts) where
  fresh_row-UnitOk :
      (job : String) (u : WorkUnitSpec) (done : Bool) (now : ℕ)
      → UnitOk cfg (fresh_row job u done now)
  fresh_row-UnitOk job u done now = ground (arith, some_attempt)

  replace_row-UnitOk :
      (new : WorkUnit)
      → UnitOk cfg new
      → (w : WorkUnit) → UnitOk cfg w
      → UnitOk cfg (replace_row new w)
  unfolding replace_row
  replace_row-UnitOk new h w k = ground arith

  upsert-UnitOk :
      (new : WorkUnit) (db : Db)
      → UnitOk cfg new
      → All (UnitOk cfg) db.work_units
      → All (UnitOk cfg) (upsert_unit new db).work_units
  unfolding upsert_unit
  upsert-UnitOk new db h hs = elim (Bool-cases (has unit_key new.work_unit_id db.work_units)) [
    | inl e ↦ rw e (
        All-map (UnitOk cfg) (UnitOk cfg) (replace_row new) (replace_row-UnitOk new h) db.work_units
          hs)
    | inr e ↦ rw e (All-append (UnitOk cfg) db.work_units (new ∷ []) hs (h, tt))
  ]

  upsert-IsKeyed :
      (new : WorkUnit) (db : Db)
      → IsKeyed unit_key db.work_units
      → IsKeyed unit_key (upsert_unit new db).work_units
  unfolding upsert_unit
  upsert-IsKeyed new db h = elim (Bool-cases (has unit_key new.work_unit_id db.work_units)) [
    | inl e ↦
        rw e (IsKeyed-map unit_key (replace_row new) (replace_row-KeepsId new) db.work_units h)
    | inr e ↦ rw e (IsKeyed-append unit_key db.work_units new (absent _ e) h)
  ]
    where
      absent : (o : Option WorkUnit) → is_some o ≡ false → o ≡ none
      absent none p = refl
      absent (some w) p = cc

  -- A unit that is taken for done has its result in the table.
  attach_unit-IsFinal :
      (job : String) (now : ℕ) (u : WorkUnitSpec) (found : Option String) (db : Db)
      → (is_some found ≡ true → result_exists u.work_unit_id db ≡ true)
      → IsFinal db
      → IsFinal (attach_unit job now u found db)
  attach_unit-IsFinal job now u found db stored final v =
      rw (unit_of-attach job now u found db v, result_of-attach job now u found db v)
        (elim (Bool-cases (u.work_unit_id == v)) [
          | inl e ↦
              let here : is_some found ≡ true → result_exists v db ≡ true =
                subst (λ k. is_some found ≡ true → result_exists k db ≡ true) ((==_iff _ _).0 e)
                  stored in
              ground (arith, e, here)
          | inr e ↦ ground (arith, e, final v)
        ])

  -- The three tables of the invariant after a unit's turn.
  Tables : Db → Type 0
  Tables db =
      All (UnitOk cfg) db.work_units
      × IsKeyed unit_key db.work_units
      × IsKeyed result_key db.unit_results

  upsert-Tables :
      (new : WorkUnit) (db db' : Db)
      → UnitOk cfg new
      → db'.work_units ≡ db.work_units
      → IsKeyed result_key db'.unit_results
      → Tables db
      → Tables (upsert_unit new db')
  unfolding Tables
  upsert-Tables new db db' h eu kr t = (
    upsert-UnitOk new db' h (rw eu t.0),
    upsert-IsKeyed new db' (rw eu t.1),
    rw unit_results-upsert kr,
  )

  attach_unit-Tables :
      (job : String) (now : ℕ) (u : WorkUnitSpec) (found : Option String) (db : Db)
      → Tables db
      → Tables (attach_unit job now u found db)
  unfolding attach_unit forget_unit Tables
  attach_unit-Tables job now u none db t =
      upsert-Tables (fresh_row job u false now) db
        (forget_unit u.work_unit_id (snapshot_terminal_owner u.work_unit_id db))
        (fresh_row-UnitOk job u false now) (work_units-snapshot u.work_unit_id db)
        (rw unit_results-snapshot (IsKeyed-delete result_key u.work_unit_id db.unit_results t.2)) t
  attach_unit-Tables job now u (some ref) db t =
      upsert-Tables (fresh_row job u true now) db (snapshot_terminal_owner u.work_unit_id db)
        (fresh_row-UnitOk job u true now) (work_units-snapshot u.work_unit_id db)
        (rw unit_results-snapshot t.2) t

  pub attach_unit-IsValid :
      (job : String) (now : ℕ) (u : WorkUnitSpec) (found : Option String) (db : Db)
      → (is_some found ≡ true → result_exists u.work_unit_id db ≡ true)
      → IsValid cfg db
      → IsValid cfg (attach_unit job now u found db)
  unfolding Tables
  attach_unit-IsValid job now u found db stored v =
      let t = attach_unit-Tables job now u found db (v.units, v.units_keyed, v.results_keyed) in
      record {
        units = t.0;
        units_keyed = t.1;
        results_keyed = t.2;
        final = attach_unit-IsFinal job now u found db stored v.final;
      }

  -- The results that `deduped` names stay in the table through the whole loop.
  attach_units-IsValid :
      (job : String) (now : ℕ) (deduped : String → Option String) (us : List WorkUnitSpec) (db : Db)
      → ((k : String) → is_some (deduped k) ≡ true → result_exists k db ≡ true)
      → IsValid cfg db
      → IsValid cfg (attach_units job now deduped us db)
  unfolding attach_units
  attach_units-IsValid job now deduped [] db stored v = v
  attach_units-IsValid job now deduped (u ∷ us) db stored v =
      attach_units-IsValid job now deduped us _ kept
        (attach_unit-IsValid job now u (deduped u.work_unit_id) db (stored u.work_unit_id) v)
    where
      kept :
          (k : String)
          → is_some (deduped k) ≡ true
          → result_exists k (attach_unit job now u (deduped u.work_unit_id) db) ≡ true
      kept k h =
          rw (result_of-attach job now u (deduped u.work_unit_id) db k)
            (elim (Bool-cases (u.work_unit_id == k)) [
              | inl e ↦
                  let same : u.work_unit_id ≡ k = (==_iff _ _).0 e in
                  let there : is_some (deduped u.work_unit_id) ≡ true =
                    subst (λ j. is_some (deduped j) ≡ true) (sym same) h in
                  rw there (stored k h)
              | inr e ↦ rw e (ground (arith, stored k h))
            ])

succeeded_result-exists :
    (db : Db) (k : String) → is_some (succeeded_result db k) ≡ true → result_exists k db ≡ true
unfolding succeeded_result
succeeded_result-exists db k h = ground arith

module _ (cfg : Config) (some_attempt : 0 < cfg.max_attempts) where
  insert_job-IsValid :
      (job_id : String) (job : JobSubmit) (us : List WorkUnitSpec) (now : ℕ) (db : Db)
      → IsValid cfg db
      → IsValid cfg (insert_job job_id job us now db)
  unfolding insert_job recompute_job_state set_job_state
  insert_job-IsValid job_id job us now db v =
      let db1 = record db { jobs = db.jobs ++ job_row job_id job now ∷ [] } in
      let inner : IsValid cfg db1 = record {
        units = v.units;
        units_keyed = v.units_keyed;
        results_keyed = v.results_keyed;
        final = v.final;
      } in
      let outer : IsValid cfg (attach_units job_id now (succeeded_result db1) us db1) =
        attach_units-IsValid cfg some_attempt job_id now (succeeded_result db1) us db1
          (succeeded_result-exists db1) inner in
      record {
        units = outer.units;
        units_keyed = outer.units_keyed;
        results_keyed = outer.results_keyed;
        final = outer.final;
      }

  pub submit_job-IsValid :
      (job_id : String) (job : JobSubmit) (us : List WorkUnitSpec) (reuse : Bool) (now : ℕ)
      (db : Db)
      → IsValid cfg db
      → IsValid cfg (submit_job job_id job us reuse now db).0
  unfolding submit_job
  submit_job-IsValid job_id job us reuse now db v =
      ground (arith, v, insert_job-IsValid job_id job (unique_units [] us) now db v)
