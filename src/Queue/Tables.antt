-- ===== src/Queue/Tables.antt =====
-- The statements of queue/_sql.py as functions on the tables. An UPDATE is a `map` over the rows,
-- an INSERT appends, and a SELECT by primary key is a `lookup`. What SQL leaves open, the choice
-- among rows that tie in an ORDER BY, falls here on the first row of the table.
use fallow.Prelude.{
  ℕ, ◌+◌, Bool, true, false, ◌&&◌, Option, none, some, String, List, [], ◌∷◌, ◌++◌, map,
  if◌then◌else◌, any, filter, or_else,
}
use fallow.Prelude.Eq.{◌==◌, String_eq, Option_eq, ℕ_eq, Pair_eq}
use fallow.Prelude.Table.{lookup, has}
use fallow.Queue.Rows.{
  JobState, WorkUnitState, WorkResultStatus, Job, WorkUnit, UnitResult, Binding, Membership, Db,
  is_pending, is_leased, status_eq, succeeded, job_key, unit_key, result_key, binding_key,
}

abbrev pub unit_of : String → Db → Option WorkUnit
unit_of u db = lookup unit_key u db.work_units

abbrev pub job_of : String → Db → Option Job
job_of j db = lookup job_key j db.jobs

abbrev pub result_of : String → Db → Option UnitResult
result_of u db = lookup result_key u db.unit_results

-- SELECT_RESULT_EXISTS.
abbrev pub result_exists : String → Db → Bool
result_exists u db = has result_key u db.unit_results

-- The EXISTS clause shared by three statements: a payload bound by the result's own agent.
unfoldable pub payload_bound : UnitResult → String → Db → Bool
payload_bound r ref db =
    any (λ b. b.work_unit_id == r.work_unit_id && b.agent_id == r.agent_id && b.result_ref == ref)
      db.bindings

-- The reference of a succeeded result whose payload is bound; none otherwise.
unfoldable pub bound_ref : UnitResult → Db → Option String
unfolding payload_bound
bound_ref r db = elim r.result_ref [
  | none ↦ none
  | some ref ↦ if status_eq r.status succeeded && payload_bound r ref db then some ref else none
]

-- SELECT_SUCCEEDED_RESULTS, at one id.
unfoldable pub succeeded_result : Db → String → Option String
unfolding bound_ref
succeeded_result db u = elim (result_of u db) [ none ↦ none | some r ↦ bound_ref r db ]

-- SELECT_COMPLETED_RESULT_REF: the join on the bindings tests the same columns.
unfoldable pub completed_result_ref : Db → String → Option String
unfolding bound_ref
completed_result_ref db u = elim (result_of u db) [ none ↦ none | some r ↦ bound_ref r db ]

-- COALESCE(m.terminal_state, u.state), with u LEFT JOINed on the unit and the job.
unfoldable pub member_state : Db → Membership → Option WorkUnitState
member_state db m =
    let live : Option WorkUnitState = elim (unit_of m.work_unit_id db) [
      | none ↦ none
      | some w ↦ if w.job_id == m.job_id then some w.state else none
    ] in
    or_else m.terminal_state live

abbrev pub holds : (WorkUnitState → Bool) → Option WorkUnitState → Bool
holds p none = false
holds p (some s) = p s

abbrev pub members : String → Db → List Membership
members job db = filter (λ m. m.job_id == job) db.memberships

-- SET_JOB_STATE.
unfoldable pub set_job_state : JobState → String → Db → Db
set_job_state s job db = record db {
  jobs = map (λ j. if j.job_id == job then record j { state = s } else j) db.jobs;
}

-- CLAIM_UNIT, without its RETURNING clause.
unfoldable pub claim_row : String → ℕ → String → WorkUnit → WorkUnit
claim_row agent expires u w =
    if w.work_unit_id == u && is_pending w.state
    then record w {
      state = WorkUnitState.leased;
      attempts = w.attempts + 1;
      lease_agent = some agent;
      lease_expires = some expires;
    }
    else w

-- EXTEND_LEASES.
unfoldable pub extend_row : String → ℕ → List String → WorkUnit → WorkUnit
extend_row agent expires ids w =
    if is_leased w.state && w.lease_agent == some agent && any (λ u. u == w.work_unit_id) ids
    then record w { lease_expires = some expires }
    else w

-- MARK_UNIT_DONE.
unfoldable pub done_row : String → WorkUnit → WorkUnit
done_row u w = if w.work_unit_id == u then record w { state = WorkUnitState.done } else w

-- MARK_JOB_UNIT_TERMINAL.
unfoldable pub terminal_row :
    String
    → String
    → WorkUnitState
    → Option WorkResultStatus
    → Option String
    → Membership
    → Membership
terminal_row job u s status ref m =
    if m.job_id == job && m.work_unit_id == u
    then record m { terminal_state = some s; result_status = status; result_ref = ref }
    else m

abbrev pub mark_terminal :
    String → String → WorkUnitState → Option WorkResultStatus → Option String → Db → Db
mark_terminal job u s status ref db = record db {
  memberships = map (terminal_row job u s status ref) db.memberships;
}

-- INSERT OR IGNORE INTO unit_results.
unfoldable pub insert_result : UnitResult → Db → Db
insert_result r db =
    if result_exists r.work_unit_id db
    then db
    else record db { unit_results = db.unit_results ++ r ∷ [] }

-- INSERT INTO result_payload_bindings ... ON CONFLICT(work_unit_id, attempt) DO NOTHING, with
-- whether a row was returned.
unfoldable pub insert_binding : Binding → Db → Db × Bool
insert_binding b db =
    if has binding_key (binding_key b) db.bindings
    then (db, false)
    else (record db { bindings = db.bindings ++ b ∷ [] }, true)
