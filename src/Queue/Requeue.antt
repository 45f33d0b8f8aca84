-- ===== src/Queue/Requeue.antt =====
-- The requeue part of queue/store.py: expired leases, and the leases of an agent that went away.
use fallow.Prelude.{
  ℕ, Bool, false, ◌&&◌, none, some, String, List, [], ◌∷◌, ◌++◌, map, ltb, leb, if◌then◌else◌,
  length, filter,
}
use fallow.Prelude.Eq.{◌==◌, String_eq, Option_eq}
use fallow.Prelude.Rank.{by_text, by, insertion_sort}
use fallow.Queue.Rows.{
  WorkUnitState, WorkUnit, Db, Config, Reply, UnitTransition, is_leased, str_of,
}
use fallow.Queue.Tables.{mark_terminal}
use fallow.Queue.Status.{recompute_job_state}

-- SELECTOR_EXPIRED; a comparison with NULL selects nothing.
unfoldable pub expired : ℕ → WorkUnit → Bool
expired now w = elim w.lease_expires [ none ↦ false | some t ↦ is_leased w.state && ltb t now ]

-- SELECTOR_BY_AGENT.
unfoldable pub held_by : String → WorkUnit → Bool
held_by agent w = is_leased w.state && w.lease_agent == some agent

abbrev pub set_unit_state : WorkUnitState → WorkUnit → WorkUnit
set_unit_state s w = record w { state = s }

-- The WHERE clauses of REQUEUE_TO_PENDING and REQUEUE_TO_DEAD.
abbrev pub retry : Config → (WorkUnit → Bool) → WorkUnit → Bool
retry cfg selects w = selects w && ltb w.attempts cfg.max_attempts

abbrev pub give_up : Config → (WorkUnit → Bool) → WorkUnit → Bool
give_up cfg selects w = selects w && leb cfg.max_attempts w.attempts

unfoldable pub branch_row : (WorkUnit → Bool) → WorkUnitState → WorkUnit → WorkUnit
branch_row test s w = if test w then set_unit_state s w else w

abbrev pub transition_of : WorkUnitState → ℕ → WorkUnit → UnitTransition
transition_of s at w = record {
  work_unit_id = w.work_unit_id;
  job_id = w.job_id;
  agent_id = str_of w.lease_agent;
  attempt = w.attempts;
  state = s;
  at = at;
}

-- `_run_requeue_branch`: the update, and a transition for each row that it returns.
unfoldable pub run_requeue_branch :
    (WorkUnit → Bool) → WorkUnitState → ℕ → Db → Db × List UnitTransition
unfolding branch_row
run_requeue_branch test s at db = (
  record db { work_units = map (branch_row test s) db.work_units },
  map (transition_of s at) (filter test db.work_units),
)

-- The dead units' memberships become terminal.
unfoldable pub mark_dead : List UnitTransition → Db → Db
mark_dead [] db = db
mark_dead (t ∷ ts) db =
    mark_dead ts (mark_terminal t.job_id t.work_unit_id WorkUnitState.dead none none db)

-- `for job_id in {...}: _recompute_job_state(job_id)`, with a job once for each of its transitions:
-- to recompute a state again leaves it as it is.
unfoldable pub recompute_jobs : List UnitTransition → Db → Db
recompute_jobs [] db = db
recompute_jobs (t ∷ ts) db = recompute_jobs ts (recompute_job_state t.job_id db)

-- `_requeue`. The transitions come back sorted by the unit's id.
unfoldable pub requeue : Config → (WorkUnit → Bool) → ℕ → Db → Db × List UnitTransition
unfolding run_requeue_branch mark_dead recompute_jobs
requeue cfg selects at db =
    let (db1, back) = run_requeue_branch (retry cfg selects) WorkUnitState.pending at db in
    let (db2, dead) = run_requeue_branch (give_up cfg selects) WorkUnitState.dead at db1 in
    let transitions = insertion_sort (by by_text (λ t. t.work_unit_id)) (back ++ dead) in
    (recompute_jobs transitions (mark_dead dead db2), transitions)

abbrev swept : Db × List UnitTransition → Reply ℕ
swept (db, ts) = record { db = db; value = length ts; emitted = ts }

unfoldable pub requeue_expired : Config → ℕ → Db → Reply ℕ
unfolding requeue expired
requeue_expired cfg now db = swept (requeue cfg (expired now) now db)

unfoldable pub requeue_agent : Config → String → ℕ → Db → Reply ℕ
unfolding requeue held_by
requeue_agent cfg agent now db = swept (requeue cfg (held_by agent) now db)
