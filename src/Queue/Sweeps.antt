-- ===== src/Queue/Sweeps.antt =====
-- What `_requeue` does to the rows that a selector picks, and what it announces.
use fallow.Prelude.{
  ℕ, ◌+◌, ◌≡◌, ap, Bool, false, ◌&&◌, some, String, List, [], ◌∷◌, arith, if◌then◌else◌, ltb, map,
  filter, count, length, length-append, length-map, count-append, All,
}
use fallow.Prelude.Eq.{String_eq, Option_eq}
use fallow.Prelude.Rank.{length-insertion_sort, count-insertion_sort}
use fallow.Queue.Rows.{WorkUnitState, WorkUnit, Db, Config, UnitTransition, str_of}
use fallow.Queue.Tables.{unit_of}
use fallow.Queue.Requeue.{
  branch_row, retry, give_up, requeue, run_requeue_branch, set_unit_state, transition_of,
}
use fallow.Queue.Units.{unit_of-map, requeue_row, work_units-requeue}
use fallow.Queue.Invariant.Moves.{SelectsLeased, requeue_row-KeepsId}

-- The state of a unit whose lease is taken back.
abbrev pub after_lease : Config → WorkUnit → WorkUnitState
after_lease cfg w =
    if ltb w.attempts cfg.max_attempts then WorkUnitState.pending else WorkUnitState.dead

requeue_row_lem :
    (cfg : Config) (selects : WorkUnit → Bool) (w : WorkUnit)
    → SelectsLeased selects
    → requeue_row cfg selects w ≡ (if selects w then set_unit_state (after_lease cfg w) w else w)
unfolding branch_row
requeue_row_lem cfg selects w leased =
    ground (arith, leased w, leased (set_unit_state WorkUnitState.pending w))

module _ (cfg : Config) (selects : WorkUnit → Bool) (leased : SelectsLeased selects) where
  pub unit_of-requeue :
      (at : ℕ) (db : Db) (u : String) (w : WorkUnit)
      → unit_of u db ≡ some w
      → unit_of u (requeue cfg selects at db).0
        ≡ some (if selects w then set_unit_state (after_lease cfg w) w else w)
  unit_of-requeue at db u w found =
      rw
        (
          work_units-requeue cfg selects at db,
          unit_of-map (requeue_row cfg selects) (requeue_row-KeepsId cfg selects leased) u
              db.work_units,
          found,
        )
        (ap some (requeue_row_lem cfg selects w leased))

  -- No row is selected again.
  swept_rows :
      (ws : List WorkUnit) → All (λ w. selects w ≡ false) (map (requeue_row cfg selects) ws)
  unfolding branch_row
  swept_rows [] = tt
  swept_rows (w ∷ ws) = (
    ground (
      arith,
      leased w,
      leased (requeue_row cfg selects w),
      leased (set_unit_state WorkUnitState.dead w),
      leased (set_unit_state WorkUnitState.pending w),
      leased (set_unit_state WorkUnitState.dead (set_unit_state WorkUnitState.pending w)),
    ),
    swept_rows ws,
  )

  branches-count :
      (ws : List WorkUnit)
      → length (filter (retry cfg selects) ws)
          + length (
              filter
                (give_up cfg selects)
                (map (branch_row (retry cfg selects) WorkUnitState.pending) ws))
        ≡ count selects ws
  unfolding branch_row
  branches-count [] = omega arith
  branches-count (w ∷ ws) =
      ground (arith, branches-count ws, leased (set_unit_state WorkUnitState.pending w))

  -- What the transition of a swept unit says.
  abbrev announced : ℕ → WorkUnit → UnitTransition
  announced at w = record {
    work_unit_id = w.work_unit_id;
    job_id = w.job_id;
    agent_id = str_of w.lease_agent;
    attempt = w.attempts;
    state = after_lease cfg w;
    at = at;
  }

  branches-announced :
      (p : UnitTransition → Bool) (at : ℕ) (db : Db)
      → (let (db1, back) = run_requeue_branch (retry cfg selects) WorkUnitState.pending at db in
          let (db2, dead) = run_requeue_branch (give_up cfg selects) WorkUnitState.dead at db1 in
          count p back + count p dead ≡ count (λ w. selects w && p (announced at w)) db.work_units)
  unfolding run_requeue_branch branch_row
  branches-announced p at db = go db.work_units
    where
      go :
          (ws : List WorkUnit)
          → count p (map (transition_of WorkUnitState.pending at) (filter (retry cfg selects) ws))
              + count p (
                  map (transition_of WorkUnitState.dead at) (
                    filter
                      (give_up cfg selects)
                      (map (branch_row (retry cfg selects) WorkUnitState.pending) ws)))
            ≡ count (λ w. selects w && p (announced at w)) ws
      go [] = omega arith
      go (w ∷ ws) = ground (arith, go ws, leased w, leased (set_unit_state WorkUnitState.pending w))

  pub count-requeue :
      (p : UnitTransition → Bool) (at : ℕ) (db : Db)
      → count p (requeue cfg selects at db).1
        ≡ count (λ w. selects w && p (announced at w)) db.work_units
  unfolding requeue
  count-requeue p at db = simp (count-insertion_sort, count-append) (branches-announced p at db)

  pub length-requeue :
      (at : ℕ) (db : Db) → length (requeue cfg selects at db).1 ≡ count selects db.work_units
  unfolding requeue run_requeue_branch
  length-requeue at db =
      simp (length-insertion_sort, length-append, length-map) (branches-count db.work_units)

  pub requeue-none_left :
      (at : ℕ) (db : Db) → All (λ w. selects w ≡ false) (requeue cfg selects at db).0.work_units
  requeue-none_left at db = rw (work_units-requeue cfg selects at db) (swept_rows db.work_units)
