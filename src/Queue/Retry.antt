-- ===== src/Queue/Retry.antt =====
-- What a sweep does to each unit: a lease that ran out, or whose agent went away, is given back or
-- given up by the retry budget.

use fallow.Prelude.{
  ℕ, ◌≤◌, ◌<◌, ◌≡◌, ◌≢◌, refl, ◌∙◌, ap, Bool, true, false, ◌&&◌, Option, none, some, String, arith,
  if◌then◌else◌, ltb, count, All, All-mono, Bool-cases, inl, inr,
}
use fallow.Prelude.Eq.{◌==◌, String_eq, Option_eq, ==_refl}
use fallow.Queue.Rows.{WorkUnitState, WorkUnit, Db, Config, UnitTransition, is_leased, str_of}
use fallow.Queue.Tables.{unit_of}
use fallow.Queue.Requeue.{requeue_expired, requeue_agent, expired, held_by}
use fallow.Queue.Invariant.Moves.{expired-SelectsLeased, held_by-SelectsLeased}
use fallow.Queue.Sweeps.{
  after_lease, unit_of-requeue, count-requeue, length-requeue, requeue-none_left,
}

-- A lease that has run out at `now`.
pub record HasExpired (now : ℕ) (w : WorkUnit) : Type 0 where
  pub leased : is_leased w.state ≡ true
  pub expires : ℕ
  pub recorded : w.lease_expires ≡ some expires
  pub past : expires < now

expired-HasExpired : (now : ℕ) (w : WorkUnit) → HasExpired now w → expired now w ≡ true
unfolding expired
expired-HasExpired now w h = ground (arith, h.leased, h.recorded, h.past)

HasExpired-expired : (now : ℕ) (w : WorkUnit) → expired now w ≡ true → HasExpired now w
unfolding expired
HasExpired-expired now w h = go w.lease_expires refl h
  where
    go :
        (o : Option ℕ)
        → w.lease_expires ≡ o
        → (elim o [ none ↦ false | some t ↦ is_leased w.state && ltb t now ]) ≡ true
        → HasExpired now w
    go none e k = absurd (cc)
    go (some t) e k = record {
      leased = ground (arith, k);
      expires = t;
      recorded = e;
      past = ground (arith, k);
    }

-- What a sweep leaves of one unit's row.
pub record IsSwept (cfg : Config) (now : ℕ) (u : String) (w : WorkUnit) (db' : Db) : Type 0 where
  pub given_back :
      HasExpired now w
      → w.attempts < cfg.max_attempts
      → unit_of u db' ≡ some (record w { state = WorkUnitState.pending })
  pub given_up :
      HasExpired now w
      → cfg.max_attempts ≤ w.attempts
      → unit_of u db' ≡ some (record w { state = WorkUnitState.dead })
  pub kept : ¬ HasExpired now w → unit_of u db' ≡ some w

-- A sweep of expired leases gives a unit whose lease has run out back to the queue while it has
-- attempts left and gives it up when it has none, in both cases with nothing else of its row
-- changed, and leaves every other unit's row as it was.
pub requeue_expired-IsSwept :
    (cfg : Config) (now : ℕ) (db : Db) (u : String) (w : WorkUnit)
    → unit_of u db ≡ some w
    → IsSwept cfg now u w (requeue_expired cfg now db).db
unfolding requeue_expired
requeue_expired-IsSwept cfg now db u w found =
    let row = unit_of-requeue cfg (expired now) (expired-SelectsLeased now) now db u w found in
    record {
      given_back = λ h lt. row ∙ ap some (ground (arith, expired-HasExpired now w h, lt));
      given_up = λ h le. row ∙ ap some (ground (arith, expired-HasExpired now w h, le));
      kept = λ h.
          row
          ∙ ap some (elim (Bool-cases (expired now w)) [
            | inl e ↦ absurd (h (HasExpired-expired now w e))
            | inr e ↦ rw e
          ]);
    }

-- After a sweep no lease has run out, and the number returned is the number of units swept. Each of
-- them is announced once, with its id, job, holder and attempt, the state that the retry budget gives
-- it and the time of the sweep: whatever test is made, it holds of as many of the transitions sent as
-- of these announcements of the units swept.
pub requeue_expired_complete :
    (cfg : Config) (now : ℕ) (db : Db) (asked : UnitTransition → Bool)
    → let reply = requeue_expired cfg now db in
      All (λ w. ¬ HasExpired now w) reply.db.work_units
      × (reply.value ≡ count (expired now) db.work_units)
      × (count asked reply.emitted
          ≡ count
              (λ w.
                expired now w
                && asked (record {
                  work_unit_id = w.work_unit_id;
                  job_id = w.job_id;
                  agent_id = str_of w.lease_agent;
                  attempt = w.attempts;
                  state =
                      if ltb w.attempts cfg.max_attempts
                      then WorkUnitState.pending
                      else WorkUnitState.dead;
                  at = now;
                }))
              db.work_units)
unfolding requeue_expired
requeue_expired_complete cfg now db asked = (
  All-mono (λ w. expired now w ≡ false) _ (λ w e h. cc (e, expired-HasExpired now w h)) _
      (requeue-none_left cfg (expired now) (expired-SelectsLeased now) now db),
  length-requeue cfg (expired now) (expired-SelectsLeased now) now db,
  count-requeue cfg (expired now) (expired-SelectsLeased now) asked now db,
)

-- After an agent's units are requeued it holds no lease; each unit that it held is given back or
-- given up by the retry budget, and every other unit's row is as it was.
requeue_agent-released :
    (cfg : Config) (agent : String) (now : ℕ) (db : Db)
    → All
        (λ w. is_leased w.state ≡ true → w.lease_agent ≢ some agent)
        (requeue_agent cfg agent now db).db.work_units
      × ((u : String) (w : WorkUnit)
          → unit_of u db ≡ some w
          → unit_of u (requeue_agent cfg agent now db).db
            ≡ some (
                if is_leased w.state && w.lease_agent == some agent
                then record w { state = after_lease cfg w }
                else w))
unfolding requeue_agent held_by
requeue_agent-released cfg agent now db = (
  All-mono (λ w. held_by agent w ≡ false) _ (λ w e l h. cc (e, held_lem w l h)) _
      (requeue-none_left cfg (held_by agent) (held_by-SelectsLeased agent) now db),
  λ u w found. unit_of-requeue cfg (held_by agent) (held_by-SelectsLeased agent) now db u w found,
)
  where
    held_lem :
        (w : WorkUnit)
        → is_leased w.state ≡ true
        → w.lease_agent ≡ some agent
        → held_by agent w ≡ true
    held_lem w l h = rw (l, h, ==_refl agent)
