-- ===== src/Agent/Episodes.antt =====
-- What the daemon's poll thread does at most once: the eviction within one presence of the user, and
-- the announcement that the agent stops.
use fallow.Prelude.{
  ℕ, ◌+◌, suc, Bool, true, false, not, ◌||◌, none, some, Option, List, [], ◌∷◌, ◌++◌, ◌≡◌, refl,
  map, filter, arith, if◌then◌else◌,
}
use fallow.Protocol.{
  AgentState, ReplicaStatus, AgentEvent, user_returned, agent_stopping, active, is_active,
  is_draining,
}
use fallow.Agent.Preempt.{
  Settings, Controller, Tick, Effect, suspend_all, resume_all, spawn_stop, stop_replica, emit,
  enter_active, enter_idle, evictable, evictions, maybe_escalate, transition, on_poll, drain,
  Daemon, Happening, tick, drained, step, run, started, safe_poll, reclaim_on_poll,
}

abbrev pub is_return : AgentEvent → Bool
is_return e = elim e.kind [ user_returned ↦ true | _ ↦ false ]

abbrev pub is_stopping : AgentEvent → Bool
is_stopping e = elim e.kind [ agent_stopping ↦ true | _ ↦ false ]

-- No replica is stopped before the user is next announced.
abbrev pub spares : List Effect → Bool
spares [] = true
spares (stop_replica m ∷ es) = false
spares (emit e ∷ es) = is_return e || spares es
spares (_ ∷ es) = spares es

abbrev returns : List Effect → Bool
returns [] = false
returns (emit e ∷ es) = is_return e || returns es
returns (_ ∷ es) = returns es

spares-append :
    (xs ys : List Effect)
    → spares xs ≡ true
    → (returns xs ≡ false → spares ys ≡ true)
    → spares (xs ++ ys) ≡ true
spares-append [] ys h k = k refl
spares-append (suspend_all ∷ xs) ys h k = spares-append xs ys h k
spares-append (resume_all ∷ xs) ys h k = spares-append xs ys h k
spares-append (spawn_stop ∷ xs) ys h k = spares-append xs ys h k
spares-append (stop_replica m ∷ xs) ys h k = ground arith
spares-append (emit e ∷ xs) ys h k = ground (arith, spares-append xs ys)

returns-append : (xs ys : List Effect) → returns (xs ++ ys) ≡ (returns xs || returns ys)
returns-append [] ys = refl
returns-append (suspend_all ∷ xs) ys = returns-append xs ys
returns-append (resume_all ∷ xs) ys = returns-append xs ys
returns-append (spawn_stop ∷ xs) ys = returns-append xs ys
returns-append (stop_replica m ∷ xs) ys = returns-append xs ys
returns-append (emit e ∷ xs) ys = ground (arith, returns-append xs ys)

-- The announcements that the agent stops.
abbrev pub stoppings : List Effect → ℕ
stoppings [] = 0
stoppings (emit e ∷ es) = let rest = stoppings es in if is_stopping e then suc rest else rest
stoppings (_ ∷ es) = stoppings es

stoppings-append : (xs ys : List Effect) → stoppings (xs ++ ys) ≡ stoppings xs + stoppings ys
stoppings-append [] ys = omega arith
stoppings-append (suspend_all ∷ xs) ys = stoppings-append xs ys
stoppings-append (resume_all ∷ xs) ys = stoppings-append xs ys
stoppings-append (spawn_stop ∷ xs) ys = stoppings-append xs ys
stoppings-append (stop_replica m ∷ xs) ys = stoppings-append xs ys
stoppings-append (emit e ∷ xs) ys = ground (arith, stoppings-append xs ys)

stoppings-stops : (rs : List ReplicaStatus) → stoppings (map (λ r. stop_replica r.model_id) rs) ≡ 0
stoppings-stops [] = refl
stoppings-stops (r ∷ rs) = stoppings-stops rs

-- The controller will not stop a replica before the user returns again.
abbrev pub has_evicted : Controller → Bool
has_evicted c = not (is_active c.state) || c.escalated

abbrev pub drain_count : Controller → ℕ
drain_count c = if is_draining c.state then 1 else 0

module _ (cfg : Settings) where
  Spared : Controller → Controller × List Effect → Type 0
  Spared c r =
      (has_evicted c ≡ true
        → (spares (r.1) ≡ true) × (returns (r.1) ≡ false → has_evicted (r.0) ≡ true))
      × (drain_count c + stoppings (r.1) ≡ drain_count (r.0))

  escalate-Spared :
      (t : Tick) (p a : Option ℕ) (x : Bool)
      → (let c : Controller = record {
        state = active;
        prev_idle = p;
        active_since = a;
        escalated = x;
      } in
          Spared c (maybe_escalate cfg t c))
  unfolding maybe_escalate evictions Spared
  escalate-Spared t p none x = (λ h. (refl, λ k. h), refl)
  escalate-Spared t p (some since) x = ground (arith, stoppings-stops (filter evictable t.statuses))

  on_poll-Spared : (t : Tick) (c : Controller) → Spared c (on_poll cfg t c)
  unfolding on_poll transition enter_active enter_idle Spared
  on_poll-Spared t c = go c.state c.prev_idle c.active_since c.escalated
    where
      go :
          (s : AgentState) (p a : Option ℕ) (x : Bool)
          → (let d : Controller = record {
            state = s;
            prev_idle = p;
            active_since = a;
            escalated = x;
          } in
              Spared d (on_poll cfg t d))
      go AgentState.idle p a x = ground arith
      go AgentState.active p a x = ground (arith, escalate-Spared t p a x)
      go AgentState.draining p a x = ground arith

  drain-Spared : (w : ℕ) (c : Controller) → Spared c (drain cfg w c)
  unfolding drain Spared
  drain-Spared w c = go c.state c.prev_idle c.active_since c.escalated
    where
      go :
          (s : AgentState) (p a : Option ℕ) (x : Bool)
          → (let d : Controller = record {
            state = s;
            prev_idle = p;
            active_since = a;
            escalated = x;
          } in
              Spared d (drain cfg w d))
      go AgentState.idle p a x = ground arith
      go AgentState.active p a x = ground arith
      go AgentState.draining p a x = ground arith

  step-Spared :
      (h : Happening) (d : Daemon)
      → Spared d.controller ((step cfg h d).0.controller, (step cfg h d).1)
  unfolding step safe_poll reclaim_on_poll Spared
  step-Spared (tick t) d = ground (arith, on_poll-Spared t d.controller)
  step-Spared (drained w) d = drain-Spared w d.controller

  run-Spared :
      (hs : List Happening) (d : Daemon)
      → Spared d.controller ((run cfg hs d).0.controller, (run cfg hs d).1)
  unfolding run Spared
  run-Spared [] d = (λ h. (refl, λ k. h), omega arith)
  run-Spared (h ∷ hs) d =
      let s = step cfg h d in
      let here = step-Spared h d in
      let rest = run-Spared hs (s.0) in
      let later = (run cfg hs (s.0)).1 in
      ground (
        arith,
        here,
        rest,
        spares-append (s.1) later,
        returns-append (s.1) later,
        stoppings-append (s.1) later,
      )

  -- A started daemon announces that it stops exactly once if it has been drained, and never before.
  run-stoppings :
      (hs : List Happening)
      → stoppings (run cfg hs started).1 ≡ drain_count (run cfg hs started).0.controller
  unfolding Spared
  run-stoppings hs = omega (arith, (run-Spared hs started).1)
