-- ===== src/Agent/Override.antt =====
-- Histories of the daemon: what the poll thread and the shutdown thread have done after any number of
-- ticks, the reclaim override among them.
use fallow.Prelude.{
  ℕ, Bool, true, false, ◌||◌, none, some, Option, List, [], ◌∷◌, ◌++◌, ◌≡◌, refl, map, filter,
  arith, if◌then◌else◌,
}
use fallow.Protocol.{AgentState, ReplicaStatus, active, is_active}
use fallow.Agent.Preempt.{
  Settings, Controller, Tick, Effect, suspend_all, resume_all, spawn_stop, stop_replica, emit,
  enter_active, enter_idle, evictable, evictions, maybe_escalate, transition, on_poll, drain,
  Daemon, Happening, tick, drained, step, run, started, safe_poll, reclaim_on_poll,
}

-- Whether the replicas are suspended after these effects, if they were (or not) before.
abbrev pub held : Bool → List Effect → Bool
held b [] = b
held b (suspend_all ∷ es) = held true es
held b (resume_all ∷ es) = held false es
held b (_ ∷ es) = held b es

held-append : (b : Bool) (xs ys : List Effect) → held b (xs ++ ys) ≡ held (held b xs) ys
held-append b [] ys = refl
held-append b (suspend_all ∷ xs) ys = held-append true xs ys
held-append b (resume_all ∷ xs) ys = held-append false xs ys
held-append b (spawn_stop ∷ xs) ys = held-append b xs ys
held-append b (stop_replica m ∷ xs) ys = held-append b xs ys
held-append b (emit e ∷ xs) ys = held-append b xs ys

held-stops :
    (b : Bool) (rs : List ReplicaStatus) → held b (map (λ r. stop_replica r.model_id) rs) ≡ b
held-stops b [] = refl
held-stops b (r ∷ rs) = held-stops b rs

-- The machine is its user's: they are present, or they have reclaimed it.
abbrev pub belongs_to_user : Daemon → Bool
belongs_to_user d = is_active d.controller.state || d.reclaimed

module _ (cfg : Settings) where
  escalate-held : (b : Bool) (t : Tick) (c : Controller) → held b (maybe_escalate cfg t c).1 ≡ b
  unfolding maybe_escalate evictions
  escalate-held b t c = go c.state c.prev_idle c.active_since c.escalated
    where
      go :
          (s : AgentState) (p a : Option ℕ) (x : Bool)
          → held b
              (maybe_escalate cfg t
                (record { state = s; prev_idle = p; active_since = a; escalated = x })).1
            ≡ b
      go s p none x = refl
      go s p (some since) x = ground (arith, held-stops b (filter evictable t.statuses))

  escalate-state : (t : Tick) (c : Controller) → (maybe_escalate cfg t c).0.state ≡ c.state
  unfolding maybe_escalate
  escalate-state t c = go c.state c.prev_idle c.active_since c.escalated
    where
      go :
          (s : AgentState) (p a : Option ℕ) (x : Bool)
          → (maybe_escalate cfg t
              (record { state = s; prev_idle = p; active_since = a; escalated = x })).0.state
            ≡ s
      go s p none x = refl
      go s p (some since) x = ground (arith)

  on_poll-held :
      (b : Bool) (t : Tick) (c : Controller)
      → (is_active c.state ≡ true → b ≡ true)
      → is_active (on_poll cfg t c).0.state ≡ true
      → held b (on_poll cfg t c).1 ≡ true
  unfolding on_poll transition enter_active enter_idle
  on_poll-held b t c = go c.state c.prev_idle c.active_since c.escalated
    where
      go :
          (s : AgentState) (p a : Option ℕ) (x : Bool)
          → (let d : Controller = record {
            state = s;
            prev_idle = p;
            active_since = a;
            escalated = x;
          } in
              (is_active s ≡ true → b ≡ true)
              → is_active (on_poll cfg t d).0.state ≡ true
              → held b (on_poll cfg t d).1 ≡ true)
      go AgentState.idle p a x k m = ground arith
      go AgentState.active p a x k m = ground (
        arith,
        k,
        escalate-held b t
            (record { state = active; prev_idle = p; active_since = a; escalated = x }),
      )
      go AgentState.draining p a x k m = ground arith

  drain-held :
      (b : Bool) (w : ℕ) (c : Controller)
      → (is_active c.state ≡ true → b ≡ true)
      → (is_active (drain cfg w c).0.state ≡ false) × (held b (drain cfg w c).1 ≡ b)
  unfolding drain
  drain-held b w c k = go c.state c.prev_idle c.active_since c.escalated
    where
      go :
          (s : AgentState) (p a : Option ℕ) (x : Bool)
          → (let d : Controller = record {
            state = s;
            prev_idle = p;
            active_since = a;
            escalated = x;
          } in
              (is_active (drain cfg w d).0.state ≡ false) × (held b (drain cfg w d).1 ≡ b))
      go AgentState.idle p a x = (refl, refl)
      go AgentState.active p a x = (refl, refl)
      go AgentState.draining p a x = (refl, refl)

  step-held :
      (b : Bool) (h : Happening) (d : Daemon)
      → (belongs_to_user d ≡ true → b ≡ true)
      → belongs_to_user (step cfg h d).0 ≡ true
      → held b (step cfg h d).1 ≡ true
  unfolding step safe_poll drain reclaim_on_poll
  step-held b (tick t) d k m = ground (arith, k, m, on_poll-held b t d.controller)
  step-held b (drained w) d k m = ground (arith, k, m, drain-held b w d.controller)

  run-held :
      (b : Bool) (hs : List Happening) (d : Daemon)
      → (belongs_to_user d ≡ true → b ≡ true)
      → belongs_to_user (run cfg hs d).0 ≡ true
      → held b (run cfg hs d).1 ≡ true
  unfolding run
  run-held b [] d k m = k m
  run-held b (h ∷ hs) d k m = ground (
    arith,
    held-append b (step cfg h d).1 (run cfg hs (step cfg h d).0).1,
    run-held (held b (step cfg h d).1) hs (step cfg h d).0 (step-held b h d k) m,
  )

  -- While the control file stays, no tick resumes a replica, however idle the machine is.
  safe_poll-reclaimed :
      (t : Tick) (d : Daemon)
      → t.wants_reclaim ≡ true
      → ((safe_poll cfg t d).0 ≡ record d { reclaimed = true })
        × ((safe_poll cfg t d).1 ≡ (if d.reclaimed then [] else suspend_all ∷ spawn_stop ∷ []))
  unfolding safe_poll reclaim_on_poll
  safe_poll-reclaimed t d h = ground arith

  -- After any history of a started daemon, while the user is present or has reclaimed the machine the
  -- replicas are suspended: the last of the suspend and resume calls was a suspend.
  pub run-yields :
      (hs : List Happening)
      → belongs_to_user (run cfg hs started).0 ≡ true
      → held false (run cfg hs started).1 ≡ true
  run-yields hs m = run-held false hs started (λ h. ground arith) m
