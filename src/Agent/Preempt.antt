-- ===== src/Agent/Preempt.antt =====
-- preempt/controller.py, preempt/reclaim.py and PollLoop._safe_poll. What the controllers do to the
-- outside (the supervisor's calls and the sink's events) is a list of effects in the order in which
-- the code makes them; the readings of the clocks, the idle detector and the supervisor's statuses
-- are the fields of a tick, and the calls of a tick are taken to succeed. `spawn_stop` hands the
-- stopping of every replica to a thread of its own.
use fallow.Prelude.{
  ℕ, ◌+◌, ◌-◌, Bool, true, false, not, ◌&&◌, ◌||◌, Option, none, some, String, List, [], ◌∷◌, ◌++◌,
  map, filter, ltb, leb, if◌then◌else◌,
}
use fallow.Protocol.{
  AgentState, ReplicaStatus, EventKind, AgentEvent, user_returned, user_idle, agent_stopping, idle,
  active, draining, is_suspended,
}

-- A time format is Python's f"{yield_ms:.3f}", of the microseconds that the suspend took.
pub record Settings : Type 0 where
  pub agent_id : String
  pub poll_interval : ℕ
  pub idle_threshold : ℕ
  pub vram_evict_after : ℕ
  pub format : ℕ → String

pub record Controller : Type 0 where
  pub state : AgentState
  pub prev_idle : Option ℕ
  pub active_since : Option ℕ
  pub escalated : Bool

-- `now` is the loop's reading of the monotonic clock, `measured` the controller's own after the
-- suspend, `wall` the time of the event, `wants_reclaim` whether the control file is there.
pub record Tick : Type 0 where
  pub idle_for : ℕ
  pub now : ℕ
  pub measured : ℕ
  pub wall : ℕ
  pub wants_reclaim : Bool
  pub statuses : List ReplicaStatus

pub data Effect : Type 0 where
  suspend_all resume_all spawn_stop : Effect
  stop_replica : String → Effect
  emit : AgentEvent → Effect

abbrev pub initial : Controller
initial = record { state = idle; prev_idle = none; active_since = none; escalated = false }

unfoldable pub is_fresh_input : Settings → Tick → Controller → Bool
is_fresh_input cfg t c =
    ltb t.idle_for cfg.poll_interval
    || elim c.prev_idle [ none ↦ false | some before ↦ ltb t.idle_for before ]

abbrev pub event : Settings → EventKind → ℕ → List (String × String) → Effect
event cfg kind at detail =
    emit (record { agent_id = cfg.agent_id; kind = kind; at = at; detail = detail })

unfoldable pub enter_active : Settings → Tick → Controller → Controller × List Effect
enter_active cfg t c = (
  record c { state = active; active_since = some t.now; escalated = false },
  suspend_all
      ∷ event cfg user_returned t.wall (("yield_ms", cfg.format (t.measured - t.now)) ∷ [])
      ∷ [],
)

unfoldable pub enter_idle : Settings → Tick → Controller → Controller × List Effect
enter_idle cfg t c = (
  record c { state = idle; active_since = none; escalated = false },
  resume_all ∷ event cfg user_idle t.wall [] ∷ [],
)

unfoldable pub evictable : ReplicaStatus → Bool
evictable r = is_suspended r.state && r.gpu

unfoldable pub evictions : Tick → List Effect
evictions t = map (λ r. stop_replica r.model_id) (filter evictable t.statuses)

-- `now - since < evict_after` on signed times.
unfoldable pub maybe_escalate : Settings → Tick → Controller → Controller × List Effect
unfolding evictions
maybe_escalate cfg t c = elim c.active_since [
  | none ↦ (c, [])
  | some since ↦
      if c.escalated || ltb t.now (since + cfg.vram_evict_after)
      then (c, [])
      else (record c { escalated = true }, evictions t)
]

unfoldable pub transition : Settings → Tick → Controller → Controller × List Effect
unfolding is_fresh_input enter_active enter_idle maybe_escalate
transition cfg t c = elim c.state [
  | AgentState.idle ↦ if is_fresh_input cfg t c then enter_active cfg t c else (c, [])
  | AgentState.active ↦
      if leb cfg.idle_threshold t.idle_for then enter_idle cfg t c else maybe_escalate cfg t c
  | AgentState.draining ↦ (c, [])
]

unfoldable pub on_poll : Settings → Tick → Controller → Controller × List Effect
unfolding transition
on_poll cfg t c = elim c.state [
  | AgentState.draining ↦ (c, [])
  | _ ↦ let step = transition cfg t c in (record (step.0) { prev_idle = some t.idle_for }, step.1)
]

unfoldable pub drain : Settings → ℕ → Controller → Controller × List Effect
drain cfg wall c = elim c.state [
  | AgentState.draining ↦ (c, [])
  | _ ↦ (record c { state = draining }, event cfg agent_stopping wall [] ∷ [])
]

-- ReclaimController.on_poll: whether the machine is now reclaimed, and the effects.
unfoldable pub reclaim_on_poll : Tick → Bool → Bool × List Effect
reclaim_on_poll t reclaimed =
    if t.wants_reclaim && not reclaimed
    then (true, suspend_all ∷ spawn_stop ∷ [])
    else if not (t.wants_reclaim) && reclaimed
    then (false, [])
    else (reclaimed, [])

-- What the spawned thread then does.
unfoldable pub stop_all_replicas : List ReplicaStatus → List Effect
stop_all_replicas rs = map (λ r. stop_replica r.model_id) rs

pub record Daemon : Type 0 where
  pub controller : Controller
  pub reclaimed : Bool

-- PollLoop._safe_poll: the override holds, or the controller is polled.
unfoldable pub safe_poll : Settings → Tick → Daemon → Daemon × List Effect
unfolding on_poll reclaim_on_poll
safe_poll cfg t d =
    let r = reclaim_on_poll t d.reclaimed in
    let polled = on_poll cfg t d.controller in
    if r.0
    then (record d { reclaimed = true }, r.1)
    else (record { controller = polled.0; reclaimed = false }, r.1 ++ polled.1)

-- What happens to a daemon: a tick of its poll thread, or a drain by the shutdown thread.
pub data Happening : Type 0 where
  tick : Tick → Happening
  drained : ℕ → Happening

unfoldable pub step : Settings → Happening → Daemon → Daemon × List Effect
unfolding safe_poll drain
step cfg (tick t) d = safe_poll cfg t d
step cfg (drained wall) d =
    let r = drain cfg wall d.controller in (record d { controller = r.0 }, r.1)

-- The daemon after a history, and everything that it did.
unfoldable pub run : Settings → List Happening → Daemon → Daemon × List Effect
unfolding step
run cfg [] d = (d, [])
run cfg (h ∷ hs) d = let s = step cfg h d in let rest = run cfg hs (s.0) in (rest.0, s.1 ++ rest.1)

abbrev pub started : Daemon
started = record { controller = initial; reclaimed = false }
