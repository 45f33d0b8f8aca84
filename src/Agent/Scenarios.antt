-- ===== src/Agent/Scenarios.antt =====
-- One presence of a user, at concrete times: they come back, the GPU replica is evicted, they go.
use fallow.Prelude.{ℕ, ◌≡◌, refl, true, false, some, List, [], ◌∷◌}
use fallow.Protocol.{ReplicaStatus, suspended, active}
use fallow.Agent.Preempt.{
  evictable, Settings, Controller, Tick, Daemon, Happening, tick, started, on_poll, run,
  stop_replica,
}
use fallow.Agent.Override.{held, run-yields}

abbrev settings : Settings
settings = record {
  agent_id = "a1";
  poll_interval = 100;
  idle_threshold = 120000;
  vram_evict_after = 60000;
  format = λ n. "0.250";
}

abbrev gpu_replica : ReplicaStatus
gpu_replica = record { model_id = "m"; port = 8001; state = suspended; inflight = 0; gpu = true }

abbrev at_time : ℕ → ℕ → Tick
at_time idle_for now = record {
  idle_for = idle_for;
  now = now;
  measured = now;
  wall = now;
  wants_reclaim = false;
  statuses = gpu_replica ∷ [];
}

abbrev reclaiming : Tick
reclaiming = record (at_time 500000 900000) { wants_reclaim = true }

abbrev visit : List Happening
visit = tick (at_time 0 1000) ∷ tick (at_time 50 70000) ∷ tick (at_time 90 80000) ∷ []

abbrev held_long : Controller
held_long = record {
  state = active;
  prev_idle = some 20;
  active_since = some 1000;
  escalated = false;
}

abbrev evicted : Daemon
evicted = record { controller = record held_long { escalated = true }; reclaimed = false }

on_poll_evicts : (on_poll settings (at_time 50 70000) held_long).1 ≡ stop_replica "m" ∷ []
unfolding on_poll evictable
on_poll_evicts = refl

run-yields_example : held false (run settings visit started).1 ≡ true
unfolding run
run-yields_example = run-yields settings visit refl
