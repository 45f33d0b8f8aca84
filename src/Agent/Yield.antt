-- ===== src/Agent/Yield.antt =====
-- Why the controller of preempt/controller.py acts: each of its effects is justified by its state and
-- the tick, fresh input suspends first, and one presence of the user evicts once.
use fallow.Prelude.{ℕ, ◌+◌, ◌≤◌, ◌<◌, Bool, true, false, ◌&&◌, some, String, List, ◌≡◌, any}
use fallow.Prelude.Eq.{◌==◌, String_eq}
use fallow.Protocol.{ReplicaStatus, idle, active}
use fallow.Agent.Preempt.{
  Settings, Controller, Tick, Effect, suspend_all, resume_all, spawn_stop, stop_replica, emit,
  is_fresh_input, evictable,
}

abbrev pub names_evictable : List ReplicaStatus → String → Bool
names_evictable rs m = any (λ r. evictable r && r.model_id == m) rs

abbrev pub Justified : Settings → Tick → Controller → Effect → Type 0
Justified cfg t c suspend_all = (c.state ≡ idle) × (is_fresh_input cfg t c ≡ true)
Justified cfg t c resume_all = (c.state ≡ active) × cfg.idle_threshold ≤ t.idle_for
Justified cfg t c spawn_stop = ⊥
Justified cfg t c (stop_replica m) =
    (c.state ≡ active)
    × (c.escalated ≡ false)
    × t.idle_for < cfg.idle_threshold
    × ((since : ℕ) × (c.active_since ≡ some since) × since + cfg.vram_evict_after ≤ t.now)
    × (names_evictable t.statuses m ≡ true)
Justified cfg t c (emit e) = Unit

EvictsFrom : List ReplicaStatus → Effect → Type 0
EvictsFrom rs (stop_replica m) = names_evictable rs m ≡ true
EvictsFrom rs _ = ⊥
