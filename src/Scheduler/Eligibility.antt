-- ===== src/Scheduler/Eligibility.antt =====
-- scheduler/_eligibility.py, selection.py's snapshot of declared capacity, and poll.py.
use fallow.Prelude.{
  ℕ, max, Bool, true, false, not, ◌&&◌, ◌||◌, String, List, [], ◌∷◌, map, any, ltb, leb, length,
  none, if◌then◌else◌,
}
use fallow.Prelude.Eq.{◌==◌, String_eq}
use fallow.Protocol.{
  AgentSnapshot, ReplicaState, GpuInfo, GpuStatus, DeviceCaps, ModelManifest, is_idle, idle,
}

unfoldable pub agent_has_gpu : AgentSnapshot → Bool
agent_has_gpu agent = ltb 0 (length agent.caps.gpus)

unfoldable pub agent_is_fit : AgentSnapshot → Bool
agent_is_fit agent = is_idle agent.state && not agent.suspect && not agent.serving_paused

unfoldable pub is_eligible : AgentSnapshot → Bool → Bool
is_eligible agent needs_gpu = agent_is_fit agent && (not needs_gpu || agent_has_gpu agent)

abbrev pub is_warm : ReplicaState → Bool
is_warm ReplicaState.ready = true
is_warm ReplicaState.suspended = true
is_warm _ = false

unfoldable pub has_warm_replica : AgentSnapshot → String → Bool
has_warm_replica agent model_id =
    any (λ r. r.model_id == model_id && is_warm r.state) agent.replicas

pub record FitReport : Type 0 where
  pub fits : Bool
  pub required_vram_mb : ℕ
  pub required_ram_mb : ℕ
  pub available_vram_mb : ℕ
  pub available_ram_mb : ℕ

unfoldable pub max_vram : List GpuStatus → ℕ
max_vram [] = 0
max_vram (g ∷ gs) = max g.vram_free_mb (max_vram gs)

unfoldable pub agent_available_vram_mb : AgentSnapshot → ℕ
agent_available_vram_mb agent = max_vram agent.gpus

unfoldable pub model_fit : ModelManifest → AgentSnapshot → FitReport
model_fit model agent = record {
  fits =
      leb model.min_ram_mb agent.mem_available_mb
      && leb model.min_vram_mb (agent_available_vram_mb agent);
  required_vram_mb = model.min_vram_mb;
  required_ram_mb = model.min_ram_mb;
  available_vram_mb = agent_available_vram_mb agent;
  available_ram_mb = agent.mem_available_mb;
}

abbrev pub full_gpu : GpuInfo → GpuStatus
full_gpu g = record {
  index = g.index;
  vram_free_mb = g.vram_mb;
  util_percent = 0;
  power = none;
  temperature = none;
}

unfoldable pub capacity_snapshot : String → DeviceCaps → AgentSnapshot
capacity_snapshot agent_id caps = record {
  agent_id = agent_id;
  host = "";
  state = idle;
  suspect = false;
  caps = caps;
  mem_available_mb = caps.ram_mb;
  gpus = map full_gpu caps.gpus;
  replicas = [];
  user_idle = 0;
  serving_paused = false;
  predicted_idle_remaining = none;
  predicted_idle_confidence = none;
}

-- The policy argument of the code is not read.
unfoldable pub select_for_poll : AgentSnapshot → List String → List String
select_for_poll agent model_ids = if agent_is_fit agent then model_ids else []
