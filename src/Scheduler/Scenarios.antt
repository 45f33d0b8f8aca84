-- ===== src/Scheduler/Scenarios.antt =====
-- A fleet of two machines, and the scheduler's theorems on it.
use fallow.Prelude.{
  ◌/◌, ℕ, ◌≤◌, ◌≡◌, refl, true, false, none, some, Option, String, List, [], ◌∷◌, inl, inr, arith,
  length,
}
use fallow.Prelude.Rank.{ascending, least, by, followed_by, false_first}
use fallow.Prelude.Members.{In}
use fallow.Queue.Rows.{chat}
use fallow.Protocol.{
  AgentSnapshot, ReplicaEndpoint, ModelManifest, GpuInfo, GpuStatus, DeviceCaps, linux, idle,
}
use fallow.Scheduler.Eligibility.{agent_has_gpu, agent_is_fit, is_eligible, has_warm_replica}
use fallow.Scheduler.Policies.{eligible, agent_rank, select_agent}
use fallow.Scheduler.Placement.{Preferred, select_agent-Preferred}
use fallow.Scheduler.Rotation.{turns, turns-fair}
use fallow.Scheduler.Speculative.{TailUnit, AtRisk, choose_backup_unit, choose_backup_unit-riskiest}

abbrev caps : List GpuInfo → DeviceCaps
caps gpus = record {
  hostname = "h";
  os = linux;
  os_version = "1";
  cpu_model = "c";
  cpu_cores = 8;
  ram_mb = 16000;
  disk_free_mb = 1;
  gpus = gpus;
  agent_version = "1";
}

abbrev big_gpu : GpuInfo
big_gpu = record { index = 0; name = "g"; vendor = "nvidia"; vram_mb = 8000 }

abbrev plain : AgentSnapshot
plain = record {
  agent_id = "a1";
  host = "10.0.0.1";
  state = idle;
  suspect = false;
  caps = caps [];
  mem_available_mb = 9000;
  gpus = [];
  replicas = [];
  user_idle = 700;
  serving_paused = false;
  predicted_idle_remaining = none;
  predicted_idle_confidence = none;
}

abbrev gpu_machine : AgentSnapshot
gpu_machine = record plain { agent_id = "a2"; caps = caps (big_gpu ∷ []); mem_available_mb = 4000 }

abbrev paused : AgentSnapshot
paused = record plain { agent_id = "a3"; serving_paused = true }

abbrev fleet : List AgentSnapshot
fleet = plain ∷ gpu_machine ∷ paused ∷ []

select_agent-Preferred_example :
    (best : AgentSnapshot) × (best.agent_id ≡ "a2")
    × In best fleet
    × (is_eligible best false ≡ true)
    × ((a : AgentSnapshot) → In a fleet → is_eligible a false ≡ true → Preferred "m" best a)
unfolding select_agent least is_eligible agent_is_fit agent_rank followed_by by false_first
    has_warm_replica agent_has_gpu
select_agent-Preferred_example = select_agent-Preferred "m" false fleet refl

abbrev endpoint : String → ℕ → ReplicaEndpoint
endpoint agent inflight = record {
  agent_id = agent;
  host = agent;
  port = 80;
  model_id = "m";
  inflight = inflight;
}

abbrev endpoints : List ReplicaEndpoint
endpoints = endpoint "a1" 3 ∷ endpoint "a2" 1 ∷ []

abbrev host_only : String → ℕ → String
host_only host port = host

abbrev model : String → ℕ → ℕ → ModelManifest
model id size vram = record {
  model_id = id;
  family = "f";
  quant = "q";
  worker_kind = chat;
  file_name = "n";
  sha256 = "0";
  size_bytes = size;
  min_ram_mb = 2000;
  min_vram_mb = vram;
  default_args = [];
  chat_template_hint = none;
  license = none;
  source_url = none;
}

abbrev models : List ModelManifest
models = model "small" 10 0 ∷ model "large" 20 0 ∷ model "huge" 90 48000 ∷ []

abbrev loaded : AgentSnapshot
loaded = record gpu_machine {
  gpus =
      record {
        index = 0;
        vram_free_mb = 500;
        util_percent = 9000;
        power = none;
        temperature = none;
      }
      ∷ [];
}

loaded_gpus :
    (s : GpuStatus)
    → In s loaded.gpus
    → (g : GpuInfo) × In g loaded.caps.gpus × s.vram_free_mb ≤ g.vram_mb
loaded_gpus s (inl e) = (big_gpu, inl refl, rw e (omega arith))
loaded_gpus s (inr m) = absurd m

turns-fair_example : In (some "a2") (turns false fleet (length (eligible false fleet)) 7)
unfolding is_eligible agent_is_fit
turns-fair_example = turns-fair false fleet 7 gpu_machine (inr (inl refl)) refl

abbrev tail_unit : TailUnit
tail_unit = record { work_unit_id = "u1"; holder_agent_id = "a1"; est_duration = none }

abbrev holders : String → Option AgentSnapshot
holders id = some plain

abbrev survival : String → ℕ → ℕ → ℕ → ℕ
survival agent hour age duration = age / duration

abbrev AtRiskHere : TailUnit → ℕ → Type 0
AtRiskHere = AtRisk ascending survival holders 9 50 100

choose_backup_unit-riskiest_example :
    (u : TailUnit) × (s : ℕ) × In u (tail_unit ∷ [])
    × (u.work_unit_id ≡ "u1")
    × AtRiskHere u s
    × ((v : TailUnit) (t : ℕ)
        → In v (tail_unit ∷ [])
        → AtRiskHere v t
        → ascending.before t s ≡ false)
unfolding choose_backup_unit ascending
choose_backup_unit-riskiest_example =
    choose_backup_unit-riskiest ascending survival holders 9 50 100 (tail_unit ∷ []) refl
