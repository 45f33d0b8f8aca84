-- ===== src/Protocol.antt =====
-- The messages of packages/fallow-protocol/src/fallow_protocol that several parts exchange. Times
-- are whole microseconds.
use fallow.Prelude.{ℕ, Bool, true, false, Option, String, List}
use fallow.Queue.Rows.{WorkerKind}

pub data AgentState : Type 0 where
  idle active draining : AgentState

pub data ReplicaState : Type 0 where
  loading ready suspended stopped : ReplicaState

pub record ReplicaStatus : Type 0 where
  pub model_id : String
  pub port : ℕ
  pub state : ReplicaState
  pub inflight : ℕ
  pub gpu : Bool

pub data EventKind : Type 0 where
  user_returned user_idle replica_ready replica_suspended replica_resumed replica_stopped
        agent_starting agent_stopping :
      EventKind

pub record AgentEvent : Type 0 where
  pub agent_id : String
  pub kind : EventKind
  pub at : ℕ
  pub detail : List (String × String)

pub record ReplicaEndpoint : Type 0 where
  pub agent_id : String
  pub host : String
  pub port : ℕ
  pub model_id : String
  pub inflight : ℕ

pub data OsFamily : Type 0 where
  windows macos linux : OsFamily

pub record GpuInfo : Type 0 where
  pub index : ℕ
  pub name : String
  pub vendor : String
  pub vram_mb : ℕ

-- Percentages, watts and degrees are whole hundredths.
pub record GpuStatus : Type 0 where
  pub index : ℕ
  pub vram_free_mb : ℕ
  pub util_percent : ℕ
  pub power : Option ℕ
  pub temperature : Option ℕ

pub record DeviceCaps : Type 0 where
  pub hostname : String
  pub os : OsFamily
  pub os_version : String
  pub cpu_model : String
  pub cpu_cores : ℕ
  pub ram_mb : ℕ
  pub disk_free_mb : ℕ
  pub gpus : List GpuInfo
  pub agent_version : String

pub record ModelManifest : Type 0 where
  pub model_id : String
  pub family : String
  pub quant : String
  pub worker_kind : WorkerKind
  pub file_name : String
  pub sha256 : String
  pub size_bytes : ℕ
  pub min_ram_mb : ℕ
  pub min_vram_mb : ℕ
  pub default_args : List String
  pub chat_template_hint : Option String
  pub license : Option String
  pub source_url : Option String

pub record AgentSnapshot : Type 0 where
  pub agent_id : String
  pub host : String
  pub state : AgentState
  pub suspect : Bool
  pub caps : DeviceCaps
  pub mem_available_mb : ℕ
  pub gpus : List GpuStatus
  pub replicas : List ReplicaStatus
  pub user_idle : ℕ
  pub serving_paused : Bool
  pub predicted_idle_remaining : Option ℕ
  pub predicted_idle_confidence : Option ℕ

abbrev pub is_idle : AgentState → Bool
is_idle AgentState.idle = true
is_idle _ = false

abbrev pub is_active : AgentState → Bool
is_active AgentState.active = true
is_active _ = false

abbrev pub is_draining : AgentState → Bool
is_draining AgentState.draining = true
is_draining _ = false

abbrev pub is_suspended : ReplicaState → Bool
is_suspended ReplicaState.suspended = true
is_suspended _ = false
