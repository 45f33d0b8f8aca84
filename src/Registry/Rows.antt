-- ===== src/Registry/Rows.antt =====
-- The tables of registry/schema.sql, the settings of config.py and the errors of errors.py. Times are
-- whole microseconds, floats are whole hundredths, a JSON column is the value it encodes.
use fallow.Prelude.{ℕ, ◌+◌, Bool, true, false, not, Option, String, List, [], is_some, ltb}
use fallow.Prelude.Eq.{String_eq}
use fallow.Protocol.{AgentState, GpuStatus, ReplicaStatus, DeviceCaps, ModelManifest}

pub data EnrollmentMode : Type 0 where
  legacy site : EnrollmentMode

pub data Transport : Type 0 where
  direct site_relay : Transport

abbrev pub transport_for_mode : EnrollmentMode → Transport
transport_for_mode site = site_relay
transport_for_mode legacy = direct

abbrev pub is_direct : Transport → Bool
is_direct direct = true
is_direct site_relay = false

-- A presence_sequence of -1 is `none`.
pub record AgentRow : Type 0 where
  pub agent_id : String
  pub hostname : String
  pub host : String
  pub caps : DeviceCaps
  pub device_token_hash : String
  pub state : AgentState
  pub last_seen : ℕ
  pub user_idle : ℕ
  pub mem_available_mb : ℕ
  pub gpus : List GpuStatus
  pub replicas : List ReplicaStatus
  pub serving_paused : Bool
  pub predicted_idle_remaining : Option ℕ
  pub predicted_idle_confidence : Option ℕ
  pub enrollment_mode : EnrollmentMode
  pub transport : Transport
  pub presence_sequence : Option ℕ
  pub presence_generation : ℕ
  pub revoked_at : Option ℕ
  pub registered_at : ℕ

pub record EnrollmentToken : Type 0 where
  pub token_hash : String
  pub created_at : ℕ
  pub used_at : Option ℕ
  pub mode : EnrollmentMode
  pub revoked_at : Option ℕ

pub record ApiKeyRow : Type 0 where
  pub key_hash : String
  pub name : String
  pub model_allowlist : Option (List String)
  pub rpm_limit : Option ℕ
  pub daily_limit : Option ℕ
  pub created_at : ℕ
  pub revoked_at : Option ℕ

pub record ModelRow : Type 0 where
  pub model_id : String
  pub manifest : ModelManifest
  pub blob_path : String
  pub enabled : Bool
  pub created_at : ℕ

pub record Assignment : Type 0 where
  pub model_id : String
  pub agent_id : String

pub record Tables : Type 0 where
  pub agents : List AgentRow
  pub tokens : List EnrollmentToken
  pub api_keys : List ApiKeyRow
  pub models : List ModelRow
  pub assignments : List Assignment

abbrev pub empty_tables : Tables
empty_tables = record { agents = []; tokens = []; api_keys = []; models = []; assignments = [] }

pub record RegistryConfig : Type 0 where
  pub admin_key : String
  pub heartbeat_interval : ℕ
  pub idle_threshold : ℕ
  pub poll_interval : ℕ
  pub vram_evict_after : ℕ
  pub bench_mode : Bool
  pub suspect_after : ℕ
  pub offline_after : ℕ

-- `integrity` is SQLite's refusal of a second row with one primary key.
pub data RegistryError : Type 0 where
  protocol_mismatch : ℕ → ℕ → RegistryError
  enrollment_token : RegistryError
  unknown_agent revoked_agent : String → RegistryError
  value_error integrity : RegistryError

pub data Answer (A : Type 0) : Type 0 where
  gives : A → Answer A
  rejects : RegistryError → Answer A

abbrev pub agent_key : AgentRow → String
agent_key a = a.agent_id

abbrev pub device_key : AgentRow → String
device_key a = a.device_token_hash

abbrev pub token_key : EnrollmentToken → String
token_key t = t.token_hash

abbrev pub api_key : ApiKeyRow → String
api_key k = k.key_hash

abbrev pub model_key : ModelRow → String
model_key m = m.model_id

-- `used_at IS NULL`.
abbrev pub is_unused : EnrollmentToken → Bool
is_unused t = not (is_some t.used_at)

abbrev pub is_revoked : AgentRow → Bool
is_revoked a = is_some a.revoked_at

-- The heartbeat is older than a threshold.
abbrev pub is_older : ℕ → ℕ → AgentRow → Bool
is_older threshold now a = ltb (a.last_seen + threshold) now
