-- ===== src/Registry/Presence.antt =====
-- SqliteRegistry: what agents and operators report of an agent, the fence that presence raises, and the
-- two reads that routing and authentication make of it.
use fallow.Prelude.{
  ℕ, ◌+◌, max, Bool, true, not, ◌||◌, Option, none, some, String, List, [], ◌∷◌, any, filter, map,
  ltb, leb, or_else, if◌then◌else◌,
}
use fallow.Prelude.Eq.{◌==◌, String_eq}
use fallow.Prelude.Table.{lookup, has}
use fallow.Protocol.{AgentState, GpuStatus, ReplicaStatus}
use fallow.Registry.Rows.{
  Transport, AgentRow, Tables, unknown_agent, revoked_agent, value_error, Answer, gives, rejects,
  agent_key, device_key, is_direct, is_revoked,
}

-- The fields of a heartbeat that the registry stores.
pub record Heartbeat : Type 0 where
  pub seq : ℕ
  pub state : AgentState
  pub user_idle : ℕ
  pub mem_available_mb : ℕ
  pub gpus : List GpuStatus
  pub replicas : List ReplicaStatus
  pub serving_paused : Bool
  pub predicted_idle_remaining : Option ℕ
  pub predicted_idle_confidence : Option ℕ

-- `seq >= presence_sequence`, where -1 is below every number.
abbrev pub reaches : Option ℕ → ℕ → Bool
reaches none seq = true
reaches (some n) seq = leb n seq

abbrev pub newer : Option ℕ → ℕ → Bool
newer none seq = true
newer (some n) seq = ltb n seq

-- MAX(presence_sequence, seq).
abbrev pub max_sequence : Option ℕ → ℕ → Option ℕ
max_sequence none seq = some seq
max_sequence (some n) seq = some (max n seq)

-- UPDATE registry_agents SET ... WHERE agent_id = ?.
unfoldable pub update_agent : String → (AgentRow → AgentRow) → Tables → Tables
update_agent agent f db = record db {
  agents = map (λ a. if a.agent_id == agent then f a else a) db.agents;
}

-- An update of an agent that is there, or else UnknownAgentError.
unfoldable pub on_agent : String → (AgentRow → AgentRow) → Tables → Tables × Answer (Unit {0})
unfolding update_agent
on_agent agent f db =
    if has agent_key agent db.agents
    then (update_agent agent f db, gives tt)
    else (db, rejects (unknown_agent agent))

abbrev pub revoke_row : ℕ → AgentRow → AgentRow
revoke_row now a = record a { revoked_at = or_else a.revoked_at (some now) }

unfoldable pub revoke_agent : String → ℕ → Tables → Tables × Answer (Unit {0})
unfolding on_agent
revoke_agent agent now = on_agent agent (revoke_row now)

abbrev pub heartbeat_row : Heartbeat → ℕ → AgentRow → AgentRow
heartbeat_row h now a =
    let current = is_direct a.transport || reaches a.presence_sequence h.seq in
    record a {
      last_seen = now;
      state = if current then h.state else a.state;
      user_idle = h.user_idle;
      mem_available_mb = h.mem_available_mb;
      gpus = h.gpus;
      replicas = h.replicas;
      serving_paused = if current then h.serving_paused else a.serving_paused;
      predicted_idle_remaining = h.predicted_idle_remaining;
      predicted_idle_confidence = h.predicted_idle_confidence;
      presence_sequence = max_sequence a.presence_sequence h.seq;
    }

unfoldable pub record_heartbeat : String → Heartbeat → ℕ → Tables → Tables × Answer (Unit {0})
unfolding on_agent
record_heartbeat agent h now = on_agent agent (heartbeat_row h now)

abbrev pub set_state_row : AgentState → ℕ → AgentRow → AgentRow
set_state_row s now a = record a { state = s; last_seen = now }

unfoldable pub set_agent_state : String → AgentState → ℕ → Tables → Tables × Answer (Unit {0})
unfolding on_agent
set_agent_state agent s now = on_agent agent (set_state_row s now)

abbrev pub presence_kinds : List String
presence_kinds = "user_returned" ∷ "user_idle" ∷ "reclaim" ∷ []

abbrev pub event_state : String → AgentState
event_state kind =
    if kind == "user_returned" || kind == "reclaim" then AgentState.active else AgentState.idle

-- The update's WHERE is in the row: one that is not newer stays as it is.
abbrev pub event_row : String → ℕ → ℕ → AgentRow → AgentRow
event_row kind sequence now a =
    if newer a.presence_sequence sequence
    then record a {
      state = event_state kind;
      serving_paused = kind == "reclaim";
      presence_sequence = some sequence;
      presence_generation = a.presence_generation + 1;
      last_seen = now;
    }
    else a

-- SELECT presence_generation ... WHERE agent_id = ?.
unfoldable pub generation_in : String → Tables → Answer ℕ
generation_in agent db = elim (lookup agent_key agent db.agents) [
  | none ↦ rejects (unknown_agent agent)
  | some a ↦ gives a.presence_generation
]

-- A negative sequence is `none`.
unfoldable pub apply_presence_event : String → String → Option ℕ → ℕ → Tables → Tables × Answer ℕ
unfolding update_agent generation_in
apply_presence_event agent kind sequence now db = elim sequence [
  | none ↦ (db, rejects value_error)
  | some n ↦
      if not (any (λ k. k == kind) presence_kinds)
      then (db, rejects value_error)
      else (let after = update_agent agent (event_row kind n now) db in
          (after, generation_in agent after))
]

abbrev pub bump_row : AgentRow → AgentRow
bump_row a = record a { presence_generation = a.presence_generation + 1 }

unfoldable pub bump_presence_generation : String → Tables → Tables × Answer ℕ
unfolding update_agent generation_in
bump_presence_generation agent db =
    let after = update_agent agent bump_row db in (after, generation_in agent after)

unfoldable pub site_route : String → Tables → Option (Transport × ℕ)
site_route agent db = elim (lookup agent_key agent (filter (λ a. not (is_revoked a)) db.agents)) [
  | none ↦ none
  | some a ↦ some (a.transport, a.presence_generation)
]

unfoldable pub agent_transport : String → Tables → Option Transport
agent_transport agent db = elim (lookup agent_key agent db.agents) [
  | none ↦ none
  | some a ↦ some a.transport
]

-- RevokedAgentError tells a revoked identity from an unknown token.
unfoldable pub authenticate_agent : (String → String) → String → Tables → Answer (Option String)
authenticate_agent hash bearer db = elim (lookup device_key (hash bearer) db.agents) [
  | none ↦ gives none
  | some a ↦ if is_revoked a then rejects (revoked_agent a.agent_id) else gives (some a.agent_id)
]
