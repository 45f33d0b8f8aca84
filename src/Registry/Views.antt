-- ===== src/Registry/Views.antt =====
-- SqliteRegistry's liveness views and mapping.py.
use fallow.Prelude.{
  ℕ, Bool, true, false, not, ◌&&◌, Option, none, some, String, List, [], ◌∷◌, ◌++◌, filter,
  filter_map, map,
}
use fallow.Prelude.Eq.{◌==◌, String_eq}
use fallow.Prelude.Rank.{insertion_sort, by, followed_by, by_text, ascending}
use fallow.Protocol.{AgentSnapshot, ReplicaEndpoint, ReplicaState, is_idle}
use fallow.Registry.Rows.{AgentRow, Tables, RegistryConfig, is_older, is_revoked}

abbrev pub snapshot_from_row : AgentRow → Bool → AgentSnapshot
snapshot_from_row a suspect = record {
  agent_id = a.agent_id;
  host = a.host;
  state = a.state;
  suspect = suspect;
  caps = a.caps;
  mem_available_mb = a.mem_available_mb;
  gpus = a.gpus;
  replicas = a.replicas;
  user_idle = a.user_idle;
  serving_paused = a.serving_paused;
  predicted_idle_remaining = a.predicted_idle_remaining;
  predicted_idle_confidence = a.predicted_idle_confidence;
}

abbrev pub is_ready : ReplicaState → Bool
is_ready ReplicaState.ready = true
is_ready _ = false

unfoldable pub ready_endpoints_for_row : String → AgentRow → List ReplicaEndpoint
ready_endpoints_for_row model a =
    map
      (λ r. record {
        agent_id = a.agent_id;
        host = a.host;
        port = r.port;
        model_id = model;
        inflight = r.inflight;
      })
      (filter (λ r. r.model_id == model && is_ready r.state) a.replicas)

-- The rows that have not been revoked, by registration.
abbrev pub registered_rows : Tables → List AgentRow
registered_rows db =
    insertion_sort (by ascending (λ a. a.registered_at))
      (filter (λ a. not (is_revoked a)) db.agents)

unfoldable pub snapshots : RegistryConfig → ℕ → Tables → List AgentSnapshot
snapshots cfg now db =
    map (λ a. snapshot_from_row a (is_older cfg.suspect_after now a))
      (filter (λ a. not (is_older cfg.offline_after now a)) (registered_rows db))

-- Revoked agents included.
unfoldable pub list_offline : RegistryConfig → ℕ → Tables → List String
list_offline cfg now db =
    map (λ a. a.agent_id) (filter (λ a. is_older cfg.offline_after now a) db.agents)

abbrev pub is_routable : RegistryConfig → ℕ → AgentRow → Bool
is_routable cfg now a =
    not (is_revoked a)
    && not (is_older cfg.suspect_after now a)
    && not a.serving_paused
    && is_idle a.state

unfoldable pub concat_endpoints : List (List ReplicaEndpoint) → List ReplicaEndpoint
concat_endpoints [] = []
concat_endpoints (es ∷ ess) = es ++ concat_endpoints ess

unfoldable pub replica_endpoints : RegistryConfig → String → ℕ → Tables → List ReplicaEndpoint
unfolding concat_endpoints ready_endpoints_for_row
replica_endpoints cfg model now db =
    concat_endpoints (map (ready_endpoints_for_row model) (filter (is_routable cfg now) db.agents))

pub record RevokedAgentInfo : Type 0 where
  pub agent_id : String
  pub hostname : String
  pub revoked_at : ℕ

abbrev pub revoked_info : AgentRow → Option RevokedAgentInfo
revoked_info a = elim (a.revoked_at) [
  | none ↦ none
  | some at ↦ some (record { agent_id = a.agent_id; hostname = a.hostname; revoked_at = at })
]

unfoldable pub list_revoked_agents : Tables → List RevokedAgentInfo
list_revoked_agents db =
    insertion_sort (followed_by (by ascending (λ r. r.revoked_at)) (by by_text (λ r. r.agent_id)))
      (filter_map revoked_info db.agents)
