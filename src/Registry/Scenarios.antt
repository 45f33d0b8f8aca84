-- ===== src/Registry/Scenarios.antt =====
-- A desk that is enrolled with a token, reports, and is revoked.
use fallow.Prelude.Rank.{insertion_sort}
use fallow.Prelude.{
  ℕ, ◌≤◌, ◌≡◌, ◌≢◌, refl, false, none, some, String, List, [], ◌∷◌, arith, All, count,
}
use fallow.Prelude.Eq.{◌==◌, String_eq}
use fallow.Prelude.Table.{lookup}
use fallow.Protocol.{AgentState, DeviceCaps, OsFamily, ReplicaState}
use fallow.Registry.Rows.{Tables, empty_tables, RegistryConfig, AgentRow, site, gives, agent_key}
use fallow.Registry.Tokens.{
  revoke_enrollment_token, RegisterRequest, RegisterResponse, agent_config, register_agent,
  new_agent,
}
use fallow.Registry.Presence.{
  Heartbeat, revoke_agent, site_route, authenticate_agent, apply_presence_event,
}
use fallow.Registry.Views.{snapshots, replica_endpoints}
use fallow.Registry.Calls.{Call, mint, register, beat, presence, run}
use fallow.Registry.Enrolment.{run-enrols}
use fallow.Registry.Revocation.{revoke_agent_terminal}
use fallow.Registry.Liveness.{IsBacked, replica_endpoints-IsBacked}
use fallow.Registry.Fence.{IsLater, run-IsLater}
use fallow.Registry.Identity.{apply_presence_event_twice, register_agent-authenticates}

abbrev same : String → String
same s = s

abbrev settings : RegistryConfig
settings = record {
  admin_key = "root";
  heartbeat_interval = 5;
  idle_threshold = 120;
  poll_interval = 1;
  vram_evict_after = 60;
  bench_mode = false;
  suspect_after = 15;
  offline_after = 45;
}

abbrev desk : DeviceCaps
desk = record {
  hostname = "desk";
  os = OsFamily.linux;
  os_version = "6";
  cpu_model = "x";
  cpu_cores = 4;
  ram_mb = 8000;
  disk_free_mb = 1000;
  gpus = [];
  agent_version = "1";
}

abbrev joining : RegisterRequest
joining = record { enrollment_token = "join"; protocol_version = 1; caps = desk }

abbrev report : Heartbeat
report = record {
  seq = 3;
  state = AgentState.idle;
  user_idle = 900;
  mem_available_mb = 4000;
  gpus = [];
  replicas =
      (record { model_id = "m"; port = 80; state = ReplicaState.ready; inflight = 0; gpu = false })
      ∷ [];
  serving_paused = false;
  predicted_idle_remaining = none;
  predicted_idle_confidence = none;
}

abbrev morning : List Call
morning =
    mint "site" "join" 1
    ∷ register joining "h" "a1" "secret" 2
    ∷ register joining "h" "a2" "other" 3
    ∷ beat "a1" report 4
    ∷ presence "a1" "user_returned" (some 5) 5
    ∷ []

-- The token of the morning, minted and not used yet.
abbrev issued : Tables
issued = record empty_tables {
  tokens =
      record { token_hash = "join"; created_at = 1; used_at = none; mode = site; revoked_at = none }
      ∷ [];
}

run-enrols_example :
    (count (λ t. same t == "join") (run same same settings morning issued).1 ≤ 1)
    × (count
          (λ t. same t == "join")
          (run same same settings morning (revoke_enrollment_token same same "join" 2 issued).0).1
        ≤ 0)
unfolding revoke_enrollment_token
run-enrols_example = run-enrols same same settings "join" morning issued "join" 2

abbrev at_work : AgentRow
at_work = new_agent "a1" "h" desk "secret" 2 site

abbrev serving : Tables
serving = record empty_tables {
  agents =
      (record at_work { state = AgentState.idle; replicas = report.replicas; last_seen = 4 }) ∷ [];
}

abbrev evening : List Call
evening =
    beat "a1" report 9
    ∷ register joining "h" "a1" "again" 10
    ∷ presence "a1" "user_idle" (some 9) 11
    ∷ []

revoke_agent_terminal_example :
    let q = (run same same settings evening ((revoke_agent "a1" 8 serving).0)).0 in
    (site_route "a1" q ≡ none)
    × ((at : ℕ) → All (λ s. s.agent_id ≢ "a1") (snapshots settings at q))
    × ((model : String) (at : ℕ)
        → All (λ e. e.agent_id ≢ "a1") (replica_endpoints settings model at q))
    × ((bearer : String) → authenticate_agent same bearer q ≢ gives (some "a1"))
unfolding revoke_agent lookup
revoke_agent_terminal_example = revoke_agent_terminal same same settings "a1" 8 serving evening refl

replica_endpoints-IsBacked_example :
    All (IsBacked "m" (snapshots settings 10 serving)) (replica_endpoints settings "m" 10 serving)
replica_endpoints-IsBacked_example =
    replica_endpoints-IsBacked settings "m" 10 serving (omega arith)

run-IsLater_example :
    (a : AgentRow) × (lookup agent_key "a1" (run same same settings evening serving).0.agents
      ≡ some a)
    × IsLater
        (record at_work { state = AgentState.idle; replicas = report.replicas; last_seen = 4 })
        a
unfolding lookup
run-IsLater_example = run-IsLater same same settings "a1" evening serving refl

apply_presence_event_twice_example :
    apply_presence_event "a1" "reclaim"
      (some 7)
      9
      ((apply_presence_event "a1" "reclaim" (some 7) 8 serving).0)
    ≡ apply_presence_event "a1" "reclaim" (some 7) 8 serving
apply_presence_event_twice_example = apply_presence_event_twice "a1" "reclaim" (some 7) 8 9 serving

abbrev invited : Tables
invited = record empty_tables {
  tokens =
      (record {
        token_hash = "join";
        created_at = 1;
        used_at = none;
        mode = site;
        revoked_at = none;
      })
      ∷ [];
}

abbrev welcome : RegisterResponse
welcome = record { agent_id = "a1"; device_token = "secret"; config = agent_config settings [] }

register_agent-authenticates_example :
    authenticate_agent same "secret"
      ((register_agent same same settings joining "h" "a1" "secret" 2 invited).0)
    ≡ gives (some "a1")
unfolding lookup register_agent insertion_sort
register_agent-authenticates_example =
    register_agent-authenticates same same settings joining "h" "a1" "secret" 2 invited welcome refl
      refl
