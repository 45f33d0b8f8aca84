-- ===== src/Registry/Tokens.antt =====
-- SqliteRegistry: enrolment tokens and the registration that spends one. sha256, the minted secrets, the
-- uuid and the first twelve characters of a hash are arguments. A write that fails is rolled back.
use fallow.Prelude.{
  ℕ, Bool, true, false, not, ◌&&◌, Option, none, some, String, List, [], ◌∷◌, ◌++◌, filter, map,
  if◌then◌else◌,
}
use fallow.Prelude.Eq.{◌==◌, String_eq, ℕ_eq}
use fallow.Prelude.Table.{lookup, has}
use fallow.Prelude.Rank.{insertion_sort, by, followed_by, by_text, ascending}
use fallow.Protocol.{AgentState, DeviceCaps}
use fallow.Registry.Rows.{
  EnrollmentMode, legacy, site, transport_for_mode, AgentRow, EnrollmentToken, Tables,
  RegistryConfig, protocol_mismatch, enrollment_token, value_error, integrity, Answer, gives,
  rejects, agent_key, token_key, is_unused,
}
use fallow.Registry.Catalogue.{desired_models}

abbrev pub protocol_version : ℕ
protocol_version = 1

abbrev pub mode_of : String → Option EnrollmentMode
mode_of s = if s == "legacy" then some legacy else if s == "site" then some site else none

-- The row of a token that nobody has used.
abbrev pub unused : String → Tables → Option EnrollmentToken
unused h db = lookup token_key h (filter is_unused db.tokens)

-- `SET used_at = ?, revoked_at = ? WHERE token_hash = ? AND used_at IS NULL`; an enrolment sets no
-- revoked_at.
unfoldable pub spend_row : String → ℕ → Option ℕ → EnrollmentToken → EnrollmentToken
spend_row h now revoked t =
    if t.token_hash == h && is_unused t
    then record t { used_at = some now; revoked_at = revoked }
    else t

unfoldable pub spend : String → ℕ → Option ℕ → Tables → Tables
unfolding spend_row
spend h now revoked db = record db { tokens = map (spend_row h now revoked) db.tokens }

pub data TokenState : Type 0 where
  outstanding used revoked : TokenState

abbrev pub token_state : Option ℕ → Option ℕ → TokenState
token_state used_at (some at) = revoked
token_state (some at) none = used
token_state none none = outstanding

pub record EnrollmentTokenInfo : Type 0 where
  pub token_id : String
  pub mode : EnrollmentMode
  pub state : TokenState
  pub created_at : ℕ

pub record RegisterRequest : Type 0 where
  pub enrollment_token : String
  pub protocol_version : ℕ
  pub caps : DeviceCaps

pub record AgentConfig : Type 0 where
  pub heartbeat_interval : ℕ
  pub idle_threshold : ℕ
  pub poll_interval : ℕ
  pub vram_evict_after : ℕ
  pub bench_mode : Bool
  pub assigned_models : List String

pub record RegisterResponse : Type 0 where
  pub agent_id : String
  pub device_token : String
  pub config : AgentConfig

abbrev pub agent_config : RegistryConfig → List String → AgentConfig
agent_config c assigned = record {
  heartbeat_interval = c.heartbeat_interval;
  idle_threshold = c.idle_threshold;
  poll_interval = c.poll_interval;
  vram_evict_after = c.vram_evict_after;
  bench_mode = c.bench_mode;
  assigned_models = assigned;
}

-- INSERT_AGENT and the defaults of its table.
abbrev pub new_agent : String → String → DeviceCaps → String → ℕ → EnrollmentMode → AgentRow
new_agent agent host caps device now mode = record {
  agent_id = agent;
  hostname = caps.hostname;
  host = host;
  caps = caps;
  device_token_hash = device;
  state = AgentState.active;
  last_seen = now;
  user_idle = 0;
  mem_available_mb = 0;
  gpus = [];
  replicas = [];
  serving_paused = false;
  predicted_idle_remaining = none;
  predicted_idle_confidence = none;
  enrollment_mode = mode;
  transport = transport_for_mode mode;
  presence_sequence = none;
  presence_generation = 0;
  revoked_at = none;
  registered_at = now;
}

module _ (hash prefix : String → String) where
  unfoldable pub create_enrollment_token : String → String → ℕ → Tables → Tables × Answer String
  create_enrollment_token mode token now db = elim (mode_of mode) [
    | none ↦ (db, rejects value_error)
    | some m ↦ if has token_key (hash token) db.tokens then (db, rejects integrity) else (
      record db {
        tokens =
            db.tokens
            ++ (record {
              token_hash = hash token;
              created_at = now;
              used_at = none;
              mode = m;
              revoked_at = none;
            })
              ∷ [];
      },
      gives token,
    )
  ]

  unfoldable pub list_enrollment_tokens : Tables → List EnrollmentTokenInfo
  list_enrollment_tokens db =
      map
        (λ t. record {
          token_id = prefix t.token_hash;
          mode = t.mode;
          state = token_state t.used_at t.revoked_at;
          created_at = t.created_at;
        })
        (insertion_sort
          (followed_by (by ascending (λ t. t.created_at)) (by by_text (λ t. t.token_hash)))
          db.tokens)

  -- The unused tokens that a normalized id names: `LIMIT 2` tells one from more.
  unfoldable pub named : String → Tables → List EnrollmentToken
  named id db = filter (λ t. prefix t.token_hash == id && is_unused t) db.tokens

  -- `revoke_enrollment_token` of a normalized id.
  unfoldable pub revoke_enrollment_token : String → ℕ → Tables → Tables × Answer Bool
  unfolding named spend
  revoke_enrollment_token id now db = elim (named id db) [
    | [] ↦ (db, gives false)
    | t ∷ ts ↦ elim ts [
      | [] ↦ (spend t.token_hash now (some now) db, gives true)
      | u ∷ us ↦ (db, rejects enrollment_token)
    ]
  ]

  unfoldable pub register_agent :
      RegistryConfig
      → RegisterRequest
      → String
      → String
      → String
      → ℕ
      → Tables
      → Tables × Answer RegisterResponse
  unfolding spend desired_models
  register_agent cfg request host agent device now db =
      if not (request.protocol_version == protocol_version)
      then (db, rejects (protocol_mismatch request.protocol_version protocol_version))
      else elim (unused (hash request.enrollment_token) db) [
        | none ↦ (db, rejects enrollment_token)
        | some t ↦
            if has agent_key agent db.agents
            then (db, rejects integrity)
            else (let spent = spend (hash request.enrollment_token) now none db in
                let row = new_agent agent host request.caps (hash device) now t.mode in
                let enrolled = record spent { agents = spent.agents ++ row ∷ [] } in
                (
                  enrolled,
                  gives (record {
                    agent_id = agent;
                    device_token = device;
                    config = agent_config cfg (desired_models agent enrolled);
                  }),
                ))
      ]
