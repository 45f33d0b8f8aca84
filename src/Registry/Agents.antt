-- ===== src/Registry/Agents.antt =====
-- What the registry's writes do to the rows of agents: they update the rows of one agent, or add a row
-- of a new one.
use fallow.Prelude.{
  ℕ, Bool, false, Option, none, some, String, List, [], ◌∷◌, ◌++◌, ◌≡◌, refl, sym, ◌∙◌, subst,
  arith, any, map, Bool-cases, Option-cases, inl, inr, if◌then◌else◌,
}
use fallow.Prelude.Eq.{◌==◌, String_eq, ℕ_eq}
use fallow.Prelude.Table.{has}
use fallow.Protocol.{ModelManifest, AgentState}
use fallow.Registry.Rows.{AgentRow, Tables, RegistryConfig, agent_key}
use fallow.Registry.Tokens.{
  mode_of, unused, create_enrollment_token, revoke_enrollment_token, register_agent, spend,
  new_agent, RegisterRequest, protocol_version,
}
use fallow.Registry.Presence.{
  on_agent, apply_presence_event, update_agent, revoke_row, heartbeat_row, set_state_row, bump_row,
  event_row, presence_kinds, newer, Heartbeat,
}
use fallow.Registry.Catalogue.{
  put_model, insert_assignment, insert_assignments, set_assignments, create_api_key,
}
use fallow.Registry.Calls.{
  mint_key, assign, put, bump, presence, set_state, beat, revoke, register, void, mint, Call, step,
  run,
}

-- The updates of a row.
pub data RowUpdate : Type 0 where
  revoking : ℕ → RowUpdate
  beating : Heartbeat → ℕ → RowUpdate
  setting : AgentState → ℕ → RowUpdate
  moving : String → ℕ → ℕ → RowUpdate
  bumping : RowUpdate

abbrev pub updated : RowUpdate → AgentRow → AgentRow
updated (revoking now) = revoke_row now
updated (beating h now) = heartbeat_row h now
updated (setting s now) = set_state_row s now
updated (moving kind n now) = event_row kind n now
updated bumping = bump_row

abbrev pub updated_for : String → RowUpdate → AgentRow → AgentRow
updated_for agent u a = if a.agent_id == agent then updated u a else a

updated-agent_id : (u : RowUpdate) (a : AgentRow) → (updated u a).agent_id ≡ a.agent_id
updated-agent_id (revoking now) a = refl
updated-agent_id (beating h now) a = refl
updated-agent_id (setting s now) a = refl
updated-agent_id (moving kind n now) a = elim (Bool-cases (newer a.presence_sequence n)) [
  | inl q ↦ rw q refl
  | inr q ↦ rw q refl
]
updated-agent_id bumping a = refl

pub updated_for-agent_id :
    (agent : String) (u : RowUpdate) (a : AgentRow) → (updated_for agent u a).agent_id ≡ a.agent_id
updated_for-agent_id agent u a = elim (Bool-cases (a.agent_id == agent)) [
  | inl e ↦ rw e (updated-agent_id u a)
  | inr e ↦ rw e refl
]

create_enrollment_token-agents :
    (hash prefix : String → String) (mode token : String) (now : ℕ) (db : Tables)
    → (create_enrollment_token hash prefix mode token now db).0.agents ≡ db.agents
unfolding create_enrollment_token
create_enrollment_token-agents hash prefix mode token now db = elim (Option-cases (mode_of mode)) [
  | inl e ↦ rw (e, create_enrollment_token) refl
  | inr (m, e) ↦ rw (e, create_enrollment_token) (ground arith)
]

revoke_enrollment_token-agents :
    (hash prefix : String → String) (id : String) (now : ℕ) (db : Tables)
    → (revoke_enrollment_token hash prefix id now db).0.agents ≡ db.agents
unfolding revoke_enrollment_token spend
revoke_enrollment_token-agents hash prefix id now db = ground arith

put_model-agents :
    (m : ModelManifest) (path : String) (enabled : Bool) (now : ℕ) (db : Tables)
    → (put_model m path enabled now db).agents ≡ db.agents
unfolding put_model
put_model-agents m path enabled now db = ground arith

insert_assignments-agents :
    (agent : String) (ms : List String) (db : Tables)
    → (insert_assignments agent ms db).agents ≡ db.agents
unfolding insert_assignments insert_assignment
insert_assignments-agents agent [] db = refl
insert_assignments-agents agent (m ∷ ms) db =
    insert_assignments-agents agent ms (insert_assignment agent m db) ∙ ground arith

create_api_key-agents :
    (hash : String → String) (name : String) (allow : Option (List String)) (rpm daily : Option ℕ)
    (key : String) (now : ℕ) (db : Tables)
    → (create_api_key hash name allow rpm daily key now db).0.agents ≡ db.agents
unfolding create_api_key
create_api_key-agents hash name allow rpm daily key now db = ground arith

module _ {κ} (P : List AgentRow → Type κ)
    (on_update : (other : String) (u : RowUpdate) (rows : List AgentRow)
      → P rows
      → P (map (updated_for other u) rows))
    (on_register : (a : AgentRow) (rows : List AgentRow)
      → has agent_key a.agent_id rows ≡ false
      → P rows
      → P (rows ++ a ∷ [])) where
  same : (db after : Tables) → after.agents ≡ db.agents → P db.agents → P after.agents
  same db after e h = subst P (sym e) h

  on_agent-keeps :
      (other : String) (u : RowUpdate) (db : Tables)
      → P db.agents
      → P (on_agent other (updated u) db).0.agents
  unfolding on_agent update_agent
  on_agent-keeps other u db h = elim (Bool-cases (has agent_key other db.agents)) [
    | inl e ↦ rw (e, on_agent) (on_update other u db.agents h)
    | inr e ↦ rw (e, on_agent) h
  ]

  apply_presence_event-keeps :
      (other kind : String) (sequence : Option ℕ) (now : ℕ) (db : Tables)
      → P db.agents
      → P (apply_presence_event other kind sequence now db).0.agents
  unfolding apply_presence_event update_agent
  apply_presence_event-keeps other kind none now db h = h
  apply_presence_event-keeps other kind (some n) now db h =
      elim (Bool-cases (any (λ k. k == kind) presence_kinds)) [
        | inl e ↦ rw (e, apply_presence_event) (on_update other (moving kind n now) db.agents h)
        | inr e ↦ rw (e, apply_presence_event) h
      ]

  register_agent-keeps :
      (hash prefix : String → String) (cfg : RegistryConfig) (request : RegisterRequest)
      (host other device : String) (now : ℕ) (db : Tables)
      → P db.agents
      → P (register_agent hash prefix cfg request host other device now db).0.agents
  unfolding register_agent spend
  register_agent-keeps hash prefix cfg request host other device now db h =
      elim (Bool-cases (request.protocol_version == protocol_version)) [
        | inr e ↦ rw (e, register_agent) h
        | inl e ↦ elim (Option-cases (unused (hash request.enrollment_token) db)) [
          | inl f ↦ rw (e, f, register_agent) h
          | inr (t, f) ↦ elim (Bool-cases (has agent_key other db.agents)) [
            | inl g ↦ rw (e, f, g, register_agent) h
            | inr g ↦
                rw (e, f, g, register_agent)
                  (on_register (new_agent other host request.caps (hash device) now t.mode)
                    db.agents g h)
          ]
        ]
      ]

  step-keeps :
      (hash prefix : String → String) (cfg : RegistryConfig) (c : Call) (db : Tables)
      → P db.agents
      → P (step hash prefix cfg c db).0.agents
  unfolding step update_agent
  step-keeps hash prefix cfg (mint mode token now) db =
      same db ((create_enrollment_token hash prefix mode token now db).0)
        (create_enrollment_token-agents hash prefix mode token now db)
  step-keeps hash prefix cfg (void id now) db =
      same db ((revoke_enrollment_token hash prefix id now db).0)
        (revoke_enrollment_token-agents hash prefix id now db)
  step-keeps hash prefix cfg (register request host other device now) db =
      register_agent-keeps hash prefix cfg request host other device now db
  step-keeps hash prefix cfg (revoke other now) db = on_agent-keeps other (revoking now) db
  step-keeps hash prefix cfg (beat other b now) db = on_agent-keeps other (beating b now) db
  step-keeps hash prefix cfg (set_state other s now) db = on_agent-keeps other (setting s now) db
  step-keeps hash prefix cfg (presence other kind sequence now) db =
      apply_presence_event-keeps other kind sequence now db
  step-keeps hash prefix cfg (bump other) db = on_update other bumping db.agents
  step-keeps hash prefix cfg (put m path enabled now) db =
      same db (put_model m path enabled now db) (put_model-agents m path enabled now db)
  step-keeps hash prefix cfg (assign other ms) db =
      same db (set_assignments other ms db) (insert_assignments-agents other ms _)
  step-keeps hash prefix cfg (mint_key name allow rpm daily key now) db =
      same db ((create_api_key hash name allow rpm daily key now db).0)
        (create_api_key-agents hash name allow rpm daily key now db)

  pub run-keeps :
      (hash prefix : String → String) (cfg : RegistryConfig) (cs : List Call) (db : Tables)
      → P db.agents
      → P (run hash prefix cfg cs db).0.agents
  unfolding run
  run-keeps hash prefix cfg [] db h = h
  run-keeps hash prefix cfg (c ∷ cs) db h =
      run-keeps hash prefix cfg cs ((step hash prefix cfg c db).0)
        (step-keeps hash prefix cfg c db h)
