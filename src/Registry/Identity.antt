-- ===== src/Registry/Identity.antt =====
-- The device token that an enrolment gives, and a presence event that is delivered again.
use fallow.Prelude.{
  ℕ, false, Option, none, some, String, List, [], ◌∷◌, ◌++◌, ◌≡◌, refl, ap, ◌∙◌, arith, any, map,
  Bool-cases, Option-cases, inl, inr, ltb,
}
use fallow.Prelude.Eq.{◌==◌, ==_refl, String_eq, ℕ_eq}
use fallow.Prelude.Table.{lookup, has}
use fallow.Registry.Rows.{
  AgentRow, Tables, RegistryConfig, gives, agent_key, device_key, is_revoked,
}
use fallow.Registry.Tokens.{
  unused, register_agent, new_agent, protocol_version, RegisterRequest, RegisterResponse, spend,
}
use fallow.Registry.Agents.{updated_for, moving}
use fallow.Registry.Presence.{
  newer, event_row, apply_presence_event, generation_in, update_agent, presence_kinds,
  authenticate_agent,
}

event_row_again :
    (kind : String) (n now later : ℕ) (a : AgentRow)
    → event_row kind n later (event_row kind n now a) ≡ event_row kind n now a
event_row_again kind n now later a = elim (Bool-cases (newer a.presence_sequence n)) [
  | inl e ↦ rw (e, not_newer) refl
  | inr e ↦ rw (e, e) refl
]
  where
    not_newer : ltb n n ≡ false
    not_newer = ground arith

event_for_again :
    (agent kind : String) (n now later : ℕ) (a : AgentRow)
    → updated_for agent (moving kind n later) (updated_for agent (moving kind n now) a)
      ≡ updated_for agent (moving kind n now) a
event_for_again agent kind n now later a = elim (Bool-cases (a.agent_id == agent)) [
  | inl e ↦ rw e (elim (Bool-cases ((event_row kind n now a).agent_id == agent)) [
    | inl f ↦ rw f (event_row_again kind n now later a)
    | inr f ↦ rw f refl
  ])
  | inr e ↦ rw (e, e) refl
]

update_event_again :
    (agent kind : String) (n now later : ℕ) (rows : List AgentRow)
    → map
        (updated_for agent (moving kind n later))
        (map (updated_for agent (moving kind n now)) rows)
      ≡ map (updated_for agent (moving kind n now)) rows
update_event_again agent kind n now later [] = refl
update_event_again agent kind n now later (a ∷ rows) =
    ap
      (λ x.
        x
        ∷ map (updated_for agent (moving kind n later))
            (map (updated_for agent (moving kind n now)) rows))
      (event_for_again agent kind n now later a)
    ∙ ap (λ xs. updated_for agent (moving kind n now) a ∷ xs)
        (update_event_again agent kind n now later rows)

-- A presence event that is delivered again as the very next write, whatever the clock then says,
-- changes nothing and is answered as it was before.
pub apply_presence_event_twice :
    (agent kind : String) (sequence : Option ℕ) (now later : ℕ) (db : Tables)
    → apply_presence_event agent kind sequence later
        ((apply_presence_event agent kind sequence now db).0)
      ≡ apply_presence_event agent kind sequence now db
unfolding apply_presence_event update_agent
apply_presence_event_twice agent kind none now later db = refl
apply_presence_event_twice agent kind (some n) now later db =
    elim (Bool-cases (any (λ k. k == kind) presence_kinds)) [
      | inl e ↦
          rw (e, apply_presence_event)
            (ap
              (λ rows.
                (record db { agents = rows }, generation_in agent (record db { agents = rows })))
              (update_event_again agent kind n now later db.agents))
      | inr e ↦ rw (e, apply_presence_event) refl
    ]

lookup_appended :
    (k : String) (a : AgentRow) (rows : List AgentRow)
    → device_key a ≡ k
    → lookup device_key k rows ≡ none
    → lookup device_key k (rows ++ a ∷ []) ≡ some a
unfolding lookup
lookup_appended k a [] e h = ground (arith, e, ==_refl {A = String} k)
lookup_appended k a (b ∷ rows) e h = elim (Bool-cases (device_key b == k)) [
  | inl q ↦ absurd (ground (arith, q, h))
  | inr q ↦ rw q (lookup_appended k a rows e (ground (arith, q, h)))
]

authenticate_found :
    (hash : String → String) (bearer : String) (db : Tables) (a : AgentRow)
    → lookup device_key (hash bearer) db.agents ≡ some a
    → is_revoked a ≡ false
    → authenticate_agent hash bearer db ≡ gives (some a.agent_id)
unfolding authenticate_agent
authenticate_found hash bearer db a e f = rw (e, f, authenticate_agent) refl

-- If the device token's hash is no other agent's, the token that an enrolment gives authenticates as
-- the agent that it enrolled.
pub register_agent-authenticates :
    (hash prefix : String → String) (cfg : RegistryConfig) (request : RegisterRequest)
    (host agent device : String) (now : ℕ) (db : Tables) (r : RegisterResponse)
    → lookup device_key (hash device) db.agents ≡ none
    → (register_agent hash prefix cfg request host agent device now db).1 ≡ gives r
    → authenticate_agent hash r.device_token
        ((register_agent hash prefix cfg request host agent device now db).0)
      ≡ gives (some r.agent_id)
unfolding register_agent spend authenticate_agent
register_agent-authenticates hash prefix cfg request host agent device now db r fresh h =
    elim (Bool-cases (request.protocol_version == protocol_version)) [
      | inr e ↦ absurd (ground (arith, e, h))
      | inl e ↦ elim (Option-cases (unused (hash request.enrollment_token) db)) [
        | inl f ↦ absurd (ground (arith, e, f, h))
        | inr (t, f) ↦ elim (Bool-cases (has agent_key agent db.agents)) [
          | inl g ↦ absurd (ground (arith, e, f, g, h))
          | inr g ↦
              let device_given : r.device_token ≡ device = ground (arith, e, f, g, h) in
              let agent_given : r.agent_id ≡ agent = ground (arith, e, f, g, h) in
              rw (device_given, agent_given, e, f, g, register_agent)
                (authenticate_found hash device
                  (record db {
                    agents =
                        db.agents
                        ++ new_agent agent host request.caps (hash device) now t.mode ∷ [];
                  })
                  (new_agent agent host request.caps (hash device) now t.mode)
                  (lookup_appended (hash device)
                    (new_agent agent host request.caps (hash device) now t.mode) db.agents refl
                    fresh)
                  refl)
        ]
      ]
    ]
