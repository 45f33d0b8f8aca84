-- ===== src/Registry/Calls.antt =====
-- Histories of the registry: its writes in the order of their commits, and what each enrolment gave.
use fallow.Prelude.{ℕ, Bool, Option, String, List, [], ◌∷◌, ◌++◌}
use fallow.Protocol.{AgentState, ModelManifest}
use fallow.Registry.Rows.{Tables, RegistryConfig, Answer, gives, rejects}
use fallow.Registry.Tokens.{
  create_enrollment_token, revoke_enrollment_token, register_agent, RegisterRequest,
  RegisterResponse,
}
use fallow.Registry.Presence.{
  Heartbeat, revoke_agent, record_heartbeat, set_agent_state, apply_presence_event,
  bump_presence_generation,
}
use fallow.Registry.Catalogue.{put_model, set_assignments, create_api_key}

pub data Call : Type 0 where
  mint : String → String → ℕ → Call
  void : String → ℕ → Call
  register : RegisterRequest → String → String → String → ℕ → Call
  revoke : String → ℕ → Call
  beat : String → Heartbeat → ℕ → Call
  set_state : String → AgentState → ℕ → Call
  presence : String → String → Option ℕ → ℕ → Call
  bump : String → Call
  put : ModelManifest → String → Bool → ℕ → Call
  assign : String → List String → Call
  mint_key : String → Option (List String) → Option ℕ → Option ℕ → String → ℕ → Call

-- The token that a granted enrolment was made with.
abbrev pub enrolled_by : RegisterRequest → Answer RegisterResponse → List String
enrolled_by request (gives r) = request.enrollment_token ∷ []
enrolled_by request (rejects e) = []

module _ (hash prefix : String → String) (cfg : RegistryConfig) where
  unfoldable pub step : Call → Tables → Tables × List String
  unfolding create_enrollment_token revoke_enrollment_token register_agent revoke_agent
      record_heartbeat set_agent_state apply_presence_event bump_presence_generation put_model
      set_assignments create_api_key
  step (mint mode token now) db = ((create_enrollment_token hash prefix mode token now db).0, [])
  step (void id now) db = ((revoke_enrollment_token hash prefix id now db).0, [])
  step (register request host agent device now) db =
      let r = register_agent hash prefix cfg request host agent device now db in
      (r.0, enrolled_by request (r.1))
  step (revoke agent now) db = ((revoke_agent agent now db).0, [])
  step (beat agent h now) db = ((record_heartbeat agent h now db).0, [])
  step (set_state agent s now) db = ((set_agent_state agent s now db).0, [])
  step (presence agent kind sequence now) db =
      ((apply_presence_event agent kind sequence now db).0, [])
  step (bump agent) db = ((bump_presence_generation agent db).0, [])
  step (put manifest path enabled now) db = (put_model manifest path enabled now db, [])
  step (assign agent models) db = (set_assignments agent models db, [])
  step (mint_key name allow rpm daily key now) db =
      ((create_api_key hash name allow rpm daily key now db).0, [])

  unfoldable pub run : List Call → Tables → Tables × List String
  unfolding step
  run [] db = (db, [])
  run (c ∷ cs) db = let s = step c db in let rest = run cs (s.0) in (rest.0, s.1 ++ rest.1)
