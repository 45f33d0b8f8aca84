-- ===== src/Registry/Enrolment.antt =====
-- How often an enrolment token enrols.
use fallow.Prelude.{
  ◌&&◌, count-append, ◌∙◌, ℕ, ◌+◌, ◌≤◌, Bool, true, not, ◌||◌, Option, none, some, String, List, [],
  ◌∷◌, ◌≡◌, refl, ap, arith, count, Bool-cases, Option-cases, inl, inr, if◌then◌else◌,
}
use fallow.Prelude.Eq.{◌==◌, ==_iff, String_eq, ℕ_eq}
use fallow.Prelude.Table.{has}
use fallow.Registry.Rows.{
  EnrollmentMode, EnrollmentToken, AgentRow, Tables, RegistryConfig, token_key, agent_key,
}
use fallow.Registry.Tokens.{
  mode_of, unused, spend, create_enrollment_token, revoke_enrollment_token, register_agent,
  RegisterRequest, protocol_version,
}
use fallow.Registry.Presence.{
  set_state_row, heartbeat_row, revoke_row, on_agent, revoke_agent, record_heartbeat,
  set_agent_state, apply_presence_event, bump_presence_generation, update_agent,
}
use fallow.Registry.Catalogue.{
  put_model, insert_assignment, insert_assignments, set_assignments, create_api_key,
}
use fallow.Registry.Voiding.{
  says_voided, spendable-revoke_enrollment_token, revoke_enrollment_token-voids,
}
use fallow.Registry.Spending.{
  spendable-le, is_minted, is_left, spendable, has-is_minted, unused-is_left, is_minted-append,
  is_left-append, spent_once,
}
use fallow.Protocol.{ModelManifest}
use fallow.Registry.Calls.{
  mint_key, assign, put, bump, presence, set_state, beat, revoke, register, void, mint, Call, step,
  run, enrolled_by,
}

module _ (hash prefix : String → String) where
  spendable-create_enrollment_token :
      (h mode token : String) (now : ℕ) (db : Tables)
      → spendable h (create_enrollment_token hash prefix mode token now db).0.tokens
        ≤ spendable h db.tokens
  unfolding create_enrollment_token
  spendable-create_enrollment_token h mode token now db = elim (Option-cases (mode_of mode)) [
    | inl e ↦ rw (e, create_enrollment_token) (omega arith)
    | inr (m, e) ↦ elim (Bool-cases (has token_key (hash token) db.tokens)) [
      | inl f ↦ rw (e, f, create_enrollment_token) (omega arith)
      | inr f ↦
          rw (e, f, create_enrollment_token)
            (ground (
              arith,
              is_minted-append h db.tokens (minted m ∷ []),
              is_left-append h db.tokens (minted m ∷ []),
              has-is_minted h db.tokens,
              has-is_minted (hash token) db.tokens,
              f,
              ==_iff {A = String} (hash token) h,
            ))
    ]
  ]
    where
      minted : EnrollmentMode → EnrollmentToken
      minted m = record {
        token_hash = hash token;
        created_at = now;
        used_at = none;
        mode = m;
        revoked_at = none;
      }

  -- An enrolment uses the token up.
  register_agent-spends :
      (cfg : RegistryConfig) (request : RegisterRequest) (host agent device : String) (now : ℕ)
      (h : String) (db : Tables)
      → (let r = register_agent hash prefix cfg request host agent device now db in
          count (λ t. hash t == h) (enrolled_by request (r.1)) + spendable h (r.0).tokens
          ≤ spendable h db.tokens)
  unfolding register_agent spend
  register_agent-spends cfg request host agent device now h db =
      elim (Bool-cases (request.protocol_version == protocol_version)) [
        | inr e ↦ rw (e, register_agent) (omega arith)
        | inl e ↦ elim (Option-cases (unused (hash request.enrollment_token) db)) [
          | inl f ↦ rw (e, f, register_agent) (omega arith)
          | inr (t, f) ↦ elim (Bool-cases (has agent_key agent db.agents)) [
            | inl g ↦ rw (e, f, g, register_agent) (omega arith)
            | inr g ↦
                rw (e, f, g, register_agent)
                  (spent_once h (hash request.enrollment_token) now none db.tokens (left f))
          ]
        ]
      ]
    where
      left :
          {t : EnrollmentToken}
          → unused (hash request.enrollment_token) db ≡ some t
          → is_left (hash request.enrollment_token) db.tokens ≡ true
      left f = ground (arith, unused-is_left (hash request.enrollment_token) db.tokens, f)

on_agent-tokens :
    (agent : String) (f : AgentRow → AgentRow) (db : Tables)
    → (on_agent agent f db).0.tokens ≡ db.tokens
unfolding on_agent update_agent
on_agent-tokens agent f db = ground arith

apply_presence_event-tokens :
    (agent kind : String) (sequence : Option ℕ) (now : ℕ) (db : Tables)
    → (apply_presence_event agent kind sequence now db).0.tokens ≡ db.tokens
unfolding apply_presence_event update_agent
apply_presence_event-tokens agent kind none now db = refl
apply_presence_event-tokens agent kind (some n) now db = ground arith

put_model-tokens :
    (m : ModelManifest) (path : String) (enabled : Bool) (now : ℕ) (db : Tables)
    → (put_model m path enabled now db).tokens ≡ db.tokens
unfolding put_model
put_model-tokens m path enabled now db = ground arith

insert_assignments-tokens :
    (agent : String) (ms : List String) (db : Tables)
    → (insert_assignments agent ms db).tokens ≡ db.tokens
unfolding insert_assignments insert_assignment
insert_assignments-tokens agent [] db = refl
insert_assignments-tokens agent (m ∷ ms) db =
    insert_assignments-tokens agent ms (insert_assignment agent m db) ∙ ground arith

create_api_key-tokens :
    (hash : String → String) (name : String) (allow : Option (List String)) (rpm daily : Option ℕ)
    (key : String) (now : ℕ) (db : Tables)
    → (create_api_key hash name allow rpm daily key now db).0.tokens ≡ db.tokens
unfolding create_api_key
create_api_key-tokens hash name allow rpm daily key now db = ground arith

module _ (hash prefix : String → String) (cfg : RegistryConfig) (h : String) where
  silent : {m n : ℕ} → m ≤ n → 0 + m ≤ n
  silent k = omega (arith, k)

  kept :
      (db after : Tables)
      → after.tokens ≡ db.tokens
      → 0 + spendable h after.tokens ≤ spendable h db.tokens
  kept db after e = omega (arith, ap (spendable h) e)

  step-spends :
      (c : Call) (db : Tables)
      → count (λ t. hash t == h) (step hash prefix cfg c db).1
          + spendable h (step hash prefix cfg c db).0.tokens
        ≤ spendable h db.tokens
  unfolding step
  step-spends (mint mode token now) db =
      silent (spendable-create_enrollment_token hash prefix h mode token now db)
  step-spends (void id now) db = silent (spendable-revoke_enrollment_token hash prefix h id now db)
  step-spends (register request host agent device now) db =
      register_agent-spends hash prefix cfg request host agent device now h db
  step-spends (revoke agent now) db =
      kept db ((revoke_agent agent now db).0) (on_agent-tokens agent (revoke_row now) db)
  step-spends (beat agent b now) db =
      kept db ((record_heartbeat agent b now db).0) (on_agent-tokens agent (heartbeat_row b now) db)
  step-spends (set_state agent s now) db =
      kept db ((set_agent_state agent s now db).0) (on_agent-tokens agent (set_state_row s now) db)
  step-spends (presence agent kind sequence now) db =
      kept db ((apply_presence_event agent kind sequence now db).0)
        (apply_presence_event-tokens agent kind sequence now db)
  step-spends (bump agent) db = kept db ((bump_presence_generation agent db).0) refl
  step-spends (put m path enabled now) db =
      kept db (put_model m path enabled now db) (put_model-tokens m path enabled now db)
  step-spends (assign agent ms) db =
      kept db (set_assignments agent ms db) (insert_assignments-tokens agent ms _)
  step-spends (mint_key name allow rpm daily key now) db =
      kept db ((create_api_key hash name allow rpm daily key now db).0)
        (create_api_key-tokens hash name allow rpm daily key now db)

  run-spends :
      (cs : List Call) (db : Tables)
      → count (λ t. hash t == h) (run hash prefix cfg cs db).1
          + spendable h (run hash prefix cfg cs db).0.tokens
        ≤ spendable h db.tokens
  unfolding run
  run-spends [] db = omega arith
  run-spends (c ∷ cs) db =
      let s : Tables × List String = step hash prefix cfg c db in
      omega (
        arith,
        step-spends c db,
        run-spends cs (s.0),
        count-append (λ t. hash t == h) (s.1) ((run hash prefix cfg cs (s.0)).1),
      )

  -- Over any run, a token enrols at most once, and not at all if it is minted and already used. After
  -- a revocation that says that it voided a token, no minted token with that id enrols in any run.
  pub run-enrols :
      (cs : List Call) (db : Tables) (id : String) (now : ℕ)
      → let voided = revoke_enrollment_token hash prefix id now db in
        (count (λ t. hash t == h) (run hash prefix cfg cs db).1
          ≤ (if is_left h db.tokens || not (is_minted h db.tokens) then 1 else 0))
        × (count (λ t. hash t == h) (run hash prefix cfg cs (voided.0)).1
            ≤ (if says_voided (voided.1) && prefix h == id && is_minted h db.tokens then 0 else 1))
  run-enrols cs db id now = (
    omega (arith, run-spends cs db),
    elim (Bool-cases (
        says_voided (revoke_enrollment_token hash prefix id now db).1
        && prefix h == id
        && is_minted h db.tokens)) [
          | inl e ↦ rw e (
              omega (
                arith,
                run-spends cs (revoke_enrollment_token hash prefix id now db).0,
                revoke_enrollment_token-voids hash prefix h id now db
                    (ground (arith, e, ==_iff {A = String} (prefix h) id)) (ground (arith, e))
                    (ground (arith, e)),
              ))
          | inr e ↦ rw e (
              omega (
                arith,
                run-spends cs (revoke_enrollment_token hash prefix id now db).0,
                spendable-le h (revoke_enrollment_token hash prefix id now db).0.tokens,
              ))
        ],
  )
