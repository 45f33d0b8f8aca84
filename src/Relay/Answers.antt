-- ===== src/Relay/Answers.antt =====
-- The calls by which an agent answers a claim: what doing nothing and every termination keep.
use fallow.Prelude.{ℕ, Option, none, some, String, [], any, ltb, length, ◌≡◌, Bool-cases, inl, inr}
use fallow.Prelude.Eq.{◌==◌, String_eq}
use fallow.Mesh.Store.{Bytes}
use fallow.Relay.Rows.{Work, WorkState, is_claimed, is_responding, failed, Broker, Reply}
use fallow.Relay.Stream.{max_response_chunk_bytes}
use fallow.Relay.Registry.{work_of, terminate, on_claim, expire_late, deadline_expired}
use fallow.Relay.Responses.{
  set_work, begun, start_response, write, finish, fail, fail_codes, respond, admit, complete,
  break_off,
}
use fallow.Relay.Calls.{effect, Closes, on_claim_cases}

module _ {κ} (P : Broker × Closes → Type κ) (b : Broker) (keep : P (b, []))
    (ends : (c : String) (state : WorkState) (reason : Option String) (terminal : String)
      → P (terminate c state reason terminal b)) where
  on_claim-keeps :
      {A : Type 0} (agent c : String) (generation now : ℕ) (body : Work → Broker → Reply A)
      → ((w : Work) → work_of c b ≡ some w → P (effect (body w b)))
      → P (effect (on_claim agent c generation now body b))
  unfolding expire_late
  on_claim-keeps agent c generation now body k =
      on_claim_cases (λ r. P (effect r)) agent c generation now body b (λ e. keep)
        (λ w e. ends w.claim_id failed (some deadline_expired) deadline_expired) k

  pub start_response-keeps :
      (agent c : String) (generation status : ℕ) (kind : String) (now : ℕ)
      → P (set_work c (begun status kind) b, [])
      → P (effect (start_response agent c generation status kind now b))
  unfolding start_response
  start_response-keeps agent c generation status kind now k =
      on_claim-keeps agent c generation now (respond c status kind)
        (λ w e. elim (Bool-cases (is_claimed w.state)) [ inl f ↦ rw f k | inr f ↦ rw f keep ])

  pub write-keeps :
      (agent c : String) (generation : ℕ) (bytes : Bytes) (now : ℕ)
      → P (effect (write agent c generation bytes now b))
  unfolding write
  write-keeps agent c generation bytes now =
      elim (Bool-cases (ltb max_response_chunk_bytes (length bytes))) [
        | inl f ↦ rw (f, write) keep
        | inr f ↦
            rw (f, write)
              (on_claim-keeps agent c generation now (admit bytes) (λ w e.
                elim (Bool-cases (is_responding w.state)) [
                  | inl f ↦ rw f keep
                  | inr f ↦ rw f keep
                ]))
      ]

  pub finish-keeps :
      (agent c : String) (generation now : ℕ) → P (effect (finish agent c generation now b))
  unfolding finish
  finish-keeps agent c generation now = on_claim-keeps agent c generation now (complete c) (λ w e.
      elim (Bool-cases (is_responding w.state)) [
        | inl f ↦ rw f (ends c WorkState.finished none "eof")
        | inr f ↦ rw f keep
      ])

  pub fail-keeps :
      (agent c : String) (generation : ℕ) (code : String) (now : ℕ)
      → P (effect (fail agent c generation code now b))
  unfolding fail
  fail-keeps agent c generation code now = elim (Bool-cases (any (λ x. x == code) fail_codes)) [
    | inl f ↦
        rw (f, fail)
          (on_claim-keeps agent c generation now (break_off c code)
            (λ w e. ends c failed (some code) code))
    | inr f ↦ rw (f, fail) keep
  ]
