-- ===== src/Relay/Responses.antt =====
-- RelayBroker: the calls by which an agent answers a claim. `write` is its part under the broker's lock:
-- what it admits goes to the stream's `write`.
use fallow.Prelude.{
  ℕ, Bool, true, not, Option, none, some, String, List, [], ◌∷◌, any, map, ltb, length, is_empty,
  if◌then◌else◌,
}
use fallow.Prelude.Eq.{◌==◌, String_eq}
use fallow.Mesh.Store.{Bytes}
use fallow.Relay.Rows.{
  Work, WorkState, responding, finished, failed, invalid, is_claimed, is_responding, Broker,
  state_error, Outcome, ok, raised, Reply,
}
use fallow.Relay.Stream.{max_response_chunk_bytes}
use fallow.Relay.Registry.{terminate, refuse, on_claim, deadline_expired}

-- The row of a live claim is replaced.
unfoldable pub set_work : String → (Work → Work) → Broker → Broker
set_work claim f b = record b { works = map (λ w. if w.claim_id == claim then f w else w) b.works }

abbrev pub begun : ℕ → String → Work → Work
begun status content_type w = record w {
  status = status;
  content_type = content_type;
  state = responding;
  started = true;
}

abbrev pub respond : String → ℕ → String → Work → Broker → Reply (Unit {0})
respond claim status content_type w b =
    if not (is_claimed w.state)
    then refuse b (state_error "response already started" none)
    else (record {
      broker = set_work claim (begun status content_type) b;
      outcome = ok tt;
      closes = [];
    })

unfoldable pub start_response : String → String → ℕ → ℕ → String → ℕ → Broker → Reply (Unit {0})
unfolding on_claim set_work
start_response agent claim generation status content_type now =
    on_claim agent claim generation now (respond claim status content_type)

-- The deadline that the stream's `write` is given, if there is a byte to write.
abbrev pub admit : Bytes → Work → Broker → Reply (Option ℕ)
admit chunk w b =
    if not (is_responding w.state)
    then refuse b (state_error "response not started" none)
    else (record {
      broker = b;
      outcome = ok (if is_empty chunk then none else some w.deadline);
      closes = [];
    })

unfoldable pub write : String → String → ℕ → Bytes → ℕ → Broker → Reply (Option ℕ)
unfolding on_claim
write agent claim generation chunk now b =
    if ltb max_response_chunk_bytes (length chunk)
    then refuse b (state_error "chunk too large" none)
    else on_claim agent claim generation now (admit chunk) b

-- The stream's `write` ran out of time.
unfoldable pub deadline_terminate : String → Broker → Broker × List (String × String)
unfolding terminate
deadline_terminate claim = terminate claim failed (some deadline_expired) deadline_expired

abbrev pub ended_with : {A : Type 0} → A → Broker × List (String × String) → Reply A
ended_with a t = record { broker = t.0; outcome = ok a; closes = t.1 }

abbrev pub complete : String → Work → Broker → Reply (Unit {0})
complete claim w b =
    if not (is_responding w.state)
    then refuse b (state_error "response not started" none)
    else ended_with tt (terminate claim finished none "eof" b)

unfoldable pub finish : String → String → ℕ → ℕ → Broker → Reply (Unit {0})
unfolding on_claim terminate
finish agent claim generation now = on_claim agent claim generation now (complete claim)

abbrev pub fail_codes : List String
fail_codes =
    "became_active" ∷ "reclaimed" ∷ "connect_failed" ∷ "timeout" ∷ "cancelled" ∷ "upstream_error"
    ∷ []

abbrev pub break_off : String → String → Work → Broker → Reply (Unit {0})
break_off claim code w b = ended_with tt (terminate claim failed (some code) code b)

unfoldable pub fail : String → String → ℕ → String → ℕ → Broker → Reply (Unit {0})
unfolding on_claim terminate
fail agent claim generation code now b =
    if not (any (λ c. c == code) fail_codes)
    then refuse b (state_error "invalid failure" none)
    else on_claim agent claim generation now (break_off claim code) b

unfoldable pub disconnect : String → Broker → Broker × List (String × String)
unfolding terminate
disconnect claim = terminate claim invalid (some "client_disconnect") "client_disconnect"

-- `reason or "relay failure"`.
abbrev pub reason_text : Option String → String
reason_text none = "relay failure"
reason_text (some r) = if r == "" then "relay failure" else r

-- RelayExchange.wait_response, when the claim has started: `first_byte` is the stream's.
unfoldable pub wait_response : Work → Bool → Outcome (ℕ × String)
wait_response w first_byte = elim w.state [
  | WorkState.failed ↦
      if first_byte
      then ok (w.status, w.content_type)
      else raised (state_error (reason_text w.reason) none)
  | WorkState.invalid ↦
      if first_byte
      then ok (w.status, w.content_type)
      else raised (state_error (reason_text w.reason) none)
  | _ ↦ ok (w.status, w.content_type)
]
