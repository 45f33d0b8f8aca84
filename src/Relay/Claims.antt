-- ===== src/Relay/Claims.antt =====
-- RelayBroker: the rendezvous. `claim` is split where it waits: its part before the wait makes a future,
-- named by a fresh ticket, and `abandon_waiter` is what follows a timeout or a cancellation. An offer is
-- given a fresh claim id (uuid4).
use fallow.Prelude.{
  ℕ, max, Bool, false, not, ◌&&◌, ◌||◌, Option, none, some, String, List, [], ◌∷◌, ◌++◌, any,
  filter, map, ltb, length, if◌then◌else◌,
}
use fallow.Prelude.Eq.{◌==◌, String_eq}
use fallow.Prelude.Table.{lookup}
use fallow.Relay.Rows.{
  max_request_bytes, RelayRequest, Work, claimed, failed, invalid, FutureState, pending, cancelled,
  resolved, Future, Waiter, ClaimOutcome, Broker, request_too_large, state_error, ok, Reply,
  future_key, outcome_key, is_done,
}
use fallow.Relay.Registry.{generation_of, set_generation, terminate, refuse}

abbrev pub future_of : String → Broker → Option Future
future_of ticket b = lookup future_key ticket b.futures

-- A future that is not known counts as done.
unfoldable pub is_waiting : Broker → String → Bool
is_waiting b ticket = elim (future_of ticket b) [ none ↦ false | some f ↦ not (is_done f.state) ]

unfoldable pub set_future : String → FutureState → Broker → Broker
set_future ticket state b = record b {
  futures = map (λ f. if f.ticket == ticket then record f { state = state } else f) b.futures;
}

-- `Future.cancel`, which does nothing to a future that is done.
unfoldable pub cancel : String → Broker → Broker
unfolding set_future is_waiting
cancel ticket b = if is_waiting b ticket then set_future ticket cancelled b else b

-- The agent's oldest waiter whose future is not done, and the waiters without it and without the done
-- ones before it.
unfoldable pub take_slot : (String → Bool) → String → List Waiter → Option Waiter × List Waiter
take_slot waits agent [] = (none, [])
take_slot waits agent (w ∷ ws) =
    let rest = take_slot waits agent ws in
    if w.agent_id == agent
    then (if waits w.ticket then (some w, ws) else rest)
    else (rest.0, w ∷ rest.1)

abbrev pub allowed_paths : List String
allowed_paths = "/v1/chat/completions" ∷ "/v1/embeddings" ∷ []

unfoldable pub is_valid_request : RelayRequest → Bool
is_valid_request r =
    r.method == "POST"
    && any (λ p. p == r.path) allowed_paths
    && r.content_type == "application/json"

abbrev pub new_work : String → ℕ → RelayRequest → ℕ → ℕ → String → Work
new_work agent port request deadline generation claim = record {
  agent_id = agent;
  replica_port = port;
  request = request;
  deadline = deadline;
  generation = generation;
  claim_id = claim;
  state = claimed;
  status = 200;
  content_type = "application/json";
  reason = none;
  started = false;
}

-- The work is registered and handed to the waiter.
unfoldable pub assign_work : Waiter → Work → Broker → Broker
unfolding set_future
assign_work w work b =
    set_future w.ticket (resolved work.claim_id) (record b { works = b.works ++ work ∷ [] })

unfoldable pub offer : String → ℕ → RelayRequest → ℕ → String → Broker → Reply Work
unfolding is_valid_request take_slot generation_of cancel assign_work
offer agent port request deadline claim b =
    if ltb max_request_bytes (length request.body)
    then refuse b request_too_large
    else if not (is_valid_request request)
    then refuse b (state_error "invalid request" none)
    else (let slot = take_slot (is_waiting b) agent b.waiters in
        let popped = record b { waiters = slot.1 } in
        elim (slot.0) [
          | none ↦ refuse popped (state_error "no claimant" none)
          | some w ↦
              let work = new_work agent port request deadline w.generation claim in
              if ltb w.generation (generation_of agent w.generation b)
              then refuse (cancel w.ticket popped) (state_error "stale claimant" none)
              else record { broker = assign_work w work popped; outcome = ok work; closes = [] }
        ])

-- `claim` up to its wait.
unfoldable pub claim : String → ℕ → String → Broker → Reply (Unit {0})
unfolding generation_of set_generation
claim agent generation ticket b =
    let fence = generation_of agent 0 b in
    let fenced = set_generation agent (max fence generation) b in
    if ltb generation fence then refuse b (state_error "stale generation" none) else record {
      broker = record fenced {
        futures = fenced.futures ++ (record { ticket = ticket; state = pending }) ∷ [];
        waiters =
            fenced.waiters
            ++ (record { agent_id = agent; ticket = ticket; generation = generation }) ∷ [];
      };
      outcome = ok tt;
      closes = [];
    }

-- What becomes of a future whose claim gave up: work that it was already given is orphaned.
unfoldable pub abandon_waiter : String → String → Broker → Broker × List (String × String)
unfolding terminate cancel
abandon_waiter agent ticket b =
    let left = record b {
      waiters = filter (λ w. not (w.agent_id == agent && w.ticket == ticket)) b.waiters;
    } in
    elim (future_of ticket b) [
      | none ↦ (left, [])
      | some f ↦ elim (f.state) [
        | pending ↦ (cancel ticket left, [])
        | cancelled ↦ (left, [])
        | resolved c ↦ terminate c failed (some "cancelled") "cancelled" left
      ]
    ]

unfoldable pub has_pending : String → Broker → Bool
unfolding is_waiting
has_pending agent b =
    any (λ w. w.agent_id == agent) b.works
    || any (λ w. w.agent_id == agent && is_waiting b w.ticket) b.waiters

abbrev pub last_claim : String → Broker → Option ClaimOutcome
last_claim agent b = lookup outcome_key agent b.last_claim

-- The claims are terminated one by one, in the order of the registry.
unfoldable pub terminate_all : List String → String → Broker → Broker × List (String × String)
unfolding terminate
terminate_all [] reason b = (b, [])
terminate_all (c ∷ cs) reason b =
    let t = terminate c invalid (some reason) reason b in
    let rest = terminate_all cs reason (t.0) in (rest.0, t.1 ++ rest.1)

unfoldable pub cancel_all : List Waiter → Broker → Broker
unfolding cancel
cancel_all [] b = b
cancel_all (w ∷ ws) b = cancel_all ws (cancel w.ticket b)

abbrev pub is_outdated_work : String → ℕ → Work → Bool
is_outdated_work agent newer w = w.agent_id == agent && ltb w.generation newer

abbrev pub is_outdated_waiter : String → ℕ → Waiter → Bool
is_outdated_waiter agent newer w = w.agent_id == agent && ltb w.generation newer

-- The waiters that are kept stand in their order, and those of other agents are not touched.
unfoldable pub invalidate_agent : String → ℕ → String → Broker → Broker × List (String × String)
unfolding generation_of set_generation terminate_all cancel_all
invalidate_agent agent newer reason b =
    let fenced = set_generation agent (max (generation_of agent 0 b) newer) b in
    let t =
      terminate_all (map (λ w. w.claim_id) (filter (is_outdated_work agent newer) fenced.works))
        reason fenced in
    let dropped = cancel_all (filter (is_outdated_waiter agent newer) (t.0).waiters) (t.0) in
    (
      record dropped {
        waiters = filter (λ w. not (is_outdated_waiter agent newer w)) dropped.waiters;
      },
      t.1,
    )
