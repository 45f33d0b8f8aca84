-- ===== src/Relay/Registry.antt =====
-- RelayBroker: the registry of live claims, how a claim leaves it, and what is kept of it then. A claim
-- is in the registry exactly while its state is not terminal, so `_terminate` of a claim that is not
-- there does nothing.
use fallow.Prelude.{
  ℕ, true, not, Option, none, some, String, List, [], ◌∷◌, ◌++◌, leb, if◌then◌else◌,
}
use fallow.Prelude.Eq.{◌==◌, String_eq, ℕ_eq}
use fallow.Prelude.Table.{lookup, delete}
use fallow.Prelude.Lru.{remember_last}
use fallow.Relay.Rows.{
  Work, WorkState, failed, TerminalClass, Fence, Broker, RelayError, state_error, Outcome, ok,
  raised, Reply, work_key, fence_key, class_key, outcome_key, class_of, terminal_history,
  last_claim_history,
}

abbrev pub work_of : String → Broker → Option Work
work_of claim b = lookup work_key claim b.works

abbrev pub fence_of : String → Broker → Option Fence
fence_of agent b = lookup fence_key agent b.fences

-- `self._generation.get(agent_id, default)`.
unfoldable pub generation_of : String → ℕ → Broker → ℕ
generation_of agent default b = elim (fence_of agent b) [ none ↦ default | some f ↦ f.generation ]

unfoldable pub set_generation : String → ℕ → Broker → Broker
set_generation agent g b = record b {
  fences = (record { agent_id = agent; generation = g }) ∷ delete fence_key agent b.fences;
}

unfoldable pub record_terminal : String → WorkState → Broker → Broker
record_terminal claim state b = record b {
  terminal_class =
      remember_last class_key terminal_history
        (record { claim_id = claim; outcome = class_of state }) b.terminal_class;
}

unfoldable pub record_last_claim : String → WorkState → Option String → Broker → Broker
record_last_claim agent state reason b = record b {
  last_claim =
      remember_last outcome_key last_claim_history
        (record { agent_id = agent; outcome = state; code = reason }) b.last_claim;
}

-- The claim leaves the registry; the stream to close is the claim's.
unfoldable pub retire : Work → WorkState → Option String → Broker → Broker
unfolding record_terminal record_last_claim
retire w state reason b =
    let out = record b {
      works = delete work_key w.claim_id b.works;
      ended = b.ended ++ (record w { state = state; reason = reason; started = true }) ∷ [];
    } in
    record_last_claim w.agent_id state reason (record_terminal w.claim_id state out)

-- `_terminate`, and the close of the stream with `terminal` that follows it.
unfoldable pub terminate :
    String → WorkState → Option String → String → Broker → Broker × List (String × String)
unfolding retire
terminate claim state reason terminal b = elim (work_of claim b) [
  | none ↦ (b, [])
  | some w ↦ (retire w state reason b, (claim, terminal) ∷ [])
]

unfoldable pub check : String → String → ℕ → Broker → Outcome Work
check agent claim generation b = elim (work_of claim b) [
  | none ↦ raised (elim (lookup class_key claim b.terminal_class) [
    | none ↦ state_error "unknown claim" (some "unknown")
    | some c ↦ elim (c.outcome) [
      | TerminalClass.duplicate ↦ state_error "claim already completed" (some "duplicate")
      | TerminalClass.gone ↦ state_error "claim gone" (some "gone")
    ]
  ])
  | some w ↦
      if not (w.agent_id == agent)
      then raised (state_error "wrong owner" (some "conflict"))
      else if not (w.generation == generation)
      then raised (state_error "stale generation" (some "unknown"))
      else ok w
]

abbrev pub deadline_expired : String
deadline_expired = "deadline_expired"

abbrev pub refuse : {A : Type 0} → Broker → RelayError → Reply A
refuse b e = record { broker = b; outcome = raised e; closes = [] }

-- A late claim is terminated and its caller told so.
unfoldable pub expire_late : {A : Type 0} → Work → Broker → Reply A
unfolding terminate
expire_late w b =
    let t = terminate w.claim_id failed (some deadline_expired) deadline_expired b in
    record {
      broker = t.0;
      outcome = raised (state_error "deadline expired" (some "gone"));
      closes = t.1;
    }

-- The frame of the agent's calls: the check, the deadline, and then the call's own part.
unfoldable pub on_claim :
    {A : Type 0} → String → String → ℕ → ℕ → (Work → Broker → Reply A) → Broker → Reply A
unfolding check expire_late
on_claim agent claim generation now body b = elim (check agent claim generation b) [
  | raised e ↦ refuse b e
  | ok w ↦ if leb w.deadline now then expire_late w b else body w b
]
