-- ===== src/Relay/Rows.antt =====
-- The objects of site_relay/broker.py: requests, claims and what the broker keeps. A future is a row
-- that a claim's ticket names. `ended` holds the claims that left the registry, which their exchanges
-- still read; a stream is known by its claim.
use fallow.Prelude.{ℕ, ◌*◌, Bool, true, false, Option, String, List, []}
use fallow.Mesh.Store.{Bytes}

abbrev pub max_request_bytes : ℕ
max_request_bytes = 2 * 1024 * 1024

abbrev pub terminal_history : ℕ
terminal_history = 4096

abbrev pub last_claim_history : ℕ
last_claim_history = 1024

pub record RelayRequest : Type 0 where
  pub method : String
  pub path : String
  pub content_type : String
  pub body : Bytes

pub data WorkState : Type 0 where
  claimed responding finished failed invalid : WorkState

pub record Work : Type 0 where
  pub agent_id : String
  pub replica_port : ℕ
  pub request : RelayRequest
  pub deadline : ℕ
  pub generation : ℕ
  pub claim_id : String
  pub state : WorkState
  pub status : ℕ
  pub content_type : String
  pub reason : Option String
  pub started : Bool

pub data FutureState : Type 0 where
  pending cancelled : FutureState
  resolved : String → FutureState

pub record Future : Type 0 where
  pub ticket : String
  pub state : FutureState

pub record Waiter : Type 0 where
  pub agent_id : String
  pub ticket : String
  pub generation : ℕ

pub record Fence : Type 0 where
  pub agent_id : String
  pub generation : ℕ

pub data TerminalClass : Type 0 where
  duplicate gone : TerminalClass

pub record Classified : Type 0 where
  pub claim_id : String
  pub outcome : TerminalClass

pub record ClaimOutcome : Type 0 where
  pub agent_id : String
  pub outcome : WorkState
  pub code : Option String

-- The waiters of all agents in one list: those of one agent are in its order.
pub record Broker : Type 0 where
  pub waiters : List Waiter
  pub futures : List Future
  pub works : List Work
  pub ended : List Work
  pub fences : List Fence
  pub terminal_class : List Classified
  pub last_claim : List ClaimOutcome

-- RelayStateError carries a message and a code.
pub data RelayError : Type 0 where
  request_too_large : RelayError
  state_error : String → Option String → RelayError

pub data Outcome (A : Type 0) : Type 0 where
  ok : A → Outcome A
  raised : RelayError → Outcome A

-- What a call leaves, gives, and which streams it then closes, with their terminals.
pub record Reply (A : Type 0) : Type 0 where
  pub broker : Broker
  pub outcome : Outcome A
  pub closes : List (String × String)

abbrev pub empty_broker : Broker
empty_broker = record {
  waiters = [];
  futures = [];
  works = [];
  ended = [];
  fences = [];
  terminal_class = [];
  last_claim = [];
}

abbrev pub work_key : Work → String
work_key w = w.claim_id

abbrev pub future_key : Future → String
future_key f = f.ticket

abbrev pub fence_key : Fence → String
fence_key f = f.agent_id

abbrev pub class_key : Classified → String
class_key c = c.claim_id

abbrev pub outcome_key : ClaimOutcome → String
outcome_key c = c.agent_id

abbrev pub is_terminal : WorkState → Bool
is_terminal finished = true
is_terminal failed = true
is_terminal invalid = true
is_terminal _ = false

abbrev pub is_claimed : WorkState → Bool
is_claimed claimed = true
is_claimed _ = false

abbrev pub is_responding : WorkState → Bool
is_responding responding = true
is_responding _ = false

-- `Future.done`.
abbrev pub is_done : FutureState → Bool
is_done pending = false
is_done _ = true

abbrev pub class_of : WorkState → TerminalClass
class_of finished = duplicate
class_of _ = gone
