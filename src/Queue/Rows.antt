-- ===== src/Queue/Rows.antt =====
-- The rows of queue/schema.sql and the messages of fallow_protocol/messages.py. Times and
-- durations are whole microseconds (`to_iso` writes six fractional digits, so the text order of the
-- stored stamps is the order of these numbers); metrics, params and error texts are opaque texts.
use fallow.Prelude.{ℕ, Bool, true, false, Option, none, some, String, List, ltb}
use fallow.Prelude.Eq.{◌==◌, String_eq, Option_eq, ℕ_eq}

pub data JobState : Type 0 where
  pending running done cancelled : JobState

pub data WorkUnitState : Type 0 where
  pending leased done dead : WorkUnitState

pub data WorkResultStatus : Type 0 where
  succeeded failed : WorkResultStatus

pub data WorkerKind : Type 0 where
  chat embed transcribe : WorkerKind

-- A signed SQL INTEGER; `negsuc n` is -(n + 1).
pub data ℤ : Type 0 where
  pos : ℕ → ℤ
  negsuc : ℕ → ℤ

pub record Job : Type 0 where
  pub job_id : String
  pub kind : WorkerKind
  pub model_id : String
  pub payload_ref : String
  pub params_json : String
  pub priority : ℤ
  pub state : JobState
  pub created_at : ℕ

pub record WorkUnit : Type 0 where
  pub work_unit_id : String
  pub job_id : String
  pub idx : ℕ
  pub input_ref : String
  pub est_duration : Option ℕ
  pub state : WorkUnitState
  pub attempts : ℕ
  pub lease_agent : Option String
  pub lease_expires : Option ℕ
  pub created_at : ℕ

pub record UnitResult : Type 0 where
  pub work_unit_id : String
  pub status : WorkResultStatus
  pub result_ref : Option String
  pub error : Option String
  pub metrics_json : Option String
  pub agent_id : String
  pub completed_at : ℕ

pub record Binding : Type 0 where
  pub work_unit_id : String
  pub agent_id : String
  pub attempt : ℕ
  pub digest : String
  pub result_ref : String
  pub accepted_at : ℕ

pub record Membership : Type 0 where
  pub job_id : String
  pub work_unit_id : String
  pub idx : ℕ
  pub input_ref : String
  pub terminal_state : Option WorkUnitState
  pub result_status : Option WorkResultStatus
  pub result_ref : Option String

pub record Finalization : Type 0 where
  pub job_id : String
  pub indexed_items : ℕ

pub record BackupLease : Type 0 where
  pub work_unit_id : String
  pub job_id : String
  pub agent_id : String
  pub attempt : ℕ
  pub lease_expires : ℕ
  pub created_at : ℕ

pub record Db : Type 0 where
  pub jobs : List Job
  pub work_units : List WorkUnit
  pub unit_results : List UnitResult
  pub bindings : List Binding
  pub memberships : List Membership
  pub finalizations : List Finalization
  pub backup_leases : List BackupLease

-- The messages.
pub record JobSubmit : Type 0 where
  pub kind : WorkerKind
  pub model_id : String
  pub payload_ref : String
  pub params_json : String
  pub priority : ℤ

pub record WorkUnitSpec : Type 0 where
  pub work_unit_id : String
  pub idx : ℕ
  pub input_ref : String
  pub est_duration : Option ℕ

pub record UnitTransition : Type 0 where
  pub work_unit_id : String
  pub job_id : String
  pub agent_id : String
  pub attempt : ℕ
  pub state : WorkUnitState
  pub at : ℕ

pub record WorkUnitLease : Type 0 where
  pub work_unit_id : String
  pub job_id : String
  pub kind : WorkerKind
  pub model_id : String
  pub input_url : String
  pub lease_expires : ℕ
  pub attempt : ℕ
  pub est_duration : Option ℕ

pub record WorkResult : Type 0 where
  pub work_unit_id : String
  pub status : WorkResultStatus
  pub result_ref : Option String
  pub error : Option String
  pub metrics_json : Option String

-- The settings of `SqliteQueueStore.__init__`.
pub record Config : Type 0 where
  pub max_attempts : ℕ
  pub default_lease : ℕ

-- A call of the store: the committed state, the value returned, the transitions emitted after it.
pub record Reply (A : Type 0) : Type 0 where
  pub db : Db
  pub value : A
  pub emitted : List UnitTransition

abbrev pub is_pending : WorkUnitState → Bool
is_pending WorkUnitState.pending = true
is_pending _ = false

abbrev pub is_leased : WorkUnitState → Bool
is_leased WorkUnitState.leased = true
is_leased _ = false

abbrev pub is_done : WorkUnitState → Bool
is_done WorkUnitState.done = true
is_done _ = false

abbrev pub is_dead : WorkUnitState → Bool
is_dead WorkUnitState.dead = true
is_dead _ = false

abbrev pub status_eq : WorkResultStatus → WorkResultStatus → Bool
status_eq succeeded succeeded = true
status_eq failed failed = true
status_eq _ _ = false

abbrev pub kind_eq : WorkerKind → WorkerKind → Bool
kind_eq chat chat = true
kind_eq embed embed = true
kind_eq transcribe transcribe = true
kind_eq _ _ = false

abbrev pub int_eq : ℤ → ℤ → Bool
int_eq (pos a) (pos b) = a == b
int_eq (negsuc a) (negsuc b) = a == b
int_eq _ _ = false

abbrev pub int_before : ℤ → ℤ → Bool
int_before (pos a) (pos b) = ltb a b
int_before (pos a) (negsuc b) = false
int_before (negsuc a) (pos b) = true
int_before (negsuc a) (negsuc b) = ltb b a

-- `str(row["lease_agent"])`: Python writes a missing value as None.
abbrev pub str_of : Option String → String
str_of none = "None"
str_of (some s) = s

-- The primary keys.
abbrev pub job_key : Job → String
job_key j = j.job_id

abbrev pub unit_key : WorkUnit → String
unit_key w = w.work_unit_id

abbrev pub result_key : UnitResult → String
result_key r = r.work_unit_id

abbrev pub binding_key : Binding → String × ℕ
binding_key b = (b.work_unit_id, b.attempt)

abbrev pub membership_key : Membership → String × String
membership_key m = (m.job_id, m.work_unit_id)

abbrev pub finalization_key : Finalization → String
finalization_key f = f.job_id

abbrev pub backup_key : BackupLease → String
backup_key b = b.work_unit_id
