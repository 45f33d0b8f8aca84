-- ===== src/Queue/Backup.antt =====
-- Speculative backup leases of queue/store.py, and the binding of uploaded payloads.
use fallow.Prelude.{
  ℕ, ◌+◌, Bool, true, false, not, ◌&&◌, ◌||◌, Option, none, some, String, List, [], ◌∷◌, ◌++◌, leb,
  if◌then◌else◌, any, count, filter_map, is_some,
}
use fallow.Prelude.Eq.{◌==◌, String_eq, Option_eq, ℕ_eq, Pair_eq}
use fallow.Prelude.Rank.{by_text, by, insertion_sort}
use fallow.Prelude.Table.{lookup}
use fallow.Queue.Rows.{
  WorkUnit, Binding, BackupLease, Db, Config, WorkUnitLease, is_pending, is_leased, binding_key,
  backup_key,
}
use fallow.Queue.Tables.{
  unit_of, job_of, result_exists, members, member_state, holds, insert_binding,
}
use fallow.Queue.Lease.{Candidate, lease_expiry}

abbrev pub backup_of : String → Db → Option BackupLease
backup_of u db = lookup backup_key u db.backup_leases

-- One past the retry budget.
unfoldable pub backup_attempt : Config → ℕ
backup_attempt cfg = cfg.max_attempts + 1

-- `lease_agent != :agent_id`; a comparison with NULL selects nothing.
unfoldable pub held_by_other : String → WorkUnit → Bool
held_by_other agent w = elim w.lease_agent [
  | none ↦ false
  | some a ↦ is_leased w.state && not (a == agent)
]

pub record BackupCandidate : Type 0 where
  pub work_unit_id : String
  pub job_id : String
  pub model_id : String
  pub holder_agent_id : String
  pub est_duration : Option ℕ

-- The unfinished memberships of a job, as SELECT_BACKUP_CANDIDATES counts them.
unfoldable pub remaining : String → Db → ℕ
remaining job db =
    count (λ m. holds (λ s. is_pending s || is_leased s) (member_state db m)) (members job db)

-- The row of one unit in SELECT_BACKUP_CANDIDATES.
unfoldable pub backup_candidate : String → List String → ℕ → Db → WorkUnit → Option BackupCandidate
unfolding held_by_other remaining
backup_candidate agent models tail db w = elim (job_of w.job_id db) [
  | none ↦ none
  | some j ↦ elim w.lease_agent [
    | none ↦ none
    | some holder ↦
        if any (λ m. m == j.model_id) models
          && held_by_other agent w
          && not (is_some (backup_of w.work_unit_id db))
          && not (result_exists w.work_unit_id db)
          && leb (remaining w.job_id db) tail
        then some (record {
          work_unit_id = w.work_unit_id;
          job_id = w.job_id;
          model_id = j.model_id;
          holder_agent_id = holder;
          est_duration = w.est_duration;
        })
        else none
  ]
]

unfoldable pub backup_candidates : String → List String → ℕ → Db → List BackupCandidate
unfolding backup_candidate
backup_candidates agent [] tail db = []
backup_candidates agent (m ∷ ms) tail db =
    insertion_sort (by by_text (λ c. c.work_unit_id))
      (filter_map (backup_candidate agent (m ∷ ms) tail db) db.work_units)

-- SELECT_BACKUP_LEASE_TARGET.
unfoldable pub backup_target : String → String → Db → Option Candidate
unfolding held_by_other
backup_target agent u db = elim (unit_of u db) [
  | none ↦ none
  | some w ↦ elim (job_of w.job_id db) [
    | none ↦ none
    | some j ↦ if held_by_other agent w then some (record { unit = w; job = j }) else none
  ]
]

-- INSERT_BACKUP_LEASE ... ON CONFLICT DO NOTHING RETURNING 1.
unfoldable pub insert_backup : BackupLease → Db → Db × Bool
insert_backup b db =
    if is_some (backup_of b.work_unit_id db)
    then (db, false)
    else (record db { backup_leases = db.backup_leases ++ b ∷ [] }, true)

abbrev pub backup_row : Config → String → String → ℕ → Candidate → BackupLease
backup_row cfg agent u now c = record {
  work_unit_id = u;
  job_id = c.unit.job_id;
  agent_id = agent;
  attempt = cfg.max_attempts + 1;
  lease_expires = lease_expiry now c.unit.est_duration cfg.default_lease;
  created_at = now;
}

unfoldable pub lease_backup : Config → String → String → ℕ → Db → Db × Option WorkUnitLease
unfolding backup_target insert_backup backup_attempt
lease_backup cfg agent u now db = elim (backup_target agent u db) [
  | none ↦ (db, none)
  | some c ↦
      let (db', inserted) = insert_backup (backup_row cfg agent u now c) db in
      if inserted
      then (
        db',
        some (record {
          work_unit_id = u;
          job_id = c.unit.job_id;
          kind = c.job.kind;
          model_id = c.job.model_id;
          input_url = c.unit.input_ref;
          lease_expires = lease_expiry now c.unit.est_duration cfg.default_lease;
          attempt = backup_attempt cfg;
          est_duration = c.unit.est_duration;
        }),
      )
      else (db, none)
]

-- The test of SELECT_RESULT_UPLOAD_ATTEMPT.
abbrev pub holds_lease : String → WorkUnit → Bool
holds_lease agent w = is_leased w.state && w.lease_agent == some agent

-- The rows of BIND_RESULT_PAYLOAD_BACKUP and SELECT_BACKUP_UPLOAD_ATTEMPT: a backup lease of the
-- agent on a unit with no result.
abbrev pub live_backup : String → String → Db → Option BackupLease
live_backup agent u db = elim (backup_of u db) [
  | none ↦ none
  | some b ↦ if b.agent_id == agent && not (result_exists u db) then some b else none
]

abbrev backup_upload_attempt : String → String → Db → Option ℕ
backup_upload_attempt agent u db = elim (live_backup agent u db) [
  | none ↦ none
  | some b ↦ some b.attempt
]

unfoldable pub result_upload_attempt : String → String → Db → Option ℕ
result_upload_attempt agent u db = elim (unit_of u db) [
  | none ↦ backup_upload_attempt agent u db
  | some w ↦ if holds_lease agent w then some w.attempts else backup_upload_attempt agent u db
]

-- The WHERE clause of BIND_RESULT_PAYLOAD, and of SELECT_MATCHING_RESULT_BINDING on the unit's side.
unfoldable pub primary_current : String → ℕ → String → Db → Bool
primary_current agent attempt u db = elim (unit_of u db) [
  | none ↦ false
  | some w ↦ holds_lease agent w && w.attempts == attempt
]

unfoldable pub backup_current : String → ℕ → String → Db → Bool
backup_current agent attempt u db = elim (live_backup agent u db) [
  | none ↦ false
  | some b ↦ b.attempt == attempt
]

-- SELECT_BACKUP_LEASE_HOLDER.
unfoldable pub backup_holder_exists : String → String → ℕ → Db → Bool
backup_holder_exists u agent attempt db = elim (backup_of u db) [
  | none ↦ false
  | some b ↦ b.agent_id == agent && b.attempt == attempt
]

-- The stored binding at the new one's key has its agent, digest and reference.
unfoldable pub same_binding : Binding → Db → Bool
same_binding b db = elim (lookup binding_key (binding_key b) db.bindings) [
  | none ↦ false
  | some old ↦
      old.agent_id == b.agent_id && old.digest == b.digest && old.result_ref == b.result_ref
]

-- `bind_result_payload`: bind as the holder, or match what is bound; else the same as the backup.
unfoldable pub bind_result_payload : Binding → Db → Db × Bool
unfolding insert_binding primary_current same_binding backup_current backup_holder_exists
bind_result_payload b db =
    let primary = primary_current b.agent_id b.attempt b.work_unit_id db in
    let backup = backup_current b.agent_id b.attempt b.work_unit_id db in
    let (db', fresh) = insert_binding b db in
    if primary && fresh
    then (db', true)
    else if primary && same_binding b db
    then (db, true)
    else if backup && fresh
    then (db', true)
    else (db, backup_holder_exists b.work_unit_id b.agent_id b.attempt db && same_binding b db)
