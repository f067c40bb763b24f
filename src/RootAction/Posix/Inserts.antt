-- ===== src/RootAction/Posix/Inserts.antt =====
-- The rows that posix_store.py inserts for a job and its record, and for a raw receipt, with the
-- keys and references of their tables.
use agent_runtime_ops.Prelude.{◌+◌, String, Bool, not, ◌&&◌, ◌||◌, [], ◌∷◌, ◌++◌, none, some, ◌==◌}
use agent_runtime_ops.Prelude.Actions.{◌>>◌}
use agent_runtime_ops.Prelude.Lists.{any}
use agent_runtime_ops.RootAction.Job.{SealedJob}
use agent_runtime_ops.RootAction.Receipts.Raw.{RawReceiptArtifact}
use agent_runtime_ops.RootAction.State.{JobRecord, pending, TransitionEvent}
use agent_runtime_ops.RootAction.Admission.{
  SubmissionMetadata, LedgerEntry, sealed_pending, transition,
}
use agent_runtime_ops.RootAction.Posix.{JobRow, Database, Tx, execute_insert, job_exists}
use agent_runtime_ops.RootAction.Posix.Reading.{record_for, raw_for}

-- `job_id TEXT PRIMARY KEY, job_digest TEXT NOT NULL UNIQUE`
abbrev pub job_taken : SealedJob → Database → Bool
job_taken job db =
    any (λ (row : JobRow). row.job.job_id == job.job_id || row.job.job_digest == job.job_digest)
      db.jobs

abbrev pub with_job : SealedJob → SubmissionMetadata → Database → Database
with_job job submission db = record db {
  jobs = db.jobs ++ record { job = job; submission = submission } ∷ [];
}

unfoldable pub insert_job : SealedJob → SubmissionMetadata → Tx (Unit {0})
insert_job job submission = execute_insert (job_taken job) (with_job job submission)

-- `job_id TEXT PRIMARY KEY REFERENCES root_action_jobs(job_id)`
abbrev pub record_taken : JobRecord → Database → Bool
record_taken r db = any (record_for r.job_id) db.records || not (job_exists r.job_id db)

-- The row has no outcome and no reason.
abbrev pub with_record : JobRecord → Database → Database
with_record r db = record db {
  records = db.records ++ record r { terminal_outcome = none; reason_code = none } ∷ [];
}

-- `job_id TEXT NOT NULL REFERENCES root_action_jobs(job_id), UNIQUE(job_id, event_id)`
abbrev pub entry_taken : String → String → Database → Bool
entry_taken job_id event_id db =
    any (λ (row : LedgerEntry). row.job_id == job_id && row.event_id == event_id) db.ledger
    || not (job_exists job_id db)

-- A row of the ledger gets the next number of its sequence.
abbrev pub with_entry : LedgerEntry → Database → Database
with_entry entry db = record db { ledger = db.ledger ++ entry ∷ []; sequence = db.sequence + 1 }

abbrev pub with_initial_entry : JobRecord → Database → Database
with_initial_entry r db =
    with_entry
      (record {
        sequence = db.sequence + 1;
        action = sealed_pending;
        prior_state = none;
        next_state = pending;
        record_revision = 0;
        event_id = r.last_event_id;
        occurred_at = r.last_changed_at;
        job_id = r.job_id;
        job_digest = r.job_digest;
        terminal_outcome = none;
        reason_code = none;
      })
      db

unfoldable pub insert_record_and_initial_ledger : JobRecord → Tx (Unit {0})
insert_record_and_initial_ledger r = do
  execute_insert (record_taken r) (with_record r)
  execute_insert (entry_taken r.job_id r.last_event_id) (with_initial_entry r)

abbrev pub with_transition : JobRecord → JobRecord → TransitionEvent → Database → Database
with_transition prior updated event db =
    with_entry
      (record {
        sequence = db.sequence + 1;
        action = transition event.kind;
        prior_state = some prior.state;
        next_state = updated.state;
        record_revision = updated.revision;
        event_id = event.event_id;
        occurred_at = event.occurred_at;
        job_id = updated.job_id;
        job_digest = updated.job_digest;
        terminal_outcome = updated.terminal_outcome;
        reason_code = updated.reason_code;
      })
      db

unfoldable pub insert_ledger : JobRecord → JobRecord → TransitionEvent → Tx (Unit {0})
insert_ledger prior updated event =
    execute_insert (entry_taken updated.job_id event.event_id) (with_transition prior updated event)

-- `job_id TEXT PRIMARY KEY REFERENCES root_action_jobs(job_id), root_storage_id TEXT NOT NULL UNIQUE`
abbrev pub raw_taken : RawReceiptArtifact → Database → Bool
raw_taken raw db =
    any
      (λ (row : RawReceiptArtifact).
        raw_for raw.reference.job_id row
        || row.reference.root_storage_id == raw.reference.root_storage_id)
      db.raw_receipts
    || not (job_exists raw.reference.job_id db)

abbrev pub with_raw : RawReceiptArtifact → Database → Database
with_raw raw db = record db { raw_receipts = db.raw_receipts ++ raw ∷ [] }

unfoldable pub insert_raw : RawReceiptArtifact → Tx (Unit {0})
insert_raw raw = execute_insert (raw_taken raw) (with_raw raw)
