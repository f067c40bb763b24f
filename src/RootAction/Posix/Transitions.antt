-- ===== src/RootAction/Posix/Transitions.antt =====
-- `_compare_and_append` of posix_store.py: an update that names the revision it read.
use agent_runtime_ops.Prelude.{ℕ, Bool, not, ◌&&◌, ◌==◌, ◌==ℕ◌, Result, raise_if, storage_conflict}
use agent_runtime_ops.Prelude.Actions.{◌>>=◌, ◌>>◌, pure, lift, reads, writes}
use agent_runtime_ops.Prelude.Lists.{any}
use agent_runtime_ops.Time.{Datetime}
use agent_runtime_ops.RootAction.State.{JobRecord, TransitionEvent, apply_transition}
use agent_runtime_ops.RootAction.Admission.{LedgerEntry}
use agent_runtime_ops.RootAction.Posix.{Database, Tx, count_rows, update_rows, transaction}
use agent_runtime_ops.RootAction.Posix.Reading.{read_record}
use agent_runtime_ops.RootAction.Posix.Inserts.{insert_ledger}

-- `SELECT 1 FROM root_action_ledger WHERE job_id=? AND event_id=?`
abbrev pub replayed : TransitionEvent → Database → Result (Unit {0})
replayed event db =
    raise_if
      (any (λ (row : LedgerEntry). row.job_id == event.job_id && row.event_id == event.event_id)
        db.ledger)
      storage_conflict

-- `WHERE job_id=? AND job_digest=? AND revision=?`
abbrev pub same_revision : JobRecord → ℕ → JobRecord → Bool
same_revision updated revision row =
    row.job_id == updated.job_id
    && row.job_digest == updated.job_digest
    && row.revision ==ℕ revision

-- The columns that the update sets.
abbrev pub moved_row : JobRecord → JobRecord → JobRecord
moved_row updated row = record row {
  state = updated.state;
  revision = updated.revision;
  execution_count = updated.execution_count;
  terminal_outcome = updated.terminal_outcome;
  reason_code = updated.reason_code;
  last_event_id = updated.last_event_id;
  last_changed_at = updated.last_changed_at;
}

-- An `UPDATE`, and the exception for a `rowcount` other than 1.
abbrev pub update_one : ℕ → (Database → Database) → Tx (Unit {0})
update_one rowcount write = writes write >> lift (raise_if (not (rowcount ==ℕ 1)) storage_conflict)

unfoldable pub update_record : JobRecord → ℕ → Tx (Unit {0})
update_record updated revision db =
    update_one (count_rows (same_revision updated revision) db.records)
      (λ db. record db {
        records = update_rows (same_revision updated revision) (moved_row updated) db.records;
      })
      db

module _ ⦃datetime : Datetime⦄ where
  unfoldable pub compare_and_append : TransitionEvent → Tx JobRecord
  compare_and_append event = do
    current ← reads (read_record event.job_id)
    reads (replayed event)
    updated ← lift (apply_transition current event)
    update_record updated current.revision
    insert_ledger current updated event
    pure updated

  -- The method `compare_and_append`.
  unfoldable pub append_event : TransitionEvent → Tx JobRecord
  append_event event = transaction (compare_and_append event)
