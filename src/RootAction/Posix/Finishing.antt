-- ===== src/RootAction/Posix/Finishing.antt =====
-- The end of a claimed execution in posix_store.py: raw receipt, transition and receipt together.
use agent_runtime_ops.Prelude.{Bool, true, false, ◌==◌, guard, storage_conflict}
use agent_runtime_ops.Prelude.Actions.{◌>>=◌, ◌>>◌, pure, lift, reads}
use agent_runtime_ops.Time.{Datetime}
use agent_runtime_ops.RootAction.Json.{Library}
use agent_runtime_ops.RootAction.Receipts.{ReceiptArtifact}
use agent_runtime_ops.RootAction.Receipts.Raw.{RawReceiptArtifact}
use agent_runtime_ops.RootAction.State.{
  TransitionKind, complete_execution, mark_unknown, JobRecord, TransitionEvent,
}
use agent_runtime_ops.RootAction.Store.{verify_receipt}
use agent_runtime_ops.RootAction.Posix.{Tx, transaction}
use agent_runtime_ops.RootAction.Posix.Reading.{read_sealed}
use agent_runtime_ops.RootAction.Posix.Checks.{identity_checks, validate_receipt_publication}
use agent_runtime_ops.RootAction.Posix.Inserts.{insert_raw}
use agent_runtime_ops.RootAction.Posix.Transitions.{compare_and_append}
use agent_runtime_ops.RootAction.Posix.Publication.{insert_receipt}

abbrev pub is_complete : TransitionKind → Bool
is_complete complete_execution = true
is_complete _ = false

abbrev pub is_mark_unknown : TransitionKind → Bool
is_mark_unknown mark_unknown = true
is_mark_unknown _ = false

module _ ⦃datetime : Datetime⦄ ⦃library : Library⦄ where
  -- The body of the transaction.
  unfoldable pub finalize : TransitionEvent → RawReceiptArtifact → ReceiptArtifact → Tx JobRecord
  finalize event raw receipt = do
    job ← reads (read_sealed event.job_id)
    lift (guard (job.job_digest == event.job_digest) storage_conflict)
    insert_raw raw
    updated ← compare_and_append event
    reads (validate_receipt_publication receipt)
    insert_receipt receipt
    pure updated

  unfoldable pub finalize_claimed_execution :
      TransitionEvent → RawReceiptArtifact → ReceiptArtifact → Tx JobRecord
  finalize_claimed_execution event raw receipt = do
    lift (verify_receipt receipt)
    lift (identity_checks event raw.reference receipt)
    transaction (finalize event raw receipt)

  unfoldable pub complete_claimed_execution :
      TransitionEvent → RawReceiptArtifact → ReceiptArtifact → Tx JobRecord
  complete_claimed_execution event raw receipt = do
    lift (guard (is_complete event.kind) storage_conflict)
    finalize_claimed_execution event raw receipt

  unfoldable pub mark_claimed_execution_unknown :
      TransitionEvent → RawReceiptArtifact → ReceiptArtifact → Tx JobRecord
  mark_claimed_execution_unknown event raw receipt = do
    lift (guard (is_mark_unknown event.kind) storage_conflict)
    finalize_claimed_execution event raw receipt
