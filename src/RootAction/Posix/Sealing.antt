-- ===== src/RootAction/Posix/Sealing.antt =====
-- The methods of posix_store.py that store a new job: `put_if_absent`, `create_pending`,
-- `seal_pending`, `seal_rejected` and `seal_with_lineage_admission`.
use agent_runtime_ops.Prelude.{
  String, Bool, true, false, not, ◌||◌, Option, none, some, ◌==◌, ◌==ℕ◌, Result, guard, raise_if,
  storage_conflict,
}
use agent_runtime_ops.Prelude.Actions.{◌>>=◌, ◌>>◌, pure, lift, reads}
use agent_runtime_ops.Time.{Datetime}
use agent_runtime_ops.RootAction.Job.{SealedJob}
use agent_runtime_ops.RootAction.Json.{Library}
use agent_runtime_ops.RootAction.Receipts.{ReceiptArtifact, receipt_copy}
use agent_runtime_ops.RootAction.State.{
  JobRecord, TransitionEvent, is_pending, apply_transition, initial_record, validate_record,
}
use agent_runtime_ops.RootAction.Admission.{
  LineageFailurePolicy, LineageSummary, SubmissionAdmission, SubmissionMetadata, SubmissionLimits,
}
use agent_runtime_ops.RootAction.Store.{verify_job, verify_receipt, validate_submission}
use agent_runtime_ops.RootAction.Store.Sealing.{submission_or_default}
use agent_runtime_ops.RootAction.Store.Rejection.{rejection_event_ok, rejection_notice_ok}
use agent_runtime_ops.RootAction.Store.LineageSealing.{
  circuit_event_ok, circuit_notice_ok, is_blocked,
}
use agent_runtime_ops.RootAction.Posix.{Database, Tx, transaction, job_exists}
use agent_runtime_ops.RootAction.Posix.Reading.{read_sealed}
use agent_runtime_ops.RootAction.Posix.Limits.{enforce_submission_limits, lineage_summary}
use agent_runtime_ops.RootAction.Posix.Inserts.{insert_job, insert_record_and_initial_ledger}
use agent_runtime_ops.RootAction.Posix.Transitions.{compare_and_append}
use agent_runtime_ops.RootAction.Posix.Checks.{validate_receipt_publication}
use agent_runtime_ops.RootAction.Posix.Publication.{insert_receipt}

module _ ⦃datetime : Datetime⦄ ⦃library : Library⦄ where
  unfoldable pub put_if_absent : SealedJob → Tx (Unit {0})
  put_if_absent job = do
    lift (verify_job job)
    transaction (insert_job job (submission_or_default job.submitted_at none))

  -- `SELECT 1 FROM root_action_jobs WHERE job_id=?`
  abbrev pub not_sealed : SealedJob → Database → Result (Unit {0})
  not_sealed job db = raise_if (job_exists job.job_id db) storage_conflict

  unfoldable pub create_pending : JobRecord → Tx (Unit {0})
  create_pending r = do
    lift (validate_record r)
    lift (raise_if (not (is_pending r.state) || not (r.revision ==ℕ 0)) storage_conflict)
    transaction do
      job ← reads (read_sealed r.job_id)
      lift (guard (job.job_digest == r.job_digest) storage_conflict)
      insert_record_and_initial_ledger r

  -- The statements that every sealing begins with.
  unfoldable pub seal_new :
      SealedJob → SubmissionMetadata → SubmissionLimits → JobRecord → Tx (Unit {0})
  seal_new job submission limits r = do
    reads (not_sealed job)
    reads (enforce_submission_limits job submission limits)
    insert_job job submission
    insert_record_and_initial_ledger r

  unfoldable pub seal_pending :
      SealedJob → String → String → Option SubmissionMetadata → SubmissionLimits → Tx JobRecord
  seal_pending job event_id occurred_at given limits = do
    let submission = submission_or_default occurred_at given
    lift (verify_job job)
    r ← lift (initial_record job event_id occurred_at)
    lift (validate_submission submission limits)
    transaction do seal_new job submission limits r; pure r

  -- A transition and the notice of its outcome.
  unfoldable pub close_with : TransitionEvent → ReceiptArtifact → Tx JobRecord
  close_with event notice = do
    closed ← compare_and_append event
    reads (validate_receipt_publication notice)
    insert_receipt notice
    pure closed

  unfoldable pub seal_rejected :
      SealedJob
      → String
      → String
      → TransitionEvent
      → ReceiptArtifact
      → SubmissionMetadata
      → SubmissionLimits
      → Tx JobRecord
  seal_rejected job event_id occurred_at close_event notice submission limits = do
    lift (verify_job job)
    lift (verify_receipt notice)
    r ← lift (initial_record job event_id occurred_at)
    lift (validate_submission submission limits)
    lift (guard (rejection_event_ok job close_event) storage_conflict)
    rejected ← lift (apply_transition r close_event)
    lift (rejection_notice_ok job notice rejected)
    transaction do seal_new job submission limits r; close_with close_event notice; pure rejected

  -- The event and the notice that a blocked submission must come with.
  unfoldable pub circuit_ok :
      Bool → SealedJob → LineageFailurePolicy → TransitionEvent → ReceiptArtifact → Tx (Unit {0})
  circuit_ok false job policy event notice = pure tt
  circuit_ok true job policy event notice = do
    lift (receipt_copy notice)
    lift (guard (circuit_event_ok job policy event) storage_conflict)
    lift (circuit_notice_ok job policy notice)

  -- What becomes of the pending record: a blocked job is closed, with its notice.
  unfoldable pub decide :
      Bool
      → JobRecord
      → TransitionEvent
      → ReceiptArtifact
      → LineageFailurePolicy
      → LineageSummary
      → Tx (JobRecord × SubmissionAdmission)
  decide false r event notice policy summary =
      pure (r, record { allowed = true; reason_code = none; summary = summary })
  decide true r event notice policy summary = do
    closed ← close_with event notice
    pure (
      closed,
      record { allowed = false; reason_code = some policy.circuit_reason_code; summary = summary },
    )

  unfoldable pub seal_with_lineage_admission :
      SealedJob
      → String
      → String
      → TransitionEvent
      → ReceiptArtifact
      → SubmissionMetadata
      → SubmissionLimits
      → LineageFailurePolicy
      → Tx (JobRecord × SubmissionAdmission)
  seal_with_lineage_admission job event_id occurred_at event notice submission limits policy = do
    lift (verify_job job)
    lift (verify_receipt notice)
    r ← lift (initial_record job event_id occurred_at)
    lift (validate_submission submission limits)
    transaction do
      reads (not_sealed job)
      reads (enforce_submission_limits job submission limits)
      summary ← reads (lineage_summary job.lineage_id submission.broker_received_at policy)
      circuit_ok (is_blocked policy summary) job policy event notice
      insert_job job submission
      insert_record_and_initial_ledger r
      decide (is_blocked policy summary) r event notice policy summary
