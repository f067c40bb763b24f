-- ===== src/RootAction/Store/Rejection.antt =====
-- A job that is rejected as it is sealed (`seal_rejected` of local_fixture.py).
use agent_runtime_ops.Prelude.{
  ◌+◌, String, Bool, true, false, ◌&&◌, ◌||◌, [], ◌∷◌, Option, none, some, ◌==◌, ◌==ℕ◌, Result, ok,
  ◌>>=◌, ◌>>◌, guard, raise_if, storage_conflict,
}
use agent_runtime_ops.Prelude.Dict.{put, has}
use agent_runtime_ops.Time.{Datetime}
use agent_runtime_ops.RootAction.Job.{SealedJob}
use agent_runtime_ops.RootAction.Json.{Json, null, Library, get_item, get, is_text}
use agent_runtime_ops.RootAction.Receipts.{is_terminal_notice, ReceiptArtifact, receipt_copy}
use agent_runtime_ops.RootAction.State.{
  TerminalOutcome, rejected, JobRecord, TransitionEvent, apply_transition, initial_record,
}
use agent_runtime_ops.RootAction.Admission.{SubmissionMetadata, SubmissionLimits}
use agent_runtime_ops.RootAction.Store.{
  Store, attempt, verify_job, verify_receipt, validate_submission, pending_entry, transition_entry,
}
use agent_runtime_ops.RootAction.Store.Limits.{enforce_submission_limits}
use agent_runtime_ops.RootAction.Store.Sealing.{is_close}

abbrev pub is_rejected : Option TerminalOutcome → Bool
is_rejected (some rejected) = true
is_rejected _ = false

-- `value == reason` for a JSON value and an optional text.
abbrev pub is_reason : Option String → Json → Bool
is_reason none null = true
is_reason (some reason) v = is_text reason v
is_reason none _ = false

module _ ⦃datetime : Datetime⦄ ⦃library : Library⦄ where
  -- The transition that `seal_rejected` asks for, whatever its reason.
  unfoldable pub rejection_event_ok : SealedJob → TransitionEvent → Bool
  rejection_event_ok job e =
      e.job_id == job.job_id
      && e.job_digest == job.job_digest
      && e.expected_revision ==ℕ 0
      && is_close e.kind
      && is_rejected e.outcome

  unfoldable pub rejection_notice_ok : SealedJob → ReceiptArtifact → JobRecord → Result (Unit {0})
  rejection_notice_ok job notice rejected_record = do
    receipt ← receipt_copy notice
    guard
        (notice.job_id == job.job_id
          && notice.job_digest == job.job_digest
          && notice.operation_id == job.operation_id
          && is_terminal_notice notice.kind)
        storage_conflict
    outcome ← get_item "terminal_outcome" receipt
    guard (is_text "rejected" outcome) storage_conflict
    guard (is_reason rejected_record.reason_code (get "reason_code" receipt)) storage_conflict

  unfoldable pub rejection_checks :
      SealedJob
      → String
      → String
      → TransitionEvent
      → ReceiptArtifact
      → SubmissionMetadata
      → SubmissionLimits
      → Store
      → Result (JobRecord × JobRecord)
  rejection_checks job event_id occurred_at close_event notice submission limits s = do
    verify_job job
    verify_receipt notice
    r ← initial_record job event_id occurred_at
    validate_submission submission limits
    guard (rejection_event_ok job close_event) storage_conflict
    raise_if (has job.job_id s.jobs || has job.job_id s.records) storage_conflict
    enforce_submission_limits s job submission limits
    closed ← apply_transition r close_event
    rejection_notice_ok job notice closed
    ok (r, closed)

  abbrev pub with_rejected :
      Store
      → SealedJob
      → TransitionEvent
      → ReceiptArtifact
      → SubmissionMetadata
      → JobRecord
      → JobRecord
      → Store
  with_rejected s job close_event notice submission r closed = record s {
    jobs = put job.job_id job s.jobs;
    submissions = put job.job_id submission s.submissions;
    records = put job.job_id closed s.records;
    sequence = s.sequence + 2;
    ledger =
        put job.job_id
          (pending_entry (s.sequence + 1) r
            ∷ transition_entry (s.sequence + 2) r close_event closed
            ∷ [])
          s.ledger;
    receipts = put job.job_id notice s.receipts;
    receipt_history = put job.job_id (notice ∷ []) s.receipt_history;
  }

  unfoldable pub seal_rejected :
      SealedJob
      → String
      → String
      → TransitionEvent
      → ReceiptArtifact
      → SubmissionMetadata
      → SubmissionLimits
      → Store
      → Result JobRecord × Store
  seal_rejected job event_id occurred_at close_event notice submission limits s =
      attempt s (rejection_checks job event_id occurred_at close_event notice submission limits s)
        λ (r, closed). (ok closed, with_rejected s job close_event notice submission r closed)
