-- ===== src/RootAction/Store/LineageSealing.antt =====
-- A job that is sealed with the decision on its lineage (`seal_with_lineage_admission` of
-- local_fixture.py).
use agent_runtime_ops.Prelude.{
  ◌+◌, String, Bool, true, false, not, ◌&&◌, ◌||◌, [], ◌∷◌, Option, none, some, ◌==◌, ◌==ℕ◌, leb,
  if◌then◌else◌, Result, ok, err, ◌>>=◌, ◌>>◌, guard, raise_if, storage_conflict,
}
use agent_runtime_ops.Prelude.Dict.{put, has}
use agent_runtime_ops.Time.{Datetime}
use agent_runtime_ops.RootAction.Job.{SealedJob}
use agent_runtime_ops.RootAction.Json.{Library, get_item, is_text}
use agent_runtime_ops.RootAction.Receipts.{is_terminal_notice, ReceiptArtifact, receipt_copy}
use agent_runtime_ops.RootAction.State.{
  TerminalOutcome, prestart_failed, JobRecord, TransitionEvent, apply_transition, initial_record,
}
use agent_runtime_ops.RootAction.Admission.{
  LineageFailurePolicy, LineageSummary, SubmissionAdmission, SubmissionMetadata, SubmissionLimits,
}
use agent_runtime_ops.RootAction.Store.{
  Store, attempt, verify_job, verify_receipt, validate_submission, pending_entry, transition_entry,
}
use agent_runtime_ops.RootAction.Store.Limits.{enforce_submission_limits}
use agent_runtime_ops.RootAction.Store.Lineage.{lineage_summary}
use agent_runtime_ops.RootAction.Store.Sealing.{is_close}

abbrev pub is_prestart_failed : Option TerminalOutcome → Bool
is_prestart_failed (some prestart_failed) = true
is_prestart_failed _ = false

-- `reason == code` for an optional text.
abbrev pub is_some_reason : Option String → String → Bool
is_some_reason none code = false
is_some_reason (some reason) code = reason == code

module _ ⦃datetime : Datetime⦄ ⦃library : Library⦄ where
  unfoldable pub circuit_event_ok : SealedJob → LineageFailurePolicy → TransitionEvent → Bool
  circuit_event_ok job policy e =
      e.job_id == job.job_id
      && e.job_digest == job.job_digest
      && e.expected_revision ==ℕ 0
      && is_close e.kind
      && is_prestart_failed e.outcome
      && is_some_reason e.reason_code policy.circuit_reason_code

  unfoldable pub circuit_notice_ok :
      SealedJob → LineageFailurePolicy → ReceiptArtifact → Result (Unit {0})
  circuit_notice_ok job policy notice = do
    receipt ← receipt_copy notice
    guard
        (notice.job_id == job.job_id
          && notice.job_digest == job.job_digest
          && notice.operation_id == job.operation_id
          && notice.request_id == job.request_id
          && notice.reply_target == job.reply_target
          && is_terminal_notice notice.kind)
        storage_conflict
    outcome ← get_item "terminal_outcome" receipt
    guard (is_text "prestart_failed" outcome) storage_conflict
    reason ← get_item "reason_code" receipt
    guard (is_text policy.circuit_reason_code reason) storage_conflict

  -- `blocked`
  abbrev pub is_blocked : LineageFailurePolicy → LineageSummary → Bool
  is_blocked policy summary = leb policy.maximum_technical_failures summary.technical_failure_count

  -- The checks before the first write: the pending record, and the summary.
  unfoldable pub admission_checks :
      SealedJob
      → String
      → String
      → TransitionEvent
      → ReceiptArtifact
      → SubmissionMetadata
      → SubmissionLimits
      → LineageFailurePolicy
      → Store
      → Result (JobRecord × LineageSummary)
  admission_checks job event_id occurred_at circuit_event circuit_notice submission limits policy
        s =
      do
        verify_job job
        verify_receipt circuit_notice
        r ← initial_record job event_id occurred_at
        validate_submission submission limits
        raise_if (has job.job_id s.jobs || has job.job_id s.records) storage_conflict
        enforce_submission_limits s job submission limits
        summary ← lineage_summary s job.lineage_id submission.broker_received_at policy
        raise_if (is_blocked policy summary && not (circuit_event_ok job policy circuit_event))
            storage_conflict
        if is_blocked policy summary then circuit_notice_ok job policy circuit_notice else ok tt
        ok (r, summary)

  -- The first writes under the lock, before a blocked job is closed.
  abbrev pub with_admitted : Store → SealedJob → SubmissionMetadata → JobRecord → Store
  with_admitted s job submission r = record s {
    jobs = put job.job_id job s.jobs;
    submissions = put job.job_id submission s.submissions;
    records = put job.job_id r s.records;
    sequence = s.sequence + 1;
  }

  -- The later writes: for a blocked job the closing transition, its entry and its notice. The
  -- transition may raise after the first writes.
  unfoldable pub close_blocked :
      SealedJob
      → JobRecord
      → TransitionEvent
      → ReceiptArtifact
      → LineageFailurePolicy
      → LineageSummary
      → Store
      → Result (JobRecord × SubmissionAdmission) × Store
  close_blocked job r e notice policy summary s = elim (apply_transition r e) [
    | err x ↦ (err x, s)
    | ok closed ↦ (
      ok (
        closed,
        record {
          allowed = false;
          reason_code = some policy.circuit_reason_code;
          summary = summary;
        },
      ),
      record s {
        records = put job.job_id closed s.records;
        sequence = s.sequence + 1;
        ledger =
            put job.job_id
              (pending_entry s.sequence r ∷ transition_entry (s.sequence + 1) r e closed ∷ [])
              s.ledger;
        receipts = put job.job_id notice s.receipts;
        receipt_history = put job.job_id (notice ∷ []) s.receipt_history;
      },
    )
  ]

  abbrev pub admit :
      SealedJob
      → JobRecord
      → LineageSummary
      → Store
      → Result (JobRecord × SubmissionAdmission) × Store
  admit job r summary s = (
    ok (r, record { allowed = true; reason_code = none; summary = summary }),
    record s { ledger = put job.job_id (pending_entry s.sequence r ∷ []) s.ledger },
  )

  unfoldable pub seal_with_lineage_admission :
      SealedJob
      → String
      → String
      → TransitionEvent
      → ReceiptArtifact
      → SubmissionMetadata
      → SubmissionLimits
      → LineageFailurePolicy
      → Store
      → Result (JobRecord × SubmissionAdmission) × Store
  seal_with_lineage_admission job event_id occurred_at e notice submission limits policy s =
      attempt s (admission_checks job event_id occurred_at e notice submission limits policy s)
        λ (r, summary).
          let s1 = with_admitted s job submission r in
          if is_blocked policy summary
          then close_blocked job r e notice policy summary s1
          else admit job r summary s1
