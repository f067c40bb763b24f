-- ===== src/RootAction/Tests/Rejections.antt =====
-- The theorems of the store at a job that is rejected, and at one that a lineage admits.
use agent_runtime_ops.Prelude.{◌≡◌, refl, ap, [], ◌∷◌, Result, ok, true, some, none}
use agent_runtime_ops.Text.{safe_id, is_digest, is_digit, text_lt}
use agent_runtime_ops.Time.{is_timestamp, stamp, in_ranges, is_real}
use agent_runtime_ops.Prelude.Dict.{lookup, put}
use agent_runtime_ops.RootAction.Json.{get_item, get}
use agent_runtime_ops.RootAction.Receipts.{receipt_copy}
use agent_runtime_ops.RootAction.State.{
  JobRecord, terminal, rejected, apply_transition, validate_record, check_event, dispatch, next,
  validate_event_fields, require_reason,
}
use agent_runtime_ops.RootAction.Admission.{
  default_limits, default_failure_policy, SubmissionAdmission, LineageSummary,
}
use agent_runtime_ops.RootAction.Store.{
  Store, attempt, empty_store, instant_of, validate_submission,
}
use agent_runtime_ops.RootAction.Store.Limits.{
  open_for_uid, open_lineage, recent_for_uid, enforce_submission_limits,
}
use agent_runtime_ops.RootAction.Store.Lineage.{lineage_summary, tally_jobs, no_tally}
use agent_runtime_ops.RootAction.Store.Sealing.{with_pending}
use agent_runtime_ops.RootAction.Store.LineageSealing.{
  admission_checks, seal_with_lineage_admission,
}
use agent_runtime_ops.RootAction.Store.Rejection.{
  rejection_checks, rejection_event_ok, rejection_notice_ok, seal_rejected, with_rejected,
}
use agent_runtime_ops.RootAction.Store.Commands.{outcome, Command, reject, publish, execute, run}
use agent_runtime_ops.RootAction.Store.Receipted.{run-keeps_receipts}
use agent_runtime_ops.RootAction.Store.Circuit.{IsDecision, admission_decides}
use agent_runtime_ops.RootAction.Tests.Fixture.{
  a_job, a_notice, a_record, calendar, reader, a_submission, a_rejection,
}
use agent_runtime_ops.RootAction.Tests.Stores.{verified, verified_notice, initial}

-- A job that is rejected at its sealing.
abbrev pub a_rejected : JobRecord
a_rejected = record a_record {
  state = terminal;
  revision = 1;
  terminal_outcome = some rejected;
  reason_code = some "not_permitted";
  last_event_id = "event-2";
  last_changed_at = "2026-01-01T00:00:05Z";
}

pub rejected_record : apply_transition a_record a_rejection ≡ ok a_rejected
unfolding apply_transition check_event dispatch next require_reason validate_record
    validate_event_fields safe_id is_digest is_timestamp stamp in_ranges is_real text_lt
rejected_record = refl

pub rejecting :
    rejection_checks a_job "event-1" "2026-01-01T00:00:00Z" a_rejection a_notice a_submission
      default_limits empty_store
    ≡ ok (a_record, a_rejected)
unfolding rejection_checks rejection_event_ok rejection_notice_ok receipt_copy get_item get
    validate_submission enforce_submission_limits instant_of stamp is_digit in_ranges is_real lookup
    open_for_uid open_lineage recent_for_uid
rejecting = rw (verified, verified_notice, initial, rejected_record) refl

abbrev pub rejection : Command
rejection =
    reject a_job "event-1" "2026-01-01T00:00:00Z" a_rejection a_notice a_submission default_limits

abbrev pub rejected_store : Store
rejected_store =
    with_rejected empty_store a_job a_rejection a_notice a_submission a_record a_rejected

pub rejecting_step : (execute rejection empty_store).1 ≡ rejected_store
unfolding execute seal_rejected
rejecting_step =
    ap
      (λ (r : Result (JobRecord × JobRecord)).
        (outcome (
          attempt {B = JobRecord} empty_store r (λ (q, u).
            (ok u, with_rejected empty_store a_job a_rejection a_notice a_submission q u)))).1)
      rejecting

pub noticed : lookup "job-1" (run (rejection ∷ []) empty_store).receipts ≡ some a_notice
unfolding run put lookup
noticed = ap (λ (s : Store). lookup "job-1" s.receipts) rejecting_step

run-keeps_receipts_example :
    lookup "job-1" (run (publish a_notice ∷ []) (run (rejection ∷ []) empty_store)).receipts
    ≡ some a_notice
run-keeps_receipts_example =
    run-keeps_receipts (rejection ∷ []) (publish a_notice ∷ []) "job-1" a_notice noticed refl

-- A job of a lineage that has no failures.
abbrev pub no_failures : LineageSummary
no_failures = record {
  lineage_id = "lineage-1";
  measured_at = "2026-01-01T00:00:00Z";
  window_seconds = 86_400;
  submission_count = 0;
  terminal_counts = no_tally.terminal_counts;
  technical_failure_count = 0;
}

pub admitting :
    admission_checks a_job "event-1" "2026-01-01T00:00:00Z" a_rejection a_notice a_submission
      default_limits default_failure_policy empty_store
    ≡ ok (a_record, no_failures)
unfolding admission_checks lineage_summary tally_jobs validate_submission enforce_submission_limits
    instant_of stamp is_digit in_ranges is_real lookup open_for_uid open_lineage recent_for_uid
admitting = rw (verified, verified_notice, initial) refl

abbrev pub admission : SubmissionAdmission
admission = record { allowed = true; reason_code = none; summary = no_failures }

abbrev pub admitted_store : Store
admitted_store = with_pending empty_store a_job a_submission a_record

pub admitted :
    seal_with_lineage_admission a_job "event-1" "2026-01-01T00:00:00Z" a_rejection a_notice
      a_submission default_limits default_failure_policy empty_store
    ≡ (ok (a_record, admission), admitted_store)
unfolding seal_with_lineage_admission
admitted = rw admitting refl

admission_decides_example :
    IsDecision a_job a_notice a_submission default_failure_policy empty_store admitted_store
      a_record admission
admission_decides_example =
    admission_decides a_job "event-1" "2026-01-01T00:00:00Z" a_rejection a_notice a_submission
      default_limits default_failure_policy empty_store admitted_store a_record admission admitted
