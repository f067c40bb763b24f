-- ===== src/RootAction/Tests/Circuits.antt =====
-- A sealing with lineage admission that raises after its first writes.
use agent_runtime_ops.Prelude.{◌≡◌, ◌⊎◌, refl, [], ◌∷◌, some, ok, err, replay_blocked}
use agent_runtime_ops.Prelude.Dict.{lookup}
use agent_runtime_ops.Text.{safe_id, is_digest, is_digit, text_lt}
use agent_runtime_ops.Time.{
  is_timestamp, stamp, in_ranges, is_real, seconds, day_number, days_before_year, days_before_month,
}
use agent_runtime_ops.RootAction.Json.{contains, get_item, get, in_set, unique_keys}
use agent_runtime_ops.RootAction.Json.Checks.{exact_keys, digest_value, text_value, id_value}
use agent_runtime_ops.RootAction.Receipts.{
  ReceiptArtifact, safe_id_field as receipt_id_field, digest_field, seal_receipt, receipt_copy,
  validate_kind, validate_terminal_notice, validate_common,
}
use agent_runtime_ops.RootAction.State.{
  JobRecord, TransitionEvent, terminal, failed, prestart_failed, apply_transition, validate_record,
  check_event, validate_event_fields,
}
use agent_runtime_ops.RootAction.Admission.{
  default_limits, default_failure_policy, LineageFailurePolicy, LineageSummary,
}
use agent_runtime_ops.RootAction.Store.{
  Store, empty_store, verify_receipt, kind_eq, receipt_eq, bytes_eq, instant_of,
  validate_submission,
}
use agent_runtime_ops.RootAction.Store.Limits.{
  open_for_uid, open_lineage, recent_for_uid, enforce_submission_limits,
}
use agent_runtime_ops.RootAction.Store.Lineage.{
  lineage_summary, tally_jobs, tally_job, tally_record, count_outcome, no_tally,
}
use agent_runtime_ops.RootAction.Store.LineageSealing.{
  with_admitted, admission_checks, seal_with_lineage_admission, circuit_event_ok, circuit_notice_ok,
  close_blocked,
}
use agent_runtime_ops.RootAction.Store.Partial.{IsStuck, admitted-IsStuck, partial_sealing}
use agent_runtime_ops.RootAction.Store.Stuck.{run-IsStuck}
use agent_runtime_ops.RootAction.Store.Commands.{append, run}
use agent_runtime_ops.RootAction.Tests.Fixture.{
  a_job, a_notice, a_record, calendar, reader, a_submission, a_rejection,
}
use agent_runtime_ops.RootAction.Tests.Stores.{verified, initial}

-- An earlier job of the lineage, which failed for a technical reason.
abbrev a_failure : JobRecord
a_failure = record a_record {
  job_id = "job-0";
  state = terminal;
  revision = 2;
  execution_count = 1;
  terminal_outcome = some failed;
  reason_code = some "worker_lost";
}

abbrev failing_store : Store
failing_store = record empty_store {
  jobs = ("job-0", record a_job { job_id = "job-0" }) ∷ [];
  submissions = ("job-0", a_submission) ∷ [];
  records = ("job-0", a_failure) ∷ [];
}

abbrev strict_policy : LineageFailurePolicy
strict_policy = record default_failure_policy { maximum_technical_failures = 1 }

-- The closing event, under the identifier of the pending one.
abbrev a_closing : TransitionEvent
a_closing = record a_rejection {
  event_id = "event-1";
  outcome = some prestart_failed;
  reason_code = some "technical_failure_circuit_open";
}

abbrev a_circuit_notice : ReceiptArtifact
a_circuit_notice = record a_notice { canonical_receipt = 3 ∷ 10 ∷ [] }

abbrev one_failure : LineageSummary
one_failure = record {
  lineage_id = "lineage-1";
  measured_at = "2026-01-01T00:00:00Z";
  window_seconds = 86_400;
  submission_count = 1;
  terminal_counts = record no_tally.terminal_counts { failed = 1 };
  technical_failure_count = 1;
}

sealed_circuit : seal_receipt (3 ∷ 10 ∷ []) ≡ ok a_circuit_notice
unfolding seal_receipt validate_kind validate_terminal_notice validate_common get unique_keys
    exact_keys get_item receipt_id_field id_value text_value safe_id digest_field digest_value
    is_digest in_set
sealed_circuit = refl

verified_circuit : verify_receipt a_circuit_notice ≡ ok tt
unfolding verify_receipt receipt_eq kind_eq bytes_eq
verified_circuit = rw sealed_circuit refl

blocking :
    admission_checks a_job "event-1" "2026-01-01T00:00:00Z" a_closing a_circuit_notice a_submission
      default_limits strict_policy failing_store
    ≡ ok (a_record, one_failure)
unfolding admission_checks lineage_summary tally_jobs tally_job tally_record count_outcome
    validate_submission enforce_submission_limits instant_of stamp is_digit in_ranges is_real lookup
    open_for_uid open_lineage recent_for_uid circuit_event_ok circuit_notice_ok receipt_copy
    get_item get contains seconds day_number days_before_year days_before_month
blocking = rw (verified, verified_circuit, initial) refl

abbrev stuck_store : Store
stuck_store = with_admitted failing_store a_job a_submission a_record

closing :
    close_blocked a_job a_record a_closing a_circuit_notice strict_policy one_failure stuck_store
    ≡ (err replay_blocked, stuck_store)
unfolding close_blocked apply_transition check_event validate_record validate_event_fields safe_id
    is_digest is_timestamp stamp in_ranges is_real text_lt
closing = refl

raised :
    seal_with_lineage_admission a_job "event-1" "2026-01-01T00:00:00Z" a_closing a_circuit_notice
      a_submission default_limits strict_policy failing_store
    ≡ (err replay_blocked, stuck_store)
unfolding seal_with_lineage_admission
raised = rw blocking closing

partial_sealing_example : (stuck_store ≡ failing_store) ⊎ IsStuck a_job stuck_store
unfolding lookup
partial_sealing_example =
    partial_sealing a_job "event-1" "2026-01-01T00:00:00Z" a_closing a_circuit_notice a_submission
      default_limits strict_policy failing_store stuck_store replay_blocked refl raised

stuck : IsStuck a_job stuck_store
unfolding lookup
stuck = admitted-IsStuck a_job a_submission a_record failing_store refl refl

run-IsStuck_example :
    IsStuck a_job (run (append a_rejection ∷ []) stuck_store)
    × (lookup "job-1" (run (append a_rejection ∷ []) stuck_store).records
        ≡ lookup "job-1" stuck_store.records)
run-IsStuck_example = run-IsStuck (append a_rejection ∷ []) a_job stuck_store stuck
