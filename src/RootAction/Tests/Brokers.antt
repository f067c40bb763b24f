-- ===== src/RootAction/Tests/Brokers.antt =====
-- A submission of a job whose operation is disabled.
use agent_runtime_ops.Prelude.{
  ℕ, suc, zero, ◌≡◌, ◌⊎◌, refl, false, [], ◌∷◌, none, some, ok, err, Result, String, List,
  worker_error, ap, ◌≤◌,
}
use agent_runtime_ops.Prelude.Int.{pos, int_eq}
use agent_runtime_ops.Prelude.Lists.{any}
use agent_runtime_ops.Prelude.Dict.{lookup}
use agent_runtime_ops.Time.{
  stamp, in_ranges, is_real, seconds, day_number, days_before_year, days_before_month,
}
use agent_runtime_ops.Text.{is_digit, safe_id, is_digest}
use agent_runtime_ops.RootAction.Json.{get_item, get, in_set, unique_keys}
use agent_runtime_ops.RootAction.Json.Checks.{exact_keys, digest_value, text_value, id_value}
use agent_runtime_ops.RootAction.Receipts.{
  safe_id_field as receipt_id_field, digest_field, seal_receipt, validate_kind,
  validate_terminal_notice, validate_common,
}
use agent_runtime_ops.RootAction.Admission.{default_failure_policy}
use agent_runtime_ops.RootAction.Store.{
  Store, empty_store, pending_entry, transition_entry, instant_of,
}
use agent_runtime_ops.RootAction.Store.Rejection.{seal_rejected}
use agent_runtime_ops.RootAction.Store.Transitions.{read_sealed}
use agent_runtime_ops.RootAction.Submission.{authorize, has_number}
use agent_runtime_ops.RootAction.Execution.{
  ExecutionPolicy, execution_policy, disabled_unverified_authority,
}
use agent_runtime_ops.RootAction.Broker.{
  Broker, SourceEvent, sealed, notice_value, seal_disabled, after_sealing, submission_checks,
  submit_new, submit_read, submit,
}
use agent_runtime_ops.RootAction.Broker.Refinement.{IsDispatcher, submit_all, broker_one_shot}
use agent_runtime_ops.RootAction.Broker.Reached.{IsReached-refl}
use agent_runtime_ops.Prelude.Lists.{length}
use agent_runtime_ops.Prelude.Dict.{put}
use agent_runtime_ops.RootAction.Store.History.{ledger_claims}
use agent_runtime_ops.RootAction.Admission.{LedgerEntry}
use agent_runtime_ops.RootAction.Broker.Requests.{requester_job, IsRequester, requester_job_iff}
use agent_runtime_ops.Prelude.{◌↔◌, Error, storage_not_found}
use agent_runtime_ops.RootAction.Tests.Fixture.{a_record, a_rejection}
use agent_runtime_ops.RootAction.Job.{Bytes}
use agent_runtime_ops.RootAction.Submission.{BrokerPeerIdentity}
use agent_runtime_ops.RootAction.State.{JobRecord}
use agent_runtime_ops.RootAction.Broker.Decisions.{submit_decides}
use agent_runtime_ops.RootAction.Broker.Outcomes.{IsRecovered, IsSubmission}
use agent_runtime_ops.RootAction.Broker.Admitted.{IsLetIn, submit_changes}
use agent_runtime_ops.RootAction.Tests.Fixture.{a_job, a_notice, a_submission, calendar, reader}
use agent_runtime_ops.RootAction.Tests.Stores.{sealed_job}
use agent_runtime_ops.RootAction.Tests.Rejections.{rejecting, a_rejected, rejected_store}
use agent_runtime_ops.RootAction.Tests.Submissions.{a_policy, a_peer}

abbrev an_execution_policy : ExecutionPolicy
an_execution_policy = record {
  operation_id = "projection.staging_selftest";
  operation_version = pos 1;
  availability = disabled_unverified_authority;
  reason_code = some "not_permitted";
  auto_dispatch = false;
}

-- A callable that raises and changes nothing.
abbrev idle : String → String → Store → Result (Unit {0}) × Store
idle job_id job_digest s = (err worker_error, s)

abbrev a_broker : Broker
a_broker = record {
  policies = record { policies = ("projection.staging_selftest", an_execution_policy) ∷ [] };
  submission_policy = a_policy;
  lineage_failure_policy = default_failure_policy;
  dispatch = some idle;
}

abbrev source : ℕ → SourceEvent
source zero = ("event-1", "2026-01-01T00:00:00Z")
source (suc n) = ("event-2", "2026-01-01T00:00:05Z")

checked :
    submission_checks a_broker (source 0) a_job a_peer ≡ ok (a_submission, an_execution_policy)
unfolding submission_checks authorize execution_policy lookup instant_of stamp in_ranges is_real
    is_digit seconds day_number days_before_year days_before_month has_number any int_eq
checked = refl

notice_sealed :
    seal_receipt (reader.dumps_plain (notice_value a_job "rejected" (some "not_permitted")))
    ≡ ok a_notice
unfolding notice_value seal_receipt validate_kind validate_terminal_notice validate_common get
    unique_keys exact_keys get_item receipt_id_field id_value text_value safe_id digest_field
    digest_value is_digest in_set
notice_sealed = refl

rejected_at_once :
    seal_disabled a_broker source a_job a_peer a_submission an_execution_policy empty_store
    ≡ (ok (sealed a_rejected none), rejected_store)
unfolding seal_disabled seal_rejected
rejected_at_once = rw (notice_sealed, rejecting) refl

submitted :
    submit a_broker source (1 ∷ 10 ∷ []) a_peer empty_store ≡ (ok a_rejected, rejected_store)
unfolding submit submit_read submit_new after_sealing read_sealed lookup
submitted = rw (sealed_job, checked, rejected_at_once) refl

submit_decides_example :
    IsRecovered a_job a_peer empty_store rejected_store a_rejected
    ⊎ IsSubmission a_broker source a_job a_peer empty_store rejected_store a_rejected
submit_decides_example =
    submit_decides a_broker source (1 ∷ 10 ∷ []) a_job a_peer empty_store rejected_store a_rejected
      sealed_job submitted

submit_changes_example :
    ((submit a_broker source (1 ∷ 10 ∷ []) a_peer empty_store).1 ≡ empty_store)
    ⊎ IsLetIn a_broker source (1 ∷ 10 ∷ []) a_peer
submit_changes_example = submit_changes a_broker source (1 ∷ 10 ∷ []) a_peer empty_store

dispatcher : IsDispatcher a_broker
dispatcher f e job_id job_digest s = let q : idle ≡ f = cc e in rw (← q) (IsReached-refl s)

abbrev the_submissions : List ((ℕ → SourceEvent) × Bytes × BrokerPeerIdentity)
the_submissions = (source, 1 ∷ 10 ∷ [], a_peer) ∷ []

abbrev closed_lines : List LedgerEntry
closed_lines = pending_entry 1 a_record ∷ transition_entry 2 a_record a_rejection a_rejected ∷ []

closed_lines_found :
    lookup "job-1" (submit_all a_broker the_submissions empty_store).ledger ≡ some closed_lines
unfolding submit_all lookup put
closed_lines_found = ap (λ (r : Result JobRecord × Store). lookup "job-1" r.1.ledger) submitted

broker_one_shot_example : (ledger_claims closed_lines ≤ 1) × (length closed_lines ≤ 4)
broker_one_shot_example =
    broker_one_shot a_broker the_submissions "job-1" closed_lines dispatcher closed_lines_found

requester_job_iff_example :
    ((requester_job a_peer "job-1" a_job.job_digest "request-1" "reply-1" rejected_store ≡ ok a_job)
      ↔ IsRequester a_peer "job-1" a_job.job_digest "request-1" "reply-1" rejected_store a_job)
    × ((x : Error)
        → requester_job a_peer "job-1" a_job.job_digest "request-1" "reply-1" rejected_store ≡ err x
        → x ≡ storage_not_found)
requester_job_iff_example =
    requester_job_iff a_peer "job-1" a_job.job_digest "request-1" "reply-1" rejected_store a_job
