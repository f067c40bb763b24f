-- ===== src/RootAction/Tests/Databases.antt =====
-- The theorems of the SQLite store at a job that is sealed, claimed and completed.
use agent_runtime_ops.Prelude.{◌≡◌, refl, ap, [], ◌∷◌, some, none, ok, err, Result, stale_revision}
use agent_runtime_ops.Prelude.Actions.{◌>>=◌, reads, lift, writes, pure}
use agent_runtime_ops.Prelude.Lists.{any}
use agent_runtime_ops.Prelude.Int.{int_eq}
use agent_runtime_ops.Text.{safe_id, is_digest, text_lt}
use agent_runtime_ops.Time.{is_timestamp, stamp, in_ranges, is_real}
use agent_runtime_ops.RootAction.Json.{
  keys, elements, get_item, get, unique_keys, unique_items, unique_members, in_set, same_set,
  contains, distinct,
}
use agent_runtime_ops.RootAction.Json.Checks.{
  exact_keys, digest_value, text_value, id_value, timestamp_value,
}
use agent_runtime_ops.RootAction.Observation.{observation_facts_ok}
use agent_runtime_ops.RootAction.Receipts.{
  ReceiptArtifact, public, unknown_notice, safe_id_field, digest_field, timestamp_field,
  receipt_copy, seal_receipt, validate_kind, validate_public, validate_unknown, validate_common,
}
use agent_runtime_ops.RootAction.Receipts.Raw.{
  RawReceiptArtifact, raw_reference_checked, raw_artifact_checked,
}
use agent_runtime_ops.RootAction.State.{
  running, terminal, unknown, require_reason, JobRecord, TransitionEvent, mark_unknown,
  apply_transition, validate_record, check_event, dispatch, next, validate_event_fields,
}
use agent_runtime_ops.RootAction.Store.{
  verify_receipt, kind_eq, receipt_eq, bytes_eq, pending_entry, transition_entry,
}
use agent_runtime_ops.RootAction.Store.Publication.{is_outcome, outcome_text}
use agent_runtime_ops.RootAction.Posix.{
  Database, empty_database, fetch_one, count_rows, update_rows, execute_insert, transaction,
}
use agent_runtime_ops.RootAction.Posix.Reading.{read_record, read_sealed}
use agent_runtime_ops.RootAction.Posix.Inserts.{insert_raw, insert_ledger}
use agent_runtime_ops.RootAction.Posix.Transitions.{update_record, compare_and_append}
use agent_runtime_ops.RootAction.Posix.Checks.{
  identity_checks, validate_receipt_publication, raw_matches, state_matches,
}
use agent_runtime_ops.RootAction.Posix.Publication.{may_follow, point_to, insert_receipt}
use agent_runtime_ops.RootAction.Posix.Finishing.{
  finalize, finalize_claimed_execution, complete_claimed_execution, mark_claimed_execution_unknown,
}
use agent_runtime_ops.RootAction.Posix.Finished.{
  Finished, complete_claimed_execution-Finished, mark_claimed_execution_unknown-Finished,
}
use agent_runtime_ops.RootAction.Posix.Commands.{complete, execute}
use agent_runtime_ops.RootAction.Posix.Atomicity.{execute-rolls_back}
use agent_runtime_ops.RootAction.Tests.Fixture.{
  a_digest, a_job, a_record, a_claim, a_running, a_completion, a_done, a_submission, calendar,
  reader,
}
use agent_runtime_ops.RootAction.Tests.Stores.{verified}

abbrev pub a_raw : RawReceiptArtifact
a_raw = record {
  reference = record {
    job_id = "job-1";
    job_digest = a_digest;
    raw_receipt_digest = a_digest;
    root_storage_id = "raw-1";
  };
  raw_bytes = 9 ∷ [];
}

abbrev pub a_public : ReceiptArtifact
a_public = record {
  kind = public;
  job_id = "job-1";
  job_digest = a_digest;
  operation_id = "projection.staging_selftest";
  request_id = "request-1";
  reply_target = "reply-1";
  receipt_digest = a_digest;
  canonical_receipt = 4 ∷ 10 ∷ [];
}

-- The job is sealed and pending, or claimed and running.
abbrev pub pending_database : Database
pending_database = record empty_database {
  jobs = record { job = a_job; submission = a_submission } ∷ [];
  records = a_record ∷ [];
  ledger = pending_entry 1 a_record ∷ [];
  sequence = 1;
}

abbrev pub running_database : Database
running_database = record pending_database {
  records = a_running ∷ [];
  ledger = pending_entry 1 a_record ∷ transition_entry 2 a_record a_claim a_running ∷ [];
  sequence = 2;
}

sealed_public : seal_receipt (4 ∷ 10 ∷ []) ≡ ok a_public
unfolding seal_receipt validate_kind validate_public validate_common get unique_keys unique_items
    unique_members exact_keys get_item safe_id_field id_value text_value safe_id digest_field
    digest_value is_digest in_set timestamp_field timestamp_value is_timestamp stamp in_ranges
    is_real text_lt same_set contains distinct keys elements observation_facts_ok int_eq
sealed_public = refl

pub verified_public : verify_receipt a_public ≡ ok tt
unfolding verify_receipt receipt_eq kind_eq bytes_eq
verified_public = rw sealed_public refl

pub done_record : apply_transition a_running a_completion ≡ ok a_done
unfolding apply_transition check_event dispatch next validate_record validate_event_fields safe_id
    is_digest is_timestamp stamp in_ranges is_real text_lt require_reason
done_record = refl

completed : (complete_claimed_execution a_completion a_raw a_public running_database).0 ≡ ok a_done
unfolding complete_claimed_execution finalize_claimed_execution finalize identity_checks transaction
    ◌>>=◌ lift reads pure writes read_sealed fetch_one receipt_copy get insert_raw execute_insert
    any compare_and_append read_record validate_record safe_id is_digest validate_event_fields
    is_timestamp stamp in_ranges is_real update_record count_rows update_rows insert_ledger
    validate_receipt_publication raw_matches state_matches get_item is_outcome outcome_text
    insert_receipt may_follow point_to
completed = rw (verified_public, verified, done_record, verified) refl

complete_claimed_execution-Finished_example :
    (f : Finished a_completion a_raw a_public running_database
      (complete_claimed_execution a_completion a_raw a_public running_database).1
      a_done)
    × (f.current.state ≡ running)
    × (a_done.state ≡ terminal)
complete_claimed_execution-Finished_example =
    complete_claimed_execution-Finished a_completion a_raw a_public running_database _ a_done (
      ap
        (λ (x : Result JobRecord).
          (x, (complete_claimed_execution a_completion a_raw a_public running_database).1))
        completed)

abbrev an_unknown : ReceiptArtifact
an_unknown = record a_public { kind = unknown_notice; canonical_receipt = 5 ∷ 10 ∷ [] }

abbrev a_loss : TransitionEvent
a_loss = record a_completion {
  kind = mark_unknown;
  outcome = none;
  reason_code = some "worker_lost";
}

abbrev a_lost : JobRecord
a_lost = record a_done {
  state = unknown;
  terminal_outcome = none;
  reason_code = some "worker_lost";
}

sealed_unknown : seal_receipt (5 ∷ 10 ∷ []) ≡ ok an_unknown
unfolding seal_receipt validate_kind validate_unknown validate_common get unique_keys unique_items
    unique_members exact_keys get_item safe_id_field id_value text_value safe_id digest_field
    digest_value is_digest in_set timestamp_field timestamp_value is_timestamp stamp in_ranges
    is_real text_lt same_set contains distinct keys elements
sealed_unknown = refl

verified_unknown : verify_receipt an_unknown ≡ ok tt
unfolding verify_receipt receipt_eq kind_eq bytes_eq
verified_unknown = rw sealed_unknown refl

lost_record : apply_transition a_running a_loss ≡ ok a_lost
unfolding apply_transition check_event dispatch next validate_record validate_event_fields safe_id
    is_digest is_timestamp stamp in_ranges is_real text_lt require_reason
lost_record = refl

lost : (mark_claimed_execution_unknown a_loss a_raw an_unknown running_database).0 ≡ ok a_lost
unfolding mark_claimed_execution_unknown finalize_claimed_execution finalize identity_checks
    transaction ◌>>=◌ lift reads pure writes read_sealed fetch_one receipt_copy get insert_raw
    execute_insert any compare_and_append read_record validate_record safe_id is_digest
    validate_event_fields is_timestamp stamp in_ranges is_real update_record count_rows update_rows
    insert_ledger validate_receipt_publication raw_matches state_matches get_item is_outcome
    outcome_text insert_receipt may_follow point_to
lost = rw (verified_unknown, verified, lost_record, verified) refl

mark_claimed_execution_unknown-Finished_example :
    (f : Finished a_loss a_raw an_unknown running_database
      (mark_claimed_execution_unknown a_loss a_raw an_unknown running_database).1
      a_lost)
    × (f.current.state ≡ running)
    × (a_lost.state ≡ unknown)
mark_claimed_execution_unknown-Finished_example =
    mark_claimed_execution_unknown-Finished a_loss a_raw an_unknown running_database _ a_lost (
      ap
        (λ (x : Result JobRecord).
          (x, (mark_claimed_execution_unknown a_loss a_raw an_unknown running_database).1))
        lost)

-- The completion of a job that is still pending raises after the insert of the raw receipt.
stale_record : apply_transition a_record a_completion ≡ err stale_revision
unfolding apply_transition check_event validate_record validate_event_fields safe_id is_digest
    is_timestamp stamp in_ranges is_real
stale_record = refl

refused : (execute (complete a_completion a_raw a_public) pending_database).0 ≡ err stale_revision
unfolding execute raw_reference_checked raw_artifact_checked complete_claimed_execution
    finalize_claimed_execution finalize identity_checks transaction ◌>>=◌ lift reads pure writes
    read_sealed fetch_one receipt_copy get insert_raw execute_insert any compare_and_append
    read_record validate_record safe_id is_digest validate_event_fields is_timestamp stamp in_ranges
    is_real safe_id_field id_value text_value digest_field digest_value
refused = rw (verified_public, verified, stale_record) refl

execute-rolls_back_example :
    (execute (complete a_completion a_raw a_public) pending_database).1 ≡ pending_database
execute-rolls_back_example =
    execute-rolls_back (complete a_completion a_raw a_public) pending_database stale_revision
      refused
