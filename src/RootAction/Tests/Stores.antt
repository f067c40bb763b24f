-- ===== src/RootAction/Tests/Stores.antt =====
-- The theorems of the store at a job that is sealed, claimed and completed.
use agent_runtime_ops.Prelude.{
  ◌≤◌, ◌≡◌, refl, ap, String, ◌∙◌, List, [], ◌∷◌, Result, ok, err, storage_not_found, some,
}
use agent_runtime_ops.Prelude.Lists.{length, any}
use agent_runtime_ops.Text.{safe_id, is_digest, is_digit, text_lt, codes}
use agent_runtime_ops.Time.{is_timestamp, stamp, in_ranges, is_real}
use agent_runtime_ops.Prelude.Int.{int_eq}
use agent_runtime_ops.Prelude.Dict.{lookup, put}
use agent_runtime_ops.RootAction.Json.{
  contains, same_set, distinct, keys, elements, get_item, get, unique_keys, unique_items,
  unique_members, in_set, utf8_len,
}
use agent_runtime_ops.RootAction.Json.Checks.{
  exact_keys, digest_value, text_value, id_value, timestamp_value,
}
use agent_runtime_ops.RootAction.Registry.{
  default_registry, registry_validate, registry_spec, check_version, validate_parameters,
  parameter_names, validate_rule, require_matching_string,
}
use agent_runtime_ops.RootAction.Contracts.{
  seal_typed_manifest, parse_manifest, validate_manifest, safe_text, safe_id_field, safe_timestamp,
  text_list, optional_text_list, validate_premises, validate_expected_pre_state,
  canonical_manifest_bytes,
}
use agent_runtime_ops.RootAction.Receipts.{
  safe_id_field as receipt_id_field, digest_field, seal_receipt, validate_kind,
  validate_terminal_notice, validate_common,
}
use agent_runtime_ops.RootAction.State.{
  JobRecord, apply_transition, validate_record, check_event, dispatch, next, validate_event_fields,
  initial_record,
}
use agent_runtime_ops.RootAction.Admission.{default_limits, LedgerEntry}
use agent_runtime_ops.RootAction.Store.{
  Store, empty_store, verify_job, verify_receipt, job_eq, kind_eq, receipt_eq, bytes_eq, instant_of,
  validate_submission, pending_entry, transition_entry,
}
use agent_runtime_ops.RootAction.Store.Limits.{
  open_for_uid, open_lineage, recent_for_uid, enforce_submission_limits,
}
use agent_runtime_ops.RootAction.Store.Sealing.{sealing_checks, seal_pending, with_pending}
use agent_runtime_ops.RootAction.Store.Transitions.{
  append_checks, compare_and_append, with_transition,
}
use agent_runtime_ops.RootAction.Store.Commands.{outcome, Command, seal, append, execute, run}
use agent_runtime_ops.RootAction.Store.History.{ledger_claims}
use agent_runtime_ops.RootAction.Store.Atomicity.{execute-atomic}
use agent_runtime_ops.RootAction.Store.Soundness.{IsSound}
use agent_runtime_ops.RootAction.Store.Soundness.Steps.{run-IsSound, empty-IsSound}
use agent_runtime_ops.RootAction.Store.Ledger.{Agrees, ledger_one_shot, ledger-Agrees}
use agent_runtime_ops.RootAction.Store.Kept.{run-keeps_jobs}
use agent_runtime_ops.RootAction.Store.Limited.{OpenJobs, seal_pending-quota}
use agent_runtime_ops.RootAction.Tests.Fixture.{
  a_job, a_notice, a_record, a_claim, a_running, calendar, reader, a_submission,
}

pub sealed_job : seal_typed_manifest default_registry (1 ∷ 10 ∷ []) ≡ ok a_job
unfolding seal_typed_manifest parse_manifest validate_manifest safe_text safe_id_field
    safe_timestamp text_list optional_text_list validate_premises validate_expected_pre_state
    canonical_manifest_bytes contains same_set distinct keys elements get_item get unique_keys
    unique_items unique_members in_set utf8_len exact_keys digest_value text_value id_value
    timestamp_value registry_validate registry_spec check_version validate_parameters
    parameter_names validate_rule safe_id is_digest is_timestamp stamp in_ranges is_real codes
    int_eq require_matching_string
sealed_job = refl

pub verified : verify_job a_job ≡ ok tt
unfolding verify_job job_eq bytes_eq int_eq
verified = rw sealed_job refl

pub sealed_receipt : seal_receipt (2 ∷ 10 ∷ []) ≡ ok a_notice
unfolding seal_receipt validate_kind validate_terminal_notice validate_common get unique_keys
    exact_keys get_item receipt_id_field id_value text_value safe_id digest_field digest_value
    is_digest in_set
sealed_receipt = refl

pub verified_notice : verify_receipt a_notice ≡ ok tt
unfolding verify_receipt receipt_eq kind_eq bytes_eq
verified_notice = rw sealed_receipt refl

pub initial : initial_record a_job "event-1" "2026-01-01T00:00:00Z" ≡ ok a_record
unfolding initial_record validate_record validate_event_fields safe_id is_digest is_timestamp stamp
    in_ranges is_real
initial = refl

abbrev pub sealed_store : Store
sealed_store = with_pending empty_store a_job a_submission a_record

pub sealing :
    sealing_checks a_job "event-1" "2026-01-01T00:00:00Z" a_submission default_limits empty_store
    ≡ ok a_record
unfolding sealing_checks validate_submission enforce_submission_limits instant_of stamp is_digit
    in_ranges is_real lookup open_for_uid open_lineage recent_for_uid
sealing = rw (verified, initial) refl

pub sealed :
    seal_pending a_job "event-1" "2026-01-01T00:00:00Z" a_submission default_limits empty_store
    ≡ (ok a_record, sealed_store)
unfolding seal_pending
sealed = rw sealing refl

abbrev pub pending_line : LedgerEntry
pending_line = pending_entry 1 a_record

abbrev pub claimed_store : Store
claimed_store = with_transition sealed_store a_claim a_record (pending_line ∷ []) a_running

pub claimed_record : apply_transition a_record a_claim ≡ ok a_running
unfolding apply_transition check_event dispatch next validate_record validate_event_fields safe_id
    is_digest is_timestamp stamp in_ranges is_real text_lt
claimed_record = refl

pub claiming : append_checks a_claim sealed_store ≡ ok (a_record, pending_line ∷ [], a_running)
unfolding append_checks put lookup any
claiming = rw claimed_record refl

abbrev pub life : List Command
life =
    seal a_job "event-1" "2026-01-01T00:00:00Z" (some a_submission) default_limits
    ∷ append a_claim
    ∷ []

pub appended : compare_and_append a_claim sealed_store ≡ (ok a_running, claimed_store)
unfolding compare_and_append
appended = rw claiming refl

pub sealing_step :
    (execute
      (seal a_job "event-1" "2026-01-01T00:00:00Z" (some a_submission) default_limits)
      empty_store).1
    ≡ sealed_store
unfolding execute
sealing_step = ap (λ (r : Result JobRecord × Store). (outcome r).1) sealed

pub appending_step : (execute (append a_claim) sealed_store).1 ≡ claimed_store
unfolding execute
appending_step = ap (λ (r : Result JobRecord × Store). (outcome r).1) appended

pub lived : run life empty_store ≡ claimed_store
unfolding run
lived = ap (λ (s : Store). (execute (append a_claim) s).1) sealing_step ∙ appending_step

abbrev pub two_lines : List LedgerEntry
two_lines = pending_line ∷ transition_entry 2 a_record a_claim a_running ∷ []

pub two_lines_found : lookup "job-1" (run life empty_store).ledger ≡ some two_lines
unfolding lookup put
two_lines_found = rw lived refl

ledger_one_shot_example : (ledger_claims two_lines ≤ 1) × (length two_lines ≤ 4)
ledger_one_shot_example = ledger_one_shot life "job-1" two_lines two_lines_found

ledger-Agrees_example : (r : JobRecord) × Agrees "job-1" two_lines (run life empty_store) r
ledger-Agrees_example = ledger-Agrees life "job-1" two_lines two_lines_found

run-IsSound_example : IsSound (run life empty_store)
run-IsSound_example = run-IsSound life empty_store empty-IsSound

pub a_job_found : lookup "job-1" sealed_store.jobs ≡ some a_job
unfolding lookup put
a_job_found = refl

run-keeps_jobs_example : lookup "job-1" (run (append a_claim ∷ []) sealed_store).jobs ≡ some a_job
run-keeps_jobs_example = run-keeps_jobs (append a_claim ∷ []) sealed_store "job-1" a_job a_job_found

seal_pending-quota_example :
    (names : List String) × OpenJobs sealed_store.records 1000 sealed_store.submissions names
    × (open_for_uid sealed_store.records 1000 sealed_store.submissions ≡ ok (length names))
    × (length names ≤ 8)
seal_pending-quota_example =
    seal_pending-quota a_job "event-1" "2026-01-01T00:00:00Z" a_submission default_limits
      empty_store sealed_store a_record sealed

pub lost : (execute (append a_claim) empty_store).0 ≡ err storage_not_found
unfolding execute compare_and_append append_checks lookup
lost = refl

execute-atomic_example : (execute (append a_claim) empty_store).1 ≡ empty_store
execute-atomic_example = execute-atomic (append a_claim) empty_store storage_not_found refl lost
