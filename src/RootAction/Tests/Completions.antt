-- ===== src/RootAction/Tests/Completions.antt =====
-- The completion of a job of the SQLite store that is sealed and claimed.
use agent_runtime_ops.Prelude.{◌≡◌, refl, false, [], ◌∷◌, ok}
use agent_runtime_ops.Prelude.Lists.{any}
use agent_runtime_ops.Text.{safe_id, is_digest}
use agent_runtime_ops.Time.{is_timestamp, stamp, in_ranges, is_real}
use agent_runtime_ops.RootAction.Json.{Json, str, get, get_item}
use agent_runtime_ops.RootAction.Receipts.{receipt_copy}
use agent_runtime_ops.RootAction.State.{validate_record, validate_event_fields}
use agent_runtime_ops.RootAction.Store.Publication.{is_outcome, outcome_text}
use agent_runtime_ops.RootAction.Posix.{empty_database, fetch_one}
use agent_runtime_ops.RootAction.Posix.Reading.{current_for, read_record, read_sealed}
use agent_runtime_ops.RootAction.Posix.Inserts.{raw_taken}
use agent_runtime_ops.RootAction.Posix.Transitions.{replayed}
use agent_runtime_ops.RootAction.Posix.Checks.{identity_checks}
use agent_runtime_ops.RootAction.Posix.Publication.{receipt_taken}
use agent_runtime_ops.RootAction.Posix.Finishing.{complete_claimed_execution}
use agent_runtime_ops.RootAction.Posix.Commands.{append, run}
use agent_runtime_ops.RootAction.Posix.Completing.{complete_claimed_execution-returns}
use agent_runtime_ops.RootAction.Tests.Fixture.{
  a_job, a_claim, a_completion, a_running, a_done, a_public_receipt, calendar, reader,
}
use agent_runtime_ops.RootAction.Tests.Stores.{verified}
use agent_runtime_ops.RootAction.Tests.Databases.{
  a_raw, a_public, running_database, verified_public, done_record,
}
use agent_runtime_ops.RootAction.Tests.Runs.{a_sealing, lived_here}

sealed_here : read_sealed "job-1" running_database ≡ ok a_job
unfolding read_sealed fetch_one
sealed_here = rw verified refl

running_here : read_record "job-1" running_database ≡ ok a_running
unfolding read_record fetch_one validate_record safe_id is_digest validate_event_fields is_timestamp
    stamp in_ranges is_real
running_here = refl

event_is_new : replayed a_completion running_database ≡ ok tt
unfolding any
event_is_new = refl

raw_is_free : raw_taken a_raw running_database ≡ false
unfolding any
raw_is_free = refl

receipt_is_free : receipt_taken a_public running_database ≡ false
unfolding any
receipt_is_free = refl

of_one_job : identity_checks a_completion a_raw.reference a_public ≡ ok tt
unfolding identity_checks receipt_copy get
of_one_job = refl

copied : receipt_copy a_public ≡ ok a_public_receipt
unfolding receipt_copy
copied = refl

abbrev succeeded_text : Json
succeeded_text = str "succeeded"

names_outcome : get_item "terminal_outcome" a_public_receipt ≡ ok succeeded_text
unfolding get_item
names_outcome = refl

none_current : any (current_for "job-1") running_database.receipt_current ≡ false
unfolding any
none_current = refl

complete_claimed_execution-returns_example :
    (complete_claimed_execution a_completion a_raw a_public
      (run (a_sealing ∷ append a_claim ∷ []) empty_database)).0
    ≡ ok a_done
unfolding is_outcome outcome_text
complete_claimed_execution-returns_example =
    complete_claimed_execution-returns (a_sealing ∷ append a_claim ∷ []) a_completion a_raw a_public
      a_job a_running a_done a_public_receipt succeeded_text refl (rw lived_here sealed_here)
      (rw lived_here running_here) (rw lived_here event_is_new) done_record
      (rw lived_here raw_is_free) verified_public (rw lived_here receipt_is_free) of_one_job refl
      refl refl refl refl copied names_outcome refl (rw lived_here none_current)
