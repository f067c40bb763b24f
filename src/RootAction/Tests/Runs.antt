-- ===== src/RootAction/Tests/Runs.antt =====
-- The ledger of the SQLite store after a job was sealed and claimed.
use agent_runtime_ops.Prelude.{◌≡◌, ◌≤◌, refl, ap, ◌∙◌, [], ◌∷◌, some, ok}
use agent_runtime_ops.Prelude.Actions.{◌>>=◌, reads, lift, writes, pure}
use agent_runtime_ops.Prelude.Lists.{length, any}
use agent_runtime_ops.Text.{safe_id, is_digest, is_digit}
use agent_runtime_ops.Time.{
  is_timestamp, stamp, in_ranges, is_real, seconds, day_number, days_before_year, days_before_month,
}
use agent_runtime_ops.RootAction.State.{validate_record, validate_event_fields}
use agent_runtime_ops.RootAction.Admission.{default_limits}
use agent_runtime_ops.RootAction.Store.{validate_submission, instant_of}
use agent_runtime_ops.RootAction.Posix.{
  empty_database, fetch_one, fetch_all, count_rows, update_rows, execute_insert, transaction,
}
use agent_runtime_ops.RootAction.Posix.Reading.{read_record, read_ledger}
use agent_runtime_ops.RootAction.Posix.Inserts.{
  insert_job, insert_record_and_initial_ledger, insert_ledger,
}
use agent_runtime_ops.RootAction.Posix.Transitions.{append_event, update_record, compare_and_append}
use agent_runtime_ops.RootAction.Posix.Limits.{
  enforce_submission_limits, open_for_uid, open_lineage, recent_for_uid, cutoff_of,
}
use agent_runtime_ops.RootAction.Posix.Sealing.{seal_pending, seal_new}
use agent_runtime_ops.RootAction.Posix.Commands.{Command, seal, append, execute, run}
use agent_runtime_ops.RootAction.Posix.Tracked.{
  IsTracked, run-IsTracked, empty-IsTracked, posix_one_shot,
}
use agent_runtime_ops.RootAction.Store.History.{ledger_claims}
use agent_runtime_ops.RootAction.Tests.Fixture.{a_job, a_claim, a_submission, calendar, reader}
use agent_runtime_ops.RootAction.Tests.Stores.{verified, initial, claimed_record}
use agent_runtime_ops.RootAction.Tests.Databases.{pending_database, running_database}

abbrev pub a_sealing : Command
a_sealing = seal a_job "event-1" "2026-01-01T00:00:00Z" (some a_submission) default_limits

sealed_here : (execute a_sealing empty_database).1 ≡ pending_database
unfolding execute seal_pending seal_new transaction ◌>>=◌ lift reads pure validate_submission
    instant_of stamp in_ranges is_real enforce_submission_limits open_for_uid open_lineage
    recent_for_uid cutoff_of count_rows any insert_job execute_insert
    insert_record_and_initial_ledger is_digit seconds day_number days_before_year days_before_month
sealed_here = rw (verified, initial) refl

claimed_here : (execute (append a_claim) pending_database).1 ≡ running_database
unfolding execute append_event compare_and_append transaction ◌>>=◌ lift reads pure writes
    read_record fetch_one validate_record safe_id is_digest validate_event_fields is_timestamp stamp
    in_ranges is_real any update_record count_rows update_rows insert_ledger execute_insert
claimed_here = rw claimed_record refl

pub lived_here : run (a_sealing ∷ append a_claim ∷ []) empty_database ≡ running_database
unfolding run
lived_here = ap (λ db. (execute (append a_claim) db).1) sealed_here ∙ claimed_here

ledger_read : read_ledger "job-1" running_database ≡ ok running_database.ledger
unfolding read_ledger fetch_all
ledger_read = refl

posix_one_shot_example :
    (ledger_claims running_database.ledger ≤ 1) × (length running_database.ledger ≤ 4)
posix_one_shot_example =
    posix_one_shot (a_sealing ∷ append a_claim ∷ []) "job-1" running_database.ledger
      (rw lived_here ledger_read)

run-IsTracked_example :
    IsTracked
      (run (a_sealing ∷ append a_claim ∷ []) empty_database).records
      (run (a_sealing ∷ append a_claim ∷ []) empty_database).ledger
run-IsTracked_example =
    run-IsTracked (a_sealing ∷ append a_claim ∷ []) empty_database empty-IsTracked
