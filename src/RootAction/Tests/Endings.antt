-- ===== src/RootAction/Tests/Endings.antt =====
-- The theorems on the ledger and the progress of the SQLite store at a job that is sealed and claimed.
use agent_runtime_ops.Prelude.{◌≡◌, ◌↔◌, true, false, refl, [], ◌∷◌, ok}
use agent_runtime_ops.Prelude.Lists.{any}
use agent_runtime_ops.Text.{safe_id, is_digest}
use agent_runtime_ops.Time.{is_timestamp, stamp, in_ranges, is_real}
use agent_runtime_ops.RootAction.State.{
  JobRecord, TransitionEvent, terminal, validate_record, validate_event_fields, apply_transition,
}
use agent_runtime_ops.RootAction.Posix.{empty_database, fetch_one}
use agent_runtime_ops.RootAction.Posix.Reading.{read_record}
use agent_runtime_ops.RootAction.Posix.Transitions.{replayed, append_event}
use agent_runtime_ops.RootAction.Posix.Commands.{append, run}
use agent_runtime_ops.RootAction.Posix.Evolution.{Grows, run-Grows}
use agent_runtime_ops.RootAction.Posix.Progress.{append_event_iff}
use agent_runtime_ops.RootAction.Posix.Ending.{is_entry, open_job_ends}
use agent_runtime_ops.RootAction.Tests.Fixture.{
  a_claim, a_completion, a_running, a_done, calendar, reader,
}
use agent_runtime_ops.RootAction.Tests.Databases.{running_database}
use agent_runtime_ops.RootAction.Tests.Runs.{a_sealing, lived_here}

read_here : read_record "job-1" running_database ≡ ok a_running
unfolding read_record fetch_one validate_record safe_id is_digest validate_event_fields is_timestamp
    stamp in_ranges is_real
read_here = refl

append_event_iff_example :
    ((append_event a_completion (run (a_sealing ∷ append a_claim ∷ []) empty_database)).0
      ≡ ok a_done)
    ↔ ((c : JobRecord) × (read_record "job-1" (run (a_sealing ∷ append a_claim ∷ []) empty_database)
          ≡ ok c)
        × (replayed a_completion (run (a_sealing ∷ append a_claim ∷ []) empty_database) ≡ ok tt)
        × (apply_transition c a_completion ≡ ok a_done))
append_event_iff_example = append_event_iff (a_sealing ∷ append a_claim ∷ []) a_completion a_done

safe_here : safe_id "event-9" ≡ true
unfolding safe_id
safe_here = refl

new_here : any (is_entry "job-1" "event-9") running_database.ledger ≡ false
unfolding any
new_here = refl

open_job_ends_example :
    (e : TransitionEvent) × (u : JobRecord) × (e.event_id ≡ "event-9")
    × (e.job_id ≡ "job-1")
    × ((append_event e (run (a_sealing ∷ append a_claim ∷ []) empty_database)).0 ≡ ok u)
    × (u.state ≡ terminal)
open_job_ends_example =
    open_job_ends (a_sealing ∷ append a_claim ∷ []) "job-1" "event-9" a_running
      (rw lived_here read_here) (λ q. cc) safe_here (rw lived_here new_here)

run-Grows_example : Grows empty_database (run (a_sealing ∷ append a_claim ∷ []) empty_database)
run-Grows_example = run-Grows (a_sealing ∷ append a_claim ∷ []) empty_database
