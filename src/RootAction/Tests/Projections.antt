-- ===== src/RootAction/Tests/Projections.antt =====
-- The theorems of the history projection at a job that is sealed and claimed.
use agent_runtime_ops.Prelude.{◌≡◌, ◌↔◌, refl, some, ok}
use agent_runtime_ops.Prelude.Dict.{lookup}
use agent_runtime_ops.Text.{safe_id, is_digest, text_lt}
use agent_runtime_ops.Time.{is_timestamp, stamp, in_ranges, is_real}
use agent_runtime_ops.RootAction.Job.{SealedJob}
use agent_runtime_ops.RootAction.State.{
  apply_transition, validate_record, check_event, dispatch, next, validate_event_fields,
  initial_record,
}
use agent_runtime_ops.RootAction.Store.{empty_store}
use agent_runtime_ops.RootAction.Store.Commands.{run}
use agent_runtime_ops.RootAction.Projection.{
  history_projection, history_rounds, history_round, next_history_record, first_record,
  later_record, entry_matches, state_eq, outcome_eq,
}
use agent_runtime_ops.RootAction.Projection.Replay.{IsReplay, projection_of, history_projection_iff}
use agent_runtime_ops.RootAction.Projection.Stored.{stored_history_projects}
use agent_runtime_ops.RootAction.Tests.Fixture.{a_job, calendar, reader}
use agent_runtime_ops.RootAction.Tests.Stores.{life, two_lines, two_lines_found}

stored_history_projects_example :
    (job : SealedJob) × (lookup "job-1" (run life empty_store).jobs ≡ some job)
    × (history_projection job two_lines ≡ ok (projection_of job two_lines))
stored_history_projects_example = stored_history_projects life "job-1" two_lines two_lines_found

history_projection_iff_example :
    (history_projection a_job two_lines ≡ ok (projection_of a_job two_lines))
    ↔ (IsReplay a_job two_lines × (projection_of a_job two_lines ≡ projection_of a_job two_lines))
history_projection_iff_example =
    history_projection_iff a_job two_lines (projection_of a_job two_lines)

-- The projection of the two lines, computed.
projected : history_projection a_job two_lines ≡ ok (projection_of a_job two_lines)
unfolding history_projection history_rounds history_round next_history_record first_record
    later_record entry_matches state_eq outcome_eq initial_record apply_transition check_event
    dispatch next validate_record validate_event_fields safe_id is_digest is_timestamp stamp
    in_ranges is_real text_lt
projected = refl
