-- ===== src/RootAction/Posix/Limits.antt =====
-- `_enforce_submission_limits` and `_lineage_summary` of posix_store.py. SQLite compares the texts
-- of timestamps, by code points, with the text of the cutoff.
use agent_runtime_ops.Prelude.{
  ℕ, ◌-◌, String, Bool, true, false, not, ◌&&◌, List, [], ◌∷◌, Option, none, some, ◌==◌, ◌==ℕ◌, leb,
  ltb, Result, ok, ◌>>=◌, ◌>>◌, raise_if, storage_conflict, value_error, overflow_error,
}
use agent_runtime_ops.Text.{text_lt}
use agent_runtime_ops.Time.{Datetime}
use agent_runtime_ops.RootAction.Job.{SealedJob}
use agent_runtime_ops.RootAction.State.{JobRecord}
use agent_runtime_ops.RootAction.Admission.{
  LineageFailurePolicy, LineageSummary, SubmissionMetadata, SubmissionLimits,
}
use agent_runtime_ops.RootAction.Store.{instant_of, is_open}
use agent_runtime_ops.RootAction.Store.Lineage.{Tally, no_tally, tally_record}
use agent_runtime_ops.RootAction.Posix.{JobRow, Database, fetch_one, count_rows}
use agent_runtime_ops.RootAction.Posix.Reading.{record_for}

-- `JOIN root_action_records r ON r.job_id=j.job_id`: the key of the records joins a job with at
-- most one.
abbrev pub joined : Database → JobRow → Option JobRecord
joined db row = fetch_one (record_for row.job.job_id) db.records

-- `r.state IN ('pending', 'running', 'unknown')`, false where the join has no row
abbrev pub open_record : Option JobRecord → Bool
open_record none = false
open_record (some r) = is_open r.state

unfoldable pub open_for_uid : ℕ → Database → ℕ
open_for_uid uid db =
    count_rows (λ (row : JobRow). row.submission.peer_uid ==ℕ uid && open_record (joined db row))
      db.jobs

unfoldable pub open_lineage : String → Database → ℕ
open_lineage lineage_id db =
    count_rows (λ (row : JobRow). row.job.lineage_id == lineage_id && open_record (joined db row))
      db.jobs

-- `broker_received_at>=cutoff`
abbrev pub since : String → JobRow → Bool
since cutoff row = not (text_lt row.submission.broker_received_at cutoff)

unfoldable pub recent_for_uid : ℕ → String → Database → ℕ
recent_for_uid uid cutoff db =
    count_rows (λ (row : JobRow). row.submission.peer_uid ==ℕ uid && since cutoff row) db.jobs

-- A row of the join that is counted if the query's condition holds of it.
abbrev pub tally_joined : LineageFailurePolicy → Bool → Option JobRecord → Tally → Tally
tally_joined policy selected none t = t
tally_joined policy true (some r) t = tally_record policy r t
tally_joined policy false (some r) t = t

-- The loop over the rows of a lineage that were received between the cutoff and the measurement.
unfoldable pub tally_rows :
    Database → LineageFailurePolicy → String → String → String → List JobRow → Tally → Tally
unfolding tally_record
tally_rows db policy lineage_id cutoff measured_at [] t = t
tally_rows db policy lineage_id cutoff measured_at (row ∷ rows) t =
    let selected =
      row.job.lineage_id == lineage_id
      && since cutoff row
      && not (text_lt measured_at row.submission.broker_received_at) in
    tally_rows db policy lineage_id cutoff measured_at rows
      (tally_joined policy selected (joined db row) t)

module _ ⦃datetime : Datetime⦄ where
  -- `(now - timedelta(seconds=window)).strftime(...)`
  unfoldable pub cutoff_of : ℕ → ℕ → Result String
  cutoff_of now window = do
    raise_if (ltb now window) overflow_error
    ok (datetime.strftime (now - window))

  unfoldable pub enforce_submission_limits :
      SealedJob → SubmissionMetadata → SubmissionLimits → Database → Result (Unit {0})
  enforce_submission_limits job submission limits db = do
    raise_if (leb limits.max_open_per_uid (open_for_uid submission.peer_uid db)) storage_conflict
    raise_if (leb limits.max_open_per_lineage (open_lineage job.lineage_id db)) storage_conflict
    now ← instant_of value_error submission.broker_received_at
    cutoff ← cutoff_of now limits.window_seconds
    raise_if (leb limits.max_jobs_per_uid_window (recent_for_uid submission.peer_uid cutoff db))
        storage_conflict

  unfoldable pub lineage_summary :
      String → String → LineageFailurePolicy → Database → Result LineageSummary
  lineage_summary lineage_id measured_at policy db = do
    now ← instant_of value_error measured_at
    cutoff ← cutoff_of now policy.window_seconds
    let t = tally_rows db policy lineage_id cutoff measured_at db.jobs no_tally
    ok (record {
      lineage_id = lineage_id;
      measured_at = measured_at;
      window_seconds = policy.window_seconds;
      submission_count = t.submission_count;
      terminal_counts = t.terminal_counts;
      technical_failure_count = t.technical_failure_count;
    })
