-- ===== src/RootAction/Store/Limits.antt =====
-- `_enforce_submission_limits` of local_fixture.py.
use agent_runtime_ops.Prelude.{
  ℕ, ◌+◌, String, [], ◌∷◌, ◌==◌, ◌==ℕ◌, leb, if◌then◌else◌, Result, ok, ◌>>=◌, ◌>>◌, raise_if,
  storage_conflict, key_error, value_error,
}
use agent_runtime_ops.Prelude.Dict.{Dict}
use agent_runtime_ops.Time.{Datetime}
use agent_runtime_ops.RootAction.Job.{SealedJob}
use agent_runtime_ops.RootAction.State.{JobRecord}
use agent_runtime_ops.RootAction.Admission.{SubmissionMetadata, SubmissionLimits}
use agent_runtime_ops.RootAction.Store.{Store, find, instant_of, is_open, count_if}

-- `open_for_uid`: the record is read only where the uid is the same.
unfoldable pub open_for_uid : Dict JobRecord → ℕ → Dict SubmissionMetadata → Result ℕ
open_for_uid records uid [] = ok 0
open_for_uid records uid ((job_id, metadata) ∷ rest) = open_for_uid records uid rest >>= λ n.
    if metadata.peer_uid ==ℕ uid
    then (find key_error job_id records >>= λ r. ok (count_if (is_open r.state) n))
    else ok n

-- `open_lineage`: the record is read only where the lineage is the same.
unfoldable pub open_lineage :
    Dict SealedJob → Dict JobRecord → String → Dict SubmissionMetadata → Result ℕ
open_lineage jobs records lineage_id [] = ok 0
open_lineage jobs records lineage_id ((job_id, metadata) ∷ rest) =
    open_lineage jobs records lineage_id rest >>= λ n. find key_error job_id jobs >>= λ job.
    if job.lineage_id == lineage_id
    then (find key_error job_id records >>= λ r. ok (count_if (is_open r.state) n))
    else ok n

module _ ⦃datetime : Datetime⦄ where
  -- `recent_for_uid`: submissions received no more than a window ago. The cutoff `now - window` is
  -- moved to the other side of the comparison.
  unfoldable pub recent_for_uid : ℕ → ℕ → ℕ → Dict SubmissionMetadata → Result ℕ
  recent_for_uid now window uid [] = ok 0
  recent_for_uid now window uid ((job_id, metadata) ∷ rest) =
      recent_for_uid now window uid rest >>= λ n.
      if metadata.peer_uid ==ℕ uid
      then (instant_of value_error metadata.broker_received_at >>= λ received.
          ok (count_if (leb now (received + window)) n))
      else ok n

  unfoldable pub enforce_submission_limits :
      Store → SealedJob → SubmissionMetadata → SubmissionLimits → Result (Unit {0})
  enforce_submission_limits s job submission limits = do
    now ← instant_of value_error submission.broker_received_at
    n ← open_for_uid s.records submission.peer_uid s.submissions
    raise_if (leb limits.max_open_per_uid n) storage_conflict
    m ← open_lineage s.jobs s.records job.lineage_id s.submissions
    raise_if (leb limits.max_open_per_lineage m) storage_conflict
    k ← recent_for_uid now limits.window_seconds submission.peer_uid s.submissions
    raise_if (leb limits.max_jobs_per_uid_window k) storage_conflict
