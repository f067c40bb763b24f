-- ===== src/RootAction/Store/Sealing.antt =====
-- The methods `put_if_absent`, `create_pending` and `seal_pending` of local_fixture.py.
use agent_runtime_ops.Prelude.{
  ◌+◌, String, Bool, true, false, not, ◌||◌, [], ◌∷◌, Option, none, some, ◌==◌, ◌==ℕ◌, Result, ok,
  ◌>>=◌, ◌>>◌, guard, raise_if, storage_conflict,
}
use agent_runtime_ops.Prelude.Dict.{lookup, put, has}
use agent_runtime_ops.Time.{Datetime}
use agent_runtime_ops.RootAction.Job.{SealedJob}
use agent_runtime_ops.RootAction.Json.{Library}
use agent_runtime_ops.RootAction.State.{
  TransitionKind, close_pending, JobRecord, is_pending, initial_record, validate_record,
}
use agent_runtime_ops.RootAction.Admission.{SubmissionMetadata, SubmissionLimits}
use agent_runtime_ops.RootAction.Store.{
  Store, attempt, verify_job, validate_submission, pending_entry,
}
use agent_runtime_ops.RootAction.Store.Limits.{enforce_submission_limits}

abbrev pub is_close : TransitionKind → Bool
is_close close_pending = true
is_close _ = false

-- The submission that `seal_pending` goes on with, where its caller gave one or none.
abbrev pub submission_or_default : String → Option SubmissionMetadata → SubmissionMetadata
submission_or_default occurred_at none = record {
  peer_uid = 0;
  peer_gid = 0;
  peer_pid = 0;
  broker_received_at = occurred_at;
}
submission_or_default occurred_at (some submission) = submission

-- The writes of `seal_pending` under the lock.
abbrev pub with_pending : Store → SealedJob → SubmissionMetadata → JobRecord → Store
with_pending s job submission r = record s {
  jobs = put job.job_id job s.jobs;
  submissions = put job.job_id submission s.submissions;
  records = put job.job_id r s.records;
  sequence = s.sequence + 1;
  ledger = put job.job_id (pending_entry (s.sequence + 1) r ∷ []) s.ledger;
}

module _ ⦃datetime : Datetime⦄ ⦃library : Library⦄ where
  unfoldable pub job_checks : SealedJob → Store → Result (Unit {0})
  job_checks job s = do verify_job job; raise_if (has job.job_id s.jobs) storage_conflict

  abbrev pub with_job : SealedJob → Store → Store
  with_job job s = record s { jobs = put job.job_id job s.jobs }

  unfoldable pub put_if_absent : SealedJob → Store → Result (Unit {0}) × Store
  put_if_absent job s = attempt s (job_checks job s) λ _. (ok tt, with_job job s)

  pub matching_job : Option SealedJob → JobRecord → Bool
  matching_job none r = false
  matching_job (some job) r = job.job_digest == r.job_digest

  unfoldable pub creation_checks : JobRecord → Store → Result (Unit {0})
  unfolding matching_job
  creation_checks r s = do
    validate_record r
    raise_if (not (is_pending r.state) || not (r.revision ==ℕ 0)) storage_conflict
    guard (matching_job (lookup r.job_id s.jobs) r) storage_conflict
    raise_if (has r.job_id s.records) storage_conflict

  abbrev pub with_record : JobRecord → Store → Store
  with_record r s = record s {
    records = put r.job_id r s.records;
    sequence = s.sequence + 1;
    ledger = put r.job_id (pending_entry (s.sequence + 1) r ∷ []) s.ledger;
  }

  unfoldable pub create_pending : JobRecord → Store → Result (Unit {0}) × Store
  create_pending r s = attempt s (creation_checks r s) λ _. (ok tt, with_record r s)

  unfoldable pub sealing_checks :
      SealedJob → String → String → SubmissionMetadata → SubmissionLimits → Store → Result JobRecord
  sealing_checks job event_id occurred_at submission limits s = do
    verify_job job
    r ← initial_record job event_id occurred_at
    validate_submission submission limits
    raise_if (has job.job_id s.jobs || has job.job_id s.records) storage_conflict
    enforce_submission_limits s job submission limits
    ok r

  unfoldable pub seal_pending :
      SealedJob
      → String
      → String
      → SubmissionMetadata
      → SubmissionLimits
      → Store
      → Result JobRecord × Store
  seal_pending job event_id occurred_at submission limits s =
      attempt s (sealing_checks job event_id occurred_at submission limits s)
        λ r. (ok r, with_pending s job submission r)
