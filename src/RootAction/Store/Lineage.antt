-- ===== src/RootAction/Store/Lineage.antt =====
-- `_lineage_summary_locked` of local_fixture.py: what became of a lineage's recent submissions.
use agent_runtime_ops.Prelude.{
  ℕ, suc, ◌+◌, String, Bool, true, false, not, ◌&&◌, ◌||◌, [], ◌∷◌, Option, none, some, ◌==◌, ltb,
  if◌then◌else◌, Result, ok, ◌>>=◌, key_error, value_error,
}
use agent_runtime_ops.Prelude.Dict.{Dict}
use agent_runtime_ops.Time.{Datetime}
use agent_runtime_ops.RootAction.Job.{SealedJob}
use agent_runtime_ops.RootAction.Json.{contains}
use agent_runtime_ops.RootAction.State.{
  TerminalOutcome, succeeded, failed, rejected, expired, canceled, prestart_failed, JobRecord,
}
use agent_runtime_ops.RootAction.Admission.{LineageFailurePolicy, OutcomeCounts, LineageSummary}
use agent_runtime_ops.RootAction.Store.{Store, find, instant_of, count_if}

-- The counters of the loop.
pub record Tally : Type 0 where
  pub submission_count : ℕ
  pub terminal_counts : OutcomeCounts
  pub technical_failure_count : ℕ

abbrev pub no_tally : Tally
no_tally = record {
  submission_count = 0;
  terminal_counts = record {
    succeeded = 0;
    failed = 0;
    rejected = 0;
    expired = 0;
    canceled = 0;
    prestart_failed = 0;
  };
  technical_failure_count = 0;
}

-- `terminal_counts[outcome] += 1`
unfoldable pub count_outcome : TerminalOutcome → OutcomeCounts → OutcomeCounts
count_outcome succeeded c = record c { succeeded = suc c.succeeded }
count_outcome failed c = record c { failed = suc c.failed }
count_outcome rejected c = record c { rejected = suc c.rejected }
count_outcome expired c = record c { expired = suc c.expired }
count_outcome canceled c = record c { canceled = suc c.canceled }
count_outcome prestart_failed c = record c { prestart_failed = suc c.prestart_failed }

-- `outcome in {"failed", "prestart_failed"}`
abbrev pub may_be_technical : TerminalOutcome → Bool
may_be_technical failed = true
may_be_technical prestart_failed = true
may_be_technical _ = false

-- `reason_code in policy.technical_reason_codes`
abbrev pub is_technical : LineageFailurePolicy → Option String → Bool
is_technical policy none = false
is_technical policy (some reason) = contains reason policy.technical_reason_codes

-- Whether a record counts as a technical failure.
abbrev pub technical_failure : LineageFailurePolicy → JobRecord → Option TerminalOutcome → Bool
technical_failure policy r none = false
technical_failure policy r (some outcome) =
    may_be_technical outcome && is_technical policy r.reason_code

-- A submission of the lineage within the window.
unfoldable pub tally_record : LineageFailurePolicy → JobRecord → Tally → Tally
unfolding count_outcome
tally_record policy r t = record {
  submission_count = suc t.submission_count;
  terminal_counts = elim r.terminal_outcome [
    | none ↦ t.terminal_counts
    | some outcome ↦ count_outcome outcome t.terminal_counts
  ];
  technical_failure_count =
      count_if (technical_failure policy r r.terminal_outcome) t.technical_failure_count;
}

module _ ⦃datetime : Datetime⦄ where
  -- One round of the loop over the jobs. The cutoff `now - window` is moved to the other side of
  -- the comparison.
  unfoldable pub tally_job :
      Store → LineageFailurePolicy → String → ℕ → String → SealedJob → Tally → Result Tally
  unfolding tally_record
  tally_job s policy lineage_id now job_id job t = do
    metadata ← find key_error job_id s.submissions
    received ← instant_of value_error metadata.broker_received_at
    if not (job.lineage_id == lineage_id)
          || ltb (received + policy.window_seconds) now
          || ltb now received
        then ok t
        else (find key_error job_id s.records >>= λ r. ok (tally_record policy r t))

  unfoldable pub tally_jobs :
      Store → LineageFailurePolicy → String → ℕ → Dict SealedJob → Tally → Result Tally
  unfolding tally_job
  tally_jobs s policy lineage_id now [] t = ok t
  tally_jobs s policy lineage_id now ((job_id, job) ∷ jobs) t = do
    t' ← tally_job s policy lineage_id now job_id job t
    tally_jobs s policy lineage_id now jobs t'

  unfoldable pub lineage_summary :
      Store → String → String → LineageFailurePolicy → Result LineageSummary
  unfolding tally_jobs
  lineage_summary s lineage_id measured_at policy = do
    now ← instant_of value_error measured_at
    t ← tally_jobs s policy lineage_id now s.jobs no_tally
    ok (record {
      lineage_id = lineage_id;
      measured_at = measured_at;
      window_seconds = policy.window_seconds;
      submission_count = t.submission_count;
      terminal_counts = t.terminal_counts;
      technical_failure_count = t.technical_failure_count;
    })
