-- ===== src/RootAction/Admission.antt =====
-- Submission limits and the technical-failure circuit breaker
-- (opsctl/agent_runtime_ops/root_actions/admission.py, and the metadata, limits and ledger entries
-- of storage.py). The tests that a value is an integer hold by typing.
use agent_runtime_ops.Prelude.{
  ℕ, String, Bool, List, [], ◌∷◌, Option, Result, ok, ◌>>◌, raise_if, value_error, ltb,
}
use agent_runtime_ops.Prelude.Lists.{length}
use agent_runtime_ops.RootAction.State.{JobState, TransitionKind, TerminalOutcome}

abbrev pub technical_failure_reason_codes : List String
technical_failure_reason_codes =
    "handler_contract_failed" ∷ "handler_failed" ∷ "precondition_mismatch"
    ∷ "receipt_publish_failed" ∷ "reconcile_failed" ∷ "worker_crashed" ∷ "worker_lost" ∷ []

abbrev pub circuit_breaker_reason_code : String
circuit_breaker_reason_code = "technical_failure_circuit_open"

pub record LineageFailurePolicy : Type 0 where
  pub window_seconds : ℕ
  pub maximum_technical_failures : ℕ
  pub technical_reason_codes : List String
  pub circuit_reason_code : String

abbrev pub default_failure_policy : LineageFailurePolicy
default_failure_policy = record {
  window_seconds = 86_400;
  maximum_technical_failures = 2;
  technical_reason_codes = technical_failure_reason_codes;
  circuit_reason_code = circuit_breaker_reason_code;
}

-- `LineageFailurePolicy.__post_init__`
unfoldable pub failure_policy_checked : LineageFailurePolicy → Result LineageFailurePolicy
failure_policy_checked p = do
  raise_if (ltb p.window_seconds 1) value_error
  raise_if (ltb p.maximum_technical_failures 1) value_error
  raise_if (ltb (length p.technical_reason_codes) 1) value_error
  ok p

-- `terminal_counts`: a count for each outcome.
pub record OutcomeCounts : Type 0 where
  pub succeeded : ℕ
  pub failed : ℕ
  pub rejected : ℕ
  pub expired : ℕ
  pub canceled : ℕ
  pub prestart_failed : ℕ

pub record LineageSummary : Type 0 where
  pub lineage_id : String
  pub measured_at : String
  pub window_seconds : ℕ
  pub submission_count : ℕ
  pub terminal_counts : OutcomeCounts
  pub technical_failure_count : ℕ

pub record SubmissionAdmission : Type 0 where
  pub allowed : Bool
  pub reason_code : Option String
  pub summary : LineageSummary

pub record SubmissionMetadata : Type 0 where
  pub peer_uid : ℕ
  pub peer_gid : ℕ
  pub peer_pid : ℕ
  pub broker_received_at : String

pub record SubmissionLimits : Type 0 where
  pub max_open_per_uid : ℕ
  pub max_open_per_lineage : ℕ
  pub max_jobs_per_uid_window : ℕ
  pub window_seconds : ℕ

abbrev pub default_limits : SubmissionLimits
default_limits = record {
  max_open_per_uid = 8;
  max_open_per_lineage = 1;
  max_jobs_per_uid_window = 32;
  window_seconds = 3600;
}

-- The `action` of a ledger entry: `sealed_pending`, or the value of a transition's kind.
pub data Action : Type 0 where
  sealed_pending : Action
  transition : TransitionKind → Action

pub record LedgerEntry : Type 0 where
  pub sequence : ℕ
  pub action : Action
  pub prior_state : Option JobState
  pub next_state : JobState
  pub record_revision : ℕ
  pub event_id : String
  pub occurred_at : String
  pub job_id : String
  pub job_digest : String
  pub terminal_outcome : Option TerminalOutcome
  pub reason_code : Option String
