-- ===== src/RootAction/Projection.antt =====
-- The read-only view of a ledger
-- (`history_projection` of opsctl/agent_runtime_ops/root_actions/projection.py).
mod Entries
mod Rounds
pub mod Replay
pub mod Stored
use agent_runtime_ops.Prelude.{
  ℕ, String, Bool, true, false, ◌&&◌, List, [], ◌∷◌, ◌++◌, Option, none, some, ◌==◌, ltb, ◌==ℕ◌,
  is_none, Error, Result, ok, err, ◌>>=◌, ◌>>◌, guard, raise_if, raise_as, is_value_error,
  is_value_or_key_error, projection_error, value_error,
}
use agent_runtime_ops.Time.{Datetime}
use agent_runtime_ops.RootAction.Job.{SealedJob}
use agent_runtime_ops.RootAction.State.{
  JobState, pending, running, terminal, unknown, TransitionKind, TerminalOutcome, succeeded, failed,
  rejected, expired, canceled, prestart_failed, JobRecord, TransitionEvent, is_pending,
  apply_transition, initial_record,
}
use agent_runtime_ops.RootAction.Admission.{Action, sealed_pending, transition, LedgerEntry}

-- An entry of `events`.
pub record HistoryEvent : Type 0 where
  pub sequence : ℕ
  pub action : Action
  pub prior_state : Option JobState
  pub next_state : JobState
  pub record_revision : ℕ
  pub event_id : String
  pub occurred_at : String
  pub terminal_outcome : Option TerminalOutcome
  pub reason_code : Option String

-- The projection: the schema is a constant.
pub record HistoryProjection : Type 0 where
  pub job_id : String
  pub job_digest : String
  pub events : List HistoryEvent

-- `==` on states, outcomes and reasons that may be `None`.
unfoldable pub state_eq : JobState → JobState → Bool
state_eq pending pending = true
state_eq running running = true
state_eq terminal terminal = true
state_eq unknown unknown = true
state_eq _ _ = false

unfoldable pub outcome_eq : TerminalOutcome → TerminalOutcome → Bool
outcome_eq succeeded succeeded = true
outcome_eq failed failed = true
outcome_eq rejected rejected = true
outcome_eq expired expired = true
outcome_eq canceled canceled = true
outcome_eq prestart_failed prestart_failed = true
outcome_eq _ _ = false

abbrev pub option_eq : {A : Type 0} → (A → A → Bool) → Option A → Option A → Bool
option_eq eq none none = true
option_eq eq (some a) (some b) = eq a b
option_eq eq _ _ = false

abbrev pub is_sealed_pending : Action → Bool
is_sealed_pending sealed_pending = true
is_sealed_pending _ = false

-- `TransitionKind(entry.action)`
abbrev pub transition_kind : Action → Result TransitionKind
transition_kind sealed_pending = err value_error
transition_kind (transition kind) = ok kind

-- The event that an entry records.
abbrev pub entry_event : JobRecord → LedgerEntry → TransitionKind → TransitionEvent
entry_event prior entry kind = record {
  event_id = entry.event_id;
  job_id = entry.job_id;
  job_digest = entry.job_digest;
  expected_revision = prior.revision;
  kind = kind;
  occurred_at = entry.occurred_at;
  outcome = entry.terminal_outcome;
  reason_code = entry.reason_code;
}

abbrev pub history_event : LedgerEntry → HistoryEvent
history_event entry = record {
  sequence = entry.sequence;
  action = entry.action;
  prior_state = entry.prior_state;
  next_state = entry.next_state;
  record_revision = entry.record_revision;
  event_id = entry.event_id;
  occurred_at = entry.occurred_at;
  terminal_outcome = entry.terminal_outcome;
  reason_code = entry.reason_code;
}

-- What an entry says of the record before and the record after it.
unfoldable pub entry_matches : LedgerEntry → JobRecord → JobRecord → Bool
unfolding state_eq outcome_eq
entry_matches entry prior next_record =
    option_eq state_eq entry.prior_state (some prior.state)
    && state_eq entry.next_state next_record.state
    && entry.record_revision ==ℕ next_record.revision
    && option_eq outcome_eq entry.terminal_outcome next_record.terminal_outcome
    && option_eq ◌==◌ entry.reason_code next_record.reason_code

-- The variables of the loop.
pub record HistoryLoop : Type 0 where
  pub prior_sequence : ℕ
  pub prior_record : Option JobRecord
  pub projected : List HistoryEvent

abbrev pub history_start : HistoryLoop
history_start = record { prior_sequence = 0; prior_record = none; projected = [] }

module _ ⦃datetime : Datetime⦄ where
  -- The first entry, and each later one.
  unfoldable pub first_record : SealedJob → LedgerEntry → Result JobRecord
  first_record job entry = do
    guard
        (is_sealed_pending entry.action
          && is_none entry.prior_state
          && is_pending entry.next_state
          && entry.record_revision ==ℕ 0
          && is_none entry.terminal_outcome
          && is_none entry.reason_code)
        projection_error
    raise_as is_value_error projection_error (initial_record job entry.event_id entry.occurred_at)

  unfoldable pub later_record : JobRecord → LedgerEntry → Result JobRecord
  later_record prior entry = do
    next_record ← raise_as is_value_or_key_error projection_error (
        transition_kind entry.action >>= λ kind.
        apply_transition prior (entry_event prior entry kind))
    guard (entry_matches entry prior next_record) projection_error
    ok next_record

  unfoldable pub next_history_record : SealedJob → Option JobRecord → LedgerEntry → Result JobRecord
  next_history_record job none entry = first_record job entry
  next_history_record job (some prior) entry = later_record prior entry

  -- One round of the loop.
  unfoldable pub history_round : SealedJob → HistoryLoop → LedgerEntry → Result HistoryLoop
  history_round job loop entry = do
    guard (entry.job_id == job.job_id && entry.job_digest == job.job_digest) projection_error
    guard (ltb loop.prior_sequence entry.sequence) projection_error
    r ← next_history_record job loop.prior_record entry
    ok (record {
      prior_sequence = entry.sequence;
      prior_record = some r;
      projected = loop.projected ++ history_event entry ∷ [];
    })

  unfoldable pub history_rounds : SealedJob → HistoryLoop → List LedgerEntry → Result HistoryLoop
  history_rounds job loop [] = ok loop
  history_rounds job loop (entry ∷ entries) =
      history_round job loop entry >>= λ next. history_rounds job next entries

  abbrev is_empty : List LedgerEntry → Bool
  is_empty [] = true
  is_empty (entry ∷ entries) = false

  unfoldable pub history_projection : SealedJob → List LedgerEntry → Result HistoryProjection
  history_projection job entries = do
    raise_if (is_empty entries) projection_error
    loop ← history_rounds job history_start entries
    ok (record { job_id = job.job_id; job_digest = job.job_digest; events = loop.projected })
