-- ===== src/RootAction/State.antt =====
-- The one-shot state machine of a root-action job
-- (opsctl/agent_runtime_ops/root_actions/state.py). Revisions and counters are native numbers, so
-- the type tests and the tests for a negative number of the source hold by typing.
pub mod Spec
pub mod Validity
pub mod Edges
pub mod Agreement
pub mod Initial
pub mod Traces
use agent_runtime_ops.Prelude.{
  ℕ, ◌+◌, String, Bool, true, false, not, ◌&&◌, ◌||◌, Option, none, some, ◌==◌, ◌==ℕ◌, is_some,
  is_none, Result, ok, err, ◌>>=◌, ◌>>◌, guard, raise_if, state_transition_error, replay_blocked,
  stale_revision, assertion_error,
}
use agent_runtime_ops.Text.{safe_id, is_digest, text_lt}
use agent_runtime_ops.Time.{Datetime, is_timestamp}
use agent_runtime_ops.RootAction.Job.{SealedJob}

pub data JobState : Type 0 where
  pending running terminal unknown : JobState

pub data TransitionKind : Type 0 where
  claim_execution close_pending complete_execution mark_unknown reconcile_unknown : TransitionKind

pub data TerminalOutcome : Type 0 where
  succeeded failed rejected expired canceled prestart_failed : TerminalOutcome

pub record JobRecord : Type 0 where
  pub job_id : String
  pub job_digest : String
  pub state : JobState
  pub revision : ℕ
  pub execution_count : ℕ
  pub terminal_outcome : Option TerminalOutcome
  pub reason_code : Option String
  pub last_event_id : String
  pub last_changed_at : String

pub record TransitionEvent : Type 0 where
  pub event_id : String
  pub job_id : String
  pub job_digest : String
  pub expected_revision : ℕ
  pub kind : TransitionKind
  pub occurred_at : String
  pub outcome : Option TerminalOutcome
  pub reason_code : Option String

-- `record.state is JobState.PENDING`, and so on.
abbrev pub is_pending : JobState → Bool
is_pending pending = true
is_pending _ = false

abbrev pub is_running : JobState → Bool
is_running running = true
is_running _ = false

abbrev pub is_unknown : JobState → Bool
is_unknown unknown = true
is_unknown _ = false

-- `outcome in {SUCCEEDED, FAILED}`
abbrev pub is_executed : Option TerminalOutcome → Bool
is_executed (some succeeded) = true
is_executed (some failed) = true
is_executed _ = false

-- `outcome in {REJECTED, EXPIRED, CANCELED, PRESTART_FAILED}`
abbrev pub is_closed : Option TerminalOutcome → Bool
is_closed (some rejected) = true
is_closed (some expired) = true
is_closed (some canceled) = true
is_closed (some prestart_failed) = true
is_closed _ = false

-- `reason is None or _SAFE_ID_RE.fullmatch(reason) is not None`
abbrev pub reason_is_safe : Option String → Bool
reason_is_safe none = true
reason_is_safe (some reason) = safe_id reason

-- The `valid` of `validate_record`: which counter, outcome and reason each state carries.
unfoldable pub shape_valid : JobState → ℕ → Option TerminalOutcome → Option String → Bool
shape_valid pending count outcome reason = count ==ℕ 0 && is_none outcome && is_none reason
shape_valid running count outcome reason = count ==ℕ 1 && is_none outcome && is_none reason
shape_valid unknown count outcome reason = count ==ℕ 1 && is_none outcome && is_some reason
shape_valid terminal count outcome reason =
    is_some outcome
    && is_some reason
    && count ==ℕ (elim (is_executed outcome) [ true ↦ 1 | false ↦ 0 ])

unfoldable pub state_valid : JobRecord → Bool
unfolding shape_valid
state_valid r = shape_valid r.state r.execution_count r.terminal_outcome r.reason_code

safe_reason : Option String → Result String
safe_reason none = err state_transition_error
safe_reason (some reason) = do guard (safe_id reason) state_transition_error; ok reason

unfoldable pub require_reason : TransitionEvent → Result String
unfolding safe_reason
require_reason e = safe_reason e.reason_code

-- The record that `replace` builds in `_next`.
abbrev pub moved :
    JobRecord → TransitionEvent → JobState → ℕ → Option TerminalOutcome → Option String → JobRecord
moved r e state execution_count outcome reason_code = record r {
  state = state;
  revision = r.revision + 1;
  execution_count = execution_count;
  terminal_outcome = outcome;
  reason_code = reason_code;
  last_event_id = e.event_id;
  last_changed_at = e.occurred_at;
}

module _ ⦃datetime : Datetime⦄ where
  unfoldable pub validate_event_fields : String → String → Result (Unit {0})
  validate_event_fields event_id occurred_at = do
    guard (safe_id event_id) state_transition_error
    guard (is_timestamp occurred_at) state_transition_error
    guard (is_some (datetime.strptime occurred_at)) state_transition_error

  unfoldable pub validate_record : JobRecord → Result (Unit {0})
  unfolding state_valid
  validate_record r = do
    guard (safe_id r.job_id && is_digest r.job_digest) state_transition_error
    guard (r.execution_count ==ℕ 0 || r.execution_count ==ℕ 1) state_transition_error
    validate_event_fields r.last_event_id r.last_changed_at
    guard (state_valid r) state_transition_error
    guard (reason_is_safe r.reason_code) state_transition_error

  unfoldable pub initial_record : SealedJob → String → String → Result JobRecord
  initial_record job event_id occurred_at = do
    validate_event_fields event_id occurred_at
    let r : JobRecord = record {
      job_id = job.job_id;
      job_digest = job.job_digest;
      state = pending;
      revision = 0;
      execution_count = 0;
      terminal_outcome = none;
      reason_code = none;
      last_event_id = event_id;
      last_changed_at = occurred_at;
    }
    validate_record r
    ok r

  unfoldable pub next :
      JobRecord
      → TransitionEvent
      → JobState
      → ℕ
      → Option TerminalOutcome
      → Option String
      → Result JobRecord
  next r e state execution_count outcome reason_code = do
    guard (execution_count ==ℕ 0 || execution_count ==ℕ 1) assertion_error
    let updated = moved r e state execution_count outcome reason_code
    validate_record updated
    ok updated

  -- The branches of `apply_transition` on `event.kind`.
  unfoldable pub dispatch : TransitionKind → JobRecord → TransitionEvent → Result JobRecord
  dispatch claim_execution r e = do
    raise_if (not (is_pending r.state) || not (r.execution_count ==ℕ 0)) replay_blocked
    raise_if (is_some e.outcome || is_some e.reason_code) state_transition_error
    next r e running 1 none none
  dispatch close_pending r e = do
    raise_if (not (is_pending r.state)) state_transition_error
    raise_if (not (is_closed e.outcome)) state_transition_error
    reason ← require_reason e
    next r e terminal 0 e.outcome (some reason)
  dispatch complete_execution r e = do
    raise_if (not (is_running r.state) || not (r.execution_count ==ℕ 1)) state_transition_error
    raise_if (not (is_executed e.outcome)) state_transition_error
    reason ← require_reason e
    next r e terminal 1 e.outcome (some reason)
  dispatch mark_unknown r e = do
    raise_if (not (is_running r.state) || not (r.execution_count ==ℕ 1)) state_transition_error
    raise_if (is_some e.outcome) state_transition_error
    reason ← require_reason e
    next r e unknown 1 none (some reason)
  dispatch reconcile_unknown r e = do
    raise_if (not (is_unknown r.state) || not (r.execution_count ==ℕ 1)) state_transition_error
    raise_if (not (is_executed e.outcome)) state_transition_error
    reason ← require_reason e
    next r e terminal 1 e.outcome (some reason)

  -- The tests that `apply_transition` makes for every kind of event.
  unfoldable pub check_event : JobRecord → TransitionEvent → Result (Unit {0})
  check_event r e = do
    validate_record r
    validate_event_fields e.event_id e.occurred_at
    guard (e.job_id == r.job_id && e.job_digest == r.job_digest) state_transition_error
    guard (e.expected_revision ==ℕ r.revision) stale_revision
    raise_if (text_lt e.occurred_at r.last_changed_at) state_transition_error
    raise_if (e.event_id == r.last_event_id) replay_blocked

  unfoldable pub apply_transition : JobRecord → TransitionEvent → Result JobRecord
  apply_transition r e = do check_event r e; dispatch e.kind r e
