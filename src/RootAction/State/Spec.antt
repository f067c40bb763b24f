-- ===== src/RootAction/State/Spec.antt =====
-- The state machine of a job as a transition diagram, independent of the order in which the code
-- of state.py makes its tests.
use agent_runtime_ops.Prelude.{ℕ, ◌≡◌, ◌≢◌, ◌⊎◌, String, true, false, Option, none, some, is_some}
use agent_runtime_ops.Text.{safe_id, is_digest, text_lt}
use agent_runtime_ops.Time.{Datetime, is_timestamp}
use agent_runtime_ops.RootAction.State.{
  JobState, pending, running, terminal, unknown, TransitionKind, claim_execution, close_pending,
  complete_execution, mark_unknown, reconcile_unknown, TerminalOutcome, JobRecord, TransitionEvent,
  is_executed, is_closed, moved,
}

-- What a record in each state carries: how often execution was claimed, the outcome, the reason.
abbrev pub HasShape : JobState → ℕ → Option TerminalOutcome → Option String → Type 0
HasShape pending n outcome reason = (n ≡ 0) × (outcome ≡ none) × (reason ≡ none)
HasShape running n outcome reason = (n ≡ 1) × (outcome ≡ none) × (reason ≡ none)
HasShape unknown n outcome reason =
    (n ≡ 1) × (outcome ≡ none) × (s : String) × (reason ≡ some s) × (safe_id s ≡ true)
HasShape terminal n outcome reason =
    ((n ≡ 1) × (is_executed outcome ≡ true) ⊎ (n ≡ 0) × (is_closed outcome ≡ true))
    × (s : String) × (reason ≡ some s)
    × (safe_id s ≡ true)

-- The edges of the diagram, with the outcome and the reason that an event on the edge carries.
pub data Edge : JobState → TransitionKind → Option TerminalOutcome → Option String → Type 0 where
  claim : Edge pending claim_execution none none
  close :
      {o : TerminalOutcome} {reason : String}
      → is_closed (some o) ≡ true
      → safe_id reason ≡ true
      → Edge pending close_pending (some o) (some reason)
  complete :
      {o : TerminalOutcome} {reason : String}
      → is_executed (some o) ≡ true
      → safe_id reason ≡ true
      → Edge running complete_execution (some o) (some reason)
  lose : {reason : String} → safe_id reason ≡ true → Edge running mark_unknown none (some reason)
  reconcile :
      {o : TerminalOutcome} {reason : String}
      → is_executed (some o) ≡ true
      → safe_id reason ≡ true
      → Edge unknown reconcile_unknown (some o) (some reason)

-- The state that an edge leads to.
abbrev pub target : TransitionKind → JobState
target claim_execution = running
target close_pending = terminal
target complete_execution = terminal
target mark_unknown = unknown
target reconcile_unknown = terminal

-- The execution count behind an edge.
abbrev pub claimed : TransitionKind → ℕ
claimed close_pending = 0
claimed _ = 1

module _ ⦃datetime : Datetime⦄ where
  pub record HasEventFields (event_id occurred_at : String) : Type 0 where
    pub id_is_safe : safe_id event_id ≡ true
    pub has_format : is_timestamp occurred_at ≡ true
    pub is_real : is_some (datetime.strptime occurred_at) ≡ true

  pub record IsValid (r : JobRecord) : Type 0 where
    pub id_is_safe : safe_id r.job_id ≡ true
    pub digest_has_format : is_digest r.job_digest ≡ true
    pub last_event : HasEventFields r.last_event_id r.last_changed_at
    pub shape : HasShape r.state r.execution_count r.terminal_outcome r.reason_code

  -- When an event moves a valid record, and to which.
  pub record Accepts (r : JobRecord) (e : TransitionEvent) (u : JobRecord) : Type 0 where
    pub before : IsValid r
    pub event_fields : HasEventFields e.event_id e.occurred_at
    pub same_id : e.job_id ≡ r.job_id
    pub same_digest : e.job_digest ≡ r.job_digest
    pub current : e.expected_revision ≡ r.revision
    pub in_order : text_lt e.occurred_at r.last_changed_at ≡ false
    pub fresh : e.event_id ≢ r.last_event_id
    pub edge : Edge r.state e.kind e.outcome e.reason_code
    pub result : u ≡ moved r e (target e.kind) (claimed e.kind) e.outcome e.reason_code
