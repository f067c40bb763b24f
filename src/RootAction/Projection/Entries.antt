-- ===== src/RootAction/Projection/Entries.antt =====
-- An entry of a ledger, and the event that `history_projection` of projection.py reads back from it.
use agent_runtime_ops.Prelude.{
  ℕ, ◌≡◌, refl, ap, ◌↔◌, Bool, true, Option, none, some, arith, ok, eq_iff, ◌==◌,
}
use agent_runtime_ops.Time.{Datetime}
use agent_runtime_ops.RootAction.Job.{SealedJob}
use agent_runtime_ops.RootAction.State.{
  JobState, pending, JobRecord, TransitionEvent, TransitionKind, TerminalOutcome, apply_transition,
  initial_record,
}
use agent_runtime_ops.RootAction.State.Spec.{IsValid, HasShape}
use agent_runtime_ops.RootAction.State.Agreement.{apply_transition_iff}
use agent_runtime_ops.RootAction.State.Validity.{validate_record_iff, validate_event_fields_iff}
use agent_runtime_ops.RootAction.Admission.{transition, LedgerEntry}
use agent_runtime_ops.RootAction.Store.{transition_entry}
use agent_runtime_ops.RootAction.Projection.{
  state_eq, outcome_eq, option_eq, entry_event, entry_matches, later_record,
}

state_eq_iff : (a b : JobState) → (state_eq a b ≡ true) ↔ (a ≡ b)
unfolding state_eq
state_eq_iff a b = (λ h. ground arith, λ h. ground arith)

outcome_eq_iff : (a b : TerminalOutcome) → (outcome_eq a b ≡ true) ↔ (a ≡ b)
unfolding outcome_eq
outcome_eq_iff a b = (λ h. ground arith, λ h. ground arith)

option_eq_iff :
    {A : Type 0} (eq : A → A → Bool)
    → ((a b : A) → (eq a b ≡ true) ↔ (a ≡ b))
    → (a b : Option A) → (option_eq eq a b ≡ true) ↔ (a ≡ b)
option_eq_iff eq h none none = (λ e. refl, λ e. refl)
option_eq_iff eq h none (some b) = (λ e. cc, λ e. cc)
option_eq_iff eq h (some a) none = (λ e. cc, λ e. cc)
option_eq_iff eq h (some a) (some b) = (λ e. ap some ((h a b).0 e), λ e. (h a b).1 (cc))

module _ ⦃datetime : Datetime⦄ where
  -- A pending record at revision 0 is the initial record of its last event.
  pub initial_record_self :
      (job : SealedJob) (r : JobRecord)
      → IsValid r
      → r.state ≡ pending
      → r.revision ≡ 0
      → r.job_id ≡ job.job_id
      → r.job_digest ≡ job.job_digest
      → initial_record job r.last_event_id r.last_changed_at ≡ ok r
  unfolding initial_record
  initial_record_self job r v p z i d =
      let h : HasShape pending r.execution_count r.terminal_outcome r.reason_code =
        rw p at v.shape in
      ground (
        arith,
        h,
        (validate_event_fields_iff r.last_event_id r.last_changed_at).1 v.last_event,
        (validate_record_iff r).1 v,
      )

  entry_matches-transition_entry :
      (n : ℕ) (r u : JobRecord) (e : TransitionEvent)
      → entry_matches (transition_entry n r e u) r u ≡ true
  unfolding entry_matches
  entry_matches-transition_entry n r u e = ground (
    arith,
    (state_eq_iff r.state r.state).1 refl,
    (state_eq_iff u.state u.state).1 refl,
    (option_eq_iff outcome_eq outcome_eq_iff u.terminal_outcome u.terminal_outcome).1 refl,
    (option_eq_iff ◌==◌ eq_iff u.reason_code u.reason_code).1 refl,
  )

  pub entry_matches-eq :
      (x : LedgerEntry) (r u : JobRecord) (k : TransitionKind)
      → x.action ≡ transition k
      → x.job_id ≡ r.job_id
      → x.job_digest ≡ r.job_digest
      → entry_matches x r u ≡ true
      → x ≡ transition_entry x.sequence r (entry_event r x k) u
  unfolding entry_matches
  entry_matches-eq x r u k a i d h = ground (
    arith,
    (option_eq_iff state_eq state_eq_iff x.prior_state (some r.state)).0,
    (state_eq_iff x.next_state u.state).0,
    (option_eq_iff outcome_eq outcome_eq_iff x.terminal_outcome u.terminal_outcome).0,
    (option_eq_iff ◌==◌ eq_iff x.reason_code u.reason_code).0,
  )

  -- The event that is read back from the entry of a transition is the one that made it.
  entry_event-transition_entry :
      (n : ℕ) (r u : JobRecord) (e : TransitionEvent)
      → apply_transition r e ≡ ok u
      → entry_event r (transition_entry n r e u) e.kind ≡ e
  entry_event-transition_entry n r u e h =
      let a = (apply_transition_iff r e u).0 h in ground (arith, a.current, a.result)

  pub later_record-transition_entry :
      (n : ℕ) (r u : JobRecord) (e : TransitionEvent)
      → apply_transition r e ≡ ok u
      → later_record r (transition_entry n r e u) ≡ ok u
  unfolding later_record
  later_record-transition_entry n r u e h =
      rw (entry_event-transition_entry n r u e h, h, entry_matches-transition_entry n r u e) refl
