-- ===== src/RootAction/State/Validity.antt =====
-- The validation functions of state.py against the diagram's notion of a valid record.
use agent_runtime_ops.Prelude.{
  ℕ, ◌≡◌, refl, ◌↔◌, true, Option, none, some, String, arith, ok, ◌==ℕ◌, ◌||◌,
}
use agent_runtime_ops.Time.{Datetime}
use agent_runtime_ops.RootAction.State.{
  JobState, pending, running, terminal, unknown, TerminalOutcome, JobRecord, validate_event_fields,
  validate_record, shape_valid, reason_is_safe,
}
use agent_runtime_ops.RootAction.State.Spec.{HasShape, HasEventFields, IsValid}

module _ ⦃datetime : Datetime⦄ where
  pub validate_event_fields_iff :
      (event_id occurred_at : String)
      → (validate_event_fields event_id occurred_at ≡ ok tt) ↔ HasEventFields event_id occurred_at
  unfolding validate_event_fields
  validate_event_fields_iff event_id occurred_at = (λ h. ground arith, λ h. ground arith)

  pub shape_to :
      (s : JobState) (n : ℕ) (o : Option TerminalOutcome) (c : Option String)
      → shape_valid s n o c ≡ true
      → reason_is_safe c ≡ true
      → HasShape s n o c
  unfolding shape_valid
  shape_to pending n o c h k = ground arith
  shape_to running n o c h k = ground arith
  shape_to unknown n o none h k = ground arith
  shape_to unknown n o (some c) h k = (ground arith, ground arith, c, refl, k)
  shape_to terminal n o none h k = ground arith
  shape_to terminal n o (some c) h k = (ground arith, c, refl, k)

  shape_from :
      (s : JobState) (n : ℕ) (o : Option TerminalOutcome) (c : Option String)
      → HasShape s n o c
      → (shape_valid s n o c ≡ true) × (reason_is_safe c ≡ true)
  unfolding shape_valid
  shape_from pending n o c h = ground arith
  shape_from running n o c h = ground arith
  shape_from unknown n o c (p, q, s, e, k) = ground arith
  shape_from terminal n o c (p, s, e, k) = ground arith

  pub count_small :
      (s : JobState) (n : ℕ) (o : Option TerminalOutcome) (c : Option String)
      → HasShape s n o c
      → (n ==ℕ 0 || n ==ℕ 1) ≡ true
  count_small pending n o c h = ground arith
  count_small running n o c h = ground arith
  count_small unknown n o c h = ground arith
  count_small terminal n o c h = ground arith

  -- `validate_record` accepts exactly the records that the diagram calls valid.
  pub validate_record_iff : (r : JobRecord) → (validate_record r ≡ ok tt) ↔ IsValid r
  unfolding validate_record
  validate_record_iff r = (λ h. valid_to h, λ h. valid_from h)
    where
      valid_to : validate_record r ≡ ok tt → IsValid r
      valid_to h = ground (
        arith,
        (validate_event_fields_iff r.last_event_id r.last_changed_at).0,
        shape_to r.state r.execution_count r.terminal_outcome r.reason_code,
      )

      valid_from : IsValid r → validate_record r ≡ ok tt
      valid_from h = ground (
        arith,
        (validate_event_fields_iff r.last_event_id r.last_changed_at).1 h.last_event,
        shape_from r.state r.execution_count r.terminal_outcome r.reason_code h.shape,
        count_small r.state r.execution_count r.terminal_outcome r.reason_code h.shape,
      )
