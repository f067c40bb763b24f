-- ===== src/RootAction/State/Agreement.antt =====
-- The code of state.py agrees with the diagram of Spec.
use agent_runtime_ops.Prelude.{
  ℕ, ◌≡◌, refl, ◌↔◌, ◌≢◌, inl, inr, true, false, Option, none, some, String, eq_iff, arith, ok,
  Result-cases, >>=-eq-ok,
}
use agent_runtime_ops.Text.{safe_id, text_lt}
use agent_runtime_ops.Time.{Datetime}
use agent_runtime_ops.RootAction.State.{
  JobState, running, terminal, unknown, TransitionKind, claim_execution, close_pending,
  complete_execution, mark_unknown, reconcile_unknown, TerminalOutcome, JobRecord, TransitionEvent,
  moved, next, require_reason, dispatch, check_event, apply_transition,
}
use agent_runtime_ops.RootAction.State.Spec.{
  HasShape, HasEventFields, IsValid, Edge, claim, close, complete, lose, reconcile, target, claimed,
  Accepts,
}
use agent_runtime_ops.RootAction.State.Validity.{
  validate_event_fields_iff, validate_record_iff, count_small,
}
use agent_runtime_ops.RootAction.State.Edges.{
  Edge-claim, Edge-close, Edge-complete, Edge-lose, Edge-reconcile, Facts, Facts-Edge,
}

module _ ⦃datetime : Datetime⦄ where
  -- What `check_event` tests, apart from the fields.
  record Matches (r : JobRecord) (e : TransitionEvent) : Type 0 where
    before : IsValid r
    event_fields : HasEventFields e.event_id e.occurred_at
    same_id : e.job_id ≡ r.job_id
    same_digest : e.job_digest ≡ r.job_digest
    current : e.expected_revision ≡ r.revision
    in_order : text_lt e.occurred_at r.last_changed_at ≡ false
    fresh : e.event_id ≢ r.last_event_id

  check_event_to : (r : JobRecord) (e : TransitionEvent) → check_event r e ≡ ok tt → Matches r e
  unfolding check_event
  check_event_to r e h = ground (
    arith,
    (validate_record_iff r).0,
    (validate_event_fields_iff e.event_id e.occurred_at).0,
    eq_iff e.job_id r.job_id,
    eq_iff e.job_digest r.job_digest,
    eq_iff e.event_id r.last_event_id,
  )

  check_event_from : (r : JobRecord) (e : TransitionEvent) → Matches r e → check_event r e ≡ ok tt
  unfolding check_event
  check_event_from r e h = ground (
    arith,
    (validate_record_iff r).1,
    (validate_event_fields_iff e.event_id e.occurred_at).1,
    eq_iff e.job_id r.job_id,
    eq_iff e.job_digest r.job_digest,
    eq_iff e.event_id r.last_event_id,
  )

  next_to :
      (r : JobRecord) (e : TransitionEvent) (s : JobState) (n : ℕ) (o : Option TerminalOutcome)
      (c : Option String) (u : JobRecord)
      → next r e s n o c ≡ ok u
      → u ≡ moved r e s n o c
  unfolding next
  next_to r e s n o c u h = ground arith

  require_reason_to :
      (e : TransitionEvent) (x : String)
      → require_reason e ≡ ok x
      → (e.reason_code ≡ some x) × (safe_id x ≡ true)
  unfolding require_reason
  require_reason_to e x h = ground arith

  dispatch_to :
      (k : TransitionKind) (r : JobRecord) (e : TransitionEvent) (u : JobRecord)
      → dispatch k r e ≡ ok u
      → Edge r.state k e.outcome e.reason_code
        × (u ≡ moved r e (target k) (claimed k) e.outcome e.reason_code)
  unfolding dispatch
  dispatch_to claim_execution r e u h = (
    Edge-claim r.state e.outcome e.reason_code (ground arith) (ground arith) (ground arith),
    ground (arith, next_to r e running 1 none none u),
  )
  dispatch_to close_pending r e u h = elim (Result-cases (require_reason e)) [
    | inl (x, p) ↦ (
      rw (require_reason_to e x p).0 (
          Edge-close r.state e.outcome x (ground arith) (ground arith) (require_reason_to e x p).1),
      ground (arith, next_to r e terminal 0 e.outcome (some x) u, require_reason_to e x p),
    )
    | inr (x, p) ↦ ground arith
  ]
  dispatch_to complete_execution r e u h = elim (Result-cases (require_reason e)) [
    | inl (x, p) ↦ (
      rw (require_reason_to e x p).0 (
          Edge-complete r.state e.outcome x (ground arith) (ground arith)
            (require_reason_to e x p).1),
      ground (arith, next_to r e terminal 1 e.outcome (some x) u, require_reason_to e x p),
    )
    | inr (x, p) ↦ ground arith
  ]
  dispatch_to mark_unknown r e u h = elim (Result-cases (require_reason e)) [
    | inl (x, p) ↦ (
      rw (require_reason_to e x p).0
          (Edge-lose r.state e.outcome x (ground arith) (ground arith) (require_reason_to e x p).1),
      ground (arith, next_to r e unknown 1 none (some x) u, require_reason_to e x p),
    )
    | inr (x, p) ↦ ground arith
  ]
  dispatch_to reconcile_unknown r e u h = elim (Result-cases (require_reason e)) [
    | inl (x, p) ↦ (
      rw (require_reason_to e x p).0 (
          Edge-reconcile r.state e.outcome x (ground arith) (ground arith)
            (require_reason_to e x p).1),
      ground (arith, next_to r e terminal 1 e.outcome (some x) u, require_reason_to e x p),
    )
    | inr (x, p) ↦ ground arith
  ]

  -- A moved record along an edge is valid again, so the code's own validation of it never fails.
  shape_of_Edge :
      (s : JobState) (k : TransitionKind) (o : Option TerminalOutcome) (c : Option String)
      → Edge s k o c
      → HasShape (target k) (claimed k) o c
  shape_of_Edge s k o c claim = (refl, refl, refl)
  shape_of_Edge s k o c (close {reason = x} p q) = (ground arith, x, refl, q)
  shape_of_Edge s k o c (complete {reason = x} p q) = (ground arith, x, refl, q)
  shape_of_Edge s k o c (lose {reason = x} q) = (refl, refl, x, refl, q)
  shape_of_Edge s k o c (reconcile {reason = x} p q) = (ground arith, x, refl, q)

  pub moved-IsValid :
      (r : JobRecord) (e : TransitionEvent)
      → IsValid r
      → HasEventFields e.event_id e.occurred_at
      → Edge r.state e.kind e.outcome e.reason_code
      → IsValid (moved r e (target e.kind) (claimed e.kind) e.outcome e.reason_code)
  moved-IsValid r e v f d = record {
    id_is_safe = v.id_is_safe;
    digest_has_format = v.digest_has_format;
    last_event = f;
    shape = shape_of_Edge r.state e.kind e.outcome e.reason_code d;
  }

  next_from :
      (r : JobRecord) (e : TransitionEvent) (s : JobState) (n : ℕ) (o : Option TerminalOutcome)
      (c : Option String)
      → IsValid (moved r e s n o c)
      → next r e s n o c ≡ ok (moved r e s n o c)
  unfolding next
  next_from r e s n o c v =
      ground (arith, count_small s n o c v.shape, (validate_record_iff (moved r e s n o c)).1 v)

  dispatch_from :
      (k : TransitionKind) (r : JobRecord) (e : TransitionEvent)
      → HasShape r.state r.execution_count r.terminal_outcome r.reason_code
      → Facts k r.state e.outcome e.reason_code
      → next r e (target k) (claimed k) e.outcome e.reason_code
        ≡ ok (moved r e (target k) (claimed k) e.outcome e.reason_code)
      → dispatch k r e ≡ ok (moved r e (target k) (claimed k) e.outcome e.reason_code)
  unfolding dispatch require_reason
  dispatch_from claim_execution r e h (p, o, c) q = ground arith
  dispatch_from close_pending r e h (p, o, x, c, y) q = ground arith
  dispatch_from complete_execution r e h (p, o, x, c, y) q = ground arith
  dispatch_from mark_unknown r e h (p, o, x, c, y) q = ground arith
  dispatch_from reconcile_unknown r e h (p, o, x, c, y) q = ground arith

  -- `apply_transition` returns a record exactly where the diagram has a move, and then the record
  -- of that move: no other test of the code ever refuses, and no assertion is reached.
  pub apply_transition_iff :
      (r : JobRecord) (e : TransitionEvent) (u : JobRecord)
      → (apply_transition r e ≡ ok u) ↔ Accepts r e u
  unfolding apply_transition
  apply_transition_iff r e u = (λ h. accepts_of h, λ h. applies_of h)
    where
      accepts_of : apply_transition r e ≡ ok u → Accepts r e u
      accepts_of h =
          let (a, c, d) = >>=-eq-ok (check_event r e) (λ _. dispatch e.kind r e) h in
          let m = check_event_to r e c in
          let (edge, result) = dispatch_to e.kind r e u d in
          record {
            before = m.before;
            event_fields = m.event_fields;
            same_id = m.same_id;
            same_digest = m.same_digest;
            current = m.current;
            in_order = m.in_order;
            fresh = m.fresh;
            edge = edge;
            result = result;
          }

      applies_of : Accepts r e u → apply_transition r e ≡ ok u
      applies_of h =
          let m : Matches r e = record {
            before = h.before;
            event_fields = h.event_fields;
            same_id = h.same_id;
            same_digest = h.same_digest;
            current = h.current;
            in_order = h.in_order;
            fresh = h.fresh;
          } in
          rw h.result (
            rw (check_event_from r e m) (
              dispatch_from e.kind r e h.before.shape (Facts-Edge h.edge) (
                next_from r e (target e.kind) (claimed e.kind) e.outcome e.reason_code
                  (moved-IsValid r e h.before h.event_fields h.edge))))
