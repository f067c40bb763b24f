-- ===== src/RootAction/State/Traces.antt =====
-- What holds of a job over every sequence of events that state.py accepts.
use agent_runtime_ops.Prelude.{
  ℕ, ◌+◌, ◌≤◌, ◌<◌, ◌≡◌, ◌≢◌, refl, ap, inl, inr, false, Option, some, String, List, [], ◌∷◌, arith,
  Result, ok, err, ◌>>=◌, >>=-eq-ok, Option-cases, eq_iff, stale_revision,
}
use native.Mathlib.Decide.{dec_le}
use agent_runtime_ops.Prelude.Lists.{length}
use agent_runtime_ops.Text.{text_lt}
use agent_runtime_ops.Time.{Datetime}
use agent_runtime_ops.Time.Order.{text_lt-iff_earlier}
use agent_runtime_ops.RootAction.State.{
  JobState, pending, running, terminal, unknown, TransitionKind, TerminalOutcome, claim_execution,
  close_pending, complete_execution, mark_unknown, reconcile_unknown, JobRecord, TransitionEvent,
  apply_transition, check_event,
}
use agent_runtime_ops.RootAction.State.Spec.{HasShape, HasEventFields, IsValid, target, claimed}
use agent_runtime_ops.RootAction.State.Edges.{Facts, Facts-Edge}
use agent_runtime_ops.RootAction.State.Validity.{validate_record_iff, validate_event_fields_iff}
use agent_runtime_ops.RootAction.State.Agreement.{apply_transition_iff, moved-IsValid}

-- 1 for a claim, 0 for any other event.
abbrev pub is_claim : TransitionKind → ℕ
is_claim claim_execution = 1
is_claim _ = 0

-- The claims of execution among the events.
unfoldable pub claims : List TransitionEvent → ℕ
claims [] = 0
claims (e ∷ es) = is_claim e.kind + claims es

-- The events that a job in the state can still take.
abbrev pub remaining : JobState → ℕ
remaining pending = 3
remaining running = 2
remaining unknown = 1
remaining terminal = 0

-- An edge uses up one of the remaining events, and counts a claim.
edge_counts :
    (s : JobState) (k : TransitionKind) (o : Option TerminalOutcome) (c : Option String) (n : ℕ)
    (po : Option TerminalOutcome) (pc : Option String)
    → Facts k s o c
    → HasShape s n po pc
    → (remaining (target k) < remaining s) × (claimed k ≡ n + is_claim k)
edge_counts s claim_execution o c n po pc f h = ground arith
edge_counts s close_pending o c n po pc f h = ground arith
edge_counts s complete_execution o c n po pc f h = ground arith
edge_counts s mark_unknown o c n po pc f h = ground arith
edge_counts s reconcile_unknown o c n po pc f h = ground arith

pub count-le_one :
    (s : JobState) (n : ℕ) (o : Option TerminalOutcome) (c : Option String)
    → HasShape s n o c
    → n ≤ 1
count-le_one pending n o c h = ground arith
count-le_one running n o c h = ground arith
count-le_one unknown n o c h = ground arith
count-le_one terminal n o c h = ground arith

module _ ⦃datetime : Datetime⦄ where
  -- The events of a ledger, applied in their order.
  unfoldable pub replay : JobRecord → List TransitionEvent → Result JobRecord
  replay r [] = ok r
  replay r (e ∷ es) = apply_transition r e >>= λ u. replay u es

  pub record Progress (r : JobRecord) (e : TransitionEvent) (u : JobRecord) : Type 0 where
    pub was_valid : IsValid r
    pub valid : IsValid u
    pub same_id : u.job_id ≡ r.job_id
    pub same_digest : u.job_digest ≡ r.job_digest
    pub revision : u.revision ≡ r.revision + 1
    pub count : u.execution_count ≡ r.execution_count + is_claim e.kind
    pub closer : remaining u.state < remaining r.state
    pub last_event : u.last_event_id ≡ e.event_id
    pub last_change : u.last_changed_at ≡ e.occurred_at
    pub in_order : text_lt u.last_changed_at r.last_changed_at ≡ false
    pub expected : e.expected_revision ≡ r.revision

  pub apply_transition-Progress :
      (r : JobRecord) (e : TransitionEvent) (u : JobRecord)
      → apply_transition r e ≡ ok u
      → Progress r e u
  apply_transition-Progress r e u h =
      let a = (apply_transition_iff r e u).0 h in
      let (closer, count) =
        edge_counts r.state e.kind e.outcome e.reason_code r.execution_count r.terminal_outcome
          r.reason_code (Facts-Edge a.edge) a.before.shape in
      rw a.result record {
        was_valid = a.before;
        valid = moved-IsValid r e a.before a.event_fields a.edge;
        same_id = refl;
        same_digest = refl;
        revision = refl;
        count = count;
        closer = closer;
        last_event = refl;
        last_change = refl;
        in_order = a.in_order;
        expected = a.current;
      }

  -- Every accepted sequence of events is at most as long as what remains for the job's state, and
  -- the revision counts the events.
  pub replay_bounded :
      (r u : JobRecord) (es : List TransitionEvent)
      → replay r es ≡ ok u
      → (length es + remaining u.state ≤ remaining r.state) × (u.revision ≡ r.revision + length es)
  unfolding replay
  replay_bounded r u [] h = ground arith
  replay_bounded r u (e ∷ es) h =
      let (v, p, q) = >>=-eq-ok (apply_transition r e) (λ v. replay v es) h in
      omega (arith, apply_transition-Progress r e v p, replay_bounded v u es q)

  -- The execution count of a valid job counts the claims among the events that it accepted, and
  -- there is at most one in its life.
  pub one_shot :
      (r u : JobRecord) (es : List TransitionEvent)
      → IsValid r
      → replay r es ≡ ok u
      → (u.execution_count ≡ r.execution_count + claims es) × (u.execution_count ≤ 1)
  unfolding replay claims
  one_shot r u [] v h =
      ground
        (arith, count-le_one r.state r.execution_count r.terminal_outcome r.reason_code v.shape)
  one_shot r u (e ∷ es) v h =
      let (w, p, q) = >>=-eq-ok (apply_transition r e) (λ w. replay w es) h in
      let g = apply_transition-Progress r e w p in omega (arith, g, one_shot w u es g.valid q)

  -- Of two events that expect one revision, the first to be accepted makes the other stale: any
  -- well-formed event of the job with that expectation is refused with `StaleRevision`.
  pub apply_transition-stale :
      (r u : JobRecord) (e f : TransitionEvent)
      → apply_transition r e ≡ ok u
      → HasEventFields f.event_id f.occurred_at
      → f.job_id ≡ r.job_id
      → f.job_digest ≡ r.job_digest
      → f.expected_revision ≡ e.expected_revision
      → apply_transition u f ≡ err stale_revision
  unfolding apply_transition check_event
  apply_transition-stale r u e f h v i d x =
      let g = apply_transition-Progress r e u h in
      ground (
        arith,
        g,
        (validate_record_iff u).1 g.valid,
        (validate_event_fields_iff f.event_id f.occurred_at).1 v,
        eq_iff f.job_id u.job_id,
        eq_iff f.job_digest u.job_digest,
      )

  -- A terminal record takes no event.
  terminal_absorbs :
      (r u : JobRecord) (e : TransitionEvent) → r.state ≡ terminal → apply_transition r e ≢ ok u
  terminal_absorbs r u e t h =
      let g = apply_transition-Progress r e u h in omega (arith, g.closer, ap remaining t)

  step_later :
      (r u : JobRecord) (e : TransitionEvent) (a b : ℕ)
      → Progress r e u
      → datetime.strptime r.last_changed_at ≡ some a
      → datetime.strptime u.last_changed_at ≡ some b
      → a ≤ b
  step_later r u e a b g p q =
      let later =
        text_lt-iff_earlier u.last_changed_at r.last_changed_at b a g.valid.last_event.has_format
          g.was_valid.last_event.has_format q p in
      elim (dec_le a b) [
        | yes l ↦ l
        | no n ↦ (let x = later.1 (omega arith) in ground (arith, g.in_order))
      ]

  -- The instant of the last change never falls over accepted events.
  pub chronological :
      (r u : JobRecord) (es : List TransitionEvent) (a b : ℕ)
      → IsValid r
      → replay r es ≡ ok u
      → datetime.strptime r.last_changed_at ≡ some a
      → datetime.strptime u.last_changed_at ≡ some b
      → a ≤ b
  unfolding replay
  chronological r u [] a b v h p q = ground arith
  chronological r u (e ∷ es) a b v h p q =
      let (w, s, t) = >>=-eq-ok (apply_transition r e) (λ w. replay w es) h in
      let g = apply_transition-Progress r e w s in
      elim (Option-cases (datetime.strptime w.last_changed_at)) [
        | inl n ↦ ground (arith, g.valid.last_event.is_real)
        | inr (c, m) ↦
            omega (arith, step_later r w e a c g p m, chronological w u es c b g.valid t m q)
      ]
