-- ===== src/RootAction/Store/Circuit.antt =====
-- The circuit breaker of `seal_with_lineage_admission` of local_fixture.py.
use agent_runtime_ops.Prelude.{
  ◌≡◌, ◌<◌, ◌≤◌, ◌⊎◌, inl, inr, refl, String, Option, some, none, true, false, Result, ok, err,
  arith, Bool-cases, Result-cases, eq_iff, if◌then◌else◌,
}
use agent_runtime_ops.Prelude.Dict.{lookup}
use agent_runtime_ops.Time.{Datetime}
use agent_runtime_ops.RootAction.Job.{SealedJob}
use agent_runtime_ops.RootAction.Json.{Library}
use agent_runtime_ops.RootAction.Receipts.{ReceiptArtifact}
use agent_runtime_ops.RootAction.State.{
  JobRecord, TransitionEvent, apply_transition, pending, terminal, TransitionKind, prestart_failed,
  TerminalOutcome, initial_record,
}
use agent_runtime_ops.RootAction.State.Spec.{target, claimed}
use agent_runtime_ops.RootAction.State.Agreement.{apply_transition_iff}
use agent_runtime_ops.RootAction.State.Initial.{initial_record-IsInitial}
use agent_runtime_ops.RootAction.Admission.{
  LineageFailurePolicy, LineageSummary, SubmissionAdmission, SubmissionMetadata, SubmissionLimits,
}
use agent_runtime_ops.RootAction.Store.{Store, attempt}
use agent_runtime_ops.RootAction.Store.Failures.{Measured, lineage_summary-Measured}
use agent_runtime_ops.RootAction.Store.Lineage.{lineage_summary}
use agent_runtime_ops.RootAction.Store.Sealing.{is_close}
use agent_runtime_ops.RootAction.Store.LineageSealing.{
  seal_with_lineage_admission, admission_checks, close_blocked, admit, with_admitted, is_blocked,
  circuit_event_ok, is_prestart_failed, is_some_reason,
}
use agent_runtime_ops.RootAction.Store.Soundness.Fresh.{admission_checks-Fresh}
use agent_runtime_ops.RootAction.Store.Soundness.Dicts.{lookup-put_self}

-- A job that the lineage's failures did not block: it is pending.
pub record Admitted (p : LineageFailurePolicy) (r : JobRecord) (a : SubmissionAdmission)
    : Type 0 where
  pub allowed : a.allowed ≡ true
  pub no_reason : a.reason_code ≡ none
  pub below : a.summary.technical_failure_count < p.maximum_technical_failures
  pub is_pending : r.state ≡ pending
  pub not_claimed : r.execution_count ≡ 0

-- A job that they blocked: it is closed before its start, for the policy's reason.
pub record Blocked (p : LineageFailurePolicy) (n : ReceiptArtifact) (k : String) (s : Store)
    (r : JobRecord) (a : SubmissionAdmission) : Type 0 where
  pub allowed : a.allowed ≡ false
  pub reason : a.reason_code ≡ some p.circuit_reason_code
  pub reached : p.maximum_technical_failures ≤ a.summary.technical_failure_count
  pub is_closed : r.state ≡ terminal
  pub not_claimed : r.execution_count ≡ 0
  pub outcome : r.terminal_outcome ≡ some prestart_failed
  pub closed_for : r.reason_code ≡ some p.circuit_reason_code
  pub notice : lookup k s.receipts ≡ some n

-- The job was sealed on the summary of its lineage, and the store holds its record.
pub record Decided ⦃datetime : Datetime⦄ (job : SealedJob) (m : SubmissionMetadata)
    (p : LineageFailurePolicy) (s s' : Store) (r : JobRecord) (a : SubmissionAdmission)
    : Type 0 where
  pub measured : lineage_summary s job.lineage_id m.broker_received_at p ≡ ok a.summary
  pub failures : Measured s p job.lineage_id m.broker_received_at a.summary.technical_failure_count
  pub stored : lookup job.job_id s'.records ≡ some r
  pub sealed : lookup job.job_id s'.jobs ≡ some job

pub attempt-eq-ok :
    {A B : Type 0} (s s' : Store) (c : Result A) (k : A → Result B × Store) (b : B)
    → attempt s c k ≡ (ok b, s')
    → (a : A) × (c ≡ ok a) × (k a ≡ (ok b, s'))
attempt-eq-ok s s' (ok a) k b h = (a, refl, h)
attempt-eq-ok s s' (err e) k b h = cc

-- What holds of the parts of a returned pair.
returned :
    (P : JobRecord → SubmissionAdmission → Store → Type 0) (v u : JobRecord)
    (b a : SubmissionAdmission) (t s : Store)
    → P v b t
    → ◌≡◌ {A = Result (JobRecord × SubmissionAdmission) × Store} (ok (v, b), t) (ok (u, a), s)
    → P u a s
returned P v u b a t s h e =
    let p : v ≡ u = cc e in let q : b ≡ a = cc e in let w : t ≡ s = cc e in rw (← p, ← q, ← w) h

closed_prestart :
    (k : TransitionKind) (o : Option TerminalOutcome) (c : Option String) (reason : String)
    → is_close k ≡ true
    → is_prestart_failed o ≡ true
    → is_some_reason c reason ≡ true
    → (target k ≡ terminal) × (claimed k ≡ 0) × (o ≡ some prestart_failed) × (c ≡ some reason)
closed_prestart k o none reason h i j = cc
closed_prestart TransitionKind.close_pending (some prestart_failed) (some c) reason h i j =
    (refl, refl, refl, ground (arith, eq_iff c reason))
closed_prestart k o c reason h i j = cc

module _ ⦃datetime : Datetime⦄ ⦃library : Library⦄ where
  admission_checks-summary :
      (job : SealedJob) (i t : String) (x : TransitionEvent) (n : ReceiptArtifact)
      (m : SubmissionMetadata) (l : SubmissionLimits) (p : LineageFailurePolicy) (s : Store)
      (r : JobRecord) (y : LineageSummary)
      → admission_checks job i t x n m l p s ≡ ok (r, y)
      → (lineage_summary s job.lineage_id m.broker_received_at p ≡ ok y)
        × (is_blocked p y ≡ true → circuit_event_ok job p x ≡ true)
  unfolding admission_checks
  admission_checks-summary job i t x n m l p s r y h = (ground arith, λ b. ground arith)

  -- What a sealing with lineage admission decided, and on what.
  pub record IsDecision (job : SealedJob) (n : ReceiptArtifact) (m : SubmissionMetadata)
      (p : LineageFailurePolicy) (s s' : Store) (r : JobRecord) (a : SubmissionAdmission)
      : Type 0 where
    pub decided : Decided job m p s s' r a
    pub cases : Admitted p r a ⊎ Blocked p n job.job_id s' r a

  -- The record of a blocked job is closed before its start.
  circuit-Closed :
      (job : SealedJob) (x : TransitionEvent) (p : LineageFailurePolicy) (r v : JobRecord)
      → circuit_event_ok job p x ≡ true
      → apply_transition r x ≡ ok v
      → (v.state ≡ terminal)
        × (v.execution_count ≡ 0)
        × (v.terminal_outcome ≡ some prestart_failed)
        × (v.reason_code ≡ some p.circuit_reason_code)
  unfolding circuit_event_ok
  circuit-Closed job x p r v c f =
      let m = ((apply_transition_iff r x v).0 f).result in
      let g =
        closed_prestart x.kind x.outcome x.reason_code p.circuit_reason_code (ground arith)
          (ground arith) (ground arith) in
      rw m g

  blocked-IsDecision :
      (job : SealedJob) (x : TransitionEvent) (n : ReceiptArtifact) (m : SubmissionMetadata)
      (p : LineageFailurePolicy) (s s' : Store) (r u : JobRecord) (y : LineageSummary)
      (a : SubmissionAdmission)
      → lineage_summary s job.lineage_id m.broker_received_at p ≡ ok y
      → circuit_event_ok job p x ≡ true
      → is_blocked p y ≡ true
      → close_blocked job r x n p y (with_admitted s job m r) ≡ (ok (u, a), s')
      → IsDecision job n m p s s' u a
  unfolding close_blocked
  blocked-IsDecision job x n m p s s' r u y a e c b h = elim (Result-cases (apply_transition r x)) [
    | inr (z, f) ↦ ground arith
    | inl (v, f) ↦
        (let (d, k, o, q) = circuit-Closed job x p r v c f in
          returned (λ u a s'. IsDecision job n m p s s' u a) v u _ a _ s'
            (record {
              decided = record {
                measured = e;
                failures = lineage_summary-Measured s job.lineage_id m.broker_received_at p y e;
                stored = lookup-put_self job.job_id v _;
                sealed = lookup-put_self job.job_id job s.jobs;
              };
              cases = inr (record {
                allowed = refl;
                reason = refl;
                reached = ground arith;
                is_closed = d;
                not_claimed = k;
                outcome = o;
                closed_for = q;
                notice = lookup-put_self job.job_id n s.receipts;
              });
            })
            (rw (f, close_blocked) at h))
  ]

  admitted-IsDecision :
      (job : SealedJob) (i t : String) (n : ReceiptArtifact) (m : SubmissionMetadata)
      (p : LineageFailurePolicy) (s s' : Store) (r u : JobRecord) (y : LineageSummary)
      (a : SubmissionAdmission)
      → lineage_summary s job.lineage_id m.broker_received_at p ≡ ok y
      → initial_record job i t ≡ ok r
      → is_blocked p y ≡ false
      → admit job r y (with_admitted s job m r) ≡ (ok (u, a), s')
      → IsDecision job n m p s s' u a
  unfolding initial_record
  admitted-IsDecision job i t n m p s s' r u y a e f b h =
      returned (λ u a s'. IsDecision job n m p s s' u a) r u _ a _ s'
        (record {
          decided = record {
            measured = e;
            failures = lineage_summary-Measured s job.lineage_id m.broker_received_at p y e;
            stored = lookup-put_self job.job_id r s.records;
            sealed = lookup-put_self job.job_id job s.jobs;
          };
          cases = inl (record {
            allowed = refl;
            no_reason = refl;
            below = ground arith;
            is_pending = (initial_record-IsInitial job i t r f).is_pending;
            not_claimed = ground arith;
          });
        })
        h

  -- A sealing with lineage admission that returns has measured the lineage on the store that it
  -- found, where its count of technical failures is the number of the lineage's jobs that were
  -- received in the window and failed, at their start or later, for a reason that the policy lists,
  -- and it has stored the job and the record that it returns. Below the policy's number of
  -- technical failures the job is admitted and pending; from there on it is terminal, closed
  -- before its start with the policy's reason, never claimed, and its notice is stored.
  pub admission_decides :
      (job : SealedJob) (i t : String) (x : TransitionEvent) (n : ReceiptArtifact)
      (m : SubmissionMetadata) (l : SubmissionLimits) (p : LineageFailurePolicy) (s s' : Store)
      (r : JobRecord) (a : SubmissionAdmission)
      → seal_with_lineage_admission job i t x n m l p s ≡ (ok (r, a), s')
      → IsDecision job n m p s s' r a
  unfolding seal_with_lineage_admission
  admission_decides job i t x n m l p s s' r a h =
      let ((q, y), e, f) =
        attempt-eq-ok s s' (admission_checks job i t x n m l p s)
          (λ (q, y).
            let s1 = with_admitted s job m q in
            if is_blocked p y then close_blocked job q x n p y s1 else admit job q y s1)
          (r, a) h in
      let (z, c) = admission_checks-summary job i t x n m l p s q y e in
      elim (Bool-cases (is_blocked p y)) [
        | inl b ↦ blocked-IsDecision job x n m p s s' q r y a z (c b) b (rw b at f)
        | inr b ↦
            admitted-IsDecision job i t n m p s s' q r y a z
              (admission_checks-Fresh job i t x n m l p s q y e).initial b (rw b at f)
      ]
