-- ===== src/RootAction/Broker/Recovered.antt =====
-- The submission of a job that was sealed before (`_recover_idempotent` of
-- opsctl/agent_runtime_ops/root_actions/broker.py), and why a fresh job is never recovered.
use agent_runtime_ops.Prelude.{
  ◌≡◌, refl, ◌∙◌, ap, String, true, [], ◌∷◌, none, some, Result, ok, err, arith, eq_iff,
  storage_conflict, storage_not_found, Error, Option-cases, Bool-cases, Result-cases, ℕ, Option,
  inl, inr, ◌≢◌,
}
use agent_runtime_ops.Prelude.Dict.{lookup}
use agent_runtime_ops.Time.{Datetime}
use agent_runtime_ops.RootAction.Job.{Bytes, SealedJob}
use agent_runtime_ops.RootAction.Json.{Library}
use agent_runtime_ops.RootAction.Receipts.{ReceiptArtifact}
use agent_runtime_ops.RootAction.State.{
  JobRecord, JobState, TerminalOutcome, TransitionEvent, TransitionKind, apply_transition,
  check_event, dispatch, next, require_reason, validate_record, validate_event_fields,
}
use agent_runtime_ops.RootAction.Admission.{
  LineageFailurePolicy, LineageSummary, SubmissionAdmission, SubmissionMetadata, SubmissionLimits,
}
use agent_runtime_ops.RootAction.Store.{Store, attempt, bytes_eq, job_eq}
use agent_runtime_ops.RootAction.Store.LineageSealing.{
  seal_with_lineage_admission, admission_checks, close_blocked, with_admitted, is_blocked,
}
use agent_runtime_ops.RootAction.Store.Rejection.{seal_rejected}
use agent_runtime_ops.RootAction.Store.Transitions.{read_sealed, read_record, submission_metadata}
use agent_runtime_ops.RootAction.Store.Atomicity.{attempt-err}
use agent_runtime_ops.RootAction.Execution.Policies.{int_eq-lem}
use agent_runtime_ops.RootAction.Submission.{BrokerPeerIdentity}
use agent_runtime_ops.RootAction.Broker.{recover_idempotent, as_sealed, as_admitted}
use agent_runtime_ops.RootAction.Broker.Reached.{as_sealed-store, as_admitted-store}
use agent_runtime_ops.RootAction.Broker.Outcomes.{IsRecovered}

bytes_eq-lem : (a b : Bytes) → bytes_eq a b ≡ true → a ≡ b
unfolding bytes_eq
bytes_eq-lem [] [] h = refl
bytes_eq-lem (x ∷ xs) (y ∷ ys) h = ground (arith, bytes_eq-lem xs ys)
bytes_eq-lem [] (y ∷ ys) h = cc
bytes_eq-lem (x ∷ xs) [] h = cc

-- The comparison of frozen dataclasses tells equal jobs.
job_eq-lem : (a b : SealedJob) → job_eq a b ≡ true → a ≡ b
unfolding job_eq
job_eq-lem a b h = ground (
  arith,
  eq_iff a.job_id b.job_id,
  eq_iff a.job_digest b.job_digest,
  eq_iff a.operation_id b.operation_id,
  eq_iff a.request_id b.request_id,
  eq_iff a.lineage_id b.lineage_id,
  eq_iff a.reply_target b.reply_target,
  eq_iff a.submitted_at b.submitted_at,
  int_eq-lem a.operation_version b.operation_version,
  bytes_eq-lem a.canonical_manifest b.canonical_manifest,
)

attempt-unwritten :
    {A B : Type 0} (s : Store) (c : Result A) (k : A → Result B × Store) (x : Error)
    → ((a : A) → (k a).0 ≢ err x)
    → (attempt s c k).0 ≡ err x
    → (attempt s c k).1 ≡ s
attempt-unwritten s (ok a) k x n h = elim (n a h) [ ]
attempt-unwritten s (err e) k x n h = refl

as_sealed-err : (x : Result JobRecord × Store) (e : Error) → (as_sealed x).0 ≡ err e → x.0 ≡ err e
as_sealed-err (ok r, s) e h = cc
as_sealed-err (err z, s) e h = cc

as_admitted-err :
    (x : Result (JobRecord × SubmissionAdmission) × Store) (e : Error)
    → (as_admitted x).0 ≡ err e
    → x.0 ≡ err e
as_admitted-err (ok (r, a), s) e h = cc
as_admitted-err (err z, s) e h = cc

pub recover_idempotent-IsRecovered :
    ⦃library : Library⦄ (job : SealedJob) (peer : BrokerPeerIdentity) (s : Store) (r : JobRecord)
    → recover_idempotent job peer s ≡ ok r
    → IsRecovered job peer s s r
unfolding recover_idempotent read_sealed submission_metadata read_record
recover_idempotent-IsRecovered job peer s r h = elim (Option-cases (lookup job.job_id s.jobs)) [
  | inl n ↦ ground arith
  | inr (j, l) ↦ elim (Option-cases (lookup job.job_id s.submissions)) [
    | inl n ↦ ground arith
    | inr (m, k) ↦ record {
      unchanged = refl;
      sealed = (l ∙ ap some (job_eq-lem j job (ground arith)));
      metadata = m;
      submitted = k;
      same_user = ground arith;
      same_group = ground arith;
      stored = ground arith;
    }
  ]
]

pub read_sealed-missing :
    (k : String) (s : Store) → read_sealed k s ≡ err storage_not_found → lookup k s.jobs ≡ none
unfolding read_sealed
read_sealed-missing k s h = elim (Option-cases (lookup k s.jobs)) [
  | inl n ↦ n
  | inr (j, l) ↦ ground arith
]

recover_idempotent-unsealed :
    ⦃library : Library⦄ (job : SealedJob) (peer : BrokerPeerIdentity) (s : Store)
    → lookup job.job_id s.jobs ≡ none
    → recover_idempotent job peer s ≡ err storage_not_found
unfolding recover_idempotent read_sealed
recover_idempotent-unsealed job peer s h = ground arith

module _ ⦃datetime : Datetime⦄ where
  check_event-no_conflict :
      (r : JobRecord) (e : TransitionEvent) → check_event r e ≢ err storage_conflict
  unfolding check_event validate_record validate_event_fields
  check_event-no_conflict r e h = ground arith

  next-no_conflict :
      (r : JobRecord) (e : TransitionEvent) (s : JobState) (n : ℕ) (o : Option TerminalOutcome)
      (c : Option String)
      → next r e s n o c ≢ err storage_conflict
  unfolding next validate_record validate_event_fields
  next-no_conflict r e s n o c h = ground arith

  require_reason-no_conflict : (e : TransitionEvent) → require_reason e ≢ err storage_conflict
  unfolding require_reason
  require_reason-no_conflict e h = ground arith

  dispatch-no_conflict :
      (k : TransitionKind) (r : JobRecord) (e : TransitionEvent)
      → dispatch k r e ≢ err storage_conflict
  unfolding dispatch
  dispatch-no_conflict TransitionKind.claim_execution r e h = grind (arith, next-no_conflict)
  dispatch-no_conflict TransitionKind.close_pending r e h =
      grind (arith, next-no_conflict, require_reason-no_conflict)
  dispatch-no_conflict TransitionKind.complete_execution r e h =
      grind (arith, next-no_conflict, require_reason-no_conflict)
  dispatch-no_conflict TransitionKind.mark_unknown r e h =
      grind (arith, next-no_conflict, require_reason-no_conflict)
  dispatch-no_conflict TransitionKind.reconcile_unknown r e h =
      grind (arith, next-no_conflict, require_reason-no_conflict)

  apply_transition-no_conflict :
      (r : JobRecord) (e : TransitionEvent) → apply_transition r e ≢ err storage_conflict
  unfolding apply_transition
  apply_transition-no_conflict r e h =
      ground (arith, check_event-no_conflict r e, dispatch-no_conflict e.kind r e)

module _ ⦃datetime : Datetime⦄ ⦃library : Library⦄ where
  close_blocked-no_conflict :
      (job : SealedJob) (r : JobRecord) (e : TransitionEvent) (n : ReceiptArtifact)
      (p : LineageFailurePolicy) (y : LineageSummary) (s : Store)
      → (close_blocked job r e n p y s).0 ≢ err storage_conflict
  unfolding close_blocked
  close_blocked-no_conflict job r e n p y s h = elim (Result-cases (apply_transition r e)) [
    | inl (v, f) ↦ cc (rw (f, close_blocked) at h)
    | inr (x, f) ↦ apply_transition-no_conflict r e (f ∙ cc (rw (f, close_blocked) at h))
  ]

  -- A sealing that raises a conflict has written nothing.
  seal_with_lineage_admission-conflict :
      (job : SealedJob) (i o : String) (e : TransitionEvent) (n : ReceiptArtifact)
      (m : SubmissionMetadata) (l : SubmissionLimits) (p : LineageFailurePolicy) (s : Store)
      → (seal_with_lineage_admission job i o e n m l p s).0 ≡ err storage_conflict
      → (seal_with_lineage_admission job i o e n m l p s).1 ≡ s
  unfolding seal_with_lineage_admission
  seal_with_lineage_admission-conflict job i o e n m l p s h =
      attempt-unwritten s (admission_checks job i o e n m l p s) _ storage_conflict
        (λ (r, y) q. elim (Bool-cases (is_blocked p y)) [
          | inl b ↦ close_blocked-no_conflict job r e n p y (with_admitted s job m r) (rw b at q)
          | inr b ↦ cc (rw b at q)
        ])
        h

  -- The sealing of a fresh job that raises a conflict leaves no job to recover.
  pub rejection-unrecovered :
      (job : SealedJob) (peer : BrokerPeerIdentity) (i o : String) (e : TransitionEvent)
      (n : ReceiptArtifact) (m : SubmissionMetadata) (l : SubmissionLimits) (s : Store)
      → lookup job.job_id s.jobs ≡ none
      → let x = as_sealed (seal_rejected job i o e n m l s) in
        x.0 ≡ err storage_conflict → recover_idempotent job peer x.1 ≡ err storage_not_found
  rejection-unrecovered job peer i o e n m l s f h =
      let x = seal_rejected job i o e n m l s in
      let q : x.1 ≡ s =
        unfold seal_rejected in
        attempt-err s _ _ _ storage_conflict (as_sealed-err x storage_conflict h) in
      rw (as_sealed-store x ∙ q) (recover_idempotent-unsealed job peer s f)

  pub admission-unrecovered :
      (job : SealedJob) (peer : BrokerPeerIdentity) (i o : String) (e : TransitionEvent)
      (n : ReceiptArtifact) (m : SubmissionMetadata) (l : SubmissionLimits)
      (p : LineageFailurePolicy) (s : Store)
      → lookup job.job_id s.jobs ≡ none
      → let x = as_admitted (seal_with_lineage_admission job i o e n m l p s) in
        x.0 ≡ err storage_conflict → recover_idempotent job peer x.1 ≡ err storage_not_found
  admission-unrecovered job peer i o e n m l p s f h =
      let x = seal_with_lineage_admission job i o e n m l p s in
      rw
        (as_admitted-store x
          ∙ seal_with_lineage_admission-conflict job i o e n m l p s
              (as_admitted-err x storage_conflict h))
        (recover_idempotent-unsealed job peer s f)
