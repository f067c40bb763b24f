-- ===== src/RootAction/Broker/Branches.antt =====
-- What the branches of a submission in broker.py leave: a disabled and an enabled operation, a claim
-- and its dispatch.
use agent_runtime_ops.Prelude.{
  ℕ, ◌≡◌, inl, inr, String, true, false, ◌&&◌, none, some, Result, ok, arith, Bool-cases,
}
use agent_runtime_ops.Prelude.Dict.{lookup}
use agent_runtime_ops.Time.{Datetime}
use agent_runtime_ops.RootAction.Job.{SealedJob}
use agent_runtime_ops.RootAction.Json.{Library}
use agent_runtime_ops.RootAction.Receipts.{ReceiptArtifact, seal_receipt}
use agent_runtime_ops.RootAction.State.{JobRecord, rejected, prestart_failed}
use agent_runtime_ops.RootAction.Admission.{SubmissionAdmission, SubmissionMetadata}
use agent_runtime_ops.RootAction.Store.{Store}
use agent_runtime_ops.RootAction.Store.Transitions.{compare_and_append}
use agent_runtime_ops.RootAction.Store.Circuit.{IsDecision, attempt-eq-ok, admission_decides}
use agent_runtime_ops.RootAction.Submission.{BrokerPeerIdentity}
use agent_runtime_ops.RootAction.Execution.{ExecutionPolicy, is_enabled}
use agent_runtime_ops.RootAction.Broker.{
  Broker, SourceEvent, closing_event, claiming_event, notice_value, Sealing, sealed,
  recover_idempotent, seal_disabled, seal_enabled, after_dispatch, auto_claim_and_dispatch,
  after_sealing,
}
use agent_runtime_ops.RootAction.Broker.Steps.{
  or_recovered-ok, as_sealed-ok, as_admitted-ok, seal_rejected-closes, claim-runs, after_claim-ok,
  claim_and_dispatch-ok,
}
use agent_runtime_ops.RootAction.Broker.Recovered.{rejection-unrecovered, admission-unrecovered}
use agent_runtime_ops.RootAction.Broker.Outcomes.{IsRejected, IsDispatched, IsDecided}

module _ ⦃datetime : Datetime⦄ ⦃library : Library⦄ where
  pub disabled-decides :
      (broker : Broker) (events : ℕ → SourceEvent) (job : SealedJob) (peer : BrokerPeerIdentity)
      (m : SubmissionMetadata) (policy : ExecutionPolicy) (s t : Store) (y : Sealing)
      → is_enabled policy.availability ≡ false
      → lookup job.job_id s.jobs ≡ none
      → seal_disabled broker events job peer m policy s ≡ (ok y, t)
      → (r : JobRecord) × (y ≡ sealed r none) × IsRejected policy job t r
  unfolding seal_disabled
  disabled-decides broker events job peer m policy s t y d new h =
      let (i, o) = events 0 in
      let close = closing_event job (events 1) rejected policy.reason_code in
      let limits = broker.submission_policy.limits in
      let (n, e, f) =
        attempt-eq-ok s t
          (seal_receipt (library.dumps_plain (notice_value job "rejected" policy.reason_code))) _ y
          h in
      let g =
        or_recovered-ok (recover_idempotent job peer) _ y t
          (rejection-unrecovered job peer i o close n m limits s new) f in
      let (r, k, l) = as_sealed-ok _ y t g in
      let (a, b, c, j, q) =
        seal_rejected-closes job i o (events 1) policy.reason_code n m limits s t r k in
      (
        r,
        l,
        record {
          unavailable = d;
          stored = a;
          is_closed = b;
          outcome = c;
          reason = j;
          not_claimed = q;
        },
      )

  pub enabled-decides :
      (broker : Broker) (events : ℕ → SourceEvent) (job : SealedJob) (peer : BrokerPeerIdentity)
      (m : SubmissionMetadata) (s t : Store) (y : Sealing)
      → lookup job.job_id s.jobs ≡ none
      → seal_enabled broker events job peer m s ≡ (ok y, t)
      → (n : ReceiptArtifact) × (r : JobRecord) × (a : SubmissionAdmission) × (y
          ≡ sealed r (some a))
        × IsDecision job n m broker.lineage_failure_policy s t r a
  unfolding seal_enabled
  enabled-decides broker events job peer m s t y new h =
      let (i, o) = events 0 in
      let p = broker.lineage_failure_policy in
      let reason = some p.circuit_reason_code in
      let close = closing_event job (events 1) prestart_failed reason in
      let limits = broker.submission_policy.limits in
      let (n, e, f) =
        attempt-eq-ok s t
          (seal_receipt (library.dumps_plain (notice_value job "prestart_failed" reason))) _ y h in
      let g =
        or_recovered-ok (recover_idempotent job peer) _ y t
          (admission-unrecovered job peer i o close n m limits p s new) f in
      let (r, a, k, l) = as_admitted-ok _ y t g in
      (n, r, a, l, admission_decides job i o close n m limits p s t r a k)

  claimed-IsDispatched :
      (broker : Broker) (events : ℕ → SourceEvent) (job : SealedJob) (policy : ExecutionPolicy)
      (s1 s2 t : Store) (q c r : JobRecord)
      (f : String → String → Store → Result (Unit {0}) × Store)
      → policy.auto_dispatch ≡ true
      → broker.dispatch ≡ some f
      → compare_and_append (claiming_event job (events 2) q) s1 ≡ (ok c, s2)
      → after_dispatch job c (f c.job_id c.job_digest s2) ≡ (ok r, t)
      → IsDispatched broker events job policy s1 t q r
  claimed-IsDispatched broker events job policy s1 s2 t q c r f a n k l =
      let (i, j) = claim-runs job (events 2) q c s1 s2 k in
      record {
        automatic = a;
        dispatch = f;
        supplied = n;
        claimed = c;
        s2 = s2;
        claim = k;
        is_running = i;
        claimed_once = j;
        after = l;
      }

  auto-IsDispatched :
      (broker : Broker) (events : ℕ → SourceEvent) (job : SealedJob) (policy : ExecutionPolicy)
      (s1 t : Store) (q r : JobRecord)
      → policy.auto_dispatch ≡ true
      → auto_claim_and_dispatch broker (events 2) job q s1 ≡ (ok r, t)
      → IsDispatched broker events job policy s1 t q r
  auto-IsDispatched broker events job policy s1 t q r a h =
      let (f, n, g) = claim_and_dispatch-ok broker.dispatch (events 2) job q r s1 t h in
      let (c, s2, k, l) =
        after_claim-ok f job (compare_and_append (claiming_event job (events 2) q) s1) t r g in
      claimed-IsDispatched broker events job policy s1 s2 t q c r f a n k l

  pub sealed-IsDecided :
      (broker : Broker) (events : ℕ → SourceEvent) (job : SealedJob) (policy : ExecutionPolicy)
      (m : SubmissionMetadata) (n : ReceiptArtifact) (a : SubmissionAdmission) (s s1 t : Store)
      (q r : JobRecord)
      → is_enabled policy.availability ≡ true
      → IsDecision job n m broker.lineage_failure_policy s s1 q a
      → after_sealing broker (events 2) job policy (ok (sealed q (some a)), s1) ≡ (ok r, t)
      → IsDecided broker events job policy m s t r
  unfolding after_sealing
  sealed-IsDecided broker events job policy m n a s s1 t q r e d h = record {
    available = e;
    notice = n;
    s1 = s1;
    first = q;
    admission = a;
    decision = d;
    continued = elim (Bool-cases (policy.auto_dispatch && a.allowed)) [
      | inl b ↦ inr (
        ground arith,
        auto-IsDispatched broker events job policy s1 t q r (ground arith)
            (rw (b, after_sealing) at h),
      )
      | inr b ↦ (let g = rw (b, after_sealing) at h in inl (b, cc g, cc g))
    ];
  }
