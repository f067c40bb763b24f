-- ===== src/RootAction/Broker/Decisions.antt =====
-- What a submission to the broker decides (opsctl/agent_runtime_ops/root_actions/broker.py).
use agent_runtime_ops.Prelude.{
  ℕ, ◌≡◌, ◌⊎◌, inl, inr, ap, refl, none, true, false, storage_not_found, Result, ok, err,
  Bool-cases,
}
use mathlib.Core.Path.{subst}
use agent_runtime_ops.Prelude.Dict.{lookup}
use agent_runtime_ops.Time.{Datetime}
use agent_runtime_ops.RootAction.Job.{Bytes, SealedJob}
use agent_runtime_ops.RootAction.Json.{Library}
use agent_runtime_ops.RootAction.Registry.{default_registry}
use agent_runtime_ops.RootAction.Contracts.{seal_typed_manifest}
use agent_runtime_ops.RootAction.State.{JobRecord}
use agent_runtime_ops.RootAction.Admission.{SubmissionMetadata}
use agent_runtime_ops.RootAction.Store.{Store}
use agent_runtime_ops.RootAction.Store.Transitions.{read_sealed}
use agent_runtime_ops.RootAction.Store.Circuit.{attempt-eq-ok}
use agent_runtime_ops.RootAction.Submission.{BrokerPeerIdentity}
use agent_runtime_ops.RootAction.Execution.{ExecutionPolicy, is_enabled}
use agent_runtime_ops.RootAction.Broker.{
  Broker, SourceEvent, Sealing, recover_idempotent, seal_disabled, seal_enabled, after_sealing,
  submission_checks, submit_read, submit_new, submit,
}
use agent_runtime_ops.RootAction.Broker.Steps.{
  after_sealing-ok, after_sealing-unadmitted, submission_checks-ok,
}
use agent_runtime_ops.RootAction.Broker.Outcomes.{IsRejected, IsDecided, IsRecovered, IsSubmission}
use agent_runtime_ops.RootAction.Broker.Recovered.{
  recover_idempotent-IsRecovered, read_sealed-missing,
}
use agent_runtime_ops.RootAction.Broker.Branches.{
  disabled-decides, enabled-decides, sealed-IsDecided,
}

module _ ⦃datetime : Datetime⦄ ⦃library : Library⦄ where
  -- What is left of a submission whose sealing returned.
  disabled-finishes :
      (broker : Broker) (events : ℕ → SourceEvent) (job : SealedJob) (peer : BrokerPeerIdentity)
      (m : SubmissionMetadata) (policy : ExecutionPolicy) (s s1 t : Store) (y : Sealing)
      (r : JobRecord)
      → is_enabled policy.availability ≡ false
      → lookup job.job_id s.jobs ≡ none
      → seal_disabled broker events job peer m policy s ≡ (ok y, s1)
      → after_sealing broker (events 2) job policy (ok y, s1) ≡ (ok r, t)
      → IsRejected policy job t r
  disabled-finishes broker events job peer m policy s s1 t y r d new e f =
      let (q, i, g) = disabled-decides broker events job peer m policy s s1 y d new e in
      after_sealing-unadmitted (λ r t. IsRejected policy job t r) broker (events 2) job policy s1 t
        q r g (rw i at f)

  enabled-finishes :
      (broker : Broker) (events : ℕ → SourceEvent) (job : SealedJob) (peer : BrokerPeerIdentity)
      (m : SubmissionMetadata) (policy : ExecutionPolicy) (s s1 t : Store) (y : Sealing)
      (r : JobRecord)
      → is_enabled policy.availability ≡ true
      → lookup job.job_id s.jobs ≡ none
      → seal_enabled broker events job peer m s ≡ (ok y, s1)
      → after_sealing broker (events 2) job policy (ok y, s1) ≡ (ok r, t)
      → IsDecided broker events job policy m s t r
  enabled-finishes broker events job peer m policy s s1 t y r d new e f =
      let (n, q, a, i, g) = enabled-decides broker events job peer m s s1 y new e in
      sealed-IsDecided broker events job policy m n a s s1 t q r d g (rw i at f)

  submit_new-decides :
      (broker : Broker) (events : ℕ → SourceEvent) (job : SealedJob) (peer : BrokerPeerIdentity)
      (s t : Store) (r : JobRecord)
      → lookup job.job_id s.jobs ≡ none
      → submit_new broker events job peer s ≡ (ok r, t)
      → IsSubmission broker events job peer s t r
  unfolding submit_new
  submit_new-decides broker events job peer s t r new h =
      let ((m, policy), e, f) =
        attempt-eq-ok s t (submission_checks broker (events 0) job peer) _ r h in
      let (a, b, c) = submission_checks-ok broker (events 0) job peer m policy e in
      let (y, s1, g, k) = after_sealing-ok broker (events 2) job policy _ t r f in
      record {
        new_job = new;
        submission = m;
        authorized = a;
        policy = policy;
        found = b;
        same_version = c;
        decided = elim (Bool-cases (is_enabled policy.availability)) [
          | inl d ↦
              inr (enabled-finishes broker events job peer m policy s s1 t y r d new (rw d at g) k)
          | inr d ↦
              inl (disabled-finishes broker events job peer m policy s s1 t y r d new (rw d at g) k)
        ];
      }

  -- The read of the job that may have been sealed.
  submit_read-decides :
      (broker : Broker) (events : ℕ → SourceEvent) (job : SealedJob) (peer : BrokerPeerIdentity)
      (s t : Store) (r : JobRecord) (x : Result SealedJob)
      → read_sealed job.job_id s ≡ x
      → submit_read broker events job peer s x ≡ (ok r, t)
      → IsRecovered job peer s t r ⊎ IsSubmission broker events job peer s t r
  unfolding submit_read
  submit_read-decides broker events job peer s t r (ok existing) l h =
      let p : recover_idempotent job peer s ≡ ok r = ap (λ (z : Result JobRecord × Store). z.0) h in
      let q : s ≡ t = ap (λ (z : Result JobRecord × Store). z.1) h in
      inl
        (subst (λ u. IsRecovered job peer s u r) q (recover_idempotent-IsRecovered job peer s r p))
  submit_read-decides broker events job peer s t r (err storage_not_found) l h =
      inr (submit_new-decides broker events job peer s t r (read_sealed-missing job.job_id s l) h)
  submit_read-decides broker events job peer s t r (err x) l h = cc

  -- A submission that returns has found the very job sealed, submitted by the same user and group,
  -- and then leaves the store as it found it and answers with the record stored for the job; or it
  -- has found no job of that name, the peer and the times satisfy the submission policy, and the
  -- operation has an execution policy of the version of the job. Then the job of a disabled
  -- operation is closed as rejected for the reason of the policy, and never claimed. The job of an
  -- enabled operation is sealed with the decision on its lineage, and is claimed once and
  -- dispatched if the policy is automatic and the lineage admits it, and left as it was sealed if
  -- not.
  pub submit_decides :
      (broker : Broker) (events : ℕ → SourceEvent) (raw : Bytes) (job : SealedJob)
      (peer : BrokerPeerIdentity) (s t : Store) (r : JobRecord)
      → seal_typed_manifest default_registry raw ≡ ok job
      → submit broker events raw peer s ≡ (ok r, t)
      → IsRecovered job peer s t r ⊎ IsSubmission broker events job peer s t r
  unfolding submit
  submit_decides broker events raw job peer s t r e h =
      submit_read-decides broker events job peer s t r (read_sealed job.job_id s) refl
        (rw (e, submit) at h)
