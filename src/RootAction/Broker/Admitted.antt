-- ===== src/RootAction/Broker/Admitted.antt =====
-- Whose submissions change the store (opsctl/agent_runtime_ops/root_actions/broker.py).
use agent_runtime_ops.Prelude.{ℕ, ◌≡◌, ◌⊎◌, inl, inr, refl, storage_not_found, Result, ok, err}
use agent_runtime_ops.Time.{Datetime}
use agent_runtime_ops.RootAction.Job.{Bytes, SealedJob}
use agent_runtime_ops.RootAction.Json.{Library}
use agent_runtime_ops.RootAction.Registry.{default_registry}
use agent_runtime_ops.RootAction.Contracts.{seal_typed_manifest}
use agent_runtime_ops.RootAction.Admission.{SubmissionMetadata}
use agent_runtime_ops.RootAction.Store.{Store}
use agent_runtime_ops.RootAction.Store.Transitions.{read_sealed}
use agent_runtime_ops.RootAction.Store.Soundness.Fresh.{attempt-keeps}
use agent_runtime_ops.RootAction.Execution.{ExecutionPolicy, execution_policy}
use agent_runtime_ops.RootAction.Submission.{BrokerPeerIdentity}
use agent_runtime_ops.RootAction.Submission.Peers.{IsAuthorized}
use agent_runtime_ops.RootAction.Broker.{
  Broker, SourceEvent, submission_checks, submit_new, submit_read, submit,
}
use agent_runtime_ops.RootAction.Broker.Steps.{submission_checks-ok}

module _ ⦃datetime : Datetime⦄ ⦃library : Library⦄ where
  -- The manifest was sealed, the peer and the times satisfy the policy, and the operation has an
  -- execution policy.
  pub record IsLetIn (broker : Broker) (events : ℕ → SourceEvent) (raw : Bytes)
      (peer : BrokerPeerIdentity) : Type 0 where
    pub job : SealedJob
    pub sealed : seal_typed_manifest default_registry raw ≡ ok job
    pub submission : SubmissionMetadata
    pub authorized : IsAuthorized broker.submission_policy job peer (events 0).1 submission
    pub policy : ExecutionPolicy
    pub found : execution_policy broker.policies job.operation_id ≡ ok policy

  submit_new-changes :
      (broker : Broker) (events : ℕ → SourceEvent) (raw : Bytes) (job : SealedJob)
      (peer : BrokerPeerIdentity) (s : Store)
      → seal_typed_manifest default_registry raw ≡ ok job
      → ((submit_new broker events job peer s).1 ≡ s) ⊎ IsLetIn broker events raw peer
  unfolding submit_new
  submit_new-changes broker events raw job peer s e =
      attempt-keeps (λ t. (t ≡ s) ⊎ IsLetIn broker events raw peer) s
        (submission_checks broker (events 0) job peer) _ (inl refl)
        (λ (m, policy) f.
          let (a, b, c) = submission_checks-ok broker (events 0) job peer m policy f in
          inr (record {
            job = job;
            sealed = e;
            submission = m;
            authorized = a;
            policy = policy;
            found = b;
          }))

  submit_read-changes :
      (broker : Broker) (events : ℕ → SourceEvent) (raw : Bytes) (job : SealedJob)
      (peer : BrokerPeerIdentity) (s : Store) (x : Result SealedJob)
      → seal_typed_manifest default_registry raw ≡ ok job
      → ((submit_read broker events job peer s x).1 ≡ s) ⊎ IsLetIn broker events raw peer
  unfolding submit_read
  submit_read-changes broker events raw job peer s (ok existing) e = inl refl
  submit_read-changes broker events raw job peer s (err storage_not_found) e =
      submit_new-changes broker events raw job peer s e
  submit_read-changes broker events raw job peer s (err x) e = inl refl

  -- A submission that changes the store, whether it returns or raises, has a manifest that is
  -- sealed, a peer and times that satisfy the submission policy, and an operation that has an
  -- execution policy.
  pub submit_changes :
      (broker : Broker) (events : ℕ → SourceEvent) (raw : Bytes) (peer : BrokerPeerIdentity)
      (s : Store)
      → ((submit broker events raw peer s).1 ≡ s) ⊎ IsLetIn broker events raw peer
  unfolding submit
  submit_changes broker events raw peer s =
      attempt-keeps (λ t. (t ≡ s) ⊎ IsLetIn broker events raw peer) s
        (seal_typed_manifest default_registry raw) _ (inl refl)
        (λ job e. submit_read-changes broker events raw job peer s (read_sealed job.job_id s) e)
