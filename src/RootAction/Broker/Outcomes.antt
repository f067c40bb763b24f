-- ===== src/RootAction/Broker/Outcomes.antt =====
-- What a submission to the broker may come to
-- (opsctl/agent_runtime_ops/root_actions/broker.py).
use agent_runtime_ops.Prelude.{ℕ, ◌≡◌, ◌⊎◌, String, true, false, ◌&&◌, none, some, Result, ok}
use agent_runtime_ops.Prelude.Dict.{lookup}
use agent_runtime_ops.Time.{Datetime}
use agent_runtime_ops.RootAction.Job.{SealedJob}
use agent_runtime_ops.RootAction.Json.{Library}
use agent_runtime_ops.RootAction.Receipts.{ReceiptArtifact}
use agent_runtime_ops.RootAction.State.{JobRecord, running, terminal, rejected}
use agent_runtime_ops.RootAction.Admission.{SubmissionAdmission, SubmissionMetadata}
use agent_runtime_ops.RootAction.Store.{Store}
use agent_runtime_ops.RootAction.Store.Transitions.{compare_and_append}
use agent_runtime_ops.RootAction.Store.Circuit.{IsDecision}
use agent_runtime_ops.RootAction.Submission.{BrokerPeerIdentity}
use agent_runtime_ops.RootAction.Submission.Peers.{IsAuthorized}
use agent_runtime_ops.RootAction.Execution.{ExecutionPolicy, execution_policy, is_enabled}
use agent_runtime_ops.RootAction.Broker.{Broker, SourceEvent, claiming_event, after_dispatch}

-- A job that was sealed before: the store is left as it was found, with the same job, submitted
-- by the same user and group, and its record.
pub record IsRecovered (job : SealedJob) (peer : BrokerPeerIdentity) (s t : Store) (r : JobRecord)
    : Type 0 where
  pub unchanged : t ≡ s
  pub sealed : lookup job.job_id s.jobs ≡ some job
  pub metadata : SubmissionMetadata
  pub submitted : lookup job.job_id s.submissions ≡ some metadata
  pub same_user : metadata.peer_uid ≡ peer.uid
  pub same_group : metadata.peer_gid ≡ peer.gid
  pub stored : lookup job.job_id s.records ≡ some r

module _ ⦃datetime : Datetime⦄ ⦃library : Library⦄ where
  -- The job of a disabled operation, closed as it is sealed and never claimed.
  pub record IsRejected (policy : ExecutionPolicy) (job : SealedJob) (t : Store) (r : JobRecord)
      : Type 0 where
    pub unavailable : is_enabled policy.availability ≡ false
    pub stored : lookup job.job_id t.records ≡ some r
    pub is_closed : r.state ≡ terminal
    pub outcome : r.terminal_outcome ≡ some rejected
    pub reason : r.reason_code ≡ policy.reason_code
    pub not_claimed : r.execution_count ≡ 0

  -- A job that the broker has claimed and dispatched: what the callable left, and the claim.
  pub record IsDispatched (broker : Broker) (events : ℕ → SourceEvent) (job : SealedJob)
      (policy : ExecutionPolicy) (s1 t : Store) (q r : JobRecord) : Type 0 where
    pub automatic : policy.auto_dispatch ≡ true
    pub dispatch : String → String → Store → Result (Unit {0}) × Store
    pub supplied : broker.dispatch ≡ some dispatch
    pub claimed : JobRecord
    pub s2 : Store
    pub claim : compare_and_append (claiming_event job (events 2) q) s1 ≡ (ok claimed, s2)
    pub is_running : claimed.state ≡ running
    pub claimed_once : claimed.execution_count ≡ 1
    pub after :
        after_dispatch job claimed (dispatch claimed.job_id claimed.job_digest s2) ≡ (ok r, t)

  -- The job of an enabled operation: sealed with the decision on its lineage, and then dispatched
  -- or left.
  pub record IsDecided (broker : Broker) (events : ℕ → SourceEvent) (job : SealedJob)
      (policy : ExecutionPolicy) (m : SubmissionMetadata) (s t : Store) (r : JobRecord)
      : Type 0 where
    pub available : is_enabled policy.availability ≡ true
    pub notice : ReceiptArtifact
    pub s1 : Store
    pub first : JobRecord
    pub admission : SubmissionAdmission
    pub decision : IsDecision job notice m broker.lineage_failure_policy s s1 first admission
    pub continued :
        (policy.auto_dispatch && admission.allowed ≡ false) × (t ≡ s1) × (r ≡ first)
        ⊎ (admission.allowed ≡ true) × IsDispatched broker events job policy s1 t first r

  -- A submission of a new job that the policies of the broker have let in.
  pub record IsSubmission (broker : Broker) (events : ℕ → SourceEvent) (job : SealedJob)
      (peer : BrokerPeerIdentity) (s t : Store) (r : JobRecord) : Type 0 where
    pub new_job : lookup job.job_id s.jobs ≡ none
    pub submission : SubmissionMetadata
    pub authorized : IsAuthorized broker.submission_policy job peer (events 0).1 submission
    pub policy : ExecutionPolicy
    pub found : execution_policy broker.policies job.operation_id ≡ ok policy
    pub same_version : policy.operation_version ≡ job.operation_version
    pub decided : IsRejected policy job t r ⊎ IsDecided broker events job policy submission s t r
