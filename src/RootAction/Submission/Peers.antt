-- ===== src/RootAction/Submission/Peers.antt =====
-- Whom the broker admits, and when (`SubmissionPolicy.authorize` of
-- opsctl/agent_runtime_ops/root_actions/submission.py).
use agent_runtime_ops.Prelude.{
  ℕ, ◌+◌, ◌≤◌, ◌≡◌, ◌↔◌, ◌⊎◌, inl, inr, String, true, some, ok, arith, Bool-cases, Option-cases,
}
use agent_runtime_ops.Time.{Datetime}
use agent_runtime_ops.RootAction.Job.{SealedJob}
use agent_runtime_ops.RootAction.Admission.{SubmissionMetadata}
use agent_runtime_ops.RootAction.Store.{instant_of}
use agent_runtime_ops.RootAction.Submission.{
  BrokerPeerIdentity, SubmissionPolicy, has_number, authorize,
}

abbrev pub metadata_of : BrokerPeerIdentity → String → SubmissionMetadata
metadata_of peer at = record {
  peer_uid = peer.uid;
  peer_gid = peer.gid;
  peer_pid = peer.pid;
  broker_received_at = at;
}

module _ ⦃datetime : Datetime⦄ where
  -- What the policy asks of a submission.
  pub record IsAuthorized (policy : SubmissionPolicy) (job : SealedJob) (peer : BrokerPeerIdentity)
      (at : String) (m : SubmissionMetadata) : Type 0 where
    pub allowed :
        (has_number peer.uid policy.allowed_uids ≡ true)
        ⊎ (has_number peer.gid policy.allowed_gids ≡ true)
    pub submitted : ℕ
    pub submitted_at : datetime.strptime job.submitted_at ≡ some submitted
    pub received : ℕ
    pub received_at : datetime.strptime at ≡ some received
    pub not_stale : received ≤ submitted + policy.maximum_age_seconds
    pub not_early : submitted ≤ received + policy.maximum_future_skew_seconds
    pub same : m ≡ metadata_of peer at

  -- A submission is authorized exactly if the user or the group of the peer is listed, both times are
  -- real, the job is not older than the maximum age and not ahead by more than the skew; and then the
  -- metadata is that of the peer and of the time of receipt.
  pub authorize_iff :
      (policy : SubmissionPolicy) (job : SealedJob) (peer : BrokerPeerIdentity) (at : String)
      (m : SubmissionMetadata)
      → (authorize policy job peer at ≡ ok m) ↔ IsAuthorized policy job peer at m
  unfolding authorize instant_of
  authorize_iff policy job peer at m = (
    λ h. elim (Option-cases (datetime.strptime job.submitted_at)) [
      | inl p ↦ ground arith
      | inr (n, p) ↦ elim (Option-cases (datetime.strptime at)) [
        | inl q ↦ ground arith
        | inr (k, q) ↦ record {
          allowed = elim (Bool-cases (has_number peer.uid policy.allowed_uids)) [
            | inl b ↦ inl b
            | inr b ↦ inr (ground arith)
          ];
          submitted = n;
          submitted_at = p;
          received = k;
          received_at = q;
          not_stale = ground arith;
          not_early = ground arith;
          same = ground arith;
        }
      ]
    ],
    λ f.
        let a = f.allowed in
        let p = f.submitted_at in
        let q = f.received_at in
        let r = f.not_stale in let s = f.not_early in let l = f.same in ground arith,
  )
