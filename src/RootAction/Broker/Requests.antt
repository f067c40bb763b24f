-- ===== src/RootAction/Broker/Requests.antt =====
-- The reads that the broker answers to a requester (`requester_projection`, up to the projection
-- itself, and `receipt` of opsctl/agent_runtime_ops/root_actions/broker.py).
use agent_runtime_ops.Prelude.{
  ◌≡◌, ◌↔◌, String, not, ◌&&◌, ◌||◌, some, ◌==◌, ◌==ℕ◌, eq_iff, arith, Error, Result, ok, err,
  ◌>>=◌, ◌>>◌, guard, raise_if, storage_not_found, inl, inr, Option-cases,
}
use agent_runtime_ops.Prelude.Dict.{lookup}
use agent_runtime_ops.RootAction.Job.{SealedJob}
use agent_runtime_ops.RootAction.Receipts.{ReceiptArtifact}
use agent_runtime_ops.RootAction.Admission.{SubmissionMetadata}
use agent_runtime_ops.RootAction.Store.{Store}
use agent_runtime_ops.RootAction.Store.Transitions.{read_sealed, submission_metadata}
use agent_runtime_ops.RootAction.Store.Publication.{retrieve}
use agent_runtime_ops.RootAction.Submission.{BrokerPeerIdentity}

-- The job whose projection the requester is given.
unfoldable pub requester_job :
    BrokerPeerIdentity → String → String → String → String → Store → Result SealedJob
requester_job peer job_id job_digest request_id reply_target s = do
  metadata ← submission_metadata job_id s
  raise_if (not (metadata.peer_uid ==ℕ peer.uid) || not (metadata.peer_gid ==ℕ peer.gid))
      storage_not_found
  job ← read_sealed job_id s
  guard
      (job.job_digest == job_digest
        && job.request_id == request_id
        && job.reply_target == reply_target)
      storage_not_found
  ok job

unfoldable pub broker_receipt : String → String → Store → Result ReceiptArtifact
broker_receipt job_id job_digest s = do
  job ← read_sealed job_id s
  guard (job.job_digest == job_digest) storage_not_found
  retrieve job_id job_digest s

-- The requester submitted the job, and names it by its digest, its request and its reply target.
pub record IsRequester (peer : BrokerPeerIdentity) (job_id digest request reply : String)
    (s : Store) (job : SealedJob) : Type 0 where
  pub metadata : SubmissionMetadata
  pub submitted : lookup job_id s.submissions ≡ some metadata
  pub same_user : metadata.peer_uid ≡ peer.uid
  pub same_group : metadata.peer_gid ≡ peer.gid
  pub sealed : lookup job_id s.jobs ≡ some job
  pub same_digest : job.job_digest ≡ digest
  pub same_request : job.request_id ≡ request
  pub same_reply : job.reply_target ≡ reply

requester_job-IsRequester :
    (peer : BrokerPeerIdentity) (k d q p : String) (s : Store) (job : SealedJob)
    → requester_job peer k d q p s ≡ ok job
    → IsRequester peer k d q p s job
unfolding requester_job submission_metadata read_sealed
requester_job-IsRequester peer k d q p s job h = elim (Option-cases (lookup k s.submissions)) [
  | inl n ↦ ground arith
  | inr (m, n) ↦ elim (Option-cases (lookup k s.jobs)) [
    | inl l ↦ ground arith
    | inr (j, l) ↦ record {
      metadata = m;
      submitted = n;
      same_user = ground arith;
      same_group = ground arith;
      sealed = ground arith;
      same_digest = ground (arith, eq_iff j.job_digest d);
      same_request = ground (arith, eq_iff j.request_id q);
      same_reply = ground (arith, eq_iff j.reply_target p);
    }
  ]
]

-- A requester is given a job exactly if it submitted the job and names its digest, its request and
-- its reply target; every refusal is the same, whether the job is missing or not the requester's.
pub requester_job_iff :
    (peer : BrokerPeerIdentity) (k d q p : String) (s : Store) (job : SealedJob)
    → ((requester_job peer k d q p s ≡ ok job) ↔ IsRequester peer k d q p s job)
      × ((x : Error) → requester_job peer k d q p s ≡ err x → x ≡ storage_not_found)
unfolding requester_job submission_metadata read_sealed
requester_job_iff peer k d q p s job = (
  (
    requester_job-IsRequester peer k d q p s job,
    λ r.
        let a = r.submitted in
        let b = r.same_user in
        let c = r.same_group in
        let e = r.sealed in
        let f = r.same_digest in
        let g = r.same_request in
        let h = r.same_reply in
        ground (arith, eq_iff job.job_digest d, eq_iff job.request_id q, eq_iff job.reply_target p),
  ),
  λ x h. ground arith,
)
