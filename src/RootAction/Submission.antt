-- ===== src/RootAction/Submission.antt =====
-- The admission of peers and the frames of a submission
-- (opsctl/agent_runtime_ops/root_actions/submission.py).
pub mod Frames
pub mod Peers
use agent_runtime_ops.Prelude.{
  ℕ, ◌+◌, ◌*◌, ◌/◌, ◌%◌, String, Bool, true, false, not, ◌&&◌, ◌||◌, List, [], ◌∷◌, ◌++◌, ltb, leb,
  ◌==ℕ◌, Result, ok, err, ◌>>=◌, ◌>>◌, guard, raise_if, submission_rejected,
}
use agent_runtime_ops.Prelude.Lists.{length, any}
use agent_runtime_ops.Time.{Datetime}
use agent_runtime_ops.RootAction.Job.{Bytes, SealedJob}
use agent_runtime_ops.RootAction.Contracts.{max_manifest_bytes}
use agent_runtime_ops.RootAction.Admission.{SubmissionMetadata, SubmissionLimits}
use agent_runtime_ops.RootAction.Store.{instant_of}

pub record BrokerPeerIdentity : Type 0 where
  pub uid : ℕ
  pub gid : ℕ
  pub pid : ℕ

pub record SubmissionPolicy : Type 0 where
  pub allowed_uids : List ℕ
  pub allowed_gids : List ℕ
  pub maximum_age_seconds : ℕ
  pub maximum_future_skew_seconds : ℕ
  pub limits : SubmissionLimits

-- `SubmissionPolicy.__post_init__`: the other checks are those of natural numbers.
unfoldable pub submission_policy_checked : SubmissionPolicy → Result SubmissionPolicy
submission_policy_checked policy = do
  raise_if (length policy.allowed_uids ==ℕ 0 && length policy.allowed_gids ==ℕ 0)
      submission_rejected
  ok policy

-- `n in numbers`
unfoldable pub has_number : ℕ → List ℕ → Bool
has_number n numbers = any (λ m. m ==ℕ n) numbers

module _ ⦃datetime : Datetime⦄ where
  -- `SubmissionPolicy.authorize`: the age may be negative, so both bounds are sums.
  unfoldable pub authorize :
      SubmissionPolicy → SealedJob → BrokerPeerIdentity → String → Result SubmissionMetadata
  authorize policy job peer broker_received_at = do
    raise_if
        (not (has_number peer.uid policy.allowed_uids)
          && not (has_number peer.gid policy.allowed_gids))
        submission_rejected
    submitted ← instant_of submission_rejected job.submitted_at
    received ← instant_of submission_rejected broker_received_at
    raise_if (ltb (submitted + policy.maximum_age_seconds) received) submission_rejected
    raise_if (ltb (received + policy.maximum_future_skew_seconds) submitted) submission_rejected
    ok (record {
      peer_uid = peer.uid;
      peer_gid = peer.gid;
      peer_pid = peer.pid;
      broker_received_at = broker_received_at;
    })

-- `struct.pack("!I", n)`: four bytes, the highest first.
unfoldable pub pack : ℕ → Bytes
pack n = n / 16_777_216 % 256 ∷ n / 65_536 % 256 ∷ n / 256 % 256 ∷ n % 256 ∷ []

-- `struct.unpack("!I", ...)`
unfoldable pub unpack : ℕ → ℕ → ℕ → ℕ → ℕ
unpack a b c d = a * 16_777_216 + b * 65_536 + c * 256 + d

unfoldable pub encode_submission_frame : Bytes → Result Bytes
encode_submission_frame manifest = do
  raise_if (length manifest ==ℕ 0 || ltb max_manifest_bytes (length manifest)) submission_rejected
  ok (pack (length manifest) ++ manifest)

unfoldable pub decode_submission_frame : Bytes → Result Bytes
decode_submission_frame (a ∷ b ∷ c ∷ d ∷ rest) = do
  raise_if (ltb (unpack a b c d) 1 || ltb max_manifest_bytes (unpack a b c d)) submission_rejected
  guard (length (a ∷ b ∷ c ∷ d ∷ rest) ==ℕ 4 + unpack a b c d) submission_rejected
  ok rest
decode_submission_frame _ = err submission_rejected
