-- ===== src/RootAction/Posix/Commands.antt =====
-- The methods of posix_store.py that write, as commands, and runs of them. A command makes its
-- arguments with their constructors, which check them, and calls the method; of its result only
-- whether it raised is left. Every transaction begins with `BEGIN IMMEDIATE`, so the interleavings
-- of threads and processes are the sequences of commands.
use agent_runtime_ops.Prelude.{String, List, [], ◌∷◌, Option}
use agent_runtime_ops.Prelude.Actions.{◌>>=◌, ◌>>◌, pure, lift}
use agent_runtime_ops.Time.{Datetime}
use agent_runtime_ops.RootAction.Job.{SealedJob}
use agent_runtime_ops.RootAction.Json.{Library}
use agent_runtime_ops.RootAction.Receipts.{ReceiptArtifact}
use agent_runtime_ops.RootAction.Receipts.Raw.{
  RawReceiptArtifact, QuarantineRecord, raw_reference_checked, raw_artifact_checked,
  quarantine_checked,
}
use agent_runtime_ops.RootAction.State.{JobRecord, TransitionEvent}
use agent_runtime_ops.RootAction.Admission.{
  LineageFailurePolicy, SubmissionMetadata, SubmissionLimits, failure_policy_checked,
}
use agent_runtime_ops.RootAction.Authorization.{
  RegisteredCredential, BootstrapSession, PendingCeremony, VerifiedAssertion, ApprovalRecord,
}
use agent_runtime_ops.RootAction.Authorization.Records.{
  credential_checked, bootstrap_checked, ceremony_checked, approval_checked, assertion_checked,
}
use agent_runtime_ops.RootAction.Posix.{Database, Tx}
use agent_runtime_ops.RootAction.Posix.Sealing.{
  put_if_absent, create_pending, seal_pending, seal_rejected, seal_with_lineage_admission,
}
use agent_runtime_ops.RootAction.Posix.Transitions.{append_event}
use agent_runtime_ops.RootAction.Posix.Publication.{
  put_raw_if_absent, publish_if_absent, quarantine_if_absent,
}
use agent_runtime_ops.RootAction.Posix.Finishing.{
  complete_claimed_execution, mark_claimed_execution_unknown,
}
use agent_runtime_ops.RootAction.Posix.Bootstrap.{create_auth_bootstrap}
use agent_runtime_ops.RootAction.Posix.Registration.{
  issue_registration_ceremony, complete_registration,
}
use agent_runtime_ops.RootAction.Posix.Approval.{issue_approval_ceremony, claim_with_approval}

pub data Command : Type 0 where
  put_job : SealedJob → Command
  create : JobRecord → Command
  seal : SealedJob → String → String → Option SubmissionMetadata → SubmissionLimits → Command
  reject :
      SealedJob
      → String
      → String
      → TransitionEvent
      → ReceiptArtifact
      → SubmissionMetadata
      → SubmissionLimits
      → Command
  admit :
      SealedJob
      → String
      → String
      → TransitionEvent
      → ReceiptArtifact
      → SubmissionMetadata
      → SubmissionLimits
      → LineageFailurePolicy
      → Command
  append : TransitionEvent → Command
  put_raw : RawReceiptArtifact → Command
  complete : TransitionEvent → RawReceiptArtifact → ReceiptArtifact → Command
  lose : TransitionEvent → RawReceiptArtifact → ReceiptArtifact → Command
  publish : ReceiptArtifact → Command
  quarantine : QuarantineRecord → Command
  create_bootstrap : BootstrapSession → Command
  begin_registration : String → PendingCeremony → Command
  register : String → String → RegisteredCredential → String → Command
  begin_approval : PendingCeremony → Command
  claim :
      PendingCeremony
      → RegisteredCredential
      → VerifiedAssertion
      → ApprovalRecord
      → TransitionEvent
      → Command

abbrev pub outcome : {A : Type 0} → Tx A → Tx (Unit {0})
outcome m = m >>= λ _. pure tt

module _ ⦃datetime : Datetime⦄ ⦃library : Library⦄ where
  unfoldable pub execute : Command → Tx (Unit {0})
  execute (put_job job) = put_if_absent job
  execute (create r) = create_pending r
  execute (seal job i t submission limits) = outcome (seal_pending job i t submission limits)
  execute (reject job i t e notice submission limits) =
      outcome (seal_rejected job i t e notice submission limits)
  execute (admit job i t e notice submission limits policy) = do
    lift (failure_policy_checked policy)
    outcome (seal_with_lineage_admission job i t e notice submission limits policy)
  execute (append e) = outcome (append_event e)
  execute (put_raw raw) = do
    lift (raw_reference_checked raw.reference)
    lift (raw_artifact_checked raw)
    put_raw_if_absent raw
  execute (complete e raw receipt) = do
    lift (raw_reference_checked raw.reference)
    lift (raw_artifact_checked raw)
    outcome (complete_claimed_execution e raw receipt)
  execute (lose e raw receipt) = do
    lift (raw_reference_checked raw.reference)
    lift (raw_artifact_checked raw)
    outcome (mark_claimed_execution_unknown e raw receipt)
  execute (publish artifact) = publish_if_absent artifact
  execute (quarantine q) = do lift (quarantine_checked q); quarantine_if_absent q
  execute (create_bootstrap session) = do
    lift (bootstrap_checked session)
    create_auth_bootstrap session
  execute (begin_registration token_digest c) = do
    lift (ceremony_checked c)
    issue_registration_ceremony token_digest c
  execute (register token_digest ceremony_id c consumed_at) = do
    lift (credential_checked c)
    outcome (complete_registration token_digest ceremony_id c consumed_at)
  execute (begin_approval c) = do lift (ceremony_checked c); issue_approval_ceremony c
  execute (claim c credential verified a e) = do
    lift (ceremony_checked c)
    lift (credential_checked credential)
    lift (assertion_checked verified)
    lift (approval_checked a)
    outcome (claim_with_approval c credential verified a e)

  -- A command that raises leaves the database that the method left.
  unfoldable pub run : List Command → Database → Database
  run [] db = db
  run (c ∷ cs) db = run cs (execute c db).1
