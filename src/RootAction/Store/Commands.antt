-- ===== src/RootAction/Store/Commands.antt =====
-- The methods of local_fixture.py that write, as commands, and runs of them. The lock makes each
-- one step, so the interleavings of threads are the sequences of commands.
use agent_runtime_ops.Prelude.{String, List, [], ◌∷◌, Option, Result, ok, err}
use agent_runtime_ops.Time.{Datetime}
use agent_runtime_ops.RootAction.Job.{SealedJob}
use agent_runtime_ops.RootAction.Json.{Library}
use agent_runtime_ops.RootAction.Receipts.{ReceiptArtifact}
use agent_runtime_ops.RootAction.Receipts.Raw.{RawReceiptArtifact, QuarantineRecord}
use agent_runtime_ops.RootAction.State.{JobRecord, TransitionEvent}
use agent_runtime_ops.RootAction.Admission.{
  LineageFailurePolicy, SubmissionMetadata, SubmissionLimits,
}
use agent_runtime_ops.RootAction.Store.{Store}
use agent_runtime_ops.RootAction.Store.Sealing.{
  submission_or_default, put_if_absent, create_pending, seal_pending,
}
use agent_runtime_ops.RootAction.Store.LineageSealing.{seal_with_lineage_admission}
use agent_runtime_ops.RootAction.Store.Rejection.{seal_rejected}
use agent_runtime_ops.RootAction.Store.Transitions.{compare_and_append}
use agent_runtime_ops.RootAction.Store.Publication.{
  put_raw_if_absent, publish_if_absent, quarantine_if_absent,
}

pub data Command : Type 0 where
  put_job : SealedJob → Command
  create : JobRecord → Command
  seal : SealedJob → String → String → Option SubmissionMetadata → SubmissionLimits → Command
  reject :
      SealedJob
      → String
      → String
      → TransitionEvent
      → ReceiptArtifact
      → SubmissionMetadata
      → SubmissionLimits
      → Command
  admit :
      SealedJob
      → String
      → String
      → TransitionEvent
      → ReceiptArtifact
      → SubmissionMetadata
      → SubmissionLimits
      → LineageFailurePolicy
      → Command
  append : TransitionEvent → Command
  put_raw : RawReceiptArtifact → Command
  publish : ReceiptArtifact → Command
  quarantine : QuarantineRecord → Command

-- Only what a method leaves of its result: whether it raised.
abbrev pub outcome {ℓ} : {A : Type ℓ} → Result A × Store → Result (Unit {0}) × Store
outcome (ok a, s) = (ok tt, s)
outcome (err e, s) = (err e, s)

module _ ⦃datetime : Datetime⦄ ⦃library : Library⦄ where
  unfoldable pub execute : Command → Store → Result (Unit {0}) × Store
  execute (put_job job) s = put_if_absent job s
  execute (create r) s = create_pending r s
  execute (seal job i t submission limits) s =
      outcome (seal_pending job i t (submission_or_default t submission) limits s)
  execute (reject job i t e notice submission limits) s =
      outcome (seal_rejected job i t e notice submission limits s)
  execute (admit job i t e notice submission limits policy) s =
      outcome (seal_with_lineage_admission job i t e notice submission limits policy s)
  execute (append e) s = outcome (compare_and_append e s)
  execute (put_raw artifact) s = put_raw_if_absent artifact s
  execute (publish artifact) s = publish_if_absent artifact s
  execute (quarantine q) s = quarantine_if_absent q s

  -- A command that raises leaves the store that the method left.
  unfoldable pub run : List Command → Store → Store
  run [] s = s
  run (c ∷ cs) s = run cs (execute c s).1
