-- ===== src/RootAction/Broker.antt =====
-- Submission to the broker (`TypedRootActionBroker.submit` of
-- opsctl/agent_runtime_ops/root_actions/broker.py), up to the projections for display and their
-- publication.
pub mod Outcomes
mod Steps
pub mod Reached
mod Recovered
pub mod Branches
pub mod Decisions
pub mod Admitted
pub mod Refinement
pub mod Requests
use agent_runtime_ops.Prelude.{
  ℕ, String, Bool, true, false, not, ◌&&◌, ◌||◌, [], ◌∷◌, Option, none, some, ◌==◌, ◌==ℕ◌,
  if◌then◌else◌, Error, Result, ok, err, ◌>>=◌, ◌>>◌, guard, raise_if, storage_conflict,
  storage_not_found, broker_contract_error,
}
use agent_runtime_ops.Prelude.Int.{int_eq}
use agent_runtime_ops.Time.{Datetime}
use agent_runtime_ops.RootAction.Job.{Bytes, SealedJob}
use agent_runtime_ops.RootAction.Json.{Json, null, str, obj, member, end, Library}
use agent_runtime_ops.RootAction.Registry.{default_registry}
use agent_runtime_ops.RootAction.Contracts.{seal_typed_manifest}
use agent_runtime_ops.RootAction.Receipts.{receipt_schema, ReceiptArtifact, seal_receipt}
use agent_runtime_ops.RootAction.State.{
  JobRecord, TransitionEvent, TransitionKind, claim_execution, close_pending, TerminalOutcome,
  rejected, prestart_failed,
}
use agent_runtime_ops.RootAction.Admission.{
  LineageFailurePolicy, SubmissionAdmission, SubmissionMetadata,
}
use agent_runtime_ops.RootAction.Store.{Store, attempt, job_eq}
use agent_runtime_ops.RootAction.Store.LineageSealing.{seal_with_lineage_admission}
use agent_runtime_ops.RootAction.Store.Rejection.{seal_rejected}
use agent_runtime_ops.RootAction.Store.Transitions.{
  read_sealed, read_record, submission_metadata, compare_and_append,
}
use agent_runtime_ops.RootAction.Store.Publication.{retrieve}
use agent_runtime_ops.RootAction.Submission.{BrokerPeerIdentity, SubmissionPolicy, authorize}
use agent_runtime_ops.RootAction.Execution.{
  ExecutionPolicy, ExecutionPolicyRegistry, execution_policy, is_enabled,
}

-- The collaborators that decide: the callable `dispatch` may change the store and may raise.
pub record Broker : Type 0 where
  pub policies : ExecutionPolicyRegistry
  pub submission_policy : SubmissionPolicy
  pub lineage_failure_policy : LineageFailurePolicy
  pub dispatch : Option (String → String → Store → Result (Unit {0}) × Store)

-- An identifier and a time of the event source.
abbrev pub SourceEvent : Type 0
SourceEvent = String × String

-- The event that closes a job at its submission.
abbrev pub closing_event :
    SealedJob → SourceEvent → TerminalOutcome → Option String → TransitionEvent
closing_event job (event_id, occurred_at) outcome reason_code = record {
  event_id = event_id;
  job_id = job.job_id;
  job_digest = job.job_digest;
  expected_revision = 0;
  kind = close_pending;
  occurred_at = occurred_at;
  outcome = some outcome;
  reason_code = reason_code;
}

-- The event that claims it.
abbrev pub claiming_event : SealedJob → SourceEvent → JobRecord → TransitionEvent
claiming_event job (event_id, occurred_at) r = record {
  event_id = event_id;
  job_id = job.job_id;
  job_digest = job.job_digest;
  expected_revision = r.revision;
  kind = claim_execution;
  occurred_at = occurred_at;
  outcome = none;
  reason_code = none;
}

abbrev optional_text : Option String → Json
optional_text none = null
optional_text (some text) = str text

unfoldable pub notice_value : SealedJob → String → Option String → Json
notice_value job outcome reason_code = obj (
    member "schema" (str receipt_schema) (
      member "kind" (str "terminal_notice") (
        member "job_id" (str job.job_id) (
          member "job_digest" (str job.job_digest) (
            member "operation_id" (str job.operation_id) (
              member "request_id" (str job.request_id) (
                member "reply_target" (str job.reply_target) (
                  member "terminal_outcome" (str outcome)
                    (member "reason_code" (optional_text reason_code) end)))))))))

-- What the sealing of a new job came to: a record, with the decision on its lineage where one was
-- made, or the record of a job that another submission had sealed first.
pub data Sealing : Type 0 where
  sealed : JobRecord → Option SubmissionAdmission → Sealing
  retried : JobRecord → Sealing

abbrev pub as_sealed : Result JobRecord × Store → Result Sealing × Store
as_sealed (err x, s) = (err x, s)
as_sealed (ok r, s) = (ok (sealed r none), s)

abbrev pub as_admitted : Result (JobRecord × SubmissionAdmission) × Store → Result Sealing × Store
as_admitted (err x, s) = (err x, s)
as_admitted (ok (r, admission), s) = (ok (sealed r (some admission)), s)

-- `_recover_idempotent`, the record that it goes on with.
unfoldable pub recover_idempotent :
    ⦃library : Library⦄ → SealedJob → BrokerPeerIdentity → Store → Result JobRecord
recover_idempotent job peer s = do
  existing ← read_sealed job.job_id s
  metadata ← submission_metadata job.job_id s
  guard (job_eq existing job && metadata.peer_uid ==ℕ peer.uid && metadata.peer_gid ==ℕ peer.gid)
      broker_contract_error
  read_record job.job_id s

-- `except StorageConflict as exc`, where `exc` is raised again if there is no job to recover.
abbrev pub retry_of : Result JobRecord → Result Sealing
retry_of (ok r) = ok (retried r)
retry_of (err storage_not_found) = err storage_conflict
retry_of (err x) = err x

abbrev pub or_recovered :
    (Store → Result JobRecord) → Result Sealing × Store → Result Sealing × Store
or_recovered recover (err storage_conflict, s) = (retry_of (recover s), s)
or_recovered recover (x, s) = (x, s)

-- `admission is not None and admission.allowed`
abbrev pub is_allowed : Option SubmissionAdmission → Bool
is_allowed none = false
is_allowed (some admission) = admission.allowed

module _ ⦃datetime : Datetime⦄ ⦃library : Library⦄ where
  -- A job of a disabled operation.
  unfoldable pub seal_disabled :
      Broker
      → (ℕ → SourceEvent)
      → SealedJob
      → BrokerPeerIdentity
      → SubmissionMetadata
      → ExecutionPolicy
      → Store
      → Result Sealing × Store
  seal_disabled broker events job peer submission policy s =
      let (event_id, occurred_at) = events 0 in
      let close_event = closing_event job (events 1) rejected policy.reason_code in
      attempt s
        (seal_receipt (library.dumps_plain (notice_value job "rejected" policy.reason_code)))
        λ notice. or_recovered (recover_idempotent job peer) (
          as_sealed (
            seal_rejected job event_id occurred_at close_event notice submission
              broker.submission_policy.limits s))

  -- A job of an enabled operation.
  unfoldable pub seal_enabled :
      Broker
      → (ℕ → SourceEvent)
      → SealedJob
      → BrokerPeerIdentity
      → SubmissionMetadata
      → Store
      → Result Sealing × Store
  seal_enabled broker events job peer submission s =
      let (event_id, occurred_at) = events 0 in
      let failure_policy = broker.lineage_failure_policy in
      let reason = some failure_policy.circuit_reason_code in
      let circuit_event = closing_event job (events 1) prestart_failed reason in
      attempt s (seal_receipt (library.dumps_plain (notice_value job "prestart_failed" reason)))
        λ circuit_notice. or_recovered (recover_idempotent job peer) (
          as_admitted (
            seal_with_lineage_admission job event_id occurred_at circuit_event circuit_notice
              submission broker.submission_policy.limits failure_policy s))

  -- After the callable: an exception is dropped, and the record is read again.
  abbrev pub after_dispatch :
      SealedJob → JobRecord → Result (Unit {0}) × Store → Result JobRecord × Store
  after_dispatch job claimed (ok _, s) = (ok claimed, s)
  after_dispatch job claimed (err x, s) =
      (elim (read_record job.job_id s) [ ok r ↦ ok r | err y ↦ ok claimed ], s)

  abbrev pub after_claim :
      (String → String → Store → Result (Unit {0}) × Store)
      → SealedJob
      → Result JobRecord × Store
      → Result JobRecord × Store
  after_claim dispatch job (err x, s) = (err x, s)
  after_claim dispatch job (ok claimed, s) =
      after_dispatch job claimed (dispatch claimed.job_id claimed.job_digest s)

  -- `_auto_claim_and_dispatch`, with the callable that may be absent.
  unfoldable pub claim_and_dispatch :
      Option (String → String → Store → Result (Unit {0}) × Store)
      → SourceEvent
      → SealedJob
      → JobRecord
      → Store
      → Result JobRecord × Store
  claim_and_dispatch none event job r s = (err broker_contract_error, s)
  claim_and_dispatch (some dispatch) event job r s =
      after_claim dispatch job (compare_and_append (claiming_event job event r) s)

  abbrev pub auto_claim_and_dispatch :
      Broker → SourceEvent → SealedJob → JobRecord → Store → Result JobRecord × Store
  auto_claim_and_dispatch broker = claim_and_dispatch broker.dispatch

  -- The rest of `submit` after the sealing.
  unfoldable pub after_sealing :
      Broker
      → SourceEvent
      → SealedJob
      → ExecutionPolicy
      → Result Sealing × Store
      → Result JobRecord × Store
  after_sealing broker event job policy (err x, s) = (err x, s)
  after_sealing broker event job policy (ok (retried r), s) = (ok r, s)
  after_sealing broker event job policy (ok (sealed r admission), s) =
      if policy.auto_dispatch && is_allowed admission
      then auto_claim_and_dispatch broker event job r s
      else (ok r, s)

  unfoldable pub submission_checks :
      Broker
      → SourceEvent
      → SealedJob
      → BrokerPeerIdentity
      → Result (SubmissionMetadata × ExecutionPolicy)
  submission_checks broker (event_id, occurred_at) job peer = do
    submission ← authorize broker.submission_policy job peer occurred_at
    policy ← execution_policy broker.policies job.operation_id
    guard (int_eq policy.operation_version job.operation_version) broker_contract_error
    ok (submission, policy)

  unfoldable pub submit_new :
      Broker → (ℕ → SourceEvent) → SealedJob → BrokerPeerIdentity → Store → Result JobRecord × Store
  submit_new broker events job peer s =
      attempt s (submission_checks broker (events 0) job peer) λ (submission, policy).
        after_sealing broker (events 2) job policy (
          if is_enabled policy.availability
          then seal_enabled broker events job peer submission s
          else seal_disabled broker events job peer submission policy s)

  -- After the read of the job that may have been sealed: `except StorageNotFound`.
  unfoldable pub submit_read :
      Broker
      → (ℕ → SourceEvent)
      → SealedJob
      → BrokerPeerIdentity
      → Store
      → Result SealedJob
      → Result JobRecord × Store
  submit_read broker events job peer s (ok existing) = (recover_idempotent job peer s, s)
  submit_read broker events job peer s (err storage_not_found) = submit_new broker events job peer s
  submit_read broker events job peer s (err x) = (err x, s)

  -- `submit`, with the numbered events of the source and the record that its status shows.
  unfoldable pub submit :
      Broker → (ℕ → SourceEvent) → Bytes → BrokerPeerIdentity → Store → Result JobRecord × Store
  submit broker events raw_manifest peer s =
      attempt s (seal_typed_manifest default_registry raw_manifest)
        λ job. submit_read broker events job peer s (read_sealed job.job_id s)
