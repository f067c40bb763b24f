-- ===== src/RootAction/Store.antt =====
-- The in-memory root-action store
-- (`LocalRootActionFixture` of opsctl/agent_runtime_ops/root_actions/local_fixture.py). A method
-- returns its result or exception together with the store that it leaves; the lock makes each
-- method one step.
pub mod Limits
pub mod Lineage
pub mod Sealing
pub mod Rejection
pub mod LineageSealing
pub mod Transitions
pub mod Publication
pub mod Commands
pub mod Atomicity
pub mod History
pub mod Soundness
pub mod Ledger
pub mod Numbered
pub mod Ordered
pub mod Kept
pub mod Receipted
pub mod Limited
pub mod Failures
pub mod Circuit
pub mod Partial
pub mod Stuck
use agent_runtime_ops.Prelude.{
  ℕ, suc, ◌+◌, ◌≤◌, ◌<◌, ◌≡◌, String, Bool, true, false, not, ◌&&◌, ◌||◌, List, [], ◌∷◌, ◌++◌, map,
  Option, none, some, ◌==◌, ◌==ℕ◌, leb, ltb, if◌then◌else◌, is_some, is_none, Error, Result, ok,
  err, ◌>>=◌, ◌>>◌, guard, raise_if, storage_conflict, storage_not_found, key_error, value_error,
}
use agent_runtime_ops.Prelude.Lists.{length, any}
use agent_runtime_ops.Prelude.Int.{int_eq}
use agent_runtime_ops.Prelude.Dict.{Dict, lookup, put, has}
use agent_runtime_ops.Text.{text_lt}
use agent_runtime_ops.Time.{Datetime}
use agent_runtime_ops.RootAction.Job.{Bytes, SealedJob}
use agent_runtime_ops.RootAction.Json.{
  Json, null, str, Members, Library, get_item, get, is_text, contains,
}
use agent_runtime_ops.RootAction.Registry.{default_registry}
use agent_runtime_ops.RootAction.Contracts.{seal_typed_manifest}
use agent_runtime_ops.RootAction.Receipts.{
  ReceiptKind, public, quarantined, unknown_notice, terminal_notice, ReceiptArtifact, receipt_copy,
  seal_receipt,
}
use agent_runtime_ops.RootAction.Receipts.Raw.{
  RawReceiptReference, RawReceiptArtifact, QuarantineRecord,
}
use agent_runtime_ops.RootAction.State.{
  JobState, pending, running, terminal, unknown, TransitionKind, claim_execution, close_pending,
  TerminalOutcome, succeeded, failed, rejected, expired, canceled, prestart_failed, JobRecord,
  TransitionEvent, is_pending, is_unknown, apply_transition, initial_record, validate_record,
}
use agent_runtime_ops.RootAction.Admission.{
  LineageFailurePolicy, OutcomeCounts, LineageSummary, SubmissionAdmission, SubmissionMetadata,
  SubmissionLimits, Action, sealed_pending, transition, LedgerEntry,
}

pub record Store : Type 0 where
  pub jobs : Dict SealedJob
  pub records : Dict JobRecord
  pub submissions : Dict SubmissionMetadata
  pub ledger : Dict (List LedgerEntry)
  pub raw_receipts : Dict RawReceiptArtifact
  pub receipts : Dict ReceiptArtifact
  pub receipt_history : Dict (List ReceiptArtifact)
  pub quarantine : Dict QuarantineRecord
  pub sequence : ℕ

-- `LocalRootActionFixture()`
abbrev pub empty_store : Store
empty_store = record {
  jobs = [];
  records = [];
  submissions = [];
  ledger = [];
  raw_receipts = [];
  receipts = [];
  receipt_history = [];
  quarantine = [];
  sequence = 0;
}

-- Checks that raise before the method has changed anything, then the change.
abbrev pub attempt : {A B : Type 0} → Store → Result A → (A → Result B × Store) → Result B × Store
attempt s (ok a) k = k a
attempt s (err e) k = (err e, s)

-- `d[k]`, with the exception for a missing key
abbrev pub find {ℓ} : {V : Type ℓ} → Error → String → Dict V → Result V
find e k d = elim (lookup k d) [ none ↦ err e | some v ↦ ok v ]

-- What `except ManifestValidationError` and `except ReceiptValidationError` turn into a conflict.
abbrev manifest_conflict : {A : Type 0} → Result A → Result A
manifest_conflict (err Error.manifest_validation_error) = err storage_conflict
manifest_conflict r = r

abbrev receipt_conflict : {A : Type 0} → Result A → Result A
receipt_conflict (err Error.receipt_validation_error) = err storage_conflict
receipt_conflict r = r

-- Equality of byte strings and of the frozen dataclasses.
unfoldable pub bytes_eq : Bytes → Bytes → Bool
bytes_eq [] [] = true
bytes_eq (x ∷ xs) (y ∷ ys) = x ==ℕ y && bytes_eq xs ys
bytes_eq _ _ = false

unfoldable pub job_eq : SealedJob → SealedJob → Bool
unfolding bytes_eq
job_eq a b =
    a.job_id == b.job_id
    && a.job_digest == b.job_digest
    && a.operation_id == b.operation_id
    && int_eq a.operation_version b.operation_version
    && a.request_id == b.request_id
    && a.lineage_id == b.lineage_id
    && a.reply_target == b.reply_target
    && a.submitted_at == b.submitted_at
    && bytes_eq a.canonical_manifest b.canonical_manifest

unfoldable pub kind_eq : ReceiptKind → ReceiptKind → Bool
kind_eq public public = true
kind_eq quarantined quarantined = true
kind_eq unknown_notice unknown_notice = true
kind_eq terminal_notice terminal_notice = true
kind_eq _ _ = false

unfoldable pub receipt_eq : ReceiptArtifact → ReceiptArtifact → Bool
unfolding bytes_eq kind_eq
receipt_eq a b =
    kind_eq a.kind b.kind
    && a.job_id == b.job_id
    && a.job_digest == b.job_digest
    && a.operation_id == b.operation_id
    && a.request_id == b.request_id
    && a.reply_target == b.reply_target
    && a.receipt_digest == b.receipt_digest
    && bytes_eq a.canonical_receipt b.canonical_receipt

module _ ⦃datetime : Datetime⦄ ⦃library : Library⦄ where
  -- `_verify_job`, `_verify_receipt`
  unfoldable pub verify_job : SealedJob → Result (Unit {0})
  verify_job job = do
    verified ← manifest_conflict (seal_typed_manifest default_registry job.canonical_manifest)
    guard (job_eq verified job) storage_conflict

  unfoldable pub verify_receipt : ReceiptArtifact → Result (Unit {0})
  verify_receipt artifact = do
    verified ← receipt_conflict (seal_receipt artifact.canonical_receipt)
    guard (receipt_eq verified artifact) storage_conflict

module _ ⦃datetime : Datetime⦄ where
  -- The instant of `strptime(text)`, with the exception for a `ValueError`
  unfoldable pub instant_of : Error → String → Result ℕ
  instant_of e text = elim (datetime.strptime text) [ none ↦ err e | some n ↦ ok n ]

  unfoldable pub validate_submission : SubmissionMetadata → SubmissionLimits → Result (Unit {0})
  validate_submission submission limits = do
    instant_of storage_conflict submission.broker_received_at
    raise_if
        (ltb limits.max_open_per_uid 1
          || ltb limits.max_open_per_lineage 1
          || ltb limits.max_jobs_per_uid_window 1
          || ltb limits.window_seconds 1)
        storage_conflict

-- `record.state in {PENDING, RUNNING, UNKNOWN}`
abbrev pub is_open : JobState → Bool
is_open terminal = false
is_open _ = true

abbrev pub count_if : Bool → ℕ → ℕ
count_if true n = suc n
count_if false n = n

-- The ledger entry of a new pending record.
abbrev pub pending_entry : ℕ → JobRecord → LedgerEntry
pending_entry sequence r = record {
  sequence = sequence;
  action = sealed_pending;
  prior_state = none;
  next_state = r.state;
  record_revision = r.revision;
  event_id = r.last_event_id;
  occurred_at = r.last_changed_at;
  job_id = r.job_id;
  job_digest = r.job_digest;
  terminal_outcome = none;
  reason_code = none;
}

-- The ledger entry of an accepted transition.
abbrev pub transition_entry : ℕ → JobRecord → TransitionEvent → JobRecord → LedgerEntry
transition_entry sequence current e updated = record {
  sequence = sequence;
  action = transition e.kind;
  prior_state = some current.state;
  next_state = updated.state;
  record_revision = updated.revision;
  event_id = e.event_id;
  occurred_at = e.occurred_at;
  job_id = e.job_id;
  job_digest = e.job_digest;
  terminal_outcome = updated.terminal_outcome;
  reason_code = updated.reason_code;
}
