-- ===== src/RootAction/Posix/Checks.antt =====
-- What posix_store.py checks of a receipt against the rows of its job, before it writes.
use agent_runtime_ops.Prelude.{
  Bool, true, false, not, ◌&&◌, ◌||◌, Option, none, some, ◌==◌, ◌==ℕ◌, Result, ok, err, ◌>>=◌, ◌>>◌,
  guard, raise_if, storage_conflict,
}
use agent_runtime_ops.Time.{Datetime}
use agent_runtime_ops.RootAction.Json.{Json, null, Members, Library, get_item, get, is_text}
use agent_runtime_ops.RootAction.Receipts.{is_terminal_notice, ReceiptArtifact, receipt_copy}
use agent_runtime_ops.RootAction.Receipts.Raw.{
  RawReceiptReference, RawReceiptArtifact, raw_reference_checked,
}
use agent_runtime_ops.RootAction.State.{JobRecord, TransitionEvent, is_pending, is_unknown}
use agent_runtime_ops.RootAction.Store.Rejection.{is_reason}
use agent_runtime_ops.RootAction.Store.Publication.{is_unknown_notice, is_outcome, is_final}
use agent_runtime_ops.RootAction.Authorization.{PendingCeremony, or_empty}
use agent_runtime_ops.RootAction.Authorization.Records.{text_eq}
use agent_runtime_ops.RootAction.Posix.{Database, fetch_one}
use agent_runtime_ops.RootAction.Posix.Reading.{raw_for, read_record, read_sealed}

-- The raw receipt that a receipt of another kind than a terminal notice names.
unfoldable pub raw_matches : Bool → Option RawReceiptArtifact → Members → Result (Unit {0})
raw_matches true raw value = ok tt
raw_matches false none value = err storage_conflict
raw_matches false (some raw) value = do
  named ← get_item "raw_receipt_digest" value
  guard (is_text raw.reference.raw_receipt_digest named) storage_conflict

-- `value["terminal_outcome"] is not None`
abbrev pub is_none_value : Json → Bool
is_none_value null = true
is_none_value _ = false

-- What a receipt says against the state, the outcome and the reason of the record.
unfoldable pub state_matches : Bool → JobRecord → ReceiptArtifact → Members → Result (Unit {0})
unfolding is_outcome
state_matches true r artifact value = do
  guard (is_unknown_notice artifact.kind) storage_conflict
  outcome ← get_item "terminal_outcome" value
  guard (is_none_value outcome) storage_conflict
state_matches false r artifact value = do
  raise_if (is_unknown_notice artifact.kind) storage_conflict
  outcome ← get_item "terminal_outcome" value
  guard (is_outcome r.terminal_outcome outcome) storage_conflict
  guard
      (not (is_terminal_notice artifact.kind) || is_reason r.reason_code (get "reason_code" value))
      storage_conflict

-- Only the exact job, while it is pending and unclaimed, can be approved.
unfoldable pub exact_pending :
    ⦃datetime : Datetime⦄ → PendingCeremony → Database → Result (Unit {0})
unfolding text_eq
exact_pending c db = do
  r ← read_record (or_empty c.job_id) db
  guard (text_eq (some r.job_digest) c.job_digest && is_pending r.state && r.execution_count ==ℕ 0)
      storage_conflict

module _ ⦃datetime : Datetime⦄ ⦃library : Library⦄ where
  unfoldable pub validate_receipt_publication : ReceiptArtifact → Database → Result (Unit {0})
  validate_receipt_publication artifact db = do
    job ← read_sealed artifact.job_id db
    r ← read_record artifact.job_id db
    guard
        (job.job_digest == artifact.job_digest
          && job.operation_id == artifact.operation_id
          && job.request_id == artifact.request_id
          && job.reply_target == artifact.reply_target)
        storage_conflict
    guard (is_final r.state) storage_conflict
    value ← receipt_copy artifact
    raw_matches (is_terminal_notice artifact.kind)
        (fetch_one (raw_for artifact.job_id) db.raw_receipts) value
    state_matches (is_unknown r.state) r artifact value

  -- What `quarantine_if_absent` finds under the job of the raw reference.
  raw_is : Option RawReceiptArtifact → RawReceiptReference → Result (Unit {0})
  raw_is none reference = err storage_conflict
  raw_is (some raw) reference = do
    raw_reference_checked raw.reference
    guard
        (raw.reference.job_id == reference.job_id
          && raw.reference.job_digest == reference.job_digest
          && raw.reference.raw_receipt_digest == reference.raw_receipt_digest
          && raw.reference.root_storage_id == reference.root_storage_id)
        storage_conflict

  unfoldable pub check_raw_reference : RawReceiptReference → Database → Result (Unit {0})
  unfolding raw_is
  check_raw_reference reference db =
      raw_is (fetch_one (raw_for reference.job_id) db.raw_receipts) reference

  unfoldable pub check_raw_job : RawReceiptArtifact → Database → Result (Unit {0})
  check_raw_job raw db = do
    job ← read_sealed raw.reference.job_id db
    guard (job.job_digest == raw.reference.job_digest) storage_conflict

  -- The event, the raw receipt and the receipt are of one job, and the receipt names the raw one.
  unfoldable pub identity_checks :
      TransitionEvent → RawReceiptReference → ReceiptArtifact → Result (Unit {0})
  identity_checks event reference receipt = do
    value ← receipt_copy receipt
    guard
        (event.job_id == reference.job_id
          && event.job_digest == reference.job_digest
          && receipt.job_id == reference.job_id
          && receipt.job_digest == reference.job_digest
          && is_text reference.raw_receipt_digest (get "raw_receipt_digest" value))
        storage_conflict
