-- ===== src/RootAction/Posix/Publication.antt =====
-- Raw receipts, receipts, notices and quarantine of posix_store.py.
use agent_runtime_ops.Prelude.{
  String, Bool, true, not, ◌&&◌, ◌||◌, [], ◌∷◌, ◌++◌, Option, none, some, ◌==◌, ok, guard,
  storage_conflict,
}
use agent_runtime_ops.Prelude.Actions.{◌>>=◌, ◌>>◌, lift, reads}
use agent_runtime_ops.Prelude.Lists.{any}
use agent_runtime_ops.Time.{Datetime}
use agent_runtime_ops.RootAction.Json.{Library}
use agent_runtime_ops.RootAction.Receipts.{ReceiptArtifact}
use agent_runtime_ops.RootAction.Receipts.Raw.{RawReceiptArtifact, QuarantineRecord}
use agent_runtime_ops.RootAction.Store.{verify_receipt}
use agent_runtime_ops.RootAction.Store.Publication.{is_unknown_notice}
use agent_runtime_ops.RootAction.Posix.{
  ReceiptRow, QuarantineRow, Database, Tx, fetch_one, count_rows, update_rows, execute_insert,
  transaction, job_exists,
}
use agent_runtime_ops.RootAction.Posix.Reading.{current_for, receipt_for}
use agent_runtime_ops.RootAction.Posix.Checks.{
  validate_receipt_publication, check_raw_reference, check_raw_job,
}
use agent_runtime_ops.RootAction.Posix.Inserts.{insert_raw}
use agent_runtime_ops.RootAction.Posix.Transitions.{update_one}

-- The row that a job's pointer joins.
abbrev pub current_receipt : String → Database → Option ReceiptRow
current_receipt job_id db = elim (fetch_one (current_for job_id) db.receipt_current) [
  | none ↦ none
  | some current ↦ fetch_one (receipt_for current.receipt_digest) db.receipts
]

-- Only an unknown notice may be followed, and by anything but an unknown notice.
unfoldable pub may_follow : Option ReceiptRow → ReceiptArtifact → Bool
may_follow none artifact = true
may_follow (some current) artifact =
    is_unknown_notice current.kind && not (is_unknown_notice artifact.kind)

-- `receipt_digest TEXT PRIMARY KEY, job_id TEXT NOT NULL REFERENCES root_action_jobs(job_id)`
abbrev pub receipt_taken : ReceiptArtifact → Database → Bool
receipt_taken artifact db =
    any (receipt_for artifact.receipt_digest) db.receipts || not (job_exists artifact.job_id db)

abbrev pub with_receipt : ReceiptArtifact → Database → Database
with_receipt artifact db = record db {
  receipts =
      db.receipts
      ++ record {
        receipt_digest = artifact.receipt_digest;
        job_id = artifact.job_id;
        job_digest = artifact.job_digest;
        operation_id = artifact.operation_id;
        kind = artifact.kind;
        canonical_receipt = artifact.canonical_receipt;
      }
        ∷ [];
}

-- `job_id TEXT PRIMARY KEY`, and the references of the pointer: the job was found, the receipt is
-- the one just inserted.
abbrev pub current_taken : ReceiptArtifact → Database → Bool
current_taken artifact db =
    any (current_for artifact.job_id) db.receipt_current
    || not (job_exists artifact.job_id db)
    || not (any (receipt_for artifact.receipt_digest) db.receipts)

abbrev pub with_current : ReceiptArtifact → Database → Database
with_current artifact db = record db {
  receipt_current =
      db.receipt_current
      ++ record { job_id = artifact.job_id; receipt_digest = artifact.receipt_digest } ∷ [];
}

abbrev pub moved_current : ReceiptArtifact → Database → Database
moved_current artifact db = record db {
  receipt_current =
      update_rows (current_for artifact.job_id)
        (λ row. record row { receipt_digest = artifact.receipt_digest }) db.receipt_current;
}

-- The pointer of a job without one is inserted; any other is moved.
unfoldable pub point_to : Option ReceiptRow → ReceiptArtifact → Tx (Unit {0})
point_to none artifact db = execute_insert (current_taken artifact) (with_current artifact) db
point_to (some current) artifact db =
    update_one (count_rows (current_for artifact.job_id) db.receipt_current)
      (moved_current artifact) db

unfoldable pub insert_receipt : ReceiptArtifact → Tx (Unit {0})
insert_receipt artifact = do
  current ← reads λ db. ok (current_receipt artifact.job_id db)
  lift (guard (may_follow current artifact) storage_conflict)
  execute_insert (receipt_taken artifact) (with_receipt artifact)
  point_to current artifact

-- `job_id TEXT PRIMARY KEY REFERENCES root_action_jobs(job_id)`, and the reference of the receipt
abbrev pub quarantine_taken : ReceiptArtifact → Database → Bool
quarantine_taken artifact db =
    any (λ (row : QuarantineRow). row.job_id == artifact.job_id) db.quarantine
    || not (job_exists artifact.job_id db)
    || not (any (receipt_for artifact.receipt_digest) db.receipts)

abbrev pub with_quarantine : QuarantineRecord → Database → Database
with_quarantine q db = record db {
  quarantine =
      db.quarantine
      ++ record {
        job_id = q.notice.job_id;
        receipt_digest = q.notice.receipt_digest;
        root_storage_id = q.raw_reference.root_storage_id;
      }
        ∷ [];
}

module _ ⦃datetime : Datetime⦄ ⦃library : Library⦄ where
  unfoldable pub put_raw_if_absent : RawReceiptArtifact → Tx (Unit {0})
  put_raw_if_absent raw = transaction do reads (check_raw_job raw); insert_raw raw

  unfoldable pub publish_if_absent : ReceiptArtifact → Tx (Unit {0})
  publish_if_absent artifact = do
    lift (verify_receipt artifact)
    transaction do reads (validate_receipt_publication artifact); insert_receipt artifact

  unfoldable pub quarantine_if_absent : QuarantineRecord → Tx (Unit {0})
  quarantine_if_absent q = do
    lift (verify_receipt q.notice)
    transaction do
      reads (check_raw_reference q.raw_reference)
      reads (validate_receipt_publication q.notice)
      insert_receipt q.notice
      execute_insert (quarantine_taken q.notice) (with_quarantine q)
