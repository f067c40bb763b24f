-- ===== src/RootAction/Posix.antt =====
-- The SQLite store of opsctl/agent_runtime_ops/root_actions/posix_store.py. A table is the list of
-- its rows in the order of insertion, with the keys and references that the schema declares. A
-- statement is an action on the database: what it wrote stays if a later one raises, until the
-- transaction is rolled back. `BEGIN IMMEDIATE` lets one transaction run at a time. Integers are
-- those that SQLite can hold.
pub mod Reading
pub mod Limits
pub mod Inserts
pub mod Transitions
pub mod Checks
pub mod Publication
pub mod Finishing
pub mod Sealing
pub mod Bootstrap
pub mod Registration
pub mod Approval
pub mod Commands
pub mod Atomicity
pub mod Statements
pub mod Methods
pub mod Steps
pub mod Framed
pub mod Rows
pub mod Consumed
pub mod Appended
pub mod Claimed
pub mod Allowance
pub mod Enrolled
pub mod Evolution
pub mod Tracked
pub mod Keyed
pub mod Progress
pub mod Ending
pub mod Pointers
pub mod Finished
pub mod Published
pub mod Completing
use agent_runtime_ops.Prelude.{
  ℕ, suc, ◌+◌, String, Bool, true, false, ◌&&◌, ◌||◌, List, [], ◌∷◌, Option, none, some, ◌==◌,
  if◌then◌else◌, Error, Result, ok, err, storage_conflict,
}
use agent_runtime_ops.Prelude.Actions.{Action}
use agent_runtime_ops.Prelude.Lists.{any}
use agent_runtime_ops.RootAction.Job.{Bytes, SealedJob}
use agent_runtime_ops.RootAction.Receipts.{ReceiptKind}
use agent_runtime_ops.RootAction.Receipts.Raw.{RawReceiptArtifact}
use agent_runtime_ops.RootAction.State.{JobRecord}
use agent_runtime_ops.RootAction.Admission.{SubmissionMetadata, LedgerEntry}
use agent_runtime_ops.RootAction.Authorization.{
  RegisteredCredential, BootstrapSession, PendingCeremony, ApprovalRecord,
}

-- The rows of the tables that hold more or less than one record of the source.
pub record JobRow : Type 0 where
  pub job : SealedJob
  pub submission : SubmissionMetadata

pub record ReceiptRow : Type 0 where
  pub receipt_digest : String
  pub job_id : String
  pub job_digest : String
  pub operation_id : String
  pub kind : ReceiptKind
  pub canonical_receipt : Bytes

pub record CurrentRow : Type 0 where
  pub job_id : String
  pub receipt_digest : String

pub record QuarantineRow : Type 0 where
  pub job_id : String
  pub receipt_digest : String
  pub root_storage_id : String

pub record CredentialRow : Type 0 where
  pub credential : RegisteredCredential
  pub credential_fingerprint : String

pub record Database : Type 0 where
  pub jobs : List JobRow
  pub records : List JobRecord
  pub ledger : List LedgerEntry
  pub sequence : ℕ
  pub raw_receipts : List RawReceiptArtifact
  pub receipts : List ReceiptRow
  pub receipt_current : List CurrentRow
  pub quarantine : List QuarantineRow
  pub auth_bootstrap : List BootstrapSession
  pub auth_credentials : List CredentialRow
  pub auth_ceremonies : List PendingCeremony
  pub auth_approvals : List ApprovalRecord

-- A database with the tables of the schema, all empty.
abbrev pub empty_database : Database
empty_database = record {
  jobs = [];
  records = [];
  ledger = [];
  sequence = 0;
  raw_receipts = [];
  receipts = [];
  receipt_current = [];
  quarantine = [];
  auth_bootstrap = [];
  auth_credentials = [];
  auth_ceremonies = [];
  auth_approvals = [];
}

module _ {R : Type 0} where
  -- `SELECT ... WHERE test`, and `fetchone()`
  unfoldable pub fetch_one : (R → Bool) → List R → Option R
  fetch_one test [] = none
  fetch_one test (row ∷ rows) = if test row then some row else fetch_one test rows

  -- `SELECT ... WHERE test`, and `fetchall()`
  unfoldable pub fetch_all : (R → Bool) → List R → List R
  fetch_all test [] = []
  fetch_all test (row ∷ rows) = if test row then row ∷ fetch_all test rows else fetch_all test rows

  -- `SELECT COUNT(*) ... WHERE test`, which is also the `rowcount` of an `UPDATE`
  unfoldable pub count_rows : (R → Bool) → List R → ℕ
  count_rows test [] = 0
  count_rows test (row ∷ rows) =
      if test row then suc (count_rows test rows) else count_rows test rows

  -- `UPDATE ... SET change WHERE test`
  unfoldable pub update_rows : (R → Bool) → (R → R) → List R → List R
  update_rows test change [] = []
  update_rows test change (row ∷ rows) =
      (if test row then change row else row) ∷ update_rows test change rows

abbrev pub Tx : Type 0 → Type 0
Tx = Action Database

-- `_execute_insert`: a row that breaks a key or a reference is a conflict.
abbrev pub insert_row : Bool → (Database → Database) → Tx (Unit {0})
insert_row true write db = (err storage_conflict, db)
insert_row false write db = (ok tt, write db)

unfoldable pub execute_insert : (Database → Bool) → (Database → Database) → Tx (Unit {0})
execute_insert violates write db = insert_row (violates db) write db

-- The end of a transaction that began with the database `before`.
abbrev pub finish : {A : Type 0} → Database → Result A → Database → Result A × Database
finish before (ok a) db = (ok a, db)
finish before (err e) db = (err e, before)

-- `_transaction`: commit, or roll back and raise.
unfoldable pub transaction : {A : Type 0} → Tx A → Tx A
transaction body db = finish db (body db).0 (body db).1

-- The row of a table for a job.
abbrev pub for_job : String → JobRow → Bool
for_job job_id row = row.job.job_id == job_id

abbrev pub job_exists : String → Database → Bool
job_exists job_id db = any (for_job job_id) db.jobs
