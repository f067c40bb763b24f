-- ===== src/RootAction/Posix/Reading.antt =====
-- The reads of posix_store.py: rows come back as records, which are checked again.
use agent_runtime_ops.Prelude.{
  ℕ, String, Bool, ◌&&◌, ◌||◌, List, [], ◌∷◌, map, Option, none, some, ◌==◌, ltb, is_none, Error,
  Result, ok, err, ◌>>=◌, ◌>>◌, guard, raise_if, storage_conflict, storage_not_found, value_error,
}
use agent_runtime_ops.Prelude.Lists.{length}
use agent_runtime_ops.Text.{text_lt}
use agent_runtime_ops.Time.{Datetime}
use agent_runtime_ops.RootAction.Job.{Bytes, SealedJob}
use agent_runtime_ops.RootAction.Json.{Library}
use agent_runtime_ops.RootAction.Receipts.{ReceiptArtifact, seal_receipt}
use agent_runtime_ops.RootAction.Receipts.Raw.{
  RawReceiptArtifact, raw_reference_checked, raw_artifact_checked,
}
use agent_runtime_ops.RootAction.State.{JobRecord, is_running, validate_record}
use agent_runtime_ops.RootAction.Admission.{SubmissionMetadata, LedgerEntry}
use agent_runtime_ops.RootAction.Store.{bytes_eq, kind_eq, verify_job, verify_receipt}
use agent_runtime_ops.RootAction.Store.Transitions.{sort_by, take}
use agent_runtime_ops.RootAction.Authorization.{
  CredentialRole, RegisteredCredential, BootstrapSession, PendingCeremony, ApprovalRecord, role_eq,
}
use agent_runtime_ops.RootAction.Authorization.Challenges.{fingerprint}
use agent_runtime_ops.RootAction.Authorization.Records.{
  credential_checked, bootstrap_checked, ceremony_checked, approval_checked,
}
use agent_runtime_ops.RootAction.Posix.{
  JobRow, ReceiptRow, CurrentRow, QuarantineRow, CredentialRow, Database, fetch_one, fetch_all,
  for_job,
}

-- `if row is None: raise e`
abbrev pub row_or {ℓ} : {R : Type ℓ} → Error → Option R → Result R
row_or e none = err e
row_or e (some row) = ok row

abbrev pub record_for : String → JobRecord → Bool
record_for job_id row = row.job_id == job_id

abbrev pub raw_for : String → RawReceiptArtifact → Bool
raw_for job_id row = row.reference.job_id == job_id

abbrev pub current_for : String → CurrentRow → Bool
current_for job_id row = row.job_id == job_id

abbrev pub receipt_for : String → ReceiptRow → Bool
receipt_for receipt_digest row = row.receipt_digest == receipt_digest

abbrev pub ceremony_for : String → PendingCeremony → Bool
ceremony_for ceremony_id row = row.ceremony_id == ceremony_id

unfoldable pub list_job_ids : Database → List String
list_job_ids db = sort_by text_lt (map (λ (row : JobRow). row.job.job_id) db.jobs)

-- `ORDER BY last_changed_at DESC, job_id DESC`
abbrev later_row : JobRecord → JobRecord → Bool
later_row a b =
    text_lt b.last_changed_at a.last_changed_at
    || (a.last_changed_at == b.last_changed_at && text_lt b.job_id a.job_id)

unfoldable pub catalog_job_ids : ℕ → Database → Result (List String × ℕ)
unfolding take
catalog_job_ids limit db = do
  raise_if (ltb limit 1) value_error
  ok (
    take limit (map (λ (row : JobRecord). row.job_id) (sort_by later_row db.records)),
    length db.records,
  )

unfoldable pub submission_metadata : String → Database → Result SubmissionMetadata
submission_metadata job_id db = do
  row ← row_or storage_not_found (fetch_one (for_job job_id) db.jobs)
  ok row.submission

-- `ORDER BY last_changed_at, job_id`
abbrev earlier_row : JobRecord → JobRecord → Bool
earlier_row a b =
    text_lt a.last_changed_at b.last_changed_at
    || (a.last_changed_at == b.last_changed_at && text_lt a.job_id b.job_id)

unfoldable pub running_job_ids : Database → List String
running_job_ids db =
    map (λ (row : JobRecord). row.job_id)
      (sort_by earlier_row (fetch_all (λ row. is_running row.state) db.records))

abbrev pub entry_for : String → LedgerEntry → Bool
entry_for job_id row = row.job_id == job_id

abbrev pub rows_or {ℓ} : {R : Type ℓ} → Error → List R → Result (List R)
rows_or e [] = err e
rows_or e (row ∷ rows) = ok (row ∷ rows)

-- The rows are in the order of their sequence, which only ever grows.
unfoldable pub read_ledger : String → Database → Result (List LedgerEntry)
read_ledger job_id db = rows_or storage_not_found (fetch_all (entry_for job_id) db.ledger)

abbrev pub credential_for : Bytes → CredentialRow → Bool
credential_for credential_id row = bytes_eq row.credential.credential_id credential_id

-- `WHERE role=? AND revoked_at IS NULL`
abbrev pub is_active : CredentialRole → CredentialRow → Bool
is_active role row = role_eq row.credential.role role && is_none row.credential.revoked_at

-- `ORDER BY registered_at, credential_fingerprint`
abbrev earlier_credential : CredentialRow → CredentialRow → Bool
earlier_credential a b =
    text_lt a.credential.registered_at b.credential.registered_at
    || (a.credential.registered_at == b.credential.registered_at
        && text_lt a.credential_fingerprint b.credential_fingerprint)

-- `ORDER BY verified_at, approval_id`
abbrev earlier_approval : ApprovalRecord → ApprovalRecord → Bool
earlier_approval a b =
    text_lt a.verified_at b.verified_at
    || (a.verified_at == b.verified_at && text_lt a.approval_id b.approval_id)

module _ ⦃datetime : Datetime⦄ where
  unfoldable pub read_record : String → Database → Result JobRecord
  read_record job_id db = do
    row ← row_or storage_not_found (fetch_one (record_for job_id) db.records)
    validate_record row
    ok row

  unfoldable pub bootstrap_by_token : String → Database → Result BootstrapSession
  bootstrap_by_token token_digest db = do
    row ←
        row_or storage_not_found
          (fetch_one (λ (b : BootstrapSession). b.token_digest == token_digest) db.auth_bootstrap)
    bootstrap_checked row

  unfoldable pub read_auth_bootstrap : String → Database → Result BootstrapSession
  read_auth_bootstrap bootstrap_id db = do
    row ←
        row_or storage_not_found
          (fetch_one (λ (b : BootstrapSession). b.bootstrap_id == bootstrap_id) db.auth_bootstrap)
    bootstrap_checked row

  approvals_checked : List ApprovalRecord → Result (List ApprovalRecord)
  approvals_checked [] = ok []
  approvals_checked (row ∷ rows) = do
    a ← approval_checked row
    rest ← approvals_checked rows
    ok (a ∷ rest)

  unfoldable pub approvals : String → Database → Result (List ApprovalRecord)
  unfolding approvals_checked
  approvals job_id db = approvals_checked (
      sort_by earlier_approval
        (fetch_all (λ (a : ApprovalRecord). a.job_id == job_id) db.auth_approvals))

  module _ ⦃library : Library⦄ where
    -- `_read_job`
    unfoldable pub read_sealed : String → Database → Result SealedJob
    read_sealed job_id db = do
      row ← row_or storage_not_found (fetch_one (for_job job_id) db.jobs)
      verify_job row.job
      ok row.job

    unfoldable pub read_raw_root_only : String → Database → Result RawReceiptArtifact
    read_raw_root_only job_id db = do
      row ← row_or storage_not_found (fetch_one (raw_for job_id) db.raw_receipts)
      raw_reference_checked row.reference
      raw_artifact_checked row

    -- What `retrieve` and `read_quarantine_notice` make of a row.
    unfoldable pub artifact_of_row : ReceiptRow → Result ReceiptArtifact
    artifact_of_row row = do
      artifact ← seal_receipt row.canonical_receipt
      guard
          (kind_eq row.kind artifact.kind
            && row.job_id == artifact.job_id
            && row.job_digest == artifact.job_digest
            && row.operation_id == artifact.operation_id
            && row.receipt_digest == artifact.receipt_digest)
          storage_conflict
      verify_receipt artifact
      ok artifact

    unfoldable pub retrieve : String → String → Database → Result ReceiptArtifact
    retrieve job_id job_digest db = do
      current ← row_or storage_not_found (fetch_one (current_for job_id) db.receipt_current)
      row ← row_or storage_not_found (
          fetch_one (λ row. receipt_for current.receipt_digest row && row.job_digest == job_digest)
            db.receipts)
      artifact_of_row row

    unfoldable pub read_quarantine_notice : String → Database → Result ReceiptArtifact
    read_quarantine_notice job_id db = do
      entry ←
          row_or storage_not_found
            (fetch_one (λ (q : QuarantineRow). q.job_id == job_id) db.quarantine)
      row ← row_or storage_conflict (fetch_one (receipt_for entry.receipt_digest) db.receipts)
      artifact_of_row row

    unfoldable pub credential_from_row : CredentialRow → Result RegisteredCredential
    credential_from_row row = do
      credential ← credential_checked row.credential
      guard (fingerprint credential.credential_id == row.credential_fingerprint) storage_conflict
      ok credential

    unfoldable pub read_credential : Bytes → Database → Result RegisteredCredential
    read_credential credential_id db = do
      row ← row_or storage_not_found (fetch_one (credential_for credential_id) db.auth_credentials)
      credential_from_row row

    credentials_from_rows : List CredentialRow → Result (List RegisteredCredential)
    credentials_from_rows [] = ok []
    credentials_from_rows (row ∷ rows) = do
      c ← credential_from_row row
      rest ← credentials_from_rows rows
      ok (c ∷ rest)

    unfoldable pub active_credentials :
        CredentialRole → Database → Result (List RegisteredCredential)
    unfolding credentials_from_rows
    active_credentials role db =
        credentials_from_rows
          (sort_by earlier_credential (fetch_all (is_active role) db.auth_credentials))

    unfoldable pub read_ceremony : String → Database → Result PendingCeremony
    read_ceremony ceremony_id db = do
      row ← row_or storage_not_found (fetch_one (ceremony_for ceremony_id) db.auth_ceremonies)
      ceremony_checked row
