-- ===== src/RootAction/Receipts/Raw.antt =====
-- Raw receipts and quarantine records of opsctl/agent_runtime_ops/root_actions/receipts.py.
use agent_runtime_ops.Prelude.{
  String, Bool, true, false, ◌&&◌, ◌||◌, ◌==◌, leb, ltb, Result, ok, ◌>>=◌, ◌>>◌, guard, raise_if,
  receipt_validation_error,
}
use agent_runtime_ops.Prelude.Lists.{length}
use agent_runtime_ops.RootAction.Job.{Bytes}
use agent_runtime_ops.RootAction.Json.{str, Library, get_item, is_text}
use agent_runtime_ops.RootAction.Receipts.{
  quarantined, max_raw_receipt_bytes, ReceiptKind, ReceiptArtifact, receipt_copy, safe_id_field,
  digest_field,
}

pub record RawReceiptReference : Type 0 where
  pub job_id : String
  pub job_digest : String
  pub raw_receipt_digest : String
  pub root_storage_id : String

pub record RawReceiptArtifact : Type 0 where
  pub reference : RawReceiptReference
  pub raw_bytes : Bytes

pub record QuarantineRecord : Type 0 where
  pub raw_reference : RawReceiptReference
  pub notice : ReceiptArtifact

abbrev pub is_quarantined : ReceiptKind → Bool
is_quarantined quarantined = true
is_quarantined _ = false

module _ ⦃library : Library⦄ where
  -- `RawReceiptReference.__post_init__`. Its texts come as `str`, so they are wrapped for the
  -- checks.
  unfoldable pub raw_reference_checked : RawReceiptReference → Result RawReceiptReference
  raw_reference_checked r = do
    safe_id_field (str r.job_id)
    digest_field (str r.job_digest)
    digest_field (str r.raw_receipt_digest)
    safe_id_field (str r.root_storage_id)
    ok r

  -- `RawReceiptArtifact.__post_init__`
  unfoldable pub raw_artifact_checked : RawReceiptArtifact → Result RawReceiptArtifact
  raw_artifact_checked a = do
    raise_if (leb (length a.raw_bytes) 0 || ltb max_raw_receipt_bytes (length a.raw_bytes))
        receipt_validation_error
    guard (a.reference.raw_receipt_digest == library.sha256 a.raw_bytes) receipt_validation_error
    ok a

  unfoldable pub seal_raw_receipt : String → String → String → Bytes → Result RawReceiptArtifact
  unfolding raw_reference_checked raw_artifact_checked
  seal_raw_receipt job_id job_digest root_storage_id raw_bytes = do
    raise_if (leb (length raw_bytes) 0 || ltb max_raw_receipt_bytes (length raw_bytes))
        receipt_validation_error
    reference ← raw_reference_checked (record {
      job_id = job_id;
      job_digest = job_digest;
      raw_receipt_digest = library.sha256 raw_bytes;
      root_storage_id = root_storage_id;
    })
    raw_artifact_checked (record { reference = reference; raw_bytes = raw_bytes })

  -- `QuarantineRecord.__post_init__`
  unfoldable pub quarantine_checked : QuarantineRecord → Result QuarantineRecord
  quarantine_checked q = do
    guard (is_quarantined q.notice.kind) receipt_validation_error
    value ← receipt_copy q.notice
    raw_digest ← get_item "raw_receipt_digest" value
    guard
        (q.raw_reference.job_id == q.notice.job_id
          && q.raw_reference.job_digest == q.notice.job_digest
          && is_text q.raw_reference.raw_receipt_digest raw_digest)
        receipt_validation_error
    ok q
