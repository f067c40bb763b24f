-- ===== src/RootAction/Store/Publication.antt =====
-- Raw receipts, public receipts, notices and quarantine of local_fixture.py.
use agent_runtime_ops.Prelude.{
  String, Bool, true, false, not, ◌&&◌, [], ◌∷◌, ◌++◌, Option, none, some, ◌==◌, if◌then◌else◌,
  Result, ok, err, ◌>>=◌, ◌>>◌, guard, raise_if, storage_conflict, storage_not_found,
}
use agent_runtime_ops.Prelude.Dict.{lookup, put, has}
use agent_runtime_ops.Time.{Datetime}
use agent_runtime_ops.RootAction.Json.{Json, null, Members, Library, get_item, is_text}
use agent_runtime_ops.RootAction.Receipts.{
  is_terminal_notice, ReceiptKind, unknown_notice, ReceiptArtifact, receipt_copy,
}
use agent_runtime_ops.RootAction.Receipts.Raw.{RawReceiptArtifact, QuarantineRecord}
use agent_runtime_ops.RootAction.State.{
  JobState, terminal, unknown, TerminalOutcome, succeeded, failed, rejected, expired, canceled,
  prestart_failed, JobRecord,
}
use agent_runtime_ops.RootAction.Store.{Store, attempt, find, verify_receipt}

abbrev pub is_unknown_notice : ReceiptKind → Bool
is_unknown_notice unknown_notice = true
is_unknown_notice _ = false

unfoldable pub outcome_text : TerminalOutcome → String
outcome_text succeeded = "succeeded"
outcome_text failed = "failed"
outcome_text rejected = "rejected"
outcome_text expired = "expired"
outcome_text canceled = "canceled"
outcome_text prestart_failed = "prestart_failed"

-- `value is None`
abbrev is_null : Json → Bool
is_null null = true
is_null _ = false

-- `value == (outcome.value if outcome else None)`
unfoldable pub is_outcome : Option TerminalOutcome → Json → Bool
unfolding outcome_text
is_outcome none v = is_null v
is_outcome (some o) v = is_text (outcome_text o) v

unfoldable pub raw_checks : RawReceiptArtifact → Store → Result (Unit {0})
raw_checks artifact s = do
  raise_if (has artifact.reference.job_id s.raw_receipts) storage_conflict
  job ← find storage_not_found artifact.reference.job_id s.jobs
  guard (job.job_digest == artifact.reference.job_digest) storage_conflict

abbrev pub with_raw : RawReceiptArtifact → Store → Store
with_raw artifact s = record s {
  raw_receipts = put artifact.reference.job_id artifact s.raw_receipts;
}

unfoldable pub put_raw_if_absent : RawReceiptArtifact → Store → Result (Unit {0}) × Store
put_raw_if_absent artifact s = attempt s (raw_checks artifact s) λ _. (ok tt, with_raw artifact s)

-- Only an unknown notice may be followed, and by anything but an unknown notice.
unfoldable pub may_follow : Option ReceiptArtifact → ReceiptArtifact → Bool
may_follow none artifact = true
may_follow (some current) artifact =
    is_unknown_notice current.kind && not (is_unknown_notice artifact.kind)

-- The state that the record must be in for a receipt of the kind, and the outcome that it names.
unfoldable pub outcome_matches : JobState → JobRecord → ReceiptKind → Json → Bool
unfolding is_outcome
outcome_matches unknown r kind outcome = is_unknown_notice kind && is_null outcome
outcome_matches terminal r kind outcome =
    not (is_unknown_notice kind) && is_outcome r.terminal_outcome outcome
outcome_matches _ r kind outcome = false

-- The root-only raw receipt that a receipt names.
unfoldable pub raw_matches :
    Option RawReceiptArtifact → ReceiptArtifact → Members → Result (Unit {0})
raw_matches none artifact receipt = err storage_conflict
raw_matches (some raw) artifact receipt = do
  guard (raw.reference.job_digest == artifact.job_digest) storage_conflict
  named ← get_item "raw_receipt_digest" receipt
  guard (is_text raw.reference.raw_receipt_digest named) storage_conflict

abbrev pub is_final : JobState → Bool
is_final terminal = true
is_final unknown = true
is_final _ = false

module _ ⦃datetime : Datetime⦄ ⦃library : Library⦄ where
  -- The checks of `publish_if_absent`.
  unfoldable pub publication_checks : ReceiptArtifact → Store → Result (Unit {0})
  publication_checks artifact s = do
    verify_receipt artifact
    guard (may_follow (lookup artifact.job_id s.receipts) artifact) storage_conflict
    job ← find storage_not_found artifact.job_id s.jobs
    r ← find storage_not_found artifact.job_id s.records
    guard
        (job.job_digest == artifact.job_digest
          && job.operation_id == artifact.operation_id
          && job.request_id == artifact.request_id
          && job.reply_target == artifact.reply_target)
        storage_conflict
    guard (is_final r.state) storage_conflict
    receipt ← receipt_copy artifact
    if is_terminal_notice artifact.kind
        then ok tt
        else raw_matches (lookup artifact.job_id s.raw_receipts) artifact receipt
    outcome ← get_item "terminal_outcome" receipt
    guard (outcome_matches r.state r artifact.kind outcome) storage_conflict

  -- `history.setdefault(job_id, []).append(artifact)`
  abbrev pub with_receipt : ReceiptArtifact → Store → Store
  with_receipt artifact s = record s {
    receipts = put artifact.job_id artifact s.receipts;
    receipt_history =
        put artifact.job_id
          (elim (lookup artifact.job_id s.receipt_history) [
            | none ↦ artifact ∷ []
            | some history ↦ history ++ artifact ∷ []
          ])
          s.receipt_history;
  }

  unfoldable pub publish_if_absent : ReceiptArtifact → Store → Result (Unit {0}) × Store
  publish_if_absent artifact s =
      attempt s (publication_checks artifact s) λ _. (ok tt, with_receipt artifact s)

  unfoldable pub quarantine_checks : QuarantineRecord → Store → Result (Unit {0})
  quarantine_checks q s = do
    raise_if (has q.notice.job_id s.quarantine) storage_conflict
    publication_checks q.notice s

  abbrev pub with_quarantine : QuarantineRecord → Store → Store
  with_quarantine q s = record (with_receipt q.notice s) {
    quarantine = put q.notice.job_id q s.quarantine;
  }

  unfoldable pub quarantine_if_absent : QuarantineRecord → Store → Result (Unit {0}) × Store
  quarantine_if_absent q s = attempt s (quarantine_checks q s) λ _. (ok tt, with_quarantine q s)

unfoldable pub retrieve : String → String → Store → Result ReceiptArtifact
retrieve job_id job_digest s = do
  artifact ← find storage_not_found job_id s.receipts
  guard (artifact.job_digest == job_digest) storage_not_found
  ok artifact

unfoldable pub read_quarantine_notice : String → Store → Result ReceiptArtifact
read_quarantine_notice job_id s = do q ← find storage_not_found job_id s.quarantine; ok q.notice
