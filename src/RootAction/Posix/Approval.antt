-- ===== src/RootAction/Posix/Approval.antt =====
-- Approval of a job in posix_store.py: `issue_approval_ceremony` and `claim_with_approval`, which
-- consumes the ceremony in the transaction of the claim.
use agent_runtime_ops.Prelude.{
  String, Bool, true, false, not, ◌&&◌, ◌||◌, [], ◌∷◌, ◌++◌, some, ◌==◌, ◌==ℕ◌, is_none, is_some,
  Result, guard, storage_conflict,
}
use agent_runtime_ops.Prelude.Actions.{◌>>=◌, ◌>>◌, lift, reads, writes}
use agent_runtime_ops.Prelude.Lists.{any}
use agent_runtime_ops.Text.{text_lt}
use agent_runtime_ops.Time.{Datetime}
use agent_runtime_ops.RootAction.Json.{Library}
use agent_runtime_ops.RootAction.State.{TransitionKind, claim_execution, JobRecord, TransitionEvent}
use agent_runtime_ops.RootAction.Store.{bytes_eq}
use agent_runtime_ops.RootAction.Authorization.{
  CeremonyPurpose, approval, expired, approval_role, RegisteredCredential, PendingCeremony,
  VerifiedAssertion, ApprovalRecord, is_issued, role_eq,
}
use agent_runtime_ops.RootAction.Authorization.Challenges.{fingerprint}
use agent_runtime_ops.RootAction.Authorization.Records.{text_eq, ceremony_eq, credential_eq}
use agent_runtime_ops.RootAction.Posix.{
  CredentialRow, Database, Tx, fetch_one, count_rows, update_rows, execute_insert, transaction,
  job_exists,
}
use agent_runtime_ops.RootAction.Posix.Reading.{
  ceremony_for, credential_for, is_active, read_ceremony, read_credential,
}
use agent_runtime_ops.RootAction.Posix.Checks.{exact_pending}
use agent_runtime_ops.RootAction.Posix.Transitions.{update_one, compare_and_append}
use agent_runtime_ops.RootAction.Posix.Registration.{
  fingerprint_exists, insert_ceremony, consume_ceremony,
}

abbrev pub is_approval : CeremonyPurpose → Bool
is_approval approval = true
is_approval _ = false

abbrev pub is_claim_kind : TransitionKind → Bool
is_claim_kind claim_execution = true
is_claim_kind _ = false

-- `WHERE purpose='approval' AND state='issued' AND expires_at<=?`
abbrev pub out_of_time : String → PendingCeremony → Bool
out_of_time now row =
    is_approval row.purpose && is_issued row.state && not (text_lt now row.expires_at)

abbrev pub expired_row : String → PendingCeremony → PendingCeremony
expired_row now row = record row { state = expired; consumed_at = some now }

abbrev pub expire_ceremonies : String → Database → Database
expire_ceremonies now db = record db {
  auth_ceremonies = update_rows (out_of_time now) (expired_row now) db.auth_ceremonies;
}

-- `WHERE credential_id=? AND sign_count=? AND revoked_at IS NULL`
abbrev pub same_sign_count : RegisteredCredential → CredentialRow → Bool
same_sign_count c row =
    credential_for c.credential_id row
    && row.credential.sign_count ==ℕ c.sign_count
    && is_none row.credential.revoked_at

abbrev pub signed_row : VerifiedAssertion → CredentialRow → CredentialRow
signed_row verified row = record row {
  credential = record (row.credential) {
    sign_count = verified.new_sign_count;
    backed_up = verified.backed_up;
  };
}

unfoldable pub update_sign_count : RegisteredCredential → VerifiedAssertion → Tx (Unit {0})
update_sign_count c verified db =
    update_one (count_rows (same_sign_count c) db.auth_credentials)
      (λ db. record db {
        auth_credentials =
            update_rows (same_sign_count c) (signed_row verified) db.auth_credentials;
      })
      db

abbrev pub ceremony_exists : String → Database → Bool
ceremony_exists ceremony_id db = any (ceremony_for ceremony_id) db.auth_ceremonies

-- `approval_id TEXT PRIMARY KEY, ceremony_id TEXT NOT NULL UNIQUE`, and the references
abbrev pub approval_taken : ApprovalRecord → Database → Bool
approval_taken a db =
    any
      (λ (row : ApprovalRecord).
        row.approval_id == a.approval_id || row.ceremony_id == a.ceremony_id)
      db.auth_approvals
    || not (ceremony_exists a.ceremony_id db)
    || not (job_exists a.job_id db)
    || not (fingerprint_exists a.credential_fingerprint db)

-- The column `user_verified` is set to 1.
abbrev pub with_approval : ApprovalRecord → Database → Database
with_approval a db = record db {
  auth_approvals = db.auth_approvals ++ record a { user_verified = true } ∷ [];
}

abbrev pub approval_enrolled : Database → Result (Unit {0})
approval_enrolled db =
    guard (is_some (fetch_one (is_active approval_role) db.auth_credentials)) storage_conflict

module _ ⦃datetime : Datetime⦄ ⦃library : Library⦄ where
  unfoldable pub issue_approval_ceremony : PendingCeremony → Tx (Unit {0})
  issue_approval_ceremony c = do
    lift (
        guard
          (is_approval c.purpose && is_issued c.state && is_some c.job_id && is_some c.job_digest)
          storage_conflict)
    transaction do
      reads (exact_pending c)
      reads approval_enrolled
      writes (expire_ceremonies c.issued_at)
      insert_ceremony c

  -- The parts of a claim belong together.
  unfoldable pub claim_contract :
      PendingCeremony
      → RegisteredCredential
      → VerifiedAssertion
      → ApprovalRecord
      → TransitionEvent
      → Bool
  claim_contract c credential verified a event =
      (is_approval c.purpose && is_issued c.state)
      && (role_eq credential.role approval_role && is_none credential.revoked_at)
      && (bytes_eq verified.credential_id credential.credential_id
          && verified.user_verified
          && verified.device_type == credential.device_type)
      && (a.origin == verified.origin && a.rp_id == verified.rp_id)
      && (a.ceremony_id == c.ceremony_id
          && text_eq (some a.job_id) c.job_id
          && text_eq (some a.job_digest) c.job_digest
          && a.credential_fingerprint == fingerprint credential.credential_id
          && a.sign_count ==ℕ verified.new_sign_count
          && a.user_verified)
      && (is_claim_kind event.kind
          && text_eq (some event.job_id) c.job_id
          && text_eq (some event.job_digest) c.job_digest)

  -- The body of the transaction.
  unfoldable pub consume_and_claim :
      PendingCeremony
      → RegisteredCredential
      → VerifiedAssertion
      → ApprovalRecord
      → TransitionEvent
      → Tx JobRecord
  consume_and_claim c credential verified a event = do
    stored ← reads (read_ceremony c.ceremony_id)
    lift (guard (ceremony_eq stored c && text_lt a.verified_at c.expires_at) storage_conflict)
    enrolled ← reads (read_credential credential.credential_id)
    lift (guard (credential_eq enrolled credential) storage_conflict)
    update_sign_count credential verified
    consume_ceremony c.ceremony_id a.verified_at (fingerprint credential.credential_id)
    execute_insert (approval_taken a) (with_approval a)
    compare_and_append event

  unfoldable pub claim_with_approval :
      PendingCeremony
      → RegisteredCredential
      → VerifiedAssertion
      → ApprovalRecord
      → TransitionEvent
      → Tx JobRecord
  claim_with_approval c credential verified a event = do
    lift (guard (claim_contract c credential verified a event) storage_conflict)
    transaction (consume_and_claim c credential verified a event)
