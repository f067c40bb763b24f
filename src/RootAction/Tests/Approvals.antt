-- ===== src/RootAction/Tests/Approvals.antt =====
-- The theorems of the SQLite store at an approved job, and at a registration.
use agent_runtime_ops.Prelude.{
  ◌≡◌, ◌≤◌, refl, ap, List, [], ◌∷◌, true, false, some, none, ok, err, Result, Error,
}
use agent_runtime_ops.Prelude.Actions.{◌>>=◌, reads, lift, writes, pure}
use agent_runtime_ops.Prelude.Lists.{length, any}
use agent_runtime_ops.Text.{safe_id, is_digest, text_lt}
use agent_runtime_ops.Time.{is_timestamp, stamp, in_ranges, is_real}
use agent_runtime_ops.RootAction.Job.{Bytes}
use agent_runtime_ops.RootAction.State.{JobRecord, validate_record, validate_event_fields}
use agent_runtime_ops.RootAction.Store.{bytes_eq}
use agent_runtime_ops.RootAction.Authorization.{
  approval, registration, issued, approval_role, RegisteredCredential, BootstrapSession,
  PendingCeremony, VerifiedAssertion, ApprovalRecord, role_eq, label_has_role, check_safe_id,
  check_digest, check_bounded, check_timestamp, is_device_type,
}
use agent_runtime_ops.RootAction.Authorization.Challenges.{action_challenge_bytes, fingerprint}
use agent_runtime_ops.RootAction.Authorization.Records.{
  credential_checked, ceremony_checked, binding_checks, text_eq, bool_eq, purpose_eq,
  optional_role_eq, ceremony_state_eq, ceremony_eq, credential_eq,
}
use agent_runtime_ops.RootAction.Posix.{
  Database, empty_database, fetch_one, count_rows, update_rows, execute_insert, transaction,
}
use agent_runtime_ops.RootAction.Posix.Reading.{
  read_record, read_ceremony, read_credential, credential_from_row,
}
use agent_runtime_ops.RootAction.Posix.Inserts.{insert_ledger}
use agent_runtime_ops.RootAction.Posix.Transitions.{update_record, compare_and_append}
use agent_runtime_ops.RootAction.Posix.Registration.{consume_ceremony}
use agent_runtime_ops.RootAction.Posix.Approval.{
  update_sign_count, claim_contract, consume_and_claim, claim_with_approval,
}
use agent_runtime_ops.RootAction.Posix.Commands.{
  Command, create_bootstrap, begin_registration, register, append, run,
}
use agent_runtime_ops.RootAction.Posix.Claimed.{
  Claimed, claim_with_approval-Claimed, claim_with_approval_once,
}
use agent_runtime_ops.RootAction.Posix.Enrolled.{at_most_three}
use agent_runtime_ops.RootAction.Tests.Fixture.{
  a_digest, a_claim, a_running, a_completion, calendar, reader,
}
use agent_runtime_ops.RootAction.Tests.Stores.{claimed_record}
use agent_runtime_ops.RootAction.Tests.Databases.{pending_database}

abbrev a_nonce : Bytes
a_nonce =
    1 ∷ 2 ∷ 3 ∷ 4 ∷ 5 ∷ 6 ∷ 7 ∷ 8 ∷ 1 ∷ 2 ∷ 3 ∷ 4 ∷ 5 ∷ 6 ∷ 7 ∷ 8 ∷ 1 ∷ 2 ∷ 3 ∷ 4 ∷ 5 ∷ 6 ∷ 7 ∷ 8
    ∷ 1 ∷ 2 ∷ 3 ∷ 4 ∷ 5 ∷ 6 ∷ 7 ∷ 8 ∷ []

abbrev a_credential : RegisteredCredential
a_credential = record {
  credential_id = 11 ∷ [];
  public_key = 12 ∷ [];
  sign_count = 1;
  role = approval_role;
  label = "office_windows_hello";
  aaguid = "aaguid-1";
  device_type = "single_device";
  backed_up = false;
  registered_at = "2025-12-01T00:00:00Z";
  revoked_at = none;
}

abbrev a_ceremony : PendingCeremony
a_ceremony = record {
  ceremony_id = "ceremony-1";
  purpose = approval;
  challenge = 7 ∷ [];
  binding_nonce = a_nonce;
  challenge_digest = a_digest;
  issued_at = "2026-01-01T00:00:01Z";
  expires_at = "2026-01-01T00:02:01Z";
  job_id = some "job-1";
  job_digest = some a_digest;
  bootstrap_id = none;
  role = none;
  label = none;
  state = issued;
  consumed_at = none;
  credential_fingerprint = none;
}

abbrev an_assertion : VerifiedAssertion
an_assertion = record {
  credential_id = 11 ∷ [];
  new_sign_count = 2;
  user_verified = true;
  device_type = "single_device";
  backed_up = false;
  origin = "https://ops.example";
  rp_id = "ops.example";
}

abbrev an_approval : ApprovalRecord
an_approval = record {
  approval_id = "approval-1";
  ceremony_id = "ceremony-1";
  job_id = "job-1";
  job_digest = a_digest;
  credential_fingerprint = a_digest;
  verified_at = "2026-01-01T00:00:05Z";
  origin = "https://ops.example";
  rp_id = "ops.example";
  user_verified = true;
  sign_count = 2;
}

abbrev approvable_database : Database
approvable_database = record pending_database {
  auth_credentials = record { credential = a_credential; credential_fingerprint = a_digest } ∷ [];
  auth_ceremonies = a_ceremony ∷ [];
}

abbrev claimed_database : Database
claimed_database =
    (claim_with_approval a_ceremony a_credential an_assertion an_approval a_claim
      approvable_database).1

claimed_with_approval :
    (claim_with_approval a_ceremony a_credential an_assertion an_approval a_claim
      approvable_database).0
    ≡ ok a_running
unfolding claim_with_approval claim_contract consume_and_claim transaction ◌>>=◌ lift reads pure
    writes role_eq bytes_eq text_eq fingerprint read_ceremony fetch_one ceremony_checked
    check_safe_id check_digest check_bounded check_timestamp safe_id is_digest is_timestamp stamp
    in_ranges is_real text_lt binding_checks action_challenge_bytes ceremony_eq purpose_eq
    optional_role_eq ceremony_state_eq read_credential credential_from_row credential_checked
    label_has_role is_device_type credential_eq bool_eq update_sign_count count_rows update_rows
    consume_ceremony execute_insert any compare_and_append read_record validate_record
    validate_event_fields update_record insert_ledger
claimed_with_approval = rw claimed_record refl

claim_with_approval-Claimed_example :
    Claimed a_ceremony an_approval a_claim approvable_database claimed_database a_running
claim_with_approval-Claimed_example =
    claim_with_approval-Claimed a_ceremony a_credential an_assertion an_approval a_claim
      approvable_database claimed_database a_running
      (ap (λ (x : Result JobRecord). (x, claimed_database)) claimed_with_approval)

claim_with_approval_once_example :
    (x : Error) × ((claim_with_approval a_ceremony a_credential an_assertion an_approval a_claim
        (run (append a_completion ∷ []) claimed_database)).0
      ≡ err x)
claim_with_approval_once_example =
    claim_with_approval_once a_ceremony a_ceremony a_credential a_credential an_assertion
      an_assertion an_approval an_approval a_claim a_claim approvable_database claimed_database
      a_running (append a_completion ∷ [])
      (ap (λ (x : Result JobRecord). (x, claimed_database)) claimed_with_approval) refl

abbrev a_bootstrap : BootstrapSession
a_bootstrap = record {
  bootstrap_id = "bootstrap-1";
  token_digest = a_digest;
  issued_at = "2025-11-30T23:55:00Z";
  expires_at = "2025-12-01T00:05:00Z";
  remaining_registrations = 3;
  state = issued;
}

abbrev a_registration : PendingCeremony
a_registration = record a_ceremony {
  ceremony_id = "ceremony-0";
  purpose = registration;
  issued_at = "2025-11-30T23:59:00Z";
  expires_at = "2025-12-01T00:04:00Z";
  job_id = none;
  job_digest = none;
  bootstrap_id = some "bootstrap-1";
  role = some approval_role;
  label = some "office_windows_hello";
}

abbrev enrolment : List Command
enrolment =
    create_bootstrap a_bootstrap
    ∷ begin_registration a_digest a_registration
    ∷ register a_digest "ceremony-0" a_credential "2025-12-01T00:00:00Z"
    ∷ []

at_most_three_example : length (run enrolment empty_database).auth_credentials ≤ 3
at_most_three_example = at_most_three enrolment
