-- ===== src/RootAction/Posix/Registration.antt =====
-- Registration of a credential in posix_store.py: `issue_registration_ceremony` and
-- `complete_registration`.
use agent_runtime_ops.Prelude.{
  ℕ, ◌-◌, String, Bool, true, false, not, ◌&&◌, ◌||◌, [], ◌∷◌, ◌++◌, Option, none, some, ◌==◌,
  ◌==ℕ◌, ltb, is_none, is_some, if◌then◌else◌, Result, guard, storage_conflict,
}
use agent_runtime_ops.Prelude.Actions.{◌>>=◌, ◌>>◌, lift, reads, pure}
use agent_runtime_ops.Prelude.Lists.{any}
use agent_runtime_ops.Text.{text_lt}
use agent_runtime_ops.Time.{Datetime}
use agent_runtime_ops.RootAction.Json.{Library}
use agent_runtime_ops.RootAction.Store.{bytes_eq}
use agent_runtime_ops.RootAction.Authorization.{
  CredentialRole, CeremonyPurpose, registration, CeremonyState, issued, consumed,
  RegisteredCredential, BootstrapSession, PendingCeremony, is_issued, role_eq,
}
use agent_runtime_ops.RootAction.Authorization.Challenges.{fingerprint}
use agent_runtime_ops.RootAction.Authorization.Records.{text_eq}
use agent_runtime_ops.RootAction.Posix.{
  CredentialRow, Database, Tx, fetch_one, count_rows, update_rows, execute_insert, transaction,
  job_exists,
}
use agent_runtime_ops.RootAction.Posix.Reading.{ceremony_for, bootstrap_by_token, read_ceremony}
use agent_runtime_ops.RootAction.Posix.Transitions.{update_one}

abbrev pub is_registration : CeremonyPurpose → Bool
is_registration registration = true
is_registration _ = false

-- A column that refers to another table, or is NULL.
abbrev pub refers : {A : Type 0} → (A → Bool) → Option A → Bool
refers exists none = true
refers exists (some a) = exists a

abbrev pub bootstrap_exists : String → Database → Bool
bootstrap_exists bootstrap_id db =
    any (λ (row : BootstrapSession). row.bootstrap_id == bootstrap_id) db.auth_bootstrap

abbrev pub fingerprint_exists : String → Database → Bool
fingerprint_exists value db =
    any (λ (row : CredentialRow). row.credential_fingerprint == value) db.auth_credentials

-- The keys and references of `root_action_auth_ceremonies`.
abbrev pub ceremony_taken : PendingCeremony → Database → Bool
ceremony_taken c db =
    any
      (λ (row : PendingCeremony).
        ceremony_for c.ceremony_id row || row.challenge_digest == c.challenge_digest)
      db.auth_ceremonies
    || not (refers (λ job_id. job_exists job_id db) c.job_id)
    || not (refers (λ bootstrap_id. bootstrap_exists bootstrap_id db) c.bootstrap_id)
    || not (refers (λ value. fingerprint_exists value db) c.credential_fingerprint)

abbrev pub with_ceremony : PendingCeremony → Database → Database
with_ceremony c db = record db { auth_ceremonies = db.auth_ceremonies ++ c ∷ [] }

unfoldable pub insert_ceremony : PendingCeremony → Tx (Unit {0})
insert_ceremony c = execute_insert (ceremony_taken c) (with_ceremony c)

-- `WHERE ceremony_id=? AND state='issued'`
abbrev pub issued_ceremony : String → PendingCeremony → Bool
issued_ceremony ceremony_id row = ceremony_for ceremony_id row && is_issued row.state

abbrev pub consumed_row : String → String → PendingCeremony → PendingCeremony
consumed_row consumed_at value row = record row {
  state = consumed;
  consumed_at = some consumed_at;
  credential_fingerprint = some value;
}

-- The credential that the row names is in its table.
unfoldable pub consume_ceremony : String → String → String → Tx (Unit {0})
consume_ceremony ceremony_id consumed_at value db =
    update_one (count_rows (issued_ceremony ceremony_id) db.auth_ceremonies)
      (λ db. record db {
        auth_ceremonies =
            update_rows (issued_ceremony ceremony_id) (consumed_row consumed_at value)
              db.auth_ceremonies;
      })
      db

-- `bootstrap.bootstrap_id == ceremony.bootstrap_id` for an optional text.
abbrev pub names_bootstrap : PendingCeremony → BootstrapSession → Bool
names_bootstrap c b = text_eq (some b.bootstrap_id) c.bootstrap_id

-- `WHERE bootstrap_id=? AND state='issued' AND expires_at>=?`
abbrev pub outstanding : BootstrapSession → PendingCeremony → PendingCeremony → Bool
outstanding b c row =
    names_bootstrap row b && is_issued row.state && not (text_lt row.expires_at c.issued_at)

abbrev pub none_outstanding : BootstrapSession → PendingCeremony → Database → Result (Unit {0})
none_outstanding b c db =
    guard (is_none (fetch_one (outstanding b c) db.auth_ceremonies)) storage_conflict

-- The keys of `root_action_auth_credentials`, and its index on the labels of active credentials.
abbrev pub credential_taken : RegisteredCredential → String → Database → Bool
credential_taken c value db =
    any
      (λ (row : CredentialRow).
        bytes_eq row.credential.credential_id c.credential_id
        || row.credential_fingerprint == value
        || (is_none row.credential.revoked_at
            && is_none c.revoked_at
            && row.credential.label == c.label))
      db.auth_credentials

abbrev pub with_credential : RegisteredCredential → String → Database → Database
with_credential c value db = record db {
  auth_credentials =
      db.auth_credentials ++ record { credential = c; credential_fingerprint = value } ∷ [];
}

-- `WHERE bootstrap_id=? AND state='issued' AND remaining_registrations=?`
abbrev pub same_counter : BootstrapSession → BootstrapSession → Bool
same_counter b row =
    row.bootstrap_id == b.bootstrap_id
    && is_issued row.state
    && row.remaining_registrations ==ℕ b.remaining_registrations

abbrev pub state_with : ℕ → CeremonyState
state_with remaining = if remaining ==ℕ 0 then consumed else issued

-- One registration less.
abbrev pub counted_down : BootstrapSession → BootstrapSession → BootstrapSession
counted_down b row = record row {
  remaining_registrations = b.remaining_registrations - 1;
  state = state_with (b.remaining_registrations - 1);
}

unfoldable pub count_down : BootstrapSession → Tx (Unit {0})
count_down b db =
    update_one (count_rows (same_counter b) db.auth_bootstrap)
      (λ db. record db {
        auth_bootstrap = update_rows (same_counter b) (counted_down b) db.auth_bootstrap;
      })
      db

-- `ceremony.role is credential.role`
abbrev pub role_is : Option CredentialRole → CredentialRole → Bool
role_is none role = false
role_is (some given) role = role_eq given role

abbrev pub can_register : PendingCeremony → RegisteredCredential → String → Bool
can_register c credential consumed_at =
    is_registration c.purpose
    && is_issued c.state
    && text_lt consumed_at c.expires_at
    && is_some c.bootstrap_id
    && role_is c.role credential.role
    && text_eq c.label (some credential.label)

abbrev pub is_active_for : PendingCeremony → String → BootstrapSession → Bool
is_active_for c consumed_at b =
    names_bootstrap c b
    && is_issued b.state
    && not (ltb b.remaining_registrations 1)
    && text_lt consumed_at b.expires_at

module _ ⦃datetime : Datetime⦄ ⦃library : Library⦄ where
  unfoldable pub issue_registration_ceremony : String → PendingCeremony → Tx (Unit {0})
  issue_registration_ceremony token_digest c = do
    lift (guard (is_registration c.purpose && is_issued c.state) storage_conflict)
    transaction do
      b ← reads (bootstrap_by_token token_digest)
      lift (
          guard
            (names_bootstrap c b
              && is_issued b.state
              && not (ltb b.remaining_registrations 1)
              && text_lt c.issued_at b.expires_at
              && not (text_lt b.expires_at c.expires_at))
            storage_conflict)
      reads (none_outstanding b c)
      insert_ceremony c

  unfoldable pub insert_credential : RegisteredCredential → Tx (Unit {0})
  insert_credential c =
      execute_insert (credential_taken c (fingerprint c.credential_id))
        (with_credential c (fingerprint c.credential_id))

  unfoldable pub complete_registration :
      String → String → RegisteredCredential → String → Tx RegisteredCredential
  complete_registration token_digest ceremony_id credential consumed_at = transaction do
    c ← reads (read_ceremony ceremony_id)
    lift (guard (can_register c credential consumed_at) storage_conflict)
    b ← reads (bootstrap_by_token token_digest)
    lift (guard (is_active_for c consumed_at b) storage_conflict)
    insert_credential credential
    consume_ceremony c.ceremony_id consumed_at (fingerprint credential.credential_id)
    count_down b
    pure credential
