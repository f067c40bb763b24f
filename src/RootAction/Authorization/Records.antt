-- ===== src/RootAction/Authorization/Records.antt =====
-- What the constructors of authorization.py check, and equality of its records.
use agent_runtime_ops.Prelude.{
  String, Bool, true, false, not, ◌&&◌, ◌||◌, Option, none, some, ◌==◌, ◌==ℕ◌, leb, ltb,
  if◌then◌else◌, is_some, Result, ok, err, ◌>>=◌, ◌>>◌, guard, raise_if,
  webauthn_authorization_error,
}
use agent_runtime_ops.Prelude.Lists.{length}
use agent_runtime_ops.Text.{codes, text_lt}
use agent_runtime_ops.Time.{Datetime}
use agent_runtime_ops.RootAction.Json.{Library}
use agent_runtime_ops.RootAction.Store.{bytes_eq}
use agent_runtime_ops.RootAction.Authorization.{
  CredentialRole, CeremonyPurpose, approval, registration, recovery, CeremonyState, issued,
  consumed, expired, RegisteredCredential, BootstrapSession, PendingCeremony, VerifiedAssertion,
  ApprovalRecord, max_credential_bytes, is_issued, is_consumed, is_recovery_role, role_eq,
  label_has_role, or_empty, check_safe_id, check_digest, check_bounded, check_timestamp,
  is_device_type, is_rp_id,
}
use agent_runtime_ops.RootAction.Authorization.Challenges.{
  action_challenge_bytes, registration_challenge_bytes,
}

abbrev raise_unless : Bool → Result (Unit {0})
raise_unless b = guard b webauthn_authorization_error

module _ ⦃datetime : Datetime⦄ where
  -- `if revoked_at is not None: ...`
  revocation_checks : String → Option String → Result (Unit {0})
  revocation_checks registered_at none = ok tt
  revocation_checks registered_at (some revoked_at) = do
    check_timestamp revoked_at
    raise_if (text_lt revoked_at registered_at) webauthn_authorization_error

  -- `RegisteredCredential.__post_init__`
  unfoldable pub credential_checked : RegisteredCredential → Result RegisteredCredential
  unfolding revocation_checks
  credential_checked c = do
    check_bounded max_credential_bytes c.credential_id
    check_bounded 16384 c.public_key
    raise_unless (label_has_role c.label c.role)
    check_safe_id c.aaguid
    raise_unless (is_device_type c.device_type)
    check_timestamp c.registered_at
    revocation_checks c.registered_at c.revoked_at
    raise_if (is_recovery_role c.role && (not (c.device_type == "single_device") || c.backed_up))
        webauthn_authorization_error
    ok c

  -- `BootstrapSession.__post_init__`
  unfoldable pub bootstrap_checked : BootstrapSession → Result BootstrapSession
  bootstrap_checked b = do
    check_safe_id b.bootstrap_id
    check_digest b.token_digest
    check_timestamp b.issued_at
    check_timestamp b.expires_at
    raise_unless (text_lt b.issued_at b.expires_at)
    raise_unless (leb b.remaining_registrations 3)
    raise_if (is_issued b.state && ltb b.remaining_registrations 1) webauthn_authorization_error
    raise_if (is_consumed b.state && not (b.remaining_registrations ==ℕ 0))
        webauthn_authorization_error
    ok b

  -- What an issued ceremony lacks, and what any other has.
  consumption_checks : PendingCeremony → Result (Unit {0})
  consumption_checks c =
      if is_issued c.state
      then raise_if (is_some c.consumed_at || is_some c.credential_fingerprint)
          webauthn_authorization_error
      else (do
        check_timestamp (or_empty c.consumed_at)
        raise_if (text_lt (or_empty c.consumed_at) c.issued_at) webauthn_authorization_error
        elim c.credential_fingerprint [ none ↦ ok tt | some f ↦ check_digest f ])

  -- The role and label of a registration, where both are given.
  role_or_raise : Option CredentialRole → String → Result CredentialRole
  role_or_raise none label = err webauthn_authorization_error
  role_or_raise (some role) label = do raise_unless (label_has_role label role); ok role

  module _ ⦃library : Library⦄ where
    -- The branches on the purpose: what the ceremony is bound to, and its challenge.
    unfoldable pub binding_checks : CeremonyPurpose → PendingCeremony → Result (Unit {0})
    unfolding role_or_raise
    binding_checks approval c = do
      check_safe_id (or_empty c.job_id)
      check_digest (or_empty c.job_digest)
      raise_if (is_some c.bootstrap_id || is_some c.role || is_some c.label)
          webauthn_authorization_error
      expected ← action_challenge_bytes (or_empty c.job_digest) c.binding_nonce c.expires_at
      raise_unless (bytes_eq c.challenge expected)
    binding_checks registration c = do
      check_safe_id (or_empty c.bootstrap_id)
      role ← role_or_raise c.role (or_empty c.label)
      raise_if (is_some c.job_id || is_some c.job_digest) webauthn_authorization_error
      expected ←
          registration_challenge_bytes (or_empty c.bootstrap_id) role (or_empty c.label)
            c.binding_nonce c.expires_at
      raise_unless (bytes_eq c.challenge expected)
    binding_checks recovery c = err webauthn_authorization_error

    -- `PendingCeremony.__post_init__`
    unfoldable pub ceremony_checked : PendingCeremony → Result PendingCeremony
    unfolding consumption_checks
    ceremony_checked c = do
      check_safe_id c.ceremony_id
      check_bounded 64 c.challenge
      raise_unless (length c.binding_nonce ==ℕ 32)
      check_digest c.challenge_digest
      raise_unless (c.challenge_digest == library.sha256 c.challenge)
      check_timestamp c.issued_at
      check_timestamp c.expires_at
      raise_unless (text_lt c.issued_at c.expires_at)
      consumption_checks c
      binding_checks c.purpose c
      ok c

  -- `ApprovalRecord.__post_init__`
  unfoldable pub approval_checked : ApprovalRecord → Result ApprovalRecord
  unfolding codes
  approval_checked a = do
    check_safe_id a.approval_id
    check_safe_id a.ceremony_id
    check_safe_id a.job_id
    check_digest a.job_digest
    check_digest a.credential_fingerprint
    check_timestamp a.verified_at
    raise_unless (leb (length (codes a.origin)) 512)
    raise_unless (is_rp_id a.rp_id)
    raise_unless a.user_verified
    ok a

-- `VerifiedAssertion.__post_init__`
unfoldable pub assertion_checked : VerifiedAssertion → Result VerifiedAssertion
unfolding codes
assertion_checked v = do
  check_bounded max_credential_bytes v.credential_id
  raise_unless v.user_verified
  raise_unless (is_device_type v.device_type)
  raise_unless (leb (length (codes v.origin)) 512)
  raise_unless (is_rp_id v.rp_id)
  ok v

-- Equality of optional texts, states, purposes and of the frozen dataclasses.
unfoldable pub text_eq : Option String → Option String → Bool
text_eq none none = true
text_eq (some a) (some b) = a == b
text_eq _ _ = false

unfoldable pub optional_role_eq : Option CredentialRole → Option CredentialRole → Bool
optional_role_eq none none = true
optional_role_eq (some a) (some b) = role_eq a b
optional_role_eq _ _ = false

unfoldable pub purpose_eq : CeremonyPurpose → CeremonyPurpose → Bool
purpose_eq approval approval = true
purpose_eq registration registration = true
purpose_eq recovery recovery = true
purpose_eq _ _ = false

unfoldable pub ceremony_state_eq : CeremonyState → CeremonyState → Bool
ceremony_state_eq issued issued = true
ceremony_state_eq consumed consumed = true
ceremony_state_eq expired expired = true
ceremony_state_eq _ _ = false

-- `==` of two Booleans
unfoldable pub bool_eq : Bool → Bool → Bool
bool_eq true b = b
bool_eq false b = not b

unfoldable pub ceremony_eq : PendingCeremony → PendingCeremony → Bool
unfolding purpose_eq optional_role_eq text_eq ceremony_state_eq
ceremony_eq a b =
    a.ceremony_id == b.ceremony_id
    && purpose_eq a.purpose b.purpose
    && bytes_eq a.challenge b.challenge
    && bytes_eq a.binding_nonce b.binding_nonce
    && a.challenge_digest == b.challenge_digest
    && a.issued_at == b.issued_at
    && a.expires_at == b.expires_at
    && text_eq a.job_id b.job_id
    && text_eq a.job_digest b.job_digest
    && text_eq a.bootstrap_id b.bootstrap_id
    && optional_role_eq a.role b.role
    && text_eq a.label b.label
    && ceremony_state_eq a.state b.state
    && text_eq a.consumed_at b.consumed_at
    && text_eq a.credential_fingerprint b.credential_fingerprint

unfoldable pub credential_eq : RegisteredCredential → RegisteredCredential → Bool
unfolding text_eq bool_eq
credential_eq a b =
    bytes_eq a.credential_id b.credential_id
    && bytes_eq a.public_key b.public_key
    && a.sign_count ==ℕ b.sign_count
    && role_eq a.role b.role
    && a.label == b.label
    && a.aaguid == b.aaguid
    && a.device_type == b.device_type
    && bool_eq a.backed_up b.backed_up
    && a.registered_at == b.registered_at
    && text_eq a.revoked_at b.revoked_at
