-- ===== src/RootAction/Authorization/Challenges.antt =====
-- The digests and challenges that bind a ceremony (authorization.py).
use agent_runtime_ops.Prelude.{
  String, ◌∷◌, ◌++◌, ◌==ℕ◌, Result, ok, ◌>>◌, guard, webauthn_authorization_error,
}
use agent_runtime_ops.Prelude.Lists.{length}
use agent_runtime_ops.Text.{codes}
use agent_runtime_ops.Time.{Datetime}
use agent_runtime_ops.RootAction.Job.{Bytes}
use agent_runtime_ops.RootAction.Json.{Library}
use agent_runtime_ops.RootAction.Authorization.{
  CredentialRole, approval_role, recovery_role, label_has_role, check_safe_id, check_digest,
  check_bounded, check_timestamp,
}

-- `role.value`
unfoldable pub role_text : CredentialRole → String
role_text approval_role = "approval"
role_text recovery_role = "recovery"

module _ ⦃library : Library⦄ where
  -- The property `fingerprint`.
  unfoldable pub fingerprint : Bytes → String
  unfolding codes
  fingerprint credential_id =
      library.sha256 (codes "agent-runtime-root-action-credential/v1" ++ 0 ∷ credential_id)

  unfoldable pub bootstrap_token_digest : Bytes → Result String
  unfolding codes
  bootstrap_token_digest token = do
    check_bounded 64 token
    ok (library.sha256 (codes "agent-runtime-root-action-bootstrap/v1" ++ 0 ∷ token))

  module _ ⦃datetime : Datetime⦄ where
    unfoldable pub action_challenge_bytes : String → Bytes → String → Result Bytes
    unfolding codes
    action_challenge_bytes job_digest nonce expires_at = do
      check_digest job_digest
      guard (length nonce ==ℕ 32) webauthn_authorization_error
      check_timestamp expires_at
      ok (
          library.digest (
            codes "agent-runtime-root-action-approval/v1"
            ++ 0 ∷ codes job_digest
            ++ 0 ∷ nonce
            ++ 0 ∷ codes expires_at))

    unfoldable pub registration_challenge_bytes :
        String → CredentialRole → String → Bytes → String → Result Bytes
    unfolding codes role_text
    registration_challenge_bytes bootstrap_id role label nonce expires_at = do
      check_safe_id bootstrap_id
      guard (label_has_role label role) webauthn_authorization_error
      guard (length nonce ==ℕ 32) webauthn_authorization_error
      check_timestamp expires_at
      ok (
          library.digest (
            codes "agent-runtime-root-action-registration/v1"
            ++ 0 ∷ codes bootstrap_id
            ++ 0 ∷ codes (role_text role)
            ++ 0 ∷ codes label
            ++ 0 ∷ nonce
            ++ 0 ∷ codes expires_at))
