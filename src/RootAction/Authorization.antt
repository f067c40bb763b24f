-- ===== src/RootAction/Authorization.antt =====
-- Credentials, bootstrap sessions, ceremonies and approvals
-- (opsctl/agent_runtime_ops/root_actions/authorization.py), with the checks that their constructors
-- make. The tests of a value's type, and that a number is not negative, hold by typing.
pub mod Challenges
pub mod Records
use agent_runtime_ops.Prelude.{
  ℕ, ◌+◌, String, Bool, true, false, not, ◌&&◌, ◌||◌, List, [], ◌∷◌, ◌++◌, Option, none, some, ◌==◌,
  leb, ltb, ◌==ℕ◌, if◌then◌else◌, is_some, Result, ok, ◌>>=◌, ◌>>◌, guard, raise_if,
  webauthn_authorization_error,
}
use agent_runtime_ops.Prelude.Lists.{length, all}
use agent_runtime_ops.Text.{codes, safe_id, is_digest, is_digit, is_lower}
use agent_runtime_ops.Time.{Datetime, is_timestamp}
use agent_runtime_ops.RootAction.Job.{Bytes}

pub data CredentialRole : Type 0 where
  approval_role recovery_role : CredentialRole

pub data CeremonyPurpose : Type 0 where
  approval registration recovery : CeremonyPurpose

-- `CeremonyState` and `BootstrapState` have the same members.
pub data CeremonyState : Type 0 where
  issued consumed expired : CeremonyState

abbrev pub BootstrapState : Type 0
BootstrapState = CeremonyState

pub record RegisteredCredential : Type 0 where
  pub credential_id : Bytes
  pub public_key : Bytes
  pub sign_count : ℕ
  pub role : CredentialRole
  pub label : String
  pub aaguid : String
  pub device_type : String
  pub backed_up : Bool
  pub registered_at : String
  pub revoked_at : Option String

pub record BootstrapSession : Type 0 where
  pub bootstrap_id : String
  pub token_digest : String
  pub issued_at : String
  pub expires_at : String
  pub remaining_registrations : ℕ
  pub state : BootstrapState

pub record PendingCeremony : Type 0 where
  pub ceremony_id : String
  pub purpose : CeremonyPurpose
  pub challenge : Bytes
  pub binding_nonce : Bytes
  pub challenge_digest : String
  pub issued_at : String
  pub expires_at : String
  pub job_id : Option String
  pub job_digest : Option String
  pub bootstrap_id : Option String
  pub role : Option CredentialRole
  pub label : Option String
  pub state : CeremonyState
  pub consumed_at : Option String
  pub credential_fingerprint : Option String

pub record VerifiedAssertion : Type 0 where
  pub credential_id : Bytes
  pub new_sign_count : ℕ
  pub user_verified : Bool
  pub device_type : String
  pub backed_up : Bool
  pub origin : String
  pub rp_id : String

pub record ApprovalRecord : Type 0 where
  pub approval_id : String
  pub ceremony_id : String
  pub job_id : String
  pub job_digest : String
  pub credential_fingerprint : String
  pub verified_at : String
  pub origin : String
  pub rp_id : String
  pub user_verified : Bool
  pub sign_count : ℕ

abbrev pub max_credential_bytes : ℕ
max_credential_bytes = 4096

-- `state is CeremonyState.ISSUED`, and so on.
abbrev pub is_issued : CeremonyState → Bool
is_issued issued = true
is_issued _ = false

abbrev pub is_consumed : CeremonyState → Bool
is_consumed consumed = true
is_consumed _ = false

abbrev pub is_recovery_role : CredentialRole → Bool
is_recovery_role recovery_role = true
is_recovery_role approval_role = false

unfoldable pub role_eq : CredentialRole → CredentialRole → Bool
role_eq approval_role approval_role = true
role_eq recovery_role recovery_role = true
role_eq _ _ = false

-- `_LABEL_ROLES.get(label) == role.value`
unfoldable pub label_has_role : String → CredentialRole → Bool
label_has_role label approval_role =
    label == "office_windows_hello" || label == "remote_phone_passkey"
label_has_role label recovery_role = label == "recovery_fido2"

-- `value or ""`
abbrev pub or_empty : Option String → String
or_empty none = ""
or_empty (some s) = s

-- `_safe_id`, `_digest`, `_bounded_bytes` and `_timestamp`.
unfoldable pub check_safe_id : String → Result (Unit {0})
check_safe_id value = guard (safe_id value) webauthn_authorization_error

unfoldable pub check_digest : String → Result (Unit {0})
check_digest value = guard (is_digest value) webauthn_authorization_error

unfoldable pub check_bounded : ℕ → Bytes → Result (Unit {0})
check_bounded maximum value =
    raise_if (length value ==ℕ 0 || ltb maximum (length value)) webauthn_authorization_error

unfoldable pub check_timestamp : ⦃datetime : Datetime⦄ → String → Result (Unit {0})
check_timestamp ⦃datetime⦄ value = do
  guard (is_timestamp value) webauthn_authorization_error
  guard (is_some (datetime.strptime value)) webauthn_authorization_error

unfoldable pub is_device_type : String → Bool
is_device_type value = value == "single_device" || value == "multi_device"

-- `[a-z0-9](?:[a-z0-9-]{0,61}[a-z0-9])?` after its first character, of which `n` have been read and
-- the last is a letter or digit if `alnum` holds: the rest of the text, label by label.
is_alnum : ℕ → Bool
unfolding is_digit is_lower
is_alnum c = is_lower c || is_digit c

labels_rest : ℕ → Bool → List ℕ → Bool
unfolding is_alnum
labels_rest n alnum [] = alnum && leb 1 n && leb n 63
labels_rest n alnum (c ∷ cs) =
    (if c ==ℕ b'.' then alnum && leb 1 n && leb n 63 else is_alnum c || (c ==ℕ b'-' && leb 1 n))
    && labels_rest (if c ==ℕ b'.' then 0 else n + 1) (is_alnum c) cs

-- `_RP_ID_RE.fullmatch(value) is not None`
unfoldable pub is_rp_id : String → Bool
unfolding codes labels_rest
is_rp_id value = leb (length (codes value)) 253 && labels_rest 0 false (codes value)
