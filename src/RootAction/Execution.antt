-- ===== src/RootAction/Execution.antt =====
-- Which operations may be executed, and by which handler
-- (opsctl/agent_runtime_ops/root_actions/execution.py).
mod Names
pub mod Policies
pub mod Handlers
use agent_runtime_ops.Prelude.{
  String, Bool, true, false, not, ◌&&◌, ◌||◌, List, [], ◌∷◌, map, Option, none, some, ◌==◌, is_none,
  ◌==ℕ◌, if◌then◌else◌, Result, ok, ◌>>=◌, ◌>>◌, guard, raise_if, value_error, key_error,
}
use agent_runtime_ops.Prelude.Lists.{length}
use agent_runtime_ops.Prelude.Int.{ℤ, pos, int_eq}
use agent_runtime_ops.Prelude.Dict.{Dict, put, has}
use agent_runtime_ops.Text.{text_lt}
use agent_runtime_ops.RootAction.Job.{Bytes, SealedJob}
use agent_runtime_ops.RootAction.Json.{contains, same_set}
use agent_runtime_ops.RootAction.Registry.{
  OperationSpec, OperationRegistry, default_registry, registry_spec,
}
use agent_runtime_ops.RootAction.Store.{find}
use agent_runtime_ops.RootAction.Store.Transitions.{dict_keys, sort_by}

pub data OperationAvailability : Type 0 where
  enabled disabled_unverified_authority : OperationAvailability

pub record ExecutionPolicy : Type 0 where
  pub operation_id : String
  pub operation_version : ℤ
  pub availability : OperationAvailability
  pub reason_code : Option String
  pub auto_dispatch : Bool

-- `availability is OperationAvailability.ENABLED`
abbrev pub is_enabled : OperationAvailability → Bool
is_enabled enabled = true
is_enabled disabled_unverified_authority = false

-- `not reason_code`
abbrev pub no_reason : Option String → Bool
no_reason none = true
no_reason (some reason) = reason == ""

-- `OperationRegistry.operation_ids`
unfoldable pub operation_ids : OperationRegistry → List String
operation_ids registry =
    sort_by text_lt (map (λ (spec : OperationSpec). spec.operation_id) registry.specs)

-- The checks of a policy in the loop of `ExecutionPolicyRegistry.__init__`.
unfoldable pub check_policy : Dict ExecutionPolicy → ExecutionPolicy → Result (Unit {0})
check_policy by_id policy = do
  raise_if (has policy.operation_id by_id) value_error
  guard (contains policy.operation_id (operation_ids default_registry)) value_error
  spec ← registry_spec default_registry policy.operation_id
  guard (int_eq policy.operation_version (pos spec.version)) value_error
  guard
      (if is_enabled policy.availability
        then is_none policy.reason_code
        else not (no_reason policy.reason_code))
      value_error
  raise_if (not (is_enabled policy.availability) && policy.auto_dispatch) value_error

unfoldable pub add_policies :
    Dict ExecutionPolicy → List ExecutionPolicy → Result (Dict ExecutionPolicy)
add_policies by_id [] = ok by_id
add_policies by_id (policy ∷ policies) = do
  check_policy by_id policy
  add_policies (put policy.operation_id policy by_id) policies

pub record ExecutionPolicyRegistry : Type 0 where
  pub policies : Dict ExecutionPolicy

-- `ExecutionPolicyRegistry.__init__`
unfoldable pub execution_policy_registry : List ExecutionPolicy → Result ExecutionPolicyRegistry
execution_policy_registry policies = do
  by_id ← add_policies [] policies
  guard (same_set (dict_keys by_id) (operation_ids default_registry)) value_error
  ok (record { policies = by_id })

unfoldable pub keys_where : (ExecutionPolicy → Bool) → Dict ExecutionPolicy → List String
keys_where p [] = []
keys_where p ((key, value) ∷ items) =
    let rest = keys_where p items in if p value then key ∷ rest else rest

unfoldable pub enabled_operation_ids : ExecutionPolicyRegistry → List String
enabled_operation_ids registry =
    sort_by text_lt
      (keys_where (λ (value : ExecutionPolicy). is_enabled value.availability) registry.policies)

unfoldable pub disabled_operation_ids : ExecutionPolicyRegistry → List String
disabled_operation_ids registry = sort_by text_lt (
    keys_where (λ (value : ExecutionPolicy). not (is_enabled value.availability)) registry.policies)

-- `ExecutionPolicyRegistry.policy`
unfoldable pub execution_policy : ExecutionPolicyRegistry → String → Result ExecutionPolicy
execution_policy registry operation_id = find key_error operation_id registry.policies

abbrev disabled : String → ExecutionPolicy
disabled operation_id = record {
  operation_id = operation_id;
  operation_version = pos 1;
  availability = disabled_unverified_authority;
  reason_code = some "disabled_unverified_authority";
  auto_dispatch = false;
}

-- `DEFAULT_EXECUTION_POLICIES`
abbrev pub default_policies : List ExecutionPolicy
default_policies =
    disabled "audit.verify"
    ∷ disabled "projection.staging_selftest"
    ∷ disabled "agent_loop.campaign_run"
    ∷ record {
      operation_id = "nas.observe_groupware_runtime";
      operation_version = pos 1;
      availability = enabled;
      reason_code = none;
      auto_dispatch = true;
    }
    ∷ []

pub record HandlerResult : Type 0 where
  pub raw_bytes : Bytes
  pub public_status : String
  pub public_facts : List (String × String)
  pub terminal_outcome : String
  pub reason_code : String
  pub exit_code : ℤ

-- `HandlerResult.__post_init__`
unfoldable pub handler_result_checked : HandlerResult → Result HandlerResult
handler_result_checked result = do
  raise_if (length result.raw_bytes ==ℕ 0) value_error
  guard (result.terminal_outcome == "succeeded" || result.terminal_outcome == "failed") value_error
  raise_if (result.reason_code == "") value_error
  raise_if (result.terminal_outcome == "succeeded" && not (int_eq result.exit_code (pos 0)))
      value_error
  ok result

-- A handler: what its `run` does is a field, which may raise.
pub record OperationHandler : Type 0 where
  pub operation_id : String
  pub operation_version : ℤ
  pub run : SealedJob → Result HandlerResult

unfoldable pub check_handler :
    ExecutionPolicyRegistry → Dict OperationHandler → OperationHandler → Result (Unit {0})
check_handler policies by_id handler = do
  raise_if (has handler.operation_id by_id) value_error
  policy ← execution_policy policies handler.operation_id
  guard (is_enabled policy.availability) value_error
  guard (int_eq handler.operation_version policy.operation_version) value_error

unfoldable pub add_handlers :
    ExecutionPolicyRegistry
    → Dict OperationHandler
    → List OperationHandler
    → Result (Dict OperationHandler)
add_handlers policies by_id [] = ok by_id
add_handlers policies by_id (handler ∷ handlers) = do
  check_handler policies by_id handler
  add_handlers policies (put handler.operation_id handler by_id) handlers

-- `OperationHandlerRegistry.__init__`, and its `handler`
unfoldable pub operation_handler_registry :
    List OperationHandler → ExecutionPolicyRegistry → Result (Dict OperationHandler)
operation_handler_registry handlers policies = do
  by_id ← add_handlers policies [] handlers
  guard (same_set (dict_keys by_id) (enabled_operation_ids policies)) value_error
  ok by_id

unfoldable pub operation_handler : Dict OperationHandler → String → Result OperationHandler
operation_handler handlers operation_id = find key_error operation_id handlers
