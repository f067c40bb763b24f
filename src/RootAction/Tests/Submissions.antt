-- ===== src/RootAction/Tests/Submissions.antt =====
-- The theorems of submission.py and execution.py at concrete frames, peers and registries.
use agent_runtime_ops.Prelude.{◌≡◌, ◌↔◌, refl, true, map, [], ◌∷◌, ok}
use agent_runtime_ops.Prelude.Int.{pos, int_eq}
use agent_runtime_ops.Prelude.Dict.{Dict, lookup, put}
use agent_runtime_ops.Prelude.Lists.{all}
use agent_runtime_ops.Text.{text_lt}
use agent_runtime_ops.RootAction.Json.{contains, same_set}
use agent_runtime_ops.RootAction.Registry.{registry_spec}
use agent_runtime_ops.RootAction.Admission.{default_limits}
use agent_runtime_ops.RootAction.Store.Transitions.{dict_keys, sort_by, insert_sorted}
use agent_runtime_ops.RootAction.Submission.{
  BrokerPeerIdentity, SubmissionPolicy, authorize, encode_submission_frame, decode_submission_frame,
}
use agent_runtime_ops.RootAction.Submission.Frames.{decode_submission_frame_iff}
use agent_runtime_ops.RootAction.Submission.Peers.{IsAuthorized, metadata_of, authorize_iff}
use agent_runtime_ops.RootAction.Execution.{
  ExecutionPolicy, ExecutionPolicyRegistry, default_policies, execution_policy_registry,
  add_policies, check_policy, operation_ids, execution_policy, enabled_operation_ids, keys_where,
  OperationHandler, HandlerResult, operation_handler_registry, operation_handler, add_handlers,
  check_handler,
}
use agent_runtime_ops.RootAction.Execution.Policies.{IsListed, registered_policy}
use agent_runtime_ops.RootAction.Execution.Handlers.{IsHandler, registered-IsHandler_iff}
use agent_runtime_ops.RootAction.Tests.Fixture.{a_job, calendar, reader}

decode_submission_frame_iff_example :
    (decode_submission_frame (0 ∷ 0 ∷ 0 ∷ 2 ∷ 1 ∷ 10 ∷ []) ≡ ok (1 ∷ 10 ∷ []))
    ↔ (encode_submission_frame (1 ∷ 10 ∷ []) ≡ ok (0 ∷ 0 ∷ 0 ∷ 2 ∷ 1 ∷ 10 ∷ []))
unfolding all
decode_submission_frame_iff_example =
    decode_submission_frame_iff (0 ∷ 0 ∷ 0 ∷ 2 ∷ 1 ∷ 10 ∷ []) (1 ∷ 10 ∷ []) refl

abbrev pub a_peer : BrokerPeerIdentity
a_peer = record { uid = 1000; gid = 1000; pid = 1 }

abbrev pub a_policy : SubmissionPolicy
a_policy = record {
  allowed_uids = 1000 ∷ [];
  allowed_gids = [];
  maximum_age_seconds = 900;
  maximum_future_skew_seconds = 30;
  limits = default_limits;
}

authorize_iff_example :
    (authorize a_policy a_job a_peer "2026-01-01T00:10:00Z"
      ≡ ok (metadata_of a_peer "2026-01-01T00:10:00Z"))
    ↔ IsAuthorized a_policy a_job a_peer "2026-01-01T00:10:00Z"
        (metadata_of a_peer "2026-01-01T00:10:00Z")
authorize_iff_example =
    authorize_iff a_policy a_job a_peer "2026-01-01T00:10:00Z"
      (metadata_of a_peer "2026-01-01T00:10:00Z")

-- `DEFAULT_EXECUTION_POLICIES`
abbrev pub default_execution_policies : ExecutionPolicyRegistry
default_execution_policies = record {
  policies = map (λ (policy : ExecutionPolicy). (policy.operation_id, policy)) default_policies;
}

pub default_registered : execution_policy_registry default_policies ≡ ok default_execution_policies
unfolding execution_policy_registry add_policies check_policy operation_ids sort_by insert_sorted
    text_lt registry_spec lookup put contains same_set dict_keys int_eq
default_registered = refl

registered_policy_example :
    (policy : ExecutionPolicy) × (execution_policy default_execution_policies "audit.verify"
      ≡ ok policy)
    × IsListed default_execution_policies "audit.verify" policy
unfolding operation_ids sort_by insert_sorted text_lt contains
registered_policy_example =
    registered_policy default_policies default_execution_policies "audit.verify" default_registered
      refl

abbrev a_result : HandlerResult
a_result = record {
  raw_bytes = 1 ∷ [];
  public_status = "healthy";
  public_facts = [];
  terminal_outcome = "succeeded";
  reason_code = "observed";
  exit_code = pos 0;
}

abbrev a_handler : OperationHandler
a_handler = record {
  operation_id = "nas.observe_groupware_runtime";
  operation_version = pos 1;
  run = λ job. ok a_result;
}

abbrev a_handler_registry : Dict OperationHandler
a_handler_registry = ("nas.observe_groupware_runtime", a_handler) ∷ []

handlers_registered :
    operation_handler_registry (a_handler ∷ []) default_execution_policies ≡ ok a_handler_registry
unfolding operation_handler_registry add_handlers check_handler execution_policy
    enabled_operation_ids keys_where sort_by insert_sorted text_lt lookup put contains same_set
    dict_keys int_eq
handlers_registered = refl

registered-IsHandler_iff_example :
    (contains "audit.verify" (enabled_operation_ids default_execution_policies) ≡ true) ↔ (
      (handler : OperationHandler) × (operation_handler a_handler_registry "audit.verify"
        ≡ ok handler)
      × IsHandler default_execution_policies "audit.verify" handler)
registered-IsHandler_iff_example =
    registered-IsHandler_iff (a_handler ∷ []) default_execution_policies a_handler_registry
      "audit.verify" handlers_registered
