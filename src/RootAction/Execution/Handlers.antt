-- ===== src/RootAction/Execution/Handlers.antt =====
-- What a registry of handlers has established (`OperationHandlerRegistry` of
-- opsctl/agent_runtime_ops/root_actions/execution.py).
use agent_runtime_ops.Prelude.{
  ◌≡◌, ◌↔◌, refl, ◌∙◌, sym, inl, inr, String, true, List, [], ◌∷◌, some, arith, ok, >>=-eq-ok,
  Option-cases, Result-cases,
}
use agent_runtime_ops.Prelude.Dict.{Dict, lookup, put, has}
use mathlib.Core.Path.{subst}
use agent_runtime_ops.RootAction.Json.{contains, same_set}
use agent_runtime_ops.RootAction.Store.Transitions.{dict_keys}
use agent_runtime_ops.RootAction.Store.Soundness.Dicts.{lookup-put_inv}
use agent_runtime_ops.RootAction.Execution.{
  ExecutionPolicy, ExecutionPolicyRegistry, is_enabled, enabled_operation_ids, execution_policy,
  OperationHandler, check_handler, add_handlers, operation_handler_registry, operation_handler,
}
use agent_runtime_ops.RootAction.Execution.Names.{has-contains, same_set-contains}
use agent_runtime_ops.RootAction.Execution.Policies.{int_eq-lem}

-- A handler under its name: its operation is enabled, in the handler's version.
pub record IsHandler (policies : ExecutionPolicyRegistry) (k : String) (handler : OperationHandler)
    : Type 0 where
  pub named : handler.operation_id ≡ k
  pub policy : ExecutionPolicy
  pub in_registry : execution_policy policies k ≡ ok policy
  pub available : is_enabled policy.availability ≡ true
  pub same_version : handler.operation_version ≡ policy.operation_version

abbrev IsHandlers : ExecutionPolicyRegistry → Dict OperationHandler → Type 0
IsHandlers policies d =
    (k : String) (handler : OperationHandler)
    → lookup k d ≡ some handler
    → IsHandler policies k handler

check_handler-IsHandler :
    (policies : ExecutionPolicyRegistry) (d : Dict OperationHandler) (handler : OperationHandler)
    → check_handler policies d handler ≡ ok tt
    → IsHandler policies handler.operation_id handler
unfolding check_handler
check_handler-IsHandler policies d handler h =
    elim (Result-cases (execution_policy policies handler.operation_id)) [
      | inr (x, e) ↦ ground arith
      | inl (policy, e) ↦ record {
        named = refl;
        policy = policy;
        in_registry = e;
        available = ground arith;
        same_version = int_eq-lem handler.operation_version policy.operation_version (ground arith);
      }
    ]

add_handlers-IsHandlers :
    (policies : ExecutionPolicyRegistry) (d d' : Dict OperationHandler)
    (handlers : List OperationHandler)
    → IsHandlers policies d
    → add_handlers policies d handlers ≡ ok d'
    → IsHandlers policies d'
unfolding add_handlers
add_handlers-IsHandlers policies d d' [] h e = let q : d ≡ d' = cc e in rw (← q) h
add_handlers-IsHandlers policies d d' (handler ∷ handlers) h e =
    let (t, p, q) = >>=-eq-ok (check_handler policies d handler) _ e in
    let i = check_handler-IsHandler policies d handler p in
    add_handlers-IsHandlers policies (put handler.operation_id handler d) d' handlers
      (λ k v f. elim (lookup-put_inv handler.operation_id k handler v d f) [
        | inl (r, s) ↦
            subst (λ j. IsHandler policies j v) r
              (subst (λ w. IsHandler policies handler.operation_id w) s i)
        | inr (r, s) ↦ h k v s
      ])
      q

registry-IsHandlers :
    (handlers : List OperationHandler) (policies : ExecutionPolicyRegistry)
    (d : Dict OperationHandler)
    → operation_handler_registry handlers policies ≡ ok d
    → IsHandlers policies d × (same_set (dict_keys d) (enabled_operation_ids policies) ≡ true)
unfolding operation_handler_registry lookup
registry-IsHandlers handlers policies d h =
    let (c, p, q) = >>=-eq-ok (add_handlers policies [] handlers) _ h in
    let e : c ≡ d = ground arith in
    rw (← e) (add_handlers-IsHandlers policies [] c handlers (λ k v f. cc) p, ground arith)

operation_handler-has :
    (d : Dict OperationHandler) (k : String)
    → (has k d ≡ true) ↔ (
        (handler : OperationHandler) × (operation_handler d k ≡ ok handler)
        × (lookup k d ≡ some handler))
unfolding operation_handler
operation_handler-has d k = elim (Option-cases (lookup k d)) [
  | inl n ↦ (λ h. ground arith, λ (v, f, g). ground arith)
  | inr (v, e) ↦ (λ h. (v, ground arith, e), λ _. ground arith)
]

-- Exactly the enabled operations have a handler, and the handler of an operation is one for it,
-- in the version of its policy.
pub registered-IsHandler_iff :
    (handlers : List OperationHandler) (policies : ExecutionPolicyRegistry)
    (d : Dict OperationHandler) (k : String)
    → operation_handler_registry handlers policies ≡ ok d
    → (contains k (enabled_operation_ids policies) ≡ true) ↔ (
        (handler : OperationHandler) × (operation_handler d k ≡ ok handler)
        × IsHandler policies k handler)
unfolding operation_handler
registered-IsHandler_iff handlers policies d k h =
    let (i, same) = registry-IsHandlers handlers policies d h in
    let s = same_set-contains k (dict_keys d) (enabled_operation_ids policies) same in
    let t : has k d ≡ contains k (enabled_operation_ids policies) = has-contains k d ∙ s in
    let (p, q) = operation_handler-has d k in
    (λ b. let (v, e, f) = p (t ∙ b) in (v, e, i k v f), λ (v, e, g). sym t ∙ ground arith)
