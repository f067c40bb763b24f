-- ===== src/RootAction/Execution/Policies.antt =====
-- What a registry of execution policies has established (`ExecutionPolicyRegistry` of
-- opsctl/agent_runtime_ops/root_actions/execution.py).
use agent_runtime_ops.Prelude.{
  ap, ◌≡◌, refl, ◌∙◌, sym, ◌⊎◌, inl, inr, String, Bool, true, false, not, ◌&&◌, ◌||◌, List, [], ◌∷◌,
  ◌++◌, Option, none, some, ◌==◌, eq_iff, arith, if◌then◌else◌, ok, >>=-eq-ok, Bool-cases,
  Option-cases, Result-cases, is_none,
}
use agent_runtime_ops.Prelude.Int.{ℤ, pos, negsuc, int_eq}
use agent_runtime_ops.Prelude.Dict.{Dict, lookup, put, put-append, lookup-put}
use agent_runtime_ops.RootAction.Store.Soundness.Dicts.{lookup-put_inv}
use agent_runtime_ops.RootAction.Store.Transitions.{dict_keys}
use mathlib.Core.Path.{subst}
use agent_runtime_ops.Text.{text_lt}
use agent_runtime_ops.RootAction.Json.{contains, same_set}
use agent_runtime_ops.RootAction.Registry.{OperationSpec, default_registry, registry_spec}
use agent_runtime_ops.RootAction.Execution.{
  ExecutionPolicy, ExecutionPolicyRegistry, is_enabled, no_reason, operation_ids, check_policy,
  add_policies, execution_policy_registry, keys_where, enabled_operation_ids,
  disabled_operation_ids, execution_policy,
}
use agent_runtime_ops.RootAction.Execution.Names.{contains-sort_by, has-contains, same_set-contains}

-- An enabled policy has no reason; a disabled one has a reason and is not dispatched by itself.
pub record IsEnabled (policy : ExecutionPolicy) : Type 0 where
  pub available : is_enabled policy.availability ≡ true
  pub unreasoned : policy.reason_code ≡ none

pub record IsDisabled (policy : ExecutionPolicy) : Type 0 where
  pub unavailable : is_enabled policy.availability ≡ false
  pub reason : String
  pub reasoned : policy.reason_code ≡ some reason
  pub not_empty : (reason == "") ≡ false
  pub not_dispatched : policy.auto_dispatch ≡ false

-- A policy under its name: it is for the version of the manifest's contract.
pub record IsPolicy (k : String) (policy : ExecutionPolicy) : Type 0 where
  pub named : policy.operation_id ≡ k
  pub contract : OperationSpec
  pub in_registry : registry_spec default_registry k ≡ ok contract
  pub same_version : policy.operation_version ≡ pos contract.version
  pub decided : IsEnabled policy ⊎ IsDisabled policy

-- Whether a policy that may be missing has a property.
abbrev selects : (ExecutionPolicy → Bool) → Option ExecutionPolicy → Bool
selects p none = false
selects p (some policy) = p policy

record IsPolicies (d : Dict ExecutionPolicy) : Type 0 where
  sound : (k : String) (policy : ExecutionPolicy) → lookup k d ≡ some policy → IsPolicy k policy
  chosen :
      (p : ExecutionPolicy → Bool) (k : String)
      → contains k (keys_where p d) ≡ selects p (lookup k d)

pub int_eq-lem : (a b : ℤ) → int_eq a b ≡ true → a ≡ b
unfolding int_eq
int_eq-lem (pos a) (pos b) h = ground arith
int_eq-lem (negsuc a) (negsuc b) h = ground arith
int_eq-lem (pos a) (negsuc b) h = cc
int_eq-lem (negsuc a) (pos b) h = cc

check_policy-decided :
    (policy : ExecutionPolicy)
    → (if is_enabled policy.availability
        then is_none policy.reason_code
        else not (no_reason policy.reason_code))
      ≡ true
    → (not (is_enabled policy.availability) && policy.auto_dispatch) ≡ false
    → IsEnabled policy ⊎ IsDisabled policy
check_policy-decided policy h i = elim (Bool-cases (is_enabled policy.availability)) [
  | inl a ↦ inl (record { available = a; unreasoned = ground arith })
  | inr a ↦ elim (Option-cases policy.reason_code) [
    | inl n ↦ ground arith
    | inr (c, n) ↦ inr (record {
      unavailable = a;
      reason = c;
      reasoned = n;
      not_empty = ground arith;
      not_dispatched = ground arith;
    })
  ]
]

check_policy-IsPolicy :
    (d : Dict ExecutionPolicy) (policy : ExecutionPolicy)
    → check_policy d policy ≡ ok tt
    → (lookup policy.operation_id d ≡ none) × IsPolicy policy.operation_id policy
unfolding check_policy
check_policy-IsPolicy d policy h =
    elim (Result-cases (registry_spec default_registry policy.operation_id)) [
      | inr (x, e) ↦ ground arith
      | inl (spec, e) ↦ (
        ground arith,
        record {
          named = refl;
          contract = spec;
          in_registry = e;
          same_version = int_eq-lem policy.operation_version (pos spec.version) (ground arith);
          decided = check_policy-decided policy (ground arith) (ground arith);
        },
      )
    ]

keys_where-append :
    (p : ExecutionPolicy → Bool) (k j : String) (policy : ExecutionPolicy)
    (d : Dict ExecutionPolicy)
    → contains k (keys_where p (d ++ (j, policy) ∷ []))
      ≡ (contains k (keys_where p d) || (p policy && j == k))
unfolding keys_where contains
keys_where-append p k j policy [] = ground arith
keys_where-append p k j policy ((i, v) ∷ d) = ground (arith, keys_where-append p k j policy d)

put-chosen :
    (d : Dict ExecutionPolicy) (j : String) (policy : ExecutionPolicy) (p : ExecutionPolicy → Bool)
    (k : String)
    → lookup j d ≡ none
    → contains k (keys_where p d) ≡ selects p (lookup k d)
    → contains k (keys_where p (put j policy d)) ≡ selects p (lookup k (put j policy d))
put-chosen d j policy p k e h =
    let w = lookup-put j k policy d in
    rw (w, put-append j policy d e)
      (elim (Bool-cases (j == k)) [
        | inl b ↦
            (let n : lookup k d ≡ none = ap (λ i. lookup i d) (sym ((eq_iff j k).0 b)) ∙ e in
              ground (arith, keys_where-append p k j policy d))
        | inr b ↦ ground (arith, keys_where-append p k j policy d)
      ])

put-IsPolicies :
    (d : Dict ExecutionPolicy) (policy : ExecutionPolicy)
    → IsPolicies d
    → lookup policy.operation_id d ≡ none
    → IsPolicy policy.operation_id policy
    → IsPolicies (put policy.operation_id policy d)
put-IsPolicies d policy h e i = record {
  sound = λ k v f. elim (lookup-put_inv policy.operation_id k policy v d f) [
    | inl (p, q) ↦ subst (λ j. IsPolicy j v) p (subst (λ w. IsPolicy policy.operation_id w) q i)
    | inr (p, q) ↦ h.sound k v q
  ];
  chosen = λ p k. put-chosen d policy.operation_id policy p k e (h.chosen p k);
}

add_policies-IsPolicies :
    (d d' : Dict ExecutionPolicy) (policies : List ExecutionPolicy)
    → IsPolicies d
    → add_policies d policies ≡ ok d'
    → IsPolicies d'
unfolding add_policies
add_policies-IsPolicies d d' [] h e = let q : d ≡ d' = cc e in rw (← q) h
add_policies-IsPolicies d d' (policy ∷ policies) h e =
    let (t, p, q) = >>=-eq-ok (check_policy d policy) _ e in
    let (n, i) = check_policy-IsPolicy d policy p in
    add_policies-IsPolicies (put policy.operation_id policy d) d' policies
      (put-IsPolicies d policy h n i) q

-- What a registry says of an operation: it lists it as enabled or as disabled, never as both, and
-- what is dispatched by itself is enabled.
pub record IsListed (registry : ExecutionPolicyRegistry) (k : String) (policy : ExecutionPolicy)
    : Type 0 where
  pub is_policy : IsPolicy k policy
  pub listed_enabled : contains k (enabled_operation_ids registry) ≡ is_enabled policy.availability
  pub listed_disabled :
      contains k (disabled_operation_ids registry) ≡ not (is_enabled policy.availability)
  pub dispatched_enabled :
      policy.auto_dispatch ≡ true → contains k (enabled_operation_ids registry) ≡ true

registry-IsPolicies :
    (policies : List ExecutionPolicy) (registry : ExecutionPolicyRegistry)
    → execution_policy_registry policies ≡ ok registry
    → IsPolicies registry.policies
      × (same_set (dict_keys registry.policies) (operation_ids default_registry) ≡ true)
unfolding execution_policy_registry keys_where lookup contains
registry-IsPolicies policies registry h =
    let (d, p, q) = >>=-eq-ok (add_policies [] policies) _ h in
    let e : d ≡ registry.policies = ground arith in
    rw (← e) (
      add_policies-IsPolicies [] d policies (record { sound = λ k v f. cc; chosen = λ p k. refl })
          p,
      ground arith,
    )

policy-IsListed :
    (registry : ExecutionPolicyRegistry) (k : String) (policy : ExecutionPolicy)
    → IsPolicies registry.policies
    → lookup k registry.policies ≡ some policy
    → IsListed registry k policy
unfolding enabled_operation_ids disabled_operation_ids
policy-IsListed registry k policy h e =
    let on = λ (v : ExecutionPolicy). is_enabled v.availability in
    let off = λ (v : ExecutionPolicy). not (is_enabled v.availability) in
    let i = h.sound k policy e in
    let a : contains k (enabled_operation_ids registry) ≡ is_enabled policy.availability =
      contains-sort_by text_lt k (keys_where on registry.policies)
      ∙ h.chosen on k
      ∙ ap (selects on) e in
    record {
      is_policy = i;
      listed_enabled = a;
      listed_disabled =
          contains-sort_by text_lt k (keys_where off registry.policies)
          ∙ h.chosen off k
          ∙ ap (selects off) e;
      dispatched_enabled = λ f. elim i.decided [
        | inl y ↦ a ∙ y.available
        | inr n ↦ (let c = n.not_dispatched in cc)
      ];
    }

-- A registry of execution policies that is accepted has, for every operation of the default registry,
-- a policy under its name and for the version of its manifest contract. It lists the operation as
-- enabled or as disabled, never as both; an enabled policy has no reason, a disabled one has a reason
-- that is not empty, and a policy that dispatches by itself is enabled.
pub registered_policy :
    (policies : List ExecutionPolicy) (registry : ExecutionPolicyRegistry) (k : String)
    → execution_policy_registry policies ≡ ok registry
    → contains k (operation_ids default_registry) ≡ true
    → (policy : ExecutionPolicy) × (execution_policy registry k ≡ ok policy)
      × IsListed registry k policy
unfolding execution_policy
registered_policy policies registry k h i =
    let (p, q) = registry-IsPolicies policies registry h in
    elim (Option-cases (lookup k registry.policies)) [
      | inl n ↦ ground (
        arith,
        has-contains k registry.policies,
        same_set-contains k (dict_keys registry.policies) (operation_ids default_registry),
      )
      | inr (v, e) ↦ (v, ground arith, policy-IsListed registry k v p e)
    ]
