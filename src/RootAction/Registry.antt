-- ===== src/RootAction/Registry.antt =====
-- The fixed operation registry (opsctl/agent_runtime_ops/root_actions/registry.py). A rule of an
-- unsupported kind is not representable, so the closing assertion of `validate` is not modelled;
-- the projections for display are not either.
use agent_runtime_ops.Prelude.{
  ℕ, String, Bool, true, ◌&&◌, ◌||◌, List, [], ◌∷◌, map, Option, none, some, ◌==◌, leb, ltb, ◌==ℕ◌,
  if◌then◌else◌, Result, ok, err, ◌>>=◌, ◌>>◌, guard, raise_if, registry_validation_error,
  value_error,
}
use agent_runtime_ops.Prelude.Lists.{length, all}
use agent_runtime_ops.Prelude.Int.{ℤ, pos, int_eq, int_le}
use agent_runtime_ops.Text.{codes, safe_id, is_digest, is_hex}
use agent_runtime_ops.RootAction.Json.{
  Json, null, int, str, arr, obj, Members, keys, elements, same_set, contains, distinct, get_item,
}

-- `ParameterRule`, a constructor for each `kind`.
pub data ParameterRule : Type 0 where
  identifier digest nullable_digest revision : ParameterRule
  enum : List String → ParameterRule
  integer : Option ℤ → Option ℤ → ParameterRule
  identifier_list digest_list : ℕ → ParameterRule

-- `[0-9a-f]{40}`
unfoldable pub is_revision : String → Bool
unfolding is_hex codes all
is_revision s = length (codes s) ==ℕ 40 && all is_hex (codes s)

unfoldable pub require_matching_string : (String → Bool) → Json → Result (Unit {0})
require_matching_string pattern_matches (str s) =
    guard (pattern_matches s) registry_validation_error
require_matching_string pattern_matches _ = err registry_validation_error

abbrev at_least : Option ℤ → ℤ → Bool
at_least none v = true
at_least (some m) v = int_le m v

abbrev at_most : Option ℤ → ℤ → Bool
at_most none v = true
at_most (some m) v = int_le v m

require_all : (String → Bool) → List Json → Result (Unit {0})
require_all p [] = ok tt
require_all p (v ∷ vs) = do require_matching_string p v; require_all p vs

-- The texts of a list of which every item has been found to be one.
texts : List Json → List String
texts [] = []
texts (str s ∷ vs) = s ∷ texts vs
texts (_ ∷ vs) = texts vs

validate_list : (String → Bool) → ℕ → Json → Result (Unit {0})
validate_list p max_items (arr items) = do
  raise_if (leb (length (elements items)) 0 || ltb max_items (length (elements items)))
      registry_validation_error
  require_all p (elements items)
  guard (distinct (texts (elements items))) registry_validation_error
validate_list p max_items _ = err registry_validation_error

validate_enum : List String → Json → Result (Unit {0})
validate_enum choices (str s) = guard (contains s choices) registry_validation_error
validate_enum choices _ = err registry_validation_error

validate_integer : Option ℤ → Option ℤ → Json → Result (Unit {0})
validate_integer minimum maximum (int v) = do
  guard (at_least minimum v) registry_validation_error
  guard (at_most maximum v) registry_validation_error
validate_integer minimum maximum _ = err registry_validation_error

-- `ParameterRule.validate`
unfoldable pub validate_rule : ParameterRule → Json → Result (Unit {0})
unfolding validate_enum validate_integer validate_list require_all texts
validate_rule identifier v = require_matching_string safe_id v
validate_rule digest v = require_matching_string is_digest v
validate_rule nullable_digest null = ok tt
validate_rule nullable_digest v = require_matching_string is_digest v
validate_rule revision v = require_matching_string is_revision v
validate_rule (enum choices) v = validate_enum choices v
validate_rule (integer minimum maximum) v = validate_integer minimum maximum v
validate_rule (identifier_list max_items) v = validate_list safe_id max_items v
validate_rule (digest_list max_items) v = validate_list is_digest max_items v

pub record OperationSpec : Type 0 where
  pub operation_id : String
  pub version : ℕ
  pub parameter_rules : List (String × ParameterRule)

unfoldable pub parameter_names : OperationSpec → List String
parameter_names spec = map (λ rule. rule.0) spec.parameter_rules

validate_rules : List (String × ParameterRule) → Members → Result (Unit {0})
validate_rules [] ms = ok tt
validate_rules ((name, rule) ∷ rules) ms = do
  v ← get_item name ms
  validate_rule rule v
  validate_rules rules ms

-- `OperationSpec.validate_parameters`
unfoldable pub validate_parameters : OperationSpec → Json → Result (Unit {0})
unfolding validate_rules parameter_names
validate_parameters spec (obj ms) = do
  guard (same_set (keys ms) (parameter_names spec)) registry_validation_error
  validate_rules spec.parameter_rules ms
validate_parameters spec _ = err registry_validation_error

-- `OperationRegistry`: its specs in the order of registration.
pub record OperationRegistry : Type 0 where
  pub specs : List OperationSpec

-- The loop of `OperationRegistry.__init__`, with the identifiers that it has seen.
check_specs : List String → List OperationSpec → Result (Unit {0})
check_specs seen [] = ok tt
check_specs seen (spec ∷ specs) = do
  guard (safe_id spec.operation_id) value_error
  raise_if (contains spec.operation_id seen) value_error
  raise_if (ltb spec.version 1) value_error
  guard (distinct (parameter_names spec)) value_error
  check_specs (spec.operation_id ∷ seen) specs

-- `OperationRegistry.__init__`
unfoldable pub operation_registry : List OperationSpec → Result OperationRegistry
unfolding check_specs
operation_registry specs = do check_specs [] specs; ok (record { specs = specs })

find_spec : String → List OperationSpec → Result OperationSpec
find_spec operation_id [] = err registry_validation_error
find_spec operation_id (spec ∷ specs) =
    if spec.operation_id == operation_id then ok spec else find_spec operation_id specs

-- `OperationRegistry.spec`
unfoldable pub registry_spec : OperationRegistry → String → Result OperationSpec
unfolding find_spec
registry_spec registry operation_id = find_spec operation_id registry.specs

unfoldable pub check_version : OperationSpec → Json → Result (Unit {0})
check_version spec (int version) =
    guard (int_eq version (pos spec.version)) registry_validation_error
check_version spec _ = err registry_validation_error

-- `OperationRegistry.validate`
unfoldable pub registry_validate : OperationRegistry → String → Json → Json → Result (Unit {0})
registry_validate registry operation_id version parameters = do
  spec ← registry_spec registry operation_id
  check_version spec version
  validate_parameters spec parameters

abbrev bounded : ℕ → ℕ → ParameterRule
bounded low high = integer (some (pos low)) (some (pos high))

-- `DEFAULT_REGISTRY`
abbrev pub default_specs : List OperationSpec
default_specs =
    record {
      operation_id = "audit.verify";
      version = 1;
      parameter_rules =
          ("target_identity", identifier)
          ∷ ("expected_schema", identifier)
          ∷ ("freshness_seconds", bounded 1 86_400)
          ∷ ("allowlisted_fields", identifier_list 64)
          ∷ [];
    }
    ∷ record {
      operation_id = "projection.staging_selftest";
      version = 1;
      parameter_rules = ("fixture_id", identifier) ∷ ("expected_contract_digest", digest) ∷ [];
    }
    ∷ record {
      operation_id = "agent_loop.campaign_run";
      version = 1;
      parameter_rules =
          ("campaign_id", identifier)
          ∷ ("image_digest", digest)
          ∷ ("input_digest", digest)
          ∷ ("runtime_seconds", bounded 1 21_600)
          ∷ ("memory_mib", bounded 128 262_144)
          ∷ [];
    }
    ∷ record {
      operation_id = "nas.observe_groupware_runtime";
      version = 1;
      parameter_rules = ("slot", identifier) ∷ [];
    }
    ∷ []

abbrev pub default_registry : OperationRegistry
default_registry = record { specs = default_specs }
