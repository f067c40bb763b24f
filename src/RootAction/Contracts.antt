-- ===== src/RootAction/Contracts.antt =====
-- Typed manifests and their sealing (opsctl/agent_runtime_ops/root_actions/contracts.py). A text
-- with an unpaired surrogate is not representable.
use agent_runtime_ops.Prelude.{
  ℕ, String, ◌||◌, List, [], ◌∷◌, ◌++◌, Option, some, leb, ltb, if◌then◌else◌, Error, Result, ok,
  err, ◌>>=◌, ◌>>◌, guard, raise_if, manifest_validation_error, type_error,
}
use agent_runtime_ops.Prelude.Lists.{length}
use agent_runtime_ops.Prelude.Int.{ℤ}
use agent_runtime_ops.Text.{codes, is_digest}
use agent_runtime_ops.Time.{Datetime}
use agent_runtime_ops.RootAction.Job.{Bytes, SealedJob}
use agent_runtime_ops.RootAction.Json.{
  Json, null, int, str, arr, obj, Members, Library, elements, distinct, get_item, unique_keys,
  is_text, in_set,
}
use agent_runtime_ops.RootAction.Json.Checks.{exact_keys, text_value, id_value, timestamp_value}
use agent_runtime_ops.RootAction.Registry.{OperationRegistry, registry_validate}

abbrev pub manifest_schema : String
manifest_schema = "agent-runtime-root-action-manifest/v1"

abbrev pub registry_version : String
registry_version = "agent-runtime-root-action-registry/v1"

abbrev pub max_manifest_bytes : ℕ
max_manifest_bytes = 131_072

abbrev top_level_keys : List String
top_level_keys =
    "schema" ∷ "registry_version" ∷ "job_id" ∷ "operation_id" ∷ "operation_version" ∷ "request"
    ∷ "parameters" ∷ "expected_pre_state" ∷ "review" ∷ []

abbrev request_keys : List String
request_keys = "request_id" ∷ "lineage_id" ∷ "reply_target" ∷ "submitted_at" ∷ []

abbrev pre_state_keys : List String
pre_state_keys = "kind" ∷ "digest" ∷ []

abbrev review_keys : List String
review_keys = "purpose" ∷ "premises" ∷ "targets" ∷ "changes" ∷ "recovery" ∷ "risk_delta" ∷ []

abbrev risk_delta_keys : List String
risk_delta_keys = "baseline" ∷ "added" ∷ "removed" ∷ "maximum_consequence" ∷ []

abbrev premise_keys : List String
premise_keys = "claim" ∷ "basis" ∷ "anchor" ∷ "falsifier" ∷ []

abbrev basis_values : List String
basis_values = "user_authority" ∷ "direct_observation" ∷ "inference" ∷ "unknown" ∷ []

abbrev anchor_keys : List String
anchor_keys = "source" ∷ "quote" ∷ []

-- The failures of the registry become failures of the manifest; no other exception is caught.
abbrev pub registry_error : Result (Unit {0}) → Result (Unit {0})
registry_error (ok x) = ok x
registry_error (err Error.registry_validation_error) = err manifest_validation_error
registry_error (err e) = err e

required_digest : Json → Result (Unit {0})
required_digest (str s) = guard (is_digest s) manifest_validation_error
required_digest _ = err manifest_validation_error

absent_digest : Json → Result (Unit {0})
absent_digest null = ok tt
absent_digest _ = err manifest_validation_error

-- The digest that a pre-state's kind asks for.
check_pre_state_digest : Json → Json → Result (Unit {0})
unfolding required_digest absent_digest
check_pre_state_digest kind digest =
    if is_text "required" kind
    then required_digest digest
    else if is_text "none" kind
    then absent_digest digest
    else err manifest_validation_error

parsed_object : Option Json → Result Members
parsed_object (some (obj ms)) = do guard (unique_keys (obj ms)) manifest_validation_error; ok ms
parsed_object _ = err manifest_validation_error

as_text : Json → Result String
as_text (str s) = ok s
as_text _ = err type_error

as_int : Json → Result ℤ
as_int (int n) = ok n
as_int _ = err type_error

as_object : Json → Result Members
as_object (obj ms) = ok ms
as_object _ = err type_error

-- A field that validation has found to be a text or an integer.
text_field : String → Members → Result String
unfolding as_text
text_field k ms = get_item k ms >>= as_text

int_field : String → Members → Result ℤ
unfolding as_int
int_field k ms = get_item k ms >>= as_int

module _ ⦃library : Library⦄ where
  unfoldable pub parse_manifest : Bytes → Result Members
  unfolding parsed_object
  parse_manifest raw = do
    raise_if (leb (length raw) 0 || ltb max_manifest_bytes (length raw)) manifest_validation_error
    parsed_object (library.loads raw)

  -- `_safe_text` with its default bound, `_safe_id`
  unfoldable pub safe_text : Json → Result String
  safe_text = text_value manifest_validation_error 512

  unfoldable pub safe_id_field : Json → Result String
  safe_id_field = id_value manifest_validation_error

  unfoldable pub safe_timestamp : ⦃datetime : Datetime⦄ → Json → Result String
  safe_timestamp = timestamp_value manifest_validation_error

  safe_texts : List Json → Result (List String)
  safe_texts [] = ok []
  safe_texts (v ∷ vs) = do s ← safe_text v; ss ← safe_texts vs; ok (s ∷ ss)

  -- `_text_list` with a least length of 1, `_optional_text_list` with 0
  bounded_text_list : ℕ → Json → Result (List String)
  unfolding safe_texts
  bounded_text_list least (arr items) = do
    raise_if (ltb (length (elements items)) least || ltb 32 (length (elements items)))
        manifest_validation_error
    result ← safe_texts (elements items)
    guard (distinct result) manifest_validation_error
    ok result
  bounded_text_list least _ = err manifest_validation_error

  unfoldable pub text_list : Json → Result (List String)
  unfolding bounded_text_list
  text_list = bounded_text_list 1

  unfoldable pub optional_text_list : Json → Result (List String)
  unfolding bounded_text_list
  optional_text_list = bounded_text_list 0

  validate_anchor : Json → Result (Unit {0})
  validate_anchor anchor = do
    ms ← exact_keys manifest_validation_error anchor anchor_keys
    source ← get_item "source" ms
    safe_text source
    quote ← get_item "quote" ms
    safe_text quote
    ok tt

  absent_anchor : Json → Result (Unit {0})
  absent_anchor null = ok tt
  absent_anchor _ = err manifest_validation_error

  optional_anchor : Json → Result (Unit {0})
  unfolding validate_anchor
  optional_anchor null = ok tt
  optional_anchor v = validate_anchor v

  -- The anchor that a premise's basis asks for.
  check_anchor : Json → Json → Result (Unit {0})
  unfolding validate_anchor absent_anchor optional_anchor
  check_anchor basis anchor =
      if is_text "user_authority" basis || is_text "direct_observation" basis
      then validate_anchor anchor
      else if is_text "unknown" basis
      then absent_anchor anchor
      else optional_anchor anchor

  -- One round of the loop of `_validate_premises`.
  validate_premise : Json → Result (Unit {0})
  unfolding check_anchor
  validate_premise raw_premise = do
    premise ← exact_keys manifest_validation_error raw_premise premise_keys
    claim ← get_item "claim" premise
    safe_text claim
    basis ← get_item "basis" premise
    known ← in_set basis basis_values
    guard known manifest_validation_error
    falsifier ← get_item "falsifier" premise
    safe_text falsifier
    anchor ← get_item "anchor" premise
    check_anchor basis anchor

  validate_premise_list : List Json → Result (Unit {0})
  unfolding validate_premise
  validate_premise_list [] = ok tt
  validate_premise_list (v ∷ vs) = do validate_premise v; validate_premise_list vs

  unfoldable pub validate_premises : Json → Result (Unit {0})
  unfolding validate_premise_list
  validate_premises (arr items) = do
    raise_if (leb (length (elements items)) 0 || ltb 8 (length (elements items)))
        manifest_validation_error
    validate_premise_list (elements items)
  validate_premises _ = err manifest_validation_error

  unfoldable pub validate_expected_pre_state : Json → Result (Unit {0})
  unfolding check_pre_state_digest
  validate_expected_pre_state value = do
    pre_state ← exact_keys manifest_validation_error value pre_state_keys
    kind ← get_item "kind" pre_state
    digest ← get_item "digest" pre_state
    check_pre_state_digest kind digest

  -- `_validate_manifest`: the `request` part
  validate_request : ⦃datetime : Datetime⦄ → Json → Result (Unit {0})
  validate_request raw = do
    request ← exact_keys manifest_validation_error raw request_keys
    (get_item "request_id" request) >>= safe_id_field
    (get_item "lineage_id" request) >>= safe_id_field
    (get_item "reply_target" request) >>= safe_id_field
    (get_item "submitted_at" request) >>= safe_timestamp
    ok tt

  -- `_validate_manifest`: the `review` part
  validate_review : Json → Result (Unit {0})
  validate_review raw = do
    review ← exact_keys manifest_validation_error raw review_keys
    (get_item "purpose" review) >>= safe_text
    (get_item "premises" review) >>= validate_premises
    (get_item "targets" review) >>= text_list
    (get_item "changes" review) >>= text_list
    (get_item "recovery" review) >>= text_list
    raw_risk ← get_item "risk_delta" review
    risk ← exact_keys manifest_validation_error raw_risk risk_delta_keys
    (get_item "baseline" risk) >>= safe_text
    (get_item "added" risk) >>= optional_text_list
    (get_item "removed" risk) >>= optional_text_list
    (get_item "maximum_consequence" risk) >>= safe_text
    ok tt

  unfoldable pub validate_manifest :
      ⦃datetime : Datetime⦄ → Members → OperationRegistry → Result (Unit {0})
  unfolding validate_request validate_review
  validate_manifest value registry = do
    manifest ← exact_keys manifest_validation_error (obj value) top_level_keys
    schema ← get_item "schema" manifest
    guard (is_text manifest_schema schema) manifest_validation_error
    version ← get_item "registry_version" manifest
    guard (is_text registry_version version) manifest_validation_error
    (get_item "job_id" manifest) >>= safe_id_field
    operation_id ← get_item "operation_id" manifest >>= safe_id_field
    (get_item "request" manifest) >>= validate_request
    (get_item "expected_pre_state" manifest) >>= validate_expected_pre_state
    (get_item "review" manifest) >>= validate_review
    operation_version ← get_item "operation_version" manifest
    parameters ← get_item "parameters" manifest
    registry_error (registry_validate registry operation_id operation_version parameters)

  unfoldable pub canonical_manifest_bytes : Json → Bytes
  canonical_manifest_bytes value = library.dumps value ++ 10 ∷ []

  -- The bytes `agent-runtime-root-action-job/v1`, a zero byte, and the manifest.
  abbrev job_preimage : Bytes → Bytes
  job_preimage canonical = codes "agent-runtime-root-action-job/v1" ++ 0 ∷ canonical

  unfoldable pub seal_typed_manifest :
      ⦃datetime : Datetime⦄ → OperationRegistry → Bytes → Result SealedJob
  unfolding text_field int_field as_object canonical_manifest_bytes
  seal_typed_manifest registry raw = do
    value ← parse_manifest raw
    validate_manifest value registry
    let canonical = canonical_manifest_bytes (obj value)
    let digest = library.sha256 (job_preimage canonical)
    raw_request ← get_item "request" value
    request ← as_object raw_request
    job_id ← text_field "job_id" value
    operation_id ← text_field "operation_id" value
    operation_version ← int_field "operation_version" value
    request_id ← text_field "request_id" request
    lineage_id ← text_field "lineage_id" request
    reply_target ← text_field "reply_target" request
    submitted_at ← text_field "submitted_at" request
    ok (record {
      job_id = job_id;
      job_digest = digest;
      operation_id = operation_id;
      operation_version = operation_version;
      request_id = request_id;
      lineage_id = lineage_id;
      reply_target = reply_target;
      submitted_at = submitted_at;
      canonical_manifest = canonical;
    })
