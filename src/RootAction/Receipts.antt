-- ===== src/RootAction/Receipts.antt =====
-- Receipts and notices, and their sealing (opsctl/agent_runtime_ops/root_actions/receipts.py).
pub mod Raw
use agent_runtime_ops.Prelude.{
  ℕ, String, Bool, true, false, not, ◌&&◌, ◌||◌, List, [], ◌∷◌, ◌++◌, map, Option, none, some, ◌==◌,
  leb, ltb, if◌then◌else◌, Result, ok, err, ◌>>=◌, ◌>>◌, guard, raise_if, receipt_validation_error,
  type_error,
}
use agent_runtime_ops.Prelude.Lists.{length}
use agent_runtime_ops.Prelude.Int.{pos, int_eq}
use agent_runtime_ops.Text.{codes, text_lt}
use agent_runtime_ops.Time.{Datetime}
use agent_runtime_ops.RootAction.Job.{Bytes}
use agent_runtime_ops.RootAction.Json.{
  Json, null, bool, int, real, str, arr, obj, Members, Library, elements, distinct, get_item, get,
  unique_keys, is_text, in_set,
}
use agent_runtime_ops.RootAction.Json.Checks.{
  exact_keys, text_value, id_value, digest_value, timestamp_value,
}
use agent_runtime_ops.RootAction.Observation.{observation_facts_ok}

abbrev pub receipt_schema : String
receipt_schema = "agent-runtime-root-action-receipt/v1"

abbrev pub max_receipt_bytes : ℕ
max_receipt_bytes = 524_288

abbrev pub max_raw_receipt_bytes : ℕ
max_raw_receipt_bytes = 8_388_608

abbrev pub common_keys : List String
common_keys =
    "schema" ∷ "kind" ∷ "job_id" ∷ "job_digest" ∷ "operation_id" ∷ "request_id" ∷ "reply_target"
    ∷ "terminal_outcome" ∷ []

abbrev pub raw_base_keys : List String
raw_base_keys = "raw_receipt_digest" ∷ common_keys

abbrev pub public_keys : List String
public_keys = "started_at" ∷ "ended_at" ∷ "exit_code" ∷ "removed_lines" ∷ "result" ∷ raw_base_keys

abbrev pub quarantine_keys : List String
quarantine_keys = "quarantine_id" ∷ "reason_code" ∷ raw_base_keys

abbrev pub unknown_keys : List String
unknown_keys = "last_known_at" ∷ "reason_code" ∷ raw_base_keys

abbrev pub terminal_notice_keys : List String
terminal_notice_keys = "reason_code" ∷ common_keys

abbrev pub result_keys : List String
result_keys = "status" ∷ "facts" ∷ []

abbrev pub fact_keys : List String
fact_keys = "name" ∷ "value" ∷ []

-- The `kind` of a sealed artifact.
pub data ReceiptKind : Type 0 where
  public quarantined unknown_notice terminal_notice : ReceiptKind

-- `kind == "terminal_notice"`
abbrev pub is_terminal_notice : ReceiptKind → Bool
is_terminal_notice terminal_notice = true
is_terminal_notice _ = false

pub record ReceiptArtifact : Type 0 where
  pub kind : ReceiptKind
  pub job_id : String
  pub job_digest : String
  pub operation_id : String
  pub request_id : String
  pub reply_target : String
  pub receipt_digest : String
  pub canonical_receipt : Bytes

abbrev pub loaded_object : Option Json → Result Members
loaded_object (some (obj ms)) = ok ms
loaded_object (some v) = err type_error
loaded_object none = err receipt_validation_error

pub parsed_receipt : Option Json → Result Members
parsed_receipt (some (obj ms)) = do guard (unique_keys (obj ms)) receipt_validation_error; ok ms
parsed_receipt _ = err receipt_validation_error

pub as_text : Json → Result String
as_text (str s) = ok s
as_text _ = err type_error

-- A field that validation has found to be a text.
pub text_field : String → Members → Result String
unfolding as_text
text_field k ms = get_item k ms >>= as_text

-- `value != 0` fails for an integer, a Boolean or a real number that equals 0.
pub is_zero : ⦃library : Library⦄ → Json → Bool
is_zero (int n) = int_eq n (pos 0)
is_zero (bool b) = not b
is_zero ⦃library⦄ (real s) = library.real_is_zero s
is_zero _ = false

pub is_null : Json → Bool
is_null null = true
is_null _ = false

pub is_integer : Json → Bool
is_integer (int n) = true
is_integer _ = false

module _ ⦃library : Library⦄ where
  -- `ReceiptArtifact.receipt_copy`
  unfoldable pub receipt_copy : ReceiptArtifact → Result Members
  receipt_copy artifact = loaded_object (library.loads artifact.canonical_receipt)

  unfoldable pub safe_id_field : Json → Result String
  safe_id_field = id_value receipt_validation_error

  unfoldable pub digest_field : Json → Result String
  digest_field = digest_value receipt_validation_error

  unfoldable pub timestamp_field : ⦃datetime : Datetime⦄ → Json → Result String
  timestamp_field = timestamp_value receipt_validation_error

  pub check_raw : Bool → Members → Result (Unit {0})
  check_raw true value = do get_item "raw_receipt_digest" value >>= digest_field; ok tt
  check_raw false value = ok tt

  unfoldable pub validate_common : Bool → Members → Result (Unit {0})
  unfolding check_raw
  validate_common raw_receipt value = do
    schema ← get_item "schema" value
    guard (is_text receipt_schema schema) receipt_validation_error
    get_item "job_id" value >>= safe_id_field
    get_item "job_digest" value >>= digest_field
    get_item "operation_id" value >>= safe_id_field
    get_item "request_id" value >>= safe_id_field
    get_item "reply_target" value >>= safe_id_field
    check_raw raw_receipt value

  -- One round of the loop over `result.facts`.
  pub validate_fact : Json → Result (String × String)
  validate_fact raw_fact = do
    fact ← exact_keys receipt_validation_error raw_fact fact_keys
    name ← get_item "name" fact >>= safe_id_field
    value ← get_item "value" fact >>= text_value receipt_validation_error 4096
    ok (name, value)

  pub validate_fact_list : List Json → Result (List (String × String))
  unfolding validate_fact
  validate_fact_list [] = ok []
  validate_fact_list (v ∷ vs) = do
    fact ← validate_fact v
    facts ← validate_fact_list vs
    ok (fact ∷ facts)

  pub validate_facts : Json → Result (Unit {0})
  unfolding validate_fact_list
  validate_facts (arr items) = do
    raise_if (ltb 128 (length (elements items))) receipt_validation_error
    facts ← validate_fact_list (elements items)
    guard (distinct (map (λ fact. fact.0) facts)) receipt_validation_error
    guard (observation_facts_ok facts) receipt_validation_error
  validate_facts _ = err receipt_validation_error

  unfoldable pub validate_public : ⦃datetime : Datetime⦄ → Members → Result (Unit {0})
  unfolding validate_facts is_integer is_zero
  validate_public value = do
    exact_keys receipt_validation_error (obj value) public_keys
    validate_common true value
    outcome ← get_item "terminal_outcome" value
    known ← in_set outcome ("succeeded" ∷ "failed" ∷ [])
    guard known receipt_validation_error
    started_at ← get_item "started_at" value >>= timestamp_field
    ended_at ← get_item "ended_at" value >>= timestamp_field
    raise_if (text_lt ended_at started_at) receipt_validation_error
    exit_code ← get_item "exit_code" value
    guard (is_integer exit_code) receipt_validation_error
    removed_lines ← get_item "removed_lines" value
    guard (is_zero removed_lines) receipt_validation_error
    raw_result ← get_item "result" value
    result ← exact_keys receipt_validation_error raw_result result_keys
    get_item "status" result >>= safe_id_field
    get_item "facts" result >>= validate_facts

  unfoldable pub validate_quarantine : Members → Result (Unit {0})
  validate_quarantine value = do
    exact_keys receipt_validation_error (obj value) quarantine_keys
    validate_common true value
    outcome ← get_item "terminal_outcome" value
    known ← in_set outcome ("succeeded" ∷ "failed" ∷ [])
    guard known receipt_validation_error
    get_item "quarantine_id" value >>= safe_id_field
    get_item "reason_code" value >>= safe_id_field
    ok tt

  unfoldable pub validate_unknown : ⦃datetime : Datetime⦄ → Members → Result (Unit {0})
  unfolding is_null
  validate_unknown value = do
    exact_keys receipt_validation_error (obj value) unknown_keys
    validate_common true value
    outcome ← get_item "terminal_outcome" value
    guard (is_null outcome) receipt_validation_error
    get_item "last_known_at" value >>= timestamp_field
    get_item "reason_code" value >>= safe_id_field
    ok tt

  unfoldable pub validate_terminal_notice : Members → Result (Unit {0})
  validate_terminal_notice value = do
    exact_keys receipt_validation_error (obj value) terminal_notice_keys
    validate_common false value
    outcome ← get_item "terminal_outcome" value
    known ← in_set outcome ("rejected" ∷ "expired" ∷ "canceled" ∷ "prestart_failed" ∷ [])
    guard known receipt_validation_error
    get_item "reason_code" value >>= safe_id_field
    ok tt

  -- The dispatch of `seal_receipt` on `value.get("kind")`.
  unfoldable pub validate_kind : ⦃datetime : Datetime⦄ → Members → Result ReceiptKind
  validate_kind value =
      let kind = get "kind" value in
      if is_text "public" kind
      then (do validate_public value; ok public)
      else if is_text "quarantined" kind
      then (do validate_quarantine value; ok quarantined)
      else if is_text "unknown" kind
      then (do validate_unknown value; ok unknown_notice)
      else if is_text "terminal_notice" kind
      then (do validate_terminal_notice value; ok terminal_notice)
      else err receipt_validation_error

  -- The bytes `agent-runtime-root-action-receipt/v1`, a zero byte, and the receipt.
  abbrev pub receipt_preimage : Bytes → Bytes
  receipt_preimage canonical = codes receipt_schema ++ 0 ∷ canonical

  unfoldable pub seal_receipt : ⦃datetime : Datetime⦄ → Bytes → Result ReceiptArtifact
  unfolding parsed_receipt text_field
  seal_receipt raw = do
    raise_if (leb (length raw) 0 || ltb max_receipt_bytes (length raw)) receipt_validation_error
    value ← parsed_receipt (library.loads raw)
    kind ← validate_kind value
    let canonical = library.dumps (obj value) ++ 10 ∷ []
    job_id ← text_field "job_id" value
    job_digest ← text_field "job_digest" value
    operation_id ← text_field "operation_id" value
    request_id ← text_field "request_id" value
    reply_target ← text_field "reply_target" value
    ok (record {
      kind = kind;
      job_id = job_id;
      job_digest = job_digest;
      operation_id = operation_id;
      request_id = request_id;
      reply_target = reply_target;
      receipt_digest = library.sha256 (receipt_preimage canonical);
      canonical_receipt = canonical;
    })
