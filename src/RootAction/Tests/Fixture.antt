-- ===== src/RootAction/Tests/Fixture.antt =====
-- A calendar, a library and a job to evaluate the definitions on.
use agent_runtime_ops.Prelude.{
  ℕ, ◌+◌, ◌≡◌, refl, ap, String, List, [], ◌∷◌, true, false, Option, none, some, ◌==◌, ◌==ℕ◌,
  if◌then◌else◌,
}
use agent_runtime_ops.Prelude.Int.{pos}
use agent_runtime_ops.Text.{is_digest}
use agent_runtime_ops.Time.{Stamp, stamp, is_real, epoch, seconds, Datetime}
use agent_runtime_ops.RootAction.Tests.Clock.{format_instant}
use agent_runtime_ops.RootAction.Job.{Bytes, SealedJob}
use agent_runtime_ops.RootAction.Json.{
  Json, null, int, str, arr, obj, Items, nil, cons, Members, end, member, Library, get,
}
use agent_runtime_ops.RootAction.Receipts.{ReceiptArtifact, terminal_notice}
use agent_runtime_ops.RootAction.State.{
  JobRecord, TransitionEvent, pending, running, terminal, claim_execution, close_pending,
  complete_execution, succeeded, rejected,
}
use agent_runtime_ops.RootAction.Admission.{SubmissionMetadata}

abbrev pub instant : Option Stamp → Option ℕ
instant none = none
instant (some t) = if is_real t then some (epoch + seconds t) else none

instance abbrev pub calendar : Datetime
calendar = record {
  strptime = λ s. instant (stamp s);
  strftime = format_instant;
  strptime_lem = λ s t e. ap instant e;
}

abbrev pub a_digest : String
a_digest = "sha256:0123456789abcdef0123456789abcdef0123456789abcdef0123456789abcdef"

abbrev pub fields : List (String × Json) → Members
fields [] = end
fields ((k, v) ∷ ms) = member k v (fields ms)

abbrev items : List Json → Items
items [] = nil
items (v ∷ vs) = cons v (items vs)

abbrev a_request : Json
a_request = obj (
    fields (
      ("request_id", str "request-1")
      ∷ ("lineage_id", str "lineage-1")
      ∷ ("reply_target", str "reply-1")
      ∷ ("submitted_at", str "2026-01-01T00:00:00Z")
      ∷ []))

abbrev a_premise : Json
a_premise = obj (
    fields (
      ("claim", str "it is asked for")
      ∷ ("basis", str "inference")
      ∷ ("anchor", null)
      ∷ ("falsifier", str "no request")
      ∷ []))

abbrev a_risk : Json
a_risk = obj (
    fields (
      ("baseline", str "none")
      ∷ ("added", arr nil)
      ∷ ("removed", arr nil)
      ∷ ("maximum_consequence", str "none")
      ∷ []))

abbrev a_review : Json
a_review = obj (
    fields (
      ("purpose", str "a self test")
      ∷ ("premises", arr (items (a_premise ∷ [])))
      ∷ ("targets", arr (items (str "staging" ∷ [])))
      ∷ ("changes", arr (items (str "none" ∷ [])))
      ∷ ("recovery", arr (items (str "none" ∷ [])))
      ∷ ("risk_delta", a_risk)
      ∷ []))

abbrev pub a_manifest : Members
a_manifest = fields (
    ("schema", str "agent-runtime-root-action-manifest/v1")
    ∷ ("registry_version", str "agent-runtime-root-action-registry/v1")
    ∷ ("job_id", str "job-1")
    ∷ ("operation_id", str "projection.staging_selftest")
    ∷ ("operation_version", int (pos 1))
    ∷ ("request", a_request)
    ∷ (
      "parameters",
      obj (
          fields
            (("fixture_id", str "fixture-1") ∷ ("expected_contract_digest", str a_digest) ∷ [])),
    )
    ∷ ("expected_pre_state", obj (fields (("kind", str "none") ∷ ("digest", null) ∷ [])))
    ∷ ("review", a_review)
    ∷ [])

-- The notice of a job that is closed with an outcome and a reason.
abbrev pub notice_of : String → String → Members
notice_of outcome reason = fields (
    ("schema", str "agent-runtime-root-action-receipt/v1")
    ∷ ("kind", str "terminal_notice")
    ∷ ("job_id", str "job-1")
    ∷ ("job_digest", str a_digest)
    ∷ ("operation_id", str "projection.staging_selftest")
    ∷ ("request_id", str "request-1")
    ∷ ("reply_target", str "reply-1")
    ∷ ("terminal_outcome", str outcome)
    ∷ ("reason_code", str reason)
    ∷ [])

abbrev pub a_receipt : Members
a_receipt = notice_of "rejected" "not_permitted"

abbrev pub a_circuit_receipt : Members
a_circuit_receipt = notice_of "prestart_failed" "technical_failure_circuit_open"

-- A receipt, and an unknown notice, of the job and its raw receipt.
abbrev receipt_of : String → Json → List (String × Json) → Members
receipt_of kind outcome rest = fields (
    ("schema", str "agent-runtime-root-action-receipt/v1")
    ∷ ("kind", str kind)
    ∷ ("job_id", str "job-1")
    ∷ ("job_digest", str a_digest)
    ∷ ("operation_id", str "projection.staging_selftest")
    ∷ ("request_id", str "request-1")
    ∷ ("reply_target", str "reply-1")
    ∷ ("terminal_outcome", outcome)
    ∷ ("raw_receipt_digest", str a_digest)
    ∷ rest)

abbrev pub a_public_receipt : Members
a_public_receipt = receipt_of "public" (str "succeeded") (
    ("started_at", str "2026-01-01T00:00:05Z")
    ∷ ("ended_at", str "2026-01-01T00:01:00Z")
    ∷ ("exit_code", int (pos 0))
    ∷ ("removed_lines", int (pos 0))
    ∷ ("result", obj (fields (("status", str "done") ∷ ("facts", arr nil) ∷ [])))
    ∷ [])

abbrev pub an_unknown_receipt : Members
an_unknown_receipt =
    receipt_of "unknown" null
      (("last_known_at", str "2026-01-01T00:01:00Z") ∷ ("reason_code", str "worker_lost") ∷ [])

-- The bytes of the values, without the line feed: a manifest, the notices, the receipts.
abbrev encode_notice : Json → Bytes
encode_notice (str outcome) = if outcome == "rejected" then 2 ∷ [] else 3 ∷ []
encode_notice _ = []

abbrev pub encode : Json → Json → Bytes
encode (str kind) outcome =
    if kind == "public" then 4 ∷ [] else if kind == "unknown" then 5 ∷ [] else encode_notice outcome
encode _ outcome = 1 ∷ []

abbrev pub written : Json → Bytes
unfolding get
written (obj ms) = encode (get "kind" ms) (get "terminal_outcome" ms)
written _ = []

abbrev pub read : Bytes → Option Json
read (n ∷ rest) =
    if n ==ℕ 1
    then some (obj a_manifest)
    else if n ==ℕ 2
    then some (obj a_receipt)
    else if n ==ℕ 3
    then some (obj a_circuit_receipt)
    else if n ==ℕ 4
    then some (obj a_public_receipt)
    else if n ==ℕ 5
    then some (obj an_unknown_receipt)
    else none
read [] = none

pub a_digest_format : is_digest a_digest ≡ true
unfolding is_digest
a_digest_format = refl

instance abbrev pub reader : Library
reader = record {
  loads = read;
  dumps = written;
  dumps_plain = written;
  sha256 = λ data_bytes. a_digest;
  digest = λ data_bytes. 7 ∷ [];
  is_nfc = λ s. true;
  is_control = λ c. false;
  real_is_zero = λ s. false;
  sha256_format = λ data_bytes. a_digest_format;
}

abbrev pub a_job : SealedJob
a_job = record {
  job_id = "job-1";
  job_digest = a_digest;
  operation_id = "projection.staging_selftest";
  operation_version = pos 1;
  request_id = "request-1";
  lineage_id = "lineage-1";
  reply_target = "reply-1";
  submitted_at = "2026-01-01T00:00:00Z";
  canonical_manifest = 1 ∷ 10 ∷ [];
}

abbrev pub a_notice : ReceiptArtifact
a_notice = record {
  kind = terminal_notice;
  job_id = "job-1";
  job_digest = a_digest;
  operation_id = "projection.staging_selftest";
  request_id = "request-1";
  reply_target = "reply-1";
  receipt_digest = a_digest;
  canonical_receipt = 2 ∷ 10 ∷ [];
}

abbrev pub a_record : JobRecord
a_record = record {
  job_id = "job-1";
  job_digest = a_digest;
  state = pending;
  revision = 0;
  execution_count = 0;
  terminal_outcome = none;
  reason_code = none;
  last_event_id = "event-1";
  last_changed_at = "2026-01-01T00:00:00Z";
}

abbrev pub a_claim : TransitionEvent
a_claim = record {
  event_id = "event-2";
  job_id = "job-1";
  job_digest = a_digest;
  expected_revision = 0;
  kind = claim_execution;
  occurred_at = "2026-01-01T00:00:05Z";
  outcome = none;
  reason_code = none;
}

-- The close of the job that is rejected at its sealing.
abbrev pub a_rejection : TransitionEvent
a_rejection = record {
  event_id = "event-2";
  job_id = "job-1";
  job_digest = a_digest;
  expected_revision = 0;
  kind = close_pending;
  occurred_at = "2026-01-01T00:00:05Z";
  outcome = some rejected;
  reason_code = some "not_permitted";
}

abbrev pub a_completion : TransitionEvent
a_completion = record {
  event_id = "event-3";
  job_id = "job-1";
  job_digest = a_digest;
  expected_revision = 1;
  kind = complete_execution;
  occurred_at = "2026-01-01T00:01:00Z";
  outcome = some succeeded;
  reason_code = some "completed";
}

abbrev pub a_submission : SubmissionMetadata
a_submission = record {
  peer_uid = 1000;
  peer_gid = 1000;
  peer_pid = 1;
  broker_received_at = "2026-01-01T00:00:00Z";
}

-- The record after the claim, and after the completion.
abbrev pub a_running : JobRecord
a_running = record a_record {
  state = running;
  revision = 1;
  execution_count = 1;
  last_event_id = "event-2";
  last_changed_at = "2026-01-01T00:00:05Z";
}

abbrev pub a_done : JobRecord
a_done = record a_record {
  state = terminal;
  revision = 2;
  execution_count = 1;
  terminal_outcome = some succeeded;
  reason_code = some "completed";
  last_event_id = "event-3";
  last_changed_at = "2026-01-01T00:01:00Z";
}
