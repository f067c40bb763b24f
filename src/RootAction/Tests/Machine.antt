-- ===== src/RootAction/Tests/Machine.antt =====
-- The theorems of the state machine at a job that is claimed and completed.
use agent_runtime_ops.Prelude.{
  ◌+◌, ◌≤◌, ◌<◌, ◌≡◌, ◌↔◌, refl, [], ◌∷◌, ok, err, true, stale_revision, some,
}
use agent_runtime_ops.Text.{safe_id, is_digest, is_digit, text_lt}
use agent_runtime_ops.Time.{
  is_timestamp, stamp, in_ranges, is_real, seconds, day_number, days_before_year, days_before_month,
}
use agent_runtime_ops.Time.Order.{text_lt-iff_earlier}
use agent_runtime_ops.RootAction.State.{
  JobRecord, apply_transition, validate_record, check_event, dispatch, next, validate_event_fields,
  require_reason, initial_record,
}
use agent_runtime_ops.RootAction.State.Spec.{IsValid, HasEventFields, Accepts}
use agent_runtime_ops.RootAction.State.Validity.{validate_record_iff, validate_event_fields_iff}
use agent_runtime_ops.RootAction.State.Agreement.{apply_transition_iff}
use agent_runtime_ops.RootAction.State.Initial.{IsInitial, initial_record-ok}
use agent_runtime_ops.RootAction.State.Traces.{
  replay, claims, replay_bounded, one_shot, apply_transition-stale, chronological,
}
use agent_runtime_ops.RootAction.Tests.Fixture.{
  a_job, a_record, a_claim, a_completion, a_running, a_done, calendar,
}

a_record_checked : validate_record a_record ≡ ok tt
unfolding validate_record validate_event_fields safe_id is_digest is_timestamp stamp in_ranges
    is_real
a_record_checked = refl

a_record-IsValid : IsValid a_record
a_record-IsValid = (validate_record_iff a_record).0 a_record_checked

claim_fields : HasEventFields "event-2" "2026-01-01T00:00:05Z"
unfolding safe_id is_timestamp stamp in_ranges is_real
claim_fields = record { id_is_safe = refl; has_format = refl; is_real = refl }

claimed_record : apply_transition a_record a_claim ≡ ok a_running
unfolding apply_transition check_event dispatch next validate_record validate_event_fields safe_id
    is_digest is_timestamp stamp in_ranges is_real text_lt
claimed_record = refl

replayed : replay a_record (a_claim ∷ a_completion ∷ []) ≡ ok a_done
unfolding replay apply_transition check_event dispatch next require_reason validate_record
    validate_event_fields safe_id is_digest is_timestamp stamp in_ranges is_real text_lt
replayed = refl

apply_transition_iff_example :
    (apply_transition a_record a_claim ≡ ok a_running) ↔ Accepts a_record a_claim a_running
apply_transition_iff_example = apply_transition_iff a_record a_claim a_running

validate_record_iff_example : (validate_record a_done ≡ ok tt) ↔ IsValid a_done
validate_record_iff_example = validate_record_iff a_done

validate_event_fields_iff_example :
    (validate_event_fields "event-2" "2026-01-01T00:00:05Z" ≡ ok tt)
    ↔ HasEventFields "event-2" "2026-01-01T00:00:05Z"
validate_event_fields_iff_example = validate_event_fields_iff "event-2" "2026-01-01T00:00:05Z"

replay_bounded_example : (2 + 0 ≤ 3) × (2 ≡ 0 + 2)
replay_bounded_example = replay_bounded a_record a_done (a_claim ∷ a_completion ∷ []) replayed

one_shot_example :
    (a_done.execution_count ≡ 0 + claims (a_claim ∷ a_completion ∷ []))
    × (a_done.execution_count ≤ 1)
one_shot_example = one_shot a_record a_done (a_claim ∷ a_completion ∷ []) a_record-IsValid replayed

apply_transition-stale_example : apply_transition a_running a_claim ≡ err stale_revision
apply_transition-stale_example =
    apply_transition-stale a_record a_running a_claim a_claim claimed_record claim_fields refl refl
      refl

instants :
    (calendar.strptime "2026-01-01T00:00:00Z" ≡ some 63902822400)
    × (calendar.strptime "2026-01-01T00:01:00Z" ≡ some 63902822460)
unfolding stamp in_ranges is_real seconds day_number days_before_year days_before_month is_digit
instants = (refl, refl)

chronological_example : 63902822400 ≤ 63902822460
chronological_example =
    chronological a_record a_done (a_claim ∷ a_completion ∷ []) 63902822400 63902822460
      a_record-IsValid replayed instants.0 instants.1

formats :
    (is_timestamp "2026-01-01T00:00:00Z" ≡ true) × (is_timestamp "2026-01-01T00:01:00Z" ≡ true)
unfolding is_timestamp stamp in_ranges is_digit
formats = (refl, refl)

text_lt-iff_earlier_example :
    (text_lt "2026-01-01T00:00:00Z" "2026-01-01T00:01:00Z" ≡ true) ↔ (63902822400 < 63902822460)
text_lt-iff_earlier_example =
    text_lt-iff_earlier "2026-01-01T00:00:00Z" "2026-01-01T00:01:00Z" 63902822400 63902822460
      formats.0 formats.1 instants.0 instants.1

job_formats : (safe_id a_job.job_id ≡ true) × (is_digest a_job.job_digest ≡ true)
unfolding safe_id is_digest
job_formats = (refl, refl)

initial_record-ok_example :
    (r : JobRecord) × (initial_record a_job "event-2" "2026-01-01T00:00:05Z" ≡ ok r)
    × IsInitial a_job "event-2" "2026-01-01T00:00:05Z" r
initial_record-ok_example =
    initial_record-ok a_job "event-2" "2026-01-01T00:00:05Z" job_formats.0 job_formats.1
      claim_fields
