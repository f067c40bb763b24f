-- ===== src/RootAction/State/Initial.antt =====
-- The record that `initial_record` of state.py makes.
use agent_runtime_ops.Prelude.{◌≡◌, refl, String, none, arith, ok, true}
use agent_runtime_ops.Text.{safe_id, is_digest}
use agent_runtime_ops.Time.{Datetime}
use agent_runtime_ops.RootAction.Job.{SealedJob}
use agent_runtime_ops.RootAction.State.{pending, JobRecord, initial_record}
use agent_runtime_ops.RootAction.State.Spec.{IsValid, HasEventFields}
use agent_runtime_ops.RootAction.State.Validity.{validate_record_iff, validate_event_fields_iff}

module _ ⦃datetime : Datetime⦄ where
  -- A valid pending record at revision 0 that names the job.
  pub record IsInitial (job : SealedJob) (event_id occurred_at : String) (r : JobRecord)
      : Type 0 where
    pub valid : IsValid r
    pub is_pending : r.state ≡ pending
    pub at_zero : r.revision ≡ 0
    pub same_id : r.job_id ≡ job.job_id
    pub same_digest : r.job_digest ≡ job.job_digest
    pub last_event : r.last_event_id ≡ event_id
    pub last_change : r.last_changed_at ≡ occurred_at

  pub initial_record-IsInitial :
      (job : SealedJob) (event_id occurred_at : String) (r : JobRecord)
      → initial_record job event_id occurred_at ≡ ok r
      → IsInitial job event_id occurred_at r
  unfolding initial_record
  initial_record-IsInitial job event_id occurred_at r h = record {
    valid = (validate_record_iff r).0 (ground arith);
    is_pending = ground arith;
    at_zero = ground arith;
    same_id = ground arith;
    same_digest = ground arith;
    last_event = ground arith;
    last_change = ground arith;
  }

  -- A job with a safe identifier and a digest of the format gets a record whenever the event's
  -- identifier and time are well formed: a valid pending record at revision 0, which names the job
  -- and its digest and the event and its time.
  pub initial_record-ok :
      (job : SealedJob) (event_id occurred_at : String)
      → safe_id job.job_id ≡ true
      → is_digest job.job_digest ≡ true
      → HasEventFields event_id occurred_at
      → (r : JobRecord) × (initial_record job event_id occurred_at ≡ ok r)
        × IsInitial job event_id occurred_at r
  unfolding initial_record
  initial_record-ok job event_id occurred_at i d f =
      let r : JobRecord = record {
        job_id = job.job_id;
        job_digest = job.job_digest;
        state = pending;
        revision = 0;
        execution_count = 0;
        terminal_outcome = none;
        reason_code = none;
        last_event_id = event_id;
        last_changed_at = occurred_at;
      } in
      let v : IsValid r = record {
        id_is_safe = i;
        digest_has_format = d;
        last_event = f;
        shape = (refl, refl, refl);
      } in
      let e : initial_record job event_id occurred_at ≡ ok r = ground (
        arith,
        (validate_event_fields_iff event_id occurred_at).1 f,
        (validate_record_iff r).1 v,
      ) in
      (r, e, initial_record-IsInitial job event_id occurred_at r e)
