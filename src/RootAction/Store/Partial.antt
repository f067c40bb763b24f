-- ===== src/RootAction/Store/Partial.antt =====
-- What `seal_with_lineage_admission` of local_fixture.py leaves where it raises.
use agent_runtime_ops.Prelude.{
  ◌≡◌, ◌⊎◌, inl, inr, refl, String, none, some, Error, key_error, Result, ok, err, arith,
  Bool-cases, Result-cases,
}
use agent_runtime_ops.Prelude.Dict.{lookup}
use agent_runtime_ops.Time.{Datetime}
use agent_runtime_ops.RootAction.Job.{SealedJob}
use agent_runtime_ops.RootAction.Json.{Library}
use agent_runtime_ops.RootAction.Receipts.{ReceiptArtifact}
use agent_runtime_ops.RootAction.State.{JobRecord, TransitionEvent, pending, apply_transition}
use agent_runtime_ops.RootAction.State.Initial.{initial_record-IsInitial}
use agent_runtime_ops.RootAction.Admission.{
  LineageFailurePolicy, LineageSummary, SubmissionMetadata, SubmissionLimits,
}
use agent_runtime_ops.RootAction.Store.{Store, attempt}
use agent_runtime_ops.RootAction.Store.LineageSealing.{
  seal_with_lineage_admission, admission_checks, close_blocked, with_admitted, is_blocked,
}
use agent_runtime_ops.RootAction.Store.Transitions.{compare_and_append, append_checks}
use agent_runtime_ops.RootAction.Store.Soundness.Fresh.{admission_checks-Fresh}
use agent_runtime_ops.RootAction.Store.Soundness.Dicts.{lookup-put_self}

attempt-eq-err :
    {A B : Type 0} (s t : Store) (c : Result A) (k : A → Result B × Store) (x : Error)
    → attempt s c k ≡ (err x, t)
    → (t ≡ s) ⊎ ((a : A) × (c ≡ ok a) × (k a ≡ (err x, t)))
attempt-eq-err s t (ok a) k x h = inr (a, refl, h)
attempt-eq-err s t (err e) k x h = inl cc

module _ ⦃datetime : Datetime⦄ where
  -- A job that is sealed and pending without a ledger: no event of it is appended.
  pub record IsStuck (job : SealedJob) (t : Store) : Type 0 where
    pub sealed : lookup job.job_id t.jobs ≡ some job
    pub current : JobRecord
    pub stored : lookup job.job_id t.records ≡ some current
    pub is_pending : current.state ≡ pending
    pub no_ledger : lookup job.job_id t.ledger ≡ none
    pub refused :
        (e : TransitionEvent) → e.job_id ≡ job.job_id → compare_and_append e t ≡ (err key_error, t)

  no_ledger-append_checks :
      (r : JobRecord) (t : Store) (e : TransitionEvent)
      → lookup e.job_id t.records ≡ some r
      → lookup e.job_id t.ledger ≡ none
      → append_checks e t ≡ err key_error
  unfolding append_checks
  no_ledger-append_checks r t e h g = ground arith

  pub no_ledger-refuses :
      (k : String) (r : JobRecord) (t : Store)
      → lookup k t.records ≡ some r
      → lookup k t.ledger ≡ none
      → (e : TransitionEvent) → e.job_id ≡ k
      → compare_and_append e t ≡ (err key_error, t)
  unfolding compare_and_append
  no_ledger-refuses k r t h g e q =
      rw (no_ledger-append_checks r t e (simp (q, h) refl) (simp (q, g) refl)) refl

  module _ ⦃library : Library⦄ where
    close_blocked-raises :
        (job : SealedJob) (r : JobRecord) (e : TransitionEvent) (n : ReceiptArtifact)
        (p : LineageFailurePolicy) (y : LineageSummary) (s t : Store) (x : Error)
        → close_blocked job r e n p y s ≡ (err x, t)
        → t ≡ s
    unfolding close_blocked
    close_blocked-raises job r e n p y s t x h = elim (Result-cases (apply_transition r e)) [
      | inl (v, f) ↦ cc (rw (f, close_blocked) at h)
      | inr (z, f) ↦ cc (rw (f, close_blocked) at h)
    ]

    pub admitted-IsStuck :
        (job : SealedJob) (m : SubmissionMetadata) (r : JobRecord) (s : Store)
        → lookup job.job_id s.ledger ≡ none
        → r.state ≡ pending
        → IsStuck job (with_admitted s job m r)
    admitted-IsStuck job m r s g d =
        let t = with_admitted s job m r in
        let found : lookup job.job_id t.records ≡ some r = lookup-put_self job.job_id r s.records in
        record {
          sealed = lookup-put_self job.job_id job s.jobs;
          current = r;
          stored = found;
          is_pending = d;
          no_ledger = g;
          refused = no_ledger-refuses job.job_id r t found g;
        }

    -- Where `seal_with_lineage_admission` raises, on a store without a ledger of the job, it has
    -- changed nothing, or it has left the job sealed and pending without a ledger, and then every
    -- event of the job is refused with a KeyError on the store so left.
    pub partial_sealing :
        (job : SealedJob) (i o : String) (e : TransitionEvent) (n : ReceiptArtifact)
        (m : SubmissionMetadata) (l : SubmissionLimits) (p : LineageFailurePolicy) (s t : Store)
        (x : Error)
        → lookup job.job_id s.ledger ≡ none
        → seal_with_lineage_admission job i o e n m l p s ≡ (err x, t)
        → (t ≡ s) ⊎ IsStuck job t
    unfolding seal_with_lineage_admission
    partial_sealing job i o e n m l p s t x g h =
        elim (attempt-eq-err s t (admission_checks job i o e n m l p s) _ x h) [
          | inl q ↦ inl q
          | inr ((r, y), c, f) ↦ elim (Bool-cases (is_blocked p y)) [
            | inl b ↦
                (let q =
                    close_blocked-raises job r e n p y (with_admitted s job m r) t x (rw b at f) in
                  let fresh = admission_checks-Fresh job i o e n m l p s r y c in
                  inr (
                    rw q (
                      admitted-IsStuck job m r s g
                        (initial_record-IsInitial job i o r fresh.initial).is_pending)))
            | inr b ↦ cc (rw b at f)
          ]
        ]
