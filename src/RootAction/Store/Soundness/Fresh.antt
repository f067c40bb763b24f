-- ===== src/RootAction/Store/Soundness/Fresh.antt =====
-- What the sealing methods of local_fixture.py have checked when they write, and the invariant after
-- a new job is added.
use agent_runtime_ops.Prelude.{
  ℕ, ◌≡◌, refl, sym, ◌∙◌, String, List, [], ◌∷◌, none, Result, ok, err, arith,
}
use agent_runtime_ops.Prelude.Dict.{Dict, lookup, put}
use agent_runtime_ops.Time.{Datetime}
use agent_runtime_ops.RootAction.Job.{SealedJob}
use agent_runtime_ops.RootAction.Json.{Library}
use agent_runtime_ops.RootAction.Receipts.{ReceiptArtifact}
use agent_runtime_ops.RootAction.State.{
  JobRecord, TransitionEvent, apply_transition, initial_record,
}
use agent_runtime_ops.RootAction.State.Initial.{initial_record-IsInitial}
use agent_runtime_ops.RootAction.Admission.{
  LineageFailurePolicy, LineageSummary, SubmissionMetadata, SubmissionLimits, LedgerEntry,
}
use agent_runtime_ops.RootAction.Store.{Store, attempt, pending_entry}
use agent_runtime_ops.RootAction.Store.Sealing.{sealing_checks}
use agent_runtime_ops.RootAction.Store.LineageSealing.{admission_checks}
use agent_runtime_ops.RootAction.Store.Rejection.{rejection_checks}
use agent_runtime_ops.RootAction.Store.History.{History, start}
use agent_runtime_ops.RootAction.Store.Soundness.{Ledgers, Sealed, Records, IsSound}
use agent_runtime_ops.RootAction.Store.Soundness.Dicts.{
  Extends, Extends-put, lookup-put_self, Ledgers-put, Records-put, Records-jobs,
}

-- What holds before a method and after its writes holds after it.
pub attempt-keeps :
    {A B : Type 0} (P : Store → Type 0) (s : Store) (c : Result A) (k : A → Result B × Store)
    → P s
    → ((a : A) → c ≡ ok a → P (k a).1)
    → P (attempt s c k).1
attempt-keeps P s (ok a) k h f = f a refl
attempt-keeps P s (err e) k h f = h

module _ ⦃datetime : Datetime⦄ ⦃library : Library⦄ where
  -- The facts that the sealing methods have checked when they write.
  pub record Fresh (job : SealedJob) (i t : String) (s : Store) (r : JobRecord) : Type 0 where
    pub initial : initial_record job i t ≡ ok r
    pub new_job : lookup job.job_id s.jobs ≡ none
    pub new_record : lookup job.job_id s.records ≡ none

  pub sealing_checks-Fresh :
      (job : SealedJob) (i t : String) (m : SubmissionMetadata) (l : SubmissionLimits) (s : Store)
      (r : JobRecord)
      → sealing_checks job i t m l s ≡ ok r
      → Fresh job i t s r
  unfolding sealing_checks
  sealing_checks-Fresh job i t m l s r h = record {
    initial = ground arith;
    new_job = ground arith;
    new_record = ground arith;
  }

  pub rejection_checks-Fresh :
      (job : SealedJob) (i t : String) (x : TransitionEvent) (n : ReceiptArtifact)
      (m : SubmissionMetadata) (l : SubmissionLimits) (s : Store) (r u : JobRecord)
      → rejection_checks job i t x n m l s ≡ ok (r, u)
      → Fresh job i t s r × (apply_transition r x ≡ ok u)
  unfolding rejection_checks
  rejection_checks-Fresh job i t x n m l s r u h = (
    record { initial = ground arith; new_job = ground arith; new_record = ground arith },
    ground arith,
  )

  pub admission_checks-Fresh :
      (job : SealedJob) (i t : String) (x : TransitionEvent) (n : ReceiptArtifact)
      (m : SubmissionMetadata) (l : SubmissionLimits) (p : LineageFailurePolicy) (s : Store)
      (r : JobRecord) (y : LineageSummary)
      → admission_checks job i t x n m l p s ≡ ok (r, y)
      → Fresh job i t s r
  unfolding admission_checks
  admission_checks-Fresh job i t x n m l p s r y h = record {
    initial = ground arith;
    new_job = ground arith;
    new_record = ground arith;
  }

  -- The invariant after a job, its record, perhaps its ledger and perhaps its receipt are added.
  module _ (job : SealedJob) (i t : String) (s : Store) (r : JobRecord) (h : IsSound s)
      (f : Fresh job i t s r) where
    abbrev jobs' : Dict SealedJob
    jobs' = put job.job_id job s.jobs

    pub more : Extends s.jobs jobs'
    more = Extends-put job.job_id job s.jobs f.new_job

    pub initial-History : (n : ℕ) → History (pending_entry n r ∷ []) r
    initial-History n =
        let b = initial_record-IsInitial job i t r f.initial in
        start n b.valid b.is_pending b.at_zero refl

    pub belongs :
        (u : JobRecord)
        → u.job_id ≡ r.job_id
        → u.job_digest ≡ r.job_digest
        → Sealed job.job_id u jobs'
    belongs u p q =
        let b = initial_record-IsInitial job i t r f.initial in
        record {
          job = job;
          found = lookup-put_self job.job_id job s.jobs;
          same_digest = sym (q ∙ b.same_digest);
          named = p ∙ b.same_id;
        }

    pub records_with :
        (u : JobRecord)
        → u.job_id ≡ r.job_id
        → u.job_digest ≡ r.job_digest
        → Records jobs' (put job.job_id u s.records)
    records_with u p q = Records-put job.job_id u (Records-jobs more h.records) (belongs u p q)

    pub Ledgers-with :
        (es : List LedgerEntry) (u : JobRecord)
        → History es u
        → u.job_id ≡ r.job_id
        → Ledgers (put job.job_id u s.records) (put job.job_id es s.ledger)
    Ledgers-with es u x p =
        Ledgers-put job.job_id es u h.ledgers
          (p ∙ (initial_record-IsInitial job i t r f.initial).same_id) x
