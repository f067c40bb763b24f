-- ===== src/RootAction/Store/Soundness/Sealing.antt =====
-- The sealing methods of local_fixture.py keep the invariant, whether they return or raise.
use agent_runtime_ops.RootAction.Store.Soundness.Fresh.{
  attempt-keeps, Fresh, sealing_checks-Fresh, rejection_checks-Fresh, admission_checks-Fresh, more,
  initial-History, belongs, records_with, Ledgers-with,
}
use agent_runtime_ops.Prelude.{
  ℕ, ◌+◌, ◌≡◌, refl, ◌∙◌, String, [], ◌∷◌, ok, arith, inl, inr, Result-cases, Bool-cases,
  if◌then◌else◌,
}
use agent_runtime_ops.Prelude.Dict.{put}
use agent_runtime_ops.Time.{Datetime}
use agent_runtime_ops.RootAction.Job.{SealedJob}
use agent_runtime_ops.RootAction.Json.{Library}
use agent_runtime_ops.RootAction.Receipts.{ReceiptArtifact}
use agent_runtime_ops.RootAction.State.{JobRecord, TransitionEvent, apply_transition}
use agent_runtime_ops.RootAction.State.Initial.{initial_record-IsInitial}
use agent_runtime_ops.RootAction.State.Traces.{apply_transition-Progress}
use agent_runtime_ops.RootAction.Admission.{
  LineageFailurePolicy, LineageSummary, SubmissionMetadata, SubmissionLimits,
}
use agent_runtime_ops.RootAction.Store.{Store, pending_entry, transition_entry}
use agent_runtime_ops.RootAction.Store.Sealing.{
  put_if_absent, job_checks, seal_pending, with_pending, sealing_checks,
}
use agent_runtime_ops.RootAction.Store.LineageSealing.{
  seal_with_lineage_admission, with_admitted, close_blocked, admit, is_blocked, admission_checks,
}
use agent_runtime_ops.RootAction.Store.Rejection.{seal_rejected, with_rejected, rejection_checks}
use agent_runtime_ops.RootAction.Store.History.{History, step}
use agent_runtime_ops.RootAction.Store.Soundness.{IsSound}
use agent_runtime_ops.RootAction.Store.Soundness.Dicts.{
  Extends, Extends-put, lookup-put_self, Ledgers-put, Ledgers-fresh, Records-put, Records-jobs,
  Published-put, Published-jobs,
}

module _ ⦃datetime : Datetime⦄ ⦃library : Library⦄ where
  pub put_if_absent-IsSound :
      (job : SealedJob) (s : Store) → IsSound s → IsSound (put_if_absent job s).1
  unfolding put_if_absent job_checks
  put_if_absent-IsSound job s h = attempt-keeps IsSound s _ _ h λ a e.
      let more : Extends s.jobs (put job.job_id job s.jobs) =
        Extends-put job.job_id job s.jobs (ground arith) in
      record {
        ledgers = h.ledgers;
        records = Records-jobs more h.records;
        published = Published-jobs more h.published;
      }

  pub seal_pending-IsSound :
      (job : SealedJob) (i t : String) (m : SubmissionMetadata) (l : SubmissionLimits) (s : Store)
      → IsSound s
      → IsSound (seal_pending job i t m l s).1
  unfolding seal_pending
  seal_pending-IsSound job i t m l s h =
      attempt-keeps IsSound s (sealing_checks job i t m l s) (λ r. (ok r, with_pending s job m r)) h
        λ r e.
          let f = sealing_checks-Fresh job i t m l s r e in
          record {
            ledgers =
                Ledgers-with job i t s r h f (pending_entry (s.sequence + 1) r ∷ []) r
                  (initial-History job i t s r h f (s.sequence + 1)) refl;
            records = records_with job i t s r h f r refl refl;
            published = Published-jobs (more job i t s r h f) h.published;
          }

  -- The history of a job that is sealed and closed at once.
  closed-History :
      (job : SealedJob) (i t : String) (s : Store) (r u : JobRecord) (x : TransitionEvent) (n k : ℕ)
      → IsSound s
      → Fresh job i t s r
      → apply_transition r x ≡ ok u
      → History (pending_entry n r ∷ transition_entry k r x u ∷ []) u
  closed-History job i t s r u x n k h f a = step k x (initial-History job i t s r h f n) a refl

  pub seal_rejected-IsSound :
      (job : SealedJob) (i t : String) (x : TransitionEvent) (n : ReceiptArtifact)
      (m : SubmissionMetadata) (l : SubmissionLimits) (s : Store)
      → IsSound s
      → IsSound (seal_rejected job i t x n m l s).1
  unfolding seal_rejected
  seal_rejected-IsSound job i t x n m l s h =
      attempt-keeps IsSound s (rejection_checks job i t x n m l s)
        (λ (r, u). (ok u, with_rejected s job x n m r u)) h
        λ (r, u) e.
          let (f, a) = rejection_checks-Fresh job i t x n m l s r u e in
          let g = apply_transition-Progress r x u a in
          record {
            ledgers =
                Ledgers-with job i t s r h f
                  (pending_entry (s.sequence + 1) r ∷ transition_entry (s.sequence + 2) r x u ∷ [])
                  u (closed-History job i t s r u x (s.sequence + 1) (s.sequence + 2) h f a)
                  g.same_id;
            records = records_with job i t s r h f u g.same_id g.same_digest;
            published =
                Published-put job.job_id n job (Published-jobs (more job i t s r h f) h.published)
                  (lookup-put_self job.job_id job s.jobs);
          }

  -- The store between the two halves of `seal_with_lineage_admission`.
  admitted-IsSound :
      (job : SealedJob) (i t : String) (m : SubmissionMetadata) (s : Store) (r : JobRecord)
      → IsSound s
      → Fresh job i t s r
      → IsSound (with_admitted s job m r)
  admitted-IsSound job i t m s r h f = record {
    ledgers = Ledgers-fresh job.job_id r h.ledgers f.new_record;
    records = records_with job i t s r h f r refl refl;
    published = Published-jobs (more job i t s r h f) h.published;
  }

  close_blocked-IsSound :
      (job : SealedJob) (i t : String) (x : TransitionEvent) (n : ReceiptArtifact)
      (m : SubmissionMetadata) (p : LineageFailurePolicy) (y : LineageSummary) (s : Store)
      (r : JobRecord)
      → IsSound s
      → Fresh job i t s r
      → IsSound (close_blocked job r x n p y (with_admitted s job m r)).1
  unfolding close_blocked
  close_blocked-IsSound job i t x n m p y s r h f = elim (Result-cases (apply_transition r x)) [
    | inr (z, e) ↦ rw (e, close_blocked) (admitted-IsSound job i t m s r h f)
    | inl (u, a) ↦
        rw (a, close_blocked)
          (let b = admitted-IsSound job i t m s r h f in
            let g = apply_transition-Progress r x u a in
            let id = g.same_id ∙ (initial_record-IsInitial job i t r f.initial).same_id in
            record {
              ledgers =
                  Ledgers-put job.job_id
                    (pending_entry (s.sequence + 1) r
                      ∷ transition_entry (s.sequence + 1 + 1) r x u
                      ∷ [])
                    u b.ledgers id
                    (closed-History job i t s r u x (s.sequence + 1) (s.sequence + 1 + 1) h f a);
              records =
                  Records-put job.job_id u b.records
                    (belongs job i t s r h f u g.same_id g.same_digest);
              published =
                  Published-put job.job_id n job b.published
                    (lookup-put_self job.job_id job s.jobs);
            })
  ]

  admit-IsSound :
      (job : SealedJob) (i t : String) (m : SubmissionMetadata) (y : LineageSummary) (s : Store)
      (r : JobRecord)
      → IsSound s
      → Fresh job i t s r
      → IsSound (admit job r y (with_admitted s job m r)).1
  admit-IsSound job i t m y s r h f =
      let b = admitted-IsSound job i t m s r h f in
      record {
        ledgers =
            Ledgers-with job i t s r h f (pending_entry (s.sequence + 1) r ∷ []) r
              (initial-History job i t s r h f (s.sequence + 1)) refl;
        records = b.records;
        published = b.published;
      }

  pub seal_with_lineage_admission-IsSound :
      (job : SealedJob) (i t : String) (x : TransitionEvent) (n : ReceiptArtifact)
      (m : SubmissionMetadata) (l : SubmissionLimits) (p : LineageFailurePolicy) (s : Store)
      → IsSound s
      → IsSound (seal_with_lineage_admission job i t x n m l p s).1
  unfolding seal_with_lineage_admission
  seal_with_lineage_admission-IsSound job i t x n m l p s h =
      attempt-keeps IsSound s (admission_checks job i t x n m l p s)
        (λ (r, y).
          let s1 = with_admitted s job m r in
          if is_blocked p y then close_blocked job r x n p y s1 else admit job r y s1)
        h
        λ (r, y) e.
          let f = admission_checks-Fresh job i t x n m l p s r y e in
          elim (Bool-cases (is_blocked p y)) [
            | inl b ↦ rw b (close_blocked-IsSound job i t x n m p y s r h f)
            | inr b ↦ rw b (admit-IsSound job i t m y s r h f)
          ]
