-- ===== src/RootAction/Store/Kept.antt =====
-- What no method of local_fixture.py ever overwrites: sealed jobs.
use agent_runtime_ops.Prelude.{
  ◌≡◌, refl, if◌then◌else◌, String, List, [], ◌∷◌, some, ok, arith, inl, inr, Bool-cases,
  Result-cases,
}
use agent_runtime_ops.Prelude.Dict.{lookup}
use agent_runtime_ops.Time.{Datetime}
use agent_runtime_ops.RootAction.Job.{SealedJob}
use agent_runtime_ops.RootAction.Json.{Library}
use agent_runtime_ops.RootAction.Receipts.{ReceiptArtifact}
use agent_runtime_ops.RootAction.State.{JobRecord, TransitionEvent, apply_transition}
use agent_runtime_ops.RootAction.Store.{Store}
use agent_runtime_ops.RootAction.Store.Sealing.{
  submission_or_default, put_if_absent, job_checks, with_job, create_pending, seal_pending,
  with_pending, with_record, sealing_checks, creation_checks,
}
use agent_runtime_ops.RootAction.Store.LineageSealing.{
  seal_with_lineage_admission, with_admitted, close_blocked, admit, is_blocked, admission_checks,
}
use agent_runtime_ops.RootAction.Store.Rejection.{seal_rejected, with_rejected, rejection_checks}
use agent_runtime_ops.RootAction.Store.Transitions.{
  compare_and_append, append_checks, with_transition,
}
use agent_runtime_ops.RootAction.Store.Publication.{
  put_raw_if_absent, raw_checks, with_raw, publish_if_absent, quarantine_if_absent,
  publication_checks, quarantine_checks, with_receipt, with_quarantine,
}
use agent_runtime_ops.RootAction.Store.Commands.{
  Command, put_job, create, seal, reject, append, put_raw, publish, quarantine, execute, run,
}
use agent_runtime_ops.RootAction.Store.Atomicity.{outcome-state}
use agent_runtime_ops.RootAction.Store.Soundness.Dicts.{Extends-put}
use agent_runtime_ops.RootAction.Store.Soundness.Fresh.{
  attempt-keeps, sealing_checks-Fresh, rejection_checks-Fresh, admission_checks-Fresh,
}

-- The job under the key.
pub record HasJob (k : String) (job : SealedJob) (s : Store) : Type 0 where
  pub found : lookup k s.jobs ≡ some job

module _ ⦃datetime : Datetime⦄ ⦃library : Library⦄ where
  close_blocked-jobs :
      (job : SealedJob) (r : JobRecord) (x : TransitionEvent) (n : ReceiptArtifact) (s : Store)
      (p : _) (y : _)
      → (close_blocked job r x n p y s).1.jobs ≡ s.jobs
  unfolding close_blocked
  close_blocked-jobs job r x n s p y = elim (Result-cases (apply_transition r x)) [
    | inl (u, a) ↦ rw (a, close_blocked) refl
    | inr (z, e) ↦ rw (e, close_blocked) refl
  ]

  put_if_absent-HasJob :
      (job : SealedJob) (s : Store) (k : String) (j : SealedJob)
      → HasJob k j s
      → HasJob k j (put_if_absent job s).1
  unfolding put_if_absent job_checks
  put_if_absent-HasJob job s k j h =
      attempt-keeps (HasJob k j) s (job_checks job s) (λ _. (ok tt, with_job job s)) h
        λ a e. record { found = Extends-put job.job_id job s.jobs (ground arith) k j h.found }

  execute-HasJob :
      (c : Command) (s : Store) (k : String) (j : SealedJob)
      → HasJob k j s
      → HasJob k j (execute c s).1
  unfolding execute
  execute-HasJob (put_job job) s k j h = put_if_absent-HasJob job s k j h
  execute-HasJob (create r) s k j h =
      (unfold create_pending in
        attempt-keeps (HasJob k j) s (creation_checks r s) (λ _. (ok tt, with_record r s)) h
          λ a e. record { found = h.found })
  execute-HasJob (seal job i t m l) s k j h = rw outcome-state (
      unfold seal_pending in
      attempt-keeps (HasJob k j) s (sealing_checks job i t (submission_or_default t m) l s)
        (λ r. (ok r, with_pending s job (submission_or_default t m) r)) h
        λ r e. record {
          found =
              Extends-put job.job_id job s.jobs
                (sealing_checks-Fresh job i t (submission_or_default t m) l s r e).new_job k j
                h.found;
        })
  execute-HasJob (reject job i t x n m l) s k j h = rw outcome-state (
      unfold seal_rejected in
      attempt-keeps (HasJob k j) s (rejection_checks job i t x n m l s)
        (λ (r, u). (ok u, with_rejected s job x n m r u)) h
        λ (r, u) e. record {
          found =
              Extends-put job.job_id job s.jobs
                (rejection_checks-Fresh job i t x n m l s r u e).0.new_job k j h.found;
        })
  execute-HasJob (Command.admit job i t x n m l p) s k j h = rw outcome-state (
      unfold seal_with_lineage_admission in
      attempt-keeps (HasJob k j) s (admission_checks job i t x n m l p s)
        (λ (r, y).
          let s1 = with_admitted s job m r in
          if is_blocked p y then close_blocked job r x n p y s1 else admit job r y s1)
        h
        λ (r, y) e.
          let new =
            Extends-put job.job_id job s.jobs
              (admission_checks-Fresh job i t x n m l p s r y e).new_job k j h.found in
          elim (Bool-cases (is_blocked p y)) [
            | inl b ↦ rw b (record {
              found = rw (close_blocked-jobs job r x n (with_admitted s job m r) p y) new;
            })
            | inr b ↦ rw b (record { found = new })
          ])
  execute-HasJob (append x) s k j h = rw outcome-state (
      unfold compare_and_append in
      attempt-keeps (HasJob k j) s (append_checks x s)
        (λ (r, es, u). (ok u, with_transition s x r es u)) h λ a e. record { found = h.found })
  execute-HasJob (put_raw a) s k j h =
      (unfold put_raw_if_absent in
        attempt-keeps (HasJob k j) s (raw_checks a s) (λ _. (ok tt, with_raw a s)) h
          λ _ e. record { found = h.found })
  execute-HasJob (publish a) s k j h =
      (unfold publish_if_absent in
        attempt-keeps (HasJob k j) s (publication_checks a s) (λ _. (ok tt, with_receipt a s)) h
          λ _ e. record { found = h.found })
  execute-HasJob (quarantine q) s k j h =
      (unfold quarantine_if_absent in
        attempt-keeps (HasJob k j) s (quarantine_checks q s) (λ _. (ok tt, with_quarantine q s)) h
          λ _ e. record { found = h.found })

  -- A sealed job is never replaced: whatever commands run, and whichever raise, the store keeps it
  -- under its name.
  pub run-keeps_jobs :
      (cs : List Command) (s : Store) (k : String) (job : SealedJob)
      → lookup k s.jobs ≡ some job
      → lookup k (run cs s).jobs ≡ some job
  unfolding run
  run-keeps_jobs [] s k job h = h
  run-keeps_jobs (c ∷ cs) s k job h =
      run-keeps_jobs cs (execute c s).1 k job
        (execute-HasJob c s k job (record { found = h })).found
