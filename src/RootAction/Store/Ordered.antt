-- ===== src/RootAction/Store/Ordered.antt =====
-- The order that local_fixture.py keeps: jobs stand under their names, and the sequence numbers of
-- each ledger rise up to the counter of the store.
use agent_runtime_ops.Prelude.{
  ℕ, ◌+◌, ◌≤◌, ◌≡◌, String, List, [], ◌∷◌, ◌++◌, some, ok, inl, inr, arith, Bool-cases,
  Result-cases, if◌then◌else◌,
}
use agent_runtime_ops.Prelude.Dict.{Dict, lookup, put}
use agent_runtime_ops.Time.{Datetime}
use agent_runtime_ops.RootAction.Job.{SealedJob}
use agent_runtime_ops.RootAction.Json.{Library}
use agent_runtime_ops.RootAction.Receipts.{ReceiptArtifact}
use agent_runtime_ops.RootAction.State.{JobRecord, TransitionEvent, apply_transition}
use agent_runtime_ops.RootAction.Admission.{
  LineageFailurePolicy, LineageSummary, SubmissionMetadata, LedgerEntry,
}
use agent_runtime_ops.RootAction.Store.{Store, empty_store, pending_entry, transition_entry}
use agent_runtime_ops.RootAction.Store.Sealing.{
  submission_or_default, put_if_absent, job_checks, with_job, create_pending, seal_pending,
  with_pending, with_record, sealing_checks, creation_checks,
}
use agent_runtime_ops.RootAction.Store.LineageSealing.{
  seal_with_lineage_admission, with_admitted, close_blocked, admit, is_blocked, admission_checks,
}
use agent_runtime_ops.RootAction.Store.Rejection.{seal_rejected, with_rejected, rejection_checks}
use agent_runtime_ops.RootAction.Store.Transitions.{
  compare_and_append, append_checks, with_transition,
}
use agent_runtime_ops.RootAction.Store.Publication.{
  put_raw_if_absent, raw_checks, with_raw, publish_if_absent, quarantine_if_absent,
  publication_checks, quarantine_checks, with_receipt, with_quarantine,
}
use agent_runtime_ops.RootAction.Store.Commands.{
  Command, put_job, create, seal, reject, append, put_raw, publish, quarantine, execute, run,
}
use agent_runtime_ops.RootAction.Store.Atomicity.{outcome-state}
use agent_runtime_ops.RootAction.Store.Soundness.Dicts.{lookup-put_inv}
use agent_runtime_ops.RootAction.Store.Soundness.Fresh.{attempt-keeps}
use agent_runtime_ops.RootAction.Store.Numbered.{Numbered, Numbered-append, Numbered-le}

pub record Numbers (ledger : Dict (List LedgerEntry)) (n : ℕ) : Type 0 where
  pub numbered : (k : String) (es : List LedgerEntry) → lookup k ledger ≡ some es → Numbered 0 es n

pub record Names (jobs : Dict SealedJob) : Type 0 where
  pub named : (k : String) (job : SealedJob) → lookup k jobs ≡ some job → job.job_id ≡ k

pub record IsOrdered (s : Store) : Type 0 where
  pub numbers : Numbers s.ledger s.sequence
  pub names : Names s.jobs

Numbers-le :
    {ledger : Dict (List LedgerEntry)} (n m : ℕ) → n ≤ m → Numbers ledger n → Numbers ledger m
Numbers-le n m h old = record { numbered = λ k es e. Numbered-le 0 n m es h (old.numbered k es e) }

Numbers-put :
    {ledger : Dict (List LedgerEntry)} (k : String) (es : List LedgerEntry) (n m : ℕ)
    → n ≤ m
    → Numbered 0 es m
    → Numbers ledger n
    → Numbers (put k es ledger) m
Numbers-put {ledger} k es n m h new old = record {
  numbered = λ j fs e. elim (lookup-put_inv k j es fs ledger e) [
    | inl (p, q) ↦ rw (← q) new
    | inr (p, q) ↦ Numbered-le 0 n m fs h (old.numbered j fs q)
  ];
}

Names-put : {jobs : Dict SealedJob} (job : SealedJob) → Names jobs → Names (put job.job_id job jobs)
Names-put {jobs} job old = record {
  named = λ j v e. elim (lookup-put_inv job.job_id j job v jobs e) [
    | inl (p, q) ↦ rw (← q) p
    | inr (p, q) ↦ old.named j v q
  ];
}

module _ ⦃datetime : Datetime⦄ ⦃library : Library⦄ where
  append_checks-ledger :
      (x : TransitionEvent) (s : Store) (r u : JobRecord) (es : List LedgerEntry)
      → append_checks x s ≡ ok (r, es, u)
      → lookup x.job_id s.ledger ≡ some es
  unfolding append_checks
  append_checks-ledger x s r u es h = ground arith

  compare_and_append-IsOrdered :
      (x : TransitionEvent) (s : Store) → IsOrdered s → IsOrdered (compare_and_append x s).1
  unfolding compare_and_append
  compare_and_append-IsOrdered x s h =
      attempt-keeps IsOrdered s (append_checks x s)
        (λ (r, es, u). (ok u, with_transition s x r es u)) h
        λ (r, es, u) e.
          let old = h.numbers.numbered x.job_id es (append_checks-ledger x s r u es e) in
          record {
            numbers =
                Numbers-put x.job_id (es ++ transition_entry (s.sequence + 1) r x u ∷ []) s.sequence
                  (s.sequence + 1) (omega arith)
                  (Numbered-append 0 s.sequence (s.sequence + 1) es
                    (transition_entry (s.sequence + 1) r x u) (omega arith) (omega arith) old)
                  h.numbers;
            names = h.names;
          }

  -- A ledger of one or two new entries.
  Numbers-one :
      (k : String) (r : JobRecord) (s : Store)
      → IsOrdered s
      → Numbers (put k (pending_entry (s.sequence + 1) r ∷ []) s.ledger) (s.sequence + 1)
  Numbers-one k r s h =
      Numbers-put k (pending_entry (s.sequence + 1) r ∷ []) s.sequence (s.sequence + 1)
        (omega arith) (omega arith) h.numbers

  close_blocked-IsOrdered :
      (job : SealedJob) (r : JobRecord) (x : TransitionEvent) (n : ReceiptArtifact)
      (m : SubmissionMetadata) (p : LineageFailurePolicy) (y : LineageSummary) (s : Store)
      → IsOrdered s
      → IsOrdered (close_blocked job r x n p y (with_admitted s job m r)).1
  unfolding close_blocked
  close_blocked-IsOrdered job r x n m p y s h =
      let names = Names-put job h.names in
      elim (Result-cases (apply_transition r x)) [
        | inr (z, e) ↦
            rw (e, close_blocked)
              (record {
                numbers = Numbers-le s.sequence (s.sequence + 1) (omega arith) h.numbers;
                names = names;
              })
        | inl (u, e) ↦
            rw (e, close_blocked)
              (record {
                numbers =
                    Numbers-put job.job_id
                      (pending_entry (s.sequence + 1) r
                        ∷ transition_entry (s.sequence + 1 + 1) r x u
                        ∷ [])
                      s.sequence (s.sequence + 1 + 1) (omega arith) (omega arith) h.numbers;
                names = names;
              })
      ]

  execute-IsOrdered : (c : Command) (s : Store) → IsOrdered s → IsOrdered (execute c s).1
  unfolding execute
  execute-IsOrdered (put_job job) s h =
      (unfold put_if_absent in
        attempt-keeps IsOrdered s (job_checks job s) (λ _. (ok tt, with_job job s)) h
          λ _ e. record { numbers = h.numbers; names = Names-put job h.names })
  execute-IsOrdered (create r) s h =
      (unfold create_pending in
        attempt-keeps IsOrdered s (creation_checks r s) (λ _. (ok tt, with_record r s)) h
          λ _ e. record { numbers = Numbers-one r.job_id r s h; names = h.names })
  execute-IsOrdered (seal job i t o l) s h = rw outcome-state (
      let m = submission_or_default t o in
      unfold seal_pending in
      attempt-keeps IsOrdered s (sealing_checks job i t m l s) (λ r. (ok r, with_pending s job m r))
        h λ r e. record { numbers = Numbers-one job.job_id r s h; names = Names-put job h.names })
  execute-IsOrdered (reject job i t x n m l) s h = rw outcome-state (
      unfold seal_rejected in
      attempt-keeps IsOrdered s (rejection_checks job i t x n m l s)
        (λ (r, u). (ok u, with_rejected s job x n m r u)) h
        λ (r, u) e. record {
          numbers =
              Numbers-put job.job_id
                (pending_entry (s.sequence + 1) r ∷ transition_entry (s.sequence + 2) r x u ∷ [])
                s.sequence (s.sequence + 2) (omega arith) (omega arith) h.numbers;
          names = Names-put job h.names;
        })
  execute-IsOrdered (Command.admit job i t x n m l p) s h = rw outcome-state (
      unfold seal_with_lineage_admission in
      attempt-keeps IsOrdered s (admission_checks job i t x n m l p s)
        (λ (r, y).
          let s1 = with_admitted s job m r in
          if is_blocked p y then close_blocked job r x n p y s1 else admit job r y s1)
        h
        λ (r, y) e. elim (Bool-cases (is_blocked p y)) [
          | inl b ↦ rw b (close_blocked-IsOrdered job r x n m p y s h)
          | inr b ↦
              rw b
                (record { numbers = Numbers-one job.job_id r s h; names = Names-put job h.names })
        ])
  execute-IsOrdered (append x) s h = rw outcome-state (compare_and_append-IsOrdered x s h)
  execute-IsOrdered (put_raw a) s h =
      (unfold put_raw_if_absent in
        attempt-keeps IsOrdered s (raw_checks a s) (λ _. (ok tt, with_raw a s)) h
          λ _ e. record { numbers = h.numbers; names = h.names })
  execute-IsOrdered (publish a) s h =
      (unfold publish_if_absent in
        attempt-keeps IsOrdered s (publication_checks a s) (λ _. (ok tt, with_receipt a s)) h
          λ _ e. record { numbers = h.numbers; names = h.names })
  execute-IsOrdered (quarantine q) s h =
      (unfold quarantine_if_absent in
        attempt-keeps IsOrdered s (quarantine_checks q s) (λ _. (ok tt, with_quarantine q s)) h
          λ _ e. record { numbers = h.numbers; names = h.names })

  empty-IsOrdered : IsOrdered empty_store
  unfolding lookup
  empty-IsOrdered = record {
    numbers = record { numbered = λ k es e. cc };
    names = record { named = λ k job e. cc };
  }

  keeps_order : (cs : List Command) (s : Store) → IsOrdered s → IsOrdered (run cs s)
  unfolding run
  keeps_order [] s h = h
  keeps_order (c ∷ cs) s h = keeps_order cs (execute c s).1 (execute-IsOrdered c s h)

  pub run-IsOrdered : (cs : List Command) → IsOrdered (run cs empty_store)
  run-IsOrdered cs = keeps_order cs empty_store empty-IsOrdered
