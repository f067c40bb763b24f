-- ===== src/RootAction/Store/Stuck.antt =====
-- What becomes of a job that `seal_with_lineage_admission` of local_fixture.py has left without a
-- ledger.
use agent_runtime_ops.Prelude.{
  ◌≡◌, refl, sym, ◌∙◌, ◌==◌, none, false, eq_iff, if◌then◌else◌, String, List, [], ◌∷◌, some, ok,
  arith, inl, inr, Bool-cases, Result-cases,
}
use agent_runtime_ops.Prelude.Dict.{lookup}
use agent_runtime_ops.Time.{Datetime}
use agent_runtime_ops.RootAction.Job.{SealedJob}
use agent_runtime_ops.RootAction.Json.{Library}
use agent_runtime_ops.RootAction.Receipts.{ReceiptArtifact}
use agent_runtime_ops.RootAction.State.{JobRecord, TransitionEvent, apply_transition}
use agent_runtime_ops.RootAction.Admission.{LineageFailurePolicy, LineageSummary, LedgerEntry}
use agent_runtime_ops.RootAction.Store.{Store}
use agent_runtime_ops.RootAction.Store.Sealing.{
  submission_or_default, put_if_absent, job_checks, with_job, create_pending, seal_pending,
  with_pending, with_record, sealing_checks, creation_checks,
}
use agent_runtime_ops.RootAction.Store.LineageSealing.{
  seal_with_lineage_admission, with_admitted, close_blocked, admit, is_blocked, admission_checks,
}
use agent_runtime_ops.RootAction.Store.Rejection.{seal_rejected, with_rejected, rejection_checks}
use agent_runtime_ops.RootAction.Store.Transitions.{
  compare_and_append, append_checks, with_transition,
}
use agent_runtime_ops.RootAction.Store.Publication.{
  put_raw_if_absent, raw_checks, with_raw, publish_if_absent, quarantine_if_absent,
  publication_checks, quarantine_checks, with_receipt, with_quarantine,
}
use agent_runtime_ops.RootAction.Store.Commands.{
  Command, put_job, create, seal, reject, append, put_raw, publish, quarantine, execute, run,
}
use agent_runtime_ops.RootAction.Store.Atomicity.{outcome-state}
use agent_runtime_ops.RootAction.Store.Soundness.Dicts.{lookup-put_ne}
use agent_runtime_ops.RootAction.Store.Kept.{run-keeps_jobs}
use agent_runtime_ops.RootAction.Store.Partial.{IsStuck, no_ledger-refuses}
use agent_runtime_ops.RootAction.Store.Soundness.Fresh.{
  attempt-keeps, sealing_checks-Fresh, rejection_checks-Fresh, admission_checks-Fresh,
}

-- A record under the key, and no ledger.
record Halted (k : String) (r : JobRecord) (s : Store) : Type 0 where
  stored : lookup k s.records ≡ some r
  no_ledger : lookup k s.ledger ≡ none

-- A job without a record is another one.
other_key :
    (k j : String) (r : JobRecord) (s : Store)
    → Halted k r s
    → lookup j s.records ≡ none
    → (j == k) ≡ false
other_key k j r s h n = elim (Bool-cases (j == k)) [
  | inl e ↦ ground (arith, eq_iff j k, h.stored)
  | inr e ↦ e
]

same_entries :
    (k : String) (r : JobRecord) (s t : Store)
    → Halted k r s
    → lookup k t.records ≡ lookup k s.records
    → lookup k t.ledger ≡ lookup k s.ledger
    → Halted k r t
same_entries k r s t h p q = record { stored = p ∙ h.stored; no_ledger = q ∙ h.no_ledger }

module _ ⦃datetime : Datetime⦄ ⦃library : Library⦄ where
  creation_checks-new :
      (r : JobRecord) (s : Store) → creation_checks r s ≡ ok tt → lookup r.job_id s.records ≡ none
  unfolding creation_checks
  creation_checks-new r s h = ground arith

  append_checks-other :
      (x : TransitionEvent) (s : Store) (k : String) (r : JobRecord)
      (y : JobRecord × List LedgerEntry × JobRecord)
      → Halted k r s
      → append_checks x s ≡ ok y
      → (x.job_id == k) ≡ false
  unfolding append_checks
  append_checks-other x s k r y h e = elim (Bool-cases (x.job_id == k)) [
    | inl b ↦ ground (arith, eq_iff x.job_id k, h.no_ledger)
    | inr b ↦ b
  ]

  close_blocked-Halted :
      (job : SealedJob) (v : JobRecord) (x : TransitionEvent) (n : ReceiptArtifact) (s : Store)
      (p : LineageFailurePolicy) (y : LineageSummary) (k : String) (r : JobRecord)
      → (job.job_id == k) ≡ false
      → Halted k r s
      → Halted k r (close_blocked job v x n p y s).1
  unfolding close_blocked
  close_blocked-Halted job v x n s p y k r d h = elim (Result-cases (apply_transition v x)) [
    | inl (u, a) ↦
        rw (a, close_blocked)
          (same_entries k r s _ h (lookup-put_ne job.job_id k u s.records d)
            (lookup-put_ne job.job_id k _ s.ledger d))
    | inr (z, e) ↦ rw (e, close_blocked) h
  ]

  put_if_absent-Halted :
      (job : SealedJob) (s : Store) (k : String) (r : JobRecord)
      → Halted k r s
      → Halted k r (put_if_absent job s).1
  unfolding put_if_absent
  put_if_absent-Halted job s k r h =
      attempt-keeps (Halted k r) s (job_checks job s) (λ _. (ok tt, with_job job s)) h
        λ a e. same_entries k r s _ h refl refl

  execute-Halted :
      (c : Command) (s : Store) (k : String) (r : JobRecord)
      → Halted k r s
      → Halted k r (execute c s).1
  unfolding execute
  execute-Halted (put_job job) s k r h = put_if_absent-Halted job s k r h
  execute-Halted (create v) s k r h =
      (unfold create_pending in
        attempt-keeps (Halted k r) s (creation_checks v s) (λ _. (ok tt, with_record v s)) h
          λ a e.
            let d = other_key k v.job_id r s h (creation_checks-new v s e) in
            same_entries k r s _ h (lookup-put_ne v.job_id k v s.records d)
              (lookup-put_ne v.job_id k _ s.ledger d))
  execute-Halted (seal job i t m l) s k r h = rw outcome-state (
      unfold seal_pending in
      attempt-keeps (Halted k r) s (sealing_checks job i t (submission_or_default t m) l s)
        (λ v. (ok v, with_pending s job (submission_or_default t m) v)) h
        λ v e.
          let f = sealing_checks-Fresh job i t (submission_or_default t m) l s v e in
          let d = other_key k job.job_id r s h f.new_record in
          same_entries k r s _ h (lookup-put_ne job.job_id k v s.records d)
            (lookup-put_ne job.job_id k _ s.ledger d))
  execute-Halted (reject job i t x n m l) s k r h = rw outcome-state (
      unfold seal_rejected in
      attempt-keeps (Halted k r) s (rejection_checks job i t x n m l s)
        (λ (v, u). (ok u, with_rejected s job x n m v u)) h
        λ (v, u) e.
          let f = (rejection_checks-Fresh job i t x n m l s v u e).0 in
          let d = other_key k job.job_id r s h f.new_record in
          same_entries k r s _ h (lookup-put_ne job.job_id k u s.records d)
            (lookup-put_ne job.job_id k _ s.ledger d))
  execute-Halted (Command.admit job i t x n m l p) s k r h = rw outcome-state (
      unfold seal_with_lineage_admission in
      attempt-keeps (Halted k r) s (admission_checks job i t x n m l p s)
        (λ (v, y).
          let s1 = with_admitted s job m v in
          if is_blocked p y then close_blocked job v x n p y s1 else admit job v y s1)
        h
        λ (v, y) e.
          let f = admission_checks-Fresh job i t x n m l p s v y e in
          let d = other_key k job.job_id r s h f.new_record in
          let g =
            same_entries k r s (with_admitted s job m v) h
              (lookup-put_ne job.job_id k v s.records d) refl in
          elim (Bool-cases (is_blocked p y)) [
            | inl b ↦ rw b (close_blocked-Halted job v x n (with_admitted s job m v) p y k r d g)
            | inr b ↦ rw b (
                same_entries k r (with_admitted s job m v) _ g refl
                  (lookup-put_ne job.job_id k _ s.ledger d))
          ])
  execute-Halted (append x) s k r h = rw outcome-state (
      unfold compare_and_append in
      attempt-keeps (Halted k r) s (append_checks x s)
        (λ (v, es, u). (ok u, with_transition s x v es u)) h
        λ (v, es, u) e.
          let d = append_checks-other x s k r (v, es, u) h e in
          same_entries k r s _ h (lookup-put_ne x.job_id k u s.records d)
            (lookup-put_ne x.job_id k _ s.ledger d))
  execute-Halted (put_raw a) s k r h =
      (unfold put_raw_if_absent in
        attempt-keeps (Halted k r) s (raw_checks a s) (λ _. (ok tt, with_raw a s)) h
          λ _ e. same_entries k r s _ h refl refl)
  execute-Halted (publish a) s k r h =
      (unfold publish_if_absent in
        attempt-keeps (Halted k r) s (publication_checks a s) (λ _. (ok tt, with_receipt a s)) h
          λ _ e. same_entries k r s _ h refl refl)
  execute-Halted (quarantine q) s k r h =
      (unfold quarantine_if_absent in
        attempt-keeps (Halted k r) s (quarantine_checks q s) (λ _. (ok tt, with_quarantine q s)) h
          λ _ e. same_entries k r s _ h refl refl)

  run-Halted :
      (cs : List Command) (s : Store) (k : String) (r : JobRecord)
      → Halted k r s
      → Halted k r (run cs s)
  unfolding run
  run-Halted [] s k r h = h
  run-Halted (c ∷ cs) s k r h = run-Halted cs (execute c s).1 k r (execute-Halted c s k r h)

  -- A job that is sealed and pending without a ledger stays so, with the same record, whatever
  -- commands run and whichever raise: no method gives it a ledger, and every event of it is
  -- refused with a KeyError for ever.
  pub run-IsStuck :
      (cs : List Command) (job : SealedJob) (s : Store)
      → IsStuck job s
      → IsStuck job (run cs s)
        × (lookup job.job_id (run cs s).records ≡ lookup job.job_id s.records)
  run-IsStuck cs job s h =
      let r = h.current in
      let t = run cs s in
      let g =
        run-Halted cs s job.job_id r (record { stored = h.stored; no_ledger = h.no_ledger }) in
      (
        record {
          sealed = run-keeps_jobs cs s job.job_id job h.sealed;
          current = r;
          stored = g.stored;
          is_pending = h.is_pending;
          no_ledger = g.no_ledger;
          refused = no_ledger-refuses job.job_id r t g.stored g.no_ledger;
        },
        g.stored ∙ sym h.stored,
      )
