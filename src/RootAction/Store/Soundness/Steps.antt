-- ===== src/RootAction/Store/Soundness/Steps.antt =====
-- Every method keeps the invariant, whether it returns or raises.
use agent_runtime_ops.RootAction.Store.Soundness.Sealing.{
  put_if_absent-IsSound, seal_pending-IsSound, seal_rejected-IsSound,
  seal_with_lineage_admission-IsSound,
}
use agent_runtime_ops.RootAction.Store.Soundness.Fresh.{attempt-keeps}
use agent_runtime_ops.Prelude.{
  ◌+◌, ◌≡◌, refl, sym, ◌∙◌, List, [], ◌∷◌, ◌++◌, some, ok, arith, eq_iff, Option-cases, inl, inr,
}
use agent_runtime_ops.Prelude.Dict.{lookup}
use agent_runtime_ops.Time.{Datetime}
use agent_runtime_ops.RootAction.Job.{SealedJob}
use agent_runtime_ops.RootAction.Json.{Library}
use agent_runtime_ops.RootAction.Receipts.{ReceiptArtifact}
use agent_runtime_ops.RootAction.Receipts.Raw.{RawReceiptArtifact, QuarantineRecord}
use agent_runtime_ops.RootAction.State.{JobRecord, TransitionEvent, pending, apply_transition}
use agent_runtime_ops.RootAction.State.Spec.{IsValid}
use agent_runtime_ops.RootAction.State.Validity.{validate_record_iff}
use agent_runtime_ops.RootAction.State.Traces.{apply_transition-Progress}
use agent_runtime_ops.RootAction.Admission.{LedgerEntry}
use agent_runtime_ops.RootAction.Store.{Store, empty_store, pending_entry, transition_entry}
use agent_runtime_ops.RootAction.Store.Sealing.{
  submission_or_default, create_pending, with_record, creation_checks,
}
use agent_runtime_ops.RootAction.Store.Transitions.{
  compare_and_append, append_checks, with_transition,
}
use agent_runtime_ops.RootAction.Store.Publication.{
  put_raw_if_absent, publish_if_absent, quarantine_if_absent, publication_checks, with_receipt,
  quarantine_checks, with_quarantine,
}
use agent_runtime_ops.RootAction.Store.Commands.{
  Command, put_job, create, seal, reject, append, put_raw, publish, quarantine, execute, run,
}
use agent_runtime_ops.RootAction.Store.Atomicity.{outcome-state}
use agent_runtime_ops.RootAction.Store.History.{History, start, step}
use agent_runtime_ops.RootAction.Store.Soundness.{Sealed, IsSound}
use agent_runtime_ops.RootAction.Store.Soundness.Dicts.{Ledgers-put, Records-put, Published-put}

module _ ⦃datetime : Datetime⦄ ⦃library : Library⦄ where
  record Created (r : JobRecord) (s : Store) : Type 0 where
    valid : IsValid r
    is_pending : r.state ≡ pending
    at_zero : r.revision ≡ 0
    belongs : Sealed r.job_id r s.jobs

  creation_checks-Created : (r : JobRecord) (s : Store) → creation_checks r s ≡ ok tt → Created r s
  unfolding creation_checks
  creation_checks-Created r s h = elim (Option-cases (lookup r.job_id s.jobs)) [
    | inl e ↦ ground arith
    | inr (job, e) ↦ record {
      valid = (validate_record_iff r).0 (ground arith);
      is_pending = ground arith;
      at_zero = ground arith;
      belongs = record {
        job = job;
        found = e;
        same_digest = ground (arith, eq_iff job.job_digest r.job_digest);
        named = refl;
      };
    }
  ]

  create_pending-IsSound : (r : JobRecord) (s : Store) → IsSound s → IsSound (create_pending r s).1
  unfolding create_pending
  create_pending-IsSound r s h =
      attempt-keeps IsSound s (creation_checks r s) (λ _. (ok tt, with_record r s)) h
        λ a e.
          let c = creation_checks-Created r s e in
          record {
            ledgers =
                Ledgers-put r.job_id (pending_entry (s.sequence + 1) r ∷ []) r h.ledgers refl
                  (start (s.sequence + 1) c.valid c.is_pending c.at_zero refl);
            records = Records-put r.job_id r h.records c.belongs;
            published = h.published;
          }

  append_checks-facts :
      (x : TransitionEvent) (s : Store) (r : JobRecord) (es : List LedgerEntry) (u : JobRecord)
      → append_checks x s ≡ ok (r, es, u)
      → (lookup x.job_id s.records ≡ some r)
        × (lookup x.job_id s.ledger ≡ some es)
        × (apply_transition r x ≡ ok u)
  unfolding append_checks
  append_checks-facts x s r es u h = (ground arith, ground arith, ground arith)

  compare_and_append-IsSound :
      (x : TransitionEvent) (s : Store) → IsSound s → IsSound (compare_and_append x s).1
  unfolding compare_and_append
  compare_and_append-IsSound x s h =
      attempt-keeps IsSound s (append_checks x s) (λ (r, es, u). (ok u, with_transition s x r es u))
        h
        λ (r, es, u) e.
          let (f, l, a) = append_checks-facts x s r es u e in
          let t = h.ledgers.tracked x.job_id es l in
          let same : t.current ≡ r = cc (t.found, f) in
          let past : History es r = rw same at t.history in
          let b = h.records.sealed x.job_id r f in
          let g = apply_transition-Progress r x u a in
          record {
            ledgers =
                Ledgers-put x.job_id (es ++ transition_entry (s.sequence + 1) r x u ∷ []) u
                  h.ledgers (g.same_id ∙ b.named) (step (s.sequence + 1) x past a refl);
            records = Records-put x.job_id u h.records (record {
              job = b.job;
              found = b.found;
              same_digest = b.same_digest ∙ sym g.same_digest;
              named = g.same_id ∙ b.named;
            });
            published = h.published;
          }

  put_raw_if_absent-IsSound :
      (a : RawReceiptArtifact) (s : Store) → IsSound s → IsSound (put_raw_if_absent a s).1
  unfolding put_raw_if_absent
  put_raw_if_absent-IsSound a s h =
      attempt-keeps IsSound s _ _ h
        λ _ e. record { ledgers = h.ledgers; records = h.records; published = h.published }

  publication_checks-job :
      (a : ReceiptArtifact) (s : Store)
      → publication_checks a s ≡ ok tt
      → (job : SealedJob) × (lookup a.job_id s.jobs ≡ some job)
  unfolding publication_checks
  publication_checks-job a s h = elim (Option-cases (lookup a.job_id s.jobs)) [
    | inl e ↦ ground arith
    | inr (job, e) ↦ (job, e)
  ]

  with_receipt-IsSound :
      (a : ReceiptArtifact) (s : Store)
      → IsSound s
      → publication_checks a s ≡ ok tt
      → IsSound (with_receipt a s)
  with_receipt-IsSound a s h e =
      let (job, f) = publication_checks-job a s e in
      record {
        ledgers = h.ledgers;
        records = h.records;
        published = Published-put a.job_id a job h.published f;
      }

  publish_if_absent-IsSound :
      (a : ReceiptArtifact) (s : Store) → IsSound s → IsSound (publish_if_absent a s).1
  unfolding publish_if_absent
  publish_if_absent-IsSound a s h =
      attempt-keeps IsSound s (publication_checks a s) (λ _. (ok tt, with_receipt a s)) h
        λ _ e. with_receipt-IsSound a s h e

  pub quarantine_checks-facts :
      (q : QuarantineRecord) (s : Store)
      → quarantine_checks q s ≡ ok tt
      → publication_checks q.notice s ≡ ok tt
  unfolding quarantine_checks
  quarantine_checks-facts q s h = ground arith

  quarantine_if_absent-IsSound :
      (q : QuarantineRecord) (s : Store) → IsSound s → IsSound (quarantine_if_absent q s).1
  unfolding quarantine_if_absent
  quarantine_if_absent-IsSound q s h =
      attempt-keeps IsSound s (quarantine_checks q s) (λ _. (ok tt, with_quarantine q s)) h
        λ _ e.
          let b = with_receipt-IsSound q.notice s h (quarantine_checks-facts q s e) in
          record { ledgers = b.ledgers; records = b.records; published = b.published }

  -- Every command keeps the invariant, whether it returns or raises.
  pub execute-IsSound : (c : Command) (s : Store) → IsSound s → IsSound (execute c s).1
  unfolding execute
  execute-IsSound (put_job job) s h = put_if_absent-IsSound job s h
  execute-IsSound (create r) s h = create_pending-IsSound r s h
  execute-IsSound (seal job i t m l) s h =
      rw outcome-state (seal_pending-IsSound job i t (submission_or_default t m) l s h)
  execute-IsSound (reject job i t x n m l) s h =
      rw outcome-state (seal_rejected-IsSound job i t x n m l s h)
  execute-IsSound (Command.admit job i t x n m l p) s h =
      rw outcome-state (seal_with_lineage_admission-IsSound job i t x n m l p s h)
  execute-IsSound (append x) s h = rw outcome-state (compare_and_append-IsSound x s h)
  execute-IsSound (put_raw a) s h = put_raw_if_absent-IsSound a s h
  execute-IsSound (publish a) s h = publish_if_absent-IsSound a s h
  execute-IsSound (quarantine q) s h = quarantine_if_absent-IsSound q s h

  pub empty-IsSound : IsSound empty_store
  unfolding lookup
  empty-IsSound = record {
    ledgers = record { tracked = λ k es e. cc };
    records = record { sealed = λ k r e. cc };
    published = record { job_of = λ k a e. cc };
  }

  -- Commands keep the invariant of the store, whether each returns or raises: every ledger is the
  -- history of the record of its job, every record belongs to a sealed job of its name and digest, and
  -- every receipt belongs to a sealed job.
  pub run-IsSound : (cs : List Command) (s : Store) → IsSound s → IsSound (run cs s)
  unfolding run
  run-IsSound [] s h = h
  run-IsSound (c ∷ cs) s h = run-IsSound cs (execute c s).1 (execute-IsSound c s h)
