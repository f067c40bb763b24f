-- ===== src/RootAction/Store/Receipted.antt =====
-- Which receipts local_fixture.py never replaces: all but the notices of an unknown outcome.
use agent_runtime_ops.Prelude.{
  ◌≡◌, refl, ◌∙◌, if◌then◌else◌, String, List, [], ◌∷◌, some, none, true, false, ok, arith, inl,
  inr, Bool-cases, Result-cases, eq_iff, ◌==◌,
}
use agent_runtime_ops.Prelude.Dict.{lookup, put, lookup-put}
use agent_runtime_ops.Time.{Datetime}
use agent_runtime_ops.RootAction.Job.{SealedJob}
use agent_runtime_ops.RootAction.Json.{Library}
use agent_runtime_ops.RootAction.Receipts.{ReceiptArtifact}
use agent_runtime_ops.RootAction.Receipts.Raw.{RawReceiptArtifact}
use agent_runtime_ops.RootAction.State.{JobRecord, TransitionEvent, apply_transition}
use agent_runtime_ops.RootAction.Admission.{LineageFailurePolicy, LineageSummary}
use agent_runtime_ops.RootAction.Store.{Store, empty_store}
use agent_runtime_ops.RootAction.Store.Sealing.{
  submission_or_default, put_if_absent, job_checks, with_job, create_pending, seal_pending,
  with_pending, with_record, sealing_checks, creation_checks,
}
use agent_runtime_ops.RootAction.Store.LineageSealing.{
  seal_with_lineage_admission, with_admitted, close_blocked, admit, is_blocked, admission_checks,
}
use agent_runtime_ops.RootAction.Store.Rejection.{seal_rejected, with_rejected, rejection_checks}
use agent_runtime_ops.RootAction.Store.Transitions.{
  compare_and_append, append_checks, with_transition,
}
use agent_runtime_ops.RootAction.Store.Publication.{
  put_raw_if_absent, raw_checks, with_raw, publish_if_absent, quarantine_if_absent,
  publication_checks, quarantine_checks, with_receipt, with_quarantine, is_unknown_notice,
  may_follow,
}
use agent_runtime_ops.RootAction.Store.Commands.{
  Command, put_job, create, seal, reject, append, put_raw, publish, quarantine, execute, run,
}
use agent_runtime_ops.RootAction.Store.Atomicity.{outcome-state}
use agent_runtime_ops.RootAction.Store.Soundness.{IsSound}
use agent_runtime_ops.RootAction.Store.Soundness.Dicts.{lookup-put_ne}
use agent_runtime_ops.RootAction.Store.Soundness.Fresh.{
  attempt-keeps, rejection_checks-Fresh, admission_checks-Fresh,
}
use agent_runtime_ops.RootAction.Store.Soundness.Steps.{
  quarantine_checks-facts, execute-IsSound, empty-IsSound, run-IsSound,
}

-- The final receipt of a job: any kind but an unknown notice.
pub record HasFinal (k : String) (a : ReceiptArtifact) (s : Store) : Type 0 where
  pub found : lookup k s.receipts ≡ some a
  pub is_final : is_unknown_notice a.kind ≡ false

module _ ⦃datetime : Datetime⦄ ⦃library : Library⦄ where
  -- A key without a job has no receipt.
  other_job :
      (s : Store) (j k : String) (a : ReceiptArtifact)
      → IsSound s
      → HasFinal k a s
      → lookup j s.jobs ≡ none
      → (j == k) ≡ false
  other_job s j k a h f e =
      let (job, g) = h.published.job_of k a f.found in
      elim (Bool-cases (j == k)) [ inl p ↦ ground (arith, eq_iff j k) | inr p ↦ p ]

  notice_kept :
      (s : Store) (j k : String) (a n : ReceiptArtifact)
      → IsSound s
      → HasFinal k a s
      → lookup j s.jobs ≡ none
      → lookup k (put j n s.receipts) ≡ some a
  notice_kept s j k a n h f e = lookup-put_ne j k n s.receipts (other_job s j k a h f e) ∙ f.found

  publication_follows :
      (n : ReceiptArtifact) (s : Store)
      → publication_checks n s ≡ ok tt
      → may_follow (lookup n.job_id s.receipts) n ≡ true
  unfolding publication_checks
  publication_follows n s h = ground arith

  published_kept :
      (n : ReceiptArtifact) (s : Store) (k : String) (a : ReceiptArtifact)
      → HasFinal k a s
      → publication_checks n s ≡ ok tt
      → lookup k (put n.job_id n s.receipts) ≡ some a
  unfolding may_follow
  published_kept n s k a f h = ground (
    arith,
    publication_follows n s h,
    f.found,
    f.is_final,
    lookup-put n.job_id k n s.receipts,
    eq_iff n.job_id k,
  )

  close_blocked-HasFinal :
      (job : SealedJob) (r : JobRecord) (x : TransitionEvent) (n : ReceiptArtifact)
      (p : LineageFailurePolicy) (y : LineageSummary) (s t : Store) (k : String)
      (a : ReceiptArtifact)
      → t.receipts ≡ s.receipts
      → HasFinal k a s
      → lookup k (put job.job_id n s.receipts) ≡ some a
      → HasFinal k a (close_blocked job r x n p y t).1
  unfolding close_blocked
  close_blocked-HasFinal job r x n p y s t k a q f g = elim (Result-cases (apply_transition r x)) [
    | inl (u, e) ↦ rw (e, close_blocked) (record { found = rw q g; is_final = f.is_final })
    | inr (z, e) ↦ rw (e, close_blocked) (record { found = rw q f.found; is_final = f.is_final })
  ]

  put_if_absent-HasFinal :
      (job : SealedJob) (s : Store) (k : String) (a : ReceiptArtifact)
      → HasFinal k a s
      → HasFinal k a (put_if_absent job s).1
  unfolding put_if_absent
  put_if_absent-HasFinal job s k a h =
      attempt-keeps (HasFinal k a) s (job_checks job s) (λ _. (ok tt, with_job job s)) h
        λ _ e. record { found = h.found; is_final = h.is_final }

  compare_and_append-HasFinal :
      (x : TransitionEvent) (s : Store) (k : String) (a : ReceiptArtifact)
      → HasFinal k a s
      → HasFinal k a (compare_and_append x s).1
  unfolding compare_and_append
  compare_and_append-HasFinal x s k a h =
      attempt-keeps (HasFinal k a) s (append_checks x s)
        (λ (r, es, u). (ok u, with_transition s x r es u)) h
        λ _ e. record { found = h.found; is_final = h.is_final }

  put_raw_if_absent-HasFinal :
      (w : RawReceiptArtifact) (s : Store) (k : String) (a : ReceiptArtifact)
      → HasFinal k a s
      → HasFinal k a (put_raw_if_absent w s).1
  unfolding put_raw_if_absent
  put_raw_if_absent-HasFinal w s k a h =
      attempt-keeps (HasFinal k a) s (raw_checks w s) (λ _. (ok tt, with_raw w s)) h
        λ _ e. record { found = h.found; is_final = h.is_final }

  -- A final receipt is written once: no command on a store that commands have made replaces it.
  pub execute-HasFinal :
      (c : Command) (s : Store) (k : String) (a : ReceiptArtifact)
      → IsSound s
      → HasFinal k a s
      → HasFinal k a (execute c s).1
  unfolding execute
  execute-HasFinal (put_job job) s k a v h = put_if_absent-HasFinal job s k a h
  execute-HasFinal (create r) s k a v h =
      (unfold create_pending in
        attempt-keeps (HasFinal k a) s (creation_checks r s) (λ _. (ok tt, with_record r s)) h
          λ _ e. record { found = h.found; is_final = h.is_final })
  execute-HasFinal (seal job i t m l) s k a v h = rw outcome-state (
      unfold seal_pending in
      attempt-keeps (HasFinal k a) s (sealing_checks job i t (submission_or_default t m) l s)
        (λ r. (ok r, with_pending s job (submission_or_default t m) r)) h
        λ r e. record { found = h.found; is_final = h.is_final })
  execute-HasFinal (reject job i t x n m l) s k a v h = rw outcome-state (
      unfold seal_rejected in
      attempt-keeps (HasFinal k a) s (rejection_checks job i t x n m l s)
        (λ (r, u). (ok u, with_rejected s job x n m r u)) h
        λ (r, u) e. record {
          found =
              notice_kept s job.job_id k a n v h
                (rejection_checks-Fresh job i t x n m l s r u e).0.new_job;
          is_final = h.is_final;
        })
  execute-HasFinal (Command.admit job i t x n m l p) s k a v h = rw outcome-state (
      unfold seal_with_lineage_admission in
      attempt-keeps (HasFinal k a) s (admission_checks job i t x n m l p s)
        (λ (r, y).
          let s1 = with_admitted s job m r in
          if is_blocked p y then close_blocked job r x n p y s1 else admit job r y s1)
        h
        λ (r, y) e.
          let kept =
            notice_kept s job.job_id k a n v h
              (admission_checks-Fresh job i t x n m l p s r y e).new_job in
          elim (Bool-cases (is_blocked p y)) [
            | inl b ↦
                rw b
                  (close_blocked-HasFinal job r x n p y s (with_admitted s job m r) k a refl h kept)
            | inr b ↦ rw b (record { found = h.found; is_final = h.is_final })
          ])
  execute-HasFinal (append x) s k a v h = rw outcome-state (compare_and_append-HasFinal x s k a h)
  execute-HasFinal (put_raw w) s k a v h = put_raw_if_absent-HasFinal w s k a h
  execute-HasFinal (publish n) s k a v h =
      (unfold publish_if_absent in
        attempt-keeps (HasFinal k a) s (publication_checks n s) (λ _. (ok tt, with_receipt n s)) h
          λ _ e. record { found = published_kept n s k a h e; is_final = h.is_final })
  execute-HasFinal (quarantine q) s k a v h =
      (unfold quarantine_if_absent in
        attempt-keeps (HasFinal k a) s (quarantine_checks q s) (λ _. (ok tt, with_quarantine q s)) h
          λ _ e. record {
            found = published_kept q.notice s k a h (quarantine_checks-facts q s e);
            is_final = h.is_final;
          })

  keeps_final :
      (cs : List Command) (s : Store) (k : String) (a : ReceiptArtifact)
      → IsSound s
      → HasFinal k a s
      → HasFinal k a (run cs s)
  unfolding run
  keeps_final [] s k a v h = h
  keeps_final (c ∷ cs) s k a v h =
      keeps_final cs (execute c s).1 k a (execute-IsSound c s v) (execute-HasFinal c s k a v h)

  -- A receipt that is no unknown notice is written once: when commands on an empty store have
  -- stored it, no further commands replace it.
  pub run-keeps_receipts :
      (before after : List Command) (k : String) (a : ReceiptArtifact)
      → lookup k (run before empty_store).receipts ≡ some a
      → is_unknown_notice a.kind ≡ false
      → lookup k (run after (run before empty_store)).receipts ≡ some a
  run-keeps_receipts before after k a h f =
      (keeps_final after (run before empty_store) k a (run-IsSound before empty_store empty-IsSound)
        (record { found = h; is_final = f })).found
