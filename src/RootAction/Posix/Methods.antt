-- ===== src/RootAction/Posix/Methods.antt =====
-- What holds of every statement of posix_store.py that writes holds of every method, and of every
-- run of methods.
use agent_runtime_ops.Prelude.{
  ◌≡◌, sym, ap, Result, Result-cases, inl, inr, ok, true, false, Bool, List, [], ◌∷◌, String, not,
  ◌||◌, ◌==ℕ◌, raise_if, storage_conflict, arith,
}
use mathlib.Core.Path.{subst}
use agent_runtime_ops.Prelude.Actions.{
  ◌>>=◌, lift, reads, Ensures, >>=-returns, chain-Ensures, reads-Ensures, lift-Ensures,
  pure-Ensures,
}
use agent_runtime_ops.Time.{Datetime}
use agent_runtime_ops.RootAction.Job.{SealedJob}
use agent_runtime_ops.RootAction.Json.{Library}
use agent_runtime_ops.RootAction.Receipts.{ReceiptArtifact}
use agent_runtime_ops.RootAction.Receipts.Raw.{RawReceiptArtifact}
use agent_runtime_ops.RootAction.State.{
  is_pending, JobRecord, TransitionEvent, initial_record, validate_record,
}
use agent_runtime_ops.RootAction.State.Validity.{validate_record_iff}
use agent_runtime_ops.RootAction.State.Initial.{initial_record-IsInitial}
use agent_runtime_ops.RootAction.Admission.{
  SubmissionMetadata, SubmissionLimits, LineageFailurePolicy, LineageSummary,
}
use agent_runtime_ops.RootAction.Posix.{Database, Tx}
use agent_runtime_ops.RootAction.Posix.Transitions.{append_event}
use agent_runtime_ops.RootAction.Posix.Sealing.{
  put_if_absent, create_pending, seal_new, seal_pending, close_with, seal_rejected, circuit_ok,
  decide, seal_with_lineage_admission,
}
use agent_runtime_ops.RootAction.Posix.Publication.{
  put_raw_if_absent, publish_if_absent, quarantine_if_absent,
}
use agent_runtime_ops.RootAction.Posix.Finishing.{
  finalize, finalize_claimed_execution, complete_claimed_execution, mark_claimed_execution_unknown,
}
use agent_runtime_ops.RootAction.Posix.Registration.{issue_registration_ceremony}
use agent_runtime_ops.RootAction.Posix.Approval.{
  issue_approval_ceremony, consume_and_claim, claim_with_approval,
}
use agent_runtime_ops.RootAction.Posix.Commands.{
  Command, put_job, create, seal, reject, admit, append, put_raw, complete, lose, publish,
  quarantine, create_bootstrap, begin_registration, register, begin_approval, claim, outcome,
  execute, run,
}
use agent_runtime_ops.RootAction.Posix.Atomicity.{execute-rolls_back}
use agent_runtime_ops.RootAction.Posix.Statements.{
  IsFresh, Statements, transaction-Ensures, lift-returns,
}

module _ ⦃datetime : Datetime⦄ ⦃library : Library⦄ {R : Database → Database → Type 0}
    (st : Statements R) where
  -- A check or a read before the rest.
  check :
      {A B : Type 0} (r : Result A) (k : A → Tx B)
      → ((a : A) → Ensures R (k a))
      → Ensures R (lift r >>= k)
  check r k h = chain-Ensures st.chained (lift r) k (lift-Ensures st.same r) h

  -- A check whose result the rest depends on.
  checked :
      {A B : Type 0} (r : Result A) (k : A → Tx B)
      → ((a : A) → r ≡ ok a → Ensures R (k a))
      → Ensures R (lift r >>= k)
  checked r k h = record {
    between = λ s s' b q.
        let (a, mid, p, rest) = >>=-returns (lift r) k s s' b q in
        let (e, at) = lift-returns r s mid a p in
        subst (λ from. R from s') (sym at) ((h a e).between mid s' b rest);
  }

  read :
      {A B : Type 0} (f : Database → Result A) (k : A → Tx B)
      → ((a : A) → Ensures R (k a))
      → Ensures R (reads f >>= k)
  read f k h = chain-Ensures st.chained (reads f) k (reads-Ensures st.same f) h

  and_then :
      {A B : Type 0} (m : Tx A) (k : A → Tx B)
      → Ensures R m
      → ((a : A) → Ensures R (k a))
      → Ensures R (m >>= k)
  and_then = chain-Ensures st.chained

  done : {A : Type 0} (m : Tx A) → Ensures R m → Ensures R (outcome m)
  done m h = and_then m _ h λ _. pure-Ensures st.same tt

  close-Ensures : (e : TransitionEvent) (n : ReceiptArtifact) → Ensures R (close_with e n)
  unfolding close_with
  close-Ensures e n =
      and_then _ _ (st.of_event e)
        λ r. read _ _ λ _. and_then _ _ (st.of_receipt n) λ _. pure-Ensures st.same r

  finalize-Ensures :
      (e : TransitionEvent) (raw : RawReceiptArtifact) (a : ReceiptArtifact)
      → Ensures R (finalize_claimed_execution e raw a)
  unfolding finalize_claimed_execution finalize
  finalize-Ensures e raw a = check _ _ λ _. check _ _ λ _. transaction-Ensures _ (
      read _ _ λ _. check _ _ λ _. and_then _ _ (st.of_raw raw) λ _.
        and_then _ _ (st.of_event e)
          λ r. read _ _ λ _. and_then _ _ (st.of_receipt a) λ _. pure-Ensures st.same r)

  initial-IsFresh :
      (job : SealedJob) (i t : String) (r : JobRecord) → initial_record job i t ≡ ok r → IsFresh r
  initial-IsFresh job i t r h =
      let x = initial_record-IsInitial job i t r h in
      record { valid = x.valid; is_pending = x.is_pending; at_zero = x.at_zero }

  seal_new-Ensures :
      (job : SealedJob) (m : SubmissionMetadata) (l : SubmissionLimits) (r : JobRecord)
      → IsFresh r
      → Ensures R (seal_new job m l r)
  unfolding seal_new
  seal_new-Ensures job m l r f =
      read _ _ λ _. read _ _ λ _. and_then _ _ (st.of_job job m) λ _. st.of_record r f

  create-IsFresh :
      (r : JobRecord)
      → validate_record r ≡ ok tt
      → raise_if (not (is_pending r.state) || not (r.revision ==ℕ 0)) storage_conflict ≡ ok tt
      → IsFresh r
  create-IsFresh r v h = record {
    valid = (validate_record_iff r).0 v;
    is_pending = ground arith;
    at_zero = ground arith;
  }

  circuit-Ensures :
      (b : Bool) (job : SealedJob) (p : LineageFailurePolicy) (e : TransitionEvent)
      (n : ReceiptArtifact)
      → Ensures R (circuit_ok b job p e n)
  unfolding circuit_ok
  circuit-Ensures false job p e n = pure-Ensures st.same tt
  circuit-Ensures true job p e n = check _ _ λ _. check _ _ λ _. lift-Ensures st.same _

  decide-Ensures :
      (b : Bool) (r : JobRecord) (e : TransitionEvent) (n : ReceiptArtifact)
      (p : LineageFailurePolicy) (y : LineageSummary)
      → Ensures R (decide b r e n p y)
  unfolding decide
  decide-Ensures false r e n p y = pure-Ensures st.same _
  decide-Ensures true r e n p y = and_then _ _ (close-Ensures e n) λ _. pure-Ensures st.same _

  execute-Ensures : (c : Command) → Ensures R (execute c)
  unfolding execute put_if_absent create_pending seal_pending seal_rejected
      seal_with_lineage_admission append_event put_raw_if_absent publish_if_absent
      quarantine_if_absent complete_claimed_execution mark_claimed_execution_unknown
      issue_registration_ceremony issue_approval_ceremony claim_with_approval consume_and_claim
  execute-Ensures (put_job job) = check _ _ λ _. transaction-Ensures _ (st.of_job job _)
  execute-Ensures (create r) = checked _ _ λ _ v. checked _ _ λ _ z.
      transaction-Ensures _ (read _ _ λ _. check _ _ λ _. st.of_record r (create-IsFresh r v z))
  execute-Ensures (seal job i t m l) = done _ (
      check _ _ λ _. checked _ _ λ r f. check _ _ λ _. transaction-Ensures _ (
        and_then _ _ (seal_new-Ensures job _ l r (initial-IsFresh job i t r f))
          λ _. pure-Ensures st.same r))
  execute-Ensures (reject job i t e n m l) = done _ (
      check _ _ λ _. check _ _ λ _. checked _ _ λ r f. check _ _ λ _. check _ _ λ _. check _ _ λ u.
        check _ _ λ _. transaction-Ensures _ (
          and_then _ _ (seal_new-Ensures job m l r (initial-IsFresh job i t r f))
            λ _. and_then _ _ (close-Ensures e n) λ _. pure-Ensures st.same u))
  execute-Ensures (admit job i t e n m l p) = check _ _ λ _. done _ (
      check _ _ λ _. check _ _ λ _. checked _ _ λ r f. check _ _ λ _. transaction-Ensures _ (
        read _ _ λ _. read _ _ λ _. read _ _ λ y. and_then _ _ (circuit-Ensures _ job p e n) λ _.
          and_then _ _ (st.of_job job m) λ _.
            and_then _ _ (st.of_record r (initial-IsFresh job i t r f))
              λ _. decide-Ensures _ r e n p y))
  execute-Ensures (append e) = done _ (transaction-Ensures _ (st.of_event e))
  execute-Ensures (put_raw a) =
      check _ _ λ _. check _ _ λ _. transaction-Ensures _ (read _ _ λ _. st.of_raw a)
  execute-Ensures (complete e raw a) =
      check _ _ λ _. check _ _ λ _. done _ (check _ _ λ _. finalize-Ensures e raw a)
  execute-Ensures (lose e raw a) =
      check _ _ λ _. check _ _ λ _. done _ (check _ _ λ _. finalize-Ensures e raw a)
  execute-Ensures (publish a) = check _ _ λ _. transaction-Ensures _ (read _ _ λ _. st.of_receipt a)
  execute-Ensures (quarantine q) = check _ _ λ _. check _ _ λ _.
      transaction-Ensures _
        (read _ _ λ _. read _ _ λ _. and_then _ _ (st.of_receipt q.notice) λ _. st.of_quarantine q)
  execute-Ensures (create_bootstrap b) = checked _ _ λ c e. st.of_bootstrap b c e
  execute-Ensures (begin_registration d c) = check _ _ λ _.
      check _ _
        λ _. transaction-Ensures _ (read _ _ λ _. check _ _ λ _. read _ _ λ _. st.of_ceremony c)
  execute-Ensures (register d i c t) = check _ _ λ _. done _ (st.of_registration d i c t)
  execute-Ensures (begin_approval c) = check _ _ λ _. check _ _ λ _.
      transaction-Ensures _
        (read _ _ λ _. read _ _ λ _. and_then _ _ (st.of_expiry c.issued_at) λ _. st.of_ceremony c)
  execute-Ensures (claim c g v a e) = check _ _ λ _. check _ _ λ _. check _ _ λ _. check _ _ λ _.
      done _ (
        check _ _ λ _. transaction-Ensures _ (
          read _ _ λ _. check _ _ λ _. read _ _ λ _. check _ _ λ _.
            and_then _ _ (st.of_sign_count g v) λ _.
              and_then _ _ (st.of_consumption _ _ _)
                λ _. and_then _ _ (st.of_approval a) λ _. st.of_event e))

  -- A command that raises leaves the database as it was.
  step : (c : Command) (db : Database) → R db (execute c db).1
  step c db = elim (Result-cases (execute c db).0) [
    | inl (a, e) ↦
        (execute-Ensures c).between db (execute c db).1 a (ap (λ x. (x, (execute c db).1)) e)
    | inr (x, e) ↦ subst (R db) (sym (execute-rolls_back c db x e)) (st.same db)
  ]

  -- What holds of every statement holds of every run, whether its commands return or raise.
  pub run-holds : (cs : List Command) (db : Database) → R db (run cs db)
  unfolding run
  run-holds [] db = st.same db
  run-holds (c ∷ cs) db = st.chained db _ _ (step c db) (run-holds cs (execute c db).1)
