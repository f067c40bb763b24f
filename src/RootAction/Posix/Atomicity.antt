-- ===== src/RootAction/Posix/Atomicity.antt =====
-- Every method of posix_store.py that raises is rolled back.
use agent_runtime_ops.Prelude.{◌≡◌, refl, Result, ok, err, Error}
use agent_runtime_ops.Prelude.Actions.{◌>>=◌, after, lift, pure}
use agent_runtime_ops.Time.{Datetime}
use agent_runtime_ops.RootAction.Json.{Library}
use agent_runtime_ops.RootAction.Posix.{Database, Tx, finish, transaction}
use agent_runtime_ops.RootAction.Posix.Sealing.{
  put_if_absent, create_pending, seal_pending, seal_rejected, seal_with_lineage_admission,
}
use agent_runtime_ops.RootAction.Posix.Transitions.{append_event}
use agent_runtime_ops.RootAction.Posix.Publication.{
  put_raw_if_absent, publish_if_absent, quarantine_if_absent,
}
use agent_runtime_ops.RootAction.Posix.Finishing.{
  finalize_claimed_execution, complete_claimed_execution, mark_claimed_execution_unknown,
}
use agent_runtime_ops.RootAction.Posix.Bootstrap.{create_auth_bootstrap}
use agent_runtime_ops.RootAction.Posix.Registration.{
  issue_registration_ceremony, complete_registration,
}
use agent_runtime_ops.RootAction.Posix.Approval.{issue_approval_ceremony, claim_with_approval}
use agent_runtime_ops.RootAction.Posix.Commands.{
  Command, put_job, create, seal, reject, admit, append, put_raw, complete, lose, publish,
  quarantine, create_bootstrap, begin_registration, register, begin_approval, claim, outcome,
  execute,
}

-- An action that raises leaves the database as it was.
pub record Atomic {A : Type 0} (m : Tx A) : Type 0 where
  pub rolls_back : (db : Database) (e : Error) → (m db).0 ≡ err e → (m db).1 ≡ db

finish-err :
    {A : Type 0} (r : Result A) (before db : Database) (e : Error)
    → (finish before r db).0 ≡ err e
    → (finish before r db).1 ≡ before
finish-err (ok a) before db e h = cc
finish-err (err x) before db e h = refl

transaction-Atomic : {A : Type 0} (body : Tx A) → Atomic (transaction body)
unfolding transaction
transaction-Atomic body = record {
  rolls_back = λ db e h. finish-err (body db).0 db (body db).1 e h;
}

-- A check before the transaction.
check-Atomic :
    {A B : Type 0} (r : Result A) (k : A → Tx B) → ((a : A) → Atomic (k a)) → Atomic (lift r >>= k)
unfolding ◌>>=◌ lift
check-Atomic (ok a) k h = record { rolls_back = λ db e q. (h a).rolls_back db e q }
check-Atomic (err x) k h = record { rolls_back = λ db e q. refl }

after-err :
    {A : Type 0} (r : Result A) (db : Database) (e : Error)
    → (after r (λ _. pure tt) db).0 ≡ err e
    → r ≡ err e
unfolding pure
after-err (ok a) db e h = cc
after-err (err x) db e h = cc

after-state : {A : Type 0} (r : Result A) (db : Database) → (after r (λ _. pure tt) db).1 ≡ db
unfolding pure
after-state (ok a) db = refl
after-state (err x) db = refl

outcome-Atomic : {A : Type 0} (m : Tx A) → Atomic m → Atomic (outcome m)
unfolding ◌>>=◌
outcome-Atomic m h = record {
  rolls_back = λ db e q. rw after-state (h.rolls_back db e (after-err (m db).0 (m db).1 e q));
}

module _ ⦃datetime : Datetime⦄ ⦃library : Library⦄ where
  execute-Atomic : (c : Command) → Atomic (execute c)
  unfolding execute put_if_absent create_pending seal_pending seal_rejected
      seal_with_lineage_admission append_event put_raw_if_absent publish_if_absent
      quarantine_if_absent finalize_claimed_execution complete_claimed_execution
      mark_claimed_execution_unknown create_auth_bootstrap issue_registration_ceremony
      complete_registration issue_approval_ceremony claim_with_approval
  execute-Atomic (put_job job) = check-Atomic _ _ λ _. transaction-Atomic _
  execute-Atomic (create r) = check-Atomic _ _ λ _. check-Atomic _ _ λ _. transaction-Atomic _
  execute-Atomic (seal job i t m l) =
      outcome-Atomic _
        (check-Atomic _ _ λ _. check-Atomic _ _ λ _. check-Atomic _ _ λ _. transaction-Atomic _)
  execute-Atomic (reject job i t x n m l) = outcome-Atomic _ (
      check-Atomic _ _ λ _. check-Atomic _ _ λ _. check-Atomic _ _ λ _.
        check-Atomic _ _ λ _.
          check-Atomic _ _ λ _. check-Atomic _ _ λ _. check-Atomic _ _ λ _. transaction-Atomic _)
  execute-Atomic (admit job i t x n m l p) = check-Atomic _ _ λ _. outcome-Atomic _ (
      check-Atomic _ _
        λ _. check-Atomic _ _ λ _. check-Atomic _ _ λ _. check-Atomic _ _ λ _. transaction-Atomic _)
  execute-Atomic (append x) = outcome-Atomic _ (transaction-Atomic _)
  execute-Atomic (put_raw a) = check-Atomic _ _ λ _. check-Atomic _ _ λ _. transaction-Atomic _
  execute-Atomic (complete x a n) = check-Atomic _ _ λ _. check-Atomic _ _ λ _.
      outcome-Atomic _
        (check-Atomic _ _ λ _. check-Atomic _ _ λ _. check-Atomic _ _ λ _. transaction-Atomic _)
  execute-Atomic (lose x a n) = check-Atomic _ _ λ _. check-Atomic _ _ λ _.
      outcome-Atomic _
        (check-Atomic _ _ λ _. check-Atomic _ _ λ _. check-Atomic _ _ λ _. transaction-Atomic _)
  execute-Atomic (publish a) = check-Atomic _ _ λ _. transaction-Atomic _
  execute-Atomic (quarantine q) = check-Atomic _ _ λ _. check-Atomic _ _ λ _. transaction-Atomic _
  execute-Atomic (create_bootstrap b) =
      check-Atomic _ _ λ _. check-Atomic _ _ λ _. transaction-Atomic _
  execute-Atomic (begin_registration d c) =
      check-Atomic _ _ λ _. check-Atomic _ _ λ _. transaction-Atomic _
  execute-Atomic (register d i c t) = check-Atomic _ _ λ _. outcome-Atomic _ (transaction-Atomic _)
  execute-Atomic (begin_approval c) =
      check-Atomic _ _ λ _. check-Atomic _ _ λ _. transaction-Atomic _
  execute-Atomic (claim c g v a x) = check-Atomic _ _ λ _. check-Atomic _ _ λ _.
      check-Atomic _ _
        λ _. check-Atomic _ _ λ _. outcome-Atomic _ (check-Atomic _ _ λ _. transaction-Atomic _)

  -- A method that raises, at whatever statement, leaves the database as it was before the call.
  pub execute-rolls_back :
      (c : Command) (db : Database) (e : Error) → (execute c db).0 ≡ err e → (execute c db).1 ≡ db
  execute-rolls_back c = (execute-Atomic c).rolls_back
