-- ===== src/RootAction/Posix/Framed.antt =====
-- Most statements of posix_store.py leave the jobs, the records and the ledger as they are.
use agent_runtime_ops.Prelude.{◌≡◌, refl}
use agent_runtime_ops.Prelude.Actions.{Ensures}
use agent_runtime_ops.Time.{Datetime}
use agent_runtime_ops.RootAction.Job.{SealedJob}
use agent_runtime_ops.RootAction.Json.{Library}
use agent_runtime_ops.RootAction.State.{JobRecord, TransitionEvent}
use agent_runtime_ops.RootAction.Admission.{SubmissionMetadata}
use agent_runtime_ops.RootAction.Posix.{Database}
use agent_runtime_ops.RootAction.Posix.Inserts.{
  insert_job, insert_raw, insert_record_and_initial_ledger,
}
use agent_runtime_ops.RootAction.Posix.Transitions.{compare_and_append}
use agent_runtime_ops.RootAction.Posix.Registration.{insert_ceremony, consume_ceremony}
use agent_runtime_ops.RootAction.Posix.Approval.{update_sign_count}
use agent_runtime_ops.RootAction.Posix.Statements.{Statements, IsFresh}
use agent_runtime_ops.RootAction.Posix.Steps.{
  insert-Ensures, update-Ensures, writes-Ensures, receipt-Ensures, bootstrap-Ensures,
  registration-Ensures,
}

-- A relation on databases that holds where these tables are the same, and of the statements that
-- change them.
pub record Framed ⦃datetime : Datetime⦄ ⦃library : Library⦄ (R : Database → Database → Type 0)
    : Type 1 where
  pub framed :
      (s t : Database) → s.jobs ≡ t.jobs → s.records ≡ t.records → s.ledger ≡ t.ledger → R s t
  pub chained : (s t u : Database) → R s t → R t u → R s u
  pub of_job : (job : SealedJob) (m : SubmissionMetadata) → Ensures R (insert_job job m)
  pub of_record : (r : JobRecord) → IsFresh r → Ensures R (insert_record_and_initial_ledger r)
  pub of_event : (e : TransitionEvent) → Ensures R (compare_and_append e)

module _ ⦃datetime : Datetime⦄ ⦃library : Library⦄ {R : Database → Database → Type 0}
    (f : Framed R) where
  abbrev unchanged : (db : Database) → R db db
  unchanged db = f.framed db db refl refl refl

  pub Framed-Statements : Statements R
  unfolding insert_raw insert_ceremony update_sign_count consume_ceremony
  Framed-Statements = record {
    same = unchanged;
    chained = f.chained;
    of_job = f.of_job;
    of_record = f.of_record;
    of_raw = λ raw. insert-Ensures _ _ λ db _. f.framed db _ refl refl refl;
    of_event = f.of_event;
    of_receipt = λ a.
        receipt-Ensures unchanged f.chained a (λ db. f.framed db _ refl refl refl)
          (λ db. f.framed db _ refl refl refl) λ db. f.framed db _ refl refl refl;
    of_quarantine = λ q. insert-Ensures _ _ λ db _. f.framed db _ refl refl refl;
    of_bootstrap = λ b c _.
        bootstrap-Ensures unchanged f.chained b (λ x db. f.framed db _ refl refl refl)
          λ db. f.framed db _ refl refl refl;
    of_ceremony = λ c. insert-Ensures _ _ λ db _. f.framed db _ refl refl refl;
    of_expiry = λ now. writes-Ensures _ λ db. f.framed db _ refl refl refl;
    of_registration = λ d i c t.
        registration-Ensures unchanged f.chained d i c t (λ v db. f.framed db _ refl refl refl)
          (λ j v. update-Ensures _ _ λ db _. f.framed db _ refl refl refl)
          λ b db. f.framed db _ refl refl refl;
    of_sign_count = λ c v. update-Ensures _ _ λ db _. f.framed db _ refl refl refl;
    of_consumption = λ i t v. update-Ensures _ _ λ db _. f.framed db _ refl refl refl;
    of_approval = λ a. insert-Ensures _ _ λ db _. f.framed db _ refl refl refl;
  }
