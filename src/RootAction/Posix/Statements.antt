-- ===== src/RootAction/Posix/Statements.antt =====
-- The statements of posix_store.py that write, as what a relation on databases is proved of.
use agent_runtime_ops.Prelude.{◌≡◌, ap, Result, ok, err, String}
use agent_runtime_ops.Prelude.Actions.{lift, writes, Ensures}
use agent_runtime_ops.Time.{Datetime}
use agent_runtime_ops.RootAction.Job.{SealedJob}
use agent_runtime_ops.RootAction.Json.{Library}
use agent_runtime_ops.RootAction.Receipts.{ReceiptArtifact}
use agent_runtime_ops.RootAction.Receipts.Raw.{RawReceiptArtifact, QuarantineRecord}
use agent_runtime_ops.RootAction.State.{pending, JobRecord, TransitionEvent}
use agent_runtime_ops.RootAction.State.Spec.{IsValid}
use agent_runtime_ops.RootAction.Admission.{SubmissionMetadata}
use agent_runtime_ops.RootAction.Authorization.{
  BootstrapSession, RegisteredCredential, VerifiedAssertion, PendingCeremony, ApprovalRecord,
}
use agent_runtime_ops.RootAction.Authorization.Records.{bootstrap_checked}
use agent_runtime_ops.RootAction.Posix.{Database, Tx, finish, execute_insert, transaction}
use agent_runtime_ops.RootAction.Posix.Inserts.{
  insert_job, insert_record_and_initial_ledger, insert_raw,
}
use agent_runtime_ops.RootAction.Posix.Transitions.{compare_and_append}
use agent_runtime_ops.RootAction.Posix.Publication.{
  quarantine_taken, with_quarantine, insert_receipt,
}
use agent_runtime_ops.RootAction.Posix.Bootstrap.{create_auth_bootstrap}
use agent_runtime_ops.RootAction.Posix.Registration.{
  insert_ceremony, consume_ceremony, complete_registration,
}
use agent_runtime_ops.RootAction.Posix.Approval.{
  expire_ceremonies, update_sign_count, approval_taken, with_approval,
}

-- A record that a job begins with.
pub record IsFresh ⦃datetime : Datetime⦄ (r : JobRecord) : Type 0 where
  pub valid : IsValid r
  pub is_pending : r.state ≡ pending
  pub at_zero : r.revision ≡ 0

-- The relation between a database before a statement that returns and the one after it: a preorder
-- that holds of the inserts and updates. The two methods of the registration count as one each.
pub record Statements ⦃datetime : Datetime⦄ ⦃library : Library⦄ (R : Database → Database → Type 0)
    : Type 1 where
  pub same : (db : Database) → R db db
  pub chained : (s t u : Database) → R s t → R t u → R s u
  pub of_job : (job : SealedJob) (m : SubmissionMetadata) → Ensures R (insert_job job m)
  pub of_record : (r : JobRecord) → IsFresh r → Ensures R (insert_record_and_initial_ledger r)
  pub of_raw : (raw : RawReceiptArtifact) → Ensures R (insert_raw raw)
  pub of_event : (e : TransitionEvent) → Ensures R (compare_and_append e)
  pub of_receipt : (a : ReceiptArtifact) → Ensures R (insert_receipt a)
  pub of_quarantine :
      (q : QuarantineRecord)
      → Ensures R (execute_insert (quarantine_taken q.notice) (with_quarantine q))
  pub of_bootstrap :
      (b c : BootstrapSession) → bootstrap_checked b ≡ ok c → Ensures R (create_auth_bootstrap b)
  pub of_ceremony : (c : PendingCeremony) → Ensures R (insert_ceremony c)
  pub of_expiry : (now : String) → Ensures R (writes (expire_ceremonies now))
  pub of_registration :
      (token_digest ceremony_id : String) (c : RegisteredCredential) (consumed_at : String)
      → Ensures R (complete_registration token_digest ceremony_id c consumed_at)
  pub of_sign_count :
      (c : RegisteredCredential) (v : VerifiedAssertion) → Ensures R (update_sign_count c v)
  pub of_consumption :
      (ceremony_id consumed_at value : String)
      → Ensures R (consume_ceremony ceremony_id consumed_at value)
  pub of_approval :
      (a : ApprovalRecord) → Ensures R (execute_insert (approval_taken a) (with_approval a))

finish-returns :
    {A : Type 0} (r : Result A × Database) (before s' : Database) (a : A)
    → finish before r.0 r.1 ≡ (ok a, s')
    → r ≡ (ok a, s')
finish-returns (ok a, s) before s' b h = h
finish-returns (err e, s) before s' b h = cc

pub transaction-returns :
    {A : Type 0} (body : Tx A) (s s' : Database) (a : A)
    → transaction body s ≡ (ok a, s')
    → body s ≡ (ok a, s')
unfolding transaction
transaction-returns body s s' a h = finish-returns (body s) s s' a h

pub transaction-Ensures :
    {A : Type 0} {R : Database → Database → Type 0} (body : Tx A)
    → Ensures R body
    → Ensures R (transaction body)
transaction-Ensures body h = record {
  between = λ s s' a q. h.between s s' a (transaction-returns body s s' a q);
}

pub lift-returns :
    {A : Type 0} (r : Result A) (s s' : Database) (a : A)
    → lift r s ≡ (ok a, s')
    → (r ≡ ok a) × (s ≡ s')
unfolding lift
lift-returns {A = A} r s s' a h =
    (ap (λ (x : Result A × Database). x.0) h, ap (λ (x : Result A × Database). x.1) h)
