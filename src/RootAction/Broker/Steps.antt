-- ===== src/RootAction/Broker/Steps.antt =====
-- The steps of a submission to the broker that returns
-- (opsctl/agent_runtime_ops/root_actions/broker.py).
use agent_runtime_ops.Prelude.{
  ◌≡◌, refl, String, false, ◌&&◌, Option, List, none, some, storage_conflict, storage_not_found,
  Result, ok, err, arith,
}
use agent_runtime_ops.Prelude.Dict.{lookup}
use agent_runtime_ops.Time.{Datetime}
use agent_runtime_ops.RootAction.Job.{SealedJob}
use agent_runtime_ops.RootAction.Json.{Library}
use agent_runtime_ops.RootAction.Receipts.{ReceiptArtifact}
use agent_runtime_ops.RootAction.State.{
  JobRecord, apply_transition, TransitionEvent, running, terminal, rejected,
}
use agent_runtime_ops.RootAction.Admission.{
  SubmissionAdmission, SubmissionMetadata, SubmissionLimits, LedgerEntry,
}
use agent_runtime_ops.RootAction.Store.{Store}
use agent_runtime_ops.RootAction.Store.Rejection.{rejection_checks, with_rejected, seal_rejected}
use agent_runtime_ops.RootAction.Store.Transitions.{
  compare_and_append, append_checks, with_transition,
}
use agent_runtime_ops.RootAction.Store.Circuit.{attempt-eq-ok}
use agent_runtime_ops.RootAction.Store.Soundness.Fresh.{rejection_checks-Fresh}
use agent_runtime_ops.RootAction.Store.Soundness.Dicts.{lookup-put_self}
use agent_runtime_ops.RootAction.State.Agreement.{apply_transition_iff}
use agent_runtime_ops.RootAction.Submission.{BrokerPeerIdentity}
use agent_runtime_ops.RootAction.Submission.Peers.{IsAuthorized, authorize_iff}
use agent_runtime_ops.RootAction.Execution.{ExecutionPolicy, execution_policy}
use agent_runtime_ops.RootAction.Execution.Policies.{int_eq-lem}
use agent_runtime_ops.RootAction.Broker.{
  Broker, SourceEvent, closing_event, claiming_event, Sealing, sealed, as_sealed, as_admitted,
  or_recovered, after_dispatch, after_claim, claim_and_dispatch, after_sealing, submission_checks,
}

-- A sealing that returns where a conflict would leave no job to recover.
pub or_recovered-ok :
    (recover : Store → Result JobRecord) (x : Result Sealing × Store) (y : Sealing) (t : Store)
    → (x.0 ≡ err storage_conflict → recover x.1 ≡ err storage_not_found)
    → or_recovered recover x ≡ (ok y, t)
    → x ≡ (ok y, t)
or_recovered-ok recover (ok a, s) y t c h = h
or_recovered-ok recover (err storage_conflict, s) y t c h = cc (rw (c refl) at h)
or_recovered-ok recover (err x, s) y t c h = cc

pub as_sealed-ok :
    (x : Result JobRecord × Store) (y : Sealing) (t : Store)
    → as_sealed x ≡ (ok y, t)
    → (r : JobRecord) × (x ≡ (ok r, t)) × (y ≡ sealed r none)
as_sealed-ok (ok r, s) y t h = (r, cc, cc)
as_sealed-ok (err x, s) y t h = cc

pub as_admitted-ok :
    (x : Result (JobRecord × SubmissionAdmission) × Store) (y : Sealing) (t : Store)
    → as_admitted x ≡ (ok y, t)
    → (r : JobRecord) × (a : SubmissionAdmission) × (x ≡ (ok (r, a), t)) × (y ≡ sealed r (some a))
as_admitted-ok (ok (r, a), s) y t h = (r, a, cc, cc)
as_admitted-ok (err x, s) y t h = cc

pub returned_record :
    (P : JobRecord → Store → Type 0) (v r : JobRecord) (s t : Store)
    → P v s
    → ◌≡◌ {A = Result JobRecord × Store} (ok v, s) (ok r, t)
    → P r t
returned_record P v r s t h e = let p : v ≡ r = cc e in let q : s ≡ t = cc e in rw (← p, ← q) h

module _ ⦃datetime : Datetime⦄ ⦃library : Library⦄ where
  pub submission_checks-ok :
      (broker : Broker) (event : SourceEvent) (job : SealedJob) (peer : BrokerPeerIdentity)
      (m : SubmissionMetadata) (policy : ExecutionPolicy)
      → submission_checks broker event job peer ≡ ok (m, policy)
      → IsAuthorized broker.submission_policy job peer event.1 m
        × (execution_policy broker.policies job.operation_id ≡ ok policy)
        × (policy.operation_version ≡ job.operation_version)
  unfolding submission_checks
  submission_checks-ok broker event job peer m policy h = (
    (authorize_iff broker.submission_policy job peer event.1 m).0 (ground arith),
    ground arith,
    int_eq-lem policy.operation_version job.operation_version (ground arith),
  )

  pub append_checks-applies :
      (x : TransitionEvent) (s : Store) (r : JobRecord) (es : List LedgerEntry) (v : JobRecord)
      → append_checks x s ≡ ok (r, es, v)
      → apply_transition r x ≡ ok v
  unfolding append_checks
  append_checks-applies x s r es v h = ground arith

  -- A job that is closed as it is sealed.
  pub seal_rejected-closes :
      (job : SealedJob) (i o : String) (e : SourceEvent) (c : Option String) (n : ReceiptArtifact)
      (m : SubmissionMetadata) (l : SubmissionLimits) (s t : Store) (r : JobRecord)
      → seal_rejected job i o (closing_event job e rejected c) n m l s ≡ (ok r, t)
      → (lookup job.job_id t.records ≡ some r)
        × (r.state ≡ terminal)
        × (r.terminal_outcome ≡ some rejected)
        × (r.reason_code ≡ c)
        × (r.execution_count ≡ 0)
  unfolding seal_rejected
  seal_rejected-closes job i o e c n m l s t r h =
      let x = closing_event job e rejected c in
      let ((q, v), f, g) = attempt-eq-ok s t (rejection_checks job i o x n m l s) _ r h in
      let (w, a) = rejection_checks-Fresh job i o x n m l s q v f in
      let u = ((apply_transition_iff q x v).0 a).result in
      returned_record
        (λ r t.
          (lookup job.job_id t.records ≡ some r)
          × (r.state ≡ terminal)
          × (r.terminal_outcome ≡ some rejected)
          × (r.reason_code ≡ c)
          × (r.execution_count ≡ 0))
        v r (with_rejected s job x n m q v) t
        (lookup-put_self job.job_id v s.records, cc, cc, cc, cc) g

  pub claim-runs :
      (job : SealedJob) (e : SourceEvent) (q c : JobRecord) (s t : Store)
      → compare_and_append (claiming_event job e q) s ≡ (ok c, t)
      → (c.state ≡ running) × (c.execution_count ≡ 1)
  unfolding compare_and_append
  claim-runs job e q c s t h =
      let x = claiming_event job e q in
      let ((r, es, v), f, g) = attempt-eq-ok s t (append_checks x s) _ c h in
      let u = ((apply_transition_iff r x v).0 (append_checks-applies x s r es v f)).result in
      returned_record (λ c t. (c.state ≡ running) × (c.execution_count ≡ 1)) v c
        (with_transition s x r es v) t (cc, cc) g

  pub after_sealing-ok :
      (broker : Broker) (event : SourceEvent) (job : SealedJob) (policy : ExecutionPolicy)
      (x : Result Sealing × Store) (t : Store) (r : JobRecord)
      → after_sealing broker event job policy x ≡ (ok r, t)
      → (y : Sealing) × (s1 : Store) × (x ≡ (ok y, s1))
        × (after_sealing broker event job policy (ok y, s1) ≡ (ok r, t))
  unfolding after_sealing
  after_sealing-ok broker event job policy (ok y, s1) t r h = (y, s1, refl, h)
  after_sealing-ok broker event job policy (err x, s1) t r h = cc

  pub after_claim-ok :
      (f : String → String → Store → Result (Unit {0}) × Store) (job : SealedJob)
      (x : Result JobRecord × Store) (t : Store) (r : JobRecord)
      → after_claim f job x ≡ (ok r, t)
      → (c : JobRecord) × (s2 : Store) × (x ≡ (ok c, s2))
        × (after_dispatch job c (f c.job_id c.job_digest s2) ≡ (ok r, t))
  after_claim-ok f job (ok c, s2) t r h = (c, s2, refl, h)
  after_claim-ok f job (err x, s2) t r h = cc

  pub claim_and_dispatch-ok :
      (d : Option (String → String → Store → Result (Unit {0}) × Store)) (event : SourceEvent)
      (job : SealedJob) (q r : JobRecord) (s t : Store)
      → claim_and_dispatch d event job q s ≡ (ok r, t)
      → (f : String → String → Store → Result (Unit {0}) × Store) × (d ≡ some f)
        × (after_claim f job (compare_and_append (claiming_event job event q) s) ≡ (ok r, t))
  unfolding claim_and_dispatch
  claim_and_dispatch-ok none event job q r s t h = cc
  claim_and_dispatch-ok (some f) event job q r s t h = (f, refl, h)

  -- The rest after a job without admission.
  pub after_sealing-unadmitted :
      (P : JobRecord → Store → Type 0) (broker : Broker) (event : SourceEvent) (job : SealedJob)
      (policy : ExecutionPolicy) (s1 t : Store) (q r : JobRecord)
      → P q s1
      → after_sealing broker event job policy (ok (sealed q none), s1) ≡ (ok r, t)
      → P r t
  unfolding after_sealing
  after_sealing-unadmitted P broker event job policy s1 t q r p h =
      let b : (policy.auto_dispatch && false) ≡ false = ground arith in
      returned_record P q r s1 t p (rw (b, after_sealing) at h)
