-- ===== src/RootAction/Broker/Refinement.antt =====
-- A submission to the broker changes the store only by methods of the store
-- (opsctl/agent_runtime_ops/root_actions/broker.py).
use agent_runtime_ops.Prelude.{
  ℕ, ◌≡◌, ◌≤◌, refl, ap, sym, ◌∙◌, inl, inr, String, List, [], ◌∷◌, Option, none, some, Result, ok,
  err, storage_not_found, Bool-cases, ◌&&◌, if◌then◌else◌,
}
use agent_runtime_ops.Prelude.Lists.{length}
use agent_runtime_ops.Prelude.Dict.{lookup}
use agent_runtime_ops.Time.{Datetime}
use agent_runtime_ops.RootAction.Job.{Bytes, SealedJob}
use agent_runtime_ops.RootAction.Json.{Library}
use agent_runtime_ops.RootAction.Registry.{default_registry}
use agent_runtime_ops.RootAction.Contracts.{seal_typed_manifest}
use agent_runtime_ops.RootAction.Receipts.{seal_receipt}
use agent_runtime_ops.RootAction.State.{JobRecord, rejected, prestart_failed}
use agent_runtime_ops.RootAction.Admission.{SubmissionMetadata, LedgerEntry}
use agent_runtime_ops.RootAction.Store.{Store, empty_store}
use agent_runtime_ops.RootAction.Store.Rejection.{seal_rejected}
use agent_runtime_ops.RootAction.Store.LineageSealing.{seal_with_lineage_admission}
use agent_runtime_ops.RootAction.Store.Transitions.{read_sealed, compare_and_append}
use agent_runtime_ops.RootAction.Store.Commands.{reject, admit, append, execute}
use agent_runtime_ops.RootAction.Store.History.{ledger_claims}
use agent_runtime_ops.RootAction.Store.Ledger.{ledger_one_shot}
use agent_runtime_ops.RootAction.Store.Soundness.Fresh.{attempt-keeps}
use agent_runtime_ops.RootAction.Submission.{BrokerPeerIdentity}
use agent_runtime_ops.RootAction.Execution.{ExecutionPolicy, is_enabled}
use agent_runtime_ops.RootAction.Broker.{
  Broker, SourceEvent, closing_event, claiming_event, notice_value, Sealing, sealed, retried,
  as_sealed, as_admitted, recover_idempotent, is_allowed, seal_disabled, seal_enabled, after_claim,
  claim_and_dispatch, after_sealing, submission_checks, submit_new, submit_read, submit,
}
use agent_runtime_ops.RootAction.Broker.Reached.{
  outcome-store, as_sealed-store, as_admitted-store, or_recovered-store, IsReached, IsReached-refl,
  IsReached-trans, IsReached-step, after_dispatch-store,
}

module _ ⦃datetime : Datetime⦄ ⦃library : Library⦄ where
  -- The callable `dispatch` changes the store only by commands.
  abbrev pub IsDispatcher : Broker → Type 0
  IsDispatcher broker =
      (f : String → String → Store → Result (Unit {0}) × Store)
      → broker.dispatch ≡ some f
      → (job_id job_digest : String) (s : Store) → IsReached s (f job_id job_digest s).1

  seal_disabled-IsReached :
      (broker : Broker) (events : ℕ → SourceEvent) (job : SealedJob) (peer : BrokerPeerIdentity)
      (m : SubmissionMetadata) (policy : ExecutionPolicy) (s : Store)
      → IsReached s (seal_disabled broker events job peer m policy s).1
  unfolding seal_disabled execute
  seal_disabled-IsReached broker events job peer m policy s =
      attempt-keeps (λ t. IsReached s t) s
        (seal_receipt (library.dumps_plain (notice_value job "rejected" policy.reason_code))) _
        (IsReached-refl s)
        (λ n e.
          let close = closing_event job (events 1) rejected policy.reason_code in
          let limits = broker.submission_policy.limits in
          let (i, o) = events 0 in
          let x = seal_rejected job i o close n m limits s in
          IsReached-step (reject job i o close n m limits) s _ (
            outcome-store x
            ∙ sym (
                or_recovered-store (recover_idempotent job peer) (as_sealed x)
                ∙ as_sealed-store x)))

  seal_enabled-IsReached :
      (broker : Broker) (events : ℕ → SourceEvent) (job : SealedJob) (peer : BrokerPeerIdentity)
      (m : SubmissionMetadata) (s : Store)
      → IsReached s (seal_enabled broker events job peer m s).1
  unfolding seal_enabled execute
  seal_enabled-IsReached broker events job peer m s =
      let p = broker.lineage_failure_policy in
      let reason = some p.circuit_reason_code in
      attempt-keeps (λ t. IsReached s t) s
        (seal_receipt (library.dumps_plain (notice_value job "prestart_failed" reason))) _
        (IsReached-refl s)
        (λ n e.
          let close = closing_event job (events 1) prestart_failed reason in
          let limits = broker.submission_policy.limits in
          let (i, o) = events 0 in
          let x = seal_with_lineage_admission job i o close n m limits p s in
          IsReached-step (admit job i o close n m limits p) s _ (
            outcome-store x
            ∙ sym (
                or_recovered-store (recover_idempotent job peer) (as_admitted x)
                ∙ as_admitted-store x)))

  after_claim-IsReached :
      (broker : Broker) (f : String → String → Store → Result (Unit {0}) × Store) (job : SealedJob)
      (s : Store) (x : Result JobRecord × Store)
      → IsDispatcher broker
      → broker.dispatch ≡ some f
      → IsReached s x.1
      → IsReached s (after_claim f job x).1
  after_claim-IsReached broker f job s (ok c, s2) d n h =
      rw (after_dispatch-store job c (f c.job_id c.job_digest s2))
        (IsReached-trans s s2 _ h (d f n c.job_id c.job_digest s2))
  after_claim-IsReached broker f job s (err e, s2) d n h = h

  claim_and_dispatch-IsReached :
      (broker : Broker) (g : Option (String → String → Store → Result (Unit {0}) × Store))
      (event : SourceEvent) (job : SealedJob) (r : JobRecord) (s s1 : Store)
      → IsDispatcher broker
      → broker.dispatch ≡ g
      → IsReached s s1
      → IsReached s (claim_and_dispatch g event job r s1).1
  unfolding claim_and_dispatch execute
  claim_and_dispatch-IsReached broker none event job r s s1 d n h = h
  claim_and_dispatch-IsReached broker (some f) event job r s s1 d n h =
      let e = claiming_event job event r in
      let x = compare_and_append e s1 in
      after_claim-IsReached broker f job s x d n
        (IsReached-trans s s1 x.1 h (IsReached-step (append e) s1 x.1 (outcome-store x)))

  after_sealing-IsReached :
      (broker : Broker) (event : SourceEvent) (job : SealedJob) (policy : ExecutionPolicy)
      (s : Store) (x : Result Sealing × Store)
      → IsDispatcher broker
      → IsReached s x.1
      → IsReached s (after_sealing broker event job policy x).1
  unfolding after_sealing
  after_sealing-IsReached broker event job policy s (err e, s1) d h = h
  after_sealing-IsReached broker event job policy s (ok (retried r), s1) d h = h
  after_sealing-IsReached broker event job policy s (ok (sealed r a), s1) d h =
      elim (Bool-cases (policy.auto_dispatch && is_allowed a)) [
        | inl b ↦
            rw b (claim_and_dispatch-IsReached broker broker.dispatch event job r s s1 d refl h)
        | inr b ↦ rw b h
      ]

  submit_new-IsReached :
      (broker : Broker) (events : ℕ → SourceEvent) (job : SealedJob) (peer : BrokerPeerIdentity)
      (s : Store)
      → IsDispatcher broker
      → IsReached s (submit_new broker events job peer s).1
  unfolding submit_new
  submit_new-IsReached broker events job peer s d =
      attempt-keeps (λ t. IsReached s t) s (submission_checks broker (events 0) job peer) _
        (IsReached-refl s)
        (λ (m, policy) e.
          after_sealing-IsReached broker (events 2) job policy s
            (if is_enabled policy.availability
              then seal_enabled broker events job peer m s
              else seal_disabled broker events job peer m policy s)
            d
            (elim (Bool-cases (is_enabled policy.availability)) [
              | inl b ↦ rw b (seal_enabled-IsReached broker events job peer m s)
              | inr b ↦ rw b (seal_disabled-IsReached broker events job peer m policy s)
            ]))

  submit_read-IsReached :
      (broker : Broker) (events : ℕ → SourceEvent) (job : SealedJob) (peer : BrokerPeerIdentity)
      (s : Store) (x : Result SealedJob)
      → IsDispatcher broker
      → IsReached s (submit_read broker events job peer s x).1
  unfolding submit_read
  submit_read-IsReached broker events job peer s (ok existing) d = IsReached-refl s
  submit_read-IsReached broker events job peer s (err storage_not_found) d =
      submit_new-IsReached broker events job peer s d
  submit_read-IsReached broker events job peer s (err x) d = IsReached-refl s

  -- A submission, whether it returns or raises, leaves a store that commands reach from the one it
  -- found, if the callable `dispatch` changes the store only by commands.
  submit-IsReached :
      (broker : Broker) (events : ℕ → SourceEvent) (raw : Bytes) (peer : BrokerPeerIdentity)
      (s : Store)
      → IsDispatcher broker
      → IsReached s (submit broker events raw peer s).1
  unfolding submit
  submit-IsReached broker events raw peer s d =
      attempt-keeps (λ t. IsReached s t) s (seal_typed_manifest default_registry raw) _
        (IsReached-refl s)
        (λ job e. submit_read-IsReached broker events job peer s (read_sealed job.job_id s) d)

  -- Submissions one after another, each with its events, its manifest and its peer.
  unfoldable pub submit_all :
      Broker → List ((ℕ → SourceEvent) × Bytes × BrokerPeerIdentity) → Store → Store
  submit_all broker [] s = s
  submit_all broker ((events, raw, peer) ∷ submissions) s =
      submit_all broker submissions (submit broker events raw peer s).1

  submit_all-IsReached :
      (broker : Broker) (submissions : List ((ℕ → SourceEvent) × Bytes × BrokerPeerIdentity))
      (s : Store)
      → IsDispatcher broker
      → IsReached s (submit_all broker submissions s)
  unfolding submit_all
  submit_all-IsReached broker [] s d = IsReached-refl s
  submit_all-IsReached broker ((events, raw, peer) ∷ submissions) s d =
      let t = (submit broker events raw peer s).1 in
      IsReached-trans s t _ (submit-IsReached broker events raw peer s d)
        (submit_all-IsReached broker submissions t d)

  -- After any submissions to a broker with an empty store, returning or raising, the ledger of a
  -- job holds at most one claim of execution and at most four entries, if the callable `dispatch`
  -- changes the store only by commands.
  pub broker_one_shot :
      (broker : Broker) (submissions : List ((ℕ → SourceEvent) × Bytes × BrokerPeerIdentity))
      (k : String) (es : List LedgerEntry)
      → IsDispatcher broker
      → lookup k (submit_all broker submissions empty_store).ledger ≡ some es
      → (ledger_claims es ≤ 1) × (length es ≤ 4)
  broker_one_shot broker submissions k es d h =
      let r = submit_all-IsReached broker submissions empty_store d in
      ledger_one_shot r.commands k es (ap (λ s. lookup k s.ledger) (sym r.reached) ∙ h)
