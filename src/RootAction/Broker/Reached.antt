-- ===== src/RootAction/Broker/Reached.antt =====
-- The stores that commands reach, and what the steps of a submission to the broker keep of a store
-- (opsctl/agent_runtime_ops/root_actions/broker.py).
use agent_runtime_ops.Prelude.{
  ◌≡◌, refl, ap, sym, ◌∙◌, List, [], ◌∷◌, ◌++◌, Result, ok, err, storage_conflict,
}
use agent_runtime_ops.Time.{Datetime}
use agent_runtime_ops.RootAction.Job.{SealedJob}
use agent_runtime_ops.RootAction.Json.{Library}
use agent_runtime_ops.RootAction.State.{JobRecord}
use agent_runtime_ops.RootAction.Admission.{SubmissionAdmission}
use agent_runtime_ops.RootAction.Store.{Store}
use agent_runtime_ops.RootAction.Store.Commands.{Command, outcome, execute, run}
use agent_runtime_ops.RootAction.Broker.{
  Sealing, as_sealed, as_admitted, or_recovered, after_dispatch,
}

pub outcome-store : {A : Type 0} (x : Result A × Store) → (outcome x).1 ≡ x.1
outcome-store (ok a, s) = refl
outcome-store (err e, s) = refl

pub as_sealed-store : (x : Result JobRecord × Store) → (as_sealed x).1 ≡ x.1
as_sealed-store (ok r, s) = refl
as_sealed-store (err e, s) = refl

pub as_admitted-store :
    (x : Result (JobRecord × SubmissionAdmission) × Store) → (as_admitted x).1 ≡ x.1
as_admitted-store (ok (r, a), s) = refl
as_admitted-store (err e, s) = refl

pub or_recovered-store :
    (recover : Store → Result JobRecord) (x : Result Sealing × Store)
    → (or_recovered recover x).1 ≡ x.1
or_recovered-store recover (ok y, s) = refl
or_recovered-store recover (err storage_conflict, s) = refl
or_recovered-store recover (err e, s) = refl

module _ ⦃datetime : Datetime⦄ ⦃library : Library⦄ where
  -- A store that commands reach from another.
  pub record IsReached (s t : Store) : Type 0 where
    pub commands : List Command
    pub reached : t ≡ run commands s

  pub IsReached-refl : (s : Store) → IsReached s s
  unfolding run
  IsReached-refl s = record { commands = []; reached = refl }

  pub run-append : (cs ds : List Command) (s : Store) → run (cs ++ ds) s ≡ run ds (run cs s)
  unfolding run
  run-append [] ds s = refl
  run-append (c ∷ cs) ds s = run-append cs ds (execute c s).1

  pub IsReached-trans : (s t u : Store) → IsReached s t → IsReached t u → IsReached s u
  IsReached-trans s t u h i = record {
    commands = h.commands ++ i.commands;
    reached =
        i.reached ∙ ap (λ v. run i.commands v) h.reached ∙ sym (run-append h.commands i.commands s);
  }

  pub IsReached-step : (c : Command) (s t : Store) → (execute c s).1 ≡ t → IsReached s t
  unfolding run
  IsReached-step c s t h = record { commands = c ∷ []; reached = sym h }

  pub after_dispatch-store :
      (job : SealedJob) (c : JobRecord) (x : Result (Unit {0}) × Store)
      → (after_dispatch job c x).1 ≡ x.1
  after_dispatch-store job c (ok y, s) = refl
  after_dispatch-store job c (err e, s) = refl
