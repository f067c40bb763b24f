-- ===== src/RootAction/Store/Atomicity.antt =====
-- Which methods of local_fixture.py change nothing when they raise.
use agent_runtime_ops.Prelude.{◌≡◌, refl, Bool, true, false, Result, ok, err, Error}
use agent_runtime_ops.Time.{Datetime}
use agent_runtime_ops.RootAction.Json.{Library}
use agent_runtime_ops.RootAction.Store.{Store, attempt}
use agent_runtime_ops.RootAction.Store.Sealing.{put_if_absent, create_pending, seal_pending}
use agent_runtime_ops.RootAction.Store.Rejection.{seal_rejected}
use agent_runtime_ops.RootAction.Store.Transitions.{compare_and_append}
use agent_runtime_ops.RootAction.Store.Publication.{
  put_raw_if_absent, publish_if_absent, quarantine_if_absent,
}
use agent_runtime_ops.RootAction.Store.Commands.{
  Command, put_job, create, seal, reject, admit, append, put_raw, publish, quarantine, outcome,
  execute,
}

-- A change that raises nothing, behind checks.
pub attempt-err :
    {A B : Type 0} (s : Store) (c : Result A) (f : A → B) (g : A → Store) (e : Error)
    → (attempt s c (λ a. (ok (f a), g a))).0 ≡ err e
    → (attempt s c (λ a. (ok (f a), g a))).1 ≡ s
attempt-err s (ok a) f g e h = cc
attempt-err s (err x) f g e h = refl

outcome-err : {A : Type 0} (r : Result A × Store) (e : Error) → (outcome r).0 ≡ err e → r.0 ≡ err e
outcome-err (ok a, s) e h = cc
outcome-err (err x, s) e h = cc

pub outcome-state : {A : Type 0} (r : Result A × Store) → (outcome r).1 ≡ r.1
outcome-state (ok a, s) = refl
outcome-state (err x, s) = refl

-- Every method but the sealing with lineage admission.
abbrev pub is_guarded : Command → Bool
is_guarded (admit _ _ _ _ _ _ _ _) = false
is_guarded _ = true

module _ ⦃datetime : Datetime⦄ ⦃library : Library⦄ where
  -- A method other than `seal_with_lineage_admission` that raises leaves the store as it was.
  pub execute-atomic :
      (c : Command) (s : Store) (e : Error)
      → is_guarded c ≡ true
      → (execute c s).0 ≡ err e
      → (execute c s).1 ≡ s
  unfolding execute
  execute-atomic (put_job job) s e g h = unfold put_if_absent in attempt-err s _ _ _ e h
  execute-atomic (create r) s e g h = unfold create_pending in attempt-err s _ _ _ e h
  execute-atomic (seal job i t m l) s e g h =
      rw outcome-state (unfold seal_pending in attempt-err s _ _ _ e (outcome-err _ e h))
  execute-atomic (reject job i t x n m l) s e g h =
      rw outcome-state (unfold seal_rejected in attempt-err s _ _ _ e (outcome-err _ e h))
  execute-atomic (admit job i t x n m l p) s e g h = cc
  execute-atomic (append x) s e g h =
      rw outcome-state (unfold compare_and_append in attempt-err s _ _ _ e (outcome-err _ e h))
  execute-atomic (put_raw a) s e g h = unfold put_raw_if_absent in attempt-err s _ _ _ e h
  execute-atomic (publish a) s e g h = unfold publish_if_absent in attempt-err s _ _ _ e h
  execute-atomic (quarantine q) s e g h = unfold quarantine_if_absent in attempt-err s _ _ _ e h
