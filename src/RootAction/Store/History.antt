-- ===== src/RootAction/Store/History.antt =====
-- A ledger as the history of a record: the pending entry, then an entry for each transition.
use agent_runtime_ops.Prelude.{ℕ, ◌+◌, ◌≤◌, ◌≡◌, ap, List, [], ◌∷◌, ◌++◌, ok, arith}
use agent_runtime_ops.Prelude.Lists.{length, length-append}
use agent_runtime_ops.Time.{Datetime}
use agent_runtime_ops.RootAction.State.{pending, JobRecord, TransitionEvent, apply_transition}
use agent_runtime_ops.RootAction.State.Spec.{IsValid, HasShape}
use agent_runtime_ops.RootAction.State.Traces.{is_claim, remaining, apply_transition-Progress}
use agent_runtime_ops.RootAction.Admission.{Action, sealed_pending, transition, LedgerEntry}
use agent_runtime_ops.RootAction.Store.{pending_entry, transition_entry}

-- The entries that record a claim of execution.
abbrev pub entry_claim : Action → ℕ
entry_claim sealed_pending = 0
entry_claim (transition k) = is_claim k

unfoldable pub ledger_claims : List LedgerEntry → ℕ
ledger_claims [] = 0
ledger_claims (x ∷ xs) = entry_claim x.action + ledger_claims xs

ledger_claims-append :
    (xs ys : List LedgerEntry) → ledger_claims (xs ++ ys) ≡ ledger_claims xs + ledger_claims ys
unfolding ledger_claims
ledger_claims-append [] ys = omega arith
ledger_claims-append (x ∷ xs) ys = omega (arith, ledger_claims-append xs ys)

module _ ⦃datetime : Datetime⦄ where
  -- `es` is the ledger of a job that has come to the record `r`.
  pub data History : List LedgerEntry → JobRecord → Type 0 where
    start :
        {es : List LedgerEntry} {r : JobRecord} (n : ℕ)
        → IsValid r
        → r.state ≡ pending
        → r.revision ≡ 0
        → es ≡ pending_entry n r ∷ []
        → History es r
    step :
        {es fs : List LedgerEntry} {r u : JobRecord} (n : ℕ) (e : TransitionEvent)
        → History es r
        → apply_transition r e ≡ ok u
        → fs ≡ es ++ transition_entry n r e u ∷ []
        → History fs u

  -- What a history says of its record and its length.
  pub record Account (es : List LedgerEntry) (r : JobRecord) : Type 0 where
    pub valid : IsValid r
    pub entries : length es ≡ r.revision + 1
    pub claims : ledger_claims es ≡ r.execution_count
    pub bounded : r.revision + remaining r.state ≤ 3

  start_claims : (r : JobRecord) → IsValid r → r.state ≡ pending → r.execution_count ≡ 0
  start_claims r v p =
      let h : HasShape pending r.execution_count r.terminal_outcome r.reason_code =
        rw p at v.shape in
      h.0

  pub History-Account : {es : List LedgerEntry} {r : JobRecord} → History es r → Account es r
  unfolding ledger_claims
  History-Account (start {es = es} {r = r} n v p z e) = record {
    valid = v;
    entries = rw e (omega arith);
    claims = rw e (omega (arith, start_claims r v p));
    bounded = omega (arith, ap remaining p);
  }
  History-Account (step {es = es} {fs = fs} {r = r} {u = u} n e h a q) =
      let x = History-Account h in
      let g = apply_transition-Progress r e u a in
      record {
        valid = g.valid;
        entries = rw q (omega (arith, length-append {0} es (transition_entry n r e u ∷ []), x, g));
        claims =
            rw q (omega (arith, ledger_claims-append es (transition_entry n r e u ∷ []), x, g));
        bounded = omega (arith, x, g);
      }
