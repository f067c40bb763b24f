-- ===== src/RootAction/Store/Ledger.antt =====
-- What the invariant promises of the ledgers of a store that commands have made.
use agent_runtime_ops.Prelude.{◌+◌, ◌≤◌, ◌≡◌, String, List, some, arith}
use agent_runtime_ops.Prelude.Lists.{length}
use agent_runtime_ops.Prelude.Dict.{lookup}
use agent_runtime_ops.Time.{Datetime}
use agent_runtime_ops.RootAction.Json.{Library}
use agent_runtime_ops.RootAction.State.{JobRecord}
use agent_runtime_ops.RootAction.State.Spec.{IsValid}
use agent_runtime_ops.RootAction.State.Traces.{count-le_one}
use agent_runtime_ops.RootAction.Admission.{LedgerEntry}
use agent_runtime_ops.RootAction.Store.{Store, empty_store}
use agent_runtime_ops.RootAction.Store.Commands.{Command, run}
use agent_runtime_ops.RootAction.Store.History.{ledger_claims, History-Account}
use agent_runtime_ops.RootAction.Store.Soundness.Steps.{empty-IsSound, run-IsSound}

-- The record of a job agrees with its ledger.
pub record Agrees ⦃datetime : Datetime⦄ (k : String) (es : List LedgerEntry) (s : Store)
    (r : JobRecord) : Type 0 where
  pub found : lookup k s.records ≡ some r
  pub named : r.job_id ≡ k
  pub valid : IsValid r
  pub entries : length es ≡ r.revision + 1
  pub claims : ledger_claims es ≡ r.execution_count

module _ ⦃datetime : Datetime⦄ ⦃library : Library⦄ where
  -- After any commands on an empty store, in any order and raising or not, the ledger of a job
  -- holds at most one claim of execution and at most four entries.
  pub ledger_one_shot :
      (cs : List Command) (k : String) (es : List LedgerEntry)
      → lookup k (run cs empty_store).ledger ≡ some es
      → (ledger_claims es ≤ 1) × (length es ≤ 4)
  ledger_one_shot cs k es h =
      let t = (run-IsSound cs empty_store empty-IsSound).ledgers.tracked k es h in
      let a = History-Account t.history in
      let r = t.current in
      omega (
        arith,
        a.entries,
        a.claims,
        a.bounded,
        count-le_one r.state r.execution_count r.terminal_outcome r.reason_code a.valid.shape,
      )

  -- After any commands on an empty store, a job with a ledger has a valid record under its own
  -- name, whose revision is one less than the number of entries and whose execution count is the
  -- number of claims in the ledger.
  pub ledger-Agrees :
      (cs : List Command) (k : String) (es : List LedgerEntry)
      → lookup k (run cs empty_store).ledger ≡ some es
      → (r : JobRecord) × Agrees k es (run cs empty_store) r
  ledger-Agrees cs k es h =
      let t = (run-IsSound cs empty_store empty-IsSound).ledgers.tracked k es h in
      let a = History-Account t.history in
      (
        t.current,
        record {
          found = t.found;
          named = t.named;
          valid = a.valid;
          entries = a.entries;
          claims = a.claims;
        },
      )
