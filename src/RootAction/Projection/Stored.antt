-- ===== src/RootAction/Projection/Stored.antt =====
-- Every ledger that local_fixture.py keeps has a history projection.
use agent_runtime_ops.Prelude.{◌≡◌, refl, sym, ◌∙◌, String, List, some, ok}
use agent_runtime_ops.Prelude.Dict.{lookup}
use agent_runtime_ops.Time.{Datetime}
use agent_runtime_ops.RootAction.Job.{SealedJob}
use agent_runtime_ops.RootAction.Json.{Library}
use agent_runtime_ops.RootAction.Admission.{LedgerEntry}
use agent_runtime_ops.RootAction.Store.{empty_store}
use agent_runtime_ops.RootAction.Store.Commands.{Command, run}
use agent_runtime_ops.RootAction.Store.Soundness.Steps.{run-IsSound, empty-IsSound}
use agent_runtime_ops.RootAction.Store.Ordered.{run-IsOrdered}
use agent_runtime_ops.RootAction.Projection.{history_projection}
use agent_runtime_ops.RootAction.Projection.Replay.{IsReplay, projection_of, history_projection_iff}

module _ ⦃datetime : Datetime⦄ ⦃library : Library⦄ where
  -- After any commands on an empty store, in any order and raising or not, the history of every job
  -- that has a ledger is projected: the store holds the sealed job, its ledger is a replay, and the
  -- projection lists the entries of the ledger in their order.
  pub stored_history_projects :
      (cs : List Command) (k : String) (es : List LedgerEntry)
      → lookup k (run cs empty_store).ledger ≡ some es
      → (job : SealedJob) × (lookup k (run cs empty_store).jobs ≡ some job)
        × (history_projection job es ≡ ok (projection_of job es))
  stored_history_projects cs k es h =
      let v = run-IsSound cs empty_store empty-IsSound in
      let o = run-IsOrdered cs in
      let t = v.ledgers.tracked k es h in
      let b = v.records.sealed k t.current t.found in
      let replay : IsReplay b.job es = record {
        final = t.current;
        history = t.history;
        last = (run cs empty_store).sequence;
        numbered = o.numbers.numbered k es h;
        same_id = t.named ∙ sym (o.names.named k b.job b.found);
        same_digest = sym b.same_digest;
      } in
      (b.job, b.found, (history_projection_iff b.job es (projection_of b.job es)).1 (replay, refl))
