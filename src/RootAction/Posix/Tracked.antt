-- ===== src/RootAction/Posix/Tracked.antt =====
-- The ledger of posix_store.py: the rows of a job are the history of its record.
use agent_runtime_ops.Prelude.{
  ◌≤◌, ◌≡◌, ◌≢◌, refl, sym, ◌∙◌, String, some, none, Option, List, [], ◌∷◌, ◌++◌, ok, arith,
  Option-cases, inl, inr, Error, storage_not_found,
}
use mathlib.Core.List.{append-nil, append_assoc}
use agent_runtime_ops.Prelude.Lists.{length}
use agent_runtime_ops.Time.{Datetime}
use agent_runtime_ops.RootAction.Json.{Library}
use agent_runtime_ops.RootAction.State.{JobRecord}
use agent_runtime_ops.RootAction.State.Traces.{count-le_one}
use agent_runtime_ops.RootAction.Admission.{LedgerEntry}
use agent_runtime_ops.RootAction.Store.{transition_entry}
use agent_runtime_ops.RootAction.Store.History.{
  History, start, step, ledger_claims, History-Account,
}
use agent_runtime_ops.RootAction.Posix.{Database, empty_database, fetch_one, fetch_all}
use agent_runtime_ops.RootAction.Posix.Reading.{record_for, entry_for, rows_or, read_ledger}
use agent_runtime_ops.RootAction.Posix.Commands.{Command, run}
use agent_runtime_ops.RootAction.Posix.Evolution.{
  Evolves, stays, opens, moves, Evolves-none, run-Grows,
}

module _ ⦃datetime : Datetime⦄ where
  pub record IsTracked (records : List JobRecord) (ledger : List LedgerEntry) : Type 0 where
    pub history :
        (i : String) (r : JobRecord)
        → fetch_one (record_for i) records ≡ some r
        → History (fetch_all (entry_for i) ledger) r
    pub absent :
        (i : String) → fetch_one (record_for i) records ≡ none → fetch_all (entry_for i) ledger ≡ []

  -- A history, and the life that follows it.
  Evolves-History :
      {o p : Option JobRecord} {es : List LedgerEntry} (ls : List LedgerEntry)
      → Evolves o es p
      → ((c : JobRecord) → o ≡ some c → History ls c)
      → (o ≡ none → ls ≡ [])
      → (r : JobRecord) → p ≡ some r
      → History (ls ++ es) r
  Evolves-History ls (stays e q) h z r k = rw (e, append-nil ls) (h r (sym q ∙ k))
  Evolves-History ls (opens n c absent f e q) h z r k =
      let same : c ≡ r = cc in
      rw (z absent, e, ← same) (start n f.valid f.is_pending f.at_zero refl)
  Evolves-History {o} ls (moves {es = es} n e c u v m w q) h z r k =
      let same : u ≡ r = cc in
      rw (w, ← same)
        (step n e (Evolves-History ls v h z c refl) m
          (sym (append_assoc ls es (transition_entry n c e u ∷ []))))

module _ ⦃datetime : Datetime⦄ ⦃library : Library⦄ where
  -- Commands keep the invariant of the ledger, whether each returns or raises: the rows of a job
  -- are the history of its record, and a job without a record has no rows.
  pub run-IsTracked :
      (cs : List Command) (db : Database)
      → IsTracked db.records db.ledger
      → IsTracked (run cs db).records (run cs db).ledger
  run-IsTracked cs db t = record {
    history = λ i r found.
        let (es, grown, v) = (run-Grows cs db).added i in
        rw grown (
          Evolves-History (fetch_all (entry_for i) db.ledger) v (t.history i) (t.absent i) r found);
    absent = λ i missing.
        let (es, grown, v) = (run-Grows cs db).added i in
        let (before, nothing) = Evolves-none v missing in
        rw (grown, t.absent i before, nothing) refl;
  }

  pub empty-IsTracked : IsTracked [] []
  unfolding fetch_one fetch_all
  empty-IsTracked = record { history = λ i r h. cc; absent = λ i h. refl }

  rows_or_lem :
      (e : Error) (xs es : List LedgerEntry) → rows_or e xs ≡ ok es → (xs ≡ es) × (es ≢ [])
  rows_or_lem e [] es h = cc
  rows_or_lem e (x ∷ xs) es h = (ground arith, λ q. cc)

  read_ledger-rows :
      (i : String) (db : Database) (es : List LedgerEntry)
      → read_ledger i db ≡ ok es
      → (fetch_all (entry_for i) db.ledger ≡ es) × (es ≢ [])
  unfolding read_ledger
  read_ledger-rows i db es h =
      rows_or_lem storage_not_found (fetch_all (entry_for i) db.ledger) es h

  -- After any commands on an empty database, in any order and raising or not, the ledger that is
  -- read for a job holds at most one claim of execution and at most four entries.
  pub posix_one_shot :
      (cs : List Command) (i : String) (es : List LedgerEntry)
      → read_ledger i (run cs empty_database) ≡ ok es
      → (ledger_claims es ≤ 1) × (length es ≤ 4)
  posix_one_shot cs i es h =
      let db = run cs empty_database in
      let t = run-IsTracked cs empty_database empty-IsTracked in
      let rows = read_ledger-rows i db es h in
      elim (Option-cases (fetch_one (record_for i) db.records)) [
        | inl none_found ↦ absurd (rows.1 (sym rows.0 ∙ t.absent i none_found))
        | inr (r, found) ↦
            let x = History-Account (t.history i r found) in
            let bound =
              count-le_one r.state r.execution_count r.terminal_outcome r.reason_code
                x.valid.shape in
            rw (← rows.0) (omega (arith, x.entries, x.claims, x.bounded, bound))
      ]
