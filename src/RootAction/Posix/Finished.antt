-- ===== src/RootAction/Posix/Finished.antt =====
-- What the end of a claimed execution in posix_store.py leaves.
use agent_runtime_ops.Prelude.{
  ◌≡◌, refl, sym, ◌∙◌, true, false, some, none, List, [], ◌∷◌, ok, arith, eq_iff, ◌||◌, ◌==◌,
}
use agent_runtime_ops.Prelude.Actions.{Ensures, from_read, from_check, from_action, from_pure}
use agent_runtime_ops.Prelude.Lists.{any}
use agent_runtime_ops.Time.{Datetime}
use agent_runtime_ops.RootAction.Json.{Library}
use agent_runtime_ops.RootAction.Receipts.{ReceiptArtifact}
use agent_runtime_ops.RootAction.Receipts.Raw.{RawReceiptArtifact, RawReceiptReference}
use agent_runtime_ops.RootAction.State.{
  TransitionKind, complete_execution, mark_unknown, JobRecord, TransitionEvent, running, terminal,
  unknown, apply_transition,
}
use agent_runtime_ops.RootAction.State.Agreement.{apply_transition_iff}
use agent_runtime_ops.RootAction.State.Edges.{Facts, Facts-Edge}
use agent_runtime_ops.RootAction.Posix.{Database, fetch_one}
use agent_runtime_ops.RootAction.Posix.Reading.{record_for, raw_for}
use agent_runtime_ops.RootAction.Posix.Inserts.{with_raw, insert_raw}
use agent_runtime_ops.RootAction.Posix.Checks.{identity_checks}
use agent_runtime_ops.RootAction.Posix.Publication.{current_receipt, insert_receipt}
use agent_runtime_ops.RootAction.Posix.Transitions.{compare_and_append}
use agent_runtime_ops.RootAction.Posix.Finishing.{
  is_complete, is_mark_unknown, finalize, finalize_claimed_execution, complete_claimed_execution,
  mark_claimed_execution_unknown,
}
use agent_runtime_ops.RootAction.Posix.Rows.{fetch_one-added}
use agent_runtime_ops.RootAction.Posix.Statements.{transaction-returns}
use agent_runtime_ops.RootAction.Posix.Steps.{from_insert, receipt-Ensures}
use agent_runtime_ops.RootAction.Posix.Appended.{compare-Appended, Appended-stored}
use agent_runtime_ops.RootAction.Posix.Pointers.{row_of, same_text, insert_receipt-returns}

-- The insert of a receipt leaves the records and the raw receipts alone.
record SameRows (before later : Database) : Type 0 where
  records : later.records ≡ before.records
  raw_receipts : later.raw_receipts ≡ before.raw_receipts

module _ ⦃datetime : Datetime⦄ ⦃library : Library⦄ where
  receipt-SameRows : (a : ReceiptArtifact) → Ensures SameRows (insert_receipt a)
  receipt-SameRows a =
      receipt-Ensures (λ db. record { records = refl; raw_receipts = refl })
        (λ s t u h g. record {
          records = g.records ∙ h.records;
          raw_receipts = g.raw_receipts ∙ h.raw_receipts;
        })
        a (λ db. record { records = refl; raw_receipts = refl })
        (λ db. record { records = refl; raw_receipts = refl })
        λ db. record { records = refl; raw_receipts = refl }

  -- A running record has been finished, with its raw receipt and its receipt.
  pub record Finished (e : TransitionEvent) (raw : RawReceiptArtifact) (a : ReceiptArtifact)
      (before later : Database) (r : JobRecord) : Type 0 where
    pub current : JobRecord
    pub was_stored : fetch_one (record_for e.job_id) before.records ≡ some current
    pub accepted : apply_transition current e ≡ ok r
    pub is_stored : fetch_one (record_for e.job_id) later.records ≡ some r
    pub no_raw : fetch_one (raw_for e.job_id) before.raw_receipts ≡ none
    pub raw_stored : fetch_one (raw_for e.job_id) later.raw_receipts ≡ some raw
    pub published : current_receipt e.job_id later ≡ some (row_of a)

  identity_lem :
      (e : TransitionEvent) (ref : RawReceiptReference) (a : ReceiptArtifact) {u : Unit {0}}
      → identity_checks e ref a ≡ ok u
      → (e.job_id ≡ ref.job_id) × (a.job_id ≡ ref.job_id)
  unfolding identity_checks
  identity_lem e ref a h = ground (arith, eq_iff e.job_id ref.job_id, eq_iff a.job_id ref.job_id)

  pub raw_is_new :
      (raw : RawReceiptArtifact) (rows : List RawReceiptArtifact)
      → any
          (λ (row : RawReceiptArtifact).
            raw_for raw.reference.job_id row
            || row.reference.root_storage_id == raw.reference.root_storage_id)
          rows
        ≡ false
      → fetch_one (raw_for raw.reference.job_id) rows ≡ none
  unfolding any fetch_one
  raw_is_new raw [] h = refl
  raw_is_new raw (x ∷ rows) h = ground (arith, raw_is_new raw rows)

  finalize-Finished :
      (e : TransitionEvent) (raw : RawReceiptArtifact) (a : ReceiptArtifact) (s s' : Database)
      (r : JobRecord)
      → finalize_claimed_execution e raw a s ≡ (ok r, s')
      → Finished e raw a s s' r
  unfolding finalize_claimed_execution finalize insert_raw
  finalize-Finished e raw a s s' r h = from_check _ _ s s' r h λ _ _ h1.
      from_check _ _ s s' r h1 λ _ f h2.
        from_read _ _ s s' r (transaction-returns _ s s' r h2) λ _ _ h3.
          from_check _ _ s s' r h3 λ _ _ h4. from_insert _ _ _ s s' r h4 λ g h5.
            from_action (compare_and_append e) _ _ s' r h5 λ v t p h6.
              from_read _ _ t s' r h6 λ _ _ h7.
                from_action (insert_receipt a) _ t s' r h7 λ _ t' q h8.
                  from_pure v r t' s' h8 λ is_r w.
                    let x = compare-Appended e (with_raw raw s) t v p in
                    let kept = (receipt-SameRows a).between t t' _ q in
                    let ids = identity_lem e raw.reference a f in
                    let no_raw : fetch_one (raw_for raw.reference.job_id) s.raw_receipts ≡ none =
                      raw_is_new raw s.raw_receipts (ground arith) in
                    rw (sym w, sym is_r)
                      (record {
                        current = x.current;
                        was_stored = x.found;
                        accepted = x.moved;
                        is_stored = rw kept.records (Appended-stored x);
                        no_raw = rw ids.0 no_raw;
                        raw_stored =
                            rw (kept.raw_receipts, x.result, ids.0)
                              (fetch_one-added (raw_for raw.reference.job_id) s.raw_receipts raw
                                no_raw (same_text raw.reference.job_id));
                        published = rw (ids.0 ∙ sym ids.1) (insert_receipt-returns a t t' _ q);
                      })

  complete_kind : (k : TransitionKind) → is_complete k ≡ true → k ≡ complete_execution
  complete_kind complete_execution h = refl
  complete_kind _ h = cc

  unknown_kind : (k : TransitionKind) → is_mark_unknown k ≡ true → k ≡ mark_unknown
  unknown_kind mark_unknown h = refl
  unknown_kind _ h = cc

  pub completes :
      (c : JobRecord) (e : TransitionEvent) (r : JobRecord)
      → e.kind ≡ complete_execution
      → apply_transition c e ≡ ok r
      → (c.state ≡ running) × (r.state ≡ terminal)
  completes c e r k h =
      let x = (apply_transition_iff c e r).0 h in
      let edge : Facts complete_execution c.state e.outcome e.reason_code =
        rw k at (Facts-Edge x.edge) in
      (edge.0, rw (x.result, k) refl)

  loses :
      (c : JobRecord) (e : TransitionEvent) (r : JobRecord)
      → e.kind ≡ mark_unknown
      → apply_transition c e ≡ ok r
      → (c.state ≡ running) × (r.state ≡ unknown)
  loses c e r k h =
      let x = (apply_transition_iff c e r).0 h in
      let edge : Facts mark_unknown c.state e.outcome e.reason_code = rw k at (Facts-Edge x.edge) in
      (edge.0, rw (x.result, k) refl)

  -- A completion that returns has found the record of the job running and no raw receipt of it, and
  -- leaves the record terminal, together with the raw receipt and with the receipt as the one that
  -- is current for the job.
  pub complete_claimed_execution-Finished :
      (e : TransitionEvent) (raw : RawReceiptArtifact) (a : ReceiptArtifact) (s s' : Database)
      (r : JobRecord)
      → complete_claimed_execution e raw a s ≡ (ok r, s')
      → (f : Finished e raw a s s' r) × (f.current.state ≡ running) × (r.state ≡ terminal)
  unfolding complete_claimed_execution
  complete_claimed_execution-Finished e raw a s s' r h = from_check _ _ s s' r h λ _ k h1.
      let f = finalize-Finished e raw a s s' r h1 in
      let m = completes f.current e r (complete_kind e.kind (ground arith)) f.accepted in
      (f, m.0, m.1)

  -- A completion as unknown that returns has found the record of the job running and no raw receipt
  -- of it, and leaves the record unknown, together with the raw receipt and with the notice as the
  -- receipt that is current for the job.
  pub mark_claimed_execution_unknown-Finished :
      (e : TransitionEvent) (raw : RawReceiptArtifact) (a : ReceiptArtifact) (s s' : Database)
      (r : JobRecord)
      → mark_claimed_execution_unknown e raw a s ≡ (ok r, s')
      → (f : Finished e raw a s s' r) × (f.current.state ≡ running) × (r.state ≡ unknown)
  unfolding mark_claimed_execution_unknown
  mark_claimed_execution_unknown-Finished e raw a s s' r h = from_check _ _ s s' r h λ _ k h1.
      let f = finalize-Finished e raw a s s' r h1 in
      let m = loses f.current e r (unknown_kind e.kind (ground arith)) f.accepted in (f, m.0, m.1)
