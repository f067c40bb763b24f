-- ===== src/RootAction/Posix/Completing.antt =====
-- When `complete_claimed_execution` of posix_store.py returns.
use agent_runtime_ops.Prelude.{
  ◌≡◌, refl, ap, ◌∙◌, String, true, false, some, none, List, [], ◌∷◌, ◌++◌, Result, ok, arith,
}
use agent_runtime_ops.Prelude.Actions.{pure, check-runs, read-runs, action-runs}
use agent_runtime_ops.Prelude.Lists.{any}
use agent_runtime_ops.Time.{Datetime}
use agent_runtime_ops.RootAction.Job.{SealedJob}
use agent_runtime_ops.RootAction.Json.{Json, Members, Library, get_item, get, is_text}
use agent_runtime_ops.RootAction.Receipts.{
  public, is_terminal_notice, ReceiptArtifact, receipt_copy,
}
use agent_runtime_ops.RootAction.Receipts.Raw.{RawReceiptArtifact}
use agent_runtime_ops.RootAction.State.{
  complete_execution, terminal, is_unknown, JobRecord, TransitionEvent, apply_transition,
  validate_record,
}
use agent_runtime_ops.RootAction.State.Validity.{validate_record_iff}
use agent_runtime_ops.RootAction.State.Traces.{apply_transition-Progress}
use agent_runtime_ops.RootAction.Store.{verify_receipt}
use agent_runtime_ops.RootAction.Store.Publication.{is_outcome, is_final}
use agent_runtime_ops.RootAction.Posix.{
  Database, empty_database, fetch_one, execute_insert, transaction, job_exists,
}
use agent_runtime_ops.RootAction.Posix.Reading.{
  raw_for, current_for, receipt_for, read_record, read_sealed,
}
use agent_runtime_ops.RootAction.Posix.Inserts.{raw_taken, with_raw, insert_raw, with_transition}
use agent_runtime_ops.RootAction.Posix.Transitions.{replayed}
use agent_runtime_ops.RootAction.Posix.Checks.{identity_checks, validate_receipt_publication}
use agent_runtime_ops.RootAction.Posix.Publication.{
  receipt_taken, with_receipt, with_current, insert_receipt,
}
use agent_runtime_ops.RootAction.Posix.Finishing.{
  finalize, finalize_claimed_execution, complete_claimed_execution,
}
use agent_runtime_ops.RootAction.Posix.Commands.{Command, run}
use agent_runtime_ops.RootAction.Posix.Rows.{fetch_one-added}
use agent_runtime_ops.RootAction.Posix.Appended.{with_updated, compare-Appended, Appended-stored}
use agent_runtime_ops.RootAction.Posix.Keyed.{IsKeyed, run-IsKeyed}
use agent_runtime_ops.RootAction.Posix.Progress.{compare-runs}
use agent_runtime_ops.RootAction.Posix.Pointers.{same_text}
use agent_runtime_ops.RootAction.Posix.Finished.{raw_is_new, completes}
use agent_runtime_ops.RootAction.Posix.Published.{
  first_receipt, read_record-runs, publishes, names_raw, names_outcome, identities,
}

module _ ⦃datetime : Datetime⦄ ⦃library : Library⦄ where
  same_sealed :
      (i : String) (raw : RawReceiptArtifact) (c u : JobRecord) (e : TransitionEvent)
      (db : Database)
      → read_sealed i (with_transition c u e (with_updated u c.revision (with_raw raw db)))
        ≡ read_sealed i db
  unfolding read_sealed
  same_sealed i raw c u e db = refl

  same_record :
      (i : String) (raw : RawReceiptArtifact) (db : Database)
      → read_record i (with_raw raw db) ≡ read_record i db
  unfolding read_record
  same_record i raw db = refl

  inserts_raw :
      (raw : RawReceiptArtifact) (db : Database)
      → raw_taken raw db ≡ false
      → insert_raw raw db ≡ (ok tt, with_raw raw db)
  unfolding insert_raw execute_insert
  inserts_raw raw db h = rw h refl

  module _ (e : TransitionEvent) (raw : RawReceiptArtifact) (a : ReceiptArtifact) (job : SealedJob)
      (c u : JobRecord) (db : Database) where
    abbrev moved_on : Database
    moved_on = with_transition c u e (with_updated u c.revision (with_raw raw db))

    finalize-runs :
        IsKeyed db.jobs db.records
        → read_sealed e.job_id db ≡ ok job
        → job.job_digest ≡ e.job_digest
        → raw_taken raw db ≡ false
        → read_record e.job_id db ≡ ok c
        → replayed e db ≡ ok tt
        → apply_transition c e ≡ ok u
        → validate_receipt_publication a moved_on ≡ ok tt
        → insert_receipt a moved_on ≡ (ok tt, with_current a (with_receipt a moved_on))
        → finalize e raw a db ≡ (ok u, with_current a (with_receipt a moved_on))
    unfolding finalize pure
    finalize-runs keyed j d t f k m v p = read-runs _ job _ _ db j (
        check-runs _ tt _ _ db (rw (d, same_text e.job_digest) refl) (
          action-runs _ tt _ _ db (with_raw raw db) (inserts_raw raw db t) (
            action-runs _ u _ _ (with_raw raw db) moved_on
              (compare-runs e c u (with_raw raw db) keyed (same_record e.job_id raw db ∙ f) k m)
              (read-runs _ tt _ _ moved_on v (
                action-runs _ tt _ _ moved_on (with_current a (with_receipt a moved_on)) p refl)))))

    -- The raw receipt and the record that the receipt is checked against.
    validates :
        (ms : Members) (o : Json)
        → IsKeyed db.jobs db.records
        → e.job_id ≡ a.job_id
        → e.job_id ≡ raw.reference.job_id
        → read_sealed e.job_id db ≡ ok job
        → job.job_digest ≡ a.job_digest
        → job.operation_id ≡ a.operation_id
        → job.request_id ≡ a.request_id
        → job.reply_target ≡ a.reply_target
        → fetch_one (raw_for raw.reference.job_id) db.raw_receipts ≡ none
        → read_record e.job_id db ≡ ok c
        → replayed e db ≡ ok tt
        → apply_transition c e ≡ ok u
        → u.state ≡ terminal
        → a.kind ≡ public
        → receipt_copy a ≡ ok ms
        → is_text raw.reference.raw_receipt_digest (get "raw_receipt_digest" ms) ≡ true
        → get_item "terminal_outcome" ms ≡ ok o
        → is_outcome u.terminal_outcome o ≡ true
        → validate_receipt_publication a moved_on ≡ ok tt
    validates ms o keyed i j s d op q t n f k m z p y x g w =
        let appended =
          compare-Appended e (with_raw raw db) moved_on u
            (compare-runs e c u (with_raw raw db) keyed (same_record e.job_id raw db ∙ f) k m) in
        let ok_record : validate_record u ≡ ok tt =
          (validate_record_iff u).1 (apply_transition-Progress c e u m).valid in
        let found : fetch_one (raw_for a.job_id) (db.raw_receipts ++ raw ∷ []) ≡ some raw =
          rw (← i, j)
            (fetch_one-added (raw_for raw.reference.job_id) db.raw_receipts raw n
              (same_text raw.reference.job_id)) in
        let notice : is_terminal_notice a.kind ≡ false = rw p refl in
        let final : is_final u.state ≡ true = rw z refl in
        let settled : is_unknown u.state ≡ false = rw z refl in
        publishes a moved_on job u ms (same_sealed a.job_id raw c u e db ∙ (rw (← i) s))
          (read_record-runs a.job_id u moved_on (rw (← i) (Appended-stored appended)) ok_record) d
          op q t final y (rw (notice, found) (names_raw raw ms x))
          (rw settled (names_outcome u a ms o p g w))

  -- After any commands on an empty database, in any order and raising or not, the completion of a
  -- claimed execution returns the record that apply_transition makes, if the job is sealed and its
  -- record is read, the identifier of the event is new to the ledger, the raw receipt has a new
  -- storage identifier and its job has none, the public receipt is verified, has a new digest, is
  -- of the job and of the event and names the raw receipt and the outcome of the new record, and
  -- the job has no current receipt.
  pub complete_claimed_execution-returns :
      (cs : List Command) (e : TransitionEvent) (raw : RawReceiptArtifact) (a : ReceiptArtifact)
      (job : SealedJob) (c u : JobRecord) (ms : Members) (o : Json)
      → e.kind ≡ complete_execution
      → read_sealed e.job_id (run cs empty_database) ≡ ok job
      → read_record e.job_id (run cs empty_database) ≡ ok c
      → replayed e (run cs empty_database) ≡ ok tt
      → apply_transition c e ≡ ok u
      → raw_taken raw (run cs empty_database) ≡ false
      → verify_receipt a ≡ ok tt
      → receipt_taken a (run cs empty_database) ≡ false
      → identity_checks e raw.reference a ≡ ok tt
      → job.job_digest ≡ a.job_digest
      → job.operation_id ≡ a.operation_id
      → job.request_id ≡ a.request_id
      → job.reply_target ≡ a.reply_target
      → a.kind ≡ public
      → receipt_copy a ≡ ok ms
      → get_item "terminal_outcome" ms ≡ ok o
      → is_outcome u.terminal_outcome o ≡ true
      → any (current_for a.job_id) (run cs empty_database).receipt_current ≡ false
      → (complete_claimed_execution e raw a (run cs empty_database)).0 ≡ ok u
  unfolding complete_claimed_execution finalize_claimed_execution transaction
  complete_claimed_execution-returns cs e raw a job c u ms o kind s f k m t v x i d op q rt p y g w
        cur =
      let db = run cs empty_database in
      let keyed = run-IsKeyed cs in
      let (named, same, digest, names) = identities e raw.reference a ms i y in
      let z = (completes c e u kind m).1 in
      let n : fetch_one (raw_for raw.reference.job_id) db.raw_receipts ≡ none =
        raw_is_new raw db.raw_receipts (ground arith) in
      let valid =
        validates e raw a job c u db ms o keyed same named s d op q rt n f k m z p y names g w in
      let new_digest : any (receipt_for a.receipt_digest) db.receipts ≡ false = ground arith in
      let known : job_exists a.job_id db ≡ true = ground arith in
      let published = first_receipt a (moved_on e raw a job c u db) cur new_digest known in
      let left = with_current a (with_receipt a (moved_on e raw a job c u db)) in
      let whole : complete_claimed_execution e raw a db ≡ (ok u, left) =
        check-runs _ tt _ _ db (rw kind refl) (
          check-runs _ tt _ _ db v (
            check-runs _ tt _ _ db i (
              rw (finalize-runs e raw a job c u db keyed s (d ∙ digest) t f k m valid published)
                refl))) in
      ap (λ (r : Result JobRecord × Database). r.0) whole
