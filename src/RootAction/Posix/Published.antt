-- ===== src/RootAction/Posix/Published.antt =====
-- When a receipt passes the checks of posix_store.py, and what its insert leaves.
use agent_runtime_ops.Prelude.{
  ◌≡◌, refl, ap, String, true, false, some, none, [], ◌∷◌, ◌++◌, ok, arith, eq_iff,
}
use agent_runtime_ops.Prelude.Actions.{◌>>=◌, lift, read-runs}
use agent_runtime_ops.Prelude.Lists.{any}
use agent_runtime_ops.Time.{Datetime}
use agent_runtime_ops.RootAction.Job.{SealedJob}
use agent_runtime_ops.RootAction.Json.{Json, Members, end, member, Library, get_item, get, is_text}
use agent_runtime_ops.RootAction.Receipts.{
  public, is_terminal_notice, ReceiptArtifact, receipt_copy,
}
use agent_runtime_ops.RootAction.Receipts.Raw.{RawReceiptArtifact, RawReceiptReference}
use agent_runtime_ops.RootAction.State.{is_unknown, JobRecord, TransitionEvent, validate_record}
use agent_runtime_ops.RootAction.Store.Publication.{is_outcome, is_final}
use agent_runtime_ops.RootAction.Posix.{Database, fetch_one, execute_insert, job_exists}
use agent_runtime_ops.RootAction.Posix.Reading.{
  record_for, raw_for, current_for, receipt_for, read_record, read_sealed,
}
use agent_runtime_ops.RootAction.Posix.Checks.{
  identity_checks, raw_matches, state_matches, validate_receipt_publication,
}
use agent_runtime_ops.RootAction.Posix.Publication.{
  current_receipt, with_receipt, with_current, may_follow, point_to, insert_receipt,
}
use agent_runtime_ops.RootAction.Posix.Rows.{fetch_one-none}
use agent_runtime_ops.RootAction.Posix.Keyed.{any-added}
use agent_runtime_ops.RootAction.Posix.Pointers.{same_text, row_of}

-- A member that `get` finds with a text is there.
get_item_of_text :
    (s k : String) (ms : Members) → is_text s (get k ms) ≡ true → get_item k ms ≡ ok (get k ms)
unfolding get get_item
get_item_of_text s k end h = cc
get_item_of_text s k (member j v ms) h = ground (arith, get_item_of_text s k ms)

-- The insert of a first receipt, and the pointer to it.
pub first_receipt :
    (a : ReceiptArtifact) (db : Database)
    → any (current_for a.job_id) db.receipt_current ≡ false
    → any (receipt_for a.receipt_digest) db.receipts ≡ false
    → job_exists a.job_id db ≡ true
    → insert_receipt a db ≡ (ok tt, with_current a (with_receipt a db))
unfolding insert_receipt execute_insert point_to may_follow ◌>>=◌ lift
first_receipt a db p n j =
    let none_current = fetch_one-none (current_for a.job_id) db.receipt_current p in
    let nothing : current_receipt a.job_id db ≡ none = rw (current_receipt, none_current) refl in
    let here : any (receipt_for a.receipt_digest) (db.receipts ++ row_of a ∷ []) ≡ true = ground (
      arith,
      any-added (receipt_for a.receipt_digest) db.receipts (row_of a),
      same_text a.receipt_digest,
    ) in
    read-runs _ none _ _ db (ap ok nothing) (rw (n, j, p, here, j) refl)

module _ ⦃datetime : Datetime⦄ ⦃library : Library⦄ where
  pub read_record-runs :
      (i : String) (u : JobRecord) (db : Database)
      → fetch_one (record_for i) db.records ≡ some u
      → validate_record u ≡ ok tt
      → read_record i db ≡ ok u
  unfolding read_record
  read_record-runs i u db f v = rw (f, v) refl

  -- The checks of a receipt that names its raw receipt.
  pub publishes :
      (a : ReceiptArtifact) (db : Database) (job : SealedJob) (r : JobRecord) (ms : Members)
      → read_sealed a.job_id db ≡ ok job
      → read_record a.job_id db ≡ ok r
      → job.job_digest ≡ a.job_digest
      → job.operation_id ≡ a.operation_id
      → job.request_id ≡ a.request_id
      → job.reply_target ≡ a.reply_target
      → is_final r.state ≡ true
      → receipt_copy a ≡ ok ms
      → raw_matches (is_terminal_notice a.kind) (fetch_one (raw_for a.job_id) db.raw_receipts) ms
        ≡ ok tt
      → state_matches (is_unknown r.state) r a ms ≡ ok tt
      → validate_receipt_publication a db ≡ ok tt
  unfolding validate_receipt_publication
  publishes a db job r ms j k d o q t f c w m =
      rw
        (
          j,
          k,
          d,
          o,
          q,
          t,
          same_text a.job_digest,
          same_text a.operation_id,
          same_text a.request_id,
          same_text a.reply_target,
          f,
          c,
          w,
          m,
        )
        refl

  pub identities :
      (e : TransitionEvent) (raw : RawReceiptReference) (a : ReceiptArtifact) (ms : Members)
      → identity_checks e raw a ≡ ok tt
      → receipt_copy a ≡ ok ms
      → (e.job_id ≡ raw.job_id)
        × (e.job_id ≡ a.job_id)
        × (a.job_digest ≡ e.job_digest)
        × (is_text raw.raw_receipt_digest (get "raw_receipt_digest" ms) ≡ true)
  unfolding identity_checks
  identities e raw a ms h k = ground (
    arith,
    eq_iff e.job_id raw.job_id,
    eq_iff a.job_id raw.job_id,
    eq_iff e.job_digest raw.job_digest,
    eq_iff a.job_digest raw.job_digest,
  )

  pub names_raw :
      (raw : RawReceiptArtifact) (ms : Members)
      → is_text raw.reference.raw_receipt_digest (get "raw_receipt_digest" ms) ≡ true
      → raw_matches false (some raw) ms ≡ ok tt
  unfolding raw_matches
  names_raw raw ms h =
      rw (get_item_of_text raw.reference.raw_receipt_digest "raw_receipt_digest" ms h, h) refl

  pub names_outcome :
      (u : JobRecord) (a : ReceiptArtifact) (ms : Members) (o : Json)
      → a.kind ≡ public
      → get_item "terminal_outcome" ms ≡ ok o
      → is_outcome u.terminal_outcome o ≡ true
      → state_matches false u a ms ≡ ok tt
  unfolding state_matches
  names_outcome u a ms o k h g = rw (k, h, g) refl
