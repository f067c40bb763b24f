-- ===== src/RootAction/Posix/Pointers.antt =====
-- The pointer to the current receipt of a job in posix_store.py, after an insert.
use agent_runtime_ops.Prelude.{
  ◌≡◌, refl, sym, String, true, Option, some, none, List, ok, arith, eq_iff, Option-cases, inl, inr,
  ◌==◌,
}
use agent_runtime_ops.Prelude.Actions.{from_read, from_check}
use agent_runtime_ops.RootAction.Receipts.{ReceiptArtifact}
use agent_runtime_ops.RootAction.Posix.{Database, ReceiptRow, CurrentRow, fetch_one, update_rows}
use agent_runtime_ops.RootAction.Posix.Reading.{current_for, receipt_for}
use agent_runtime_ops.RootAction.Posix.Publication.{
  current_receipt, with_receipt, point_to, insert_receipt,
}
use agent_runtime_ops.RootAction.Posix.Rows.{
  fetch_one-added, fetch_one-update, fetch_one-test, fetch_one-none,
}
use agent_runtime_ops.RootAction.Posix.Steps.{
  from_insert, execute_insert-returns, update_one-returns,
}

-- The row of a receipt.
abbrev pub row_of : ReceiptArtifact → ReceiptRow
row_of a = record {
  receipt_digest = a.receipt_digest;
  job_id = a.job_id;
  job_digest = a.job_digest;
  operation_id = a.operation_id;
  kind = a.kind;
  canonical_receipt = a.canonical_receipt;
}

-- The receipt that a job's pointer joins, by the tables.
abbrev joins : String → List CurrentRow → List ReceiptRow → Option ReceiptRow
joins job_id pointers rows = elim (fetch_one (current_for job_id) pointers) [
  | none ↦ none
  | some current ↦ fetch_one (receipt_for current.receipt_digest) rows
]

joins_lem :
    (i : String) (ps : List CurrentRow) (rows : List ReceiptRow) (p : CurrentRow) (x : ReceiptRow)
    → fetch_one (current_for i) ps ≡ some p
    → fetch_one (receipt_for p.receipt_digest) rows ≡ some x
    → joins i ps rows ≡ some x
joins_lem i ps rows p x h g = rw (joins, h) g

joined_pointer :
    (i : String) (ps : List CurrentRow) (rows : List ReceiptRow) (c : ReceiptRow)
    → joins i ps rows ≡ some c
    → (p : CurrentRow) × (fetch_one (current_for i) ps ≡ some p)
joined_pointer i ps rows c h = elim (Option-cases (fetch_one (current_for i) ps)) [
  | inl none_found ↦ absurd (none_some (sym (rw (joins, none_found) at h)))
  | inr found ↦ found
]
  where
    none_some : some c ≡ none → ⊥
    none_some q = cc

moved_pointer :
    (i d : String) (ps : List CurrentRow) (p : CurrentRow)
    → fetch_one (current_for i) ps ≡ some p
    → fetch_one
        (current_for i)
        (update_rows (current_for i) (λ row. record row { receipt_digest = d }) ps)
      ≡ some (record p { receipt_digest = d })
moved_pointer i d ps p h =
    let q =
      fetch_one-update (current_for i) (current_for i) (λ row. record row { receipt_digest = d })
        (λ x. refl) ps p h in
    rw (q, fetch_one-test (current_for i) ps p h) refl

pub same_text : (x : String) → (x == x) ≡ true
same_text x = (eq_iff x x).1 refl

-- The pointer of the job and the row that it names, after the insert.
point_to-returns :
    (o : Option ReceiptRow) (a : ReceiptArtifact) (s s' : Database) (u : Unit {0})
    → joins a.job_id s.receipt_current s.receipts ≡ o
    → fetch_one (receipt_for a.receipt_digest) s.receipts ≡ none
    → point_to o a (with_receipt a s) ≡ (ok u, s')
    → current_receipt a.job_id s' ≡ some (row_of a)
unfolding point_to
point_to-returns none a s s' u j new h =
    let (f, w) = execute_insert-returns _ _ (with_receipt a s) s' u h in
    let pointer : CurrentRow = record { job_id = a.job_id; receipt_digest = a.receipt_digest } in
    let no_pointer : fetch_one (current_for a.job_id) s.receipt_current ≡ none =
      fetch_one-none (current_for a.job_id) s.receipt_current (ground arith) in
    rw (sym w) (
      joins_lem a.job_id _ _ pointer (row_of a)
        (fetch_one-added (current_for a.job_id) s.receipt_current pointer no_pointer
          (same_text a.job_id))
        (fetch_one-added (receipt_for a.receipt_digest) s.receipts (row_of a) new
          (same_text a.receipt_digest)))
point_to-returns (some c) a s s' u j new h =
    let (f, w) = update_one-returns _ _ (with_receipt a s) s' u h in
    let (p, found) = joined_pointer a.job_id s.receipt_current s.receipts c j in
    rw (sym w) (
      joins_lem a.job_id _ _ (record p { receipt_digest = a.receipt_digest }) (row_of a)
        (moved_pointer a.job_id a.receipt_digest s.receipt_current p found)
        (fetch_one-added (receipt_for a.receipt_digest) s.receipts (row_of a) new
          (same_text a.receipt_digest)))

pub insert_receipt-returns :
    (a : ReceiptArtifact) (s s' : Database) (u : Unit {0})
    → insert_receipt a s ≡ (ok u, s')
    → current_receipt a.job_id s' ≡ some (row_of a)
unfolding insert_receipt
insert_receipt-returns a s s' u h = from_read _ _ s s' u h λ o f h1.
    from_check _ _ s s' u h1 λ _ _ h2. from_insert _ _ _ s s' u h2 λ g h3.
      let same : joins a.job_id s.receipt_current s.receipts ≡ o = cc in
      let new : fetch_one (receipt_for a.receipt_digest) s.receipts ≡ none =
        fetch_one-none (receipt_for a.receipt_digest) s.receipts (ground arith) in
      point_to-returns o a s s' u same new h3
