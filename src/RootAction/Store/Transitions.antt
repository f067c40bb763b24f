-- ===== src/RootAction/Store/Transitions.antt =====
-- Reads, listings and the compare-and-append of local_fixture.py.
use agent_runtime_ops.Prelude.{
  ℕ, zero, suc, ◌+◌, String, Bool, ◌&&◌, ◌||◌, List, [], ◌∷◌, ◌++◌, map, ◌==◌, ltb, if◌then◌else◌,
  Result, ok, ◌>>=◌, ◌>>◌, raise_if, storage_conflict, storage_not_found, key_error, value_error,
}
use agent_runtime_ops.Prelude.Lists.{length, any}
use agent_runtime_ops.Prelude.Dict.{Dict, put}
use agent_runtime_ops.Text.{text_lt}
use agent_runtime_ops.Time.{Datetime}
use agent_runtime_ops.RootAction.Job.{SealedJob}
use agent_runtime_ops.RootAction.Receipts.Raw.{RawReceiptArtifact}
use agent_runtime_ops.RootAction.State.{JobRecord, TransitionEvent, apply_transition}
use agent_runtime_ops.RootAction.Admission.{SubmissionMetadata, LedgerEntry}
use agent_runtime_ops.RootAction.Store.{Store, attempt, find, transition_entry}

unfoldable pub read_sealed : String → Store → Result SealedJob
read_sealed job_id s = find storage_not_found job_id s.jobs

unfoldable pub submission_metadata : String → Store → Result SubmissionMetadata
submission_metadata job_id s = find storage_not_found job_id s.submissions

unfoldable pub read_record : String → Store → Result JobRecord
read_record job_id s = find storage_not_found job_id s.records

unfoldable pub read_ledger : String → Store → Result (List LedgerEntry)
read_ledger job_id s = find storage_not_found job_id s.ledger

unfoldable pub read_raw_root_only : String → Store → Result RawReceiptArtifact
read_raw_root_only job_id s = find storage_not_found job_id s.raw_receipts

module _ {A : Type 0} (before : A → A → Bool) where
  -- `sorted`, by insertion
  unfoldable pub insert_sorted : A → List A → List A
  insert_sorted x [] = x ∷ []
  insert_sorted x (y ∷ ys) = if before y x then y ∷ insert_sorted x ys else x ∷ y ∷ ys

  unfoldable pub sort_by : List A → List A
  unfolding insert_sorted
  sort_by [] = []
  sort_by (x ∷ xs) = insert_sorted x (sort_by xs)

unfoldable pub dict_keys {ℓ} : {V : Type ℓ} → Dict V → List String
dict_keys [] = []
dict_keys ((k, v) ∷ d) = k ∷ dict_keys d

unfoldable pub list_job_ids : Store → List String
list_job_ids s = sort_by text_lt (dict_keys s.jobs)

-- The order of the pairs `(last_changed_at, job_id)`, latest first.
abbrev later_changed : String × JobRecord → String × JobRecord → Bool
later_changed (i, a) (j, b) =
    text_lt b.last_changed_at a.last_changed_at
    || (a.last_changed_at == b.last_changed_at && text_lt j i)

unfoldable pub take : ℕ → List String → List String
take zero xs = []
take (suc n) [] = []
take (suc n) (x ∷ xs) = x ∷ take n xs

unfoldable pub catalog_job_ids : ℕ → Store → Result (List String × ℕ)
unfolding take
catalog_job_ids limit s = do
  raise_if (ltb limit 1) value_error
  let ordered = map (λ (item : String × JobRecord). item.0) (sort_by later_changed s.records)
  ok (take limit ordered, length ordered)

module _ ⦃datetime : Datetime⦄ where
  -- What `compare_and_append` reads and computes before it writes: the current record, the ledger
  -- of the job, and the updated record.
  unfoldable pub append_checks :
      TransitionEvent → Store → Result (JobRecord × List LedgerEntry × JobRecord)
  append_checks e s = do
    current ← find storage_not_found e.job_id s.records
    entries ← find key_error e.job_id s.ledger
    raise_if (any (λ (entry : LedgerEntry). entry.event_id == e.event_id) entries) storage_conflict
    updated ← apply_transition current e
    ok (current, entries, updated)

  abbrev pub with_transition :
      Store → TransitionEvent → JobRecord → List LedgerEntry → JobRecord → Store
  with_transition s e current entries updated = record s {
    records = put e.job_id updated s.records;
    sequence = s.sequence + 1;
    ledger =
        put e.job_id (entries ++ transition_entry (s.sequence + 1) current e updated ∷ []) s.ledger;
  }

  unfoldable pub compare_and_append : TransitionEvent → Store → Result JobRecord × Store
  compare_and_append e s =
      attempt s (append_checks e s)
        λ (current, entries, updated). (ok updated, with_transition s e current entries updated)
