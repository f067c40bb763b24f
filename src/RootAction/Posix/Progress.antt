-- ===== src/RootAction/Posix/Progress.antt =====
-- What makes `compare_and_append` of posix_store.py raise, and what does not.
use agent_runtime_ops.Prelude.{
  ℕ, ◌≡◌, ◌↔◌, refl, ap, sym, ◌∙◌, true, false, some, ok, arith, eq_iff, List,
}
use agent_runtime_ops.Prelude.Actions.{
  ◌>>=◌, lift, reads, writes, pure, from_read, from_check, from_pure,
}
use agent_runtime_ops.Time.{Datetime}
use agent_runtime_ops.RootAction.Json.{Library}
use agent_runtime_ops.RootAction.State.{JobRecord, TransitionEvent, apply_transition}
use agent_runtime_ops.RootAction.State.Agreement.{apply_transition_iff}
use agent_runtime_ops.RootAction.State.Traces.{apply_transition-Progress}
use agent_runtime_ops.RootAction.Posix.{
  Database, empty_database, fetch_one, count_rows, execute_insert, transaction,
}
use agent_runtime_ops.RootAction.Posix.Reading.{record_for, read_record}
use agent_runtime_ops.RootAction.Posix.Inserts.{insert_ledger, entry_taken, with_transition}
use agent_runtime_ops.RootAction.Posix.Transitions.{
  replayed, same_revision, update_record, compare_and_append, append_event,
}
use agent_runtime_ops.RootAction.Posix.Commands.{Command, run}
use agent_runtime_ops.RootAction.Posix.Statements.{transaction-returns}
use agent_runtime_ops.RootAction.Posix.Steps.{from_insert, from_update}
use agent_runtime_ops.RootAction.Posix.Appended.{with_updated, read-found}
use agent_runtime_ops.RootAction.Posix.Keyed.{
  IsKeyed, run-IsKeyed, count-le, count-found, any-found,
}

module _ ⦃datetime : Datetime⦄ where
  -- The row that was read is the one row that the update changes.
  counts_one :
      (c u : JobRecord) (db : Database)
      → IsKeyed db.jobs db.records
      → fetch_one (record_for u.job_id) db.records ≡ some c
      → c.job_id ≡ u.job_id
      → c.job_digest ≡ u.job_digest
      → count_rows (same_revision u c.revision) db.records ≡ 1
  counts_one c u db h found i d =
      let picked : same_revision u c.revision c ≡ true =
        ground (arith, eq_iff c.job_id u.job_id, eq_iff c.job_digest u.job_digest) in
      omega (
        arith,
        h.unique u.job_id,
        count-found (same_revision u c.revision) (record_for u.job_id) db.records c found picked,
        count-le (same_revision u c.revision) (record_for u.job_id) (λ x k. ground arith)
            db.records,
      )

  entry_free :
      (e : TransitionEvent) (c u : JobRecord) (n : ℕ) (db : Database)
      → IsKeyed db.jobs db.records
      → fetch_one (record_for e.job_id) db.records ≡ some c
      → replayed e db ≡ ok tt
      → entry_taken e.job_id e.event_id (with_updated u n db) ≡ false
  entry_free e c u n db h found k =
      ground (arith, h.known e.job_id (any-found (record_for e.job_id) db.records c found))

  appends :
      (e : TransitionEvent) (c u : JobRecord) (db : Database)
      → read_record e.job_id db ≡ ok c
      → replayed e db ≡ ok tt
      → apply_transition c e ≡ ok u
      → count_rows (same_revision u c.revision) db.records ≡ 1
      → entry_taken u.job_id e.event_id (with_updated u c.revision db) ≡ false
      → compare_and_append e db ≡ (ok u, with_transition c u e (with_updated u c.revision db))
  unfolding compare_and_append update_record insert_ledger execute_insert ◌>>=◌ lift reads writes
      pure
  appends e c u db f k m n t = rw (f, k, m, n, t) refl

  pub compare-runs :
      (e : TransitionEvent) (c u : JobRecord) (db : Database)
      → IsKeyed db.jobs db.records
      → read_record e.job_id db ≡ ok c
      → replayed e db ≡ ok tt
      → apply_transition c e ≡ ok u
      → compare_and_append e db ≡ (ok u, with_transition c u e (with_updated u c.revision db))
  compare-runs e c u db h f k m =
      let g = apply_transition-Progress c e u m in
      let a = (apply_transition_iff c e u).0 m in
      let found = read-found e.job_id db c f in
      let id : u.job_id ≡ e.job_id = g.same_id ∙ sym a.same_id in
      appends e c u db f k m (counts_one c u db h (rw id found) (sym g.same_id) (sym g.same_digest))
        (rw id (entry_free e c u c.revision db h found k))

  append_returns :
      (e : TransitionEvent) (c u : JobRecord) (db : Database)
      → IsKeyed db.jobs db.records
      → read_record e.job_id db ≡ ok c
      → replayed e db ≡ ok tt
      → apply_transition c e ≡ ok u
      → (append_event e db).0 ≡ ok u
  unfolding append_event transaction
  append_returns e c u db h f k m = rw (compare-runs e c u db h f k m) refl

  append_found :
      (e : TransitionEvent) (u : JobRecord) (db : Database)
      → (append_event e db).0 ≡ ok u
      → (c : JobRecord) × (read_record e.job_id db ≡ ok c)
        × (replayed e db ≡ ok tt)
        × (apply_transition c e ≡ ok u)
  unfolding append_event compare_and_append update_record insert_ledger
  append_found e u db h =
      let s' = (append_event e db).1 in
      let q = transaction-returns (compare_and_append e) db s' u (ap (λ x. (x, s')) h) in
      from_read (read_record e.job_id) _ db s' u q λ c f q1.
        from_read (replayed e) _ db s' u q1 λ k p q2.
          from_check (apply_transition c e) _ db s' u q2 λ v m q3.
            from_update _ _ _ _ db s' u refl q3 λ _ q4.
              from_insert _ _ _ _ s' u q4
                λ _ q5. from_pure _ _ _ s' q5 λ same _. (c, f, p, m ∙ ap ok same)

module _ ⦃datetime : Datetime⦄ ⦃library : Library⦄ where
  -- After any commands on an empty database, in any order and raising or not, compare_and_append
  -- returns a record exactly if the job has a record that is read, no entry of the job's ledger
  -- has the identifier of the event, and apply_transition makes that record of the two: neither
  -- the count of updated rows nor a constraint of the ledger makes it raise.
  pub append_event_iff :
      (cs : List Command) (e : TransitionEvent) (u : JobRecord)
      → ((append_event e (run cs empty_database)).0 ≡ ok u) ↔ (
          (c : JobRecord) × (read_record e.job_id (run cs empty_database) ≡ ok c)
          × (replayed e (run cs empty_database) ≡ ok tt)
          × (apply_transition c e ≡ ok u))
  append_event_iff cs e u = (
    append_found e u (run cs empty_database),
    λ (c, f, k, m). append_returns e c u (run cs empty_database) (run-IsKeyed cs) f k m,
  )
