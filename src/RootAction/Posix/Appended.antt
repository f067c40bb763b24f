-- ===== src/RootAction/Posix/Appended.antt =====
-- What `_compare_and_append` of posix_store.py has done when it returns.
use agent_runtime_ops.Prelude.{ℕ, ◌≡◌, refl, ap, sym, String, true, false, some, ok, arith, eq_iff}
use agent_runtime_ops.Prelude.Actions.{from_read, from_check, from_pure}
use mathlib.Core.Path.{subst}
use agent_runtime_ops.Time.{Datetime}
use agent_runtime_ops.RootAction.State.{JobRecord, TransitionEvent, apply_transition}
use agent_runtime_ops.RootAction.State.Traces.{apply_transition-Progress}
use agent_runtime_ops.RootAction.Posix.{Database, fetch_one, update_rows}
use agent_runtime_ops.RootAction.Posix.Reading.{record_for, read_record}
use agent_runtime_ops.RootAction.Posix.Inserts.{entry_taken, with_transition, insert_ledger}
use agent_runtime_ops.RootAction.Posix.Transitions.{
  replayed, same_revision, moved_row, update_record, compare_and_append,
}
use agent_runtime_ops.RootAction.Posix.Rows.{fetch_one-update}
use agent_runtime_ops.RootAction.Posix.Steps.{from_insert, from_update}

-- The database after the update of a record.
abbrev pub with_updated : JobRecord → ℕ → Database → Database
with_updated u n db = record db {
  records = update_rows (same_revision u n) (moved_row u) db.records;
}

module _ ⦃datetime : Datetime⦄ where
  pub record Appended (e : TransitionEvent) (s s' : Database) (u : JobRecord) : Type 0 where
    pub current : JobRecord
    pub found : fetch_one (record_for e.job_id) s.records ≡ some current
    pub moved : apply_transition current e ≡ ok u
    pub entry_is_new : entry_taken u.job_id e.event_id (with_updated u current.revision s) ≡ false
    pub result : s' ≡ with_transition current u e (with_updated u current.revision s)

  pub read-found :
      (i : String) (db : Database) (r : JobRecord)
      → read_record i db ≡ ok r
      → fetch_one (record_for i) db.records ≡ some r
  unfolding read_record
  read-found i db r h = ground arith

  pub compare-Appended :
      (e : TransitionEvent) (s s' : Database) (u : JobRecord)
      → compare_and_append e s ≡ (ok u, s')
      → Appended e s s' u
  unfolding compare_and_append update_record insert_ledger
  compare-Appended e s s' u h = from_read (read_record e.job_id) _ s s' u h λ r f1 h1.
      from_read (replayed e) _ s s' u h1 λ _ f2 h2.
        from_check (apply_transition r e) _ s s' u h2 λ w f3 h3.
          from_update _ _ _ _ s s' u refl h3 λ f4 h4. from_insert _ _ _ _ s' u h4 λ f5 h5.
            from_pure _ _ _ s' h5 λ f6 e6.
              subst (λ v. Appended e s s' v) f6
                (record {
                  current = r;
                  found = read-found e.job_id s r f1;
                  moved = f3;
                  entry_is_new = f5;
                  result = sym e6;
                })

  moved_row_lem :
      (r u : JobRecord) → u.job_id ≡ r.job_id → u.job_digest ≡ r.job_digest → moved_row u r ≡ u
  moved_row_lem r u i d = cc

  -- The row that was read is the row that was written.
  pub Appended-stored :
      {e : TransitionEvent} {s s' : Database} {u : JobRecord}
      → Appended e s s' u
      → fetch_one (record_for e.job_id) s'.records ≡ some u
  Appended-stored {e = e} {s = s} {u = u} h =
      let g = apply_transition-Progress h.current e u h.moved in
      let q =
        fetch_one-update (record_for e.job_id) (same_revision u h.current.revision) (moved_row u)
          (λ x. refl) s.records h.current h.found in
      let same : same_revision u h.current.revision h.current ≡ true =
        ground
          (arith, eq_iff h.current.job_id u.job_id, eq_iff h.current.job_digest u.job_digest) in
      rw (h.result, q, same) (ap some (moved_row_lem h.current u g.same_id g.same_digest))
