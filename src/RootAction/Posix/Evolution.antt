-- ===== src/RootAction/Posix/Evolution.antt =====
-- What commands of posix_store.py do to the record of a job and to the rows of its ledger.
use agent_runtime_ops.Prelude.{
  ℕ, ◌+◌, ◌≡◌, refl, ap, sym, ◌∙◌, String, true, false, Option, some, none, List, [], ◌∷◌, ◌++◌, ok,
  arith, eq_iff, Bool-cases, Option-cases, inl, inr, ◌==◌,
}
use mathlib.Core.List.{append-nil, append_assoc}
use agent_runtime_ops.Time.{Datetime}
use agent_runtime_ops.RootAction.Json.{Library}
use agent_runtime_ops.RootAction.State.{JobRecord, TransitionEvent, pending, apply_transition}
use agent_runtime_ops.RootAction.State.Spec.{HasShape}
use agent_runtime_ops.RootAction.State.Agreement.{apply_transition_iff}
use agent_runtime_ops.RootAction.State.Traces.{apply_transition-Progress}
use agent_runtime_ops.RootAction.Admission.{LedgerEntry}
use agent_runtime_ops.RootAction.Store.{pending_entry, transition_entry}
use agent_runtime_ops.RootAction.Posix.{Database, fetch_one, fetch_all, update_rows}
use agent_runtime_ops.RootAction.Posix.Reading.{record_for, entry_for}
use agent_runtime_ops.RootAction.Posix.Inserts.{
  insert_job, with_record, insert_record_and_initial_ledger,
}
use agent_runtime_ops.RootAction.Posix.Transitions.{same_revision, moved_row}
use agent_runtime_ops.RootAction.Posix.Commands.{Command, run}
use agent_runtime_ops.RootAction.Posix.Rows.{
  fetch_one-added, fetch_one-update, fetch_one-test, fetch_one-other, fetch_one-update_none,
  fetch_one-none, fetch_all-added, fetch_all-other,
}
use agent_runtime_ops.RootAction.Posix.Statements.{IsFresh}
use agent_runtime_ops.RootAction.Posix.Methods.{run-holds}
use agent_runtime_ops.RootAction.Posix.Framed.{Framed, Framed-Statements}
use agent_runtime_ops.RootAction.Posix.Steps.{insert-Ensures, execute_insert-returns, from_insert}
use agent_runtime_ops.RootAction.Posix.Appended.{Appended, compare-Appended, Appended-stored}

module _ ⦃datetime : Datetime⦄ where
  -- The life of a job's record from `o` to `p`, with the entries that it adds to the ledger: a job
  -- without a record is opened by a pending one, and a record moves by accepted events.
  pub data Evolves (o : Option JobRecord) : List LedgerEntry → Option JobRecord → Type 0 where
    stays : {es : List LedgerEntry} {p : Option JobRecord} → es ≡ [] → p ≡ o → Evolves o es p
    opens :
        {es : List LedgerEntry} {p : Option JobRecord} (n : ℕ) (r : JobRecord)
        → o ≡ none
        → IsFresh r
        → es ≡ pending_entry n r ∷ []
        → p ≡ some r
        → Evolves o es p
    moves :
        {es fs : List LedgerEntry} {p : Option JobRecord} (n : ℕ) (e : TransitionEvent)
        (c u : JobRecord)
        → Evolves o es (some c)
        → apply_transition c e ≡ ok u
        → fs ≡ es ++ transition_entry n c e u ∷ []
        → p ≡ some u
        → Evolves o fs p

  pub Evolves-none :
      {o p : Option JobRecord} {es : List LedgerEntry}
      → Evolves o es p
      → p ≡ none
      → (o ≡ none) × (es ≡ [])
  Evolves-none (stays e q) h = (sym q ∙ h, e)
  Evolves-none (opens n r z f e q) h = cc
  Evolves-none (moves n e c u v m k q) h = cc

  Evolves-trans :
      {o p q : Option JobRecord} {es fs : List LedgerEntry}
      → Evolves o es p
      → Evolves p fs q
      → Evolves o (es ++ fs) q
  Evolves-trans {es = es} v (stays e q) = rw (e, append-nil es, q) v
  Evolves-trans v (opens n r z f e q) =
      let (before, nothing) = Evolves-none v z in opens n r before f (rw nothing e) q
  Evolves-trans {es = es} v (moves {es = fs} n e c u w m k q) =
      moves n e c u (Evolves-trans v w) m
        (rw k (sym (append_assoc es fs (transition_entry n c e u ∷ [])))) q

  -- For every job: the rows that its ledger had are still there, in their order, and those that
  -- were added tell how its record came about.
  pub record Grows (before later : Database) : Type 0 where
    pub added :
        (i : String)
        → (es : List LedgerEntry) × (fetch_all (entry_for i) later.ledger
            ≡ fetch_all (entry_for i) before.ledger ++ es)
          × Evolves
              (fetch_one (record_for i) before.records)
              es
              (fetch_one (record_for i) later.records)

  framed-Grows : (s t : Database) → s.records ≡ t.records → s.ledger ≡ t.ledger → Grows s t
  framed-Grows s t p q = record {
    added = λ i.
        ([], rw q (sym (append-nil (fetch_all (entry_for i) t.ledger))), stays refl (rw p refl));
  }

  Grows-trans : (s t u : Database) → Grows s t → Grows t u → Grows s u
  Grows-trans s t u h g = record {
    added = λ i.
        let (es, p, v) = h.added i in
        let (fs, q, w) = g.added i in
        (
          es ++ fs,
          q ∙ rw p (append_assoc (fetch_all (entry_for i) s.ledger) es fs),
          Evolves-trans v w,
        );
  }

  -- A fresh record has no outcome and no reason to lose.
  fresh_row :
      (r : JobRecord) → IsFresh r → record r { terminal_outcome = none; reason_code = none } ≡ r
  fresh_row r f =
      let h : HasShape pending r.execution_count r.terminal_outcome r.reason_code =
        rw f.is_pending at f.valid.shape in
      ground (arith, h.1, h.2)

  -- One row of the ledger is added, and the record of its job is `u`.
  Grows-put :
      (j : String) (u : JobRecord) (entry : LedgerEntry) (s s' : Database)
      → entry.job_id ≡ j
      → s'.ledger ≡ s.ledger ++ entry ∷ []
      → ((i : String)
          → (j == i) ≡ false
          → fetch_one (record_for i) s'.records ≡ fetch_one (record_for i) s.records)
      → fetch_one (record_for j) s'.records ≡ some u
      → Evolves (fetch_one (record_for j) s.records) (entry ∷ []) (some u)
      → Grows s s'
  Grows-put j u entry s s' named grown other found v = record {
    added = λ i. elim (Bool-cases (j == i)) [
      | inl e ↦
          let here : entry_for i entry ≡ true = rw named e in
          (
            entry ∷ [],
            rw grown (fetch_all-added (entry_for i) s.ledger entry here),
            rw (← (eq_iff j i).0 e, found) v,
          )
      | inr e ↦
          let there : entry_for i entry ≡ false = rw named e in
          (
            [],
            rw grown (
                fetch_all-other (entry_for i) s.ledger entry there
                ∙ sym (append-nil (fetch_all (entry_for i) s.ledger))),
            stays refl (other i e),
          )
    ];
  }

  record-Grows :
      (r : JobRecord) (s s' : Database) (a : Unit {0})
      → IsFresh r
      → insert_record_and_initial_ledger r s ≡ (ok a, s')
      → Grows s s'
  unfolding insert_record_and_initial_ledger
  record-Grows r s s' a f h = from_insert _ _ _ s s' a h λ g h1.
      let (_, w) = execute_insert-returns _ _ (with_record r s) s' a h1 in
      let new : fetch_one (record_for r.job_id) s.records ≡ none =
        fetch_one-none (record_for r.job_id) s.records (ground arith) in
      let at_id : (r.job_id == r.job_id) ≡ true = ground (arith, eq_iff r.job_id r.job_id) in
      let row = record r { terminal_outcome = none; reason_code = none } in
      rw (sym w) (
        Grows-put r.job_id r _ s _ refl refl (λ i e. fetch_one-other (record_for i) s.records row e)
          (fetch_one-added (record_for r.job_id) s.records row new at_id ∙ ap some (fresh_row r f))
          (opens (s.sequence + 1) r new f (rw (f.is_pending, f.at_zero) refl) refl))

  kept_row :
      (i : String) (u : JobRecord) (n : ℕ) (x : JobRecord)
      → record_for i x ≡ true
      → (u.job_id == i) ≡ false
      → same_revision u n x ≡ false
  kept_row i u n x h e = ground (arith, eq_iff x.job_id i, eq_iff x.job_id u.job_id)

  other_row :
      (i : String) (u : JobRecord) (n : ℕ) (xs : List JobRecord)
      → (u.job_id == i) ≡ false
      → fetch_one (record_for i) (update_rows (same_revision u n) (moved_row u) xs)
        ≡ fetch_one (record_for i) xs
  other_row i u n xs e = elim (Option-cases (fetch_one (record_for i) xs)) [
    | inl none_found ↦
        fetch_one-update_none (record_for i) (same_revision u n) (moved_row u) (λ x. refl) xs
          none_found
        ∙ sym none_found
    | inr (x, found) ↦
        let k = kept_row i u n x (fetch_one-test (record_for i) xs x found) e in
        let q =
          fetch_one-update (record_for i) (same_revision u n) (moved_row u) (λ x. refl) xs x
            found in
        rw (q, k, found) refl
  ]

  -- The row names the job by its record, the entry of the event by the event.
  entry_lem :
      (n : ℕ) (c : JobRecord) (e : TransitionEvent) (u : JobRecord)
      → u.job_id ≡ e.job_id
      → u.job_digest ≡ e.job_digest
      → record (transition_entry n c e u) { job_id = u.job_id; job_digest = u.job_digest }
        ≡ transition_entry n c e u
  entry_lem n c e u p q = cc

  event-Grows :
      (e : TransitionEvent) (s s' : Database) (u : JobRecord) → Appended e s s' u → Grows s s'
  event-Grows e s s' u h =
      let c = h.current in
      let g = apply_transition-Progress c e u h.moved in
      let a = (apply_transition_iff c e u).0 h.moved in
      let id : u.job_id ≡ e.job_id = g.same_id ∙ sym a.same_id in
      let digest : u.job_digest ≡ e.job_digest = g.same_digest ∙ sym a.same_digest in
      Grows-put e.job_id u _ s s' id (ap (λ (x : Database). x.ledger) h.result)
        (λ i d. rw h.result (other_row i u c.revision s.records (rw id d))) (Appended-stored h)
        (moves (s.sequence + 1) e c u (stays refl (sym h.found)) h.moved
          (ap (λ (x : LedgerEntry). x ∷ []) (entry_lem (s.sequence + 1) c e u id digest)) refl)

module _ ⦃datetime : Datetime⦄ ⦃library : Library⦄ where
  Grows-Framed : Framed Grows
  unfolding insert_job
  Grows-Framed = record {
    framed = λ s t _ p q. framed-Grows s t p q;
    chained = Grows-trans;
    of_job = λ job m. insert-Ensures _ _ λ db _. framed-Grows db _ refl refl;
    of_record = λ r f. record { between = λ s s' a h. record-Grows r s s' a f h };
    of_event =
        λ e. record { between = λ s s' u h. event-Grows e s s' u (compare-Appended e s s' u h) };
  }

  -- Commands, whether each returns or raises, keep the rows of the ledger of every job in their
  -- order and only add rows behind them, and what they add is the life of the job's record from
  -- the one they found to the one they leave: the pending record that opens it, then an entry for
  -- each event that apply_transition accepted.
  pub run-Grows : (cs : List Command) (db : Database) → Grows db (run cs db)
  run-Grows cs db = run-holds (Framed-Statements Grows-Framed) cs db
