-- ===== src/RootAction/Posix/Ending.antt =====
-- A job that is not terminal can be ended by an event that `compare_and_append` of posix_store.py
-- takes.
use agent_runtime_ops.Prelude.{
  ℕ, ◌≡◌, ◌≢◌, refl, sym, String, Bool, true, false, some, ok, ◌==◌, ◌&&◌, arith, eq_iff, List, [],
  ◌∷◌,
}
use mathlib.Core.Path.{subst}
use agent_runtime_ops.Prelude.Lists.{any}
use agent_runtime_ops.Text.{codes, lex_lt, text_lt, safe_id}
use agent_runtime_ops.Time.{Datetime}
use agent_runtime_ops.RootAction.Json.{Library}
use agent_runtime_ops.RootAction.State.{
  JobState, pending, running, terminal, unknown, TransitionKind, close_pending, complete_execution,
  reconcile_unknown, TerminalOutcome, failed, rejected, JobRecord, TransitionEvent,
  apply_transition, moved,
}
use agent_runtime_ops.RootAction.State.Spec.{
  Edge, close, complete, reconcile, IsValid, target, claimed,
}
use agent_runtime_ops.RootAction.State.Agreement.{apply_transition_iff}
use agent_runtime_ops.RootAction.State.Validity.{validate_record_iff}
use agent_runtime_ops.RootAction.Admission.{LedgerEntry}
use agent_runtime_ops.RootAction.Store.{transition_entry}
use agent_runtime_ops.RootAction.Store.History.{History, start, step}
use agent_runtime_ops.RootAction.Posix.{Database, empty_database, fetch_all}
use agent_runtime_ops.RootAction.Posix.Reading.{record_for, read_record, entry_for}
use agent_runtime_ops.RootAction.Posix.Transitions.{replayed, append_event}
use agent_runtime_ops.RootAction.Posix.Commands.{Command, run}
use agent_runtime_ops.RootAction.Posix.Appended.{read-found}
use agent_runtime_ops.RootAction.Posix.Rows.{fetch_one-test}
use agent_runtime_ops.RootAction.Posix.Keyed.{any-added}
use agent_runtime_ops.RootAction.Posix.Tracked.{run-IsTracked, empty-IsTracked}
use agent_runtime_ops.RootAction.Posix.Progress.{append_event_iff}

lex_lt-irreflexive : (xs : List ℕ) → lex_lt xs xs ≡ false
unfolding lex_lt
lex_lt-irreflexive [] = refl
lex_lt-irreflexive (x ∷ xs) = ground (arith, lex_lt-irreflexive xs)

text_lt-irreflexive : (t : String) → text_lt t t ≡ false
unfolding text_lt
text_lt-irreflexive t = lex_lt-irreflexive (codes t)

-- An entry of the job `i` with the identifier of an event.
abbrev pub is_entry : String → String → LedgerEntry → Bool
is_entry i event_id row = row.job_id == i && row.event_id == event_id

any-fetched :
    (i event_id : String) (xs : List LedgerEntry)
    → any (λ (row : LedgerEntry). row.event_id == event_id) (fetch_all (entry_for i) xs) ≡ true
    → any (is_entry i event_id) xs ≡ true
unfolding any fetch_all
any-fetched i event_id [] h = cc
any-fetched i event_id (x ∷ xs) h = ground (arith, any-fetched i event_id xs)

-- What ends a job in each state.
abbrev ending_kind : JobState → TransitionKind
ending_kind running = complete_execution
ending_kind unknown = reconcile_unknown
ending_kind _ = close_pending

abbrev ending_outcome : JobState → TerminalOutcome
ending_outcome pending = rejected
ending_outcome _ = failed

abbrev ending_event : JobRecord → String → TransitionEvent
ending_event c event_id = record {
  event_id = event_id;
  job_id = c.job_id;
  job_digest = c.job_digest;
  expected_revision = c.revision;
  kind = ending_kind c.state;
  occurred_at = c.last_changed_at;
  outcome = some (ending_outcome c.state);
  reason_code = some event_id;
}

ending-Edge :
    (s : JobState) (event_id : String)
    → s ≢ terminal
    → safe_id event_id ≡ true
    → Edge s (ending_kind s) (some (ending_outcome s)) (some event_id)
ending-Edge pending i h k = close refl k
ending-Edge running i h k = complete refl k
ending-Edge unknown i h k = reconcile refl k
ending-Edge terminal i h k = absurd (h refl)

ending_target : (s : JobState) → target (ending_kind s) ≡ terminal
ending_target pending = refl
ending_target running = refl
ending_target unknown = refl
ending_target terminal = refl

module _ ⦃datetime : Datetime⦄ where
  last_event_entered :
      {es : List LedgerEntry} {r : JobRecord}
      → History es r
      → any (λ (row : LedgerEntry). row.event_id == r.last_event_id) es ≡ true
  unfolding any
  last_event_entered (start {r = r} n v p z e) =
      rw e (ground (arith, eq_iff r.last_event_id r.last_event_id))
  last_event_entered (step {es = es} {r = r} {u = u} n e h a q) =
      let w = ((apply_transition_iff r e u).0 a).result in
      rw
        (
          q,
          any-added (λ (row : LedgerEntry). row.event_id == u.last_event_id) es
              (transition_entry n r e u),
          w,
        )
        (ground (arith, eq_iff e.event_id e.event_id))

  read-IsValid : (i : String) (db : Database) (c : JobRecord) → read_record i db ≡ ok c → IsValid c
  unfolding read_record
  read-IsValid i db c h = (validate_record_iff c).0 (ground arith)

  ends :
      (c : JobRecord) (event_id : String)
      → IsValid c
      → c.state ≢ terminal
      → safe_id event_id ≡ true
      → event_id ≢ c.last_event_id
      → (u : JobRecord) × (apply_transition c (ending_event c event_id) ≡ ok u)
        × (u.state ≡ terminal)
  ends c event_id v going safe new =
      let e = ending_event c event_id in
      let u = moved c e (target e.kind) (claimed e.kind) e.outcome e.reason_code in
      (
        u,
        (apply_transition_iff c e u).1 (record {
          before = v;
          event_fields = record {
            id_is_safe = safe;
            has_format = v.last_event.has_format;
            is_real = v.last_event.is_real;
          };
          same_id = refl;
          same_digest = refl;
          current = refl;
          in_order = text_lt-irreflexive c.last_changed_at;
          fresh = new;
          edge = ending-Edge c.state event_id going safe;
          result = refl;
        }),
        ending_target c.state,
      )

module _ ⦃datetime : Datetime⦄ ⦃library : Library⦄ where
  -- After any commands on an empty database, in any order and raising or not, a job that has a
  -- record that is read and not terminal is ended by compare_and_append of some event, with any
  -- safe identifier that no entry of the job's ledger has: the call returns a terminal record.
  pub open_job_ends :
      (cs : List Command) (i event_id : String) (c : JobRecord)
      → read_record i (run cs empty_database) ≡ ok c
      → c.state ≢ terminal
      → safe_id event_id ≡ true
      → any (is_entry i event_id) (run cs empty_database).ledger ≡ false
      → (e : TransitionEvent) × (u : JobRecord) × (e.event_id ≡ event_id)
        × (e.job_id ≡ i)
        × ((append_event e (run cs empty_database)).0 ≡ ok u)
        × (u.state ≡ terminal)
  open_job_ends cs i event_id c h going safe new =
      let db = run cs empty_database in
      let e = ending_event c event_id in
      let found = read-found i db c h in
      let named : c.job_id ≡ i =
        ground (arith, fetch_one-test (record_for i) db.records c found, eq_iff c.job_id i) in
      let t = run-IsTracked cs empty_database empty-IsTracked in
      let entered =
        any-fetched i c.last_event_id db.ledger (last_event_entered (t.history i c found)) in
      let fresh : event_id ≢ c.last_event_id = λ q. cc in
      let (u, m, k) = ends c event_id (read-IsValid i db c h) going safe fresh in
      let not_replayed : replayed e db ≡ ok tt = rw (named, new) refl in
      let reads_c : read_record e.job_id db ≡ ok c =
        subst (λ j. read_record j db ≡ ok c) (sym named) h in
      (e, u, refl, named, (append_event_iff cs e u).1 (c, reads_c, not_replayed, m), k)
