-- ===== src/RootAction/Projection/Replay.antt =====
-- `history_projection` of projection.py accepts exactly the histories of the store.
use agent_runtime_ops.Prelude.{
  ℕ, ◌<◌, ◌≡◌, refl, ap, ◌∙◌, ◌↔◌, inl, inr, true, List, [], ◌∷◌, ◌++◌, map, some, arith, ok,
  >>=-eq-ok, Result-cases, eq_iff,
}
use mathlib.Core.List.{append_assoc, append-nil}
use agent_runtime_ops.Time.{Datetime}
use agent_runtime_ops.RootAction.Job.{SealedJob}
use agent_runtime_ops.RootAction.State.{JobRecord, TransitionKind, apply_transition, initial_record}
use agent_runtime_ops.RootAction.State.Agreement.{apply_transition_iff}
use agent_runtime_ops.RootAction.State.Initial.{initial_record-IsInitial}
use agent_runtime_ops.RootAction.Admission.{Action, sealed_pending, transition, LedgerEntry}
use agent_runtime_ops.RootAction.Store.{pending_entry, transition_entry}
use agent_runtime_ops.RootAction.Store.History.{History, start, step, History-Account}
use agent_runtime_ops.RootAction.Projection.{
  HistoryEvent, HistoryLoop, HistoryProjection, history_start, history_event, entry_event,
  entry_matches, first_record, later_record, next_history_record, history_round, history_rounds,
  history_projection,
}
use agent_runtime_ops.RootAction.Store.Numbered.{Numbered}
use agent_runtime_ops.RootAction.Projection.Entries.{entry_matches-eq}
use agent_runtime_ops.RootAction.Projection.Rounds.{History-rounds}

module _ ⦃datetime : Datetime⦄ where
  -- A round behind a record reads the entry of a transition.
  record IsLater (l m : HistoryLoop) (r : JobRecord) (x : LedgerEntry) : Type 0 where
    moved : JobRecord
    kind : TransitionKind
    applied : apply_transition r (entry_event r x kind) ≡ ok moved
    entry : x ≡ transition_entry x.sequence r (entry_event r x kind) moved
    rising : l.prior_sequence < x.sequence
    next : m ≡ record {
      prior_sequence = x.sequence;
      prior_record = some moved;
      projected = l.projected ++ history_event x ∷ [];
    }

  later_record-eq_ok :
      (r u : JobRecord) (x : LedgerEntry)
      → later_record r x ≡ ok u
      → (k : TransitionKind) × (x.action ≡ transition k)
        × (apply_transition r (entry_event r x k) ≡ ok u)
        × (entry_matches x r u ≡ true)
  unfolding later_record
  later_record-eq_ok r u x h = by_action x.action refl
    where
      by_action :
          (a : Action)
          → x.action ≡ a
          → (k : TransitionKind) × (x.action ≡ transition k)
            × (apply_transition r (entry_event r x k) ≡ ok u)
            × (entry_matches x r u ≡ true)
      by_action sealed_pending e = ground arith
      by_action (transition k) e = (k, e, ground arith, ground arith)

  round-IsLater :
      (job : SealedJob) (r : JobRecord) (n : ℕ) (ps : List HistoryEvent) (m : HistoryLoop)
      (x : LedgerEntry)
      → r.job_id ≡ job.job_id
      → r.job_digest ≡ job.job_digest
      → history_round job (record { prior_sequence = n; prior_record = some r; projected = ps }) x
        ≡ ok m
      → IsLater (record { prior_sequence = n; prior_record = some r; projected = ps }) m r x
  unfolding history_round next_history_record
  round-IsLater job r n ps m x i d h = elim (Result-cases (later_record r x)) [
    | inr (z, p) ↦ ground arith
    | inl (u, p) ↦
        (let (k, a, f, q) = later_record-eq_ok r u x p in
          record {
            moved = u;
            kind = k;
            applied = f;
            entry =
                entry_matches-eq x r u k a (ground (arith, eq_iff x.job_id job.job_id))
                  (ground (arith, eq_iff x.job_digest job.job_digest)) q;
            rising = ground arith;
            next = ground arith;
          })
  ]

  -- The entries that the loop reads behind a history extend it.
  record Extends (es : List LedgerEntry) (r : JobRecord) (n : ℕ) (more : List LedgerEntry)
      : Type 0 where
    final : JobRecord
    history : History (es ++ more) final
    last : ℕ
    numbered : Numbered n more last
    same_id : final.job_id ≡ r.job_id
    same_digest : final.job_digest ≡ r.job_digest

  rounds-Extends :
      (job : SealedJob) (es more : List LedgerEntry) (r : JobRecord) (n : ℕ)
      (ps : List HistoryEvent) (l : HistoryLoop)
      → History es r
      → r.job_id ≡ job.job_id
      → r.job_digest ≡ job.job_digest
      → history_rounds job
          (record { prior_sequence = n; prior_record = some r; projected = ps })
          more
        ≡ ok l
      → Extends es r n more
  unfolding history_rounds
  rounds-Extends job es [] r n ps l h i d k = record {
    final = r;
    history = rw append-nil h;
    last = n;
    numbered = omega arith;
    same_id = refl;
    same_digest = refl;
  }
  rounds-Extends job es (x ∷ more) r n ps l h i d k =
      let (m, p, q) =
        >>=-eq-ok
          (history_round job (record { prior_sequence = n; prior_record = some r; projected = ps })
            x)
          (λ m. history_rounds job m more) k in
      let y = round-IsLater job r n ps m x i d p in
      let c = (apply_transition_iff r (entry_event r x y.kind) y.moved).0 y.applied in
      let same_id : y.moved.job_id ≡ r.job_id = ground (arith, c.result) in
      let same_digest : y.moved.job_digest ≡ r.job_digest = ground (arith, c.result) in
      let longer : History (es ++ x ∷ []) y.moved =
        step x.sequence (entry_event r x y.kind) h y.applied
          (ap (λ (z : LedgerEntry). es ++ z ∷ []) y.entry) in
      let rest =
        rounds-Extends job (es ++ x ∷ []) more y.moved x.sequence (ps ++ history_event x ∷ []) l
          longer (same_id ∙ i) (same_digest ∙ d) (rw y.next at q) in
      record {
        final = rest.final;
        history = rw append_assoc at rest.history;
        last = rest.last;
        numbered = (y.rising, rest.numbered);
        same_id = rest.same_id ∙ same_id;
        same_digest = rest.same_digest ∙ same_digest;
      }

  -- The first round reads the entry of a pending record.
  first_round-History :
      (job : SealedJob) (l : HistoryLoop) (x : LedgerEntry)
      → history_round job history_start x ≡ ok l
      → (r : JobRecord) × History (x ∷ []) r
        × (r.job_id ≡ job.job_id)
        × (r.job_digest ≡ job.job_digest)
        × (0 < x.sequence)
        × (l ≡ record {
          prior_sequence = x.sequence;
          prior_record = some r;
          projected = history_event x ∷ [];
        })
  unfolding history_round next_history_record first_record
  first_round-History job l x h =
      elim (Result-cases (initial_record job x.event_id x.occurred_at)) [
        | inr (z, p) ↦ ground arith
        | inl (r, p) ↦
            (let i = initial_record-IsInitial job x.event_id x.occurred_at r p in
              let same : x ≡ pending_entry x.sequence r =
                ground (arith, i, eq_iff x.job_id job.job_id, eq_iff x.job_digest job.job_digest) in
              (
                r,
                start x.sequence i.valid i.is_pending i.at_zero
                    (ap (λ (z : LedgerEntry). z ∷ []) same),
                i.same_id,
                i.same_digest,
                ground arith,
                ground arith,
              ))
      ]

  -- A ledger whose numbers rise, and that is the history of a record of the job.
  pub record IsReplay (job : SealedJob) (es : List LedgerEntry) : Type 0 where
    pub final : JobRecord
    pub history : History es final
    pub last : ℕ
    pub numbered : Numbered 0 es last
    pub same_id : final.job_id ≡ job.job_id
    pub same_digest : final.job_digest ≡ job.job_digest

  abbrev pub projection_of : SealedJob → List LedgerEntry → HistoryProjection
  projection_of job es = record {
    job_id = job.job_id;
    job_digest = job.job_digest;
    events = map history_event es;
  }

  rounds-IsReplay :
      (job : SealedJob) (es : List LedgerEntry) (l : HistoryLoop) (x : LedgerEntry)
      → history_rounds job history_start (x ∷ es) ≡ ok l
      → IsReplay job (x ∷ es)
  unfolding history_rounds
  rounds-IsReplay job es l x h =
      let (m, p, q) =
        >>=-eq-ok (history_round job history_start x) (λ m. history_rounds job m es) h in
      let (r, f, i, d, z, e) = first_round-History job m x p in
      let y =
        rounds-Extends job (x ∷ []) es r x.sequence (history_event x ∷ []) l f i d (rw e at q) in
      record {
        final = y.final;
        history = y.history;
        last = y.last;
        numbered = (z, y.numbered);
        same_id = y.same_id ∙ i;
        same_digest = y.same_digest ∙ d;
      }

  replay_projects :
      (job : SealedJob) (es : List LedgerEntry)
      → IsReplay job es
      → history_projection job es ≡ ok (projection_of job es)
  unfolding history_projection
  replay_projects job [] h = absurd (omega (arith, (History-Account h.history).entries))
  replay_projects job (x ∷ es) h =
      let (n, e, _) = History-rounds job h.last h.history h.same_id h.same_digest h.numbered in
      rw e refl

  -- The history of a job is projected exactly if its ledger is a history of a record of the job,
  -- from the pending record on by accepted events, with rising numbers; and then the projection
  -- lists every entry in its order.
  pub history_projection_iff :
      (job : SealedJob) (es : List LedgerEntry) (v : HistoryProjection)
      → (history_projection job es ≡ ok v) ↔ (IsReplay job es × (v ≡ projection_of job es))
  unfolding history_projection
  history_projection_iff job [] v =
      (λ h. cc, λ (h, e). absurd (omega (arith, (History-Account h.history).entries)))
  history_projection_iff job (x ∷ es) v = (
    λ h.
        let (l, p, q) = >>=-eq-ok (history_rounds job history_start (x ∷ es)) _ h in
        let y = rounds-IsReplay job es l x p in (y, cc (h, replay_projects job (x ∷ es) y)),
    λ (h, e). rw e (replay_projects job (x ∷ es) h),
  )
