-- ===== src/RootAction/Projection/Rounds.antt =====
-- The loop of `history_projection` of projection.py runs through the history of a record.
use agent_runtime_ops.Prelude.{
  ℕ, ◌≤◌, ◌<◌, ◌≡◌, refl, ◌∙◌, inl, inr, List, [], ◌∷◌, ◌++◌, map, some, arith, ok, ◌>>=◌,
  Result-cases, eq_iff,
}
use mathlib.Core.List.{map-append}
use agent_runtime_ops.Time.{Datetime}
use agent_runtime_ops.RootAction.Job.{SealedJob}
use agent_runtime_ops.RootAction.State.{pending, JobRecord, TransitionEvent, apply_transition}
use agent_runtime_ops.RootAction.State.Spec.{IsValid}
use agent_runtime_ops.RootAction.State.Agreement.{apply_transition_iff}
use agent_runtime_ops.RootAction.Admission.{LedgerEntry}
use agent_runtime_ops.RootAction.Store.{pending_entry, transition_entry}
use agent_runtime_ops.RootAction.Store.History.{History, start, step}
use agent_runtime_ops.RootAction.Projection.{
  HistoryEvent, HistoryLoop, history_start, history_event, first_record, next_history_record,
  history_round, history_rounds,
}
use agent_runtime_ops.RootAction.Store.Numbered.{Numbered, Numbered-init}
use agent_runtime_ops.RootAction.Projection.Entries.{
  initial_record_self, later_record-transition_entry,
}

module _ ⦃datetime : Datetime⦄ where
  history_rounds-append :
      (job : SealedJob) (l : HistoryLoop) (es fs : List LedgerEntry)
      → history_rounds job l (es ++ fs) ≡ (history_rounds job l es >>= λ m. history_rounds job m fs)
  unfolding history_rounds
  history_rounds-append job l [] fs = refl
  history_rounds-append job l (x ∷ es) fs = elim (Result-cases (history_round job l x)) [
    | inl (m, p) ↦ rw p (history_rounds-append job m es fs)
    | inr (z, p) ↦ rw p refl
  ]

  -- The loop after the entries of a history.
  abbrev pub loop_after : List LedgerEntry → ℕ → JobRecord → HistoryLoop
  loop_after es n r = record {
    prior_sequence = n;
    prior_record = some r;
    projected = map history_event es;
  }

  first_round :
      (job : SealedJob) (r : JobRecord) (n : ℕ)
      → IsValid r
      → r.state ≡ pending
      → r.revision ≡ 0
      → r.job_id ≡ job.job_id
      → r.job_digest ≡ job.job_digest
      → 0 < n
      → history_round job history_start (pending_entry n r)
        ≡ ok (loop_after (pending_entry n r ∷ []) n r)
  unfolding history_round next_history_record first_record
  first_round job r n v p z i d h = ground (
    arith,
    initial_record_self job r v p z i d,
    eq_iff r.job_id job.job_id,
    eq_iff r.job_digest job.job_digest,
  )

  later_round :
      (job : SealedJob) (r u : JobRecord) (e : TransitionEvent) (n m : ℕ) (ps : List HistoryEvent)
      → apply_transition r e ≡ ok u
      → r.job_id ≡ job.job_id
      → r.job_digest ≡ job.job_digest
      → m < n
      → history_round job
          (record { prior_sequence = m; prior_record = some r; projected = ps })
          (transition_entry n r e u)
        ≡ ok (record {
          prior_sequence = n;
          prior_record = some u;
          projected = ps ++ history_event (transition_entry n r e u) ∷ [];
        })
  unfolding history_round next_history_record
  later_round job r u e n m ps a i d h =
      let c = (apply_transition_iff r e u).0 a in
      ground (
        arith,
        later_record-transition_entry n r u e a,
        c.same_id,
        c.same_digest,
        eq_iff e.job_id job.job_id,
        eq_iff e.job_digest job.job_digest,
      )

  -- The loop runs through a history, and ends with its record.
  pub History-rounds :
      {es : List LedgerEntry} {r : JobRecord} (job : SealedJob) (b : ℕ)
      → History es r
      → r.job_id ≡ job.job_id
      → r.job_digest ≡ job.job_digest
      → Numbered 0 es b
      → (n : ℕ) × (history_rounds job history_start es ≡ ok (loop_after es n r)) × (n ≤ b)
  unfolding history_rounds
  History-rounds job b (start {es = es} {r = r} n v p z q) i d k =
      let (lo, hi) : Numbered 0 (pending_entry n r ∷ []) b = rw q at k in
      (n, rw q (rw (first_round job r n v p z i d lo) refl), hi)
  History-rounds job b (step {es = es} {fs = fs} {r = r} {u = u} n e h a q) i d k =
      let g = (apply_transition_iff r e u).0 a in
      let (c, before, lo, hi) = Numbered-init 0 b es (transition_entry n r e u) (rw q at k) in
      let same_id : r.job_id ≡ job.job_id = ground (arith, g.result) in
      let same_digest : r.job_digest ≡ job.job_digest = ground (arith, g.result) in
      let (m, done, le) = History-rounds job c h same_id same_digest before in
      (
        n,
        rw q (
            history_rounds-append job history_start es (transition_entry n r e u ∷ [])
            ∙ rw done (
                rw
                  (later_round job r u e n m (map history_event es) a same_id same_digest
                    (omega arith))
                  (rw map-append))),
        hi,
      )
