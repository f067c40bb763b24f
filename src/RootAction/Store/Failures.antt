-- ===== src/RootAction/Store/Failures.antt =====
-- What `_lineage_summary_locked` of local_fixture.py counts as technical failures.
use agent_runtime_ops.Prelude.{
  ℕ, ◌+◌, ◌≡◌, ◌≢◌, ◌<◌, ◌≤◌, ◌⊎◌, inl, inr, refl, ap, ◌∙◌, Option, String, true, List, [], ◌∷◌,
  none, some, ok, arith, Bool-cases, Option-cases, Result-cases, >>=-eq-ok, eq_iff, ◌==◌, ltb,
}
use mathlib.Core.Logic.{⊎_map}
use agent_runtime_ops.Prelude.Lists.{length}
use agent_runtime_ops.Prelude.Dict.{Dict, lookup}
use agent_runtime_ops.Time.{Datetime}
use agent_runtime_ops.RootAction.Job.{SealedJob}
use agent_runtime_ops.RootAction.Json.{contains}
use agent_runtime_ops.RootAction.State.{JobRecord, TerminalOutcome, failed, prestart_failed}
use agent_runtime_ops.RootAction.Admission.{
  LineageFailurePolicy, LineageSummary, SubmissionMetadata,
}
use agent_runtime_ops.RootAction.Store.{Store, instant_of}
use agent_runtime_ops.RootAction.Store.Lineage.{
  Tally, no_tally, may_be_technical, technical_failure, tally_record, tally_job, tally_jobs,
  lineage_summary,
}

-- A record that failed, at its start or later, for a reason that the policy lists as technical.
pub data IsTechnicalFailure (p : LineageFailurePolicy) (r : JobRecord) : Type 0 where
  technical :
      {reason : String}
      → (r.terminal_outcome ≡ some failed) ⊎ (r.terminal_outcome ≡ some prestart_failed)
      → r.reason_code ≡ some reason
      → contains reason p.technical_reason_codes ≡ true
      → IsTechnicalFailure p r

may_be_technical-cases :
    (o : TerminalOutcome) → may_be_technical o ≡ true → (o ≡ failed) ⊎ (o ≡ prestart_failed)
may_be_technical-cases failed h = inl refl
may_be_technical-cases prestart_failed h = inr refl
may_be_technical-cases o h = cc

outcome_counts :
    (p : LineageFailurePolicy) (o : Option TerminalOutcome) (r : JobRecord)
    → r.terminal_outcome ≡ o
    → technical_failure p r o ≡ true
    → IsTechnicalFailure p r
outcome_counts p none r e h = cc
outcome_counts p (some o) r e h = elim (Option-cases r.reason_code) [
  | inl n ↦ ground arith
  | inr (reason, n) ↦
      technical
        (⊎_map (λ w. e ∙ ap some w) (λ w. e ∙ ap some w) (may_be_technical-cases o (ground arith)))
        n (ground arith)
]

failure_counts :
    (p : LineageFailurePolicy) (r : JobRecord)
    → IsTechnicalFailure p r
    → technical_failure p r r.terminal_outcome ≡ true
failure_counts p r (technical (inl o) n c) = rw (o, n, c) refl
failure_counts p r (technical (inr o) n c) = rw (o, n, c) refl

module _ ⦃datetime : Datetime⦄ where
  -- The names of the jobs of the lineage that were received in the window that ends at `now`, and
  -- are technical failures, in their order.
  pub data Failures (s : Store) (p : LineageFailurePolicy) (lineage_id : String) (now : ℕ)
      : Dict SealedJob → List String → Type 0 where
    none_left : Failures s p lineage_id now [] []
    counted :
        {k : String} {job : SealedJob} {m : SubmissionMetadata} {received : ℕ} {r : JobRecord}
        {rest : Dict SealedJob} {names : List String}
        → job.lineage_id ≡ lineage_id
        → lookup k s.submissions ≡ some m
        → datetime.strptime m.broker_received_at ≡ some received
        → received ≤ now
        → now ≤ received + p.window_seconds
        → lookup k s.records ≡ some r
        → IsTechnicalFailure p r
        → Failures s p lineage_id now rest names
        → Failures s p lineage_id now ((k, job) ∷ rest) (k ∷ names)
    harmless :
        {k : String} {job : SealedJob} {r : JobRecord} {rest : Dict SealedJob} {names : List String}
        → lookup k s.records ≡ some r
        → ¬ IsTechnicalFailure p r
        → Failures s p lineage_id now rest names
        → Failures s p lineage_id now ((k, job) ∷ rest) names
    foreign :
        {k : String} {job : SealedJob} {rest : Dict SealedJob} {names : List String}
        → job.lineage_id ≢ lineage_id
        → Failures s p lineage_id now rest names
        → Failures s p lineage_id now ((k, job) ∷ rest) names
    outside :
        {k : String} {job : SealedJob} {m : SubmissionMetadata} {received : ℕ}
        {rest : Dict SealedJob} {names : List String}
        → lookup k s.submissions ≡ some m
        → datetime.strptime m.broker_received_at ≡ some received
        → (received + p.window_seconds < now) ⊎ (now < received)
        → Failures s p lineage_id now rest names
        → Failures s p lineage_id now ((k, job) ∷ rest) names

  -- One round of the loop.
  tally_job-Failures :
      (s : Store) (p : LineageFailurePolicy) (l : String) (now : ℕ) (k : String) (job : SealedJob)
      (t t' : Tally) (rest : Dict SealedJob) (names : List String)
      → Failures s p l now rest names
      → tally_job s p l now k job t ≡ ok t'
      → (names' : List String) × Failures s p l now ((k, job) ∷ rest) names'
        × (t'.technical_failure_count + length names ≡ t.technical_failure_count + length names')
  unfolding tally_job tally_record instant_of
  tally_job-Failures s p l now k job t t' rest names f h =
      elim (Option-cases (lookup k s.submissions)) [
        | inl n ↦ ground arith
        | inr (m, g) ↦ elim (Option-cases (datetime.strptime m.broker_received_at)) [
          | inl n ↦ ground arith
          | inr (received, d) ↦ elim (Bool-cases (job.lineage_id == l)) [
            | inr e ↦
                (names, foreign (λ w. ground (arith, eq_iff job.lineage_id l)) f, ground arith)
            | inl e ↦ elim (Bool-cases (ltb (received + p.window_seconds) now)) [
              | inl w ↦ (names, outside g d (inl (ground arith)) f, ground arith)
              | inr w ↦ elim (Bool-cases (ltb now received)) [
                | inl v ↦ (names, outside g d (inr (ground arith)) f, ground arith)
                | inr v ↦ elim (Option-cases (lookup k s.records)) [
                  | inl n ↦ ground arith
                  | inr (r, i) ↦ elim (Bool-cases (technical_failure p r r.terminal_outcome)) [
                    | inl c ↦ (
                      k ∷ names,
                      counted (ground (arith, eq_iff job.lineage_id l)) g d (ground arith)
                          (ground arith) i (outcome_counts p r.terminal_outcome r refl c) f,
                      ground arith,
                    )
                    | inr c ↦ (
                      names,
                      harmless i (λ w. let q = failure_counts p r w in cc) f,
                      ground arith,
                    )
                  ]
                ]
              ]
            ]
          ]
        ]
      ]

  tally_jobs-Failures :
      (s : Store) (p : LineageFailurePolicy) (l : String) (now : ℕ) (jobs : Dict SealedJob)
      (t t' : Tally)
      → tally_jobs s p l now jobs t ≡ ok t'
      → (names : List String) × Failures s p l now jobs names
        × (t'.technical_failure_count ≡ t.technical_failure_count + length names)
  unfolding tally_jobs
  tally_jobs-Failures s p l now [] t t' h = ([], none_left, ground arith)
  tally_jobs-Failures s p l now ((k, job) ∷ jobs) t t' h =
      let (u, e, g) = >>=-eq-ok (tally_job s p l now k job t) _ h in
      let (names, f, c) = tally_jobs-Failures s p l now jobs u t' g in
      let (names', f', c') = tally_job-Failures s p l now k job t u jobs names f e in
      (names', f', omega (arith, c, c'))

  -- The summary's count of technical failures is the number of those that the store holds.
  pub record Measured (s : Store) (p : LineageFailurePolicy) (lineage_id measured_at : String)
      (count : ℕ) : Type 0 where
    pub now : ℕ
    pub instant : datetime.strptime measured_at ≡ some now
    pub names : List String
    pub failures : Failures s p lineage_id now s.jobs names
    pub counted : length names ≡ count

  pub lineage_summary-Measured :
      (s : Store) (l at : String) (p : LineageFailurePolicy) (y : LineageSummary)
      → lineage_summary s l at p ≡ ok y
      → Measured s p l at y.technical_failure_count
  unfolding lineage_summary instant_of
  lineage_summary-Measured s l at p y h = elim (Option-cases (datetime.strptime at)) [
    | inl n ↦ ground arith
    | inr (now, e) ↦ elim (Result-cases (tally_jobs s p l now s.jobs no_tally)) [
      | inr (z, x) ↦ ground arith
      | inl (t, x) ↦
          (let (names, f, c) = tally_jobs-Failures s p l now s.jobs no_tally t x in
            record {
              now = now;
              instant = e;
              names = names;
              failures = f;
              counted = ground (arith, c);
            })
    ]
  ]
