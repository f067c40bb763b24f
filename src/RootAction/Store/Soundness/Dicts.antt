-- ===== src/RootAction/Store/Soundness/Dicts.antt =====
-- The parts of the invariant under a write to one key.
use agent_runtime_ops.Prelude.{
  ◌≡◌, ◌∙◌, ◌⊎◌, String, List, none, some, false, inl, inr, Bool-cases, ◌==◌, eq_iff, arith,
}
use agent_runtime_ops.Prelude.Dict.{Dict, lookup, put, lookup-put}
use agent_runtime_ops.Time.{Datetime}
use agent_runtime_ops.RootAction.Job.{SealedJob}
use agent_runtime_ops.RootAction.Receipts.{ReceiptArtifact}
use agent_runtime_ops.RootAction.State.{JobRecord}
use agent_runtime_ops.RootAction.Admission.{LedgerEntry}
use agent_runtime_ops.RootAction.Store.History.{History}
use agent_runtime_ops.RootAction.Store.Soundness.{Ledgers, Sealed, Records, Published}

-- A later dictionary keeps what an earlier one holds.
abbrev pub Extends {ℓ} : {V : Type ℓ} → Dict V → Dict V → Type ℓ
Extends {V} d d' = (k : String) (v : V) → lookup k d ≡ some v → lookup k d' ≡ some v

module _ {V : Type 0} where
  pub lookup-put_self : (k : String) (v : V) (d : Dict V) → lookup k (put k v d) ≡ some v
  lookup-put_self k v d = ground (arith, lookup-put k k v d, eq_iff k k)

  pub lookup-put_ne :
      (k j : String) (v : V) (d : Dict V) → (k == j) ≡ false → lookup j (put k v d) ≡ lookup j d
  lookup-put_ne k j v d h = ground (arith, lookup-put k j v d)

  -- What a key holds after a write: the value written, or what it held.
  pub lookup-put_inv :
      (k j : String) (v w : V) (d : Dict V)
      → lookup j (put k v d) ≡ some w
      → (k ≡ j) × (v ≡ w) ⊎ ((k == j) ≡ false) × (lookup j d ≡ some w)
  lookup-put_inv k j v w d h = elim (Bool-cases (k == j)) [
    | inl e ↦ inl (ground (arith, eq_iff k j), ground (arith, lookup-put k j v d))
    | inr e ↦ inr (e, ground (arith, lookup-put k j v d))
  ]

  pub Extends-put : (k : String) (v : V) (d : Dict V) → lookup k d ≡ none → Extends d (put k v d)
  Extends-put k v d h j w e = ground (arith, lookup-put k j v d, eq_iff k j)

module _ ⦃datetime : Datetime⦄ where
  pub Ledgers-put :
      {records : Dict JobRecord} {ledger : Dict (List LedgerEntry)} (k : String)
      (es : List LedgerEntry) (r : JobRecord)
      → Ledgers records ledger
      → r.job_id ≡ k
      → History es r
      → Ledgers (put k r records) (put k es ledger)
  Ledgers-put {records} {ledger} k es r old named h = record {
    tracked = λ j fs e. elim (lookup-put_inv k j es fs ledger e) [
      | inl (p, q) ↦
          rw (← p, ← q)
            (record {
              current = r;
              found = lookup-put_self k r records;
              named = named;
              history = h;
            })
      | inr (p, q) ↦
          (let t = old.tracked j fs q in
            record {
              current = t.current;
              found = lookup-put_ne k j r records p ∙ t.found;
              named = t.named;
              history = t.history;
            })
    ];
  }

  -- A record may be added before its ledger.
  pub Ledgers-fresh :
      {records : Dict JobRecord} {ledger : Dict (List LedgerEntry)} (k : String) (r : JobRecord)
      → Ledgers records ledger
      → lookup k records ≡ none
      → Ledgers (put k r records) ledger
  Ledgers-fresh {records} k r old fresh = record {
    tracked = λ j fs e.
        let t = old.tracked j fs e in
        record {
          current = t.current;
          found = Extends-put k r records fresh j t.current t.found;
          named = t.named;
          history = t.history;
        };
  }

pub Records-put :
    {jobs : Dict SealedJob} {records : Dict JobRecord} (k : String) (r : JobRecord)
    → Records jobs records
    → Sealed k r jobs
    → Records jobs (put k r records)
Records-put {jobs} {records} k r old new = record {
  sealed = λ j q e. elim (lookup-put_inv k j r q records e) [
    | inl (p, x) ↦ rw (← p, ← x) new
    | inr (p, x) ↦ old.sealed j q x
  ];
}

pub Records-jobs :
    {jobs jobs' : Dict SealedJob} {records : Dict JobRecord}
    → Extends jobs jobs'
    → Records jobs records
    → Records jobs' records
Records-jobs more old = record {
  sealed = λ j r e.
      let t = old.sealed j r e in
      record {
        job = t.job;
        found = more j t.job t.found;
        same_digest = t.same_digest;
        named = t.named;
      };
}

pub Published-put :
    {jobs : Dict SealedJob} {receipts : Dict ReceiptArtifact} (k : String) (a : ReceiptArtifact)
    (job : SealedJob)
    → Published jobs receipts
    → lookup k jobs ≡ some job
    → Published jobs (put k a receipts)
Published-put {jobs} {receipts} k a job old new = record {
  job_of = λ j b e. elim (lookup-put_inv k j a b receipts e) [
    | inl (p, x) ↦ (job, rw (← p) new)
    | inr (p, x) ↦ old.job_of j b x
  ];
}

pub Published-jobs :
    {jobs jobs' : Dict SealedJob} {receipts : Dict ReceiptArtifact}
    → Extends jobs jobs'
    → Published jobs receipts
    → Published jobs' receipts
Published-jobs more old = record {
  job_of = λ j b e. let (job, f) = old.job_of j b e in (job, more j job f);
}
