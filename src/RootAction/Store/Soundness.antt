-- ===== src/RootAction/Store/Soundness.antt =====
-- The invariant of the store: ledgers are histories, records and receipts belong to sealed jobs.
pub mod Dicts
pub mod Fresh
pub mod Sealing
pub mod Steps
use agent_runtime_ops.Prelude.{ℕ, ◌≡◌, String, List, some, Option}
use agent_runtime_ops.Prelude.Dict.{Dict, lookup}
use agent_runtime_ops.Time.{Datetime}
use agent_runtime_ops.RootAction.Job.{SealedJob}
use agent_runtime_ops.RootAction.Receipts.{ReceiptArtifact}
use agent_runtime_ops.RootAction.State.{JobRecord}
use agent_runtime_ops.RootAction.Admission.{LedgerEntry}
use agent_runtime_ops.RootAction.Store.{Store}
use agent_runtime_ops.RootAction.Store.History.{History}

module _ ⦃datetime : Datetime⦄ where
  -- Every ledger is the history of the record of its job.
  pub record Tracked (k : String) (es : List LedgerEntry) (records : Dict JobRecord) : Type 0 where
    pub current : JobRecord
    pub found : lookup k records ≡ some current
    pub named : current.job_id ≡ k
    pub history : History es current

  pub record Ledgers (records : Dict JobRecord) (ledger : Dict (List LedgerEntry)) : Type 0 where
    pub tracked :
        (k : String) (es : List LedgerEntry) → lookup k ledger ≡ some es → Tracked k es records

-- Every record belongs to a sealed job of its name and digest.
pub record Sealed (k : String) (r : JobRecord) (jobs : Dict SealedJob) : Type 0 where
  pub job : SealedJob
  pub found : lookup k jobs ≡ some job
  pub same_digest : job.job_digest ≡ r.job_digest
  pub named : r.job_id ≡ k

pub record Records (jobs : Dict SealedJob) (records : Dict JobRecord) : Type 0 where
  pub sealed : (k : String) (r : JobRecord) → lookup k records ≡ some r → Sealed k r jobs

-- Every public receipt belongs to a sealed job.
pub record Published (jobs : Dict SealedJob) (receipts : Dict ReceiptArtifact) : Type 0 where
  pub job_of :
      (k : String) (a : ReceiptArtifact)
      → lookup k receipts ≡ some a
      → (job : SealedJob) × (lookup k jobs ≡ some job)

module _ ⦃datetime : Datetime⦄ where
  pub record IsSound (s : Store) : Type 0 where
    pub ledgers : Ledgers s.records s.ledger
    pub records : Records s.jobs s.records
    pub published : Published s.jobs s.receipts
