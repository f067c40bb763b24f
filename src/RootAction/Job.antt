-- ===== src/RootAction/Job.antt =====
-- The sealed job of opsctl/agent_runtime_ops/root_actions/contracts.py.
use agent_runtime_ops.Prelude.{ℕ, String, List}
use agent_runtime_ops.Prelude.Int.{ℤ}

-- `bytes`
abbrev pub Bytes : Type 0
Bytes = List ℕ

pub record SealedJob : Type 0 where
  pub job_id : String
  pub job_digest : String
  pub operation_id : String
  pub operation_version : ℤ
  pub request_id : String
  pub lineage_id : String
  pub reply_target : String
  pub submitted_at : String
  pub canonical_manifest : Bytes
