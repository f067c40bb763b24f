-- ===== src/RootAction.antt =====
-- Root actions (opsctl/agent_runtime_ops/root_actions/).
pub mod Job
pub mod Json
pub mod Registry
pub mod Contracts
pub mod Observation
pub mod Receipts
pub mod State
pub mod Admission
pub mod Store
pub mod Authorization
pub mod Posix
pub mod Projection
pub mod Submission
pub mod Execution
pub mod Broker
mod Tests
