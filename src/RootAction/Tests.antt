-- ===== src/RootAction/Tests.antt =====
-- Concrete jobs, events and stores, and the theorems applied to them.
pub mod Clock
pub mod Fixture
mod Machine
pub mod Stores
pub mod Rejections
mod Projections
mod Circuits
pub mod Submissions
mod Brokers
pub mod Databases
pub mod Runs
mod Approvals
mod Endings
mod Completions
