-- ===== src/Examples.antt =====
-- Concrete runs of the model, at which the theorems are applied.
pub mod Crates
pub mod Data
pub mod Authority
pub mod Contracts
pub mod Policy
pub mod Lease
pub mod Resolver
pub mod Snapshot
pub mod Deadlines
pub mod WireTime
pub mod Shell
pub mod Readiness
pub mod Model
pub mod Store
