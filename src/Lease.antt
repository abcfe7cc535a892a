-- ===== src/Lease.antt =====
-- The pure identity-lease domain of src/automation/lease.rs and src/automation/lease.
pub mod Error
pub mod Clock
pub mod Replay
pub mod State
pub mod Checks
pub mod Operations
pub mod Renewal
pub mod Activation
pub mod History
pub mod Move
pub mod Moves
pub mod Authority
pub mod SignedLifetime
pub mod Invariant
pub mod Lifecycle
pub mod SignedHistory
pub mod Control
pub mod Fencing
pub mod PublicErrors
pub mod ReplayLaws
pub mod Launch
pub mod Issue
pub mod Snapshot
pub mod Restore
pub mod Recovery
pub mod Process
pub mod Deadlines
pub mod WireTime
