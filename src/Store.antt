-- ===== src/Store.antt =====
-- The durable store of leases: src/automation/store, its capacity reservations for now.
pub mod Tables
pub mod Ids
pub mod Schema
pub mod Slots
pub mod Graph
pub mod Capacity
pub mod Release
pub mod Columns
pub mod FreeSlot
pub mod Plan
pub mod Reserve
pub mod ClaimRows
pub mod Claimed
pub mod Released
pub mod Resolved
pub mod RoundTrip
