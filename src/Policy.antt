-- ===== src/Policy.antt =====
-- The pure policy intersection of src/automation/policy.rs.
pub mod Types
pub mod Digest
pub mod Encoding
pub mod Preimage
pub mod Evaluate
pub mod Admission
pub mod Decision
pub mod Narrowing
pub mod FromConfig
pub mod Extraction
