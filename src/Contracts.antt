-- ===== src/Contracts.antt =====
-- The versioned wire contracts of local automation clients: src/automation/contracts.
pub mod Types
pub mod Identifiers
pub mod Temporal
pub mod TimestampShape
pub mod Integer
pub mod IntegerLaws
pub mod IntegerReads
pub mod IntegerScales
pub mod IntegerWritten
pub mod IntegerExact
pub mod IntegerText
pub mod Sha256
pub mod Sha256Laws
pub mod Authorization
pub mod Request
pub mod Admission
pub mod ErrorContract
pub mod Response
pub mod Readiness
pub mod ReadinessReport
pub mod ReadyReports
