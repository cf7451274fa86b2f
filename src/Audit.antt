-- ===== src/Audit.antt =====
-- The audit chain: internal/audit, and the pruning of it by internal/retention.
pub mod Record
pub mod Digest
pub mod Verify
pub mod Mirror
pub mod Database
pub mod Tamper
pub mod Log
pub mod Assess
pub mod Tests
