-- ===== src/Audit.antt =====
-- services/audit-service: the audit trail.
pub mod Itoa
pub mod Repo
pub mod Query
pub mod Handler
pub mod Filter
pub mod Select
pub mod View
pub mod Tests
