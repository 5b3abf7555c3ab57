-- ===== src/Reporting.antt =====
-- services/reporting-service: counts of SPDs.
pub mod Repo
pub mod Handler
pub mod Counts
pub mod Tests
