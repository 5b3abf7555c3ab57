-- ===== src/Approval.antt =====
-- services/approval-service: pending approvals, opened for submitted SPDs, and their decisions.
pub mod Repo
pub mod Handler
pub mod Decide
pub mod Tests
