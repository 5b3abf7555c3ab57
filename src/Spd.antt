-- ===== src/Spd.antt =====
-- services/spd-service: travel orders (SPDs), written as drafts and submitted for approval.
pub mod Repo
pub mod Handler
pub mod Stored
pub mod Create
pub mod Submit
pub mod Tests
