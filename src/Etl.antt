-- ===== src/Etl.antt =====
-- tools/etl/main.go: the migration of the files of the old system into the database.
pub mod Csv
pub mod Field
pub mod Load
pub mod Org
pub mod Money
pub mod Flow
pub mod Run
pub mod Kept
pub mod Settled
pub mod Repeat
pub mod Decoders
pub mod Laws
pub mod Again
pub mod Bumps
pub mod Sequences
pub mod Tests
