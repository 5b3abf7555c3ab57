-- ===== src/Sample.antt =====
-- Concrete values for the tests: a toy cipher that keeps the laws of an AEAD, and the like.
pub mod Cipher
pub mod Data
pub mod Counters
