-- ===== src/Document.antt =====
-- services/document-service: the documents of an SPD.
pub mod Ooxml
pub mod Repo
pub mod Handler
pub mod Made
pub mod Failed
pub mod Markup
pub mod Tests
