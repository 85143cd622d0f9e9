-- ===== src/Application.antt =====
-- src/application.rs and src/application/: use cases and their rules.
pub mod Authorize
pub mod Request
pub mod Payload
pub mod Sha256
pub mod UseCases
pub mod Listing
pub mod ReadSemantics
pub mod Fingerprint
pub mod Reads
pub mod Projections
pub mod History
pub mod Cursors
