-- ===== src/Domain.antt =====
-- src/domain.rs: the core item types and business rules.
pub mod Identifier
pub mod Item
pub mod Lifecycle
pub mod Triage
pub mod Mutation
pub mod View
