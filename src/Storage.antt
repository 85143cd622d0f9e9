-- ===== src/Storage.antt =====
-- src/storage.rs and src/storage/: persistence. SQLite is modelled by what its statements do to
-- the rows of the tables.
pub mod Codec
pub mod Engine
pub mod Db
pub mod Events
pub mod Session
pub mod Mutate
pub mod Capture
pub mod Migration
pub mod Journal
pub mod Maintenance
pub mod Repositories
pub mod Listing
pub mod History
pub mod Writes
