-- ===== src/Storage/Listing/Queries.antt =====
-- The WHERE clauses select the items that the queries mean.
pub mod Boundary
pub mod Filters
pub mod Members
pub mod Selection
