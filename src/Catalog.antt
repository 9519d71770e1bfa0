-- ===== src/Catalog.antt =====
-- pkg/catalog: the tables of a database and the extents that hold their rows.
pub mod State
pub mod Ops
pub mod ExtentId
pub mod Discover
pub mod Tables
pub mod Fresh
pub mod Hex
pub mod Rows
pub mod Merge
pub mod Names
pub mod Counts
pub mod Session
