-- ===== src/Tests.antt =====
-- Runs of the definitions at concrete inputs, and the theorems applied at such inputs.
pub mod Bin
pub mod Catalog
pub mod Components
pub mod DistinctSet
pub mod Functions
pub mod Gql
pub mod Graph
pub mod Ipv4
pub mod Join
pub mod Merge
pub mod Types
pub mod Sort
pub mod Strings
pub mod Union
pub mod Plain
pub mod Window
pub mod Rewrite
pub mod Timespan
