-- ===== src/Engine.antt =====
-- pkg/engine: operators over rows.
pub mod Sort
pub mod Window
pub mod Rewrite
pub mod Join
pub mod DistinctSet
pub mod Strings
pub mod Union
pub mod Wildcards
