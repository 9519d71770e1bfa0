-- ===== src/Query.antt =====
-- pkg/parser: the syntax of a query.
pub mod Expr
