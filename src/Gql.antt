-- ===== src/Gql.antt =====
-- pkg/gql: the translation of graph queries; its lexer.
pub mod Lexer
