-- ===== src/Gql.antt =====
-- crates/synaptica-gql/src: the front end of the query language.
pub mod Token
pub mod Lexer
pub mod Ast
pub mod Semantic
pub mod Planner
pub mod Optimizer
pub mod Catalog
