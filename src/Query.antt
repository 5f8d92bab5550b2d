-- ===== src/Query.antt =====
-- The query engine (src/query): the filter AST to SQL.
pub mod Json
pub mod Platform
pub mod Whole
pub mod Sql
pub mod Escaping
pub mod Columns
pub mod Predicate
pub mod Filter
pub mod Safe
pub mod Promoted
pub mod Examples
