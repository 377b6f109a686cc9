-- ===== src/Query.antt =====
-- The query engine of go/query.go: values and bindings, the rows that a pattern reads, the clauses,
-- their order, the rules, and the check of variables before a query runs.
pub mod Values
pub mod Eval
pub mod Engine
pub mod Terms
pub mod Rows
pub mod Patterns
pub mod Order
pub mod Predicates
pub mod Clauses
pub mod Rules
pub mod Checks
