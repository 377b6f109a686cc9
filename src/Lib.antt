-- ===== src/Lib.antt =====
-- A model of fgraph, a graph database of facts in one SQLite file, after its Go implementation (go/).
--
-- A fact is an entity, an attribute and a value, with the transaction that asserted it and the one
-- that retracted it. A call of `transactOn` (go/transact.go) looks for the receipt of an earlier call
-- under its operation id, checks the basis that it was made for, plans what its data asserts and
-- retracts, compares the plan with the live facts (`diffPlan`), gives back the identities that the
-- result does not use (`compactPendingAllocations`), and writes the rest as one event.
--
-- The parts, in the order in which they use one another:
--   Base        lists, tests, sorting, and the kinds of failure of go/errors.go with their results
--   Value       tags, storage classes and stored values (go/types.go, go/value.go) and the equality
--               of values (`storageEqual`, `storageKey` of go/transact.go)
--   Fact        rows of facts, and which are visible at a transaction (`visibility` of go/read.go)
--   Identity    the allocator of identities (go/store.go)
--   Schema      schemas of attributes read from facts (`applySchemaFact`)
--   Plan        plans and their isolation (`validateCASIsolation`); Plan/Reading has the rows and
--               the schemas that a plan reads (`workingFactsForPlan`, `schemaForPlan`)
--   Diff        `diffPlan`: the loop over a plan's operations, with its maps as lists
--   Store       the tables, and the statements by which a transaction changes them
--   Compaction  `compactPendingAllocations`
--   Ledger      `transactOn`, with the receipts of go/event.go and `finalize` of go/store.go
--   Text        hexadecimal, UUIDs and JSON strings (go/event.go, go/apply.go, go/value.go)
--   Temporal    views in time and differences of views (go/temporal.go), `nextTimestamp`
--   Declare     the check of a declared attribute (`validateFinalAttribute`)
--   Query       the query engine (go/query.go): Query/Values has cells and bindings, Query/Eval steps
--               that spend from a budget, Query/Engine what an evaluator holds, Query/Terms and
--               Query/Rows the terms of a pattern and the rows that it reads, Query/Patterns
--               `evalPattern` with its two ways of reading, Query/Predicates `evalPredicate`,
--               Query/Order `orderQueryClauses`, Query/Clauses `evalClauses`, Query/Rules
--               `deriveRelation`, Query/Checks `validateClauseSequence` and `parseRules`,
--               with Query/Checks/Sound, which compares the check with the evaluation
--   Tests       the theorems at concrete inputs
--
-- Conventions. Identities, transactions and row ids are natural numbers: the program keeps them from
-- 1 on, and the allocator stops before 2^63 - 1. Stored integers are ℤ. Floats are their 64 bits;
-- bytes and characters are numbers. A Go map is a list that holds each key once, and a loop over it
-- goes in the list's order. An error is its kind, without its message. A query of the database is a
-- function of the tables; a UNIQUE column or index, and the constraint that a row ends after it
-- starts, are tests before the row is written; and a failed call leaves the tables as they were,
-- since the program rolls its SQL transaction back.
--
-- Every loop is over a list, save two recursions of the query engine, which run on fuel.
-- `eval_clauses` has one more unit of fuel than its clauses have arrays and objects in all, which is
-- more than the depth of any list of clauses in them. `derive_relation` makes as many passes as its
-- budget allows work, and two more: a pass that adds a tuple spends work, unless it adds the empty
-- tuple, which it does once.
-- `chunks` and `order_block` count down from the length of their lists, of which each round takes at
-- least one member.
--
-- A query's values are plain JSON, with the objects of one field that the engine reads, and a step
-- of the engine takes the work done so far and gives the work after it. A binding is a list of
-- variables with their cells, of which the first counts. Two bindings are the same where the program
-- gives them one key. The engine takes from the rest of the program the logical value of a row, the
-- column of a cell, the value of a constant, the resolver of entities and the pattern of attribute
-- names, as fields of `Codec`. Queries are not canceled.
--
-- Not modelled: how data becomes a plan, with the checks of its names and declarations as a whole,
-- the clock, random UUIDs, the check of shapes, the digest of an event and the failures of
-- `renderRaw`: a call of `transactOn` takes them as fields of `Ledger.Environment`. SQL errors,
-- contexts and locks, which are the driver's; what reports look like when they are rendered; of
-- queries, their parsing, the order in which relations are built, projection, aggregates and pull;
-- searches, imports, snapshots, the command line and the MCP server.
pub mod Base
pub mod Value
pub mod Fact
pub mod Identity
pub mod Schema
pub mod Plan
pub mod Diff
pub mod Store
pub mod Compaction
pub mod Ledger
pub mod Text
pub mod Temporal
pub mod Declare
pub mod Query
pub mod Tests
