-- ===== src/Query/Rules.antt =====
-- The relation of a rule (`deriveRelation` of go/query.go): passes over its definitions until one adds
-- nothing.
pub mod Passes
pub mod Ends
pub mod Saturated
use Prim.Native.String.{String}
use fgraph.Base.{
  ℕ, zero, suc, Bool, true, false, ◌&&◌, List, [], ◌∷◌, ◌++◌, Option, none, some, ◌==◌, any, length,
  ◌+◌, if◌then◌else◌, Result, ok, fail, query_error,
}
use fgraph.Query.Values.{Cell, Binding, lookup, cells_equal}
use fgraph.Query.Eval.{Eval, ◌>>=◌, done, lift}
use fgraph.Query.Eval.Budget.{limit_of}
use fgraph.Query.Engine.{Engine, RuleDef, find_name}
use fgraph.Query.Clauses.{eval_clauses}

abbrev pub Tuple : Type 0
Tuple = List Cell

-- two tuples have one key
unfoldable pub same_tuple : Tuple → Tuple → Bool
unfolding cells_equal
same_tuple [] [] = true
same_tuple (x ∷ xs) (y ∷ ys) = cells_equal x y && same_tuple xs ys
same_tuple _ _ = false

-- the cells of the head's variables
unfoldable pub prepend_cell : Option Cell → Option Tuple → Option Tuple
prepend_cell (some c) (some rest) = some (c ∷ rest)
prepend_cell _ _ = none

unfoldable pub tuple_of : List String → Binding → Option Tuple
unfolding lookup prepend_cell
tuple_of [] values = some []
tuple_of (name ∷ rest) values = prepend_cell (lookup values name) (tuple_of rest values)

-- `seen[key]`
unfoldable pub has_tuple : List Tuple → Tuple → Bool
unfolding same_tuple
has_tuple rows tuple = any (same_tuple tuple) rows

unfoldable pub add_tuple : List Tuple → Tuple → List Tuple
unfolding has_tuple
add_tuple rows tuple = if has_tuple rows tuple then rows else rows ++ tuple ∷ []

-- the loop over the bindings
unfoldable pub add_bindings : List String → List Tuple → List Binding → Result (List Tuple)
unfolding tuple_of add_tuple
add_bindings args rows [] = ok rows
add_bindings args rows (values ∷ rest) = elim (tuple_of args values) [
  | none ↦ fail query_error
  | some tuple ↦ add_bindings args (add_tuple rows tuple) rest
]

-- `e.relations[name] = rows`
unfoldable pub with_relation : Engine → String → List Tuple → Engine
with_relation e name rows = record e { relations = (name, rows) ∷ e.relations }

unfoldable pub definitions_of : Engine → String → List RuleDef
unfolding find_name
definitions_of e name = elim (find_name e.rules name) [ none ↦ [] | some definitions ↦ definitions ]

-- one pass: the loop over the definitions
unfoldable pub run_definitions : Engine → List Tuple → List RuleDef → Eval (List Tuple)
unfolding eval_clauses add_bindings
run_definitions e rows [] = done rows
run_definitions e rows (definition ∷ rest) = do
  found ← eval_clauses e definition.body ([] ∷ [])
  added ← lift (add_bindings definition.args rows found)
  run_definitions e added rest

-- the next pass, where the last one changed something
unfoldable pub stop_if :
    Bool → (List Tuple → Eval (Option (List Tuple))) → List Tuple → Eval (Option (List Tuple))
stop_if true again next = done (some next)
stop_if false again next = again next

-- the passes, as many as the first argument at most: nothing where they do not end
unfoldable pub derive_rows : ℕ → Engine → String → List Tuple → Eval (Option (List Tuple))
unfolding run_definitions with_relation definitions_of stop_if
derive_rows zero e name rows = done none
derive_rows (suc n) e name rows = do
  next ← run_definitions (with_relation e name rows) rows (definitions_of e name)
  stop_if (length next == length rows) (derive_rows n e name) next

-- `deriveRelation`, with as many passes as the budget allows work, and two more
unfoldable pub derive_relation : Engine → String → Eval (Option (List Tuple))
unfolding derive_rows
derive_relation e name = derive_rows (limit_of e.budget + 2) e name []
