-- ===== src/Query/Clauses.antt =====
-- Clauses (`evalClauses` of go/query.go). A clause may hold lists of clauses; the evaluator of those
-- is an argument of each step, and `run_clauses` ties the knot.
pub mod Equation
pub mod Congruence
pub mod Budget
pub mod Grows
pub mod Meaning
use Prim.Native.String.{String}
use package.text.Mathlib.Text.{◌==◌ as str_eq}
use fgraph.Base.{
  ℕ, zero, suc, Bool, true, false, not, ◌&&◌, List, [], ◌∷◌, ◌++◌, Option, none, some, ◌==◌, any,
  all, length, ◌+◌, if◌then◌else◌, Result, ok, fail, query_error,
}
use fgraph.Value.{Tag, tag_eq}
use fgraph.Query.Values.{
  Json, string, array, object, Items, nil, cons, Fields, end, field, items_of, Cell, Binding,
  is_bound, distinct_bindings,
}
use fgraph.Query.Eval.{Eval, ◌>>=◌, done, lift, spend, collect}
use fgraph.Query.Engine.{Engine, RuleDef, find_name}
use fgraph.Query.Terms.{match_terms}
use fgraph.Query.Patterns.{to_list, eval_pattern}
use fgraph.Query.Order.{is_predicate, clause_variables, initial_names, order_clauses}
use fgraph.Query.Predicates.{eval_predicate}

-- what `evalClauses` is: clauses and bindings to bindings
abbrev pub Evaluator : Type 0
Evaluator = List Json → List Binding → Eval (List Binding)

-- an outer binding has one of the variables
unfoldable pub is_correlated : List String → Binding → Bool
unfolding is_bound
is_correlated variables values = any (is_bound values) variables

-- one binding of `evalNot`
unfoldable pub keep_unmatched : Evaluator → List Json → Binding → Eval (List Binding)
keep_unmatched rec clauses values = do
  matches ← rec clauses (values ∷ [])
  done (elim matches [ [] ↦ values ∷ [] | _ ↦ [] ])

-- `evalNot`
unfoldable pub eval_not : Evaluator → List Json → List Binding → Eval (List Binding)
unfolding is_correlated clause_variables keep_unmatched collect
eval_not rec clauses input =
    if all (is_correlated (clause_variables clauses)) input
    then collect (keep_unmatched rec clauses) input
    else lift (fail query_error)

-- one branch of `evalOr`
unfoldable pub eval_branch : Evaluator → List Binding → Json → Eval (List Binding)
unfolding items_of
eval_branch rec input (array clauses) = rec (items_of clauses) input
eval_branch rec input _ = lift (fail query_error)

-- `evalOr`
unfoldable pub eval_or : Evaluator → List Json → List Binding → Eval (List Binding)
unfolding eval_branch collect distinct_bindings
eval_or rec [] input = lift (fail query_error)
eval_or rec (branch ∷ branches) input = do
  found ← collect (eval_branch rec input) (branch ∷ branches)
  done (distinct_bindings found)

-- a cell of a tuple is an entity if it is a reference
unfoldable pub tuple_cells : List Cell → List (Cell × Bool)
unfolding tag_eq
tuple_cells [] = []
tuple_cells (c ∷ rest) = (c, tag_eq c.tag Tag.ref) ∷ tuple_cells rest

-- one tuple of `evalRule`
unfoldable pub match_tuple : Engine → List Json → Binding → List Cell → Eval (List Binding)
unfolding spend match_terms tuple_cells
match_tuple e terms values tuple = do
  _ ← spend e.budget
  matched ← lift (match_terms e terms (tuple_cells tuple) values)
  done (to_list matched)

-- `e.relations[name]`, which is empty where it is missing
unfoldable pub relation_of : Engine → String → List (List Cell)
unfolding find_name
relation_of e name = elim (find_name e.relations name) [ none ↦ [] | some rows ↦ rows ]

-- the rule has that many arguments
unfoldable pub has_arity : Option (List RuleDef) → ℕ → Bool
has_arity (some (definition ∷ _)) n = n == length definition.args
has_arity _ n = false

-- `evalRule`
unfoldable pub eval_rule : Engine → List Json → List Binding → Eval (List Binding)
unfolding has_arity find_name match_tuple relation_of collect distinct_bindings
eval_rule e (string name ∷ terms) input =
    if has_arity (find_name e.rules name) (length terms)
    then (do
      found ← collect (λ values. collect (match_tuple e terms values) (relation_of e name)) input
      done (distinct_bindings found))
    else lift (fail query_error)
eval_rule e _ input = lift (fail query_error)

-- an object of one field
unfoldable pub eval_object :
    Evaluator → Engine → String → List Json → List Binding → Eval (List Binding)
unfolding eval_not eval_or eval_rule
eval_object rec e name items input =
    if str_eq name "not"
    then eval_not rec items input
    else if str_eq name "or"
    then eval_or rec items input
    else if str_eq name "rule"
    then eval_rule e items input
    else lift (fail query_error)

unfoldable pub eval_array : Engine → List Json → List Binding → Eval (List Binding)
unfolding is_predicate eval_predicate eval_pattern
eval_array e items input =
    if is_predicate items then eval_predicate e items input else eval_pattern e items input

-- one clause of `evalClauses`
unfoldable pub eval_clause : Evaluator → Engine → Json → List Binding → Eval (List Binding)
unfolding eval_array eval_object items_of
eval_clause rec e (array items) input = eval_array e (items_of items) input
eval_clause rec e (object (field name (array items) end)) input =
    eval_object rec e name (items_of items) input
eval_clause rec e _ input = lift (fail query_error)

-- no clause is run when no binding is left
unfoldable pub unless_empty :
    (List Binding → Eval (List Binding)) → List Binding → Eval (List Binding)
unless_empty next [] = done []
unless_empty next (x ∷ xs) = next (x ∷ xs)

-- the loop of `evalClauses`
unfoldable pub eval_sequence : Evaluator → Engine → List Json → List Binding → Eval (List Binding)
unfolding eval_clause unless_empty
eval_sequence rec e [] input = done input
eval_sequence rec e (c ∷ rest) input = do
  found ← eval_clause rec e c input
  unless_empty (eval_sequence rec e rest) found

unfoldable pub eval_step : Evaluator → Engine → Evaluator
unfolding eval_sequence order_clauses initial_names
eval_step rec e clauses input =
    eval_sequence rec e (order_clauses (initial_names input) clauses) input

-- `evalClauses` to a depth, below which `base` evaluates
unfoldable pub run_clauses : Evaluator → ℕ → Engine → Evaluator
unfolding eval_step
run_clauses base zero e = base
run_clauses base (suc n) e = eval_step (run_clauses base n e) e

-- the number of arrays and objects in a value
unfoldable mutual
  pub size : Json → ℕ
  size (array items) = suc (item_size items)
  size (object fields) = suc (field_size fields)
  size _ = zero

  pub item_size : Items → ℕ
  item_size nil = zero
  item_size (cons x rest) = size x + item_size rest

  pub field_size : Fields → ℕ
  field_size end = zero
  field_size (field _ x rest) = size x + field_size rest

unfoldable pub list_size : List Json → ℕ
unfolding size
list_size [] = zero
list_size (c ∷ rest) = size c + list_size rest

-- the evaluator below the depth of the clauses
abbrev pub no_evaluator : Evaluator
no_evaluator clauses input = lift (fail query_error)

-- `evalClauses`
unfoldable pub eval_clauses : Engine → Evaluator
unfolding run_clauses list_size
eval_clauses e clauses input = run_clauses no_evaluator (suc (list_size clauses)) e clauses input
