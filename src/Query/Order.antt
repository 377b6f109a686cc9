-- ===== src/Query/Order.antt =====
-- The order in which clauses are run: `orderQueryClauses` of go/query.go, and the variables of clauses.
pub mod Reordered
use Prim.Native.Char.{code}
use Prim.Native.String.{String}
use text.Mathlib.Text.{◌==◌ as str_eq}
use fgraph.Base.{
  ℕ, zero, suc, Bool, true, false, not, ◌&&◌, ◌||◌, List, [], ◌∷◌, ◌++◌, map, Option, none, some,
  ◌==◌, leb, any, all, keep, length, if◌then◌else◌,
}
use fgraph.Query.Values.{
  Json, string, array, object, Items, nil, cons, Fields, end, field, items_of, Binding, is_bound,
}
use fgraph.Query.Terms.{is_variable}

-- `bound[name]` of a set of names
unfoldable pub has_name : List String → String → Bool
has_name names name = any (str_eq name) names

-- `isPredicateOperator`
unfoldable pub is_operator : Json → Bool
unfolding has_name
is_operator (string s) =
    has_name ("=" ∷ "!=" ∷ "<" ∷ "<=" ∷ ">" ∷ ">=" ∷ "contains" ∷ "starts-with" ∷ []) s
is_operator _ = false

-- `isPredicateClause`
unfoldable pub is_predicate : List Json → Bool
unfolding is_operator
is_predicate (op ∷ _ ∷ _ ∷ []) = is_operator op
is_predicate _ = false

-- `isPatternClause` of a clause that is an array
unfoldable pub is_pattern : Json → Bool
unfolding is_predicate items_of
is_pattern (array items) =
    leb 3 (length (items_of items))
    && leb (length (items_of items)) 5
    && not (is_predicate (items_of items))
is_pattern _ = false

-- `visit` of `clauseVariables`: the variables anywhere in a value, with repetition
unfoldable mutual
  unfolding is_variable

  pub variables_of : Json → List String
  variables_of (string s) = if is_variable s then s ∷ [] else []
  variables_of (array items) = item_variables items
  variables_of (object fields) = field_variables fields
  variables_of _ = []

  pub item_variables : Items → List String
  item_variables nil = []
  item_variables (cons x rest) = variables_of x ++ item_variables rest

  pub field_variables : Fields → List String
  field_variables end = []
  field_variables (field _ x rest) = variables_of x ++ field_variables rest

-- `clauseVariables`, of which only the set is used
unfoldable pub clause_variables : List Json → List String
unfolding variables_of
clause_variables [] = []
clause_variables (c ∷ rest) = variables_of c ++ clause_variables rest

-- `initialBindingNames`: the variables that every binding has
unfoldable pub initial_names : List Binding → List String
unfolding is_bound
initial_names [] = []
initial_names (values ∷ rest) =
    keep (λ name. all (λ other. is_bound other name) rest) (map (λ entry. entry.0) values)

-- `termPlannedBound`
unfoldable pub planned_bound : List String → Json → Bool
unfolding is_variable has_name
planned_bound bound (string s) = str_eq s "_" || not (is_variable s) || has_name bound s
planned_bound bound _ = true

-- `patternAccessRank` from which of the terms are bound
unfoldable pub rank_of : Bool → Bool → Bool → ℕ
rank_of true true _ = 0
rank_of false true true = 1
rank_of true false _ = 2
rank_of false true false = 3
rank_of false false true = 4
rank_of false false false = 5

unfoldable pub access_rank : List String → List Json → ℕ
unfolding planned_bound rank_of
access_rank bound (entity ∷ attr ∷ term ∷ _) =
    rank_of (planned_bound bound entity) (planned_bound bound attr) (planned_bound bound term)
access_rank bound _ = 5

unfoldable pub clause_rank : List String → Json → ℕ
unfolding access_rank items_of
clause_rank bound (array items) = access_rank bound (items_of items)
clause_rank bound _ = 5

-- the first clause of the least rank, and the block without it
unfoldable pub choose_clause : List String → Json → List Json → Json × List Json
unfolding clause_rank
choose_clause bound c [] = (c, [])
choose_clause bound c (d ∷ rest) =
    let later = choose_clause bound d rest in
    if leb (clause_rank bound c) (clause_rank bound later.0)
    then (c, d ∷ rest)
    else (later.0, c ∷ later.1)

-- a block of as many patterns as the first argument, the best next
unfoldable pub order_block : ℕ → List String → List Json → List Json
unfolding choose_clause variables_of
order_block zero bound block = block
order_block (suc n) bound [] = []
order_block (suc n) bound (c ∷ rest) =
    let chosen = choose_clause bound c rest in
    chosen.0 ∷ order_block n (variables_of chosen.0 ++ bound) chosen.1

-- the variables that a clause that is no pattern binds
unfoldable pub barrier_variables : Json → List String
unfolding clause_variables items_of
barrier_variables (object (field name (array items) end)) =
    if str_eq name "not" then [] else clause_variables (items_of items)
barrier_variables _ = []

-- `orderQueryClauses` after the patterns of an open block
unfoldable pub order_from : List String → List Json → List Json → List Json
unfolding is_pattern order_block barrier_variables clause_variables
order_from bound block [] = order_block (length block) bound block
order_from bound block (c ∷ rest) = elim (is_pattern c) [
  | true ↦ order_from bound (block ++ c ∷ []) rest
  | false ↦
      order_block (length block) bound block
      ++ c ∷ order_from (barrier_variables c ++ clause_variables block ++ bound) [] rest
]

unfoldable pub order_clauses : List String → List Json → List Json
unfolding order_from
order_clauses bound clauses = order_from bound [] clauses
