-- ===== src/Query/Checks.antt =====
-- The checks before a query runs: `validateClauseSequence` and `parseRules` of go/query.go. Every
-- failure of theirs is a query error.
pub mod Parsed
pub mod Sound
use Prim.Native.String.{String}
use package.text.Mathlib.Text.{◌==◌ as str_eq}
use fgraph.Base.{
  ℕ, Bool, true, false, not, ◌&&◌, ◌||◌, List, [], ◌∷◌, ◌++◌, map, Option, none, some, ◌==◌, leb,
  any, all, keep, length, if◌then◌else◌, Result, ok, fail, query_error, reject_if, ◌>>=◌,
}
use fgraph.Query.Values.{
  Json, string, array, object, Items, nil, cons, Fields, end, field, items_of, fields_of,
}
use fgraph.Query.Engine.{RuleDef, find_name}
use fgraph.Query.Terms.{is_variable}
use fgraph.Query.Order.{has_name, is_operator, clause_variables}

-- a set of variables
abbrev pub Names : Type 0
Names = List String

-- one set has the names of the other
unfoldable pub includes : Names → Names → Bool
unfolding has_name
includes names part = all (has_name names) part

-- `reflectStrings` of two sorted sets
unfoldable pub same_names : Names → Names → Bool
unfolding includes
same_names left right = includes left right && includes right left

-- the second term of a pattern
unfoldable pub is_attribute_term : (String → Bool) → Json → Bool
unfolding is_variable
is_attribute_term is_attribute (string s) = str_eq s "_" || is_variable s || is_attribute s
is_attribute_term is_attribute _ = false

unfoldable pub check_predicate : List Json → Names → Result Names
unfolding includes clause_variables
check_predicate items bound =
    if length items == 3 && includes bound (clause_variables items)
    then ok bound
    else fail query_error

unfoldable pub check_pattern_clause : (String → Bool) → List Json → Names → Result Names
unfolding is_attribute_term clause_variables
check_pattern_clause is_attribute (entity ∷ attr ∷ term ∷ rest) bound =
    if leb (length rest) 2 && is_attribute_term is_attribute attr
    then ok (clause_variables (entity ∷ attr ∷ term ∷ rest) ++ bound)
    else fail query_error
check_pattern_clause is_attribute _ bound = fail query_error

-- a clause that is an array
unfoldable pub check_array : (String → Bool) → List Json → Names → Result Names
unfolding is_operator check_predicate check_pattern_clause
check_array is_attribute [] bound = fail query_error
check_array is_attribute (op ∷ rest) bound =
    if is_operator op
    then check_predicate (op ∷ rest) bound
    else check_pattern_clause is_attribute (op ∷ rest) bound

-- a negation, given what its clauses bind
unfoldable pub check_not : List Json → Names → Result Names → Result Names
unfolding has_name clause_variables
check_not inner bound inside =
    if any (has_name bound) (clause_variables inner)
    then (inside >>= λ _. ok bound)
    else fail query_error

-- `outward`: what a branch binds that was not bound
unfoldable pub outward_names : Names → Names → Names
unfolding has_name
outward_names bound after = keep (λ name. not (has_name bound name)) after

-- a disjunction, given what its branches bind outward
unfoldable pub join_branches : Names → List Names → Result Names
unfolding same_names
join_branches bound [] = fail query_error
join_branches bound (expected ∷ rest) =
    if all (same_names expected) rest then ok (expected ++ bound) else fail query_error

-- the invocation of a rule
unfoldable pub check_invocation : List Json → Names → Result Names
unfolding clause_variables
check_invocation (string name ∷ terms) bound = ok (clause_variables (string name ∷ terms) ++ bound)
check_invocation _ bound = fail query_error

-- an object of one field
unfoldable pub check_object :
    String → List Json → Names → Result Names → Result (List Names) → Result Names
unfolding check_not join_branches check_invocation
check_object name items bound inside branches =
    if str_eq name "not"
    then check_not items bound inside
    else if str_eq name "or"
    then (branches >>= join_branches bound)
    else if str_eq name "rule"
    then check_invocation items bound
    else fail query_error

-- `validateClauseSequence`: the variables that are bound after the clauses
unfoldable mutual
  unfolding check_array check_object items_of outward_names

  pub check_clause : (String → Bool) → Json → Names → Result Names
  check_clause is_attribute (array items) bound = check_array is_attribute (items_of items) bound
  check_clause is_attribute (object (field name (array items) end)) bound =
      check_object name (items_of items) bound (check_clauses is_attribute items bound)
        (check_branches is_attribute items bound)
  check_clause is_attribute _ bound = fail query_error

  pub check_clauses : (String → Bool) → Items → Names → Result Names
  check_clauses is_attribute nil bound = ok bound
  check_clauses is_attribute (cons c rest) bound =
      check_clause is_attribute c bound >>= check_clauses is_attribute rest

  -- what each branch of a disjunction binds outward
  pub check_branches : (String → Bool) → Items → Names → Result (List Names)
  check_branches is_attribute nil bound = ok []
  check_branches is_attribute (cons branch rest) bound =
      check_branch is_attribute branch bound >>= λ outward.
      check_branches is_attribute rest bound >>= λ others. ok (outward ∷ others)

  pub check_branch : (String → Bool) → Json → Names → Result Names
  check_branch is_attribute (array clauses) bound =
      check_clauses is_attribute clauses bound >>= λ after. ok (outward_names bound after)
  check_branch is_attribute _ bound = fail query_error

-- the rules by their names
abbrev pub Rules : Type 0
Rules = List (String × List RuleDef)

-- the arguments of a rule's head, which are variables
unfoldable pub head_args : List Json → Result (List String)
unfolding is_variable
head_args [] = ok []
head_args (string s ∷ rest) =
    if is_variable s then (head_args rest >>= λ others. ok (s ∷ others)) else fail query_error
head_args _ = fail query_error

-- `e.rules[name]`, which is empty where it is missing
unfoldable pub rules_of : Rules → String → List RuleDef
unfolding find_name
rules_of rules name = elim (find_name rules name) [ none ↦ [] | some definitions ↦ definitions ]

-- a definition has the arity of those before it
unfoldable pub fits : List RuleDef → ℕ → Bool
fits [] n = true
fits (definition ∷ _) n = length definition.args == n

-- `e.rules[name] = append(e.rules[name], ...)`: the first entry of a name counts
unfoldable pub add_rule : String → RuleDef → Rules → Rules
unfolding rules_of
add_rule name definition rules = (name, rules_of rules name ++ definition ∷ []) ∷ rules

-- a rule whose head was read
unfoldable pub parse_definition :
    (String → Bool) → Rules → String → List String → Items → Result Rules
unfolding rules_of fits check_clauses includes add_rule items_of
parse_definition is_attribute rules name args body = do
  _ ← reject_if (str_eq name "" || not (fits (rules_of rules name) (length args))) query_error
  bound ← check_clauses is_attribute body []
  _ ← reject_if (not (includes bound args)) query_error
  ok (add_rule name (record { args = args; body = items_of body }) rules)

unfoldable pub parse_head : (String → Bool) → Rules → List Json → Items → Result Rules
unfolding head_args parse_definition
parse_head is_attribute rules (string name ∷ terms) body =
    head_args terms >>= λ args. parse_definition is_attribute rules name args body
parse_head is_attribute rules _ body = fail query_error

-- one definition: an object of the fields head and body, in either order
unfoldable pub parse_rule : (String → Bool) → Rules → Json → Result Rules
unfolding parse_head items_of
parse_rule is_attribute rules (object (field first (array x) (field second (array y) end))) =
    if str_eq first "head" && str_eq second "body"
    then parse_head is_attribute rules (items_of x) y
    else if str_eq first "body" && str_eq second "head"
    then parse_head is_attribute rules (items_of y) x
    else fail query_error
parse_rule is_attribute rules _ = fail query_error

-- `parseRules`
unfoldable pub parse_rules : (String → Bool) → Rules → List Json → Result Rules
unfolding parse_rule
parse_rules is_attribute rules [] = ok rules
parse_rules is_attribute rules (item ∷ rest) =
    parse_rule is_attribute rules item >>= λ next. parse_rules is_attribute next rest
