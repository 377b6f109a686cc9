-- ===== src/Query/Patterns.antt =====
-- Patterns (`evalPattern` of go/query.go): row by row for each binding, or in one pass for a batch of
-- bindings whose entities are known.
pub mod Batch
pub mod Grows
pub mod Binds
use Prim.Native.String.{String}
use text.Mathlib.Text.{◌==◌ as str_eq}
use fgraph.Base.{
  ℕ, zero, suc, Bool, true, false, not, ◌&&◌, ◌||◌, List, [], ◌∷◌, ◌++◌, Option, none, some, ◌==◌,
  leb, ltb, keep, any, length, take, drop, if◌then◌else◌, sort_by, Result, ok, fail, query_error,
}
use fgraph.Value.{ℤ, pos, int_eq, Tag, tag_eq}
use fgraph.Temporal.{int_le}
use fgraph.Query.Values.{
  Json, bool, string, Cell, CellValue, Binding, lookup, is_bound, as_integer, distinct_bindings,
}
use fgraph.Query.Eval.{Eval, ◌>>=◌, done, lift, spend, collect}
use fgraph.Query.Engine.{Engine, Source, current, history, find_name}
use fgraph.Query.Terms.{Shape, wildcard, variable, constant, is_variable, shape_of, match_terms}
use fgraph.Query.Rows.{
  Datom, Filter, base_rows, make_filter, passes, in_order, entity_positions, prepare_terms,
  actual_cells,
}

abbrev pub to_list {ℓ} : {A : Type ℓ} → Option A → List A
to_list none = []
to_list (some x) = x ∷ []

-- one row of `evalIndexedPattern`
unfoldable pub read_row : Engine → List Json → Binding → Datom → Eval (List Binding)
unfolding spend actual_cells match_terms
read_row e pattern values d = do
  _ ← spend e.budget
  logical ← lift (e.codec.logical d.fact.v d.fact.t)
  matched ← lift (match_terms e pattern (actual_cells d logical) values)
  done (to_list matched)

-- `evalIndexedPattern`, with the rows that it reads in the order of their reading
unfoldable pub read_rows :
    Engine → List Json → Binding → Option (List (Option Cell)) → Eval (List Binding)
unfolding make_filter passes in_order base_rows read_row collect
read_rows e pattern values none = done []
read_rows e pattern values (some cells) = do
  wanted ← lift (make_filter e cells)
  collect (read_row e pattern values) (in_order (keep (passes wanted) (base_rows e)))

unfoldable pub eval_indexed_pattern : Engine → List Json → Binding → Eval (List Binding)
unfolding prepare_terms read_rows
eval_indexed_pattern e pattern values = do
  prepared ← lift (prepare_terms e pattern entity_positions values)
  read_rows e pattern values prepared

-- the entity that a cell refers to
unfoldable pub entity_in : Option Cell → Option ℤ
unfolding tag_eq as_integer
entity_in none = none
entity_in (some c) = if tag_eq c.tag Tag.ref then some (as_integer c.value) else none

-- the entity that a binding has for the variable
unfoldable pub entity_of : String → Binding → Option ℤ
unfolding lookup entity_in
entity_of name values = entity_in (lookup values name)

-- the entity is the number
unfoldable pub is_entity : Option ℤ → ℤ → Bool
unfolding int_eq
is_entity none id = false
is_entity (some known) id = int_eq known id

-- `entities`, in order and each once
unfoldable pub insert_entity : ℤ → List ℤ → List ℤ
unfolding int_eq int_le
insert_entity x [] = x ∷ []
insert_entity x (y ∷ ys) =
    if int_eq x y then y ∷ ys else if int_le x y then x ∷ y ∷ ys else y ∷ insert_entity x ys

unfoldable pub entities_of : String → List Binding → List ℤ
unfolding entity_of insert_entity
entities_of name [] = []
entities_of name (values ∷ rest) = elim (entity_of name values) [
  | none ↦ entities_of name rest
  | some id ↦ insert_entity id (entities_of name rest)
]

-- the parts of at most 400, for a list that is not longer than the first argument
unfoldable pub chunks : ℕ → List ℤ → List (List ℤ)
chunks zero xs = []
chunks (suc n) [] = []
chunks (suc n) (x ∷ xs) = take 400 (x ∷ xs) ∷ chunks n (drop 400 (x ∷ xs))

-- one row of a batch, for the bindings of its entity
unfoldable pub read_batch_row :
    Engine → List Json → String → List Binding → Datom → Eval (List Binding)
unfolding spend actual_cells match_terms is_entity entity_of collect
read_batch_row e pattern name input d = do
  logical ← lift (e.codec.logical d.fact.v d.fact.t)
  collect
      (λ values. do
        _ ← spend e.budget
        matched ← lift (match_terms e pattern (actual_cells d logical) values)
        done (to_list matched))
      (keep (λ values. is_entity (entity_of name values) (pos d.fact.e)) input)

-- the rows of a chunk of entities
unfoldable pub chunk_rows : Engine → ℕ → List ℤ → List Datom
unfolding base_rows int_eq sort_by
chunk_rows e attr chunk =
    sort_by (λ d. d.fact.id)
      (keep (λ d. d.fact.a == attr && any (λ id. int_eq id (pos d.fact.e)) chunk) (base_rows e))

unfoldable pub read_batch : Engine → List Json → String → ℕ → List Binding → Eval (List Binding)
unfolding entities_of chunks chunk_rows read_batch_row collect
read_batch e pattern name attr input =
    let entities = entities_of name input in
    collect (λ chunk. collect (read_batch_row e pattern name input) (chunk_rows e attr chunk))
      (chunks (length entities) entities)

-- the third term of a batch: a variable that no binding has, or `_`
unfoldable pub is_free_shape : Shape → List Binding → Bool
unfolding is_bound
is_free_shape wildcard input = true
is_free_shape (variable name) input = not (any (λ values. is_bound values name) input)
is_free_shape constant input = false

unfoldable pub is_free_value : Json → List Binding → Bool
unfolding shape_of is_free_shape
is_free_value term input = is_free_shape (shape_of term) input

-- What `evalBoundEntityBatch` decides: it leaves the pattern to others, or finds no attribute, or
-- reads a batch for the variable and the attribute.
pub data BatchPlan : Type 0 where
  not_batched : BatchPlan
  no_attribute : BatchPlan
  batched : String → ℕ → BatchPlan

abbrev pub is_current : Source → Bool
is_current current = true
is_current history = false

unfoldable pub has_entities : String → List Binding → Bool
unfolding entity_of
has_entities name [] = true
has_entities name (values ∷ rest) = elim (entity_of name values) [
  | none ↦ false
  | some _ ↦ has_entities name rest
]

-- the tests after the attribute's
unfoldable pub plan_entities : String → Option ℕ → Json → List Binding → BatchPlan
unfolding is_free_value has_entities
plan_entities name none term input = no_attribute
plan_entities name (some attr) term input =
    if is_free_value term input && has_entities name input then batched name attr else not_batched

unfoldable pub plan_batch : Engine → List Json → List Binding → BatchPlan
unfolding is_variable find_name plan_entities
plan_batch e (string name ∷ string attr ∷ term ∷ []) input =
    if is_current e.source
      && not (ltb (length input) 2)
      && is_variable name
      && e.codec.is_attribute attr
    then plan_entities name (find_name e.names attr) term input
    else not_batched
plan_batch e _ input = not_batched

-- the bindings of a pattern before equal ones are dropped
unfoldable pub scan_pattern : Engine → List Json → List Binding → BatchPlan → Eval (List Binding)
unfolding eval_indexed_pattern read_batch collect
scan_pattern e pattern input not_batched = collect (eval_indexed_pattern e pattern) input
scan_pattern e pattern input no_attribute = done []
scan_pattern e pattern input (batched name attr) = read_batch e pattern name attr input

-- the second term is `_`, a variable or an attribute's name; `some` has the name
unfoldable pub attribute_of : Engine → Json → Result (Option String)
unfolding is_variable
attribute_of e (string s) =
    if e.codec.is_attribute s
    then ok (some s)
    else if str_eq s "_" || is_variable s
    then ok none
    else fail query_error
attribute_of e _ = fail query_error

-- the fifth term is a Boolean, a variable or `_`
unfoldable pub is_added_term : Json → Bool
unfolding is_variable
is_added_term (bool _) = true
is_added_term (string s) = str_eq s "_" || is_variable s
is_added_term _ = false

unfoldable pub check_pattern : Engine → List Json → Result (Option String)
unfolding attribute_of is_added_term
check_pattern e (_ ∷ attr ∷ _ ∷ []) = attribute_of e attr
check_pattern e (_ ∷ attr ∷ _ ∷ _ ∷ []) = attribute_of e attr
check_pattern e (_ ∷ attr ∷ _ ∷ _ ∷ added ∷ []) = elim (attribute_of e attr) [
  | fail kind ↦ fail kind
  | ok (some name) ↦ elim (find_name e.names name) [
    | none ↦ ok (some name)
    | some _ ↦ if is_added_term added then ok (some name) else fail query_error
  ]
  | ok none ↦ if is_added_term added then ok none else fail query_error
]
check_pattern e _ = fail query_error

-- the name of an attribute that does not exist
unfoldable pub is_missing : Engine → Option String → Bool
unfolding find_name
is_missing e none = false
is_missing e (some name) = elim (find_name e.names name) [ none ↦ true | some _ ↦ false ]

-- `evalPattern`
unfoldable pub eval_pattern : Engine → List Json → List Binding → Eval (List Binding)
unfolding check_pattern is_missing plan_batch scan_pattern distinct_bindings
eval_pattern e pattern input = do
  attr ← lift (check_pattern e pattern)
  if is_missing e attr then done [] else (do
    found ← scan_pattern e pattern input (plan_batch e pattern input)
    done (distinct_bindings found))
