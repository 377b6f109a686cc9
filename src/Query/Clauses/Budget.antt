-- ===== src/Query/Clauses/Budget.antt =====
-- The work of each step of `evalClauses` in go/query.go.
use Prim.Native.String.{String}
use package.text.Mathlib.Text.{◌==◌ as str_eq}
use fgraph.Base.{
  ℕ, zero, suc, List, [], ◌∷◌, Option, none, some, ◌≡◌, length, keep, ok, fail, query_error, ◌≤◌,
  all, if◌then◌else◌,
}
use fgraph.Value.{ℤ}
use fgraph.Query.Values.{
  Json, string, array, object, end, field, items_of, Cell, Binding, distinct_bindings,
}
use fgraph.Query.Eval.{Eval, ◌>>=◌, done, lift, spend, collect}
use fgraph.Query.Eval.Budget.{
  limit_of, Spends, done-Spends, lift-Spends, spend-Spends, >>=-Spends, collect-Spends, if-Spends,
}
use fgraph.Query.Engine.{Engine, find_name}
use fgraph.Query.Terms.{match_terms}
use fgraph.Query.Rows.{
  Datom, base_rows, make_filter, passes, in_order, entity_positions, prepare_terms, actual_cells,
}
use fgraph.Query.Patterns.{
  to_list, read_row, read_rows, eval_indexed_pattern, entity_of, is_entity, entities_of, chunks,
  read_batch_row, chunk_rows, read_batch, BatchPlan, not_batched, no_attribute, batched, plan_batch,
  scan_pattern, check_pattern, is_missing, eval_pattern,
}
use fgraph.Query.Predicates.{
  Operator, operator_of, term_value, compare_bound, test_binding, eval_predicate,
}
use fgraph.Query.Order.{is_predicate, order_clauses, initial_names, clause_variables}
use fgraph.Query.Clauses.{
  Evaluator, is_correlated, keep_unmatched, eval_not, eval_branch, eval_or, tuple_cells,
  match_tuple, relation_of, has_arity, eval_rule, eval_object, eval_array, eval_clause,
  unless_empty, eval_sequence, eval_step, run_clauses, eval_clauses, no_evaluator, list_size,
}

module _ (e : Engine) where
  -- the limit of the engine's budget
  abbrev limit : ℕ
  limit = limit_of e.budget

  distinct-Spends :
      (step : Eval (List Binding))
      → Spends limit step
      → Spends limit (step >>= λ found. done (distinct_bindings found))
  distinct-Spends step a =
      >>=-Spends limit step _ a (λ found. done-Spends limit (distinct_bindings found))

  failed : Spends limit (lift {A = List Binding} (fail query_error))
  failed = lift-Spends limit (fail query_error)

  read_row-Spends :
      (pattern : List Json) (values : Binding) (d : Datom)
      → Spends limit (read_row e pattern values d)
  unfolding read_row
  read_row-Spends pattern values d =
      >>=-Spends limit (spend e.budget) _ (spend-Spends e.budget) (λ _.
        >>=-Spends limit (lift (e.codec.logical d.fact.v d.fact.t)) _
          (lift-Spends limit (e.codec.logical d.fact.v d.fact.t))
          (λ logical.
            >>=-Spends limit (lift (match_terms e pattern (actual_cells d logical) values)) _
              (lift-Spends limit (match_terms e pattern (actual_cells d logical) values))
              (λ matched. done-Spends limit (to_list matched))))

  read_rows-Spends :
      (pattern : List Json) (values : Binding) (prepared : Option (List (Option Cell)))
      → Spends limit (read_rows e pattern values prepared)
  unfolding read_rows
  read_rows-Spends pattern values none = done-Spends limit []
  read_rows-Spends pattern values (some cells) =
      >>=-Spends limit (lift (make_filter e cells)) _ (lift-Spends limit (make_filter e cells))
        (λ wanted.
          collect-Spends limit (read_row e pattern values)
            (in_order (keep (passes wanted) (base_rows e))) (read_row-Spends pattern values))

  eval_indexed_pattern-Spends :
      (pattern : List Json) (values : Binding)
      → Spends limit (eval_indexed_pattern e pattern values)
  unfolding eval_indexed_pattern
  eval_indexed_pattern-Spends pattern values =
      >>=-Spends limit (lift (prepare_terms e pattern entity_positions values)) _
        (lift-Spends limit (prepare_terms e pattern entity_positions values))
        (read_rows-Spends pattern values)

  read_batch_row-Spends :
      (pattern : List Json) (name : String) (input : List Binding) (d : Datom)
      → Spends limit (read_batch_row e pattern name input d)
  unfolding read_batch_row
  read_batch_row-Spends pattern name input d =
      >>=-Spends limit (lift (e.codec.logical d.fact.v d.fact.t)) _
        (lift-Spends limit (e.codec.logical d.fact.v d.fact.t))
        (λ logical.
          collect-Spends limit _
            (keep (λ values. is_entity (entity_of name values) (ℤ.pos d.fact.e)) input)
            (λ values. >>=-Spends limit (spend e.budget) _ (spend-Spends e.budget) (λ _.
              >>=-Spends limit (lift (match_terms e pattern (actual_cells d logical) values)) _
                (lift-Spends limit (match_terms e pattern (actual_cells d logical) values))
                (λ matched. done-Spends limit (to_list matched)))))

  scan_pattern-Spends :
      (pattern : List Json) (input : List Binding) (plan : BatchPlan)
      → Spends limit (scan_pattern e pattern input plan)
  unfolding scan_pattern read_batch
  scan_pattern-Spends pattern input not_batched =
      collect-Spends limit (eval_indexed_pattern e pattern) input
        (eval_indexed_pattern-Spends pattern)
  scan_pattern-Spends pattern input no_attribute = done-Spends limit []
  scan_pattern-Spends pattern input (batched name attr) =
      collect-Spends limit _ (chunks (length (entities_of name input)) (entities_of name input))
        (λ chunk.
          collect-Spends limit (read_batch_row e pattern name input) (chunk_rows e attr chunk)
            (read_batch_row-Spends pattern name input))

  eval_pattern-Spends :
      (pattern : List Json) (input : List Binding) → Spends limit (eval_pattern e pattern input)
  unfolding eval_pattern
  eval_pattern-Spends pattern input =
      >>=-Spends limit (lift (check_pattern e pattern)) _
        (lift-Spends limit (check_pattern e pattern))
        (λ attr. if-Spends limit (is_missing e attr) (done-Spends limit []) (
          distinct-Spends (scan_pattern e pattern input (plan_batch e pattern input))
            (scan_pattern-Spends pattern input (plan_batch e pattern input))))

  test_binding-Spends :
      (op : Option Operator) (left right : Json) (values : Binding)
      → Spends limit (test_binding e op left right values)
  unfolding test_binding
  test_binding-Spends op left right values =
      >>=-Spends limit (spend e.budget) _ (spend-Spends e.budget) (λ _.
        >>=-Spends limit (lift (term_value e left values)) _
          (lift-Spends limit (term_value e left values))
          (λ x.
            >>=-Spends limit (lift (term_value e right values)) _
              (lift-Spends limit (term_value e right values))
              (λ y.
                >>=-Spends limit (lift (compare_bound op x y)) _
                  (lift-Spends limit (compare_bound op x y))
                  (λ matched. done-Spends limit (if matched then values ∷ [] else [])))))

  eval_predicate-Spends :
      (clause : List Json) (input : List Binding) → Spends limit (eval_predicate e clause input)
  unfolding eval_predicate
  eval_predicate-Spends (string op ∷ left ∷ right ∷ []) input =
      distinct-Spends (collect (test_binding e (operator_of op) left right) input) (
        collect-Spends limit (test_binding e (operator_of op) left right) input
          (test_binding-Spends (operator_of op) left right))
  eval_predicate-Spends _ input = failed

  match_tuple-Spends :
      (terms : List Json) (values : Binding) (tuple : List Cell)
      → Spends limit (match_tuple e terms values tuple)
  unfolding match_tuple
  match_tuple-Spends terms values tuple =
      >>=-Spends limit (spend e.budget) _ (spend-Spends e.budget) (λ _.
        >>=-Spends limit (lift (match_terms e terms (tuple_cells tuple) values)) _
          (lift-Spends limit (match_terms e terms (tuple_cells tuple) values))
          (λ matched. done-Spends limit (to_list matched)))

  rule_tuples-Spends :
      (name : String) (terms : List Json) (input : List Binding)
      → Spends limit
          (collect (λ values. collect (match_tuple e terms values) (relation_of e name)) input)
  rule_tuples-Spends name terms input =
      collect-Spends limit (λ values. collect (match_tuple e terms values) (relation_of e name))
        input
        (λ values.
          collect-Spends limit (match_tuple e terms values) (relation_of e name)
            (match_tuple-Spends terms values))

  eval_rule-Spends :
      (items : List Json) (input : List Binding) → Spends limit (eval_rule e items input)
  unfolding eval_rule
  eval_rule-Spends (string name ∷ terms) input =
      if-Spends limit (has_arity (find_name e.rules name) (length terms))
        (distinct-Spends
          (collect (λ values. collect (match_tuple e terms values) (relation_of e name)) input)
          (rule_tuples-Spends name terms input))
        failed
  eval_rule-Spends _ input = failed

  unless_empty-Spends :
      (next : List Binding → Eval (List Binding))
      → ((found : List Binding) → Spends limit (next found))
      → (found : List Binding) → Spends limit (unless_empty next found)
  unfolding unless_empty
  unless_empty-Spends next a [] = done-Spends limit []
  unless_empty-Spends next a (x ∷ xs) = a (x ∷ xs)

  module _ (rec : Evaluator)
      (kept : (clauses : List Json) (input : List Binding) → Spends limit (rec clauses input)) where
    eval_not-Spends :
        (clauses : List Json) (input : List Binding) → Spends limit (eval_not rec clauses input)
    unfolding eval_not keep_unmatched
    eval_not-Spends clauses input =
        if-Spends limit (all (is_correlated (clause_variables clauses)) input)
          (collect-Spends limit (keep_unmatched rec clauses) input (λ values.
            >>=-Spends limit (rec clauses (values ∷ [])) _ (kept clauses (values ∷ []))
              (λ matches. done-Spends limit (elim matches [ [] ↦ values ∷ [] | _ ↦ [] ]))))
          failed

    eval_branch-Spends :
        (input : List Binding) (branch : Json) → Spends limit (eval_branch rec input branch)
    unfolding eval_branch
    eval_branch-Spends input (array clauses) = kept (items_of clauses) input
    eval_branch-Spends input _ = failed

    eval_or-Spends :
        (branches : List Json) (input : List Binding) → Spends limit (eval_or rec branches input)
    unfolding eval_or
    eval_or-Spends [] input = failed
    eval_or-Spends (branch ∷ branches) input =
        distinct-Spends (collect (eval_branch rec input) (branch ∷ branches)) (
          collect-Spends limit (eval_branch rec input) (branch ∷ branches)
            (eval_branch-Spends input))

    eval_clause-Spends :
        (c : Json) (input : List Binding) → Spends limit (eval_clause rec e c input)
    unfolding eval_clause eval_array eval_object
    eval_clause-Spends (array items) input =
        if-Spends limit (is_predicate (items_of items))
          (eval_predicate-Spends (items_of items) input)
          (eval_pattern-Spends (items_of items) input)
    eval_clause-Spends (object (field name (array items) end)) input =
        if-Spends limit (str_eq name "not") (eval_not-Spends (items_of items) input) (
          if-Spends limit (str_eq name "or") (eval_or-Spends (items_of items) input)
            (if-Spends limit (str_eq name "rule") (eval_rule-Spends (items_of items) input) failed))
    eval_clause-Spends _ input = failed

    eval_sequence-Spends :
        (clauses : List Json) (input : List Binding)
        → Spends limit (eval_sequence rec e clauses input)
    unfolding eval_sequence
    eval_sequence-Spends [] input = done-Spends limit input
    eval_sequence-Spends (c ∷ rest) input =
        >>=-Spends limit (eval_clause rec e c input) _ (eval_clause-Spends c input)
          (unless_empty-Spends (eval_sequence rec e rest) (eval_sequence-Spends rest))

  run_clauses-Spends :
      (n : ℕ) (clauses : List Json) (input : List Binding)
      → Spends limit (run_clauses no_evaluator n e clauses input)
  unfolding run_clauses eval_step
  run_clauses-Spends zero clauses input = failed
  run_clauses-Spends (suc n) clauses input =
      eval_sequence-Spends (run_clauses no_evaluator n e) (run_clauses-Spends n)
        (order_clauses (initial_names input) clauses) input

  -- Where an evaluation of clauses returns, its work is no smaller than before, and it has not passed
  -- the limit of the budget, if it had not before.
  pub eval_clauses-Spends :
      (clauses : List Json) (input : List Binding) (work : ℕ) (out : List Binding) (after : ℕ)
      → eval_clauses e clauses input work ≡ ok (out, after)
      → (work ≤ after) × (work ≤ limit → after ≤ limit)
  unfolding eval_clauses
  eval_clauses-Spends clauses input = run_clauses-Spends (suc (list_size clauses)) clauses input
