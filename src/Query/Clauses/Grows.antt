-- ===== src/Query/Clauses/Grows.antt =====
-- The bindings that clauses of go/query.go give.

use package.text.Mathlib.Text.{◌==◌ as str_eq}
use fgraph.Base.{ℕ, zero, suc, List, [], ◌∷◌, ◌≡◌, length, ok, query_error, In, all, ◌⊎◌, ◌<◌}
use fgraph.Query.Values.{Json, string, array, object, end, field, items_of, Cell, Binding}
use fgraph.Query.Eval.{Eval, collect}
use fgraph.Query.Eval.Grows.{
  Grows, done-Grows, fail-Grows, spend-Grows, Grows-weaken, collect-Grows, >>=-Grows,
  distinct-Grows, if-Grows, after-Grows,
}
use fgraph.Query.Engine.{Engine, find_name}
use fgraph.Query.Terms.Extends.{Extends}
use fgraph.Query.Patterns.Grows.{single-In, match-Reaches, eval_pattern-Grows, eval_predicate-Grows}
use fgraph.Query.Order.{is_predicate, order_clauses, initial_names, clause_variables}
use fgraph.Query.Clauses.{
  Evaluator, is_correlated, keep_unmatched, eval_not, eval_branch, eval_or, tuple_cells,
  match_tuple, relation_of, has_arity, eval_rule, eval_object, eval_array, eval_clause,
  unless_empty, eval_sequence, eval_step, run_clauses, eval_clauses, no_evaluator, list_size,
}

module _ (e : Engine) where
  match_tuple-Grows :
      (terms : List Json) (values : Binding) (tuple : List Cell)
      → Grows (values ∷ []) (match_tuple e terms values tuple)
  unfolding match_tuple
  match_tuple-Grows terms values tuple =
      spend-Grows e.budget values _ (match-Reaches e terms (tuple_cells tuple) values)

  eval_rule-Grows :
      (items : List Json) (input : List Binding) → Grows input (eval_rule e items input)
  unfolding eval_rule
  eval_rule-Grows (string name ∷ terms) input =
      if-Grows input (has_arity (find_name e.rules name) (length terms))
        (distinct-Grows input
          (collect (λ values. collect (match_tuple e terms values) (relation_of e name)) input)
          (collect-Grows input _ input (λ values m.
            Grows-weaken (values ∷ []) input _ (λ b. single-In input values b m)
              (collect-Grows (values ∷ []) (match_tuple e terms values) (relation_of e name)
                (λ tuple _. match_tuple-Grows terms values tuple)))))
        (fail-Grows input query_error)
  eval_rule-Grows _ input = fail-Grows input query_error

  module _ (rec : Evaluator)
      (grows : (clauses : List Json) (input : List Binding) → Grows input (rec clauses input)) where
    keep_unmatched-Grows :
        (clauses : List Json) (values : Binding)
        → Grows (values ∷ []) (keep_unmatched rec clauses values)
    unfolding keep_unmatched
    keep_unmatched-Grows clauses values =
        after-Grows (values ∷ []) (values ∷ []) (rec clauses (values ∷ [])) _
          (grows clauses (values ∷ []))
          (λ matches.
            done-Grows (values ∷ []) (elim matches [ [] ↦ values ∷ [] | _ ↦ [] ]) (kept matches))
      where
        kept :
            (matches : List Binding) (b : Binding)
            → In b (elim matches [ [] ↦ values ∷ [] | _ ↦ [] ])
            → In b (values ∷ [])
        kept [] b m = m
        kept (x ∷ xs) b m = absurd m.lower

    eval_not-Grows :
        (clauses : List Json) (input : List Binding) → Grows input (eval_not rec clauses input)
    unfolding eval_not
    eval_not-Grows clauses input =
        if-Grows input (all (is_correlated (clause_variables clauses)) input)
          (collect-Grows input (keep_unmatched rec clauses) input (λ values m.
            Grows-weaken (values ∷ []) input (keep_unmatched rec clauses values)
              (λ b. single-In input values b m) (keep_unmatched-Grows clauses values)))
          (fail-Grows input query_error)

    eval_branch-Grows :
        (input : List Binding) (branch : Json) → Grows input (eval_branch rec input branch)
    unfolding eval_branch
    eval_branch-Grows input (array clauses) = grows (items_of clauses) input
    eval_branch-Grows input _ = fail-Grows input query_error

    eval_or-Grows :
        (branches : List Json) (input : List Binding) → Grows input (eval_or rec branches input)
    unfolding eval_or
    eval_or-Grows [] input = fail-Grows input query_error
    eval_or-Grows (branch ∷ branches) input =
        distinct-Grows input (collect (eval_branch rec input) (branch ∷ branches)) (
          collect-Grows input (eval_branch rec input) (branch ∷ branches)
            (λ b _. eval_branch-Grows input b))

    pub eval_clause-Grows :
        (c : Json) (input : List Binding) → Grows input (eval_clause rec e c input)
    unfolding eval_clause eval_array eval_object
    eval_clause-Grows (array items) input =
        if-Grows input (is_predicate (items_of items))
          (eval_predicate-Grows e (items_of items) input)
          (eval_pattern-Grows e (items_of items) input)
    eval_clause-Grows (object (field name (array items) end)) input =
        if-Grows input (str_eq name "not") (eval_not-Grows (items_of items) input) (
          if-Grows input (str_eq name "or") (eval_or-Grows (items_of items) input) (
            if-Grows input (str_eq name "rule") (eval_rule-Grows (items_of items) input)
              (fail-Grows input query_error)))
    eval_clause-Grows _ input = fail-Grows input query_error

    unless_empty-Grows :
        (next : List Binding → Eval (List Binding))
        → ((found : List Binding) → Grows found (next found))
        → (found : List Binding) → Grows found (unless_empty next found)
    unfolding unless_empty
    unless_empty-Grows next g [] = done-Grows [] [] (λ b m. m)
    unless_empty-Grows next g (x ∷ xs) = g (x ∷ xs)

    pub eval_sequence-Grows :
        (clauses : List Json) (input : List Binding)
        → Grows input (eval_sequence rec e clauses input)
    unfolding eval_sequence
    eval_sequence-Grows [] input = done-Grows input input (λ b m. m)
    eval_sequence-Grows (c ∷ rest) input =
        >>=-Grows input (eval_clause rec e c input) _ (eval_clause-Grows c input)
          (unless_empty-Grows (eval_sequence rec e rest) (eval_sequence-Grows rest))

  pub run_clauses-Grows :
      (n : ℕ) (clauses : List Json) (input : List Binding)
      → Grows input (run_clauses no_evaluator n e clauses input)
  unfolding run_clauses eval_step
  run_clauses-Grows zero clauses input = fail-Grows input query_error
  run_clauses-Grows (suc n) clauses input =
      eval_sequence-Grows (run_clauses no_evaluator n e) (run_clauses-Grows n)
        (order_clauses (initial_names input) clauses) input

  -- Where an evaluation of clauses returns, each binding of the result has all cells of a binding of
  -- the input, unchanged; and it is a binding of the input, unless the evaluation spent work.
  pub eval_clauses-Extends :
      (clauses : List Json) (input : List Binding) (work : ℕ) (out : List Binding) (after : ℕ)
      → eval_clauses e clauses input work ≡ ok (out, after)
      → (b : Binding) → In b out
      → (a : Binding) × In a input × Extends a b × ((b ≡ a) ⊎ (work < after))
  unfolding eval_clauses
  eval_clauses-Extends clauses input work out after h =
      (run_clauses-Grows (suc (list_size clauses)) clauses input work out after h).1
