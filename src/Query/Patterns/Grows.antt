-- ===== src/Query/Patterns/Grows.antt =====
-- The bindings that patterns and predicates of go/query.go give.
use Prim.Native.String.{String}
use fgraph.Base.{
  Bool, true, false, List, [], ◌∷◌, Option, none, some, ◌≡◌, length, keep, ok, query_error, In, inl,
  inr, In-keep, if◌then◌else◌,
}
use fgraph.Value.{ℤ}
use fgraph.Query.Values.{Json, string, Cell, Binding}
use fgraph.Query.Eval.{◌>>=◌, done, lift, collect}
use fgraph.Query.Eval.Grows.{
  Grows, Reaches, done-Grows, fail-Grows, lift-Grows, lift-Reaches, done-Reaches, spend-Grows,
  Grows-weaken, collect-Grows, distinct-Grows, if-Grows,
}
use fgraph.Query.Engine.{Engine}
use fgraph.Query.Terms.{match_terms}
use fgraph.Query.Terms.Extends.{Extends, Extends-refl, match_terms-Extends}
use fgraph.Query.Rows.{
  Datom, base_rows, make_filter, passes, in_order, entity_positions, prepare_terms, actual_cells,
}
use fgraph.Query.Patterns.{
  to_list, read_row, read_rows, eval_indexed_pattern, entity_of, is_entity, entities_of, chunks,
  read_batch_row, chunk_rows, read_batch, BatchPlan, not_batched, no_attribute, batched, plan_batch,
  scan_pattern, check_pattern, is_missing, eval_pattern,
}
use fgraph.Query.Predicates.{
  Operator, operator_of, term_value, compare_bound, test_binding, eval_predicate,
}

pub single-In : (input : List Binding) (a b : Binding) → In a input → In b (a ∷ []) → In b input
single-In input a b m (inl e) = rw e m
single-In input a b m (inr h) = absurd h.lower

none_left : (input : List Binding) (b : Binding) → In b [] → In b input
none_left input b m = absurd m.lower

module _ (e : Engine) where
  -- the last two steps of every match
  pub match-Reaches :
      (terms : List Json) (cells : List (Cell × Bool)) (values : Binding)
      → Reaches values
          (lift (match_terms e terms cells values) >>= λ matched. done (to_list matched))
  match-Reaches terms cells values =
      lift-Reaches values (match_terms e terms cells values) _
        (λ matched h. done-Reaches values (to_list matched) (extended matched h))
    where
      extended :
          (matched : Option Binding)
          → match_terms e terms cells values ≡ ok matched
          → (b : Binding) → In b (to_list matched)
          → Extends values b
      extended none h b m = absurd m.lower
      extended (some new) h b (inl same) =
          rw same (λ name c. match_terms-Extends e terms cells values h name c)
      extended (some new) h b (inr m) = absurd m.lower

  read_row-Grows :
      (pattern : List Json) (values : Binding) (d : Datom)
      → Grows (values ∷ []) (read_row e pattern values d)
  unfolding read_row
  read_row-Grows pattern values d = spend-Grows e.budget values _ (
      lift-Reaches values (e.codec.logical d.fact.v d.fact.t) _
        (λ logical _. match-Reaches pattern (actual_cells d logical) values))

  read_rows-Grows :
      (pattern : List Json) (values : Binding) (prepared : Option (List (Option Cell)))
      → Grows (values ∷ []) (read_rows e pattern values prepared)
  unfolding read_rows
  read_rows-Grows pattern values none = done-Grows (values ∷ []) [] (none_left (values ∷ []))
  read_rows-Grows pattern values (some cells) =
      lift-Grows (values ∷ []) (make_filter e cells) _ (λ wanted.
        collect-Grows (values ∷ []) (read_row e pattern values)
          (in_order (keep (passes wanted) (base_rows e))) (λ d _. read_row-Grows pattern values d))

  eval_indexed_pattern-Grows :
      (pattern : List Json) (values : Binding)
      → Grows (values ∷ []) (eval_indexed_pattern e pattern values)
  unfolding eval_indexed_pattern
  eval_indexed_pattern-Grows pattern values =
      lift-Grows (values ∷ []) (prepare_terms e pattern entity_positions values) _
        (read_rows-Grows pattern values)

  read_batch_row-Grows :
      (pattern : List Json) (name : String) (input : List Binding) (d : Datom)
      → Grows input (read_batch_row e pattern name input d)
  unfolding read_batch_row
  read_batch_row-Grows pattern name input d =
      lift-Grows input (e.codec.logical d.fact.v d.fact.t) _ (λ logical.
        collect-Grows input _
          (keep (λ values. is_entity (entity_of name values) (ℤ.pos d.fact.e)) input)
          (λ values m.
            Grows-weaken (values ∷ []) input _
              (λ b. single-In input values b (In-keep _ values input m).0)
              (spend-Grows e.budget values _
                (match-Reaches pattern (actual_cells d logical) values))))

  scan_pattern-Grows :
      (pattern : List Json) (input : List Binding) (plan : BatchPlan)
      → Grows input (scan_pattern e pattern input plan)
  unfolding scan_pattern read_batch
  scan_pattern-Grows pattern input not_batched =
      collect-Grows input (eval_indexed_pattern e pattern) input (λ values m.
        Grows-weaken (values ∷ []) input (eval_indexed_pattern e pattern values)
          (λ b. single-In input values b m) (eval_indexed_pattern-Grows pattern values))
  scan_pattern-Grows pattern input no_attribute = done-Grows input [] (none_left input)
  scan_pattern-Grows pattern input (batched name attr) =
      collect-Grows input _ (chunks (length (entities_of name input)) (entities_of name input))
        (λ chunk _.
          collect-Grows input (read_batch_row e pattern name input) (chunk_rows e attr chunk)
            (λ d _. read_batch_row-Grows pattern name input d))

  pub eval_pattern-Grows :
      (pattern : List Json) (input : List Binding) → Grows input (eval_pattern e pattern input)
  unfolding eval_pattern
  eval_pattern-Grows pattern input = lift-Grows input (check_pattern e pattern) _ (λ attr.
      if-Grows input (is_missing e attr) (done-Grows input [] (none_left input)) (
        distinct-Grows input (scan_pattern e pattern input (plan_batch e pattern input))
          (scan_pattern-Grows pattern input (plan_batch e pattern input))))

  test_binding-Grows :
      (op : Option Operator) (left right : Json) (values : Binding)
      → Grows (values ∷ []) (test_binding e op left right values)
  unfolding test_binding
  test_binding-Grows op left right values = spend-Grows e.budget values _ (
      lift-Reaches values (term_value e left values) _ (λ x _.
        lift-Reaches values (term_value e right values) _ (λ y _.
          lift-Reaches values (compare_bound op x y) _ (λ matched _.
            done-Reaches values (if matched then values ∷ [] else []) (same matched)))))
    where
      same :
          (matched : Bool) (b : Binding)
          → In b (if matched then values ∷ [] else [])
          → Extends values b
      same true b (inl h) = rw h (Extends-refl values)
      same true b (inr m) = absurd m.lower
      same false b m = absurd m.lower

  pub eval_predicate-Grows :
      (clause : List Json) (input : List Binding) → Grows input (eval_predicate e clause input)
  unfolding eval_predicate
  eval_predicate-Grows (string op ∷ left ∷ right ∷ []) input =
      distinct-Grows input (collect (test_binding e (operator_of op) left right) input) (
        collect-Grows input (test_binding e (operator_of op) left right) input (λ values m.
          Grows-weaken (values ∷ []) input (test_binding e (operator_of op) left right values)
            (λ b. single-In input values b m)
            (test_binding-Grows (operator_of op) left right values)))
  eval_predicate-Grows _ input = fail-Grows input query_error
