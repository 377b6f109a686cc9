-- ===== src/Query/Checks/Sound/Parts.antt =====
-- Patterns, rules and the branches of a disjunction in `validateClauseSequence` of go/query.go.
use Prim.Native.String.{String}
use fgraph.Base.{
  suc, Bool, true, false, not, ◌&&◌, List, [], ◌∷◌, leb, ◌≡◌, refl, sym, ap, subst, arith, all,
  length, Result, ok, fail, query_error, >>=-eq-ok, In, inl, inr, In-append, both_true,
  if◌then◌else◌,
}
use fgraph.Diff.Run.{ok-injective}
use fgraph.Query.Values.{Json, string, array, Items, nil, cons, items_of, Cell, Binding}
use fgraph.Query.Eval.{spend, collect}
use fgraph.Query.Engine.{Engine, find_name}
use fgraph.Query.Patterns.Binds.{
  Binds, Among, fail-Binds, after-Binds, collect-Binds, distinct-Binds, match-Binds,
  eval_pattern-Binds,
}
use fgraph.Query.Patterns.{eval_pattern}
use fgraph.Query.Order.{is_operator, is_predicate, clause_variables}
use fgraph.Query.Clauses.{tuple_cells, match_tuple, relation_of, has_arity, eval_rule, eval_array}
use fgraph.Query.Checks.{
  Names, is_attribute_term, check_predicate, check_pattern_clause, check_array, outward_names,
  check_clauses, check_branches, check_branch,
}
use fgraph.Query.Checks.Sound.{
  plain_term, plain_clauses, plain_branches, plain_branch, HasArities, clause_variables-Among,
  either-Binds,
}

pub if-ok :
    (test : Bool) {r : Result Names} {mid : Names}
    → (if test then r else fail query_error) ≡ ok mid
    → (test ≡ true) × (r ≡ ok mid)
if-ok true h = (refl, h)
if-ok false h = absurd (cc)

pub is_negated : (b : Bool) → not b ≡ true → b ≡ false
is_negated true h = absurd (cc)
is_negated false h = refl

no_predicate :
    (e : Engine) (op : Json) (rest : List Json) (input : List Binding)
    → is_operator op ≡ false
    → eval_array e (op ∷ rest) input ≡ eval_pattern e (op ∷ rest) input
unfolding eval_array is_predicate
no_predicate e op [] input h = refl
no_predicate e op (_ ∷ []) input h = refl
no_predicate e op (_ ∷ _ ∷ []) input h = rw (eval_array, is_predicate, h) refl
no_predicate e op (_ ∷ _ ∷ _ ∷ _) input h = refl

module _ (e : Engine) (arities : HasArities e) where
  length-tuple_cells : (tuple : List Cell) → length (tuple_cells tuple) ≡ length tuple
  unfolding tuple_cells
  length-tuple_cells [] = refl
  length-tuple_cells (c ∷ rest) = ap suc (length-tuple_cells rest)

  pub eval_rule-Binds :
      (name : String) (terms : List Json) (input : List Binding)
      → Binds (Among terms) (eval_rule e (string name ∷ terms) input)
  unfolding eval_rule match_tuple
  eval_rule-Binds name terms input = known (has_arity (find_name e.rules name) (length terms)) refl
    where
      known :
          (b : Bool)
          → has_arity (find_name e.rules name) (length terms) ≡ b
          → Binds (Among terms) (eval_rule e (string name ∷ terms) input)
      known false h = rw (eval_rule, h) (fail-Binds (Among terms) query_error)
      known true h =
          rw (eval_rule, h)
            (distinct-Binds (Among terms)
              (collect (λ values. collect (match_tuple e terms values) (relation_of e name)) input)
              (collect-Binds (Among terms)
                (λ values. collect (match_tuple e terms values) (relation_of e name)) input
                (λ values _.
                  collect-Binds (Among terms) (match_tuple e terms values) (relation_of e name)
                    (λ tuple m. after-Binds (Among terms) (spend e.budget) _ (λ _.
                      match-Binds e terms (tuple_cells tuple) values (
                        omega (
                          arith,
                          length-tuple_cells tuple,
                          arities name tuple m (length terms) h,
                        )))))))

  -- a pattern
  pattern-Binds :
      (is_attribute : String → Bool) (items : List Json) (bound mid : Names) (input : List Binding)
      → all plain_term items ≡ true
      → check_pattern_clause is_attribute items bound ≡ ok mid
      → Binds (λ name. In name bound) (eval_pattern e items input)
      → Binds (λ name. In name mid) (eval_pattern e items input)
  unfolding check_pattern_clause
  pattern-Binds is_attribute (entity ∷ attr ∷ term ∷ rest) bound mid input plain h old =
      let (tests, k) = if-ok (leb (length rest) 2 && is_attribute_term is_attribute attr) h in
      let (short, _) = both_true (leb (length rest) 2) _ tests in
      either-Binds (λ name. In name bound) (Among (entity ∷ attr ∷ term ∷ rest))
        (λ name. In name mid) (eval_pattern e (entity ∷ attr ∷ term ∷ rest) input) old
        (eval_pattern-Binds e (entity ∷ attr ∷ term ∷ rest) input (ground arith))
        (λ name m.
          elim (In-append name (clause_variables (entity ∷ attr ∷ term ∷ rest)) bound
            (subst (In name) (sym (ok-injective k)) m)) [
              | inl i ↦ inr (clause_variables-Among (entity ∷ attr ∷ term ∷ rest) name plain i)
              | inr i ↦ inl i
            ])
  pattern-Binds is_attribute [] bound mid input plain h old = absurd (cc)
  pattern-Binds is_attribute (_ ∷ []) bound mid input plain h old = absurd (cc)
  pattern-Binds is_attribute (_ ∷ _ ∷ []) bound mid input plain h old = absurd (cc)

  -- an array that is no predicate is evaluated as a pattern
  pub array-Binds :
      (is_attribute : String → Bool) (items : List Json) (bound mid : Names) (input : List Binding)
      → all plain_term items ≡ true
      → check_array is_attribute items bound ≡ ok mid
      → Binds (λ name. In name bound) (eval_array e items input)
      → Binds (λ name. In name mid) (eval_array e items input)
  unfolding check_array check_predicate
  array-Binds is_attribute [] bound mid input plain h old = absurd (cc)
  array-Binds is_attribute (op ∷ rest) bound mid input plain h old = kind (is_operator op) refl
    where
      kind :
          (b : Bool)
          → is_operator op ≡ b
          → Binds (λ name. In name mid) (eval_array e (op ∷ rest) input)
      kind true k =
          let (_, same) = if-ok _ (rw (k, check_array) at h) in
          subst (λ names. Binds (λ name. In name names) (eval_array e (op ∷ rest) input))
            (ok-injective same) old
      kind false k =
          let as_pattern : eval_array e (op ∷ rest) input ≡ eval_pattern e (op ∷ rest) input =
            no_predicate e op rest input k in
          subst (Binds (λ name. In name mid)) (sym as_pattern) (
            pattern-Binds is_attribute (op ∷ rest) bound mid input plain (rw (k, check_array) at h)
              (subst (Binds (λ name. In name bound)) as_pattern old))

  pub check_branches-In :
      (is_attribute : String → Bool) (items : Items) (bound : Names) (outs : List Names)
      → plain_branches items ≡ true
      → check_branches is_attribute items bound ≡ ok outs
      → (branch : Json) → In branch (items_of items)
      → (clauses : Items) × (after : Names) × (branch ≡ array clauses)
        × (plain_clauses clauses ≡ true)
        × (check_clauses is_attribute clauses bound ≡ ok after)
        × In (outward_names bound after) outs
  unfolding check_branches plain_branches items_of
  check_branches-In is_attribute nil bound outs plain h branch m = absurd m.lower
  check_branches-In is_attribute (cons first rest) bound outs plain h branch m =
      let (one, others) = both_true (plain_branch first) (plain_branches rest) plain in
      let (outward, checked, k) = >>=-eq-ok (check_branch is_attribute first bound) _ h in
      let (later, checked_rest, l) = >>=-eq-ok (check_branches is_attribute rest bound) _ k in
      elim m [
        | inl e ↦
            subst
              (λ b.
                (clauses : Items) × (after : Names) × (b ≡ array clauses)
                × (plain_clauses clauses ≡ true)
                × (check_clauses is_attribute clauses bound ≡ ok after)
                × In (outward_names bound after) outs)
              (sym e)
              (at_first first outward one checked (subst (In outward) (ok-injective l) (inl refl)))
        | inr i ↦
            let (clauses, after, is_array, plain_one, passed, at) =
              check_branches-In is_attribute rest bound later others checked_rest branch i in
            (
              clauses,
              after,
              is_array,
              plain_one,
              passed,
              subst (In (outward_names bound after)) (ok-injective l) (inr at),
            )
      ]
    where
      at_first :
          (first : Json) (outward : Names)
          → plain_branch first ≡ true
          → check_branch is_attribute first bound ≡ ok outward
          → In outward outs
          → (clauses : Items) × (after : Names) × (first ≡ array clauses)
            × (plain_clauses clauses ≡ true)
            × (check_clauses is_attribute clauses bound ≡ ok after)
            × In (outward_names bound after) outs
      at_first (array clauses) outward one checked at =
          let (after, passed, k) = >>=-eq-ok (check_clauses is_attribute clauses bound) _ checked in
          (clauses, after, refl, one, passed, subst (λ o. In o outs) (sym (ok-injective k)) at)
      at_first _ outward one checked at = absurd (cc)
