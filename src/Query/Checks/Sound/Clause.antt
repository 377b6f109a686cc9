-- ===== src/Query/Checks/Sound/Clause.antt =====
-- One clause of go/query.go: what `validateClauseSequence` says that it binds, `evalClauses` binds.
use Prim.Native.String.{String}
use package.text.Mathlib.Text.{◌==◌ as str_eq}
use fgraph.Base.{
  Bool, true, false, not, ◌&&◌, List, [], ◌∷◌, ◌++◌, ◌≡◌, sym, subst, all, ok, fail, query_error,
  ◌>>=◌, >>=-eq-ok, In, inl, inr, In-append, In-keep, all-In, both_true, if◌then◌else◌,
}
use fgraph.Diff.Run.{ok-injective}
use fgraph.Query.Values.{Json, string, array, object, Items, end, field, items_of, Binding}
use fgraph.Query.Eval.{Eval, lift, collect}
use fgraph.Query.Eval.Grows.{Grows}
use fgraph.Query.Engine.{Engine}
use fgraph.Query.Terms.{is_variable}
use fgraph.Query.Patterns.Binds.{Binds, fail-Binds, collect-Binds, distinct-Binds}
use fgraph.Query.Order.{has_name, variables_of, clause_variables}
use fgraph.Query.Clauses.{
  Evaluator, eval_not, eval_branch, eval_or, eval_rule, eval_object, eval_clause,
}
use fgraph.Query.Clauses.Grows.{eval_clause-Grows}
use fgraph.Query.Checks.{
  Names, includes, same_names, check_not, outward_names, join_branches, check_invocation,
  check_object, check_clause, check_clauses, check_branches,
}
use fgraph.Query.Checks.Sound.{
  plain_term, plain_invocation, plain_clause, plain_clauses, plain_branches, HasArities, Have,
  has_name-In, clause_variables-Among, either-Binds, Grows-Binds,
}
use fgraph.Query.Checks.Sound.Parts.{
  if-ok, is_negated, eval_rule-Binds, array-Binds, check_branches-In,
}

module _ (e : Engine) (arities : HasArities e) where
  module _ (is_attribute : String → Bool) (rec : Evaluator)
      (grows : (clauses : List Json) (input : List Binding) → Grows input (rec clauses input))
      (sound : (clauses : Items) (bound after : Names) (input : List Binding)
        → plain_clauses clauses ≡ true
        → check_clauses is_attribute clauses bound ≡ ok after
        → Have bound input
        → Binds (λ name. In name after) (rec (items_of clauses) input)) where
    expected-In :
        (expected o : Names) (rest : List Names) (name : String)
        → all (same_names expected) rest ≡ true
        → In o (expected ∷ rest)
        → In name expected
        → In name o
    unfolding same_names includes
    expected-In expected o rest name h (inl e) m = rw e m
    expected-In expected o rest name h (inr i) m =
        let (_, back) =
          both_true (includes expected o) _ (all-In (same_names expected) o rest h i) in
        has_name-In o name (all-In (has_name o) name expected back m)

    branch-Binds :
        (branches : Items) (bound expected : Names) (rest : List Names) (input : List Binding)
        → plain_branches branches ≡ true
        → check_branches is_attribute branches bound ≡ ok (expected ∷ rest)
        → all (same_names expected) rest ≡ true
        → Have bound input
        → (branch : Json) → In branch (items_of branches)
        → Binds (λ name. In name expected) (eval_branch rec input branch)
    unfolding eval_branch outward_names
    branch-Binds branches bound expected rest input plain h same has branch m =
        let (clauses, after, is_array, plain_one, passed, at) =
          check_branches-In e arities is_attribute branches bound (expected ∷ rest) plain h branch
            m in
        subst (λ b. Binds (λ name. In name expected) (eval_branch rec input b)) (sym is_array)
          (λ work out end_work ran b i name n.
            sound clauses bound after input plain_one passed has work out end_work ran b i name
              (In-keep (λ x. not (has_name bound x)) name after
                (expected-In expected (outward_names bound after) rest name same at n)).0)

    or-Binds :
        (branches : Items) (bound expected : Names) (rest : List Names) (input : List Binding)
        → plain_branches branches ≡ true
        → check_branches is_attribute branches bound ≡ ok (expected ∷ rest)
        → all (same_names expected) rest ≡ true
        → Have bound input
        → Binds (λ name. In name expected) (eval_or rec (items_of branches) input)
    unfolding eval_or
    or-Binds branches bound expected rest input plain h same has =
        of_list (items_of branches)
          (branch-Binds branches bound expected rest input plain h same has)
      where
        of_list :
            (list : List Json)
            → ((branch : Json)
                → In branch list
                → Binds (λ name. In name expected) (eval_branch rec input branch))
            → Binds (λ name. In name expected) (eval_or rec list input)
        of_list [] each = fail-Binds (λ name. In name expected) query_error
        of_list (first ∷ others) each =
            distinct-Binds (λ name. In name expected)
              (collect (eval_branch rec input) (first ∷ others))
              (collect-Binds (λ name. In name expected) (eval_branch rec input) (first ∷ others)
                each)

    add-Binds :
        (names bound mid : Names) (step : Eval (List Binding))
        → names ++ bound ≡ mid
        → Binds (λ name. In name names) step
        → Binds (λ name. In name bound) step
        → Binds (λ name. In name mid) step
    add-Binds names bound mid step same new old =
        either-Binds (λ name. In name names) (λ name. In name bound) (λ name. In name mid) step new
          old (λ name m. In-append name names bound (subst (In name) (sym same) m))

    invocation-Binds :
        (items : List Json) (bound mid : Names) (input : List Binding)
        → plain_invocation items ≡ true
        → check_invocation items bound ≡ ok mid
        → Binds (λ name. In name bound) (eval_rule e items input)
        → Binds (λ name. In name mid) (eval_rule e items input)
    unfolding plain_invocation check_invocation clause_variables variables_of
    invocation-Binds (string name ∷ terms) bound mid input plain h old =
        let (no_var, plain_terms) =
          both_true (not (is_variable name)) (all plain_term terms) plain in
        add-Binds (clause_variables (string name ∷ terms)) bound mid
          (eval_rule e (string name ∷ terms) input) (ok-injective h)
          (λ work out after ran b m n i.
            eval_rule-Binds e arities name terms input work out after ran b m n (
              clause_variables-Among terms n plain_terms
                (beyond n (is_negated (is_variable name) no_var) i)))
          old
      where
        beyond :
            (n : String)
            → is_variable name ≡ false
            → In n (clause_variables (string name ∷ terms))
            → In n (clause_variables terms)
        beyond n no_var i = rw (clause_variables, variables_of, no_var) at i
    invocation-Binds _ bound mid input plain h old = absurd (cc)

    object-Binds :
        (name : String) (items : Items) (bound mid : Names) (input : List Binding)
        → plain_invocation (items_of items) ≡ true
        → plain_branches items ≡ true
        → check_object name
            (items_of items)
            bound
            (check_clauses is_attribute items bound)
            (check_branches is_attribute items bound)
          ≡ ok mid
        → Have bound input
        → Binds (λ n. In n bound) (eval_object rec e name (items_of items) input)
        → Binds (λ n. In n mid) (eval_object rec e name (items_of items) input)
    unfolding check_object check_not join_branches eval_object
    object-Binds name items bound mid input plain_rule plain_or h has old =
        chosen (str_eq name "not") (str_eq name "or") (str_eq name "rule") h old
      where
        joined :
            (outs : List Names)
            → check_branches is_attribute items bound ≡ ok outs
            → join_branches bound outs ≡ ok mid
            → Binds (λ n. In n bound) (eval_or rec (items_of items) input)
            → Binds (λ n. In n mid) (eval_or rec (items_of items) input)
        joined [] checked k old = absurd (cc)
        joined (expected ∷ rest) checked k old =
            let (same, l) = if-ok (all (same_names expected) rest) k in
            add-Binds expected bound mid (eval_or rec (items_of items) input) (ok-injective l)
              (or-Binds items bound expected rest input plain_or checked same has) old

        chosen :
            (a b c : Bool)
            → (if a
                then check_not (items_of items) bound (check_clauses is_attribute items bound)
                else if b
                then (check_branches is_attribute items bound >>= join_branches bound)
                else if c
                then check_invocation (items_of items) bound
                else fail query_error)
              ≡ ok mid
            → Binds
                (λ n. In n bound)
                (if a
                  then eval_not rec (items_of items) input
                  else if b
                  then eval_or rec (items_of items) input
                  else if c
                  then eval_rule e (items_of items) input
                  else lift (fail query_error))
            → Binds
                (λ n. In n mid)
                (if a
                  then eval_not rec (items_of items) input
                  else if b
                  then eval_or rec (items_of items) input
                  else if c
                  then eval_rule e (items_of items) input
                  else lift (fail query_error))
        chosen true b c k old =
            let (_, l) = if-ok _ k in
            let (_, _, same) =
              >>=-eq-ok (check_clauses is_attribute items bound) (λ _. ok bound) l in
            subst (λ names. Binds (λ n. In n names) (eval_not rec (items_of items) input))
              (ok-injective same) old
        chosen false true c k old =
            let (outs, checked, l) =
              >>=-eq-ok (check_branches is_attribute items bound) (join_branches bound) k in
            joined outs checked l old
        chosen false false true k old =
            invocation-Binds (items_of items) bound mid input plain_rule k old
        chosen false false false k old = absurd (cc)

    -- What a clause binds after the check, its evaluation binds.
    pub clause-Binds :
        (c : Json) (bound mid : Names) (input : List Binding)
        → plain_clause c ≡ true
        → check_clause is_attribute c bound ≡ ok mid
        → Have bound input
        → Binds (λ n. In n mid) (eval_clause rec e c input)
    unfolding check_clause plain_clause eval_clause
    clause-Binds (array items) bound mid input plain h has =
        array-Binds e arities is_attribute (items_of items) bound mid input plain h (
          Grows-Binds bound input (eval_clause rec e (array items) input)
            (eval_clause-Grows e rec grows (array items) input) has)
    clause-Binds (object (field name (array items) end)) bound mid input plain h has =
        let (others, plain_or) =
          both_true (plain_invocation (items_of items) && plain_clauses items)
            (plain_branches items) plain in
        let (plain_rule, _) =
          both_true (plain_invocation (items_of items)) (plain_clauses items) others in
        object-Binds name items bound mid input plain_rule plain_or h has (
          Grows-Binds bound input (eval_clause rec e (object (field name (array items) end)) input)
            (eval_clause-Grows e rec grows (object (field name (array items) end)) input) has)
    clause-Binds _ bound mid input plain h has = absurd (cc)
