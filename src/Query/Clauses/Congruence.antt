-- ===== src/Query/Clauses/Congruence.antt =====
-- Two evaluators that agree on smaller clauses give the same steps of `evalClauses` in go/query.go.
use Prim.Native.String.{String}
use package.text.Mathlib.Text.{◌==◌ as str_eq}
use fgraph.Base.{
  ℕ, suc, List, [], ◌∷◌, ◌++◌, ◌≡◌, refl, ap, fail, query_error, arith, ◌+◌, ◌≤◌, ◌<◌, In, inl, inr,
  all, if◌then◌else◌,
}
use fgraph.Query.Values.{
  Json, null, bool, integer, float, string, array, object, Items, nil, cons, end, field, items_of,
  Binding, distinct_bindings,
}
use fgraph.Query.Eval.{Eval, ◌>>=◌, done, lift, collect}
use fgraph.Query.Engine.{Engine}
use fgraph.Query.Order.{clause_variables}
use fgraph.Query.Clauses.{
  Evaluator, is_correlated, keep_unmatched, eval_not, eval_branch, eval_or, eval_rule, eval_object,
  eval_clause, unless_empty, eval_sequence, size, item_size, list_size,
}

-- the evaluators agree on clauses smaller than the number
abbrev pub Agree : ℕ → Evaluator → Evaluator → Type 0
Agree n left right = (clauses : List Json) → list_size clauses < n → left clauses ≡ right clauses

pub list_size-items_of : (items : Items) → list_size (items_of items) ≡ item_size items
unfolding list_size size items_of
list_size-items_of nil = refl
list_size-items_of (cons x rest) = ap (λ t. size x + t) (list_size-items_of rest)

collect-eq :
    {A B : Type 0} (left right : A → Eval (List B))
    → (xs : List A) → ((x : A) → In x xs → left x ≡ right x)
    → collect left xs ≡ collect right xs
unfolding collect
collect-eq left right [] h = refl
collect-eq left right (x ∷ xs) h = λ i. h x (inl refl) i >>= λ found.
    collect-eq left right xs (λ y m. h y (inr m)) i >>= λ others. done (found ++ others)

bind-eq :
    {A B : Type 0} {left right : Eval A} (next : A → Eval B)
    → left ≡ right
    → (left >>= next) ≡ (right >>= next)
bind-eq next h = λ i. h i >>= next

pub size_of_In : (c : Json) (clauses : List Json) → In c clauses → size c ≤ list_size clauses
unfolding list_size
size_of_In c [] m = absurd m.lower
size_of_In c (d ∷ rest) (inl e) = rw e (omega arith)
size_of_In c (d ∷ rest) (inr m) = omega (arith, size_of_In c rest m)

module _ (left right : Evaluator) (n : ℕ) (same : Agree n left right) where
  eval_not-eq :
      (clauses : List Json) (input : List Binding)
      → list_size clauses < n
      → eval_not left clauses input ≡ eval_not right clauses input
  unfolding eval_not keep_unmatched
  eval_not-eq clauses input h =
      ap
        (λ (step : Binding → Eval (List Binding)).
          if all (is_correlated (clause_variables clauses)) input
          then collect step input
          else lift (fail query_error))
        (λ i values. same clauses h i (values ∷ []) >>= λ matches.
          done (elim matches [ [] ↦ values ∷ [] | _ ↦ [] ]))

  eval_branch-eq :
      (input : List Binding) (branch : Json)
      → size branch < suc n
      → eval_branch left input branch ≡ eval_branch right input branch
  unfolding eval_branch size
  eval_branch-eq input (array items) h =
      ap (λ (t : List Binding → Eval (List Binding)). t input)
        (same (items_of items) (omega (arith, list_size-items_of items)))
  eval_branch-eq input null h = refl
  eval_branch-eq input (bool b) h = refl
  eval_branch-eq input (integer x) h = refl
  eval_branch-eq input (float b) h = refl
  eval_branch-eq input (string s) h = refl
  eval_branch-eq input (object fields) h = refl

  eval_or-eq :
      (branches : List Json) (input : List Binding)
      → list_size branches < suc n
      → eval_or left branches input ≡ eval_or right branches input
  unfolding eval_or
  eval_or-eq [] input h = refl
  eval_or-eq (branch ∷ branches) input h =
      bind-eq (λ found. done (distinct_bindings found))
        (collect-eq (eval_branch left input) (eval_branch right input) (branch ∷ branches)
          (λ b m. eval_branch-eq input b (omega (arith, size_of_In b (branch ∷ branches) m))))

  eval_object-eq :
      (e : Engine) (name : String) (items : List Json) (input : List Binding)
      → list_size items < n
      → eval_object left e name items input ≡ eval_object right e name items input
  unfolding eval_object
  eval_object-eq e name items input h = λ i.
      if str_eq name "not"
      then eval_not-eq items input h i
      else if str_eq name "or"
      then eval_or-eq items input (omega arith) i
      else if str_eq name "rule"
      then eval_rule e items input
      else lift (fail query_error)

  eval_clause-eq :
      (e : Engine) (c : Json) (input : List Binding)
      → size c < suc n
      → eval_clause left e c input ≡ eval_clause right e c input
  unfolding eval_clause size
  eval_clause-eq e (object (field name (array items) end)) input h =
      eval_object-eq e name (items_of items) input (omega (arith, list_size-items_of items))
  eval_clause-eq e (array items) input h = refl
  eval_clause-eq e c input h = refl

  pub eval_sequence-eq :
      (e : Engine) (clauses : List Json) (input : List Binding)
      → ((c : Json) → In c clauses → size c < suc n)
      → eval_sequence left e clauses input ≡ eval_sequence right e clauses input
  unfolding eval_sequence
  eval_sequence-eq e [] input h = refl
  eval_sequence-eq e (c ∷ rest) input h = λ i.
      eval_clause-eq e c input (h c (inl refl)) i
      >>= unless_empty (λ rows. eval_sequence-eq e rest rows (λ d m. h d (inr m)) i)
