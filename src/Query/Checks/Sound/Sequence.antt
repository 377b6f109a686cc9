-- ===== src/Query/Checks/Sound/Sequence.antt =====
-- Lists of clauses of go/query.go: the check follows the order in which they are written, the
-- evaluation the order of `orderQueryClauses`.

use mathlib.Core.List.Permᴰ
use Prim.Native.String.{String}
use fgraph.Base.{
  ℕ, zero, suc, Bool, true, List, [], ◌∷◌, ◌++◌, ◌≡◌, sym, subst, ◌∙◌, all, ok, query_error,
  >>=-eq-ok as try-eq-ok, In, inl, inr, ◌⊎◌, In-append-left, both_true, all-In,
}
use fgraph.Diff.Run.{ok-injective}
use fgraph.Query.Values.{Json, Items, items_of, Binding, is_bound}
use fgraph.Query.Eval.{>>=-eq-ok, done-injective}
use fgraph.Query.Eval.Grows.{Grows}
use fgraph.Query.Engine.{Engine}
use fgraph.Query.Patterns.Binds.{Binds, fail-Binds}
use fgraph.Query.Order.{initial_names}
use fgraph.Query.Order.Reordered.{Reordered, nothing, barrier, patterns, order_clauses-Reordered}
use fgraph.Query.Clauses.{
  Evaluator, eval_clause, unless_empty, eval_sequence, eval_step, run_clauses, eval_clauses,
  no_evaluator, list_size,
}
use fgraph.Query.Clauses.Grows.{eval_sequence-Grows, run_clauses-Grows}
use fgraph.Query.Clauses.Equation.{Perm-In}
use fgraph.Query.Checks.{Names, check_clause, check_clauses}
use fgraph.Query.Checks.Sound.{plain_clause, plain_clauses, HasArities, Have, Grows-Binds}
use fgraph.Query.Checks.Sound.Clause.{clause-Binds}
use fgraph.Query.Checks.Sound.Blocks.{
  check_list, check_clauses-list, plain_clauses-list, eval_sequence-append, eval_sequence-Binds,
  block-names, all-append-left,
}

module _ (e : Engine) (arities : HasArities e) (is_attribute : String → Bool) where
  -- the evaluator binds what the check says of clauses inside others
  abbrev Sound : Evaluator → Type 0
  Sound rec =
      (clauses : Items) (bound after : Names) (input : List Binding)
      → plain_clauses clauses ≡ true
      → check_clauses is_attribute clauses bound ≡ ok after
      → Have bound input
      → Binds (λ name. In name after) (rec (items_of clauses) input)

  module _ (rec : Evaluator)
      (grows : (clauses : List Json) (input : List Binding) → Grows input (rec clauses input))
      (sound : Sound rec) where
    -- a name of a pattern is bound by every evaluation of the pattern
    alone-Binds :
        (c : Json) (names : Names) (input : List Binding)
        → plain_clause c ≡ true
        → check_clause is_attribute c [] ≡ ok (names ++ [])
        → Binds (λ name. In name names) (eval_clause rec e c input)
    alone-Binds c names input plain h work out after ran b m name n =
        clause-Binds e arities is_attribute rec grows sound c [] (names ++ []) input plain h
          (λ a i x j. absurd j.lower) work out after ran b m name (In-append-left name names [] n)

    sequence-Binds :
        {xs ys : List Json}
        → Reordered xs ys
        → (bound after : Names) (input : List Binding) → all plain_clause xs ≡ true
        → check_list is_attribute xs bound ≡ ok after
        → Have bound input
        → Binds (λ name. In name after) (eval_sequence rec e ys input)
    unfolding eval_sequence
    sequence-Binds nothing bound after input plain h has work out end_work ran b m name n =
        has b (subst (In b) (sym (done-injective ran)) m) name
          (subst (In name) (sym (ok-injective h)) n)
    sequence-Binds (barrier {c} {xs} {ys} p r) bound after input plain h has work out end_work ran b
          m name n =
        let (plain_c, plain_rest) = both_true (plain_clause c) (all plain_clause xs) plain in
        let (mid, checked, k) = try-eq-ok (check_clause is_attribute c bound) _ h in
        let (found, v, first, l) =
          >>=-eq-ok (eval_clause rec e c input) (unless_empty (eval_sequence rec e ys)) work ran in
        go mid found v l
          (clause-Binds e arities is_attribute rec grows sound c bound mid input plain_c checked has
            work found v first)
          (λ rows u t j. sequence-Binds r mid after rows plain_rest k j u out end_work t b m name n)
      where
        go :
            (mid : Names) (found : List Binding) (v : ℕ)
            → unless_empty (eval_sequence rec e ys) found v ≡ ok (out, end_work)
            → Have mid found
            → ((rows : List Binding) (u : ℕ)
                → eval_sequence rec e ys rows u ≡ ok (out, end_work)
                → Have mid rows
                → is_bound b name ≡ true)
            → is_bound b name ≡ true
        go mid [] v l j ih = absurd (subst (In b) (sym (done-injective l)) m).lower
        go mid (x ∷ rest) v l j ih = ih (x ∷ rest) v l j
    sequence-Binds (patterns {bs} {cs} {xs} {ys} p perm r) bound after input plain h has work out
          end_work ran b m name n =
        let (plain_bs, plain_xs) = all-append-left bs xs plain in
        let (mid, checked, origin) = block-names is_attribute bs xs bound after p h in
        let (found, v, first, cases) =
          eval_sequence-append rec e cs ys input work out end_work ran in
        elim cases [
          | inl empty ↦ absurd (subst (In b) empty m).lower
          | inr l ↦
              sequence-Binds r mid after found plain_xs checked
                (given mid origin plain_bs found v first) v out end_work l b m name n
        ]
      where
        given :
            (mid : Names)
            → ((x : String)
                → In x mid
                → In x bound
                  ⊎ ((c : Json) × (names : Names) × In c bs
                      × In x names
                      × (check_clause is_attribute c [] ≡ ok (names ++ []))))
            → all plain_clause bs ≡ true
            → (found : List Binding) (v : ℕ) → eval_sequence rec e cs input work ≡ ok (found, v)
            → Have mid found
        given mid origin plain_bs found v first a i x j = elim (origin x j) [
          | inl k ↦
              Grows-Binds bound input (eval_sequence rec e cs input)
                (eval_sequence-Grows e rec grows cs input) has work found v first a i x k
          | inr (c, names, at, k, checked) ↦
              eval_sequence-Binds rec e grows (λ y. In y names) c cs
                (Perm-In c (Permᴰ.symm perm) at)
                (λ rows. alone-Binds c names rows (all-In plain_clause c bs plain_bs at) checked)
                input work found v first a i x k
        ]

  run_clauses-Sound : (n : ℕ) → Sound (run_clauses no_evaluator n e)
  unfolding run_clauses eval_step
  run_clauses-Sound zero clauses bound after input plain h has =
      fail-Binds (λ name. In name after) query_error
  run_clauses-Sound (suc n) clauses bound after input plain h has =
      sequence-Binds (run_clauses no_evaluator n e) (run_clauses-Grows e n) (run_clauses-Sound n)
        (order_clauses-Reordered (initial_names input) (items_of clauses)) bound after input
        (sym (plain_clauses-list clauses) ∙ plain)
        (sym (check_clauses-list is_attribute clauses bound) ∙ h) has

-- Where the relations have the arities of their rules, and no variable stands inside a term or as the
-- name of a rule: if clauses pass the check for variables that every binding of the input has, then
-- each binding of their result has all the variables that are bound after the check.
pub eval_clauses-Sound :
    (e : Engine) (is_attribute : String → Bool) (clauses : Items) (bound after : Names)
    (input : List Binding) (work : ℕ) (out : List Binding) (end_work : ℕ)
    → HasArities e
    → plain_clauses clauses ≡ true
    → check_clauses is_attribute clauses bound ≡ ok after
    → Have bound input
    → eval_clauses e (items_of clauses) input work ≡ ok (out, end_work)
    → Have after out
unfolding eval_clauses
eval_clauses-Sound e is_attribute clauses bound after input work out end_work arities plain h has
      ran b m name n =
    run_clauses-Sound e arities is_attribute (suc (list_size (items_of clauses))) clauses bound
      after input plain h has work out end_work ran b m name n
