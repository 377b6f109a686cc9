-- ===== src/Query/Clauses/Meaning.antt =====
-- What negation and disjunction keep (`evalNot`, `evalOr` of go/query.go).

use fgraph.Base.{
  ℕ, Bool, true, false, List, [], ◌∷◌, ◌≡◌, refl, sym, subst, ok, fail, query_error, all, In, inl,
  inr, ◌⊎◌, if◌then◌else◌,
}
use fgraph.Query.Values.{Json, Binding, same_binding, distinct_bindings}
use fgraph.Query.Values.Distinct.{distinct_bindings-In, distinct_bindings-covers}
use fgraph.Query.Eval.{Eval, done, lift, collect, >>=-eq-ok, done-injective, In-collect, collect-In}
use fgraph.Query.Engine.{Engine}
use fgraph.Query.Order.{clause_variables}
use fgraph.Query.Clauses.{
  Evaluator, is_correlated, keep_unmatched, eval_not, eval_branch, eval_or, eval_clauses,
}

if_ok :
    (test : Bool) (step : Eval (List Binding)) (work : ℕ) {out : List Binding} {after : ℕ}
    → (if test then step else lift (fail query_error)) work ≡ ok (out, after)
    → step work ≡ ok (out, after)
if_ok true step work h = h
if_ok false step work h = absurd (cc)

-- what one binding gives
keep_unmatched-cases :
    (rec : Evaluator) (clauses : List Json) (values : Binding) (work : ℕ) {out : List Binding}
    {after : ℕ}
    → keep_unmatched rec clauses values work ≡ ok (out, after)
    → (matches : List Binding) × (m : ℕ) × (rec clauses (values ∷ []) work ≡ ok (matches, m))
      × (((matches ≡ []) × (out ≡ values ∷ []))
          ⊎ ((x : Binding) × (xs : List Binding) × (matches ≡ x ∷ xs) × (out ≡ [])))
unfolding keep_unmatched
keep_unmatched-cases rec clauses values work {out} h =
    let (matches, m, first, k) = >>=-eq-ok (rec clauses (values ∷ [])) _ work h in
    (matches, m, first, split matches (sym (done-injective k)))
  where
    split :
        (matches : List Binding)
        → out ≡ (elim matches as (λ _. List Binding) [ [] ↦ values ∷ [] | _ ↦ [] ])
        → ((matches ≡ []) × (out ≡ values ∷ []))
          ⊎ ((x : Binding) × (xs : List Binding) × (matches ≡ x ∷ xs) × (out ≡ []))
    split [] e = inl (refl, e)
    split (x ∷ xs) e = inr (x, xs, refl, e)

-- Where a negation returns, its result holds bindings of the input for which its clauses have no match,
-- and each binding of the input is in the result or has a match.
pub eval_not-In :
    (e : Engine) (clauses : List Json) (input : List Binding) (work : ℕ) (out : List Binding)
    (after : ℕ)
    → eval_not (eval_clauses e) clauses input work ≡ ok (out, after)
    → ((b : Binding)
        → In b out
        → In b input × ((m : ℕ) × (n : ℕ) × (eval_clauses e clauses (b ∷ []) m ≡ ok ([], n))))
      × ((b : Binding)
          → In b input
          → In b out
            ⊎ ((x : Binding) × (xs : List Binding) × (m : ℕ) × (n : ℕ) × (eval_clauses e clauses
                    (b ∷ [])
                    m
                  ≡ ok (x ∷ xs, n))))
unfolding eval_not
eval_not-In e clauses input work out after h =
    let run : collect (keep_unmatched (eval_clauses e) clauses) input work ≡ ok (out, after) =
      if_ok (all (is_correlated (clause_variables clauses)) input)
        (collect (keep_unmatched (eval_clauses e) clauses) input) work h in
    (
      λ b m.
          let (values, found, v, w, at, stepped, i) =
            In-collect (keep_unmatched (eval_clauses e) clauses) input work run b m in
          let (matches, u, ran, cases) =
            keep_unmatched-cases (eval_clauses e) clauses values v stepped in
          elim cases [
            | inl (no_match, kept) ↦ only values b v u at (rw no_match at ran) (subst (In b) kept i)
            | inr (_, _, _, dropped) ↦ absurd (subst (In b) dropped i).lower
          ],
      λ b m.
          let (found, v, w, stepped, within) =
            collect-In (keep_unmatched (eval_clauses e) clauses) input work run b m in
          let (matches, u, ran, cases) =
            keep_unmatched-cases (eval_clauses e) clauses b v stepped in
          elim cases [
            | inl (_, kept) ↦ inl (within b (subst (In b) (sym kept) (inl refl)))
            | inr (x, xs, hit, _) ↦ inr (x, xs, v, u, (rw hit at ran))
          ],
    )
  where
    only :
        (values b : Binding) (v u : ℕ)
        → In values input
        → eval_clauses e clauses (values ∷ []) v ≡ ok ([], u)
        → In b (values ∷ [])
        → In b input × ((m : ℕ) × (n : ℕ) × (eval_clauses e clauses (b ∷ []) m ≡ ok ([], n)))
    only values b v u at ran (inl e) = (rw e at, (v, u, rw e ran))
    only values b v u at ran (inr k) = absurd k.lower

-- Where a disjunction returns, each binding of its result is in what some branch gives, and each
-- binding that a branch gives, or one that is the same, is in the result.
pub eval_or-In :
    (e : Engine) (branches : List Json) (input : List Binding) (work : ℕ) (out : List Binding)
    (after : ℕ)
    → eval_or (eval_clauses e) branches input work ≡ ok (out, after)
    → ((b : Binding)
        → In b out
        → (branch : Json) × (found : List Binding) × (m : ℕ) × (n : ℕ) × In branch branches
          × (eval_branch (eval_clauses e) input branch m ≡ ok (found, n))
          × In b found)
      × ((branch : Json)
          → In branch branches
          → (found : List Binding) × (m : ℕ) × (n : ℕ) × (eval_branch
                (eval_clauses e)
                input
                branch
                m
              ≡ ok (found, n))
            × ((b : Binding)
                → In b found
                → In b out ⊎ ((s : Binding) × In s out × (same_binding b s ≡ true))))
unfolding eval_or
eval_or-In e [] input work out after h = absurd (cc)
eval_or-In e (first ∷ others) input work out after h =
    let step = eval_branch (eval_clauses e) input in
    let (all_found, m, ran, k) =
      >>=-eq-ok (collect step (first ∷ others)) (λ found. done (distinct_bindings found)) work h in
    let same : distinct_bindings all_found ≡ out = done-injective k in
    (
      λ b i.
          In-collect step (first ∷ others) work ran b
            (distinct_bindings-In all_found b (subst (In b) (sym same) i)),
      λ branch i.
          let (found, v, w, stepped, within) = collect-In step (first ∷ others) work ran branch i in
          (
            found,
            v,
            w,
            stepped,
            λ b j.
                subst (λ rows. In b rows ⊎ ((s : Binding) × In s rows × (same_binding b s ≡ true)))
                  same (distinct_bindings-covers all_found b (within b j)),
          ),
    )
