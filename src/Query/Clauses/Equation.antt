-- ===== src/Query/Clauses/Equation.antt =====
-- The recursion of `evalClauses` in go/query.go: how much fuel is enough.
use mathlib.Core.List.{Permᴰ}
use fgraph.Base.{
  ℕ, zero, suc, List, ◌≡◌, sym, ap, arith, ◌≤◌, ◌<◌, In, inl, inr, In-append, In-append-left,
  In-append-right,
}
use fgraph.Query.Values.{Json, Binding}
use fgraph.Query.Engine.{Engine}
use fgraph.Query.Order.{order_clauses, initial_names}
use fgraph.Query.Order.Reordered.{Reordered, nothing, barrier, patterns, order_clauses-Reordered}
use fgraph.Query.Clauses.{
  Evaluator, eval_step, run_clauses, eval_clauses, no_evaluator, size, list_size,
}
use fgraph.Query.Clauses.Congruence.{Agree, size_of_In, eval_sequence-eq}

pub Perm-In : (c : Json) {xs ys : List Json} → Permᴰ xs ys → In c ys → In c xs
Perm-In c Permᴰ.nil m = m
Perm-In c (Permᴰ.cons e p) (inl h) = inl (rw e h)
Perm-In c (Permᴰ.cons e p) (inr h) = inr (Perm-In c p h)
Perm-In c (Permᴰ.swap e f) (inl h) = inr (inl (rw f h))
Perm-In c (Permᴰ.swap e f) (inr (inl h)) = inl (rw e h)
Perm-In c (Permᴰ.swap e f) (inr (inr h)) = inr (inr h)
Perm-In c (Permᴰ.trans p q) m = Perm-In c p (Perm-In c q m)

Reordered-In : (c : Json) {xs ys : List Json} → Reordered xs ys → In c ys → In c xs
Reordered-In c nothing m = m
Reordered-In c (barrier _ r) (inl h) = inl h
Reordered-In c (barrier _ r) (inr h) = inr (Reordered-In c r h)
Reordered-In c (patterns {bs} {cs} {xs} {ys} _ p r) m = elim (In-append c cs ys m) [
  | inl k ↦ In-append-left c bs xs (Perm-In c p k)
  | inr k ↦ In-append-right c bs xs (Reordered-In c r k)
]

eval_step-eq :
    (left right : Evaluator) (n : ℕ)
    → Agree n left right
    → (e : Engine) (clauses : List Json) → list_size clauses < suc n
    → eval_step left e clauses ≡ eval_step right e clauses
unfolding eval_step
eval_step-eq left right n same e clauses h = λ i input.
    eval_sequence-eq left right n same e (order_clauses (initial_names input) clauses) input
      (small input) i
  where
    small :
        (input : List Binding) (c : Json)
        → In c (order_clauses (initial_names input) clauses)
        → size c < suc n
    small input c m = omega (
      arith,
      size_of_In c clauses
          (Reordered-In c (order_clauses-Reordered (initial_names input) clauses) m),
    )

run_clauses-Agree :
    (base other : Evaluator) (e : Engine) (n m : ℕ)
    → n ≤ m
    → Agree n (run_clauses base n e) (run_clauses other m e)
unfolding run_clauses
run_clauses-Agree base other e zero m le clauses h = absurd (omega arith)
run_clauses-Agree base other e (suc n) zero le clauses h = absurd (omega arith)
run_clauses-Agree base other e (suc n) (suc m) le clauses h =
    eval_step-eq (run_clauses base n e) (run_clauses other m e) n
      (run_clauses-Agree base other e n m (omega arith)) e clauses h

-- With more fuel than the clauses have arrays and objects in all, the bottom is never reached: whatever
-- evaluates there, the result is that of `eval_clauses`.
pub run_clauses-eval_clauses :
    (base : Evaluator) (e : Engine) (n : ℕ) (clauses : List Json) (input : List Binding)
    → list_size clauses < n
    → run_clauses base n e clauses input ≡ eval_clauses e clauses input
unfolding eval_clauses
run_clauses-eval_clauses base e n clauses input h =
    ap (λ run. run input)
      (sym (
        run_clauses-Agree no_evaluator base e (suc (list_size clauses)) n (omega arith) clauses
          (omega arith)))
