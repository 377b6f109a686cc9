-- ===== src/Query/Order/Reordered.antt =====
-- What `orderQueryClauses` of go/query.go may do to the clauses of a query.
use mathlib.Core.List.{Permᴰ}
use mathlib.Core.List.Permᴰ
use fgraph.Base.{
  ℕ, zero, suc, true, false, List, [], ◌∷◌, ◌++◌, ◌≡◌, refl, ap, subst, leb, length, all,
  Bool-cases, inl, inr, all-append,
}
use Prim.Native.String.{String}
use fgraph.Query.Values.{Json}
use fgraph.Query.Order.{
  is_pattern, clause_rank, choose_clause, order_block, order_from, order_clauses, variables_of,
  barrier_variables, clause_variables,
}

-- One list is the other with patterns that stand side by side in another order: other clauses keep
-- their places, and no pattern passes one of them.
pub data Reordered : List Json → List Json → Type 0 where
  nothing : Reordered [] []
  barrier :
      {c : Json} {xs ys : List Json}
      → is_pattern c ≡ false
      → Reordered xs ys
      → Reordered (c ∷ xs) (c ∷ ys)
  patterns :
      {bs cs xs ys : List Json}
      → all is_pattern bs ≡ true
      → Permᴰ bs cs
      → Reordered xs ys
      → Reordered (bs ++ xs) (cs ++ ys)

choose_clause-Perm :
    (bound : List String) (c : Json) (rest : List Json)
    → Permᴰ (c ∷ rest) ((choose_clause bound c rest).0 ∷ (choose_clause bound c rest).1)
unfolding choose_clause
choose_clause-Perm bound c [] = Permᴰ.refl (c ∷ [])
choose_clause-Perm bound c (d ∷ rest) =
    elim (Bool-cases
      (leb (clause_rank bound c) (clause_rank bound (choose_clause bound d rest).0))) [
        | inl le ↦ rw le (Permᴰ.refl (c ∷ d ∷ rest))
        | inr gt ↦
            rw gt (
              Permᴰ.trans (Permᴰ.cons refl (choose_clause-Perm bound d rest))
                (Permᴰ.swap refl refl))
      ]

order_block-Perm :
    (n : ℕ) (bound : List String) (block : List Json) → Permᴰ block (order_block n bound block)
unfolding order_block
order_block-Perm zero bound block = Permᴰ.refl block
order_block-Perm (suc n) bound [] = Permᴰ.nil
order_block-Perm (suc n) bound (c ∷ rest) = Permᴰ.trans (choose_clause-Perm bound c rest) (
    Permᴰ.cons refl (
      order_block-Perm n (variables_of (choose_clause bound c rest).0 ++ bound)
        (choose_clause bound c rest).1))

append_one : (bs : List Json) (c : Json) (xs : List Json) → (bs ++ c ∷ []) ++ xs ≡ bs ++ c ∷ xs
append_one [] c xs = refl
append_one (b ∷ bs) c xs = ap (λ t. b ∷ t) (append_one bs c xs)

append_nil : (bs : List Json) → bs ++ [] ≡ bs
append_nil [] = refl
append_nil (b ∷ bs) = ap (λ t. b ∷ t) (append_nil bs)

order_from-Reordered :
    (bound : List String) (bs cs : List Json)
    → all is_pattern bs ≡ true
    → Reordered (bs ++ cs) (order_from bound bs cs)
unfolding order_from
order_from-Reordered bound bs [] h =
    subst (λ t. Reordered (bs ++ []) t) (append_nil (order_block (length bs) bound bs))
      (patterns h (order_block-Perm (length bs) bound bs) nothing)
order_from-Reordered bound bs (c ∷ cs) h = elim (Bool-cases (is_pattern c)) [
  | inl p ↦
      rw (p, order_from)
        (subst (λ t. Reordered t (order_from bound (bs ++ c ∷ []) cs)) (append_one bs c cs)
          (order_from-Reordered bound (bs ++ c ∷ []) cs
            (all-append is_pattern bs (c ∷ []) h (rw p refl))))
  | inr p ↦
      rw (p, order_from)
        (patterns h (order_block-Perm (length bs) bound bs) (
          barrier p (
            order_from-Reordered (barrier_variables c ++ clause_variables bs ++ bound) [] cs refl)))
]

-- The ordered clauses are the given ones with patterns that stand side by side in another order: a
-- predicate, negation, disjunction or rule keeps its place, and no pattern passes one of them.
pub order_clauses-Reordered :
    (bound : List String) (clauses : List Json) → Reordered clauses (order_clauses bound clauses)
unfolding order_clauses
order_clauses-Reordered bound clauses = order_from-Reordered bound [] clauses refl
