-- ===== src/Query/Checks/Sound/Blocks.antt =====
-- Blocks of patterns of go/query.go, which the check reads in one order and the evaluation in another.

use Prim.Native.String.{String}
use fgraph.Base.{
  ℕ, Bool, true, false, not, ◌&&◌, List, [], ◌∷◌, ◌++◌, ◌==◌, ==_iff, leb, ◌≡◌, refl, sym, ap,
  subst, ◌∙◌, arith, all, length, Result, ok, fail, query_error, ◌>>=◌ as try_then,
  >>=-eq-ok as try-eq-ok, In, inl, inr, ◌⊎◌, In-append, Bool-cases, both_true, if◌then◌else◌,
}
use fgraph.Diff.Run.{ok-injective}
use fgraph.Query.Values.{Json, array, Items, nil, cons, items_of, Binding, is_bound}
use fgraph.Query.Eval.{Eval, ◌>>=◌, >>=-eq-ok, done-injective}
use fgraph.Query.Eval.Grows.{Grows}
use fgraph.Query.Engine.{Engine}
use fgraph.Query.Patterns.Binds.{Binds, Extends-is_bound}
use fgraph.Query.Order.{is_operator, is_predicate, is_pattern, clause_variables}
use fgraph.Query.Clauses.{Evaluator, eval_clause, unless_empty, eval_sequence}
use fgraph.Query.Clauses.Grows.{eval_sequence-Grows}
use fgraph.Query.Checks.{
  Names, check_predicate, check_pattern_clause, check_array, check_clause, check_clauses,
}
use fgraph.Query.Checks.Sound.{plain_clause, plain_clauses}
use fgraph.Query.Checks.Sound.Parts.{if-ok}

-- `check_clauses` of a list
abbrev pub check_list : (String → Bool) → List Json → Names → Result Names
check_list is_attribute [] bound = ok bound
check_list is_attribute (c ∷ rest) bound =
    try_then (check_clause is_attribute c bound) (check_list is_attribute rest)

pub check_clauses-list :
    (is_attribute : String → Bool) (items : Items) (bound : Names)
    → check_clauses is_attribute items bound ≡ check_list is_attribute (items_of items) bound
unfolding check_clauses items_of
check_clauses-list is_attribute nil bound = refl
check_clauses-list is_attribute (cons c rest) bound = λ i.
    try_then (check_clause is_attribute c bound) (λ mid. check_clauses-list is_attribute rest mid i)

pub plain_clauses-list : (items : Items) → plain_clauses items ≡ all plain_clause (items_of items)
unfolding plain_clauses items_of
plain_clauses-list nil = refl
plain_clauses-list (cons c rest) = ap (λ b. plain_clause c && b) (plain_clauses-list rest)

-- A pattern adds the same names to whatever is bound.
pattern-names :
    (is_attribute : String → Bool) (c : Json) (bound mid : Names)
    → is_pattern c ≡ true
    → check_clause is_attribute c bound ≡ ok mid
    → (names : Names) × (mid ≡ names ++ bound) × (check_clause is_attribute c [] ≡ ok (names ++ []))
unfolding is_pattern check_clause check_array check_pattern_clause check_predicate is_predicate
pattern-names is_attribute (array items) bound mid p h = of_list (items_of items) p h
  where
    no_pattern : false ≡ true → ⊥
    no_pattern k = cc

    too_long :
        (op attr term x : Json) (more : List Json)
        → check_predicate (op ∷ attr ∷ term ∷ x ∷ more) bound ≡ ok mid
        → ⊥
    too_long op attr term x more k =
        let (tests, _) = if-ok _ k in
        let (three, _) = both_true (length (op ∷ attr ∷ term ∷ x ∷ more) == 3) _ tests in
        omega (arith, (==_iff (length (op ∷ attr ∷ term ∷ x ∷ more)) 3).0 three)

    with_tests :
        (test : Bool) (names : Names)
        → (if test then ok (names ++ bound) else fail query_error) ≡ ok mid
        → (mid ≡ names ++ bound)
          × ((if test then ok (names ++ []) else fail query_error) ≡ ok (names ++ []))
    with_tests true names k = (sym (ok-injective k), refl)
    with_tests false names k = absurd (cc)

    of_list :
        (list : List Json)
        → (leb 3 (length list) && leb (length list) 5 && not (is_predicate list)) ≡ true
        → check_array is_attribute list bound ≡ ok mid
        → (names : Names) × (mid ≡ names ++ bound)
          × (check_array is_attribute list [] ≡ ok (names ++ []))
    of_list [] p k = absurd (cc)
    of_list (op ∷ []) p k = absurd (cc)
    of_list (op ∷ _ ∷ []) p k = absurd (cc)
    of_list (op ∷ attr ∷ term ∷ []) p k = elim (Bool-cases (is_operator op)) [
      | inl predicate ↦ absurd (no_pattern (rw predicate at p))
      | inr other ↦
          let (same, empty) =
            with_tests _ (clause_variables (op ∷ attr ∷ term ∷ []))
              (rw (check_array, other) at k) in
          (clause_variables (op ∷ attr ∷ term ∷ []), same, rw (check_array, other) empty)
    ]
    of_list (op ∷ attr ∷ term ∷ x ∷ more) p k = elim (Bool-cases (is_operator op)) [
      | inl predicate ↦ absurd (too_long op attr term x more (rw (check_array, predicate) at k))
      | inr other ↦
          let (same, empty) =
            with_tests _ (clause_variables (op ∷ attr ∷ term ∷ x ∷ more))
              (rw (check_array, other) at k) in
          (clause_variables (op ∷ attr ∷ term ∷ x ∷ more), same, rw (check_array, other) empty)
    ]
pattern-names is_attribute _ bound mid p h = absurd (cc)

bind-ok :
    {A B : Type 0} (first : Eval A) (next : A → Eval B) (work : ℕ) (x : A) (m : ℕ)
    → first work ≡ ok (x, m)
    → (first >>= next) work ≡ next x m
bind-ok {A} {B} first next work x m h =
    ap
      (λ r. elim r as (λ _. Result (B × ℕ)) [
        | ok (y, after) ↦ next y after
        | fail kind ↦ fail kind
      ])
      h

module _ (rec : Evaluator) (e : Engine) where
  pub eval_sequence-append :
      (cs ys : List Json) (input : List Binding) (work : ℕ) (out : List Binding) (after : ℕ)
      → eval_sequence rec e (cs ++ ys) input work ≡ ok (out, after)
      → (found : List Binding) × (m : ℕ) × (eval_sequence rec e cs input work ≡ ok (found, m))
        × ((out ≡ []) ⊎ (eval_sequence rec e ys found m ≡ ok (out, after)))
  unfolding eval_sequence unless_empty
  eval_sequence-append [] ys input work out after h = (input, work, refl, inr h)
  eval_sequence-append (c ∷ rest) ys input work out after h =
      let (first, v, ran, k) =
        >>=-eq-ok (eval_clause rec e c input) (unless_empty (eval_sequence rec e (rest ++ ys))) work
          h in
      let again =
        bind-ok (eval_clause rec e c input) (unless_empty (eval_sequence rec e rest)) work first v
          ran in
      let (found, m, k', cases) =
        split first v k (λ x xs l. eval_sequence-append rest ys (x ∷ xs) v out after l) in
      (found, m, again ∙ k', cases)
    where
      split :
          (first : List Binding) (v : ℕ)
          → unless_empty (eval_sequence rec e (rest ++ ys)) first v ≡ ok (out, after)
          → ((x : Binding) (xs : List Binding)
              → eval_sequence rec e (rest ++ ys) (x ∷ xs) v ≡ ok (out, after)
              → (found : List Binding) × (m : ℕ) × (eval_sequence rec e rest (x ∷ xs) v
                  ≡ ok (found, m))
                × ((out ≡ []) ⊎ (eval_sequence rec e ys found m ≡ ok (out, after))))
          → (found : List Binding) × (m : ℕ) × (unless_empty (eval_sequence rec e rest) first v
              ≡ ok (found, m))
            × ((out ≡ []) ⊎ (eval_sequence rec e ys found m ≡ ok (out, after)))
      split [] v k ih = ([], v, refl, inl (sym (done-injective k)))
      split (x ∷ xs) v k ih = ih x xs k

  module _
      (grows : (clauses : List Json) (input : List Binding) → Grows input (rec clauses input)) where
    -- what one of the clauses binds, their sequence binds
    pub eval_sequence-Binds :
        (Named : String → Type 0) (c : Json) (cs : List Json)
        → In c cs
        → ((input : List Binding) → Binds Named (eval_clause rec e c input))
        → (input : List Binding) → Binds Named (eval_sequence rec e cs input)
    unfolding eval_sequence unless_empty
    eval_sequence-Binds Named c [] m each input work out after h b i name n = absurd m.lower
    eval_sequence-Binds Named c (d ∷ rest) m each input work out after h b i name n =
        let (first, v, ran, k) =
          >>=-eq-ok (eval_clause rec e d input) (unless_empty (eval_sequence rec e rest)) work h in
        go v first k
          (λ a j l.
            each input work first v
              (subst (λ x. eval_clause rec e x input work ≡ ok (first, v)) (sym l) ran) a j name n)
          (λ rows u l j. eval_sequence-Binds Named c rest j each rows u out after l b i name n) m
      where
        later :
            (first : List Binding) (v : ℕ)
            → eval_sequence rec e rest first v ≡ ok (out, after)
            → ((a : Binding) → In a first → c ≡ d → is_bound a name ≡ true)
            → ((rows : List Binding) (u : ℕ)
                → eval_sequence rec e rest rows u ≡ ok (out, after)
                → In c rest
                → is_bound b name ≡ true)
            → In c (d ∷ rest)
            → is_bound b name ≡ true
        later first v k has ih (inl l) =
            let (a, at, ext, _) =
              (eval_sequence-Grows e rec grows rest first v out after k).1 b i in
            Extends-is_bound a b name ext (has a at l)
        later first v k has ih (inr j) = ih first v k j

        go :
            (v : ℕ) (first : List Binding)
            → unless_empty (eval_sequence rec e rest) first v ≡ ok (out, after)
            → ((a : Binding) → In a first → c ≡ d → is_bound a name ≡ true)
            → ((rows : List Binding) (u : ℕ)
                → eval_sequence rec e rest rows u ≡ ok (out, after)
                → In c rest
                → is_bound b name ≡ true)
            → In c (d ∷ rest)
            → is_bound b name ≡ true
        go v [] k has ih m = absurd (subst (In b) (sym (done-injective k)) i).lower
        go v (x ∷ xs) k has ih m = later (x ∷ xs) v k has ih m

-- where a list of patterns passes, each name after it was bound or stands in one of them
pub block-names :
    (is_attribute : String → Bool) (bs xs : List Json) (bound after : Names)
    → all is_pattern bs ≡ true
    → check_list is_attribute (bs ++ xs) bound ≡ ok after
    → (mid : Names) × (check_list is_attribute xs mid ≡ ok after)
      × ((name : String)
          → In name mid
          → In name bound
            ⊎ ((c : Json) × (names : Names) × In c bs
                × In name names
                × (check_clause is_attribute c [] ≡ ok (names ++ []))))
block-names is_attribute [] xs bound after p h = (bound, h, λ name m. inl m)
block-names is_attribute (c ∷ bs) xs bound after p h =
    let (first, others) = both_true (is_pattern c) (all is_pattern bs) p in
    let (next, checked, k) = try-eq-ok (check_clause is_attribute c bound) _ h in
    let (names, same, alone) = pattern-names is_attribute c bound next first checked in
    let (mid, passed, origin) = block-names is_attribute bs xs next after others k in
    (
      mid,
      passed,
      λ name m. elim (origin name m) [
        | inl i ↦ elim (In-append name names bound (subst (In name) same i)) [
          | inl j ↦ inr (c, names, inl refl, j, alone)
          | inr j ↦ inl j
        ]
        | inr (d, others_names, i, j, ok_d) ↦ inr (d, others_names, inr i, j, ok_d)
      ],
    )

pub all-append-left :
    (bs xs : List Json)
    → all plain_clause (bs ++ xs) ≡ true
    → (all plain_clause bs ≡ true) × (all plain_clause xs ≡ true)
all-append-left [] xs h = (refl, h)
all-append-left (b ∷ bs) xs h =
    let (first, rest) = both_true (plain_clause b) (all plain_clause (bs ++ xs)) h in
    let (left, right) = all-append-left bs xs rest in (rw (first, left) refl, right)
