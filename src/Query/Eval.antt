-- ===== src/Query/Eval.antt =====
-- Steps of a query that spend from its budget (`spend` of go/query.go): a step takes the work done so
-- far, and returns the work done with its value, or fails.
pub mod Budget
pub mod Grows
use fgraph.Diff.Run.{ok-injective}
use fgraph.Base.{
  ℕ, ◌+◌, Bool, true, false, List, [], ◌∷◌, ◌++◌, Option, none, some, ◌≡◌, refl, sym, ap, subst,
  arith, ◌==◌, leb, In, if◌then◌else◌, Kind, Result, ok, fail, too_large, ◌≤◌, inl, inr, ◌⊎◌,
  In-append, In-append-left, In-append-right,
}

abbrev pub Eval : Type 0 → Type 0
Eval A = ℕ → Result (A × ℕ)

infixl 5 ◌>>=◌
abbrev pub ◌>>=◌ : {A B : Type 0} → Eval A → (A → Eval B) → Eval B
◌>>=◌ first next work = elim (first work) [ ok (x, after) ↦ next x after | fail kind ↦ fail kind ]

abbrev pub done : {A : Type 0} → A → Eval A
done x work = ok (x, work)

abbrev pub lift : {A : Type 0} → Result A → Eval A
lift (ok x) work = ok (x, work)
lift (fail kind) work = fail kind

-- `DefaultQueryBudget`
abbrev pub default_query_budget : ℕ
default_query_budget = 100000

-- `spend`, where the query is not canceled
unfoldable pub spend : ℕ → Eval (Unit {0})
spend budget work =
    if leb (if budget == 0 then default_query_budget else budget) work
    then fail too_large
    else ok (tt, work + 1)

-- a loop that appends what each item gives
unfoldable pub collect : {A B : Type 0} → (A → Eval (List B)) → List A → Eval (List B)
collect step [] = done []
collect step (x ∷ rest) = do found ← step x; others ← collect step rest; done (found ++ others)

-- Inversion of two steps that return.
pub >>=-eq-ok :
    {A B : Type 0} (first : Eval A) (next : A → Eval B) (work : ℕ) {result : B × ℕ}
    → (first >>= next) work ≡ ok result
    → (x : A) × (after : ℕ) × (first work ≡ ok (x, after)) × (next x after ≡ ok result)
>>=-eq-ok {A} {B} first next work {result} h = go (first work) refl h
  where
    go :
        (r : Result (A × ℕ))
        → first work ≡ r
        → (elim r as (λ _. Result (B × ℕ)) [ ok (x, after) ↦ next x after | fail kind ↦ fail kind ])
          ≡ ok result
        → (x : A) × (after : ℕ) × (first work ≡ ok (x, after)) × (next x after ≡ ok result)
    go (ok (x, after)) e k = (x, after, e, k)
    go (fail kind) e k = cc

-- the values of two equal results
pub done-injective : {A : Type 0} {p q : A × ℕ} → ok p ≡ ok q → p.0 ≡ q.0
done-injective {A} h = ap (λ (r : A × ℕ). r.0) (ok-injective h)

-- What a loop returns: each part is what some item gave, and what each item gave is in it.
pub In-collect :
    {A B : Type 0} (step : A → Eval (List B)) (xs : List A) (work : ℕ) {out : List B} {after : ℕ}
    → collect step xs work ≡ ok (out, after)
    → (b : B) → In b out
    → (x : A) × (found : List B) × (m : ℕ) × (n : ℕ) × In x xs
      × (step x m ≡ ok (found, n))
      × In b found
unfolding collect
In-collect {A} {B} step [] work h b i = absurd (subst (In b) (sym (done-injective h)) i).lower
In-collect step (x ∷ xs) work {out} h b i =
    let (found, m, first, k) = >>=-eq-ok (step x) _ work h in
    let (others, n, rest, e) = >>=-eq-ok (collect step xs) _ m k in
    elim (In-append b found others (subst (In b) (sym (done-injective e)) i)) [
      | inl j ↦ (x, found, work, m, inl refl, first, j)
      | inr j ↦
          let (y, ys, p, q, at, stepped, l) = In-collect step xs m rest b j in
          (y, ys, p, q, inr at, stepped, l)
    ]

pub collect-In :
    {A B : Type 0} (step : A → Eval (List B)) (xs : List A) (work : ℕ) {out : List B} {after : ℕ}
    → collect step xs work ≡ ok (out, after)
    → (x : A) → In x xs
    → (found : List B) × (m : ℕ) × (n : ℕ) × (step x m ≡ ok (found, n))
      × ((b : B) → In b found → In b out)
unfolding collect
collect-In step [] work h x i = absurd i.lower
collect-In step (y ∷ xs) work h x i =
    let (found, m, first, k) = >>=-eq-ok (step y) _ work h in
    let (others, n, rest, e) = >>=-eq-ok (collect step xs) _ m k in
    elim i [
      | inl p ↦ (
        found,
        work,
        m,
        rw p first,
        λ b j. subst (In b) (done-injective e) (In-append-left b found others j),
      )
      | inr p ↦
          let (ys, s, t, stepped, l) = collect-In step xs m rest x p in
          (
            ys,
            s,
            t,
            stepped,
            λ b j. subst (In b) (done-injective e) (In-append-right b found others (l b j)),
          )
    ]
