-- ===== src/Query/Eval/Budget.antt =====
-- The work of the steps of a query (`queryEvaluator.work` of go/query.go).
use fgraph.Base.{
  ℕ, ◌+◌, Bool, true, false, List, [], ◌∷◌, ◌++◌, ◌≡◌, sym, ap, arith, ◌==◌, leb, if◌then◌else◌,
  Result, ok, fail, ◌≤◌, Bool-cases, inl, inr,
}
use fgraph.Diff.Run.{ok-injective}
use fgraph.Query.Eval.{Eval, ◌>>=◌, done, lift, default_query_budget, spend, collect, >>=-eq-ok}

-- the work that a budget allows
abbrev pub limit_of : ℕ → ℕ
limit_of budget = if budget == 0 then default_query_budget else budget

-- Where the step returns, its work does not shrink, and it does not pass the limit.
abbrev pub Spends : {A : Type 0} → ℕ → Eval A → Type 0
Spends {A} limit step =
    (work : ℕ) (x : A) (after : ℕ)
    → step work ≡ ok (x, after)
    → (work ≤ after) × (work ≤ limit → after ≤ limit)

pub done-Spends : {A : Type 0} (limit : ℕ) (x : A) → Spends limit (done x)
done-Spends limit x work y after h =
    let e = ap (λ p. p.1) (ok-injective h) in (omega (arith, e), λ k. omega (arith, e))

pub lift-Spends : {A : Type 0} (limit : ℕ) (r : Result A) → Spends limit (lift r)
lift-Spends limit (ok x) work y after h = done-Spends limit x work y after h
lift-Spends limit (fail kind) work y after h = absurd (cc)

pub spend-Spends : (budget : ℕ) → Spends (limit_of budget) (spend budget)
unfolding spend
spend-Spends budget work y after h = elim (Bool-cases (leb (limit_of budget) work)) [
  | inl full ↦ absurd (cc)
  | inr room ↦
      let e = ap (λ p. p.1) (ok-injective (rw room at h)) in
      (omega (arith, e), λ k. ground (arith, e, room))
]

pub spend-lt :
    (budget : ℕ) (work : ℕ) (x : Unit {0}) (after : ℕ)
    → spend budget work ≡ ok (x, after)
    → after ≡ work + 1
unfolding spend
spend-lt budget work y after h = elim (Bool-cases (leb (limit_of budget) work)) [
  | inl full ↦ absurd (cc)
  | inr room ↦ sym (ap (λ p. p.1) (ok-injective (rw room at h)))
]

pub >>=-Spends :
    {A B : Type 0} (limit : ℕ) (first : Eval A) (next : A → Eval B)
    → Spends limit first
    → ((x : A) → Spends limit (next x))
    → Spends limit (first >>= next)
>>=-Spends limit first next a b work y after h =
    let (x, m, p, q) = >>=-eq-ok first next work h in
    let (le, keep) = a work x m p in
    let (further, last) = b x m y after q in (omega (arith, le, further), λ k. last (keep k))

pub collect-Spends :
    {A B : Type 0} (limit : ℕ) (step : A → Eval (List B)) (xs : List A)
    → ((x : A) → Spends limit (step x))
    → Spends limit (collect step xs)
unfolding collect
collect-Spends limit step [] a = done-Spends limit []
collect-Spends limit step (x ∷ xs) a = >>=-Spends limit (step x) _ (a x) (λ found.
    >>=-Spends limit (collect step xs) _ (collect-Spends limit step xs a)
      (λ others. done-Spends limit (found ++ others)))

pub if-Spends :
    {A : Type 0} (limit : ℕ) (test : Bool) {x y : Eval A}
    → Spends limit x
    → Spends limit y
    → Spends limit (if test then x else y)
if-Spends limit true a b = a
if-Spends limit false a b = b
