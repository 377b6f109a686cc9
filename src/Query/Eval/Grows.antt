-- ===== src/Query/Eval/Grows.antt =====
-- The bindings that a step of a query gives for those that it is given (go/query.go).
use fgraph.Base.{
  ℕ, Bool, true, false, List, [], ◌∷◌, ◌≡◌, refl, sym, ap, subst, ◌∙◌, arith, if◌then◌else◌, Kind,
  Result, ok, fail, ◌≤◌, ◌<◌, ◌⊎◌, In, inl, inr, In-append,
}
use fgraph.Diff.Run.{ok-injective}
use fgraph.Query.Values.{Binding, distinct_bindings}
use fgraph.Query.Values.Distinct.{distinct_bindings-In}
use fgraph.Query.Eval.{Eval, ◌>>=◌, done, lift, spend, collect, >>=-eq-ok, done-injective}
use fgraph.Query.Eval.Budget.{spend-lt}
use fgraph.Query.Terms.Extends.{Extends, Extends-refl, Extends-trans}

-- A binding of the result: it extends one that the step was given, or is one, where no work is done.
abbrev pub From : List Binding → ℕ → ℕ → Binding → Type 0
From input work after b = (a : Binding) × In a input × Extends a b × ((b ≡ a) ⊎ (work < after))

abbrev pub Grows : List Binding → Eval (List Binding) → Type 0
Grows input step =
    (work : ℕ) (out : List Binding) (after : ℕ)
    → step work ≡ ok (out, after)
    → (work ≤ after) × ((b : Binding) → In b out → From input work after b)

-- after some work
abbrev pub Reaches : Binding → Eval (List Binding) → Type 0
Reaches values step =
    (work : ℕ) (out : List Binding) (after : ℕ)
    → step work ≡ ok (out, after)
    → (work ≤ after) × ((b : Binding) → In b out → Extends values b)

pub done-after : {A : Type 0} {p q : A × ℕ} → ok p ≡ ok q → p.1 ≡ q.1
done-after {A} h = ap (λ (r : A × ℕ). r.1) (ok-injective h)

pub done-Grows :
    (input xs : List Binding) → ((b : Binding) → In b xs → In b input) → Grows input (done xs)
done-Grows input xs sub work out after h = (
  omega (arith, done-after h),
  λ b m. (b, sub b (subst (In b) (sym (done-injective h)) m), Extends-refl b, inl refl),
)

pub fail-Grows : (input : List Binding) (kind : Kind) → Grows input (lift (fail kind))
fail-Grows input kind work out after h = absurd (cc)

pub lift-Grows :
    {A : Type 0} (input : List Binding) (r : Result A) (next : A → Eval (List Binding))
    → ((x : A) → Grows input (next x))
    → Grows input (lift r >>= next)
lift-Grows input (ok x) next g work out after h = g x work out after h
lift-Grows input (fail kind) next g work out after h = absurd (cc)

pub lift-Reaches :
    {A : Type 0} (values : Binding) (r : Result A) (next : A → Eval (List Binding))
    → ((x : A) → r ≡ ok x → Reaches values (next x))
    → Reaches values (lift r >>= next)
lift-Reaches values (ok x) next g work out after h = g x refl work out after h
lift-Reaches values (fail kind) next g work out after h = absurd (cc)

pub done-Reaches :
    (values : Binding) (xs : List Binding)
    → ((b : Binding) → In b xs → Extends values b)
    → Reaches values (done xs)
done-Reaches values xs sub work out after h =
    (omega (arith, done-after h), λ b m. sub b (subst (In b) (sym (done-injective h)) m))

pub spend-Grows :
    (budget : ℕ) (values : Binding) (next : Eval (List Binding))
    → Reaches values next
    → Grows (values ∷ []) (spend budget >>= λ _. next)
spend-Grows budget values next g work out after h =
    let (u, m, s, k) = >>=-eq-ok (spend budget) (λ _. next) work h in
    let (le, ext) = g m out after k in
    let e = spend-lt budget work u m s in
    (omega (arith, le, e), λ b i. (values, inl refl, ext b i, inr (omega (arith, le, e))))

-- a step that is given fewer bindings
pub Grows-weaken :
    (few many : List Binding) (step : Eval (List Binding))
    → ((b : Binding) → In b few → In b many)
    → Grows few step
    → Grows many step
Grows-weaken few many step sub g work out after h =
    let (le, from) = g work out after h in
    (le, λ b m. let (a, i, x, z) = from b m in (a, sub a i, x, z))

pub collect-Grows :
    {A : Type 0} (input : List Binding) (step : A → Eval (List Binding)) (xs : List A)
    → ((x : A) → In x xs → Grows input (step x))
    → Grows input (collect step xs)
unfolding collect
collect-Grows input step [] g work out after h =
    done-Grows input [] (λ b m. absurd m.lower) work out after h
collect-Grows input step (x ∷ xs) g work out after h =
    let (found, m, first, k) = >>=-eq-ok (step x) _ work h in
    let (others, n, rest, e) = >>=-eq-ok (collect step xs) _ m k in
    let (le, from) = g x (inl refl) work found m first in
    let (further, more) = collect-Grows input step xs (λ y i. g y (inr i)) m others n rest in
    let same = done-after e in
    (
      omega (arith, le, further, same),
      λ b i. elim (In-append b found others (subst (In b) (sym (done-injective e)) i)) [
        | inl j ↦ later (from b j) (omega arith) (omega (arith, further, same))
        | inr j ↦ later (more b j) le (omega (arith, same))
      ],
    )
  where
    later : {w v u t : ℕ} {b : Binding} → From input w v b → t ≤ w → v ≤ u → From input t u b
    later (a, i, x, inl e) p q = (a, i, x, inl e)
    later (a, i, x, inr l) p q = (a, i, x, inr (omega (arith, p, q, l)))

-- Bindings that are in the results of two steps.
pub >>=-Grows :
    (input : List Binding) (first : Eval (List Binding)) (next : List Binding → Eval (List Binding))
    → Grows input first
    → ((found : List Binding) → Grows found (next found))
    → Grows input (first >>= next)
>>=-Grows input first next g f work out after h =
    let (found, m, p, k) = >>=-eq-ok first next work h in
    let (le, from) = g work found m p in
    let (further, last) = f found m out after k in
    (
      omega (arith, le, further),
      λ c j.
          let (b, i, x, z) = last c j in
          let (a, i', x', z') = from b i in (a, i', Extends-trans a b c x' x, both le further z' z),
    )
  where
    both :
        {w v u : ℕ} {a b c : Binding}
        → w ≤ v
        → v ≤ u
        → (b ≡ a) ⊎ (w < v)
        → (c ≡ b) ⊎ (v < u)
        → (c ≡ a) ⊎ (w < u)
    both p q (inl e) (inl f) = inl (f ∙ e)
    both p q (inl e) (inr l) = inr (omega (arith, p, l))
    both p q (inr k) z = inr (omega (arith, q, k))

pub distinct-Grows :
    (input : List Binding) (step : Eval (List Binding))
    → Grows input step
    → Grows input (step >>= λ found. done (distinct_bindings found))
distinct-Grows input step g =
    >>=-Grows input step (λ found. done (distinct_bindings found)) g
      (λ found. done-Grows found (distinct_bindings found) (distinct_bindings-In found))

pub if-Grows :
    (input : List Binding) (test : Bool) {x y : Eval (List Binding)}
    → Grows input x
    → Grows input y
    → Grows input (if test then x else y)
if-Grows input true a b = a
if-Grows input false a b = b

-- a step after one whose bindings are only looked at
pub after-Grows :
    (input other : List Binding) (first : Eval (List Binding))
    (next : List Binding → Eval (List Binding))
    → Grows other first
    → ((found : List Binding) → Grows input (next found))
    → Grows input (first >>= next)
after-Grows input other first next g f work out after h =
    let (found, m, p, k) = >>=-eq-ok first next work h in
    let (le, _) = g work found m p in
    let (further, last) = f found m out after k in
    (omega (arith, le, further), λ b j. let (a, i, x, z) = last b j in (a, i, x, wider le z))
  where
    wider : {w v u : ℕ} {a b : Binding} → w ≤ v → (b ≡ a) ⊎ (v < u) → (b ≡ a) ⊎ (w < u)
    wider p (inl f) = inl f
    wider p (inr l) = inr (omega (arith, p, l))
