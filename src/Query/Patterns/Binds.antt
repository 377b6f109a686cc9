-- ===== src/Query/Patterns/Binds.antt =====
-- The variables that patterns and rules of go/query.go bind.
use Prim.Native.String.{String}
use package.text.Mathlib.TextPositions.{eq_refl}
use fgraph.Base.{
  ℕ, Bool, true, false, List, [], ◌∷◌, Option, none, some, ◌≡◌, refl, sym, ap, subst, arith, ◌≤◌,
  length, keep, Result, ok, fail, Kind, In, inl, inr, Bool-cases, >>=-eq-ok as try-eq-ok,
  if◌then◌else◌,
}
use fgraph.Value.{ℤ}
use fgraph.Diff.Run.{ok-injective}
use fgraph.Query.Values.{
  Json, string, Cell, Binding, lookup, is_bound, distinct_bindings, cells_equal,
}
use fgraph.Query.Eval.{
  Eval, ◌>>=◌, done, lift, spend, collect, >>=-eq-ok, done-injective, In-collect,
}
use fgraph.Query.Values.Distinct.{distinct_bindings-In}
use fgraph.Query.Engine.{Engine}
use fgraph.Query.Terms.{
  variable, is_variable, match_prior, match_variable, match_shape, match_term, if_matched,
  match_terms,
}
use fgraph.Query.Terms.Extends.{Extends, match_terms-Extends}
use fgraph.Query.Rows.{
  Datom, base_rows, make_filter, passes, in_order, entity_positions, prepare_terms, actual_cells,
}
use fgraph.Query.Patterns.{
  to_list, read_row, read_rows, eval_indexed_pattern, entity_of, is_entity, entities_of, chunks,
  read_batch_row, chunk_rows, read_batch, BatchPlan, not_batched, no_attribute, batched, plan_batch,
  scan_pattern, check_pattern, is_missing, eval_pattern,
}
use fgraph.Query.Patterns.Batch.{variable-shape}

pub Extends-is_bound :
    (a b : Binding) (name : String) → Extends a b → is_bound a name ≡ true → is_bound b name ≡ true
unfolding is_bound
Extends-is_bound a b name ext h = bound (lookup a name) refl
  where
    bound : (c : Option Cell) → lookup a name ≡ c → is_bound b name ≡ true
    bound none e = let k : false ≡ true = rw (is_bound, e) at h in absurd (cc)
    bound (some c) e = rw (is_bound, ext name c e) refl

-- a variable that was matched has a cell
match_prior-is_bound :
    (name : String) (actual : Cell) (values : Binding) (prior : Option Cell) {new : Binding}
    → lookup values name ≡ prior
    → match_prior name actual values prior ≡ some new
    → is_bound new name ≡ true
unfolding match_prior is_bound lookup
match_prior-is_bound name actual values none known h =
    subst (λ b. is_bound b name ≡ true) (some-binding h) (rw (is_bound, eq_refl name) refl)
  where
    some-binding : {x y : Binding} → some x ≡ some y → x ≡ y
    some-binding {x} k = ap (λ o. elim o as (λ _. Binding) [ some z ↦ z | none ↦ x ]) k
match_prior-is_bound name actual values (some prior) known h =
    elim (Bool-cases (cells_equal prior actual)) [
      | inl same ↦
          subst (λ b. is_bound b name ≡ true) (some-binding (rw same at h))
            (rw (is_bound, known) refl)
      | inr apart ↦ absurd (cc)
    ]
  where
    some-binding : {x y : Binding} → some x ≡ some y → x ≡ y
    some-binding {x} k = ap (λ o. elim o as (λ _. Binding) [ some z ↦ z | none ↦ x ]) k

-- every variable among the terms has a cell after they were matched
pub match_terms-is_bound :
    (e : Engine) (terms : List Json) (actuals : List (Cell × Bool)) (values : Binding)
    {new : Binding}
    → length terms ≤ length actuals
    → match_terms e terms actuals values ≡ ok (some new)
    → (name : String) → In (string name) terms
    → is_variable name ≡ true
    → is_bound new name ≡ true
unfolding match_terms match_term match_shape match_variable if_matched
match_terms-is_bound e [] actuals values le h name m v = absurd m.lower
match_terms-is_bound e (term ∷ rest) [] values le h name m v = absurd (omega arith)
match_terms-is_bound e (term ∷ rest) ((actual, entity) ∷ others) values {new} le h name m v =
    let (matched, first, k) = try-eq-ok (match_term e term actual entity values) _ h in
    later matched first k m
      (λ between l i. match_terms-is_bound e rest others between (omega arith) l name i v)
  where
    later :
        (matched : Option Binding)
        → match_term e term actual entity values ≡ ok matched
        → if_matched (match_terms e rest others) matched ≡ ok (some new)
        → In (string name) (term ∷ rest)
        → ((between : Binding)
            → match_terms e rest others between ≡ ok (some new)
            → In (string name) rest
            → is_bound new name ≡ true)
        → is_bound new name ≡ true
    later none first k m ih = absurd (cc)
    later (some between) first k (inr i) ih = ih between k i
    later (some between) first k (inl same) ih =
        let own : match_term e (string name) actual entity values ≡ ok (some between) =
          subst (λ t. match_term e t actual entity values ≡ ok (some between)) (sym same) first in
        let shaped : match_shape e (string name) actual entity values (variable name)
            ≡ ok (some between) =
          subst (λ s. match_shape e (string name) actual entity values s ≡ ok (some between))
            (variable-shape name v) own in
        Extends-is_bound between new name (match_terms-Extends e rest others between k)
          (match_prior-is_bound name actual values (lookup values name) refl (ok-injective shaped))

-- Every binding that the step gives has a cell for each of the names.
abbrev pub Binds : (String → Type 0) → Eval (List Binding) → Type 0
Binds Named step =
    (work : ℕ) (out : List Binding) (after : ℕ)
    → step work ≡ ok (out, after)
    → (b : Binding) → In b out
    → (name : String) → Named name
    → is_bound b name ≡ true

none-Binds : (Named : String → Type 0) → Binds Named (done [])
none-Binds Named work out after h b m = absurd (subst (In b) (sym (done-injective h)) m).lower

pub fail-Binds : (Named : String → Type 0) (kind : Kind) → Binds Named (lift (fail kind))
fail-Binds Named kind work out after h = absurd (cc)

pub after-Binds :
    {A : Type 0} (Named : String → Type 0) (first : Eval A) (next : A → Eval (List Binding))
    → ((x : A) → Binds Named (next x))
    → Binds Named (first >>= next)
after-Binds Named first next g work out after h =
    let (x, m, _, k) = >>=-eq-ok first next work h in g x m out after k

pub collect-Binds :
    {A : Type 0} (Named : String → Type 0) (step : A → Eval (List Binding)) (xs : List A)
    → ((x : A) → In x xs → Binds Named (step x))
    → Binds Named (collect step xs)
collect-Binds Named step xs g work out after h b m =
    let (x, found, s, t, at, stepped, i) = In-collect step xs work h b m in
    g x at s found t stepped b i

pub distinct-Binds :
    (Named : String → Type 0) (step : Eval (List Binding))
    → Binds Named step
    → Binds Named (step >>= λ found. done (distinct_bindings found))
distinct-Binds Named step g work out after h b m =
    let (found, v, ran, k) = >>=-eq-ok step (λ found. done (distinct_bindings found)) work h in
    g work found v ran b (distinct_bindings-In found b (subst (In b) (sym (done-injective k)) m))

pub if-Binds :
    (Named : String → Type 0) (test : Bool) {x y : Eval (List Binding)}
    → Binds Named x
    → Binds Named y
    → Binds Named (if test then x else y)
if-Binds Named true a b = a
if-Binds Named false a b = b

-- the variables that stand among the terms
abbrev pub Among : List Json → String → Type 0
Among terms name = In (string name) terms × (is_variable name ≡ true)

module _ (e : Engine) where
  pub match-Binds :
      (terms : List Json) (cells : List (Cell × Bool)) (values : Binding)
      → length terms ≤ length cells
      → Binds
          (Among terms)
          (lift (match_terms e terms cells values) >>= λ matched. done (to_list matched))
  match-Binds terms cells values le work out after h b m name (at, is_var) =
      let (matched, v, first, k) =
        >>=-eq-ok (lift (match_terms e terms cells values)) (λ matched. done (to_list matched)) work
          h in
      found matched (lift-value (match_terms e terms cells values) work matched v first)
        (subst (In b) (sym (done-injective k)) m)
    where
      lift-value :
          {A : Type 0} (r : Result A) (work : ℕ) (x : A) (after : ℕ)
          → lift r work ≡ ok (x, after)
          → r ≡ ok x
      lift-value (ok y) work x after h = ap ok (done-injective h)
      lift-value (fail kind) work x after h = absurd (cc)

      found :
          (matched : Option Binding)
          → match_terms e terms cells values ≡ ok matched
          → In b (to_list matched)
          → is_bound b name ≡ true
      found none h m = absurd m.lower
      found (some new) h (inr m) = absurd m.lower
      found (some new) h (inl same) =
          rw same (match_terms-is_bound e terms cells values le h name at is_var)

  read_row-Binds :
      (pattern : List Json) (values : Binding) (d : Datom)
      → length pattern ≤ 5
      → Binds (Among pattern) (read_row e pattern values d)
  unfolding read_row actual_cells
  read_row-Binds pattern values d le = after-Binds (Among pattern) (spend e.budget) _ (λ _.
      after-Binds (Among pattern) (lift (e.codec.logical d.fact.v d.fact.t)) _
        (λ logical. match-Binds pattern (actual_cells d logical) values le))

  read_rows-Binds :
      (pattern : List Json) (values : Binding) (prepared : Option (List (Option Cell)))
      → length pattern ≤ 5
      → Binds (Among pattern) (read_rows e pattern values prepared)
  unfolding read_rows
  read_rows-Binds pattern values none le = none-Binds (Among pattern)
  read_rows-Binds pattern values (some cells) le =
      after-Binds (Among pattern) (lift (make_filter e cells)) _ (λ wanted.
        collect-Binds (Among pattern) (read_row e pattern values)
          (in_order (keep (passes wanted) (base_rows e)))
          (λ d _. read_row-Binds pattern values d le))

  scan_pattern-Binds :
      (pattern : List Json) (input : List Binding) (plan : BatchPlan)
      → length pattern ≤ 5
      → Binds (Among pattern) (scan_pattern e pattern input plan)
  unfolding scan_pattern read_batch eval_indexed_pattern read_batch_row actual_cells
  scan_pattern-Binds pattern input not_batched le =
      collect-Binds (Among pattern) (eval_indexed_pattern e pattern) input (λ values _.
        after-Binds (Among pattern) (lift (prepare_terms e pattern entity_positions values)) _
          (λ prepared. read_rows-Binds pattern values prepared le))
  scan_pattern-Binds pattern input no_attribute le = none-Binds (Among pattern)
  scan_pattern-Binds pattern input (batched name attr) le =
      collect-Binds (Among pattern) _
        (chunks (length (entities_of name input)) (entities_of name input))
        (λ chunk _.
          collect-Binds (Among pattern) (read_batch_row e pattern name input)
            (chunk_rows e attr chunk)
            (λ d _.
              after-Binds (Among pattern) (lift (e.codec.logical d.fact.v d.fact.t)) _ (λ logical.
                collect-Binds (Among pattern) _
                  (keep (λ values. is_entity (entity_of name values) (ℤ.pos d.fact.e)) input)
                  (λ values _.
                    after-Binds (Among pattern) (spend e.budget) _
                      (λ _. match-Binds pattern (actual_cells d logical) values le)))))

  pub eval_pattern-Binds :
      (pattern : List Json) (input : List Binding)
      → length pattern ≤ 5
      → Binds (Among pattern) (eval_pattern e pattern input)
  unfolding eval_pattern
  eval_pattern-Binds pattern input le =
      after-Binds (Among pattern) (lift (check_pattern e pattern)) _ (λ attr.
        if-Binds (Among pattern) (is_missing e attr) (none-Binds (Among pattern)) (
          distinct-Binds (Among pattern) (scan_pattern e pattern input (plan_batch e pattern input))
            (scan_pattern-Binds pattern input (plan_batch e pattern input) le)))
