-- ===== src/Query/Rules/Saturated.antt =====
-- The relation that `deriveRelation` of go/query.go ends with.
use Prim.Native.String.{String}
use fgraph.Base.{
  ℕ, zero, suc, Bool, true, false, List, [], ◌∷◌, ◌++◌, Option, none, some, ◌==◌, ==_iff, ◌≡◌, refl,
  sym, ap, subst, ◌∙◌, arith, length, ok, fail, query_error, In, inl, inr, ◌⊎◌, Bool-cases,
  length-append,
}
use fgraph.Diff.Run.{ok-injective}
use fgraph.Query.Values.{Binding}
use fgraph.Query.Eval.{Eval, lift, >>=-eq-ok, done-injective}
use fgraph.Query.Engine.{Engine, RuleDef}
use fgraph.Query.Clauses.{eval_clauses}
use fgraph.Query.Rules.{
  Tuple, tuple_of, has_tuple, add_tuple, add_bindings, with_relation, definitions_of,
  run_definitions, stop_if, derive_rows, derive_relation,
}
use fgraph.Query.Rules.Passes.{lift-after, Grown, add_bindings-Grown, run_definitions-Passed}

-- the relation has the tuple of the binding
abbrev pub Covered : List String → List Tuple → Binding → Type 0
Covered args rows b = (t : Tuple) × (tuple_of args b ≡ some t) × (has_tuple rows t ≡ true)

add_tuple-same :
    (rows next : List Tuple) (t : Tuple)
    → Grown (add_tuple rows t) next
    → length next ≡ length rows
    → (has_tuple rows t ≡ true) × (add_tuple rows t ≡ rows)
unfolding add_tuple
add_tuple-same rows next t grown same = elim (Bool-cases (has_tuple rows t)) [
  | inl there ↦ (there, kept there)
  | inr absent ↦ absurd (longer absent)
]
  where
    kept : has_tuple rows t ≡ true → add_tuple rows t ≡ rows
    kept there = rw (add_tuple, there) refl

    longer : has_tuple rows t ≡ false → ⊥
    longer absent =
        let e : add_tuple rows t ≡ rows ++ t ∷ [] = rw (add_tuple, absent) refl in
        omega (arith, ap length e, length-append rows (t ∷ []), grown.length_le, same)

add_bindings-same :
    (args : List String) (rows : List Tuple) (found : List Binding) {next : List Tuple}
    → add_bindings args rows found ≡ ok next
    → length next ≡ length rows
    → (next ≡ rows) × ((b : Binding) → In b found → Covered args rows b)
unfolding add_bindings
add_bindings-same args rows [] h same = (sym (ok-injective h), λ b m. absurd m.lower)
add_bindings-same args rows (values ∷ rest) {next} h same =
    added (tuple_of args values) refl (λ k. add_bindings-same args rows rest k same)
  where
    added :
        (t : Option Tuple)
        → tuple_of args values ≡ t
        → (add_bindings args rows rest ≡ ok next
            → (next ≡ rows) × ((b : Binding) → In b rest → Covered args rows b))
        → (next ≡ rows) × ((b : Binding) → In b (values ∷ rest) → Covered args rows b)
    added none e ih = let k : fail query_error ≡ ok next = rw (add_bindings, e) at h in absurd (cc)
    added (some t) e ih =
        let k : add_bindings args (add_tuple rows t) rest ≡ ok next = rw (add_bindings, e) at h in
        let (there, kept) =
          add_tuple-same rows next t (add_bindings-Grown args (add_tuple rows t) rest k) same in
        let (equal, others) = ih (subst (λ r. add_bindings args r rest ≡ ok next) kept k) in
        (
          equal,
          λ b m. elim m [
            | inl first ↦ (t, ap (tuple_of args) first ∙ e, there)
            | inr i ↦ others b i
          ],
        )

-- The definition adds nothing to the rows.
abbrev pub Closed : Engine → List Tuple → RuleDef → Type 0
Closed e rows definition =
    (found : List Binding) × (m : ℕ) × (n : ℕ) × (eval_clauses e definition.body ([] ∷ []) m
      ≡ ok (found, n))
    × ((b : Binding) → In b found → Covered definition.args rows b)

run_definitions-Closed :
    (e : Engine) (definitions : List RuleDef) (rows : List Tuple) (work : ℕ) (next : List Tuple)
    (after : ℕ)
    → run_definitions e rows definitions work ≡ ok (next, after)
    → length next ≡ length rows
    → (next ≡ rows)
      × ((definition : RuleDef) → In definition definitions → Closed e rows definition)
unfolding run_definitions
run_definitions-Closed e [] rows work next after h same =
    (sym (done-injective h), λ d m. absurd m.lower)
run_definitions-Closed e (definition ∷ rest) rows work next after h same =
    let (found, v, ran, k) = >>=-eq-ok (eval_clauses e definition.body ([] ∷ [])) _ work h in
    let (added, u, lifted, l) =
      >>=-eq-ok (lift (add_bindings definition.args rows found))
        (λ more. run_definitions e more rest) v k in
    let (added_ok, _) = lift-after (add_bindings definition.args rows found) v added u lifted in
    let first = add_bindings-Grown definition.args rows found added_ok in
    let second = run_definitions-Passed e rest added u next after l in
    let (equal, covered) =
      add_bindings-same definition.args rows found added_ok
        (omega (arith, first.length_le, second.grown.length_le, same)) in
    let (last, others) =
      run_definitions-Closed e rest rows u next after
        (subst (λ r. run_definitions e r rest u ≡ ok (next, after)) equal l) same in
    (
      last,
      λ d m. elim m [
        | inl is_first ↦ subst (Closed e rows) (sym is_first) (found, work, v, ran, covered)
        | inr i ↦ others d i
      ],
    )

stop_if-some :
    (same : Bool) (next : List Tuple) (again : List Tuple → Eval (Option (List Tuple))) (work : ℕ)
    (final : List Tuple) (after : ℕ)
    → stop_if same again next work ≡ ok (some final, after)
    → ((same ≡ true) × (next ≡ final)) ⊎ (again next work ≡ ok (some final, after))
unfolding stop_if
stop_if-some true next again work final after h = inl (refl, some-rows (done-injective h))
  where
    some-rows : some next ≡ some final → next ≡ final
    some-rows k = ap (λ o. elim o as (λ _. List Tuple) [ some x ↦ x | none ↦ next ]) k
stop_if-some false next again work final after h = inr h

derive_rows-Closed :
    (n : ℕ) (e : Engine) (name : String) (rows : List Tuple) (work : ℕ) (final : List Tuple)
    (after : ℕ)
    → derive_rows n e name rows work ≡ ok (some final, after)
    → (definition : RuleDef) → In definition (definitions_of e name)
    → Closed (with_relation e name final) final definition
unfolding derive_rows
derive_rows-Closed zero e name rows work final after h =
    let k : none ≡ some final = done-injective h in absurd (cc)
derive_rows-Closed (suc n) e name rows work final after h =
    let run = run_definitions (with_relation e name rows) rows (definitions_of e name) in
    let (next, v, ran, k) =
      >>=-eq-ok run (λ next. stop_if (length next == length rows) (derive_rows n e name) next) work
        h in
    elim (stop_if-some (length next == length rows) next (derive_rows n e name) v final after k) [
      | inl (same, equal) ↦ ends next v ran same equal
      | inr l ↦ derive_rows-Closed n e name next v final after l
    ]
  where
    ends :
        (next : List Tuple) (v : ℕ)
        → run_definitions (with_relation e name rows) rows (definitions_of e name) work
          ≡ ok (next, v)
        → (length next == length rows) ≡ true
        → next ≡ final
        → (definition : RuleDef) → In definition (definitions_of e name)
        → Closed (with_relation e name final) final definition
    ends next v ran same equal =
        let (kept, closed) =
          run_definitions-Closed (with_relation e name rows) (definitions_of e name) rows work next
            v ran ((==_iff (length next) (length rows)).0 same) in
        subst
          (λ r.
            (definition : RuleDef)
            → In definition (definitions_of e name)
            → Closed (with_relation e name r) r definition)
          (sym kept ∙ equal) closed

-- The relation with which a derivation ends is closed under the definitions of its rule: with that
-- relation in place, the body of each definition has an evaluation whose bindings all give tuples that
-- the relation has already.
pub derive_relation-Closed :
    (e : Engine) (name : String) (work : ℕ) (final : List Tuple) (after : ℕ)
    → derive_relation e name work ≡ ok (some final, after)
    → (definition : RuleDef) → In definition (definitions_of e name)
    → Closed (with_relation e name final) final definition
unfolding derive_relation
derive_relation-Closed e name work final after h = derive_rows-Closed _ e name [] work final after h
