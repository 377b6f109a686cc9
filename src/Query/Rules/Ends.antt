-- ===== src/Query/Rules/Ends.antt =====
-- The passes of `deriveRelation` in go/query.go come to an end.
use Prim.Native.String.{String}
use fgraph.Base.{
  ℕ, zero, suc, Bool, true, false, List, [], Option, none, some, ◌==◌, ◌≡◌, refl, arith, length,
  ◌+◌, ◌-◌, ◌≤◌, ◌<◌, if◌then◌else◌, Kind, Result, ok, fail, inl, inr, ◌⊎◌, Bool-cases,
}
use fgraph.Query.Eval.{Eval, >>=-eq-ok, done-injective}
use fgraph.Query.Eval.Budget.{limit_of}
use fgraph.Query.Engine.{Engine}
use fgraph.Query.Rules.{
  Tuple, has_tuple, with_relation, definitions_of, run_definitions, stop_if, derive_rows,
  derive_relation,
}
use fgraph.Query.Rules.Passes.{Passed, run_definitions-Passed}

-- how many passes can still change something
abbrev pub passes_left : ℕ → ℕ → List Tuple → ℕ
passes_left limit work rows = (limit - work) + (if has_tuple rows [] then 0 else 1)

fewer :
    (limit work after : ℕ) (old new : List Tuple)
    → Passed limit work after old new
    → work ≤ limit
    → (length new == length old) ≡ false
    → passes_left limit after new < passes_left limit work old
fewer limit work after old new p le changed = elim p.idle [
  | inl more ↦ spent more
  | inr (inl same) ↦ absurd (ground arith)
  | inr (inr (without, with_it)) ↦ rw (without, with_it) (omega (arith, p.work_le, le))
]
  where
    spent : work < after → passes_left limit after new < passes_left limit work old
    spent more = elim (Bool-cases (has_tuple old [])) [
      | inl there ↦ rw (there, p.grown.keeps [] there) (omega (arith, more, p.within le))
      | inr absent ↦ elim (Bool-cases (has_tuple new [])) [
        | inl now ↦ rw (absent, now) (omega (arith, more, p.within le))
        | inr still ↦ rw (absent, still) (omega (arith, more, p.within le))
      ]
    ]

stop_if-none :
    (same : Bool) (next : List Tuple) (again : List Tuple → Eval (Option (List Tuple)))
    (work after : ℕ)
    → stop_if same again next work ≡ ok (none, after)
    → (same ≡ false) × (again next work ≡ ok (none, after))
unfolding stop_if
stop_if-none true next again work after h =
    let k : some next ≡ none = done-injective h in absurd (cc)
stop_if-none false next again work after h = (refl, h)

derive_rows-ends :
    (n : ℕ) (e : Engine) (name : String) (rows : List Tuple) (work after : ℕ)
    → work ≤ limit_of e.budget
    → passes_left (limit_of e.budget) work rows < n
    → derive_rows n e name rows work ≡ ok (none, after)
    → ⊥
unfolding derive_rows with_relation
derive_rows-ends zero e name rows work after le few h = omega (arith, few)
derive_rows-ends (suc n) e name rows work after le few h =
    let run = run_definitions (with_relation e name rows) rows (definitions_of e name) in
    let (next, v, ran, k) =
      >>=-eq-ok run (λ next. stop_if (length next == length rows) (derive_rows n e name) next) work
        h in
    let p =
      run_definitions-Passed (with_relation e name rows) (definitions_of e name) rows work next v
        ran in
    let (changed, l) =
      stop_if-none (length next == length rows) next (derive_rows n e name) v after k in
    derive_rows-ends n e name next v after (p.within le)
      (omega (arith, fewer (limit_of e.budget) work v rows next p le changed, few)) l

-- A derivation that starts within the budget never needs more passes than it has: it fails, or it
-- returns a relation.
pub derive_relation-some :
    (e : Engine) (name : String) (work : ℕ)
    → work ≤ limit_of e.budget
    → ((kind : Kind) × (derive_relation e name work ≡ fail kind))
      ⊎ ((final : List Tuple) × (after : ℕ) × (derive_relation e name work
            ≡ ok (some final, after)))
unfolding derive_relation
derive_relation-some e name work le = outcome (derive_relation e name work) refl
  where
    enough : (b : Bool) → (limit_of e.budget - work) + (if b then 0 else 1) < limit_of e.budget + 2
    enough true = omega arith
    enough false = omega arith

    outcome :
        (r : Result (Option (List Tuple) × ℕ))
        → derive_relation e name work ≡ r
        → ((kind : Kind) × (derive_relation e name work ≡ fail kind))
          ⊎ ((final : List Tuple) × (after : ℕ) × (derive_relation e name work
                ≡ ok (some final, after)))
    outcome (fail kind) h = inl (kind, h)
    outcome (ok (some final, after)) h = inr (final, after, h)
    outcome (ok (none, after)) h = absurd (
        derive_rows-ends (limit_of e.budget + 2) e name [] work after le (enough (has_tuple [] []))
          h)
