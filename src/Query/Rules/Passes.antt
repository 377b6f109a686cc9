-- ===== src/Query/Rules/Passes.antt =====
-- One pass over the definitions of a rule (`deriveRelation` of go/query.go).
use Prim.Native.String.{String}
use fgraph.Base.{
  ℕ, true, false, List, [], ◌∷◌, ◌++◌, Option, none, some, ◌≡◌, refl, sym, ap, subst, ◌∙◌, arith,
  length, ◌≤◌, ◌<◌, ltb, Result, ok, fail, query_error, In, inl, inr, ◌⊎◌, Bool-cases, any-In,
  any_of_In, In-append-left, In-append-right, length-append,
}
use fgraph.Diff.Run.{ok-injective}
use fgraph.Query.Values.{Json, Binding, lookup}
use fgraph.Query.Eval.{lift, >>=-eq-ok, done-injective}
use fgraph.Query.Eval.Budget.{limit_of}
use fgraph.Query.Eval.Grows.{done-after}
use fgraph.Query.Engine.{Engine, RuleDef}
use fgraph.Query.Clauses.{eval_clauses}
use fgraph.Query.Clauses.Budget.{eval_clauses-Spends}
use fgraph.Query.Clauses.Grows.{eval_clauses-Extends}
use fgraph.Query.Rules.{
  Tuple, same_tuple, prepend_cell, tuple_of, has_tuple, add_tuple, add_bindings, run_definitions,
}

pub lift-after :
    {A : Type 0} (r : Result A) (work : ℕ) (x : A) (after : ℕ)
    → lift r work ≡ ok (x, after)
    → (r ≡ ok x) × (work ≡ after)
lift-after (ok y) work x after h = (ap ok (done-injective h), done-after h)
lift-after (fail kind) work x after h = absurd (cc)

-- Rows are only added: how a list of rows may become another.
pub record Grown (old new : List Tuple) : Type 0 where
  pub length_le : length old ≤ length new
  pub keeps : (t : Tuple) → has_tuple old t ≡ true → has_tuple new t ≡ true

pub Grown-refl : (rows : List Tuple) → Grown rows rows
Grown-refl rows = record { length_le = omega arith; keeps = λ t h. h }

pub Grown-trans : (a b c : List Tuple) → Grown a b → Grown b c → Grown a c
Grown-trans a b c p q = record {
  length_le = omega (arith, p.length_le, q.length_le);
  keeps = λ t h. q.keeps t (p.keeps t h);
}

add_tuple-Grown : (rows : List Tuple) (t : Tuple) → Grown rows (add_tuple rows t)
unfolding add_tuple has_tuple
add_tuple-Grown rows t = elim (Bool-cases (has_tuple rows t)) [
  | inl old ↦ rw old (Grown-refl rows)
  | inr new ↦ rw new (record {
    length_le = omega (arith, length-append rows (t ∷ []));
    keeps = λ s h.
        let (r, m, same) = any-In (same_tuple s) rows h in
        any_of_In (same_tuple s) r (rows ++ t ∷ []) (In-append-left r rows (t ∷ []) m) same;
  })
]

pub add_bindings-Grown :
    (args : List String) (rows : List Tuple) (found : List Binding) {next : List Tuple}
    → add_bindings args rows found ≡ ok next
    → Grown rows next
unfolding add_bindings
add_bindings-Grown args rows [] h = subst (Grown rows) (ok-injective h) (Grown-refl rows)
add_bindings-Grown args rows (values ∷ rest) {next} h =
    added (tuple_of args values) refl (λ more k. add_bindings-Grown args more rest k)
  where
    added :
        (t : Option Tuple)
        → tuple_of args values ≡ t
        → ((more : List Tuple) → add_bindings args more rest ≡ ok next → Grown more next)
        → Grown rows next
    added none e ih = let k : fail query_error ≡ ok next = rw (add_bindings, e) at h in absurd (cc)
    added (some t) e ih =
        Grown-trans rows (add_tuple rows t) next (add_tuple-Grown rows t)
          (ih (add_tuple rows t) (rw (add_bindings, e) at h))

-- A pass without work adds nothing, or the empty tuple.
abbrev pub Idle : List Tuple → List Tuple → Type 0
Idle old new = (length new ≡ length old) ⊎ ((has_tuple old [] ≡ false) × (has_tuple new [] ≡ true))

pub Idle-trans : (a b c : List Tuple) → Grown a b → Grown b c → Idle a b → Idle b c → Idle a c
Idle-trans a b c p q (inl e) (inl f) = inl (f ∙ e)
Idle-trans a b c p q (inr (no_a, yes_b)) _ = inr (no_a, q.keeps [] yes_b)
Idle-trans a b c p q (inl e) (inr (no_b, yes_c)) = elim (Bool-cases (has_tuple a [])) [
  | inl yes_a ↦ let k = p.keeps [] yes_a in absurd (cc)
  | inr no_a ↦ inr (no_a, yes_c)
]

empty-there : (rows : List Tuple) → has_tuple (rows ++ [] ∷ []) [] ≡ true
unfolding has_tuple same_tuple
empty-there rows =
    any_of_In (same_tuple []) [] (rows ++ [] ∷ []) (In-append-right [] rows ([] ∷ []) (inl refl))
      refl

add_empty-Idle : (rows : List Tuple) → Idle rows (add_tuple rows [])
unfolding add_tuple
add_empty-Idle rows = elim (Bool-cases (has_tuple rows [])) [
  | inl old ↦ inl (kept old)
  | inr new ↦ inr (new, appended new)
]
  where
    kept : has_tuple rows [] ≡ true → length (add_tuple rows []) ≡ length rows
    kept old = rw (add_tuple, old) refl

    appended : has_tuple rows [] ≡ false → has_tuple (add_tuple rows []) [] ≡ true
    appended new = rw (add_tuple, new) (empty-there rows)

some-tuple : {s t : Tuple} → some s ≡ some t → s ≡ t
some-tuple {s} h = ap (λ o. elim o as (λ _. Tuple) [ some x ↦ x | none ↦ s ]) h

-- the empty binding has only the empty tuple
tuple_of-empty : (args : List String) (t : Tuple) → tuple_of args [] ≡ some t → t ≡ []
unfolding tuple_of prepend_cell lookup
tuple_of-empty [] t h = sym (some-tuple h)
tuple_of-empty (name ∷ rest) t h = absurd (cc)

add_bindings-Idle :
    (args : List String) (rows : List Tuple) (found : List Binding) {next : List Tuple}
    → ((b : Binding) → In b found → b ≡ [])
    → add_bindings args rows found ≡ ok next
    → Idle rows next
unfolding add_bindings
add_bindings-Idle args rows [] all_empty h = inl (ap length (sym (ok-injective h)))
add_bindings-Idle args rows (values ∷ rest) {next} all_empty h =
    added (tuple_of args values) refl
      (λ more k. add_bindings-Idle args more rest (λ b m. all_empty b (inr m)) k)
  where
    added :
        (t : Option Tuple)
        → tuple_of args values ≡ t
        → ((more : List Tuple) → add_bindings args more rest ≡ ok next → Idle more next)
        → Idle rows next
    added none e ih = let k : fail query_error ≡ ok next = rw (add_bindings, e) at h in absurd (cc)
    added (some t) e ih =
        let k : add_bindings args (add_tuple rows t) rest ≡ ok next = rw (add_bindings, e) at h in
        let empty : t ≡ [] =
          tuple_of-empty args t
            (subst (λ b. tuple_of args b ≡ some t) (all_empty values (inl refl)) e) in
        Idle-trans rows (add_tuple rows t) next (add_tuple-Grown rows t)
          (add_bindings-Grown args (add_tuple rows t) rest k)
          (subst (λ s. Idle rows (add_tuple rows s)) (sym empty) (add_empty-Idle rows))
          (ih (add_tuple rows t) k)

-- What one pass does: to the work, and to the rows.
pub record Passed (limit work after : ℕ) (old new : List Tuple) : Type 0 where
  pub work_le : work ≤ after
  pub within : work ≤ limit → after ≤ limit
  pub grown : Grown old new
  pub idle : (work < after) ⊎ Idle old new

evaluated-empty :
    (e : Engine) (body : List Json) (work : ℕ) (found : List Binding) (after : ℕ)
    → eval_clauses e body ([] ∷ []) work ≡ ok (found, after)
    → after ≤ work
    → (b : Binding) → In b found
    → b ≡ []
evaluated-empty e body work found after h le b m =
    let (a, i, _, cases) = eval_clauses-Extends e body ([] ∷ []) work found after h b m in
    elim cases [ inl same ↦ same ∙ only i | inr more ↦ absurd (omega (arith, more)) ]
  where
    only : {a : Binding} → In a ([] ∷ []) → a ≡ []
    only (inl k) = k
    only (inr k) = absurd k.lower

definition-Passed :
    (e : Engine) (definition : RuleDef) (rows : List Tuple) (work : ℕ) (found : List Binding)
    (after : ℕ) (next : List Tuple)
    → eval_clauses e definition.body ([] ∷ []) work ≡ ok (found, after)
    → add_bindings definition.args rows found ≡ ok next
    → Passed (limit_of e.budget) work after rows next
definition-Passed e definition rows work found after next h k =
    let (le, keep) = eval_clauses-Spends e definition.body ([] ∷ []) work found after h in
    record {
      work_le = le;
      within = keep;
      grown = add_bindings-Grown definition.args rows found k;
      idle = elim (Bool-cases (ltb work after)) [
        | inl more ↦ inl (ground arith)
        | inr same ↦ inr (
            add_bindings-Idle definition.args rows found
              (evaluated-empty e definition.body work found after h (ground arith)) k)
      ];
    }

Passed-trans :
    (limit w v u : ℕ) (a b c : List Tuple)
    → Passed limit w v a b
    → Passed limit v u b c
    → Passed limit w u a c
Passed-trans limit w v u a b c p q = record {
  work_le = omega (arith, p.work_le, q.work_le);
  within = λ h. q.within (p.within h);
  grown = Grown-trans a b c p.grown q.grown;
  idle = both p.idle q.idle;
}
  where
    both : (w < v) ⊎ Idle a b → (v < u) ⊎ Idle b c → (w < u) ⊎ Idle a c
    both (inl l) _ = inl (omega (arith, l, q.work_le))
    both (inr _) (inl l) = inl (omega (arith, l, p.work_le))
    both (inr i) (inr j) = inr (Idle-trans a b c p.grown q.grown i j)

pub run_definitions-Passed :
    (e : Engine) (definitions : List RuleDef) (rows : List Tuple) (work : ℕ) (next : List Tuple)
    (after : ℕ)
    → run_definitions e rows definitions work ≡ ok (next, after)
    → Passed (limit_of e.budget) work after rows next
unfolding run_definitions
run_definitions-Passed e [] rows work next after h =
    let same = done-after h in
    record {
      work_le = omega (arith, same);
      within = λ k. omega (arith, same);
      grown = subst (Grown rows) (done-injective h) (Grown-refl rows);
      idle = inr (inl (ap length (sym (done-injective h))));
    }
run_definitions-Passed e (definition ∷ rest) rows work next after h =
    let (found, v, ran, k) = >>=-eq-ok (eval_clauses e definition.body ([] ∷ [])) _ work h in
    let (added, u, lifted, l) =
      >>=-eq-ok (lift (add_bindings definition.args rows found))
        (λ more. run_definitions e more rest) v k in
    let (added_ok, same) = lift-after (add_bindings definition.args rows found) v added u lifted in
    Passed-trans (limit_of e.budget) work v after rows added next
      (definition-Passed e definition rows work found v added ran added_ok)
      (run_definitions-Passed e rest added v next after
        (subst (λ t. run_definitions e added rest t ≡ ok (next, after)) (sym same) l))
