-- ===== src/Query/Patterns/Batch.antt =====
-- `evalBoundEntityBatch` and `evalIndexedPattern` of go/query.go read the same rows.
pub mod Rows
pub mod Chunks
pub mod Hits
pub mod Same
use Prim.Native.String.{String}
use text.Mathlib.Text.{◌==◌ as str_eq}
use text.Mathlib.TextEquality.{eq_iff}
use fgraph.Base.{
  ℕ, Bool, true, false, not, ◌&&◌, List, [], ◌∷◌, Option, none, some, ◌≡◌, refl, sym, ap, subst,
  ◌∙◌, arith, any, ltb, length, Result, ok, fail, ◌>>=◌, In, inl, inr, Bool-cases, if◌then◌else◌,
  any_of_In, both_true,
}
use fgraph.Value.{ℤ, pos, Tag, tag_eq}
use fgraph.Query.Values.{Json, string, Cell, Binding, lookup, is_bound, as_integer, ref_cell}
use fgraph.Query.Engine.{Engine, find_name}
use fgraph.Query.Terms.{
  Shape, wildcard, variable, constant, is_variable, shape_of, prepare_constant, shape_cell,
  pattern_term_cell,
}
use fgraph.Query.Rows.{Filter, entity_positions, prepare_terms, make_filter, value_filter, added_of}
use fgraph.Query.Patterns.{
  entity_of, is_free_shape, is_free_value, has_entities, BatchPlan, not_batched, no_attribute,
  batched, is_current, plan_entities, plan_batch,
}

-- The plan is made: what it was made for.
pub record Batched (e : Engine) (name attribute : String) (term : Json) (input : List Binding)
    (attr : ℕ) : Type 0 where
  pub is_name : is_variable name ≡ true
  pub known : find_name e.names attribute ≡ some attr
  pub free : is_free_value term input ≡ true
  pub entities : has_entities name input ≡ true

if_batched :
    (test : Bool) (plan : BatchPlan) {name : String} {attr : ℕ}
    → (if test then plan else not_batched) ≡ batched name attr
    → (test ≡ true) × (plan ≡ batched name attr)
if_batched true plan h = (refl, h)
if_batched false plan h = absurd (cc)

batched-name : {n m : String} {a b : ℕ} → batched n a ≡ batched m b → n ≡ m
batched-name {n} h = ap (λ p. elim p as (λ _. String) [ batched x _ ↦ x | _ ↦ n ]) h

batched-attr : {n m : String} {a b : ℕ} → batched n a ≡ batched m b → a ≡ b
batched-attr {a} h = ap (λ p. elim p as (λ _. ℕ) [ batched _ x ↦ x | _ ↦ a ]) h

pub plan_batch-Batched :
    (e : Engine) (name attribute : String) (term : Json) (input : List Binding) {chosen : String}
    {attr : ℕ}
    → plan_batch e (string name ∷ string attribute ∷ term ∷ []) input ≡ batched chosen attr
    → (name ≡ chosen) × Batched e name attribute term input attr
unfolding plan_batch plan_entities
plan_batch-Batched e name attribute term input {chosen} {attr} h =
    let (tests, k) = if_batched _ _ h in
    let (named, _) = both_true _ (e.codec.is_attribute attribute) tests in
    let (_, is_name) = both_true (is_current e.source && not (ltb (length input) 2)) _ named in
    found is_name (find_name e.names attribute) refl k
  where
    found :
        is_variable name ≡ true
        → (known : Option ℕ) → find_name e.names attribute ≡ known
        → plan_entities name known term input ≡ batched chosen attr
        → (name ≡ chosen) × Batched e name attribute term input attr
    found is_name none eq k = absurd (cc)
    found is_name (some id) eq k =
        let (tests, planned) = if_batched _ _ k in
        let (free, entities) = both_true (is_free_value term input) _ tests in
        (
          batched-name planned,
          record {
            is_name = is_name;
            known = eq ∙ ap some (batched-attr planned);
            free = free;
            entities = entities;
          },
        )

-- the shapes of the three terms
pub variable-shape :
    (name : String) → is_variable name ≡ true → shape_of (string name) ≡ variable name
unfolding shape_of
variable-shape name h = elim (Bool-cases (str_eq name "_")) [
  | inl same ↦ absurd (under ((eq_iff name "_").0 same))
  | inr apart ↦ rw (apart, h) refl
]
  where
    under : name ≡ "_" → ⊥
    under e = let k : is_variable "_" ≡ true = subst (λ n. is_variable n ≡ true) e h in cc

-- the variable of the term has no cell in any of the bindings
free-cell :
    (e : Engine) (term : Json) (input : List Binding) (values : Binding) (shape : Shape)
    → is_free_shape shape input ≡ true
    → In values input
    → shape_cell e term values false shape ≡ ok (some none)
unfolding is_free_shape shape_cell
free-cell e term input values wildcard h m = refl
free-cell e term input values (variable name) h m = unbound (lookup values name) refl
  where
    unbound :
        (c : Option Cell)
        → lookup values name ≡ c
        → shape_cell e term values false (variable name) ≡ ok (some none)
    unbound none eq = ap (λ c. ok (some c)) eq
    unbound (some c) eq =
        let hit : any (λ row. is_bound row name) input ≡ true =
          any_of_In (λ row. is_bound row name) values input m (rw (is_bound, eq) refl) in
        absurd (cc)
free-cell e term input values constant h m = absurd (cc)
