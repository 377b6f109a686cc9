-- ===== src/Query/Patterns/Batch/Rows.antt =====
-- The rows that a batch of go/query.go reads for a binding are those that the binding reads alone.
use Prim.Native.String.{String}
use fgraph.Base.{
  ℕ, Bool, true, false, ◌&&◌, List, [], ◌∷◌, Option, none, some, ◌==◌, ◌≡◌, refl, ap, arith, ok, In,
  inl, inr, Bool-cases, both_true,
}
use fgraph.Value.{ℤ, pos, int_eq, Tag, tag_eq}
use fgraph.Value.Equality.{int_eq-eq, int_eq_refl}
use fgraph.Query.Values.{Json, string, Cell, Binding, lookup, as_integer, ref_cell}
use fgraph.Query.Engine.{Engine}
use fgraph.Query.Terms.{constant, shape_of, prepare_constant, shape_cell, pattern_term_cell}
use fgraph.Query.Rows.{
  Datom, Filter, entity_positions, prepare_terms, make_filter, value_filter, added_of, passes,
}
use fgraph.Query.Patterns.{entity_in, entity_of, has_entities, is_free_value}
use fgraph.Query.Patterns.Batch.{Batched, variable-shape, free-cell}

-- each binding has an entity
pub has_entities-some :
    (name : String) (input : List Binding) (values : Binding)
    → has_entities name input ≡ true
    → In values input
    → (id : ℤ) × (entity_of name values ≡ some id)
unfolding has_entities
has_entities-some name [] values h m = absurd m.lower
has_entities-some name (x ∷ xs) values h m =
    found (entity_of name x) refl (λ k i. has_entities-some name xs values k i) m
  where
    found :
        (known : Option ℤ)
        → entity_of name x ≡ known
        → (has_entities name xs ≡ true
            → In values xs
            → (id : ℤ) × (entity_of name values ≡ some id))
        → In values (x ∷ xs)
        → (id : ℤ) × (entity_of name values ≡ some id)
    found none eq ih m = let k : false ≡ true = rw (eq, has_entities) at h in absurd (cc)
    found (some id) eq ih (inl same) = (id, rw same eq)
    found (some id) eq ih (inr m) = ih (rw (eq, has_entities) at h) m

entity_in-some :
    (c : Option Cell) (id : ℤ)
    → entity_in c ≡ some id
    → (known : Cell) × (c ≡ some known) × (as_integer known.value ≡ id)
unfolding entity_in
entity_in-some none id h = absurd (cc)
entity_in-some (some c) id h = elim (Bool-cases (tag_eq c.tag Tag.ref)) [
  | inl is_ref ↦ (c, refl, some-eq (rw is_ref at h))
  | inr other ↦ let k : none ≡ some id = rw other at h in absurd (cc)
]
  where
    some-eq : {x : ℤ} → some x ≡ some id → x ≡ id
    some-eq {x} k = ap (λ o. elim o as (λ _. ℤ) [ some y ↦ y | none ↦ x ]) k

-- the filter of an entity and an attribute
abbrev pub entity_filter : ℤ → ℕ → Filter
entity_filter id attr = record {
  e = some id;
  a = some (pos attr);
  value = none;
  tx = none;
  added = none;
}

module _ (e : Engine) (name attribute : String) (term : Json) (input : List Binding) (attr : ℕ)
    (plan : Batched e name attribute term input attr)
    (resolves : e.codec.resolve (string attribute) ≡ ok (some attr))
    (is_constant : shape_of (string attribute) ≡ constant) where
  attribute-cell :
      (values : Binding)
      → pattern_term_cell e (string attribute) values true ≡ ok (some (some (ref_cell attr)))
  unfolding pattern_term_cell shape_cell prepare_constant
  attribute-cell values = rw (is_constant, shape_cell, prepare_constant, resolves) refl

  entity-cell :
      (values : Binding) (c : Cell)
      → lookup values name ≡ some c
      → pattern_term_cell e (string name) values true ≡ ok (some (some c))
  unfolding pattern_term_cell shape_cell
  entity-cell values c known = rw (variable-shape name plan.is_name, known) refl

  value-cell :
      (values : Binding) → In values input → pattern_term_cell e term values false ≡ ok (some none)
  unfolding pattern_term_cell is_free_value
  value-cell values m = free-cell e term input values (shape_of term) plan.free m

  -- what a binding of the batch reads alone
  pub prepare-filter :
      (values : Binding) (id : ℤ)
      → In values input
      → entity_of name values ≡ some id
      → (cells : List (Option Cell)) × (prepare_terms e
            (string name ∷ string attribute ∷ term ∷ [])
            entity_positions
            values
          ≡ ok (some cells))
        × (make_filter e cells ≡ ok (entity_filter id attr))
  unfolding prepare_terms make_filter value_filter added_of entity_of
  prepare-filter values id m known =
      let (c, found, same) = entity_in-some (lookup values name) id known in
      (
        some c ∷ some (ref_cell attr) ∷ none ∷ [],
        rw (entity-cell values c found, attribute-cell values, value-cell values m) refl,
        ap (λ x. ok (entity_filter x attr)) same,
      )

-- the row is of the attribute and the entity
pub passes-entity :
    (id : ℤ) (attr : ℕ) (d : Datom)
    → passes (entity_filter id attr) d ≡ true
    → (id ≡ pos d.fact.e) × ((d.fact.a == attr) ≡ true)
unfolding passes int_eq
passes-entity id attr d h =
    let same = both_true (int_eq id (pos d.fact.e)) (attr == d.fact.a) (all_true _ h) in
    (int_eq-eq id (pos d.fact.e) same.0, ground (arith, same.1))
  where
    all_true : (b : Bool) → b && true && true && true ≡ true → b ≡ true
    all_true true k = refl
    all_true false k = k

pub entity-passes :
    (id : ℤ) (attr : ℕ) (d : Datom)
    → id ≡ pos d.fact.e
    → (d.fact.a == attr) ≡ true
    → passes (entity_filter id attr) d ≡ true
unfolding passes int_eq
entity-passes id attr d h k = rw (h, int_eq_refl (pos d.fact.e)) (ground arith)
