-- ===== src/Query/Rows.antt =====
-- The rows that a pattern reads (`patternSQLBase`, `evalIndexedPattern` of go/query.go).
use fgraph.Base.{
  ℕ, Bool, true, false, ◌&&◌, List, [], ◌∷◌, ◌++◌, map, Option, none, some, ◌==◌, leb, ltb, keep,
  any, if◌then◌else◌, get_elem?, sort_by, Result, ok, fail, query_error, ◌>>=◌,
}
use fgraph.Value.{ℤ, pos, int_eq, Storage, storage_equal, Tag, tag_eq}
use fgraph.Fact.{RawFact, visible}
use fgraph.Query.Values.{Json, Cell, CellValue, boolean, Binding, bool_eq, as_integer, ref_cell}
use fgraph.Query.Engine.{Engine, current, history}
use fgraph.Query.Terms.{pattern_term_cell}

-- a row of `patternSQLBase`: a fact, with the transaction that added or retracted it
pub record Datom : Type 0 where
  pub fact : RawFact
  pub tx : ℕ
  pub added : Bool

-- `JOIN fgraph_ids i ON i.id=f.a`
unfoldable pub has_identity : Engine → RawFact → Bool
has_identity e f = any (λ row. row.id == f.a) e.identities

abbrev pub assertion_of : RawFact → Datom
assertion_of f = record { fact = f; tx = f.tx; added = true }

abbrev pub retraction_of : RawFact → Datom
retraction_of f = record { fact = f; tx = elim f.rx [ none ↦ 0 | some rx ↦ rx ]; added = false }

-- `min(basis, asOf)`
unfoldable pub view_basis : Engine → ℕ
view_basis e = elim e.as_of [ none ↦ e.basis | some tx ↦ if ltb tx e.basis then tx else e.basis ]

-- `f.rx IS NOT NULL AND f.rx<=?`
unfoldable pub ended_by : ℕ → RawFact → Bool
ended_by basis f = elim f.rx [ none ↦ false | some rx ↦ leb rx basis ]

-- `patternSQLBase`
unfoldable pub base_rows : Engine → List Datom
unfolding visible has_identity view_basis ended_by
base_rows e = elim e.source [
  | current ↦ map assertion_of (keep (λ f. visible e.as_of f && has_identity e f) e.facts)
  | history ↦
      map assertion_of (keep (λ f. leb f.tx (view_basis e) && has_identity e f) e.facts)
      ++ map retraction_of (keep (λ f. ended_by (view_basis e) f && has_identity e f) e.facts)
]

-- the conditions that the bound terms give
pub record Filter : Type 0 where
  pub e : Option ℤ
  pub a : Option ℤ
  pub value : Option (Storage × Tag)
  pub tx : Option ℤ
  pub added : Option Bool

abbrev pub bound_at : List (Option Cell) → ℕ → Option Cell
bound_at cells i = elim (get_elem? cells i) [ none ↦ none | some c ↦ c ]

abbrev pub integer_at : List (Option Cell) → ℕ → Option ℤ
integer_at cells i = elim (bound_at cells i) [ none ↦ none | some c ↦ some (as_integer c.value) ]

-- the fifth term is a Boolean
unfoldable pub added_of : Option Cell → Result (Option Bool)
added_of none = ok none
added_of (some c) = elim c.value [ boolean b ↦ ok (some b) | _ ↦ fail query_error ]

-- a value is looked up where the attribute is bound too
unfoldable pub value_filter : Engine → Option Cell → Option Cell → Result (Option (Storage × Tag))
value_filter e none value = ok none
value_filter e (some a) none = ok none
value_filter e (some a) (some c) = e.codec.stored c >>= λ column. ok (some column)

unfoldable pub make_filter : Engine → List (Option Cell) → Result Filter
unfolding added_of value_filter as_integer
make_filter e cells = do
  added ← added_of (bound_at cells 4)
  column ← value_filter e (bound_at cells 1) (bound_at cells 2)
  ok (record {
    e = integer_at cells 0;
    a = integer_at cells 1;
    value = column;
    tx = integer_at cells 3;
    added = added;
  })

abbrev pub meets : Option ℤ → ℕ → Bool
meets none n = true
meets (some wanted) n = int_eq wanted (pos n)

abbrev pub meets_bool : Option Bool → Bool → Bool
meets_bool none b = true
meets_bool (some wanted) b = bool_eq wanted b

abbrev pub meets_value : Option (Storage × Tag) → RawFact → Bool
meets_value none f = true
meets_value (some (v, t)) f = storage_equal f.v v && tag_eq f.t t

-- the WHERE clause of a pattern
unfoldable pub passes : Filter → Datom → Bool
unfolding int_eq bool_eq storage_equal tag_eq
passes wanted d =
    meets wanted.e d.fact.e
    && meets wanted.a d.fact.a
    && meets_value wanted.value d.fact
    && meets wanted.tx d.tx
    && meets_bool wanted.added d.added

abbrev pub bit : Bool → ℕ
bit b = if b then 1 else 0

-- `ORDER BY dtx,added,e,a`
unfoldable pub in_order : List Datom → List Datom
unfolding sort_by
in_order rows =
    sort_by (λ d. d.tx)
      (sort_by (λ d. bit d.added) (sort_by (λ d. d.fact.e) (sort_by (λ d. d.fact.a) rows)))

-- which positions of a pattern hold entities
abbrev pub entity_positions : List Bool
entity_positions = true ∷ true ∷ false ∷ true ∷ false ∷ []

-- the cells of the bound terms; nothing where a constant is not found
unfoldable pub prepare_terms :
    Engine → List Json → List Bool → Binding → Result (Option (List (Option Cell)))
unfolding pattern_term_cell
prepare_terms e [] flags values = ok (some [])
prepare_terms e (term ∷ rest) [] values = ok (some [])
prepare_terms e (term ∷ rest) (entity ∷ flags) values =
    pattern_term_cell e term values entity >>= λ found. elim found [
      | none ↦ ok none
      | some c ↦ prepare_terms e rest flags values >>= λ others. elim others [
        | none ↦ ok none
        | some cells ↦ ok (some (c ∷ cells))
      ]
    ]

-- `actual`: the five cells of a row, and which of them are entities
unfoldable pub actual_cells : Datom → CellValue → List (Cell × Bool)
actual_cells d value =
    (ref_cell d.fact.e, true)
    ∷ (ref_cell d.fact.a, true)
    ∷ (record { tag = d.fact.t; value = value }, false)
    ∷ (ref_cell d.tx, true)
    ∷ (record { tag = Tag.bool; value = boolean d.added }, false)
    ∷ []
