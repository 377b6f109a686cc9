-- ===== src/Query/Engine.antt =====
-- `queryEvaluator` of go/query.go: the tables that a query reads, and what it takes from the rest of
-- the program.
use Prim.Native.String.{String}
use text.Mathlib.Text.{◌==◌ as str_eq}
use fgraph.Base.{
  ℕ, Bool, true, ◌&&◌, List, [], ◌∷◌, Option, none, some, ◌==◌, leb, any, if◌then◌else◌, Result, ok,
  fail, query_error,
}
use fgraph.Value.{negsuc, Storage, Tag}
use fgraph.Fact.{RawFact}
use fgraph.Store.{IdentityRow}
use fgraph.Query.Values.{Json, string, Cell, CellValue, ref_cell}

pub data Source : Type 0 where
  current history : Source

-- `ruleDef`, less the name under which it stands
pub record RuleDef : Type 0 where
  pub args : List String
  pub body : List Json

-- a constant that is a value, or a reference to a target that is to be resolved
pub data Scalar : Type 0 where
  value : Cell → Scalar
  reference : Json → Scalar

-- What the engine takes from the values and the reads: the logical value of a row (`logicalValue`,
-- which decodes JSON), the column and tag of a cell (`storedCell`), a constant (`scalarValue`), an
-- entity (`resolveReadEntity`), and the pattern of attribute names.
pub record Codec : Type 0 where
  pub logical : Storage → Tag → Result CellValue
  pub stored : Cell → Result (Storage × Tag)
  pub scalar : Json → Result Scalar
  pub resolve : Json → Result (Option ℕ)
  pub is_attribute : String → Bool

-- `queryEvaluator`, with the tables of its database; `basis` is the last event
pub record Engine : Type 0 where
  pub facts : List RawFact
  pub identities : List IdentityRow
  pub names : List (String × ℕ)
  pub as_of : Option ℕ
  pub basis : ℕ
  pub source : Source
  pub budget : ℕ
  pub rules : List (String × List RuleDef)
  pub relations : List (String × List (List Cell))
  pub codec : Codec

unfoldable pub find_name {ℓ} : {A : Type ℓ} → List (String × A) → String → Option A
find_name [] name = none
find_name ((known, found) ∷ rest) name =
    if str_eq known name then some found else find_name rest name

-- `resolveNumericEntity`: an identity that exists in the view
unfoldable pub is_known : Engine → ℕ → Bool
is_known e id =
    any (λ row. row.id == id && elim e.as_of [ none ↦ true | some tx ↦ leb row.created_tx tx ])
      e.identities

-- the target of a reference
unfoldable pub resolve_target : Engine → Json → Result Cell
unfolding find_name
resolve_target e (string name) = elim (find_name e.names name) [
  | none ↦ ok (record { tag = Tag.ref; value = CellValue.integer (negsuc 0) })
  | some id ↦ ok (ref_cell id)
]
resolve_target e (Json.integer n) = ok (record { tag = Tag.ref; value = CellValue.integer n })
resolve_target e _ = fail query_error

-- `constantCell`
unfoldable pub constant_cell : Engine → Json → Result Cell
unfolding resolve_target
constant_cell e term = elim (e.codec.scalar term) [
  | fail _ ↦ fail query_error
  | ok (value c) ↦ ok c
  | ok (reference target) ↦ resolve_target e target
]
