-- ===== src/Query/Values.antt =====
-- What a query is written in, and what it computes with: plain JSON, cells and bindings
-- (go/query.go), less the typed Go values that only a Go caller can put into a query.
pub mod Distinct
pub mod Sameness
use Prim.Native.Char.{code}
use Prim.Native.String.{String}
use package.text.Mathlib.Text.{◌==◌ as str_eq}
use fgraph.Base.{
  ℕ, Bool, true, false, not, ◌&&◌, ◌||◌, List, [], ◌∷◌, ◌++◌, Option, none, some, ◌==◌, leb,
  if◌then◌else◌, any, all, sort_by,
}
use fgraph.Value.{ℤ, pos, int_eq, bytes_eq, float_eq, Tag, tag_eq}

-- a value of `encoding/json` with integers apart from floats, which are their bits
mutual
  pub data Json : Type 0 where
    null : Json
    bool : Bool → Json
    integer : ℤ → Json
    float : ℕ → Json
    string : String → Json
    array : Items → Json
    object : Fields → Json

  pub data Items : Type 0 where
    nil : Items
    cons : Json → Items → Items

  pub data Fields : Type 0 where
    end : Fields
    field : String → Json → Fields → Fields

unfoldable pub items_of : Items → List Json
items_of nil = []
items_of (cons x rest) = x ∷ items_of rest

unfoldable pub fields_of : Fields → List (String × Json)
fields_of end = []
fields_of (field name x rest) = (name, x) ∷ fields_of rest

-- The logical value of a cell, by the type of the Go value and not by the cell's tag: a cell with the
-- tag of JSON holds an `integer`, a `boolean`, a `float` or a `text` where its JSON is a number, a
-- truth value or a string, as `logicalValue` decodes it, and a `composite` where it is an array, an
-- object or null, with its canonical text.
pub data CellValue : Type 0 where
  integer : ℤ → CellValue
  boolean : Bool → CellValue
  float : ℕ → CellValue
  text : String → CellValue
  bytes : List ℕ → CellValue
  vector : List ℕ → CellValue
  composite : String → CellValue

-- `cell`
pub record Cell : Type 0 where
  pub tag : Tag
  pub value : CellValue

unfoldable pub bool_eq : Bool → Bool → Bool
bool_eq true b = b
bool_eq false b = not b

-- `==` of floats, one by one
unfoldable pub floats_eq : List ℕ → List ℕ → Bool
unfolding float_eq
floats_eq [] [] = true
floats_eq (x ∷ xs) (y ∷ ys) = float_eq x y && floats_eq xs ys
floats_eq _ _ = false

-- `storageEqual` of two logical values
unfoldable pub value_equal : CellValue → CellValue → Bool
unfolding int_eq bool_eq float_eq bytes_eq floats_eq
value_equal (integer x) (integer y) = int_eq x y
value_equal (boolean x) (boolean y) = bool_eq x y
value_equal (float x) (float y) = float_eq x y
value_equal (text x) (text y) = str_eq x y
value_equal (bytes x) (bytes y) = bytes_eq x y
value_equal (vector x) (vector y) = floats_eq x y
value_equal (composite x) (composite y) = str_eq x y
value_equal _ _ = false

-- `cellsEqual`. Two cells have one `structuralCellKey` just when they are equal: the key is the tag
-- with the canonical JSON of the value, which writes 0 and -0 alike.
unfoldable pub cells_equal : Cell → Cell → Bool
unfolding tag_eq value_equal
cells_equal left right = tag_eq left.tag right.tag && value_equal left.value right.value

-- `asInt64` of a logical value
unfoldable pub as_integer : CellValue → ℤ
as_integer (integer x) = x
as_integer (boolean b) = if b then pos 1 else pos 0
as_integer _ = pos 0

-- `cell{tag: TagRef, value: id}`
abbrev pub ref_cell : ℕ → Cell
ref_cell id = record { tag = Tag.ref; value = integer (pos id) }

-- `binding`: a map from variables to cells
abbrev pub Binding : Type 0
Binding = List (String × Cell)

unfoldable pub lookup : Binding → String → Option Cell
lookup [] name = none
lookup ((known, value) ∷ rest) name = if str_eq known name then some value else lookup rest name

unfoldable pub is_bound : Binding → String → Bool
unfolding lookup
is_bound values name = elim (lookup values name) [ none ↦ false | some _ ↦ true ]

-- a variable has equal cells in two bindings, or none in either
unfoldable pub same_cells : Option Cell → Option Cell → Bool
unfolding cells_equal
same_cells none none = true
same_cells (some x) (some y) = cells_equal x y
same_cells _ _ = false

unfoldable pub same_at : Binding → Binding → String → Bool
unfolding lookup same_cells
same_at left right name = same_cells (lookup left name) (lookup right name)

-- The two have one `bindingKey`: the key goes through the variables of a binding in order, so that
-- each variable of either one is compared.
unfoldable pub same_binding : Binding → Binding → Bool
unfolding same_at
same_binding left right =
    all (λ entry. same_at left right entry.0) left
    && all (λ entry. same_at left right entry.0) right

-- `distinctBindings`, with the bindings whose keys were seen
unfoldable pub distinct_from : List Binding → List Binding → List Binding
unfolding same_binding
distinct_from seen [] = []
distinct_from seen (values ∷ rest) = elim (any (same_binding values) seen) [
  | true ↦ distinct_from seen rest
  | false ↦ values ∷ distinct_from (values ∷ seen) rest
]

unfoldable pub distinct_bindings : List Binding → List Binding
unfolding distinct_from
distinct_bindings input = distinct_from [] input
