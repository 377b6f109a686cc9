-- ===== src/Query/Terms.antt =====
-- Terms of patterns and how they match a cell: `matchTerm` and `patternTermCell` of go/query.go.
pub mod Extends
use Prim.Native.Char.{code}
use Prim.Native.String.{String}
use text.Mathlib.Text.{◌==◌ as str_eq}
use fgraph.Base.{
  ℕ, Bool, true, false, not, ◌&&◌, List, [], ◌∷◌, Option, none, some, ◌==◌, if◌then◌else◌, Result,
  ok, fail, query_error, ◌>>=◌,
}
use fgraph.Value.{ℤ, pos, negsuc, int_eq, Tag, tag_eq}
use fgraph.Query.Values.{
  Json, string, Cell, CellValue, Binding, lookup, cells_equal, as_integer, ref_cell,
}
use fgraph.Query.Engine.{Engine, find_name, is_known, constant_cell}

-- `strings.HasPrefix(variable, "?")`
unfoldable pub is_variable : String → Bool
is_variable String.[] = false
is_variable (String.◌∷◌ c rest) = code c == b'?'

-- how the code reads a term: as `_`, as a variable, or as a constant
pub data Shape : Type 0 where
  wildcard : Shape
  variable : String → Shape
  constant : Shape

unfoldable pub shape_of : Json → Shape
unfolding is_variable
shape_of (string s) =
    if str_eq s "_" then wildcard else if is_variable s then variable s else constant
shape_of _ = constant

-- a constant at an entity position is a reference; an integer stands for one
unfoldable pub match_entity : Cell → Cell → Result Bool
unfolding cells_equal tag_eq
match_entity known actual =
    if tag_eq known.tag Tag.ref
    then ok (cells_equal known actual)
    else if tag_eq known.tag Tag.int
    then ok (cells_equal (record known { tag = Tag.ref }) actual)
    else fail query_error

-- the constants of `matchTerm`
unfoldable pub match_constant : Engine → Json → Cell → Bool → Result Bool
unfolding find_name constant_cell match_entity cells_equal as_integer int_eq
match_constant e (string name) actual true = elim (find_name e.names name) [
  | none ↦ ok false
  | some id ↦ ok (int_eq (pos id) (as_integer actual.value))
]
match_constant e term actual true = constant_cell e term >>= λ known. match_entity known actual
match_constant e term actual false = constant_cell e term >>= λ known. ok (cells_equal known actual)

-- a variable that is bound must be equal; one that is not is bound
unfoldable pub match_prior : String → Cell → Binding → Option Cell → Option Binding
unfolding cells_equal
match_prior name actual values none = some ((name, actual) ∷ values)
match_prior name actual values (some prior) = if cells_equal prior actual then some values else none

unfoldable pub match_variable : String → Cell → Binding → Option Binding
unfolding lookup match_prior
match_variable name actual values = match_prior name actual values (lookup values name)

-- the binding after a constant that is the cell or is not
unfoldable pub when_same : Binding → Bool → Result (Option Binding)
when_same values true = ok (some values)
when_same values false = ok none

-- `matchTerm` of a term that the code reads as the shape
unfoldable pub match_shape : Engine → Json → Cell → Bool → Binding → Shape → Result (Option Binding)
unfolding match_variable match_constant when_same
match_shape e term actual entity values wildcard = ok (some values)
match_shape e term actual entity values (variable name) = ok (match_variable name actual values)
match_shape e term actual entity values constant =
    match_constant e term actual entity >>= when_same values

-- `matchTerm`: the binding after the term, or nothing where it does not match
unfoldable pub match_term : Engine → Json → Cell → Bool → Binding → Result (Option Binding)
unfolding shape_of match_shape
match_term e term actual entity values = match_shape e term actual entity values (shape_of term)

-- the next term is matched where this one matches
unfoldable pub if_matched :
    (Binding → Result (Option Binding)) → Option Binding → Result (Option Binding)
if_matched next none = ok none
if_matched next (some values) = next values

-- the loop over the terms, which ends at the first that does not match
unfoldable pub match_terms :
    Engine → List Json → List (Cell × Bool) → Binding → Result (Option Binding)
unfolding match_term if_matched
match_terms e [] actuals values = ok (some values)
match_terms e (term ∷ rest) [] values = ok (some values)
match_terms e (term ∷ rest) ((actual, entity) ∷ others) values =
    match_term e term actual entity values >>= if_matched (match_terms e rest others)

-- a reference that the view knows
unfoldable pub known_reference : Engine → Cell → Option (Option Cell)
unfolding is_known tag_eq
known_reference e c =
    if tag_eq c.tag Tag.ref
    then elim (as_integer c.value) [
      | pos id ↦ if not (id == 0) && is_known e id then some (some c) else none
      | negsuc _ ↦ none
    ]
    else some (some c)

-- `preparePatternTerm` of a constant: nothing where it is not found
unfoldable pub prepare_constant : Engine → Json → Bool → Result (Option (Option Cell))
unfolding constant_cell known_reference
prepare_constant e term true = elim (e.codec.resolve term) [
  | fail _ ↦ fail query_error
  | ok none ↦ ok none
  | ok (some id) ↦ ok (some (some (ref_cell id)))
]
prepare_constant e term false = constant_cell e term >>= λ c. ok (known_reference e c)

-- `patternTermCell`: the cell that the term stands for, if it has one
unfoldable pub shape_cell : Engine → Json → Binding → Bool → Shape → Result (Option (Option Cell))
unfolding prepare_constant lookup
shape_cell e term values entity wildcard = ok (some none)
shape_cell e term values entity (variable name) = ok (some (lookup values name))
shape_cell e term values entity constant = prepare_constant e term entity

unfoldable pub pattern_term_cell : Engine → Json → Binding → Bool → Result (Option (Option Cell))
unfolding shape_of shape_cell
pattern_term_cell e term values entity = shape_cell e term values entity (shape_of term)
