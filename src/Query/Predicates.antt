-- ===== src/Query/Predicates.antt =====
-- Predicates (`evalPredicate`, `compareCells` of go/query.go). Numbers are compared exactly, as
-- multiples of 2^-1074, the least float.
use Prim.Native.Char.{code}
use Prim.Native.String.{String}
use Prim.Native.Nat.{compare, Ordering}
use fgraph.Base.{
  ℕ, Bool, true, false, not, ◌&&◌, ◌||◌, List, [], ◌∷◌, Option, none, some, ◌==◌, if◌then◌else◌,
  ◌-◌, ◌*◌, ◌+◌, ◌/◌, ◌%◌, ◌^◌, Result, ok, fail, query_error,
}
use fgraph.Value.{ℤ, pos, negsuc, int_eq, Tag, tag_eq}
use fgraph.Temporal.{int_le}
use fgraph.Query.Values.{
  Json, string, Cell, CellValue, integer, boolean, float, text, Binding, lookup, cells_equal,
  distinct_bindings,
}
use fgraph.Query.Eval.{Eval, ◌>>=◌, done, lift, spend, collect}
use fgraph.Query.Engine.{Engine, find_name, constant_cell}
use fgraph.Query.Terms.{is_variable}

-- `int * 2 ^ 1074`
unfoldable pub scale_int : ℤ → ℤ
scale_int (pos n) = pos (n * 2 ^ 1074)
scale_int (negsuc n) = negsuc ((n + 1) * 2 ^ 1074 - 1)

-- `SetFloat64`: nothing for an infinity or a NaN
unfoldable pub scale_float : ℕ → Option ℤ
scale_float bits =
    let fraction = bits % 2 ^ 52 in
    let exponent = (bits / 2 ^ 52) % 2048 in
    let size = (if exponent == 0 then fraction else (2 ^ 52 + fraction) * 2 ^ (exponent - 1)) in
    if exponent == 2047
    then none
    else some (if bits / 2 ^ 63 == 0 || size == 0 then pos size else negsuc (size - 1))

-- `numericRat`
unfoldable pub numeric_rat : CellValue → Option ℤ
unfolding scale_int scale_float
numeric_rat (integer x) = some (scale_int x)
numeric_rat (float bits) = scale_float bits
numeric_rat _ = none

unfoldable pub int_compare : ℤ → ℤ → Ordering
unfolding int_eq int_le
int_compare x y =
    if int_eq x y then Ordering.eq else if int_le x y then Ordering.lt else Ordering.gt

-- `orderedNumericCompare`
unfoldable pub ordered_numeric_compare : CellValue → CellValue → Option Ordering
unfolding numeric_rat int_compare
ordered_numeric_compare left right = elim (numeric_rat left) [
  | none ↦ none
  | some x ↦ elim (numeric_rat right) [ none ↦ none | some y ↦ some (int_compare x y) ]
]

-- `strings.Compare`: the bytes of UTF-8 are in the order of the code points
unfoldable pub text_compare : String → String → Ordering
text_compare String.[] String.[] = Ordering.eq
text_compare String.[] (String.◌∷◌ _ _) = Ordering.lt
text_compare (String.◌∷◌ _ _) String.[] = Ordering.gt
text_compare (String.◌∷◌ x xs) (String.◌∷◌ y ys) =
    let rest = text_compare xs ys in
    elim (compare (code x) (code y)) [ Ordering.eq ↦ rest | other ↦ other ]

unfoldable pub bool_compare : Bool → Bool → Ordering
bool_compare false true = Ordering.lt
bool_compare true false = Ordering.gt
bool_compare _ _ = Ordering.eq

-- `orderedCompare` of values that are not both numbers. JSON strings and truth values are `text` and
-- `boolean` here.
unfoldable pub compare_others : CellValue → CellValue → Option Ordering
unfolding bool_compare text_compare
compare_others (boolean x) (boolean y) = some (bool_compare x y)
compare_others (text x) (text y) = some (text_compare x y)
compare_others _ _ = none

-- `orderedCompare`
unfoldable pub ordered_compare : CellValue → CellValue → Option Ordering
unfolding ordered_numeric_compare compare_others
ordered_compare left right = elim (ordered_numeric_compare left right) [
  | some order ↦ some order
  | none ↦ compare_others left right
]

-- `numericCell`
unfoldable pub numeric_cell : Cell → Bool
unfolding tag_eq
numeric_cell c = tag_eq c.tag Tag.int || tag_eq c.tag Tag.float

unfoldable pub is_eq : Option Ordering → Bool
is_eq (some Ordering.eq) = true
is_eq _ = false

-- `predicateCellsEqual`
unfoldable pub predicate_cells_equal : Cell → Cell → Bool
unfolding numeric_cell ordered_numeric_compare is_eq cells_equal
predicate_cells_equal left right =
    if numeric_cell left && numeric_cell right
    then is_eq (ordered_numeric_compare left.value right.value)
    else cells_equal left right

-- `strings.HasPrefix`
unfoldable pub has_prefix : String → String → Bool
has_prefix _ String.[] = true
has_prefix String.[] (String.◌∷◌ _ _) = false
has_prefix (String.◌∷◌ x xs) (String.◌∷◌ y ys) =
    let rest = has_prefix xs ys in code x == code y && rest

-- `strings.Contains`
unfoldable pub contains : String → String → Bool
unfolding has_prefix
contains String.[] part = has_prefix String.[] part
contains (String.◌∷◌ x xs) part =
    let rest = contains xs part in has_prefix (String.◌∷◌ x xs) part || rest

-- the operators with a test of their own
pub data Operator : Type 0 where
  equal : Operator
  unequal : Operator
  textual : (String → String → Bool) → Operator
  ordering : (Ordering → Bool) → Operator

abbrev pub is_lt : Ordering → Bool
is_lt order = elim order [ Ordering.lt ↦ true | _ ↦ false ]

abbrev pub is_le : Ordering → Bool
is_le order = elim order [ Ordering.gt ↦ false | _ ↦ true ]

abbrev pub is_gt : Ordering → Bool
is_gt order = elim order [ Ordering.gt ↦ true | _ ↦ false ]

abbrev pub is_ge : Ordering → Bool
is_ge order = elim order [ Ordering.lt ↦ false | _ ↦ true ]

abbrev pub operators : List (String × Operator)
operators =
    ("=", equal)
    ∷ ("!=", unequal)
    ∷ ("contains", textual contains)
    ∷ ("starts-with", textual has_prefix)
    ∷ ("<", ordering is_lt)
    ∷ ("<=", ordering is_le)
    ∷ (">", ordering is_gt)
    ∷ (">=", ordering is_ge)
    ∷ []

unfoldable pub operator_of : String → Option Operator
unfolding find_name contains has_prefix
operator_of op = find_name operators op

-- `contains` and `starts-with`, of two strings whether their tag is that of text or of JSON
unfoldable pub compare_texts : (String → String → Bool) → CellValue → CellValue → Result Bool
compare_texts test (text x) (text y) = ok (test x y)
compare_texts test _ _ = fail query_error

unfoldable pub compare_ordered : (Ordering → Bool) → Cell → Cell → Result Bool
unfolding tag_eq numeric_cell ordered_compare
compare_ordered test left right =
    if not (tag_eq left.tag right.tag) && (not (numeric_cell left) || not (numeric_cell right))
    then fail query_error
    else elim (ordered_compare left.value right.value) [
      | none ↦ fail query_error
      | some order ↦ ok (test order)
    ]

-- `compareCells`
unfoldable pub compare_cells : Option Operator → Cell → Cell → Result Bool
unfolding predicate_cells_equal compare_texts compare_ordered
compare_cells none left right = fail query_error
compare_cells (some equal) left right = ok (predicate_cells_equal left right)
compare_cells (some unequal) left right = ok (not (predicate_cells_equal left right))
compare_cells (some (textual test)) left right = compare_texts test left.value right.value
compare_cells (some (ordering test)) left right = compare_ordered test left right

-- `termValue`: nothing for a variable that is not bound
unfoldable pub term_value : Engine → Json → Binding → Result (Option Cell)
unfolding is_variable lookup constant_cell
term_value e (string s) values =
    if is_variable s
    then ok (lookup values s)
    else elim (constant_cell e (string s)) [ ok c ↦ ok (some c) | fail kind ↦ fail kind ]
term_value e term values = elim (constant_cell e term) [
  | ok c ↦ ok (some c)
  | fail kind ↦ fail kind
]

-- both operands have a value
unfoldable pub compare_bound : Option Operator → Option Cell → Option Cell → Result Bool
unfolding compare_cells
compare_bound op (some left) (some right) = compare_cells op left right
compare_bound op _ _ = fail query_error

-- one binding of `evalPredicate`
unfoldable pub test_binding : Engine → Option Operator → Json → Json → Binding → Eval (List Binding)
unfolding spend term_value compare_bound
test_binding e op left right values = do
  _ ← spend e.budget
  x ← lift (term_value e left values)
  y ← lift (term_value e right values)
  matched ← lift (compare_bound op x y)
  done (if matched then values ∷ [] else [])

-- `evalPredicate` of a clause of three items
unfoldable pub eval_predicate : Engine → List Json → List Binding → Eval (List Binding)
unfolding operator_of test_binding collect distinct_bindings
eval_predicate e (string op ∷ left ∷ right ∷ []) input = do
  found ← collect (test_binding e (operator_of op) left right) input
  done (distinct_bindings found)
eval_predicate e _ input = lift (fail query_error)
