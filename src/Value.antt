-- ===== src/Value.antt =====
-- go/types.go and go/value.go: the tags of a value, what SQLite stores of it, and the equality
-- tests of go/transact.go on stored values.
pub mod Equality
use Prim.Native.String.{String}
use package.text.Mathlib.Text.{◌==◌ as str_eq}
use fgraph.Base.{
  ℕ, zero, suc, ◌^◌, Bool, true, false, ◌&&◌, ◌||◌, List, [], ◌∷◌, Option, none, some, ◌==◌,
  if◌then◌else◌,
}

pub data Tag : Type 0 where
  ref bool int float text instant bytes vector text_ref bytes_ref json : Tag

-- the position of a tag in the declaration, which is the number in column `t`
unfoldable pub tag_number : Tag → ℕ
tag_number Tag.ref = 0
tag_number Tag.bool = 1
tag_number Tag.int = 2
tag_number Tag.float = 3
tag_number Tag.text = 4
tag_number Tag.instant = 5
tag_number Tag.bytes = 6
tag_number Tag.vector = 7
tag_number Tag.text_ref = 8
tag_number Tag.bytes_ref = 9
tag_number Tag.json = 10

unfoldable pub tag_eq : Tag → Tag → Bool
unfolding tag_number
tag_eq s t = tag_number s == tag_number t

-- an int64; `negsuc n` is -(n + 1)
pub data ℤ : Type 0 where
  pos : ℕ → ℤ
  negsuc : ℕ → ℤ

unfoldable pub int_eq : ℤ → ℤ → Bool
int_eq (pos m) (pos n) = m == n
int_eq (negsuc m) (negsuc n) = m == n
int_eq _ _ = false

-- The Go values that a column of type ANY holds. A float64 is its bit pattern; stored floats are
-- finite, so the only two patterns that `==` identifies are those of 0 and -0.
pub data Storage : Type 0 where
  null : Storage
  int64 : ℤ → Storage
  float64 : ℕ → Storage
  string : String → Storage
  blob : List ℕ → Storage

unfoldable pub bytes_eq : List ℕ → List ℕ → Bool
bytes_eq [] [] = true
bytes_eq (x ∷ xs) (y ∷ ys) = x == y && bytes_eq xs ys
bytes_eq _ _ = false

unfoldable pub is_zero_float : ℕ → Bool
is_zero_float bits = bits == 0 || bits == 2 ^ 63

unfoldable pub float_eq : ℕ → ℕ → Bool
unfolding is_zero_float
float_eq x y = x == y || (is_zero_float x && is_zero_float y)

-- `storageEqual`: `reflect.DeepEqual`, and `bytes.Equal` on byte slices
unfoldable pub storage_equal : Storage → Storage → Bool
unfolding int_eq bytes_eq float_eq
storage_equal null null = true
storage_equal (int64 x) (int64 y) = int_eq x y
storage_equal (float64 x) (float64 y) = float_eq x y
storage_equal (string x) (string y) = str_eq x y
storage_equal (blob x) (blob y) = bytes_eq x y
storage_equal _ _ = false

-- equality of `fmt.Sprint(storageKey(v))` for two values of one tag: -0 prints unlike 0
unfoldable pub storage_key_eq : Storage → Storage → Bool
unfolding int_eq bytes_eq
storage_key_eq null null = true
storage_key_eq (int64 x) (int64 y) = int_eq x y
storage_key_eq (float64 x) (float64 y) = x == y
storage_key_eq (string x) (string y) = str_eq x y
storage_key_eq (blob x) (blob y) = bytes_eq x y
storage_key_eq _ _ = false

-- `asInt64` on what SQLite returns
unfoldable pub as_int64 : Storage → ℤ
as_int64 (int64 i) = i
as_int64 _ = pos 0

-- `sqliteBool`
unfoldable pub sqlite_bool : Storage → Bool
unfolding as_int64 int_eq
sqlite_bool v = if int_eq (as_int64 v) (pos 0) then false else true

-- `storedValue`: the column, its tag, the text of a text value, and the side table's row for a
-- value that is stored by its digest
pub record StoredValue : Type 0 where
  pub storage : Storage
  pub tag : Tag
  pub logical_text : Option String
  pub blob_row : Option (List ℕ × Storage)

unfoldable pub stored_equal : StoredValue → StoredValue → Bool
unfolding tag_eq storage_equal
stored_equal left right = tag_eq left.tag right.tag && storage_equal left.storage right.storage

-- the value of a row of fgraph_facts
unfoldable pub column_value : Storage → Tag → StoredValue
column_value v t = record { storage = v; tag = t; logical_text = none; blob_row = none }

-- `value.tag == TagRef && asInt64(value.storage) == e`
unfoldable pub refers_to : Storage → Tag → ℕ → Bool
unfolding tag_eq as_int64 int_eq
refers_to v t e = tag_eq t Tag.ref && int_eq (as_int64 v) (pos e)
