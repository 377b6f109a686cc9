-- ===== src/Schema.antt =====
-- The declaration of an attribute, read from its own facts (go/transact.go).
use Prim.Native.String.{String}
use text.Mathlib.Text.{◌==◌ as str_eq}
use fgraph.Base.{
  ℕ, Bool, true, false, not, ◌&&◌, ◌||◌, ◌==◌, leb, if◌then◌else◌, Result, ok, fail, format_error,
}
use fgraph.Value.{ℤ, pos, Storage, string, as_int64, sqlite_bool}

-- `attributeSchema`
pub record AttributeSchema : Type 0 where
  pub type_name : String
  pub vector_model : String
  pub dims : ℤ
  pub many : Bool
  pub unique : Bool
  pub nohistory : Bool
  pub nohistory_set : Bool
  pub dims_set : Bool

-- the zero value of the struct
abbrev pub empty_schema : AttributeSchema
empty_schema = record {
  type_name = "";
  vector_model = "";
  dims = pos 0;
  many = false;
  unique = false;
  nohistory = false;
  nohistory_set = false;
  dims_set = false;
}

unfoldable pub deletes_history : AttributeSchema → Bool
deletes_history s =
    s.nohistory || (not s.nohistory_set && (str_eq s.type_name "vector" || s.dims_set))

unfoldable pub is_schema_attribute : ℕ → Bool
is_schema_attribute attribute = (leb 5 attribute && leb attribute 10) || attribute == 14

unfoldable pub with_type_name : AttributeSchema → Storage → Result AttributeSchema
with_type_name s (string name) = ok (record s { type_name = name })
with_type_name s _ = fail format_error

unfoldable pub with_vector_model : AttributeSchema → Storage → Result AttributeSchema
with_vector_model s (string model) = ok (record s { vector_model = model })
with_vector_model s _ = fail format_error

-- `applySchemaFact`
unfoldable pub apply_schema_fact : AttributeSchema → ℕ → Storage → Result AttributeSchema
unfolding with_type_name with_vector_model sqlite_bool as_int64
apply_schema_fact s attribute value =
    if attribute == 5
    then ok (record s { many = sqlite_bool value })
    else if attribute == 6
    then ok (record s { unique = sqlite_bool value })
    else if attribute == 7
    then ok (record s { nohistory = sqlite_bool value; nohistory_set = true })
    else if attribute == 8
    then with_type_name s value
    else if attribute == 9
    then ok (record s { dims = as_int64 value; dims_set = true })
    else if attribute == 14
    then with_vector_model s value
    else ok s
