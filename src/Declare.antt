-- ===== src/Declare.antt =====
-- The check of a declared attribute against its final live values: `finalSchemaForPlan` and
-- `validateFinalAttribute` of go/transact.go, `tagCompatible` of go/value.go.
pub mod Owners
use Prim.Native.String.{String}
use text.Mathlib.Text.{◌==◌ as str_eq}
use fgraph.Base.{
  ℕ, Bool, true, false, not, ◌&&◌, ◌||◌, List, [], ◌∷◌, ◌++◌, map, Option, none, some, ◌==◌,
  if◌then◌else◌, keep, any, length, ltb, Result, ok, fail, conflict, schema_error, ◌>>=◌, reject_if,
}
use fgraph.Value.{ℤ, Tag, tag_eq, int_eq, StoredValue, stored_equal, storage_key_eq}
use fgraph.Fact.{RawFact, is_live, raw_value}
use fgraph.Schema.{AttributeSchema, empty_schema, is_schema_attribute}
use fgraph.Plan.{PlannedFact, RetractRequest, TransactionPlan}
use fgraph.Plan.Reading.{raw_retracted, apply_stored, apply_pending}

-- `tagNames`
abbrev pub tag_names : List (String × Tag)
tag_names =
    ("ref", Tag.ref)
    ∷ ("bool", Tag.bool)
    ∷ ("int", Tag.int)
    ∷ ("float", Tag.float)
    ∷ ("text", Tag.text)
    ∷ ("instant", Tag.instant)
    ∷ ("bytes", Tag.bytes)
    ∷ ("vector", Tag.vector)
    ∷ ("text_ref", Tag.text_ref)
    ∷ ("bytes_ref", Tag.bytes_ref)
    ∷ ("json", Tag.json)
    ∷ []

unfoldable pub find_tag : List (String × Tag) → String → Option Tag
find_tag [] name = none
find_tag ((candidate, tag) ∷ rest) name =
    if str_eq name candidate
      || (str_eq name "text" && str_eq candidate "text_ref")
      || (str_eq name "bytes" && str_eq candidate "bytes_ref")
    then some tag
    else find_tag rest name

-- `parseTagName`
unfoldable pub parse_tag_name : String → Option Tag
unfolding find_tag
parse_tag_name name = find_tag tag_names name

-- `tagCompatible`
unfoldable pub tag_compatible : String → Tag → Bool
unfolding tag_eq parse_tag_name
tag_compatible expected actual =
    if str_eq expected "text"
    then tag_eq actual Tag.text || tag_eq actual Tag.text_ref
    else if str_eq expected "bytes"
    then tag_eq actual Tag.bytes || tag_eq actual Tag.bytes_ref
    else elim (parse_tag_name expected) [ none ↦ false | some tag ↦ tag_eq tag actual ]

-- `finalSchemaForPlan`
unfoldable pub final_schema_for_plan :
    List RawFact → TransactionPlan → ℕ → List PlannedFact → Result AttributeSchema
unfolding is_live is_schema_attribute apply_stored apply_pending
final_schema_for_plan facts plan entity assertions =
    apply_stored plan.retracts empty_schema
      (keep (λ f. f.e == entity && is_schema_attribute f.a && is_live f) facts)
    >>= λ schema. apply_pending entity schema assertions

-- `schemaValidationFact`
pub record SchemaValidationFact : Type 0 where
  pub value : StoredValue
  pub e : ℕ
  pub planned : Bool

-- the stored values that the plan does not retract
unfoldable pub stored_values : List RawFact → List RetractRequest → ℕ → List SchemaValidationFact
unfolding is_live raw_retracted raw_value
stored_values facts retracts attr =
    map (λ f. record { value = raw_value f; e = f.e; planned = false })
      (keep (λ f. f.a == attr && is_live f && not (raw_retracted retracts f)) facts)

-- `seenPlanned[key]`, for the one attribute
unfoldable pub find_seen : List (ℕ × StoredValue) → ℕ → Option StoredValue
find_seen [] e = none
find_seen ((known, value) ∷ rest) e =
    let later = find_seen rest e in if known == e then some value else later

-- another value was planned for the entity
unfoldable pub differs : Option StoredValue → StoredValue → Bool
unfolding stored_equal
differs none value = false
differs (some prior) value = not (stored_equal prior value)

-- the values with one more assertion's
unfoldable pub add_value :
    AttributeSchema → PlannedFact → List SchemaValidationFact → List SchemaValidationFact
unfolding stored_equal
add_value schema f facts =
    let kept = if schema.many then facts else keep (λ v. not (v.e == f.e)) facts in
    if any (λ v. v.e == f.e && stored_equal v.value f.value) kept
    then kept
    else kept ++ record { value = f.value; e = f.e; planned = true } ∷ []

-- the loop over the assertions
unfoldable pub add_values :
    AttributeSchema
    → ℕ
    → List PlannedFact
    → List (ℕ × StoredValue)
    → List SchemaValidationFact
    → Result (List SchemaValidationFact)
unfolding find_seen differs add_value
add_values schema attr [] seen facts = ok facts
add_values schema attr (f ∷ rest) seen facts = elim (f.a == attr) [
  | false ↦ add_values schema attr rest seen facts
  | true ↦ reject_if (not schema.many && differs (find_seen seen f.e) f.value) conflict >>= λ _.
      add_values schema attr rest ((f.e, f.value) ∷ seen) (add_value schema f facts)
]

-- the key of `owners`: the tag and the storage key
unfoldable pub same_key : StoredValue → StoredValue → Bool
unfolding tag_eq storage_key_eq
same_key v w = tag_eq v.tag w.tag && storage_key_eq v.storage w.storage

-- `owners[key]`: the fact that had the key last, of those that were checked, the last one first
unfoldable pub find_owner : List SchemaValidationFact → StoredValue → Option SchemaValidationFact
unfolding same_key
find_owner [] value = none
find_owner (v ∷ rest) value =
    let earlier = find_owner rest value in if same_key v.value value then some v else earlier

-- the values of one entity that were checked; with the planned ones, where they are asked for
unfoldable pub count_of : List SchemaValidationFact → ℕ → ℕ
count_of checked e = length (keep (λ v. v.e == e) checked)

unfoldable pub planned_count : List SchemaValidationFact → ℕ → ℕ
planned_count checked e = length (keep (λ v. v.e == e && v.planned) checked)

-- a failure that a planned fact has a part in is a conflict, another one the schema's
abbrev pub blame : Bool → Result (Unit {0})
blame true = fail conflict
blame false = fail schema_error

unfoldable pub check_owner : Option SchemaValidationFact → SchemaValidationFact → Result (Unit {0})
check_owner none fact = ok tt
check_owner (some owner) fact =
    if owner.e == fact.e then ok tt else blame (owner.planned || fact.planned)

unfoldable pub check_count : AttributeSchema → List SchemaValidationFact → ℕ → Result (Unit {0})
unfolding count_of planned_count
check_count schema checked e =
    if not schema.many && ltb 1 (count_of checked e)
    then blame (ltb 0 (planned_count checked e))
    else ok tt

-- one turn of the loop over the final values; `dims_of` is the length of a stored vector
unfoldable pub check_value :
    (StoredValue → Option ℤ)
    → AttributeSchema
    → List SchemaValidationFact
    → SchemaValidationFact
    → Result (Unit {0})
unfolding tag_compatible check_count find_owner check_owner tag_eq int_eq
check_value dims_of schema checked fact = do
  _ ←
      reject_if
        (not (str_eq schema.type_name "") && not (tag_compatible schema.type_name fact.value.tag))
        schema_error
  _ ← check_count schema (fact ∷ checked) fact.e
  _ ← if schema.unique then check_owner (find_owner checked fact.value) fact else ok tt
  reject_if
      (schema.dims_set
        && tag_eq fact.value.tag Tag.vector
        && not (elim (dims_of fact.value) [ none ↦ false | some dims ↦ int_eq dims schema.dims ]))
      schema_error

unfoldable pub check_values :
    (StoredValue → Option ℤ)
    → AttributeSchema
    → List SchemaValidationFact
    → List SchemaValidationFact
    → Result (Unit {0})
unfolding check_value
check_values dims_of schema checked [] = ok tt
check_values dims_of schema checked (fact ∷ rest) = check_value dims_of schema checked fact >>= λ _.
    check_values dims_of schema (fact ∷ checked) rest

-- a unique attribute must have a scalar type
unfoldable pub has_scalar_type : AttributeSchema → Bool
has_scalar_type schema = not (
    str_eq schema.type_name ""
    || str_eq schema.type_name "json"
    || str_eq schema.type_name "vector")

-- the final values of the attribute
unfoldable pub final_values :
    AttributeSchema
    → List RawFact
    → List RetractRequest
    → List PlannedFact
    → ℕ
    → Result (List SchemaValidationFact)
unfolding stored_values add_values
final_values schema facts retracts assertions attr =
    add_values schema attr assertions [] (stored_values facts retracts attr)

-- `validateFinalAttribute`
unfoldable pub validate_final_attribute :
    (StoredValue → Option ℤ)
    → AttributeSchema
    → List RawFact
    → List RetractRequest
    → List PlannedFact
    → ℕ
    → Result (Unit {0})
unfolding has_scalar_type final_values check_values
validate_final_attribute dims_of schema facts retracts assertions attr = do
  _ ← reject_if (schema.unique && not (has_scalar_type schema)) schema_error
  values ← final_values schema facts retracts assertions attr
  check_values dims_of schema [] values
