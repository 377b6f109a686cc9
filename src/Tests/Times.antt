-- ===== src/Tests/Times.antt =====
-- The theorems on time and on declarations at concrete rows: two transactions, and a row that the
-- second one retracts.
use fgraph.Base.{ℕ, ◌≡◌, refl, inl, inr, true, false, List, [], ◌∷◌, Option, none, some, arith, ok}
use fgraph.Value.{ℤ, pos, int64, Tag, StoredValue, column_value}
use fgraph.Fact.{RawFact, is_live}
use fgraph.Schema.{AttributeSchema, empty_schema}
use fgraph.Temporal.{diff, int_le, is_time, next_timestamp}
use fgraph.Temporal.Range.{EndsLater, Tells, diff-visible}
use fgraph.Temporal.Clock.{next_timestamp-later}
use fgraph.Declare.{SchemaValidationFact, final_values, validate_final_attribute, same_key}
use fgraph.Declare.Owners.{validate_final_attribute-owner}

abbrev stored : ℕ → ℕ → ℕ → ℤ → Tag → ℕ → Option ℕ → RawFact
stored id e a v t tx rx = record { id = id; e = e; a = a; v = int64 v; t = t; tx = tx; rx = rx }

abbrev first_time : RawFact
first_time = stored 1 65 1 (pos 500) Tag.instant 65 none

abbrev ended : RawFact
ended = stored 2 40 30 (pos 7) Tag.int 65 (some 66)

abbrev second_time : RawFact
second_time = stored 3 66 1 (pos 900) Tag.instant 66 none

abbrev rows : List RawFact
rows = first_time ∷ ended ∷ second_time ∷ []

range_of : diff rows none 65 66 ≡ ok (second_time ∷ [], ended ∷ [])
unfolding diff
range_of = refl

ended-EndsLater : EndsLater ended
ended-EndsLater rx e = ground (arith, e)

diff-visible_example : Tells rows 65 66 ended (second_time ∷ [], ended ∷ [])
diff-visible_example = diff-visible rows 65 66 range_of ended ended-EndsLater

-- the clock is behind
stamped : next_timestamp rows (pos 800) none ≡ ok (pos 1000900)
unfolding next_timestamp
stamped = refl

next_timestamp-later_example : int_le (pos 1000900) (pos 900) ≡ false
unfolding is_time is_live
next_timestamp-later_example =
    next_timestamp-later rows (pos 800) stamped second_time (pos 900) (inr (inr (inl refl))) refl
      refl refl

abbrev unique_int : AttributeSchema
unique_int = record empty_schema { type_name = "int"; unique = true }

abbrev no_dims : StoredValue → Option ℤ
no_dims value = none

abbrev final_value : SchemaValidationFact
final_value = record { value = column_value (int64 (pos 7)) Tag.int; e = 40; planned = false }

abbrev live_row : RawFact
live_row = stored 2 40 30 (pos 7) Tag.int 65 none

live_row-passes : validate_final_attribute no_dims unique_int (live_row ∷ []) [] [] 30 ≡ ok tt
unfolding validate_final_attribute
live_row-passes = refl

live_row-final : final_values unique_int (live_row ∷ []) [] [] 30 ≡ ok (final_value ∷ [])
unfolding final_values column_value
live_row-final = refl

validate_final_attribute-owner_example : final_value.e ≡ final_value.e
unfolding same_key column_value
validate_final_attribute-owner_example =
    validate_final_attribute-owner no_dims unique_int (live_row ∷ []) [] [] 30 live_row-passes refl
      live_row-final final_value final_value (inl refl) (inl refl) refl
