-- ===== src/Diff/Restored.antt =====
-- A row that `diffPlan` puts back at a unique attribute (go/transact.go).

use fgraph.Base.{ℕ, ◌≡◌, ◌≢◌, true, false, [], ◌∷◌, none, some, arith, Result, ok}
use fgraph.Value.{StoredValue}
use fgraph.Fact.{RawFact, raw_value}
use fgraph.Plan.{PlannedFact, RetractRequest}
use fgraph.Schema.{AttributeSchema}
use fgraph.Diff.{
  assertion, retraction, key_of, from_raw, diff_rows, run_operations, start_diff, retract_hits,
  clear_slot, insert_planned,
}
use fgraph.Diff.Keys.{key_eq_refl}

abbrev pub assert_value : ℕ → ℕ → StoredValue → ℕ → PlannedFact
assert_value e a value order = record {
  attr = "";
  value = value;
  e = e;
  a = a;
  order = order;
  tx_target = false;
  cas = false;
}

abbrev pub retract_attribute : ℕ → ℕ → ℕ → RetractRequest
retract_attribute e a order = record {
  a = some a;
  value = none;
  attr = "";
  e = e;
  order = order;
  missing = false;
  cas = false;
}

module _ (schema_at : ℕ → Result AttributeSchema) (schema : AttributeSchema) (row : RawFact)
    (other : ℕ) where
  -- On a unique cardinality-one attribute, the plan that retracts a row, asserts its value on another
  -- entity and asserts it again on the first is accepted, with the assertion on the other entity to
  -- write and no row to retract: both entities then own the value.
  pub diff_rows-two_owners :
      schema_at row.a ≡ ok schema
      → schema.many ≡ false
      → schema.unique ≡ true
      → other ≢ row.e
      → diff_rows schema_at (row ∷ []) (
          retraction (retract_attribute row.e row.a 1)
          ∷ assertion (assert_value other row.a (raw_value row) 2)
          ∷ assertion (assert_value row.e row.a (raw_value row) 3)
          ∷ [])
        ≡ ok (assert_value other row.a (raw_value row) 2 ∷ [], [])
  unfolding diff_rows run_operations start_diff retract_hits clear_slot insert_planned
  diff_rows-two_owners known one unique ne = ground (arith, key_eq_refl (key_of (from_raw row)))
