-- ===== src/Plan/Reading.antt =====
-- What planning reads of the database (go/transact.go): the schema of an attribute as the plan
-- leaves it, and the live rows that the plan can touch. A query is a filter of the rows, which
-- stand in the order of their ids.
use fgraph.Base.{
  ℕ, Bool, true, false, not, ◌&&◌, ◌||◌, List, [], ◌∷◌, ◌++◌, Option, none, some, ◌==◌, ltb,
  if◌then◌else◌, keep, any, sort_by, Result, ok, ◌>>=◌,
}
use fgraph.Value.{StoredValue, stored_equal, refers_to}
use fgraph.Fact.{RawFact, is_live, visible, raw_value, is_transaction}
use fgraph.Identity.{genesis_tx}
use fgraph.Schema.{AttributeSchema, empty_schema, is_schema_attribute, apply_schema_fact}
use fgraph.Plan.{
  PlannedFact, RetractRequest, TransactionPlan, request_covers, active_plan_assertions,
}

-- `rawRetracted`
unfoldable pub raw_retracted : List RetractRequest → RawFact → Bool
unfolding request_covers raw_value
raw_retracted requests fact =
    any
      (λ request.
        if request.missing
        then false
        else request_covers request.a request fact.e fact.a (raw_value fact))
      requests

-- the loop of `schemaForChanges` over the stored rows
unfoldable pub apply_stored :
    List RetractRequest → AttributeSchema → List RawFact → Result AttributeSchema
unfolding raw_retracted apply_schema_fact
apply_stored retracts schema [] = ok schema
apply_stored retracts schema (fact ∷ rest) = elim (raw_retracted retracts fact) [
  | true ↦ apply_stored retracts schema rest
  | false ↦ apply_schema_fact schema fact.a fact.v >>= λ next. apply_stored retracts next rest
]

-- the loop of `schemaForChanges` over the pending assertions
unfoldable pub apply_pending : ℕ → AttributeSchema → List PlannedFact → Result AttributeSchema
unfolding apply_schema_fact is_schema_attribute
apply_pending attr schema [] = ok schema
apply_pending attr schema (fact ∷ rest) = elim (fact.e == attr && is_schema_attribute fact.a) [
  | true ↦
      apply_schema_fact schema fact.a fact.value.storage >>= λ next. apply_pending attr next rest
  | false ↦ apply_pending attr schema rest
]

-- `schemaForChanges`
unfoldable pub schema_for_changes :
    List RawFact → Option ℕ → ℕ → List PlannedFact → List RetractRequest → Result AttributeSchema
unfolding apply_stored apply_pending is_schema_attribute visible
schema_for_changes facts as_of attr pending retracts = do
  let rows = keep (λ f. f.e == attr && is_schema_attribute f.a && visible as_of f) facts
  schema ← apply_stored retracts empty_schema rows
  apply_pending attr schema pending

unfoldable pub cached_schema : List (ℕ × AttributeSchema) → ℕ → Option AttributeSchema
cached_schema [] attr = none
cached_schema ((known, schema) ∷ rest) attr =
    if known == attr then some schema else cached_schema rest attr

-- `schemaForPlan`: the schema, and the plan with the schema in its cache
unfoldable pub schema_for_plan :
    List RawFact → Option ℕ → ℕ → TransactionPlan → Result (AttributeSchema × TransactionPlan)
unfolding cached_schema schema_for_changes active_plan_assertions
schema_for_plan facts as_of attr plan = elim (cached_schema plan.schemas attr) [
  | some schema ↦ ok (schema, plan)
  | none ↦ do
    schema ← schema_for_changes facts as_of attr (active_plan_assertions plan) plan.retracts
    ok (schema, record plan { schemas = (attr, schema) ∷ plan.schemas })
]

-- What `schemaForPlan` returns, without the write to the cache: the loops below leave the
-- assertions and retractions of the plan alone, so that each of their later calls finds in the
-- cache what it would compute.
unfoldable pub schema_of : List RawFact → TransactionPlan → ℕ → Result AttributeSchema
unfolding schema_for_plan
schema_of facts plan attr = schema_for_plan facts none attr plan >>= λ found. ok found.0

-- `byID[fact.id] = fact`
unfoldable pub put_row : List RawFact → RawFact → List RawFact
put_row rows fact = keep (λ r. not (r.id == fact.id)) rows ++ fact ∷ []

unfoldable pub load : List RawFact → List RawFact → List RawFact
unfolding put_row
load rows [] = rows
load rows (fact ∷ rest) = load (put_row rows fact) rest

-- `entities[e] = true`
unfoldable pub add_entity : List ℕ → ℕ → List ℕ
add_entity entities e = if any (λ x. x == e) entities then entities else entities ++ e ∷ []

module _ (facts : List RawFact) where
  unfoldable pub rows_with_value : ℕ → StoredValue → List RawFact
  unfolding is_live raw_value stored_equal
  rows_with_value attr value =
      keep (λ f. is_live f && f.a == attr && stored_equal (raw_value f) value) facts

  unfoldable pub rows_of_entity : ℕ → List RawFact
  unfolding is_live
  rows_of_entity e = keep (λ f. is_live f && f.e == e) facts

  -- an entity's rows, and the references to it that do not belong to a transaction's receipt
  unfoldable pub rows_around : ℕ → List RawFact
  unfolding is_live refers_to is_transaction
  rows_around e =
      keep
        (λ f.
          is_live f
          && (f.e == e
              || (refers_to f.v f.t e && ltb genesis_tx f.e && not (is_transaction facts f.e))))
        facts

  module _ (schema_at : ℕ → Result AttributeSchema) where
    -- the first loop of `workingFactsForPlan`: the rows loaded, and the entities touched
    unfoldable pub load_assertions :
        List PlannedFact → List RawFact → List ℕ → Result (List RawFact × List ℕ)
    unfolding load add_entity rows_with_value
    load_assertions [] rows entities = ok (rows, entities)
    load_assertions (fact ∷ rest) rows entities = schema_at fact.a >>= λ schema.
        load_assertions rest
          (if schema.unique then load rows (rows_with_value fact.a fact.value) else rows)
          (add_entity entities fact.e)

  -- the second loop
  unfoldable pub load_retracts : List RetractRequest → List RawFact → List ℕ → List RawFact × List ℕ
  unfolding load add_entity rows_around
  load_retracts [] rows entities = (rows, entities)
  load_retracts (request ∷ rest) rows entities = elim request.missing [
    | true ↦ load_retracts rest rows entities
    | false ↦
        load_retracts rest
          (elim request.a [ none ↦ load rows (rows_around request.e) | some _ ↦ rows ])
          (add_entity entities request.e)
  ]

  -- the last loop, which asks for 400 entities at a time
  unfoldable pub load_entities : List ℕ → List RawFact → List RawFact
  unfolding load rows_of_entity
  load_entities [] rows = rows
  load_entities (e ∷ rest) rows = load_entities rest (load rows (rows_of_entity e))

  -- `workingFactsForPlan`
  unfoldable pub working_facts_for_plan : TransactionPlan → Result (List RawFact)
  unfolding load_assertions load_retracts load_entities schema_of sort_by
  working_facts_for_plan plan = do
    (asserted, entities) ← load_assertions (schema_of facts plan) plan.assertions [] []
    let (rows, touched) = load_retracts plan.retracts asserted entities
    ok (sort_by (λ f. f.id) (load_entities touched rows))
