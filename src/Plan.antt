-- ===== src/Plan.antt =====
-- The plan of a transaction (go/transact.go): what it asserts and retracts, in order.
pub mod Isolation
pub mod Reading
use Prim.Native.String.{String}
use fgraph.Base.{
  ℕ, ◌+◌, Bool, true, false, not, ◌&&◌, ◌||◌, List, [], ◌∷◌, ◌++◌, map, Option, none, some, ◌==◌,
  ltb, if◌then◌else◌, keep, any, sort_by, insert_by, Result, ok, fail, conflict, ◌>>=◌, reject_if,
}
use fgraph.Value.{StoredValue, stored_equal, refers_to}
use fgraph.Identity.{Allocator}
use fgraph.Schema.{AttributeSchema, is_schema_attribute}

pub record PlannedFact : Type 0 where
  pub attr : String
  pub value : StoredValue
  pub e : ℕ
  pub a : ℕ
  pub order : ℕ
  pub tx_target : Bool
  pub cas : Bool

pub record RetractRequest : Type 0 where
  pub a : Option ℕ
  pub value : Option StoredValue
  pub attr : String
  pub e : ℕ
  pub order : ℕ
  pub missing : Bool
  pub cas : Bool

-- A target `"%d/%d"` of `casTargets` is the pair of its two numbers.
pub record TransactionPlan : Type 0 where
  pub tempids : List (String × ℕ)
  pub allocator : Allocator
  pub cas_targets : List (ℕ × ℕ)
  pub schemas : List (ℕ × AttributeSchema)
  pub assertions : List PlannedFact
  pub retracts : List RetractRequest
  pub order : ℕ

-- `delete(plan.schemas, e)`
unfoldable pub forget_schema : List (ℕ × AttributeSchema) → ℕ → List (ℕ × AttributeSchema)
forget_schema schemas e = keep (λ entry. not (entry.0 == e)) schemas

-- `appendAssertion`
unfoldable pub append_assertion : TransactionPlan → PlannedFact → TransactionPlan
unfolding forget_schema is_schema_attribute
append_assertion plan fact = record plan {
  assertions = plan.assertions ++ fact ∷ [];
  schemas = if is_schema_attribute fact.a then forget_schema plan.schemas fact.e else plan.schemas;
}

-- `request.a == nil || isSchemaAttribute(*request.a)`
unfoldable pub touches_schema : Option ℕ → Bool
unfolding is_schema_attribute
touches_schema none = true
touches_schema (some a) = is_schema_attribute a

-- `appendRetraction`
unfoldable pub append_retraction : TransactionPlan → RetractRequest → TransactionPlan
unfolding forget_schema touches_schema
append_retraction plan request = record plan {
  order = plan.order + 1;
  retracts = plan.retracts ++ (record request { order = plan.order + 1 }) ∷ [];
  schemas = if touches_schema request.a then forget_schema plan.schemas request.e else plan.schemas;
}

-- `request.value == nil || storedEqual(value, *request.value)`
unfoldable pub value_matches : Option StoredValue → StoredValue → Bool
unfolding stored_equal
value_matches none value = true
value_matches (some wanted) value = stored_equal value wanted

-- The test that `retractMatchesPlanned` and `rawRetracted` share, past `request.missing`.
unfoldable pub request_covers : Option ℕ → RetractRequest → ℕ → ℕ → StoredValue → Bool
unfolding refers_to value_matches
request_covers none request e a value =
    e == request.e || refers_to value.storage value.tag request.e
request_covers (some attr) request e a value =
    e == request.e && a == attr && value_matches request.value value

-- `retractMatchesPlanned`
unfoldable pub retract_matches_planned : RetractRequest → PlannedFact → Bool
unfolding request_covers
retract_matches_planned request fact =
    if request.missing then false else request_covers request.a request fact.e fact.a fact.value

-- the inner loop of `activePlanAssertions`
unfoldable pub is_canceled : List RetractRequest → PlannedFact → Bool
unfolding retract_matches_planned
is_canceled retracts fact =
    any (λ request. ltb fact.order request.order && retract_matches_planned request fact) retracts

-- `activePlanAssertions`
unfoldable pub active_plan_assertions : TransactionPlan → List PlannedFact
unfolding is_canceled sort_by
active_plan_assertions plan =
    keep (λ fact. not (is_canceled plan.retracts fact)) (sort_by (λ f. f.order) plan.assertions)

abbrev pub has_target : List (ℕ × ℕ) → ℕ → ℕ → Bool
has_target targets e a = any (λ key. key.0 == e && key.1 == a) targets

-- the first two loops of `validateCASIsolation`: the keys that a cas owns
unfoldable pub cas_keys : TransactionPlan → List (ℕ × ℕ)
cas_keys plan = plan.cas_targets ++ map (λ f. (f.e, f.a)) (keep (λ f. f.cas) plan.assertions)

-- one turn of the loop over the retractions
unfoldable pub retract_breaks_cas : List (ℕ × ℕ) → RetractRequest → Bool
retract_breaks_cas keys request = if request.cas then false else elim request.a [
  | none ↦ any (λ key. key.0 == request.e) keys
  | some attr ↦ has_target keys request.e attr
]

-- `validateCASIsolation`
unfoldable pub validate_cas_isolation : TransactionPlan → Result (Unit {0})
unfolding cas_keys retract_breaks_cas
validate_cas_isolation plan = do
  let keys = cas_keys plan
  _ ← reject_if (any (λ f. not f.cas && has_target keys f.e f.a) plan.assertions) conflict
  reject_if (any (retract_breaks_cas keys) plan.retracts) conflict
