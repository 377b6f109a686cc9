-- ===== src/Diff.antt =====
-- `diffPlan` of go/transact.go: the operations of a plan are run in order against the live rows
-- that they can touch, and what is left is the delta to write.
pub mod Noted
pub mod Tracks
pub mod Drop
pub mod Keys
pub mod Place
pub mod Run
pub mod Keeps
pub mod Slots
pub mod Start
pub mod Delta
pub mod Restored
use Prim.Native.String.{String}
use fgraph.Base.{
  ℕ, Bool, true, false, not, ◌&&◌, ◌||◌, List, [], ◌∷◌, ◌++◌, map, Option, none, some, ◌==◌, ltb,
  if◌then◌else◌, keep, any, find, sort_by, Result, ok, fail, conflict, ◌>>=◌,
}
use fgraph.Value.{
  Storage, null, Tag, ref, StoredValue, tag_eq, storage_key_eq, stored_equal, refers_to,
}
use fgraph.Fact.{RawFact, raw_value}
use fgraph.Identity.{genesis_tx}
use fgraph.Schema.{AttributeSchema}
use fgraph.Plan.{PlannedFact, RetractRequest, TransactionPlan, value_matches}
use fgraph.Plan.Reading.{schema_of, working_facts_for_plan}

-- The two pointers of a `workingFact`, of which one is set.
pub data Origin : Type 0 where
  stored : RawFact → Origin
  planned : PlannedFact → Origin

pub record WorkingFact : Type 0 where
  pub e : ℕ
  pub a : ℕ
  pub value : StoredValue
  pub origin : Origin

-- The string of `factKey`, which shows the entity, the attribute, the tag and the stored value.
pub record FactKey : Type 0 where
  pub e : ℕ
  pub a : ℕ
  pub tag : Tag
  pub storage : Storage

unfoldable pub key_eq : FactKey → FactKey → Bool
unfolding tag_eq storage_key_eq
key_eq k l = k.e == l.e && k.a == l.a && tag_eq k.tag l.tag && storage_key_eq k.storage l.storage

abbrev pub fact_key : ℕ → ℕ → StoredValue → FactKey
fact_key e a value = record { e = e; a = a; tag = value.tag; storage = value.storage }

-- Every entry of the map `working` stands under the key of its own fields.
abbrev pub key_of : WorkingFact → FactKey
key_of w = fact_key w.e w.a w.value

unfoldable pub from_raw : RawFact → WorkingFact
unfolding raw_value
from_raw f = record { e = f.e; a = f.a; value = raw_value f; origin = stored f }

unfoldable pub from_planned : PlannedFact → WorkingFact
from_planned f = record { e = f.e; a = f.a; value = f.value; origin = planned f }

-- `working[key] = fact`
unfoldable pub put_working : List WorkingFact → WorkingFact → List WorkingFact
unfolding key_eq
put_working working w = keep (λ x. not (key_eq (key_of x) (key_of w))) working ++ w ∷ []

unfoldable pub has_key : List WorkingFact → FactKey → Bool
unfolding key_eq
has_key working key = any (λ x. key_eq (key_of x) key) working

-- The locals of `diffPlan` that its loop changes. `canceled` is a set of orders, `retracted` is
-- `retractByID`, and `retract_keys` is `retractByKey`.
pub record DiffState : Type 0 where
  pub working : List WorkingFact
  pub inserted : List PlannedFact
  pub canceled : List ℕ
  pub retracted : List RawFact
  pub retract_keys : List (FactKey × ℕ)

unfoldable pub delete_id : List RawFact → ℕ → List RawFact
delete_id rows id = keep (λ r. not (r.id == id)) rows

unfoldable pub delete_key : List (FactKey × ℕ) → FactKey → List (FactKey × ℕ)
unfolding key_eq
delete_key keys key = keep (λ entry. not (key_eq entry.0 key)) keys

unfoldable pub find_key : List (FactKey × ℕ) → FactKey → Option ℕ
unfolding key_eq
find_key [] key = none
find_key ((k, id) ∷ rest) key = if key_eq k key then some id else find_key rest key

-- A map returns the zero row for an id that it lacks.
unfoldable pub find_row : List RawFact → ℕ → RawFact
find_row [] id = record { id = 0; e = 0; a = 0; v = null; t = ref; tx = 0; rx = none }
find_row (r ∷ rest) id = if r.id == id then r else find_row rest id

-- An entry is taken out: a planned one is canceled, a stored one is to be retracted.
unfoldable pub note_removed : DiffState → WorkingFact → DiffState
unfolding delete_id delete_key
note_removed st w = elim w.origin [
  | planned f ↦ record st { canceled = f.order ∷ st.canceled }
  | stored r ↦ record st {
    retracted = r ∷ delete_id st.retracted r.id;
    retract_keys = (key_of w, r.id) ∷ delete_key st.retract_keys (key_of w);
  }
]

unfoldable pub note_all : DiffState → List WorkingFact → DiffState
unfolding note_removed
note_all st [] = st
note_all st (w ∷ rest) = note_all (note_removed st w) rest

-- Every entry that the test picks is deleted from the map and noted. Go visits a map in no fixed
-- order; the result is the same map for each order.
unfoldable pub drop_entries : (WorkingFact → Bool) → DiffState → DiffState
unfolding note_all
drop_entries hit st =
    note_all (record st { working = keep (λ w. not (hit w)) st.working }) (keep hit st.working)

-- `request.a != nil && fact.a != *request.a` is false
unfoldable pub attribute_matches : Option ℕ → ℕ → Bool
attribute_matches none a = true
attribute_matches (some attr) a = a == attr

-- `request.a == nil && …`: an application's reference to an entity that is retracted as a whole
unfoldable pub is_inbound : List ℕ → Option ℕ → ℕ → WorkingFact → Bool
unfolding refers_to
is_inbound protected (some _) e w = false
is_inbound protected none e w =
    refers_to w.value.storage w.value.tag e
    && ltb genesis_tx w.e
    && not (any (λ owner. owner == w.e) protected)

-- the tests of the loop that a retraction makes over `working`
unfoldable pub retract_hits : List ℕ → RetractRequest → WorkingFact → Bool
unfolding is_inbound attribute_matches value_matches
retract_hits protected request w =
    (w.e == request.e || is_inbound protected request.a request.e w)
    && attribute_matches request.a w.a
    && value_matches request.value w.value

unfoldable pub same_slot : PlannedFact → WorkingFact → Bool
same_slot f w = w.e == f.e && w.a == f.a

unfoldable pub is_planned : WorkingFact → Bool
is_planned w = elim w.origin [ planned _ ↦ true | stored _ ↦ false ]

-- `if !schema.many { … }`: a new value takes the place of the stored one
unfoldable pub clear_slot : AttributeSchema → PlannedFact → DiffState → Result DiffState
unfolding drop_entries same_slot is_planned
clear_slot schema f st =
    if schema.many
    then ok st
    else if any (λ w. same_slot f w && is_planned w) st.working
    then fail conflict
    else ok (drop_entries (same_slot f) st)

-- a row that this plan retracted before is kept instead of written again
unfoldable pub restore : DiffState → FactKey → ℕ → DiffState
unfolding find_row delete_id delete_key put_working from_raw
restore st key id =
    let row = find_row st.retracted id in
    record st {
      retracted = delete_id st.retracted id;
      retract_keys = delete_key st.retract_keys key;
      working = put_working st.working (from_raw row);
    }

unfoldable pub owned_elsewhere : PlannedFact → WorkingFact → Bool
unfolding stored_equal
owned_elsewhere f w = w.a == f.a && not (w.e == f.e) && stored_equal w.value f.value

unfoldable pub insert_planned : AttributeSchema → PlannedFact → DiffState → Result DiffState
unfolding put_working from_planned owned_elsewhere
insert_planned schema f st =
    if schema.unique && any (owned_elsewhere f) st.working
    then fail conflict
    else ok (record st {
      working = put_working st.working (from_planned f);
      inserted = st.inserted ++ f ∷ [];
    })

-- what follows the slot's clearing: the row comes back, or the assertion is inserted
unfoldable pub place : AttributeSchema → PlannedFact → DiffState → Result DiffState
unfolding restore insert_planned find_key
place schema f st = elim (find_key st.retract_keys (fact_key f.e f.a f.value)) [
  | some id ↦ ok (restore st (fact_key f.e f.a f.value) id)
  | none ↦ insert_planned schema f st
]

-- `orderedOperation`
pub data Operation : Type 0 where
  assertion : PlannedFact → Operation
  retraction : RetractRequest → Operation

unfoldable pub order_of : Operation → ℕ
order_of (assertion f) = f.order
order_of (retraction r) = r.order

module _ (schema_at : ℕ → Result AttributeSchema) (protected : List ℕ) where
  -- one turn of the loop over the operations
  unfoldable pub run_operation : Operation → DiffState → Result DiffState
  unfolding drop_entries retract_hits has_key clear_slot place
  run_operation (retraction request) st =
      ok (if request.missing then st else drop_entries (retract_hits protected request) st)
  run_operation (assertion f) st =
      if has_key st.working (fact_key f.e f.a f.value)
      then ok st
      else do schema ← schema_at f.a; cleared ← clear_slot schema f st; place schema f cleared

  unfoldable pub run_operations : List Operation → DiffState → Result DiffState
  unfolding run_operation
  run_operations [] st = ok st
  run_operations (op ∷ rest) st = run_operation op st >>= λ next. run_operations rest next

-- the loop that fills `working`
unfoldable pub fill_working : List RawFact → List WorkingFact → List WorkingFact
unfolding put_working from_raw
fill_working [] working = working
fill_working (f ∷ rest) working = fill_working rest (put_working working (from_raw f))

-- `protectedOwners`: the transactions among the rows
unfoldable pub protected_owners : List RawFact → List ℕ
protected_owners current = map (λ f. f.e) (keep (λ f. f.e == f.tx && f.a == 1) current)

unfoldable pub ordered_operations : TransactionPlan → List Operation
unfolding order_of sort_by
ordered_operations plan =
    sort_by order_of (map assertion plan.assertions ++ map retraction plan.retracts)

unfoldable pub start_diff : List RawFact → DiffState
unfolding fill_working
start_diff current = record {
  working = fill_working current [];
  inserted = [];
  canceled = [];
  retracted = [];
  retract_keys = [];
}

unfoldable pub final_assertions : DiffState → List PlannedFact
final_assertions st = keep (λ f. not (any (λ order. order == f.order) st.canceled)) st.inserted

-- `diffPlan`, past the reads: the assertions to write, and the rows to retract in order of id
unfoldable pub diff_rows :
    (ℕ → Result AttributeSchema)
    → List RawFact
    → List Operation
    → Result (List PlannedFact × List RawFact)
unfolding run_operations protected_owners start_diff final_assertions sort_by
diff_rows schema_at current operations = do
  st ← run_operations schema_at (protected_owners current) operations (start_diff current)
  ok (final_assertions st, sort_by (λ r. r.id) st.retracted)

-- `diffPlan`
unfoldable pub diff_plan : List RawFact → TransactionPlan → Result (List PlannedFact × List RawFact)
unfolding diff_rows working_facts_for_plan ordered_operations schema_of
diff_plan facts plan = do
  current ← working_facts_for_plan facts plan
  diff_rows (schema_of facts plan) current (ordered_operations plan)
