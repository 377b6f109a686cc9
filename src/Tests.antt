-- ===== src/Tests.antt =====
-- The theorems at concrete inputs: a person's city changes from Paris to Lyon.
pub mod Texts
pub mod Calls
pub mod Times
pub mod Queries
use Prim.Native.String.{String}
use text.Mathlib.TextEquality.{eq_iff}
use fgraph.Base.{
  ℕ, ◌≡◌, ◌≢◌, refl, sym, ap, ◌∙◌, inl, inr, true, false, List, [], ◌∷◌, map, Option, none, some,
  arith, Result, ok, keep, any, In, sort_by,
}
use fgraph.Value.{Storage, string, Tag, StoredValue, column_value, stored_equal}
use fgraph.Fact.{RawFact, raw_value, is_live, visible}
use fgraph.Identity.{Allocator}
use fgraph.Schema.{AttributeSchema, empty_schema}
use fgraph.Plan.{PlannedFact}
use fgraph.Diff.{
  WorkingFact, from_raw, from_planned, Operation, assertion, retraction, diff_rows, run_operations,
  start_diff, retract_hits, clear_slot, insert_planned, has_key, protected_owners, final_assertions,
  key_of, fact_key, FactKey,
}
use fgraph.Diff.Slots.{Pairs, OneValue, OneOwner, IsNewValue}
use fgraph.Diff.Delta.{
  IsReadable, Remains, diff_rows-one_key, diff_rows-OneValue, diff_rows-OneOwner,
}
use fgraph.Diff.Restored.{assert_value, retract_attribute, diff_rows-two_owners}
use fgraph.Store.{Store, write_delta, insert_facts, new_row}
use fgraph.Store.History.{view_at, without_all, erased_ids, view_at-write_delta}
use fgraph.Store.Live.{new_rows, unretracted, live-write_delta}

abbrev text_value : Storage → StoredValue
text_value v = record { storage = v; tag = Tag.text; logical_text = some "Lyon"; blob_row = none }

abbrev one_value : AttributeSchema
one_value = record empty_schema { unique = true }

abbrev city_schema : ℕ → Result AttributeSchema
city_schema attr = ok one_value

-- entity 70, attribute 66, written by transaction 67
abbrev paris : RawFact
paris = record { id = 1; e = 70; a = 66; v = string "Paris"; t = Tag.text; tx = 67; rx = none }

abbrev lyon : PlannedFact
lyon = assert_value 70 66 (text_value (string "Lyon")) 1

abbrev move : List Operation
move = assertion lyon ∷ []

move-IsReadable : IsReadable (paris ∷ []) move
unfolding has_key
move-IsReadable = record { ids = refl; keys = refl; orders = refl }

move-returned : diff_rows city_schema (paris ∷ []) move ≡ ok (lyon ∷ [], paris ∷ [])
unfolding diff_rows run_operations start_diff clear_slot insert_planned
move-returned = refl

lyon-Remains : Remains (paris ∷ []) (lyon ∷ []) (paris ∷ []) (from_planned lyon)
lyon-Remains = inr (lyon, inl refl, refl)

paris-OneValue : Pairs (OneValue 66) (map from_raw (paris ∷ []))
paris-OneValue v w (inl p) (inl q) va wa e = p ∙ sym q
paris-OneValue v w (inl p) (inr n) va wa e = absurd n.lower
paris-OneValue v w (inr m) n va wa e = absurd m.lower

paris-OneOwner : Pairs (OneOwner 66) (map from_raw (paris ∷ []))
paris-OneOwner v w (inl p) (inl q) va wa e = ap (λ (x : WorkingFact). x.e) (p ∙ sym q)
paris-OneOwner v w (inl p) (inr n) va wa e = absurd n.lower
paris-OneOwner v w (inr m) n va wa e = absurd m.lower

-- the text of a key, or the empty one
abbrev key_text : FactKey → String
key_text k = elim k.storage [ string s ↦ s | _ ↦ "" ]

abbrev key_of_operation : Operation → FactKey
key_of_operation (assertion f) = fact_key f.e f.a f.value
key_of_operation (retraction r) = fact_key 0 0 (text_value (string ""))

paris-ne-lyon : ◌≢◌ {A = String} "Paris" "Lyon"
paris-ne-lyon = ground (arith, eq_iff "Paris" "Lyon")

lyon-new : (f : PlannedFact) → In (assertion f) move → IsNewValue 66 (paris ∷ []) f
unfolding from_raw
lyon-new f (inl e) a r (inl p) k =
    paris-ne-lyon (ap key_text (sym (ap key_of (ap from_raw p)) ∙ k ∙ ap key_of_operation e))
lyon-new f (inl e) a r (inr n) k = absurd n.lower
lyon-new f (inr m) a r n k = absurd m.lower

diff_rows-one_key_example : from_planned lyon ≡ from_planned lyon
diff_rows-one_key_example =
    diff_rows-one_key city_schema (paris ∷ []) move move-IsReadable move-returned
      (from_planned lyon) (from_planned lyon) lyon-Remains lyon-Remains refl

diff_rows-OneValue_example : from_planned lyon ≡ from_planned lyon
unfolding from_planned
diff_rows-OneValue_example =
    diff_rows-OneValue city_schema (paris ∷ []) move move-IsReadable move-returned
      (from_planned lyon) (from_planned lyon) lyon-Remains lyon-Remains 66 (λ s e. cc)
      paris-OneValue refl refl refl

diff_rows-OneOwner_example : (from_planned lyon).e ≡ (from_planned lyon).e
unfolding from_planned stored_equal
diff_rows-OneOwner_example =
    diff_rows-OneOwner city_schema (paris ∷ []) move move-IsReadable move-returned
      (from_planned lyon) (from_planned lyon) lyon-Remains lyon-Remains 66 (λ s e. cc) lyon-new
      paris-OneOwner refl refl refl

diff_rows-two_owners_example :
    diff_rows city_schema (paris ∷ []) (
      retraction (retract_attribute 70 66 1)
      ∷ assertion (assert_value 71 66 (raw_value paris) 2)
      ∷ assertion (assert_value 70 66 (raw_value paris) 3)
      ∷ [])
    ≡ ok (assert_value 71 66 (raw_value paris) 2 ∷ [], [])
diff_rows-two_owners_example =
    diff_rows-two_owners city_schema one_value paris 71 refl refl refl (omega arith)

abbrev before : Store
before = record {
  facts = paris ∷ [];
  next_row = 2;
  identities = [];
  next_id = some 71;
  events = [];
  blobs = [];
  fts = (1, "Paris") ∷ [];
}

abbrev after : Store
after = record before {
  facts = record paris { rx = some 71 } ∷ new_row lyon 2 71 ∷ [];
  next_row = 3;
  fts = (2, "Lyon") ∷ [];
}

abbrev no_shapes : Store → Result (Unit {0})
no_shapes store = ok tt

move-written : write_delta no_shapes before (lyon ∷ []) (paris ∷ []) 71 ≡ ok after
unfolding write_delta
move-written = refl

view_at-write_delta_example :
    (inserted : Store × List ℕ) × (insert_facts before (lyon ∷ []) 71 ≡ ok inserted)
    × (view_at 70 after.facts
        ≡ without_all (erased_ids inserted.0 (paris ∷ []) 71) (view_at 70 before.facts))
view_at-write_delta_example =
    view_at-write_delta no_shapes before (lyon ∷ []) (paris ∷ []) 71 70 (omega arith) move-written

live-write_delta_example :
    keep is_live after.facts ≡ unretracted (paris ∷ []) (paris ∷ new_row lyon 2 71 ∷ [])
unfolding is_live
live-write_delta_example =
    live-write_delta no_shapes before (lyon ∷ []) (paris ∷ []) 71 move-written
