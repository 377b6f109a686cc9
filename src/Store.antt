-- ===== src/Store.antt =====
-- The tables of a database (go/store.go) and the statements by which a transaction writes facts
-- (go/transact.go).
pub mod History
pub mod Live
use Prim.Native.String.{String}
use fgraph.Base.{
  ℕ, ◌+◌, Bool, true, false, not, ◌&&◌, ◌||◌, List, [], ◌∷◌, ◌++◌, map, Option, none, some, ◌==◌,
  ltb, leb, if◌then◌else◌, keep, any, Result, ok, fail, conflict, format_error, ◌>>=◌,
}
use fgraph.Value.{
  Storage, blob, Tag, tag_eq, tag_number, storage_equal, bytes_eq, StoredValue, stored_equal,
}
use fgraph.Fact.{RawFact, is_live, raw_value}
use fgraph.Schema.{deletes_history, AttributeSchema}
use fgraph.Plan.{PlannedFact}
use fgraph.Plan.Reading.{schema_for_changes}

-- a row of fgraph_ids: a name, or a 16-byte global id
pub record IdentityRow : Type 0 where
  pub id : ℕ
  pub name : Option String
  pub gid : List ℕ
  pub created_tx : ℕ

-- a row of fgraph_events, without the text of the event
pub record EventRow : Type 0 where
  pub tx : ℕ
  pub event_hash : List ℕ
  pub operation : Option (String × List ℕ)

-- The tables. `next_row` is the id that AUTOINCREMENT gives next; `next_id` is the row of
-- fgraph_meta; `fts` is fgraph_fts by rowid.
pub record Store : Type 0 where
  pub facts : List RawFact
  pub next_row : ℕ
  pub identities : List IdentityRow
  pub next_id : Option ℕ
  pub events : List EventRow
  pub blobs : List (List ℕ × Storage)
  pub fts : List (ℕ × String)

unfoldable pub is_text : Tag → Bool
unfolding tag_eq
is_text t = tag_eq t Tag.text || tag_eq t Tag.text_ref

-- `INSERT OR IGNORE INTO fgraph_blobs`
unfoldable pub store_blob :
    List (List ℕ × Storage) → Option (List ℕ × Storage) → List (List ℕ × Storage)
unfolding bytes_eq
store_blob blobs none = blobs
store_blob blobs (some row) =
    if any (λ known. bytes_eq known.0 row.0) blobs then blobs else blobs ++ row ∷ []

-- the unique index on (e, a, v, t) over the live rows
unfoldable pub is_indexed : List RawFact → PlannedFact → Bool
unfolding is_live raw_value stored_equal
is_indexed facts fact =
    any (λ f. is_live f && f.e == fact.e && f.a == fact.a && stored_equal (raw_value f) fact.value)
      facts

abbrev pub new_row : PlannedFact → ℕ → ℕ → RawFact
new_row fact id tx = record {
  id = id;
  e = fact.e;
  a = fact.a;
  v = fact.value.storage;
  t = fact.value.tag;
  tx = tx;
  rx = none;
}

-- the text to index, where the fact is a text: its absence is an error
unfoldable pub indexed_text : StoredValue → Result (Option String)
unfolding is_text
indexed_text value =
    if is_text value.tag
    then elim value.logical_text [ none ↦ fail format_error | some text ↦ ok (some text) ]
    else ok none

abbrev pub add_text : List (ℕ × String) → ℕ → Option String → List (ℕ × String)
add_text fts id none = fts
add_text fts id (some text) = fts ++ (id, text) ∷ []

-- `insertFact`: the store and the row's id
unfoldable pub insert_fact : Store → PlannedFact → ℕ → Result (Store × ℕ)
unfolding store_blob is_indexed indexed_text
insert_fact store fact tx = if is_indexed store.facts fact then fail conflict else do
  text ← indexed_text fact.value
  ok (
    record store {
      blobs = store_blob store.blobs fact.value.blob_row;
      facts = store.facts ++ new_row fact store.next_row tx ∷ [];
      next_row = store.next_row + 1;
      fts = add_text store.fts store.next_row text;
    },
    store.next_row,
  )

-- the loop of `transactOn` over the metadata and the assertions
unfoldable pub insert_facts : Store → List PlannedFact → ℕ → Result (Store × List ℕ)
unfolding insert_fact
insert_facts store [] tx = ok (store, [])
insert_facts store (fact ∷ rest) tx = insert_fact store fact tx >>= λ inserted.
    insert_facts inserted.0 rest tx >>= λ others. ok (others.0, inserted.1 ∷ others.1)

-- `DELETE FROM fgraph_facts WHERE id=?`
unfoldable pub delete_row : List RawFact → ℕ → List RawFact
delete_row facts id = keep (λ f. not (f.id == id)) facts

abbrev pub close_at : ℕ → ℕ → RawFact → RawFact
close_at id tx f = if f.id == id && is_live f then record f { rx = some tx } else f

-- `UPDATE fgraph_facts SET rx=? WHERE id=? AND rx IS NULL`: the constraint `rx > tx` refuses it for a
-- row that is not older than the transaction
unfoldable pub close_row : List RawFact → ℕ → ℕ → Result (List RawFact)
unfolding is_live
close_row facts id tx =
    if any (λ f. f.id == id && is_live f && leb tx f.tx) facts
    then fail format_error
    else ok (map (close_at id tx) facts)

-- the row is deleted, or ends
unfoldable pub remove_row : AttributeSchema → List RawFact → ℕ → ℕ → Result (List RawFact)
unfolding deletes_history delete_row close_row
remove_row schema facts id tx =
    if deletes_history schema then ok (delete_row facts id) else close_row facts id tx

unfoldable pub remove_text : List (ℕ × String) → RawFact → List (ℕ × String)
unfolding is_text
remove_text fts fact = if is_text fact.t then keep (λ row. not (row.0 == fact.id)) fts else fts

-- one turn of the loop of `transactOn` over the retractions, less the rendering
unfoldable pub retract_fact : Store → RawFact → ℕ → Result Store
unfolding schema_for_changes remove_row remove_text
retract_fact store fact tx = do
  schema ← schema_for_changes store.facts none fact.a [] []
  facts ← remove_row schema store.facts fact.id tx
  ok (record store { facts = facts; fts = remove_text store.fts fact })

unfoldable pub retract_facts : Store → List RawFact → ℕ → Result Store
unfolding retract_fact
retract_facts store [] tx = ok store
retract_facts store (fact ∷ rest) tx =
    retract_fact store fact tx >>= λ next. retract_facts next rest tx

-- the digests of `garbageCandidates`
unfoldable pub garbage_candidate : RawFact → List (List ℕ)
unfolding tag_eq
garbage_candidate fact =
    if tag_eq fact.t Tag.text_ref || tag_eq fact.t Tag.bytes_ref || tag_eq fact.t Tag.vector
    then elim fact.v [ blob hash ↦ hash ∷ [] | _ ↦ [] ]
    else []

unfoldable pub garbage_candidates : List RawFact → List (List ℕ)
unfolding garbage_candidate
garbage_candidates [] = []
garbage_candidates (fact ∷ rest) = garbage_candidate fact ++ garbage_candidates rest

-- `EXISTS (SELECT 1 FROM fgraph_facts WHERE t IN (7,8,9) AND v=?)`
unfoldable pub is_referenced : List RawFact → List ℕ → Bool
unfolding storage_equal tag_number
is_referenced facts hash =
    any (λ f. leb 7 (tag_number f.t) && leb (tag_number f.t) 9 && storage_equal f.v (blob hash))
      facts

unfoldable pub delete_orphan : Store → List ℕ → Store
unfolding is_referenced bytes_eq
delete_orphan store hash =
    if is_referenced store.facts hash
    then store
    else record store { blobs = keep (λ row. not (bytes_eq row.0 hash)) store.blobs }

unfoldable pub collect_garbage : Store → List (List ℕ) → Store
unfolding delete_orphan
collect_garbage store [] = store
collect_garbage store (hash ∷ rest) = collect_garbage (delete_orphan store hash) rest

-- The writes of `transactOn` to the facts, the texts and the blobs. `validate` is the check of the
-- shapes of the touched entities, which reads the tables and may fail.
unfoldable pub write_delta :
    (Store → Result (Unit {0})) → Store → List PlannedFact → List RawFact → ℕ → Result Store
unfolding insert_facts retract_facts garbage_candidates collect_garbage
write_delta validate store asserted retracted tx = do
  (inserted, _) ← insert_facts store asserted tx
  closed ← retract_facts inserted retracted tx
  _ ← validate closed
  ok (collect_garbage closed (garbage_candidates retracted))
