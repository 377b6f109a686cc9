-- ===== src/Store/Live.antt =====
-- What is live after a transaction's writes.
use fgraph.Base.{
  map, Bool-cases, inl, inr, ℕ, ◌+◌, ◌≡◌, refl, sym, ap, ◌∙◌, List, [], ◌∷◌, ◌++◌, arith, keep,
  keep-append, Result, ok, >>=-eq-ok,
}
use mathlib.Core.List.{append-nil, append_assoc}
use fgraph.Fact.{RawFact, is_live}
use fgraph.Schema.{AttributeSchema, deletes_history}
use fgraph.Plan.{PlannedFact}
use fgraph.Diff.Run.{ok-injective}
use fgraph.Store.{
  Store, new_row, insert_fact, insert_facts, delete_row, close_at, remove_row, retract_fact,
  retract_facts, garbage_candidates, write_delta,
}
use fgraph.Store.History.{
  close_row-eq, schema_of_retract, facts-retract_fact, without, facts-insert_fact,
  facts-collect_garbage, write_delta_steps,
}

-- the rows written for assertions, numbered from an id on
abbrev pub new_rows : List PlannedFact → ℕ → ℕ → List RawFact
new_rows [] id tx = []
new_rows (fact ∷ rest) id tx = new_row fact id tx ∷ new_rows rest (id + 1) tx

-- the rows whose ids are not among those of the retracted rows
abbrev pub unretracted : List RawFact → List RawFact → List RawFact
unretracted [] facts = facts
unretracted (r ∷ retracted) facts = unretracted retracted (without r.id facts)

next_row-insert_fact :
    (store : Store) (fact : PlannedFact) (tx : ℕ) {result : Store × ℕ}
    → insert_fact store fact tx ≡ ok result
    → result.0.next_row ≡ store.next_row + 1
unfolding insert_fact
next_row-insert_fact store fact tx h = ground arith

facts-insert_facts :
    (store : Store) (asserted : List PlannedFact) (tx : ℕ) {result : Store × List ℕ}
    → insert_facts store asserted tx ≡ ok result
    → result.0.facts ≡ store.facts ++ new_rows asserted store.next_row tx
unfolding insert_facts
facts-insert_facts store [] tx h =
    ap (λ (r : Store × List ℕ). r.0.facts) (sym (ok-injective h)) ∙ sym (append-nil store.facts)
facts-insert_facts store (fact ∷ rest) tx {result} h =
    let (one, first, k) = >>=-eq-ok (insert_fact store fact tx) _ h in
    let (others, next, e) = >>=-eq-ok (insert_facts one.0 rest tx) _ k in
    ap (λ (r : Store × List ℕ). r.0.facts) (sym (ok-injective e))
    ∙ facts-insert_facts one.0 rest tx next
    ∙ ap (λ n. one.0.facts ++ new_rows rest n tx) (next_row-insert_fact store fact tx first)
    ∙ ap (λ fs. fs ++ new_rows rest (store.next_row + 1) tx) (facts-insert_fact store fact tx first)
    ∙ append_assoc store.facts (new_row fact store.next_row tx ∷ []) _

live-close_at :
    (facts : List RawFact) (id tx : ℕ)
    → keep is_live (map (close_at id tx) facts) ≡ without id (keep is_live facts)
unfolding is_live
live-close_at [] id tx = refl
live-close_at (f ∷ facts) id tx = ground (arith, live-close_at facts id tx)

live-delete_row :
    (facts : List RawFact) (id : ℕ)
    → keep is_live (delete_row facts id) ≡ without id (keep is_live facts)
unfolding delete_row is_live
live-delete_row [] id = refl
live-delete_row (f ∷ facts) id = ground (arith, live-delete_row facts id)

live-remove_row :
    (facts : List RawFact) (id tx : ℕ) (schema : AttributeSchema) {result : List RawFact}
    → remove_row schema facts id tx ≡ ok result
    → keep is_live result ≡ without id (keep is_live facts)
unfolding remove_row
live-remove_row facts id tx schema {result} h = elim (Bool-cases (deletes_history schema)) [
  | inl drops ↦ ground (arith, drops, h, live-delete_row facts id)
  | inr keeps ↦
      let e = close_row-eq facts id tx {result = result} (ground (arith, keeps, h)) in
      ap (keep is_live) (sym e) ∙ live-close_at facts id tx
]

live-retract_fact :
    (store : Store) (fact : RawFact) (tx : ℕ) {next : Store}
    → retract_fact store fact tx ≡ ok next
    → keep is_live next.facts ≡ without fact.id (keep is_live store.facts)
live-retract_fact store fact tx h =
    let (schema, known) = schema_of_retract store fact tx h in
    live-remove_row store.facts fact.id tx schema (facts-retract_fact store fact tx schema known h)

live-retract_facts :
    (store : Store) (retracted : List RawFact) (tx : ℕ) {result : Store}
    → retract_facts store retracted tx ≡ ok result
    → keep is_live result.facts ≡ unretracted retracted (keep is_live store.facts)
unfolding retract_facts
live-retract_facts store [] tx h = ap (λ (s : Store). keep is_live s.facts) (sym (ok-injective h))
live-retract_facts store (fact ∷ rest) tx h =
    let (next, first, k) = >>=-eq-ok (retract_fact store fact tx) _ h in
    live-retract_facts next rest tx k
    ∙ ap (unretracted rest) (live-retract_fact store fact tx first)

live-new_rows :
    (asserted : List PlannedFact) (id tx : ℕ)
    → keep is_live (new_rows asserted id tx) ≡ new_rows asserted id tx
unfolding is_live
live-new_rows [] id tx = refl
live-new_rows (fact ∷ rest) id tx = ap (◌∷◌ (new_row fact id tx)) (live-new_rows rest (id + 1) tx)

-- After an accepted write the live rows are those that were live and those of the assertions, under
-- new ids in order, less the rows with the ids of the retracted ones.
pub live-write_delta :
    (validate : Store → Result (Unit {0})) (store : Store) (asserted : List PlannedFact)
    (retracted : List RawFact) (tx : ℕ) {result : Store}
    → write_delta validate store asserted retracted tx ≡ ok result
    → keep is_live result.facts
      ≡ unretracted retracted (keep is_live store.facts ++ new_rows asserted store.next_row tx)
live-write_delta validate store asserted retracted tx h =
    let (inserted, closed, first, second, e) =
      write_delta_steps validate store asserted retracted tx h in
    ap (λ (s : Store). keep is_live s.facts) e
    ∙ ap (keep is_live) (facts-collect_garbage closed (garbage_candidates retracted))
    ∙ live-retract_facts inserted.0 retracted tx second
    ∙ ap (λ fs. unretracted retracted (keep is_live fs))
        (facts-insert_facts store asserted tx first)
    ∙ ap (unretracted retracted) (
        keep-append is_live store.facts (new_rows asserted store.next_row tx)
        ∙ ap (◌++◌ (keep is_live store.facts)) (live-new_rows asserted store.next_row tx))
