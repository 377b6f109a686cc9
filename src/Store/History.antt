-- ===== src/Store/History.antt =====
-- Views of earlier transactions (`visibility` of go/read.go) across the writes of `transactOn`.
use fgraph.Base.{
  Bool-cases, inl, inr, leb, any, ◌&&◌, ℕ, ◌<◌, ◌≡◌, refl, sym, ap, ◌∙◌, not, List, [], ◌∷◌, ◌++◌,
  map, none, some, arith, ◌==◌, keep, if◌then◌else◌, Result, ok, fail, >>=-eq-ok,
}
use fgraph.Fact.{RawFact, visible, is_live}
use fgraph.Schema.{AttributeSchema, deletes_history}
use fgraph.Plan.{PlannedFact}
use fgraph.Plan.Reading.{schema_for_changes}
use fgraph.Diff.Run.{ok-injective}
use fgraph.Store.{
  Store, new_row, insert_fact, insert_facts, delete_row, close_row, close_at, remove_row,
  retract_fact, retract_facts, delete_orphan, collect_garbage, garbage_candidates, write_delta,
}

-- a row as a view shows it: without the transaction that retracted it
abbrev pub unclosed : RawFact → RawFact
unclosed f = record f { rx = none }

-- what the view at a transaction shows
abbrev pub view_at : ℕ → List RawFact → List RawFact
view_at t facts = map unclosed (keep (visible (some t)) facts)

-- the rows with other ids
abbrev pub without : ℕ → List RawFact → List RawFact
without id facts = keep (λ f. not (f.id == id)) facts

close_at-visible :
    (t id tx : ℕ) (f : RawFact) → t < tx → visible (some t) (close_at id tx f) ≡ visible (some t) f
unfolding visible
close_at-visible t id tx f h = ground arith

pub close_row-eq :
    (facts : List RawFact) (id tx : ℕ) {result : List RawFact}
    → close_row facts id tx ≡ ok result
    → map (close_at id tx) facts ≡ result
unfolding close_row
close_row-eq facts id tx h =
    elim (Bool-cases (any (λ f. f.id == id && is_live f && leb tx f.tx) facts)) [
      | inl early ↦ absurd (ground (arith, early, h))
      | inr later ↦ ground (arith, later, h)
    ]

view_at-close_at :
    (t id tx : ℕ) (facts : List RawFact)
    → t < tx
    → view_at t (map (close_at id tx) facts) ≡ view_at t facts
view_at-close_at t id tx [] h = refl
view_at-close_at t id tx (f ∷ facts) h =
    ground (arith, close_at-visible t id tx f h, view_at-close_at t id tx facts h)

view_at-delete_row :
    (t id : ℕ) (facts : List RawFact)
    → view_at t (delete_row facts id) ≡ without id (view_at t facts)
unfolding delete_row
view_at-delete_row t id [] = refl
view_at-delete_row t id (f ∷ facts) = ground (arith, view_at-delete_row t id facts)

-- A row that a later transaction writes is not in the view.
view_at-new_row :
    (t tx id : ℕ) (facts : List RawFact) (fact : PlannedFact)
    → t < tx
    → view_at t (facts ++ new_row fact id tx ∷ []) ≡ view_at t facts
unfolding visible
view_at-new_row t tx id [] fact h = ground arith
view_at-new_row t tx id (f ∷ facts) fact h = ground (arith, view_at-new_row t tx id facts fact h)

pub facts-insert_fact :
    (store : Store) (fact : PlannedFact) (tx : ℕ) {result : Store × ℕ}
    → insert_fact store fact tx ≡ ok result
    → result.0.facts ≡ store.facts ++ new_row fact store.next_row tx ∷ []
unfolding insert_fact
facts-insert_fact store fact tx h = ground arith

view_at-insert_facts :
    (t tx : ℕ) (store : Store) (asserted : List PlannedFact) {result : Store × List ℕ}
    → t < tx
    → insert_facts store asserted tx ≡ ok result
    → view_at t result.0.facts ≡ view_at t store.facts
unfolding insert_facts
view_at-insert_facts t tx store [] lt h = ground arith
view_at-insert_facts t tx store (fact ∷ rest) lt h =
    let (one, first, k) = >>=-eq-ok (insert_fact store fact tx) _ h in
    let (others, next, e) = >>=-eq-ok (insert_facts one.0 rest tx) _ k in
    let step = view_at-insert_facts t tx one.0 rest lt next in
    ap (λ (r : Store × List ℕ). view_at t r.0.facts) (sym (ok-injective e))
    ∙ step
    ∙ ap (view_at t) (facts-insert_fact store fact tx first)
    ∙ view_at-new_row t tx store.next_row store.facts fact lt

-- The ids of the retracted rows whose attribute drops history, each at its turn.
pub erased_ids : Store → List RawFact → ℕ → List ℕ
erased_ids store [] tx = []
erased_ids store (fact ∷ rest) tx = elim (schema_for_changes store.facts none fact.a [] []) [
  | fail _ ↦ []
  | ok schema ↦ elim (retract_fact store fact tx) [
    | fail _ ↦ []
    | ok next ↦ (if deletes_history schema then fact.id ∷ [] else []) ++ erased_ids next rest tx
  ]
]

abbrev pub without_all : List ℕ → List RawFact → List RawFact
without_all [] facts = facts
without_all (id ∷ ids) facts = without_all ids (without id facts)

without_all-append :
    (ids more : List ℕ) (facts : List RawFact)
    → without_all (ids ++ more) facts ≡ without_all more (without_all ids facts)
without_all-append [] more facts = refl
without_all-append (id ∷ ids) more facts = without_all-append ids more (without id facts)

-- the rows that a statement leaves, and those of the retraction that makes it
pub facts-retract_fact :
    (store : Store) (fact : RawFact) (tx : ℕ) (schema : AttributeSchema) {next : Store}
    → schema_for_changes store.facts none fact.a [] [] ≡ ok schema
    → retract_fact store fact tx ≡ ok next
    → remove_row schema store.facts fact.id tx ≡ ok next.facts
unfolding retract_fact
facts-retract_fact store fact tx schema known h =
    let (schema', known', k) = >>=-eq-ok (schema_for_changes store.facts none fact.a [] []) _ h in
    let (facts, removed, e) = >>=-eq-ok (remove_row schema' store.facts fact.id tx) _ k in
    ap (λ s. remove_row s store.facts fact.id tx) (ok-injective (sym known ∙ known'))
    ∙ removed
    ∙ ap (λ (s : Store). ok s.facts) (ok-injective e)

view_at-remove_row :
    (t tx id : ℕ) (facts : List RawFact) (schema : AttributeSchema) {result : List RawFact}
    → t < tx
    → remove_row schema facts id tx ≡ ok result
    → view_at t result
      ≡ without_all (if deletes_history schema then id ∷ [] else []) (view_at t facts)
unfolding remove_row
view_at-remove_row t tx id facts schema lt h = elim (Bool-cases (deletes_history schema)) [
  | inl drops ↦ ground (arith, drops, h, view_at-delete_row t id facts)
  | inr keeps ↦
      let e = close_row-eq facts id tx (ground (arith, keeps, h)) in
      rw keeps (ap (view_at t) (sym e) ∙ view_at-close_at t id tx facts lt)
]

view_at-retract_fact :
    (t tx : ℕ) (store : Store) (fact : RawFact) (schema : AttributeSchema) {next : Store}
    → t < tx
    → schema_for_changes store.facts none fact.a [] [] ≡ ok schema
    → retract_fact store fact tx ≡ ok next
    → view_at t next.facts
      ≡ without_all (if deletes_history schema then fact.id ∷ [] else []) (view_at t store.facts)
view_at-retract_fact t tx store fact schema lt known h =
    view_at-remove_row t tx fact.id store.facts schema lt
      (facts-retract_fact store fact tx schema known h)

erased_ids-cons :
    (tx : ℕ) (store : Store) (fact : RawFact) (rest : List RawFact) (schema : AttributeSchema)
    (next : Store)
    → schema_for_changes store.facts none fact.a [] [] ≡ ok schema
    → retract_fact store fact tx ≡ ok next
    → erased_ids store (fact ∷ rest) tx
      ≡ (if deletes_history schema then fact.id ∷ [] else []) ++ erased_ids next rest tx
unfolding erased_ids
erased_ids-cons tx store fact rest schema next known first = ground arith

pub schema_of_retract :
    (store : Store) (fact : RawFact) (tx : ℕ) {next : Store}
    → retract_fact store fact tx ≡ ok next
    → (schema : AttributeSchema) × (schema_for_changes store.facts none fact.a [] [] ≡ ok schema)
unfolding retract_fact
schema_of_retract store fact tx h =
    let (schema, known, _) = >>=-eq-ok (schema_for_changes store.facts none fact.a [] []) _ h in
    (schema, known)

pub view_at-retract_facts :
    (t tx : ℕ) (store : Store) (retracted : List RawFact) {result : Store}
    → t < tx
    → retract_facts store retracted tx ≡ ok result
    → view_at t result.facts ≡ without_all (erased_ids store retracted tx) (view_at t store.facts)
unfolding retract_facts erased_ids
view_at-retract_facts t tx store [] lt h = ground arith
view_at-retract_facts t tx store (fact ∷ rest) {result} lt h =
    let (next, first, k) = >>=-eq-ok (retract_fact store fact tx) _ h in
    let (schema, known) = schema_of_retract store fact tx first in
    let gone : List ℕ = if deletes_history schema then fact.id ∷ [] else [] in
    view_at-retract_facts t tx next rest lt k
    ∙ ap (without_all (erased_ids next rest tx))
        (view_at-retract_fact t tx store fact schema lt known first)
    ∙ sym (without_all-append gone (erased_ids next rest tx) (view_at t store.facts))
    ∙ ap (λ ids. without_all ids (view_at t store.facts))
        (sym (erased_ids-cons tx store fact rest schema next known first))

facts-delete_orphan :
    (store : Store) (hash : List ℕ) → (delete_orphan store hash).facts ≡ store.facts
unfolding delete_orphan
facts-delete_orphan store hash = ground arith

pub facts-collect_garbage :
    (store : Store) (hashes : List (List ℕ)) → (collect_garbage store hashes).facts ≡ store.facts
unfolding collect_garbage
facts-collect_garbage store [] = refl
facts-collect_garbage store (hash ∷ rest) =
    facts-collect_garbage (delete_orphan store hash) rest ∙ facts-delete_orphan store hash

-- The steps of a write that was accepted.
pub write_delta_steps :
    (validate : Store → Result (Unit {0})) (store : Store) (asserted : List PlannedFact)
    (retracted : List RawFact) (tx : ℕ) {result : Store}
    → write_delta validate store asserted retracted tx ≡ ok result
    → (inserted : Store × List ℕ) × (closed : Store) × (insert_facts store asserted tx
        ≡ ok inserted)
      × (retract_facts inserted.0 retracted tx ≡ ok closed)
      × (result ≡ collect_garbage closed (garbage_candidates retracted))
unfolding write_delta
write_delta_steps validate store asserted retracted tx h =
    let (inserted, first, k) = >>=-eq-ok (insert_facts store asserted tx) _ h in
    let (closed, second, l) = >>=-eq-ok (retract_facts inserted.0 retracted tx) _ k in
    let (_, _, e) = >>=-eq-ok (validate closed) _ l in (inserted, closed, first, second, cc)

-- An accepted write at a later transaction changes no view of an earlier one, but for the rows whose
-- attribute drops history when they are retracted: exactly those leave the view.
pub view_at-write_delta :
    (validate : Store → Result (Unit {0})) (store : Store) (asserted : List PlannedFact)
    (retracted : List RawFact) (tx t : ℕ) {result : Store}
    → t < tx
    → write_delta validate store asserted retracted tx ≡ ok result
    → (inserted : Store × List ℕ) × (insert_facts store asserted tx ≡ ok inserted)
      × (view_at t result.facts
          ≡ without_all (erased_ids inserted.0 retracted tx) (view_at t store.facts))
view_at-write_delta validate store asserted retracted tx t lt h =
    let (inserted, closed, first, second, e) =
      write_delta_steps validate store asserted retracted tx h in
    (
      inserted,
      first,
      ap (λ (s : Store). view_at t s.facts) e
          ∙ ap (view_at t) (facts-collect_garbage closed (garbage_candidates retracted))
          ∙ view_at-retract_facts t tx inserted.0 retracted lt second
          ∙ ap (without_all (erased_ids inserted.0 retracted tx))
              (view_at-insert_facts t tx store asserted lt first),
    )
