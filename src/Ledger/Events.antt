-- ===== src/Ledger/Events.antt =====
-- The events, which only the last statement of `transactOn` changes.

use fgraph.Base.{ℕ, ◌≡◌, refl, sym, ap, ◌∙◌, List, [], ◌∷◌, ◌++◌, arith, Result, ok, >>=-eq-ok}
use fgraph.Fact.{RawFact}
use fgraph.Plan.{PlannedFact}
use fgraph.Diff.Run.{ok-injective}
use fgraph.Identity.{Allocator}
use fgraph.Store.{
  Store, EventRow, insert_fact, insert_facts, retract_fact, retract_facts, delete_orphan,
  collect_garbage, garbage_candidates, write_delta,
}
use fgraph.Store.History.{write_delta_steps}
use fgraph.Ledger.Finalize.{flush}
use fgraph.Ledger.Transact.{record_event}

events-insert_fact :
    (store : Store) (fact : PlannedFact) (tx : ℕ) {result : Store × ℕ}
    → insert_fact store fact tx ≡ ok result
    → result.0.events ≡ store.events
unfolding insert_fact
events-insert_fact store fact tx h = ground arith

pub events-insert_facts :
    (store : Store) (asserted : List PlannedFact) (tx : ℕ) {result : Store × List ℕ}
    → insert_facts store asserted tx ≡ ok result
    → result.0.events ≡ store.events
unfolding insert_facts
events-insert_facts store [] tx h = ap (λ (r : Store × List ℕ). r.0.events) (sym (ok-injective h))
events-insert_facts store (fact ∷ rest) tx h =
    let (one, first, k) = >>=-eq-ok (insert_fact store fact tx) _ h in
    let (others, next, e) = >>=-eq-ok (insert_facts one.0 rest tx) _ k in
    ap (λ (r : Store × List ℕ). r.0.events) (sym (ok-injective e))
    ∙ events-insert_facts one.0 rest tx next
    ∙ events-insert_fact store fact tx first

events-retract_fact :
    (store : Store) (fact : RawFact) (tx : ℕ) {next : Store}
    → retract_fact store fact tx ≡ ok next
    → next.events ≡ store.events
unfolding retract_fact
events-retract_fact store fact tx h = ground arith

pub events-retract_facts :
    (store : Store) (retracted : List RawFact) (tx : ℕ) {result : Store}
    → retract_facts store retracted tx ≡ ok result
    → result.events ≡ store.events
unfolding retract_facts
events-retract_facts store [] tx h = ap (λ (s : Store). s.events) (sym (ok-injective h))
events-retract_facts store (fact ∷ rest) tx h =
    let (next, first, k) = >>=-eq-ok (retract_fact store fact tx) _ h in
    events-retract_facts next rest tx k ∙ events-retract_fact store fact tx first

events-collect_garbage :
    (store : Store) (hashes : List (List ℕ)) → (collect_garbage store hashes).events ≡ store.events
unfolding collect_garbage delete_orphan
events-collect_garbage store [] = refl
events-collect_garbage store (hash ∷ rest) =
    ground (arith, events-collect_garbage (delete_orphan store hash) rest)

pub events-write_delta :
    (validate : Store → Result (Unit {0})) (store : Store) (asserted : List PlannedFact)
    (retracted : List RawFact) (tx : ℕ) {result : Store}
    → write_delta validate store asserted retracted tx ≡ ok result
    → result.events ≡ store.events
events-write_delta validate store asserted retracted tx h =
    let (inserted, closed, first, second, e) =
      write_delta_steps validate store asserted retracted tx h in
    ap (λ (s : Store). s.events) e
    ∙ events-collect_garbage closed (garbage_candidates retracted)
    ∙ events-retract_facts inserted.0 retracted tx second
    ∙ events-insert_facts store asserted tx first

pub events-flush : (store : Store) (alloc : Allocator) → (flush store alloc).events ≡ store.events
unfolding flush
events-flush store alloc = ground arith

pub events-record_event :
    (store : Store) (row : EventRow) {next : Store}
    → record_event store row ≡ ok next
    → next.events ≡ store.events ++ row ∷ []
unfolding record_event
events-record_event store row h = ground arith

pub facts-flush : (store : Store) (alloc : Allocator) → (flush store alloc).facts ≡ store.facts
unfolding flush
facts-flush store alloc = ground arith

pub facts-record_event :
    (store : Store) (row : EventRow) {next : Store}
    → record_event store row ≡ ok next
    → next.facts ≡ store.facts
unfolding record_event
facts-record_event store row h = ground arith
