-- ===== src/Ledger/Transact.antt =====
-- `transactOn` (go/transact.go), in the steps that it takes after the receipt of an operation.
use Prim.Native.String.{String}
use text.Mathlib.Text.{◌==◌ as str_eq}
use fgraph.Base.{
  ℕ, Bool, true, false, not, ◌&&◌, ◌||◌, List, [], ◌∷◌, ◌++◌, map, Option, none, some, ◌==◌,
  if◌then◌else◌, any, keep, Result, ok, fail, conflict, ◌>>=◌, reject_if,
}
use fgraph.Value.{ℤ, int64, Tag, bytes_eq, StoredValue, column_value}
use fgraph.Fact.{RawFact}
use fgraph.Identity.{Allocator, IdentityKind, new_allocator, allocate}
use fgraph.Plan.{PlannedFact, validate_cas_isolation}
use fgraph.Diff.{diff_plan}
use fgraph.Store.{Store, EventRow, write_delta}
use fgraph.Compaction.{Compacted, compact_pending_allocations}
use fgraph.Ledger.{noop, applied, TxReport, TxOptions, Environment}
use fgraph.Temporal.{next_timestamp}
use fgraph.Ledger.Receipt.{basis_on, prior_receipt}
use fgraph.Ledger.Finalize.{finalize, flush}

-- `config.ifBasisTx != nil && *config.ifBasisTx != basis`
unfoldable pub is_stale : Option ℕ → ℕ → Bool
is_stale none basis = false
is_stale (some wanted) basis = not (wanted == basis)

abbrev pub is_set {ℓ} : {A : Type ℓ} → Option A → Bool
is_set none = false
is_set (some _) = true

abbrev pub is_empty {ℓ} : {A : Type ℓ} → List A → Bool
is_empty [] = true
is_empty (_ ∷ _) = false

-- `hasMetadata`
unfoldable pub has_metadata : TxOptions → List PlannedFact → Bool
has_metadata config tx_facts =
    is_set config.by
    || is_set config.source
    || is_set config.meta
    || not (is_empty tx_facts)
    || is_set config.operation

abbrev pub metadata_fact : ℕ → ℕ → StoredValue → PlannedFact
metadata_fact tx a value = record {
  attr = "";
  value = value;
  e = tx;
  a = a;
  order = 0;
  tx_target = false;
  cas = false;
}

abbrev pub optional_fact : ℕ → ℕ → Option StoredValue → List PlannedFact
optional_fact tx a none = []
optional_fact tx a (some value) = metadata_fact tx a value ∷ []

-- `metadata`: the time, and what the options give
unfoldable pub metadata_facts : TxOptions → ℕ → ℤ → List PlannedFact
unfolding column_value
metadata_facts config tx at =
    metadata_fact tx 1 (column_value (int64 at) Tag.instant)
    ∷ (optional_fact tx 2 config.by
        ++ optional_fact tx 3 config.source
        ++ optional_fact tx 4 config.meta)

-- `assertions[index].e = tx` where it is a fact of the transaction
unfoldable pub aim_at : ℕ → PlannedFact → PlannedFact
aim_at tx fact = if fact.tx_target then record fact { e = tx } else fact

-- `reportIDs`: a temporary id goes before a name that is spelled the same
unfoldable pub report_ids : (String → Bool) → Allocator → List (String × ℕ) → List (String × ℕ)
report_ids is_attribute alloc tempids =
    tempids
    ++ keep
        (λ entry. not (is_attribute entry.0) && not (any (λ known. str_eq known.0 entry.0) tempids))
        alloc.ids

-- the digest of the event, which an imported event must reproduce
unfoldable pub check_digest : Option (List ℕ) → List ℕ → Result (List ℕ)
unfolding bytes_eq
check_digest none digest = ok digest
check_digest (some wanted) digest = if bytes_eq digest wanted then ok wanted else fail conflict

-- the PRIMARY KEY and the UNIQUE operation of fgraph_events
unfoldable pub is_recorded : List EventRow → EventRow → Bool
is_recorded events row =
    any
      (λ known. known.tx == row.tx || elim known.operation [
        | none ↦ false
        | some (old, _) ↦ elim row.operation [ none ↦ false | some (new, _) ↦ str_eq old new ]
      ])
      events

-- `INSERT INTO fgraph_events`
unfoldable pub record_event : Store → EventRow → Result Store
unfolding is_recorded
record_event store row =
    if is_recorded store.events row
    then fail conflict
    else ok (record store { events = store.events ++ row ∷ [] })

-- the report of an event
abbrev pub applied_report :
    Environment
    → ℕ
    → Compacted
    → List RawFact
    → Allocator
    → ℕ
    → ℤ
    → List ℕ
    → List PlannedFact
    → TxReport
applied_report env basis compacted retractions alloc tx at event asserted = record {
  status = applied;
  tx = tx;
  at = some at;
  event_id = event;
  basis_tx = basis;
  ids = report_ids env.is_attribute alloc compacted.tempids;
  asserted = asserted;
  retracted = retractions;
}

-- the writes of `transactOn`, for identities that are finalized
unfoldable pub write_rows :
    Environment → TxOptions → Store → Allocator → TxReport → Result (Store × TxReport)
unfolding write_delta flush check_digest record_event
write_rows env config store alloc report = do
  changed ← write_delta env.validate_shapes store report.asserted report.retracted report.tx
  digest ← env.event_digest (flush changed alloc) report.tx
  event_hash ← check_digest config.event_hash digest
  recorded ←
      record_event (flush changed alloc)
        (record { tx = report.tx; event_hash = event_hash; operation = config.operation })
  ok (recorded, report)

-- the part of `transactOn` from the allocation of the transaction to the event's row
unfoldable pub write_event :
    Environment → TxOptions → Store → ℕ → Compacted → List RawFact → Result (Store × TxReport)
unfolding allocate aim_at metadata_facts finalize write_rows report_ids next_timestamp
write_event env config store basis compacted retractions = do
  (alloc, tx) ← allocate compacted.allocator IdentityKind.event ""
  at ← next_timestamp store.facts env.clock config.at
  event ← env.event_uuid tx
  identities ← finalize env.anonymous_uuid alloc.gids tx event 0 alloc.pending compacted.identities
  write_rows env config (record store { identities = identities }) alloc
      (applied_report env basis compacted retractions alloc tx at event
        (metadata_facts config tx at ++ map (aim_at tx) compacted.assertions))

unfoldable pub noop_report : (String → Bool) → ℕ → Compacted → TxReport
unfolding report_ids
noop_report is_attribute basis compacted = record {
  status = noop;
  tx = 0;
  at = none;
  event_id = [];
  basis_tx = basis;
  ids = report_ids is_attribute compacted.allocator compacted.tempids;
  asserted = [];
  retracted = [];
}

-- nothing to write: no change, no metadata, no identity, and no `force`
unfoldable pub is_noop : TxOptions → Compacted → List RawFact → Bool
unfolding has_metadata
is_noop config compacted retractions =
    is_empty compacted.assertions
    && is_empty retractions
    && not config.force
    && not (has_metadata config compacted.tx_facts)
    && is_empty compacted.allocator.pending

-- `transactOn` after the plan is compared with the facts
unfoldable pub finish :
    Environment → TxOptions → Store → Compacted → List RawFact → Result (Store × TxReport)
unfolding is_noop flush noop_report basis_on write_event
finish env config store compacted retractions =
    if is_noop config compacted retractions
    then ok (
      flush (record store { identities = compacted.identities }) compacted.allocator,
      noop_report env.is_attribute (basis_on store) compacted,
    )
    else write_event env config store (basis_on store) compacted retractions

-- `transactOn` after the receipt and the basis
unfoldable pub plan_and_write : Environment → TxOptions → Store → Result (Store × TxReport)
unfolding new_allocator validate_cas_isolation diff_plan compact_pending_allocations finish
plan_and_write env config store = do
  alloc ← new_allocator store.next_id
  (plan, tx_facts) ← env.plan_data store alloc
  _ ← validate_cas_isolation plan
  (assertions, retractions) ← diff_plan store.facts plan
  finish env config store (compact_pending_allocations store.identities plan assertions tx_facts)
      retractions

-- `transactOn` after the receipt, where there is one
unfoldable pub after_receipt :
    Environment → TxOptions → Store → Option TxReport → Result (Store × TxReport)
unfolding is_stale basis_on plan_and_write
after_receipt env config store (some report) = ok (store, report)
after_receipt env config store none =
    reject_if (is_stale config.if_basis_tx (basis_on store)) conflict >>= λ _.
    plan_and_write env config store

-- `transactOn`: the tables and the report
unfoldable pub transact_on : Environment → TxOptions → Store → Result (Store × TxReport)
unfolding prior_receipt after_receipt
transact_on env config store =
    prior_receipt env.render_raw store config.operation >>= after_receipt env config store
