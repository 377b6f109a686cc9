-- ===== src/Ledger/Outcome.antt =====
-- What a call of `transactOn` that returns did.
use Prim.Native.String.{String}
use fgraph.Base.{
  ℕ, ◌≡◌, ◌≢◌, ◌⊎◌, inl, inr, refl, sym, ap, subst, ◌∙◌, Bool, true, false, List, [], ◌∷◌, ◌++◌,
  map, Option, none, some, if◌then◌else◌, Kind, ok, fail, conflict, >>=-eq-ok, reject_if,
}
use fgraph.Value.{bytes_eq}
use fgraph.Fact.{RawFact}
use fgraph.Plan.{validate_cas_isolation}
use fgraph.Diff.{diff_plan}
use fgraph.Diff.Run.{ok-injective}
use fgraph.Identity.{Allocator, IdentityKind, new_allocator, allocate}
use fgraph.Store.{Store, EventRow, IdentityRow, write_delta}
use fgraph.Compaction.{Compacted, compact_pending_allocations}
use fgraph.Ledger.{Render, noop, applied, already_applied, TxReport, TxOptions, Environment}
use fgraph.Temporal.{next_timestamp}
use fgraph.Ledger.Receipt.{
  required, basis_on, find_operation, replay, timestamp_of, event_gid, event_receipt, asserted_rows,
  retracted_rows, render_rows, operation_receipt, prior_receipt,
}
use fgraph.Ledger.Finalize.{finalize, flush}
use fgraph.Ledger.Transact.{
  is_stale, check_digest, record_event, write_rows, applied_report, write_event, finish, is_noop,
  noop_report, plan_and_write, after_receipt, transact_on, aim_at, metadata_facts,
}
use fgraph.Ledger.Events.{
  events-write_delta, events-flush, events-record_event, facts-flush, facts-record_event,
}

none-ne-some {ℓ} : {A : Type ℓ} {a : A} → none ≢ some a
none-ne-some e = cc

some-injective {ℓ} : {A : Type ℓ} {a b : A} → some a ≡ some b → a ≡ b
some-injective e = cc

fail-ne-ok {ℓ} : {A : Type ℓ} {kind : Kind} {a : A} → fail kind ≢ ok a
fail-ne-ok e = cc

if-cases {ℓ} : {A : Type ℓ} (b : Bool) {x y r : A} → (if b then x else y) ≡ r → (x ≡ r) ⊎ (y ≡ r)
if-cases true h = inl h
if-cases false h = inr h

abbrev pub event_row : ℕ → List ℕ → Option (String × List ℕ) → EventRow
event_row tx event_hash operation = record {
  tx = tx;
  event_hash = event_hash;
  operation = operation;
}

-- The call wrote one event, with the facts of its report.
pub record HasWritten (env : Environment) (config : TxOptions) (store next : Store)
    (report : TxReport) : Type 0 where
  pub event_hash : List ℕ
  pub identities : List IdentityRow
  pub changed : Store
  pub delta :
      write_delta env.validate_shapes
        (record store { identities = identities })
        report.asserted
        report.retracted
        report.tx
      ≡ ok changed
  pub facts : next.facts ≡ changed.facts
  pub events : next.events ≡ store.events ++ event_row report.tx event_hash config.operation ∷ []
  pub status : report.status ≡ applied

write_rows-HasWritten :
    (env : Environment) (config : TxOptions) (store : Store) (identities : List IdentityRow)
    (alloc : Allocator) (report : TxReport)
    → report.status ≡ applied
    → {result : Store × TxReport}
    → write_rows env config (record store { identities = identities }) alloc report ≡ ok result
    → HasWritten env config store result.0 result.1
unfolding write_rows
write_rows-HasWritten env config store identities alloc report status h =
    let base : Store = record store { identities = identities } in
    let (changed, w, h1) =
      >>=-eq-ok (write_delta env.validate_shapes base report.asserted report.retracted report.tx) _
        h in
    let (digest, _, h2) = >>=-eq-ok (env.event_digest (flush changed alloc) report.tx) _ h1 in
    let (hash, _, h3) = >>=-eq-ok (check_digest config.event_hash digest) _ h2 in
    let row = event_row report.tx hash config.operation in
    let (recorded, r, e) = >>=-eq-ok (record_event (flush changed alloc) row) _ h3 in
    subst (λ (x : Store × TxReport). HasWritten env config store x.0 x.1) (ok-injective e)
      (record {
        event_hash = hash;
        identities = identities;
        changed = changed;
        delta = w;
        facts = facts-record_event (flush changed alloc) row r ∙ facts-flush changed alloc;
        events =
            events-record_event (flush changed alloc) row r
            ∙ ap (λ es. es ++ row ∷ [])
                (events-flush changed alloc
                  ∙ events-write_delta env.validate_shapes base report.asserted report.retracted
                      report.tx w);
        status = status;
      })

write_event-HasWritten :
    (env : Environment) (config : TxOptions) (store : Store) (basis : ℕ) (compacted : Compacted)
    (retractions : List RawFact) {result : Store × TxReport}
    → write_event env config store basis compacted retractions ≡ ok result
    → HasWritten env config store result.0 result.1
unfolding write_event
write_event-HasWritten env config store basis compacted retractions h =
    let ((alloc, tx), _, h1) = >>=-eq-ok (allocate compacted.allocator IdentityKind.event "") _ h in
    let (at, _, h2) = >>=-eq-ok (next_timestamp store.facts env.clock config.at) _ h1 in
    let (event, _, h3) = >>=-eq-ok (env.event_uuid tx) _ h2 in
    let (identities, _, h4) =
      >>=-eq-ok
        (finalize env.anonymous_uuid alloc.gids tx event 0 alloc.pending compacted.identities) _
        h3 in
    write_rows-HasWritten env config store identities alloc
      (applied_report env basis compacted retractions alloc tx at event
        (metadata_facts config tx at ++ map (aim_at tx) compacted.assertions))
      refl h4

-- What a call does that returns: it gives a receipt and writes nothing, or it has nothing to write,
-- or it writes one event.
pub data Outcome (env : Environment) (config : TxOptions) (store next : Store) (report : TxReport)
    : Type 0 where
  replayed :
      next ≡ store
      → report.status ≡ already_applied
      → report.asserted ≡ []
      → report.retracted ≡ []
      → Outcome env config store next report
  unchanged :
      next.facts ≡ store.facts
      → next.events ≡ store.events
      → report.status ≡ noop
      → report.asserted ≡ []
      → report.retracted ≡ []
      → Outcome env config store next report
  written :
      prior_receipt env.render_raw store config.operation ≡ ok none
      → HasWritten env config store next report
      → Outcome env config store next report

finish-Outcome :
    (env : Environment) (config : TxOptions) (store : Store) (compacted : Compacted)
    (retractions : List RawFact) {result : Store × TxReport}
    → prior_receipt env.render_raw store config.operation ≡ ok none
    → finish env config store compacted retractions ≡ ok result
    → Outcome env config store result.0 result.1
unfolding finish noop_report
finish-Outcome env config store compacted retractions p h =
    elim (if-cases (is_noop config compacted retractions) h) [
      | inl k ↦
          let base : Store = record store { identities = compacted.identities } in
          subst (λ (x : Store × TxReport). Outcome env config store x.0 x.1) (ok-injective k)
            (unchanged (facts-flush base compacted.allocator)
              (events-flush base compacted.allocator) refl refl refl)
      | inr k ↦
          written p
            (write_event-HasWritten env config store (basis_on store) compacted retractions k)
    ]

plan_and_write-Outcome :
    (env : Environment) (config : TxOptions) (store : Store) {result : Store × TxReport}
    → prior_receipt env.render_raw store config.operation ≡ ok none
    → plan_and_write env config store ≡ ok result
    → Outcome env config store result.0 result.1
unfolding plan_and_write
plan_and_write-Outcome env config store p h =
    let (alloc, _, h1) = >>=-eq-ok (new_allocator store.next_id) _ h in
    let ((plan, tx_facts), _, h2) = >>=-eq-ok (env.plan_data store alloc) _ h1 in
    let (_, _, h3) = >>=-eq-ok (validate_cas_isolation plan) _ h2 in
    let ((assertions, retractions), _, h4) = >>=-eq-ok (diff_plan store.facts plan) _ h3 in
    finish-Outcome env config store
      (compact_pending_allocations store.identities plan assertions tx_facts) retractions p h4

-- a report that tells of an earlier event
abbrev IsReplay : TxReport → Type 0
IsReplay report =
    (report.status ≡ already_applied) × (report.asserted ≡ []) × (report.retracted ≡ [])

event_receipt-IsReplay :
    (render : Render) (store : Store) (tx : ℕ) {report : TxReport}
    → event_receipt render store tx ≡ ok report
    → IsReplay report
unfolding event_receipt
event_receipt-IsReplay render store tx h =
    let (at, _, k) = >>=-eq-ok (required (timestamp_of store.facts tx)) _ h in
    let (gid, _, l) = >>=-eq-ok (required (event_gid store.identities tx)) _ k in
    let (_, _, m) = >>=-eq-ok (render_rows render store none (asserted_rows store.facts tx)) _ l in
    let (_, _, e) =
      >>=-eq-ok (render_rows render store (some tx) (retracted_rows store.facts tx)) _ m in
    subst IsReplay (ok-injective e) (refl, refl, refl)

replay-IsReplay :
    (render : Render) (store : Store) (request_hash : List ℕ) (found : Option (ℕ × List ℕ))
    {report : TxReport}
    → replay render store request_hash found ≡ ok (some report)
    → IsReplay report
unfolding replay
replay-IsReplay render store request_hash none h = absurd (none-ne-some (ok-injective h))
replay-IsReplay render store request_hash (some (tx, stored)) h =
    elim (if-cases (bytes_eq stored request_hash) h) [
      | inl k ↦
          let (report, r, e) = >>=-eq-ok (event_receipt render store tx) _ k in
          subst IsReplay (some-injective (ok-injective e))
            (event_receipt-IsReplay render store tx r)
      | inr k ↦ absurd (fail-ne-ok k)
    ]

pub replay-none :
    (render : Render) (store : Store) (request_hash : List ℕ) (found : Option (ℕ × List ℕ))
    → replay render store request_hash found ≡ ok none
    → found ≡ none
unfolding replay
replay-none render store request_hash none h = refl
replay-none render store request_hash (some (tx, stored)) h =
    elim (if-cases (bytes_eq stored request_hash) h) [
      | inl k ↦
          let (report, _, e) = >>=-eq-ok (event_receipt render store tx) _ k in
          absurd (none-ne-some (sym (ok-injective e)))
      | inr k ↦ absurd (fail-ne-ok k)
    ]

prior_receipt-IsReplay :
    (render : Render) (store : Store) (operation : Option (String × List ℕ)) {report : TxReport}
    → prior_receipt render store operation ≡ ok (some report)
    → IsReplay report
unfolding prior_receipt operation_receipt
prior_receipt-IsReplay render store none h = absurd (none-ne-some (ok-injective h))
prior_receipt-IsReplay render store (some (id, hash)) h =
    replay-IsReplay render store hash (find_operation store.events id) h

after_receipt-Outcome :
    (env : Environment) (config : TxOptions) (store : Store) (prior : Option TxReport)
    {result : Store × TxReport}
    → prior_receipt env.render_raw store config.operation ≡ ok prior
    → after_receipt env config store prior ≡ ok result
    → Outcome env config store result.0 result.1
unfolding after_receipt
after_receipt-Outcome env config store (some report) p h =
    let (status, asserted, retracted) =
      prior_receipt-IsReplay env.render_raw store config.operation p in
    subst (λ (x : Store × TxReport). Outcome env config store x.0 x.1) (ok-injective h)
      (replayed refl status asserted retracted)
after_receipt-Outcome env config store none p h =
    let (_, _, k) =
      >>=-eq-ok (reject_if (is_stale config.if_basis_tx (basis_on store)) conflict) _ h in
    plan_and_write-Outcome env config store p k

pub transact_on-Outcome :
    (env : Environment) (config : TxOptions) (store : Store) {result : Store × TxReport}
    → transact_on env config store ≡ ok result
    → Outcome env config store result.0 result.1
unfolding transact_on
transact_on-Outcome env config store h =
    let (prior, p, k) = >>=-eq-ok (prior_receipt env.render_raw store config.operation) _ h in
    after_receipt-Outcome env config store prior p k
