-- ===== src/Ledger/Retry.antt =====
-- What a call of `transactOn` leaves for the next one.
use Prim.Native.String.{String}
use text.Mathlib.TextEquality.{eq_iff}
use fgraph.Base.{
  ℕ, ◌<◌, ◌≡◌, refl, sym, ap, ◌∙◌, true, false, List, [], ◌∷◌, ◌++◌, Option, none, some, arith,
  keep, if◌then◌else◌, Result, ok, fail, conflict, ◌>>=◌, reject_if,
}
use mathlib.Core.List.{append-nil}
use fgraph.Value.{bytes_eq}
use fgraph.Value.Equality.{bytes_eq_refl}
use fgraph.Fact.{is_live}
use fgraph.Store.{Store, EventRow}
use fgraph.Store.Live.{new_rows, unretracted, live-write_delta}
use fgraph.Ledger.{Render, applied, TxReport, TxOptions, Environment}
use fgraph.Ledger.Receipt.{
  max_tx, basis_on, find_operation, replay, event_receipt, operation_receipt, prior_receipt,
}
use fgraph.Ledger.Transact.{is_stale, plan_and_write, after_receipt, transact_on}
use fgraph.Ledger.Outcome.{
  event_row, Outcome, replayed, unchanged, written, replay-none, transact_on-Outcome,
}

-- the operation of a new row is found under it, where the earlier rows do not have it
find_operation-append :
    (events : List EventRow) (tx : ℕ) (digest hash : List ℕ) (id : String)
    → find_operation events id ≡ none
    → find_operation (events ++ event_row tx digest (some (id, hash)) ∷ []) id ≡ some (tx, hash)
unfolding find_operation
find_operation-append [] tx digest hash id h = ground (arith, eq_iff id id)
find_operation-append (event ∷ events) tx digest hash id h =
    ground (arith, find_operation-append events tx digest hash id)

find_operation-replay :
    (render : Render) (store : Store) (id : String) (hash : List ℕ)
    → prior_receipt render store (some (id, hash)) ≡ ok none
    → find_operation store.events id ≡ none
unfolding prior_receipt operation_receipt
find_operation-replay render store id hash h =
    replay-none render store hash (find_operation store.events id) h

-- the operation that a written event leaves
found-written :
    (env : Environment) (config : TxOptions) (store next : Store) (report : TxReport) (id : String)
    (hash : List ℕ)
    → config.operation ≡ some (id, hash)
    → Outcome env config store next report
    → report.status ≡ applied
    → find_operation next.events id ≡ some (report.tx, hash)
found-written env config store next report id hash o (written p w) s =
    ap (λ es. find_operation es id)
      (w.events ∙ ap (λ op. store.events ++ event_row report.tx w.event_hash op ∷ []) o)
    ∙ find_operation-append store.events report.tx w.event_hash hash id (
        find_operation-replay env.render_raw store id hash
          (ap (prior_receipt env.render_raw store) (sym o) ∙ p))
found-written env config store next report id hash o (replayed e r _ _) s = cc
found-written env config store next report id hash o (unchanged _ _ r _ _) s = cc

replay-same :
    (render : Render) (store : Store) (hash : List ℕ) (tx : ℕ)
    → replay render store hash (some (tx, hash))
      ≡ (event_receipt render store tx >>= λ receipt. ok (some receipt))
unfolding replay
replay-same render store hash tx =
    ap
      (λ b.
        if b
        then (event_receipt render store tx >>= λ receipt. ok (some receipt))
        else fail conflict)
      (bytes_eq_refl hash)

replay-other :
    (render : Render) (store : Store) (hash other : List ℕ) (tx : ℕ)
    → bytes_eq hash other ≡ false
    → replay render store other (some (tx, hash)) ≡ fail conflict
unfolding replay
replay-other render store hash other tx d =
    ap
      (λ b.
        if b
        then (event_receipt render store tx >>= λ receipt. ok (some receipt))
        else fail conflict)
      d

-- the prior receipt of a call whose operation was written
prior_receipt-found :
    (render : Render) (store : Store) (operation : Option (String × List ℕ)) (id : String)
    (hash : List ℕ) (found : ℕ × List ℕ)
    → operation ≡ some (id, hash)
    → find_operation store.events id ≡ some found
    → prior_receipt render store operation ≡ replay render store hash (some found)
unfolding prior_receipt operation_receipt
prior_receipt-found render store operation id hash found o f =
    ap (prior_receipt render store) o ∙ ap (replay render store hash) f

after_receipt-receipt :
    (env : Environment) (config : TxOptions) (store : Store) (receipt : Result TxReport)
    → (receipt >>= λ r. ok (some r)) >>= after_receipt env config store
      ≡ (receipt >>= λ r. ok (store, r))
unfolding after_receipt
after_receipt-receipt env config store (ok r) = refl
after_receipt-receipt env config store (fail e) = refl

-- A call was applied under an operation id. A later call on the tables that it left, under that id
-- and the same digest of the request, whatever its data and its other options, writes nothing: it
-- answers with the receipt of the first call's event, or with the failure to read that receipt.
pub transact_on-retry :
    (env : Environment) (config : TxOptions) (store : Store) {next : Store} {report : TxReport}
    → transact_on env config store ≡ ok (next, report)
    → report.status ≡ applied
    → (id : String) (hash : List ℕ) → config.operation ≡ some (id, hash)
    → (later : Environment) (again : TxOptions) → again.operation ≡ some (id, hash)
    → transact_on later again next
      ≡ (event_receipt later.render_raw next report.tx >>= λ receipt. ok (next, receipt))
unfolding transact_on
transact_on-retry env config store {next} {report} h s id hash o later again a =
    let out = transact_on-Outcome env config store h in
    let f = found-written env config store next report id hash o out s in
    ap (λ m. m >>= after_receipt later again next)
      (prior_receipt-found later.render_raw next again.operation id hash (report.tx, hash) a f
        ∙ replay-same later.render_raw next hash report.tx)
    ∙ after_receipt-receipt later again next (event_receipt later.render_raw next report.tx)

-- A call was applied under an operation id. A later call on the tables that it left, under that id
-- and another digest of the request, is refused as a conflict.
pub transact_on-reuse :
    (env : Environment) (config : TxOptions) (store : Store) {next : Store} {report : TxReport}
    → transact_on env config store ≡ ok (next, report)
    → report.status ≡ applied
    → (id : String) (hash other : List ℕ) → config.operation ≡ some (id, hash)
    → bytes_eq hash other ≡ false
    → (later : Environment) (again : TxOptions) → again.operation ≡ some (id, other)
    → transact_on later again next ≡ fail conflict
unfolding transact_on
transact_on-reuse env config store {next} {report} h s id hash other o d later again a =
    let out = transact_on-Outcome env config store h in
    let f = found-written env config store next report id hash o out s in
    ap (λ m. m >>= after_receipt later again next)
      (prior_receipt-found later.render_raw next again.operation id other (report.tx, hash) a f
        ∙ replay-other later.render_raw next hash other report.tx d)

max_tx-append :
    (events : List EventRow) (row : EventRow)
    → max_tx events < row.tx
    → max_tx (events ++ row ∷ []) ≡ row.tx
unfolding max_tx
max_tx-append [] row h = ground arith
max_tx-append (event ∷ events) row h = ground (arith, max_tx-append events row)

-- the basis that a written event leaves
basis_on-written :
    (env : Environment) (config : TxOptions) (store next : Store) (report : TxReport)
    → Outcome env config store next report
    → report.status ≡ applied
    → basis_on store < report.tx
    → basis_on next ≡ report.tx
unfolding basis_on
basis_on-written env config store next report (written p w) s b =
    ap max_tx w.events
    ∙ max_tx-append store.events (event_row report.tx w.event_hash config.operation) b
basis_on-written env config store next report (replayed e r _ _) s b = cc
basis_on-written env config store next report (unchanged _ _ r _ _) s b = cc

is_stale-lt : (wanted basis : ℕ) → wanted < basis → is_stale (some wanted) basis ≡ true
unfolding is_stale
is_stale-lt wanted basis h = ground arith

-- Two calls were made for the same basis, and the first was applied under a transaction after that
-- basis: the second, on the tables that the first left, is refused as a conflict, where it names no
-- operation.
pub transact_on-stale :
    (env : Environment) (config : TxOptions) (store : Store) {next : Store} {report : TxReport}
    → transact_on env config store ≡ ok (next, report)
    → report.status ≡ applied
    → basis_on store < report.tx
    → (later : Environment) (second : TxOptions) → second.operation ≡ none
    → second.if_basis_tx ≡ some (basis_on store)
    → transact_on later second next ≡ fail conflict
unfolding transact_on prior_receipt after_receipt
transact_on-stale env config store {next} {report} h s b later second o i =
    let out = transact_on-Outcome env config store h in
    ap (λ op. prior_receipt later.render_raw next op >>= after_receipt later second next) o
    ∙ ap (λ stale. reject_if stale conflict >>= λ _. plan_and_write later second next)
        (ap (λ wanted. is_stale wanted (basis_on next)) i
          ∙ ap (is_stale (some (basis_on store)))
              (basis_on-written env config store next report out s b)
          ∙ is_stale-lt (basis_on store) report.tx b)

-- the live facts where nothing is written
live-unchanged :
    (store next : Store) (report : TxReport)
    → next.facts ≡ store.facts
    → report.asserted ≡ []
    → report.retracted ≡ []
    → keep is_live next.facts
      ≡ unretracted report.retracted
          (keep is_live store.facts ++ new_rows report.asserted store.next_row report.tx)
live-unchanged store next report f a r =
    ap (keep is_live) f
    ∙ sym (
        ap
          (λ rs.
            unretracted rs
              (keep is_live store.facts ++ new_rows report.asserted store.next_row report.tx))
          r
        ∙ ap (λ fs. keep is_live store.facts ++ new_rows fs store.next_row report.tx) a
        ∙ append-nil (keep is_live store.facts))

Outcome-live :
    (env : Environment) (config : TxOptions) (store next : Store) (report : TxReport)
    → Outcome env config store next report
    → keep is_live next.facts
      ≡ unretracted report.retracted
          (keep is_live store.facts ++ new_rows report.asserted store.next_row report.tx)
Outcome-live env config store next report (replayed e _ a r) =
    live-unchanged store next report (ap (λ (s : Store). s.facts) e) a r
Outcome-live env config store next report (unchanged f _ _ a r) =
    live-unchanged store next report f a r
Outcome-live env config store next report (written p w) =
    ap (keep is_live) w.facts
    ∙ live-write_delta env.validate_shapes (record store { identities = w.identities })
        report.asserted report.retracted report.tx w.delta

-- A call that returns leaves as live facts those that were live and those that it reports as
-- asserted, under new row ids, less the rows of the ids that it reports as retracted. Where it
-- reports an earlier event or nothing to write, both lists are empty.
pub transact_on-live :
    (env : Environment) (config : TxOptions) (store : Store) {next : Store} {report : TxReport}
    → transact_on env config store ≡ ok (next, report)
    → keep is_live next.facts
      ≡ unretracted report.retracted
          (keep is_live store.facts ++ new_rows report.asserted store.next_row report.tx)
transact_on-live env config store {next} {report} h =
    Outcome-live env config store next report (transact_on-Outcome env config store h)
