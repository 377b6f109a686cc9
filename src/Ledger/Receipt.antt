-- ===== src/Ledger/Receipt.antt =====
-- The basis of a database and the receipt of an operation (go/event.go).
use Prim.Native.String.{String}
use text.Mathlib.Text.{◌==◌ as str_eq}
use fgraph.Base.{
  Bool, false, sort_by, ℕ, ◌&&◌, List, [], ◌∷◌, Option, none, some, ◌==◌, ltb, if◌then◌else◌, keep,
  length, Result, ok, fail, conflict, format_error, ◌>>=◌,
}
use fgraph.Value.{ℤ, int64, bytes_eq}
use fgraph.Fact.{RawFact}
use fgraph.Store.{Store, EventRow, IdentityRow}
use fgraph.Ledger.{already_applied, TxReport, Render}

-- `SELECT COALESCE(MAX(tx),0) FROM fgraph_events`
unfoldable pub max_tx : List EventRow → ℕ
max_tx [] = 0
max_tx (event ∷ rest) = let others = max_tx rest in if ltb others event.tx then event.tx else others

-- `basisOn`
unfoldable pub basis_on : Store → ℕ
unfolding max_tx
basis_on store = max_tx store.events

-- `SELECT tx,request_hash FROM fgraph_events WHERE operation_id=?`
unfoldable pub find_operation : List EventRow → String → Option (ℕ × List ℕ)
find_operation [] id = none
find_operation (event ∷ rest) id =
    let later = find_operation rest id in
    elim event.operation [
      | none ↦ later
      | some (known, hash) ↦ if str_eq known id then some (event.tx, hash) else later
    ]

-- `SELECT v FROM fgraph_facts WHERE e=? AND a=1 AND tx=?`, of an integer
unfoldable pub timestamp_of : List RawFact → ℕ → Option ℤ
timestamp_of [] tx = none
timestamp_of (fact ∷ rest) tx =
    let later = timestamp_of rest tx in
    if fact.e == tx && fact.a == 1 && fact.tx == tx
    then elim fact.v [ int64 at ↦ some at | _ ↦ none ]
    else later

-- `SELECT gid FROM fgraph_ids WHERE id=?`, of 16 bytes
unfoldable pub event_gid : List IdentityRow → ℕ → Option (List ℕ)
event_gid [] id = none
event_gid (row ∷ rest) id =
    let later = event_gid rest id in
    if row.id == id then (if length row.gid == 16 then some row.gid else none) else later

-- `SELECT COALESCE(MAX(tx),0) FROM fgraph_events WHERE tx<?`, or the event itself where it is first
unfoldable pub event_basis : Store → ℕ → ℕ
unfolding max_tx
event_basis store tx =
    let basis = max_tx (keep (λ event. ltb event.tx tx) store.events) in
    if basis == 0 then tx else basis

-- a row that must be there
abbrev pub required {ℓ} : {A : Type ℓ} → Option A → Result A
required none = fail format_error
required (some a) = ok a

-- `SELECT id,e,a,v,t,tx,rx FROM fgraph_facts WHERE tx=? ORDER BY id`
unfoldable pub asserted_rows : List RawFact → ℕ → List RawFact
asserted_rows facts tx = sort_by (λ f. f.id) (keep (λ f. f.tx == tx) facts)

-- `rx=?`
abbrev pub ends_at : ℕ → RawFact → Bool
ends_at tx f = elim f.rx [ none ↦ false | some rx ↦ rx == tx ]

-- `SELECT id,e,a,v,t,tx,rx FROM fgraph_facts WHERE rx=? ORDER BY id`
unfoldable pub retracted_rows : List RawFact → ℕ → List RawFact
retracted_rows facts tx = sort_by (λ f. f.id) (keep (ends_at tx) facts)

-- the rendering of the rows, up to the first that fails
unfoldable pub render_rows : Render → Store → Option ℕ → List RawFact → Result (Unit {0})
render_rows render store override [] = ok tt
render_rows render store override (fact ∷ rest) =
    render store fact override >>= λ _. render_rows render store override rest

-- `eventReceipt` with `alreadyAppliedReport`: the event's facts are read and rendered, and then left
-- out of the report
unfoldable pub event_receipt : Render → Store → ℕ → Result TxReport
unfolding timestamp_of event_gid event_basis asserted_rows retracted_rows render_rows
event_receipt render store tx = required (timestamp_of store.facts tx) >>= λ at.
    required (event_gid store.identities tx) >>= λ gid.
    render_rows render store none (asserted_rows store.facts tx) >>= λ _.
    render_rows render store (some tx) (retracted_rows store.facts tx) >>= λ _. ok (record {
      status = already_applied;
      tx = tx;
      at = some at;
      event_id = gid;
      basis_tx = event_basis store tx;
      ids = [];
      asserted = [];
      retracted = [];
    })

-- the receipt of the row that is found, where it stands for the same request
unfoldable pub replay : Render → Store → List ℕ → Option (ℕ × List ℕ) → Result (Option TxReport)
unfolding bytes_eq event_receipt
replay render store request_hash none = ok none
replay render store request_hash (some (tx, stored)) =
    if bytes_eq stored request_hash
    then (event_receipt render store tx >>= λ report. ok (some report))
    else fail conflict

-- `operationReceipt`
unfoldable pub operation_receipt : Render → Store → String → List ℕ → Result (Option TxReport)
unfolding find_operation replay
operation_receipt render store id request_hash =
    replay render store request_hash (find_operation store.events id)

-- the receipt of the operation of a call, where it names one
unfoldable pub prior_receipt : Render → Store → Option (String × List ℕ) → Result (Option TxReport)
unfolding operation_receipt
prior_receipt render store none = ok none
prior_receipt render store (some (id, request_hash)) =
    operation_receipt render store id request_hash
