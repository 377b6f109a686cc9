-- ===== src/Ledger.antt =====
-- `transactOn` of go/transact.go with the receipts of go/event.go and `finalize` of go/store.go. This
-- file has the data of a call; Receipt, Finalize and Transact have its steps, in that order.
pub mod Receipt
pub mod Finalize
pub mod Transact
pub mod Events
pub mod Outcome
pub mod Retry
use Prim.Native.String.{String}
use fgraph.Base.{ℕ, Bool, List, Option, Result}
use fgraph.Value.{ℤ, StoredValue}
use fgraph.Fact.{RawFact}
use fgraph.Identity.{Allocator}
use fgraph.Plan.{PlannedFact, TransactionPlan}
use fgraph.Store.{Store}

pub data Status : Type 0 where
  noop applied already_applied : Status

-- `TxReport`: the time and the event's UUID as bytes where the report has them, and the facts as they
-- are before their rendering
pub record TxReport : Type 0 where
  pub status : Status
  pub tx : ℕ
  pub at : Option ℤ
  pub event_id : List ℕ
  pub basis_tx : ℕ
  pub ids : List (String × ℕ)
  pub asserted : List PlannedFact
  pub retracted : List RawFact

-- The fields of `txOptions` that `transactOn` reads. `operation` is the operation's id with the
-- digest of the request, and the metadata is given as stored values.
pub record TxOptions : Type 0 where
  pub operation : Option (String × List ℕ)
  pub if_basis_tx : Option ℕ
  pub by : Option StoredValue
  pub source : Option StoredValue
  pub meta : Option StoredValue
  pub force : Bool
  pub event_hash : Option (List ℕ)
  pub at : Option ℤ

-- `renderRaw` of a row, with the end that it is to show: whether it fails
abbrev pub Render : Type 0
Render = Store → RawFact → Option ℕ → Result (Unit {0})

-- What a transaction takes from outside: the plan that the data stands for and the transaction's own
-- facts, with the checks of names and declarations (`planData`, `planTxFacts`,
-- `validatePlannedDeclarations`), the clock, the event's UUID, the UUID of an anonymous identity, the
-- check of shapes, the digest of the written event, the rendering of a row (`renderRaw`), and the
-- pattern of attribute names.
pub record Environment : Type 0 where
  pub plan_data : Store → Allocator → Result (TransactionPlan × List PlannedFact)
  pub clock : ℤ
  pub event_uuid : ℕ → Result (List ℕ)
  pub anonymous_uuid : List ℕ → ℕ → List ℕ
  pub validate_shapes : Store → Result (Unit {0})
  pub event_digest : Store → ℕ → Result (List ℕ)
  pub render_raw : Render
  pub is_attribute : String → Bool
