-- ===== src/Tests/Calls.antt =====
-- The theorems on `transactOn` at concrete calls: a person is given a name.
use Prim.Native.String.{String}
use fgraph.Base.{
  ℕ, ◌≡◌, ◌<◌, refl, false, List, [], ◌∷◌, ◌++◌, Option, none, some, arith, Result, ok, fail,
  conflict, ◌>>=◌, keep,
}
use fgraph.Value.{pos, int64, Tag, column_value, bytes_eq}
use fgraph.Fact.{is_live}
use fgraph.Identity.{Allocator}
use fgraph.Plan.{PlannedFact, TransactionPlan}
use fgraph.Store.{Store}
use fgraph.Store.Live.{new_rows, unretracted}
use fgraph.Ledger.{applied, TxReport, TxOptions, Environment}
use fgraph.Ledger.Receipt.{basis_on, event_receipt}
use fgraph.Ledger.Transact.{transact_on}
use fgraph.Ledger.Retry.{transact_on-retry, transact_on-reuse, transact_on-stale, transact_on-live}

abbrev named_ann : PlannedFact
named_ann = record {
  attr = "";
  value = column_value (int64 (pos 7)) Tag.int;
  e = 40;
  a = 30;
  order = 1;
  tx_target = false;
  cas = false;
}

abbrev plan_ann : Store → Allocator → Result (TransactionPlan × List PlannedFact)
plan_ann store alloc = ok (
  record {
    tempids = [];
    allocator = alloc;
    cas_targets = [];
    schemas = [];
    assertions = named_ann ∷ [];
    retracts = [];
    order = 1;
  },
  [],
)

abbrev an_environment : Environment
an_environment = record {
  plan_data = plan_ann;
  clock = pos 1000;
  event_uuid =
      λ tx. ok (tx ∷ 1 ∷ 2 ∷ 3 ∷ 4 ∷ 5 ∷ 70 ∷ 7 ∷ 136 ∷ 9 ∷ 10 ∷ 11 ∷ 12 ∷ 13 ∷ 14 ∷ 15 ∷ []);
  anonymous_uuid = λ event ordinal. ordinal ∷ event;
  validate_shapes = λ store. ok tt;
  render_raw = λ store fact rx. ok tt;
  event_digest = λ store tx. ok (tx ∷ []);
  is_attribute = λ name. false;
}

abbrev options : Option (String × List ℕ) → Option ℕ → TxOptions
options operation basis = record {
  operation = operation;
  if_basis_tx = basis;
  by = none;
  source = none;
  meta = none;
  force = false;
  event_hash = none;
  at = none;
}

abbrev empty : Store
empty = record {
  facts = [];
  next_row = 1;
  identities = [];
  next_id = some 65;
  events = record { tx = 64; event_hash = []; operation = none } ∷ [];
  blobs = [];
  fts = [];
}

abbrev first_call : TxOptions
first_call = options (some ("import-1", 9 ∷ [])) none

abbrev an_event : List ℕ
an_event = 65 ∷ 1 ∷ 2 ∷ 3 ∷ 4 ∷ 5 ∷ 70 ∷ 7 ∷ 136 ∷ 9 ∷ 10 ∷ 11 ∷ 12 ∷ 13 ∷ 14 ∷ 15 ∷ []

abbrev the_time : PlannedFact
the_time = record {
  attr = "";
  value = column_value (int64 (pos 1000)) Tag.instant;
  e = 65;
  a = 1;
  order = 0;
  tx_target = false;
  cas = false;
}

abbrev first_report : TxReport
first_report = record {
  status = applied;
  tx = 65;
  at = some (pos 1000);
  event_id = an_event;
  basis_tx = 64;
  ids = [];
  asserted = the_time ∷ named_ann ∷ [];
  retracted = [];
}

abbrev first_store : Store
first_store = record {
  facts =
      record { id = 1; e = 65; a = 1; v = int64 (pos 1000); t = Tag.instant; tx = 65; rx = none }
      ∷ record { id = 2; e = 40; a = 30; v = int64 (pos 7); t = Tag.int; tx = 65; rx = none }
      ∷ [];
  next_row = 3;
  identities = record { id = 65; name = none; gid = an_event; created_tx = 65 } ∷ [];
  next_id = some 66;
  events =
      record { tx = 64; event_hash = []; operation = none }
      ∷ record { tx = 65; event_hash = 65 ∷ []; operation = some ("import-1", 9 ∷ []) }
      ∷ [];
  blobs = [];
  fts = [];
}

first_call-applied : transact_on an_environment first_call empty ≡ ok (first_store, first_report)
unfolding transact_on column_value
first_call-applied = refl

basis_before : basis_on empty < 65
unfolding basis_on
basis_before = omega arith

transact_on-retry_example :
    transact_on an_environment (options (some ("import-1", 9 ∷ [])) (some 3)) first_store ≡ (
      event_receipt an_environment.render_raw first_store 65 >>= λ receipt.
      ok (first_store, receipt))
transact_on-retry_example =
    transact_on-retry an_environment first_call empty first_call-applied refl "import-1" (9 ∷ [])
      refl an_environment (options (some ("import-1", 9 ∷ [])) (some 3)) refl

transact_on-reuse_example :
    transact_on an_environment (options (some ("import-1", 8 ∷ [])) none) first_store
    ≡ fail conflict
unfolding bytes_eq
transact_on-reuse_example =
    transact_on-reuse an_environment first_call empty first_call-applied refl "import-1" (9 ∷ [])
      (8 ∷ []) refl refl an_environment (options (some ("import-1", 8 ∷ [])) none) refl

transact_on-stale_example :
    transact_on an_environment (options none (some (basis_on empty))) first_store ≡ fail conflict
transact_on-stale_example =
    transact_on-stale an_environment first_call empty first_call-applied refl basis_before
      an_environment (options none (some (basis_on empty))) refl refl

transact_on-live_example :
    keep is_live first_store.facts
    ≡ unretracted [] (keep is_live empty.facts ++ new_rows first_report.asserted 1 65)
transact_on-live_example = transact_on-live an_environment first_call empty first_call-applied
