-- ===== src/Fact.antt =====
-- The rows of table fgraph_facts (go/store.go, go/transact.go) and what a view shows of them
-- (go/read.go).
use fgraph.Base.{ℕ, Bool, true, false, ◌&&◌, List, Option, none, some, ◌==◌, leb, ltb, keep, any}
use fgraph.Value.{Storage, Tag, StoredValue, column_value}

pub record RawFact : Type 0 where
  pub id : ℕ
  pub e : ℕ
  pub a : ℕ
  pub v : Storage
  pub t : Tag
  pub tx : ℕ
  pub rx : Option ℕ

-- `rx IS NULL`
unfoldable pub is_live : RawFact → Bool
is_live f = elim f.rx [ none ↦ true | some _ ↦ false ]

-- `rx IS NULL OR rx > tx`
unfoldable pub ends_after : Option ℕ → ℕ → Bool
ends_after none tx = true
ends_after (some rx) tx = ltb tx rx

-- The condition of `(*DB).visibility`: of the present, or of the view at a transaction.
unfoldable pub visible : Option ℕ → RawFact → Bool
unfolding is_live ends_after
visible none f = is_live f
visible (some as_of) f = leb f.tx as_of && ends_after f.rx as_of

unfoldable pub raw_value : RawFact → StoredValue
unfolding column_value
raw_value f = column_value f.v f.t

-- `liveFacts`
unfoldable pub live_facts : List RawFact → ℕ → Option ℕ → List RawFact
unfolding is_live
live_facts facts entity none = keep (λ f. is_live f && f.e == entity) facts
live_facts facts entity (some attr) = keep (λ f. is_live f && f.e == entity && f.a == attr) facts

-- A row `receipt` with `receipt.e = e AND receipt.a = 1 AND receipt.tx = receipt.e`: the entity is
-- a transaction.
unfoldable pub is_transaction : List RawFact → ℕ → Bool
is_transaction facts entity = any (λ f. f.e == entity && f.a == 1 && f.tx == f.e) facts
