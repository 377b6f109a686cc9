-- ===== src/Compaction.antt =====
-- `compactPendingAllocations` of go/transact.go: identities that the final plan does not mention are
-- given back, and the others are numbered without gaps.
pub mod Numbering
pub mod Kept
pub mod Renaming
use Prim.Native.String.{String}
use fgraph.Base.{
  ℕ, ◌+◌, Bool, true, false, not, ◌&&◌, ◌||◌, List, [], ◌∷◌, ◌++◌, map, Option, none, some, ◌==◌,
  leb, ltb, if◌then◌else◌, keep, any, length, sort_by,
}
use fgraph.Value.{ℤ, pos, negsuc, Storage, int64, Tag, tag_eq, StoredValue, as_int64}
use fgraph.Identity.{Allocator, PendingIdentity}
use fgraph.Plan.{PlannedFact, TransactionPlan}
use fgraph.Store.{IdentityRow}

-- `id >= first && id < next`
unfoldable pub is_pending : Allocator → ℕ → Bool
is_pending alloc id = leb alloc.first id && ltb id alloc.next

-- `kept[id] = true`, for an id of this transaction
unfoldable pub keep_id : Allocator → List ℕ → ℕ → List ℕ
unfolding is_pending
keep_id alloc kept id =
    if is_pending alloc id && not (any (λ x. x == id) kept) then kept ++ id ∷ [] else kept

-- the reference of a fact's value, where it has one that is a positive number
unfoldable pub reference : StoredValue → Option ℕ
unfolding tag_eq as_int64
reference value =
    if tag_eq value.tag Tag.ref
    then elim (as_int64 value.storage) [ pos n ↦ some n | negsuc _ ↦ none ]
    else none

unfoldable pub keep_reference : Allocator → List ℕ → StoredValue → List ℕ
unfolding keep_id reference
keep_reference alloc kept value = elim (reference value) [
  | none ↦ kept
  | some id ↦ keep_id alloc kept id
]

unfoldable pub keep_named : Allocator → List ℕ → List (String × ℕ) → List ℕ
unfolding keep_id
keep_named alloc kept [] = kept
keep_named alloc kept ((_, id) ∷ rest) = keep_named alloc (keep_id alloc kept id) rest

unfoldable pub keep_assertions : Allocator → List ℕ → List PlannedFact → List ℕ
unfolding keep_id keep_reference
keep_assertions alloc kept [] = kept
keep_assertions alloc kept (fact ∷ rest) =
    keep_assertions alloc
      (keep_reference alloc (keep_id alloc (keep_id alloc kept fact.e) fact.a) fact.value) rest

unfoldable pub keep_tx_facts : Allocator → List ℕ → List PlannedFact → List ℕ
unfolding keep_id keep_reference
keep_tx_facts alloc kept [] = kept
keep_tx_facts alloc kept (fact ∷ rest) =
    keep_tx_facts alloc (keep_reference alloc (keep_id alloc kept fact.a) fact.value) rest

-- `ordered`
unfoldable pub ordered_ids : Allocator → List PlannedFact → List PlannedFact → List ℕ
unfolding keep_named keep_assertions keep_tx_facts sort_by
ordered_ids alloc assertions tx_facts =
    sort_by (λ id. id)
      (keep_tx_facts alloc (keep_assertions alloc (keep_named alloc [] alloc.ids) assertions)
        tx_facts)

-- `remap[old] = first + index`
unfoldable pub number_from : ℕ → List ℕ → List (ℕ × ℕ)
number_from first [] = []
number_from first (id ∷ rest) = (id, first) ∷ number_from (first + 1) rest

unfoldable pub find_id : List (ℕ × ℕ) → ℕ → Option ℕ
find_id [] id = none
find_id ((old, new) ∷ rest) id = if old == id then some new else find_id rest id

-- `remapPendingID`
unfoldable pub remap_pending_id : ℕ → List (ℕ × ℕ) → ℕ
unfolding find_id
remap_pending_id id remap = elim (find_id remap id) [ none ↦ id | some new ↦ new ]

unfoldable pub remap_value : List (ℕ × ℕ) → StoredValue → StoredValue
unfolding reference find_id
remap_value remap value = elim (reference value) [
  | none ↦ value
  | some id ↦ elim (find_id remap id) [
    | none ↦ value
    | some new ↦ record value { storage = int64 (pos new) }
  ]
]

unfoldable pub remap_assertion : List (ℕ × ℕ) → PlannedFact → PlannedFact
unfolding remap_pending_id remap_value
remap_assertion remap fact = record fact {
  e = remap_pending_id fact.e remap;
  a = remap_pending_id fact.a remap;
  value = remap_value remap fact.value;
}

unfoldable pub remap_tx_fact : List (ℕ × ℕ) → PlannedFact → PlannedFact
unfolding remap_pending_id remap_value
remap_tx_fact remap fact = record fact {
  a = remap_pending_id fact.a remap;
  value = remap_value remap fact.value;
}

-- an identity of this transaction that is not kept
unfoldable pub is_released : Allocator → List (ℕ × ℕ) → ℕ → Bool
unfolding is_pending find_id
is_released alloc remap id = elim (find_id remap id) [ none ↦ is_pending alloc id | some _ ↦ false ]

-- what `compactPendingAllocations` changes
pub record Compacted : Type 0 where
  pub identities : List IdentityRow
  pub assertions : List PlannedFact
  pub tx_facts : List PlannedFact
  pub allocator : Allocator
  pub tempids : List (String × ℕ)

-- `UPDATE fgraph_ids SET id=? WHERE id=?`, for each id that moves, in order
unfoldable pub move_rows : List IdentityRow → List (ℕ × ℕ) → List IdentityRow
move_rows rows [] = rows
move_rows rows ((old, new) ∷ rest) =
    move_rows (map (λ row. if row.id == old then record row { id = new } else row) rows) rest

-- `changed` is false: every pending id is kept in its place
unfoldable pub is_compact : Allocator → List ℕ → Bool
is_compact alloc ordered =
    length ordered + alloc.first == alloc.next
    && not (any (λ entry. not (entry.0 == entry.1)) (number_from alloc.first ordered))

unfoldable pub compact_pending_allocations :
    List IdentityRow → TransactionPlan → List PlannedFact → List PlannedFact → Compacted
unfolding ordered_ids number_from is_compact move_rows remap_assertion remap_tx_fact is_released
compact_pending_allocations identities plan assertions tx_facts =
    let alloc = plan.allocator in
    let ordered = ordered_ids alloc assertions tx_facts in
    let remap = number_from alloc.first ordered in
    let unchanged : Compacted = record {
      identities = identities;
      assertions = assertions;
      tx_facts = tx_facts;
      allocator = alloc;
      tempids = plan.tempids;
    } in
    if alloc.first == alloc.next || is_compact alloc ordered then unchanged else record {
      identities = move_rows identities (keep (λ entry. not (entry.0 == entry.1)) remap);
      assertions = map (remap_assertion remap) assertions;
      tx_facts = map (remap_tx_fact remap) tx_facts;
      allocator = record alloc {
        ids = map {A = String × ℕ} (λ entry. (entry.0, remap_pending_id entry.1 remap)) alloc.ids;
        pending =
            map {A = PendingIdentity} (λ p. record p { id = remap_pending_id p.id remap })
              (keep (λ p. not (is_released alloc remap p.id)) alloc.pending);
        next = alloc.first + length ordered;
        dirty = not (alloc.first + length ordered == alloc.first);
      };
      tempids =
          map {A = String × ℕ} (λ entry. (entry.0, remap_pending_id entry.1 remap))
            (keep (λ entry. not (is_released alloc remap entry.1)) plan.tempids);
    }
