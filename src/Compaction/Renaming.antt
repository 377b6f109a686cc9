-- ===== src/Compaction/Renaming.antt =====
-- `compactPendingAllocations` of go/transact.go as a renaming of identities.
use fgraph.Base.{none, Option, ℕ, ◌<◌, ◌≡◌, List, [], ◌∷◌, some}
use fgraph.Plan.{PlannedFact, TransactionPlan}
use fgraph.Compaction.Kept.{Named}
use fgraph.Compaction.{Compacted, reference}

-- the new id, where there is one
abbrev rename_option : (ℕ → ℕ) → Option ℕ → Option ℕ
rename_option rename none = none
rename_option rename (some id) = some (rename id)

-- each entry of one list is related to the one in its place in the other
abbrev pub Pointwise :
    (PlannedFact → PlannedFact → Type 0) → List PlannedFact → List PlannedFact → Type 0
Pointwise r [] [] = Unit {0}
Pointwise r (x ∷ xs) (y ∷ ys) = r x y × Pointwise r xs ys
Pointwise r [] (y ∷ ys) = ⊥
Pointwise r (x ∷ xs) [] = ⊥

-- the fact with its ids renamed: entity, attribute and, where its value is a reference, the value
abbrev pub RenamedBy : (ℕ → ℕ) → PlannedFact → PlannedFact → Type 0
RenamedBy rename f g =
    (g ≡ record f { e = rename f.e; a = rename f.a; value = g.value })
    × (g.value.tag ≡ f.value.tag)
    × (reference g.value ≡ rename_option rename (reference f.value))

-- the same, of a fact whose entity is the transaction's
abbrev pub RenamedTxBy : (ℕ → ℕ) → PlannedFact → PlannedFact → Type 0
RenamedTxBy rename f g =
    (g ≡ record f { a = rename f.a; value = g.value })
    × (g.value.tag ≡ f.value.tag)
    × (reference g.value ≡ rename_option rename (reference f.value))

-- the renaming keeps ids apart, leaves those alone that were there before the transaction, and ends
-- below a bound
abbrev pub Renumbers : (ℕ → Type 0) → ℕ → ℕ → (ℕ → ℕ) → Type 0
Renumbers named first next rename =
    ((x y : ℕ) → named x → named y → rename x ≡ rename y → x ≡ y)
    × ((x : ℕ) → x < first → rename x ≡ x)
    × ((x : ℕ) → named x → rename x < next)

-- what compaction makes of what is written is a renaming of the ids that it names
abbrev pub IsRenaming : TransactionPlan → List PlannedFact → List PlannedFact → Compacted → Type 0
IsRenaming plan assertions tx_facts compacted =
    (rename : ℕ → ℕ) × Pointwise (RenamedBy rename) assertions compacted.assertions
    × Pointwise (RenamedTxBy rename) tx_facts compacted.tx_facts
    × Renumbers (Named assertions tx_facts) plan.allocator.first compacted.allocator.next rename
