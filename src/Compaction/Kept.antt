-- ===== src/Compaction/Kept.antt =====
-- The ids that compaction keeps: those of this transaction that what is written names.
use Prim.Native.String.{String}
use fgraph.Base.{
  In-append, both_true, sort_by-In, ◌⊎◌, ℕ, ◌≡◌, inl, inr, refl, true, not, ◌&&◌, List, [], ◌∷◌,
  some, ◌==◌, ==_iff, any, In, In-append-left, In-append-right, any-In, In-sort_by, Bool-cases,
  Option-cases,
}
use fgraph.Identity.{Allocator}
use fgraph.Plan.{PlannedFact}
use fgraph.Value.{StoredValue}
use fgraph.Compaction.{
  is_pending, keep_id, reference, keep_reference, keep_named, keep_assertions, keep_tx_facts,
  ordered_ids,
}

-- the ids that an assertion names
abbrev pub Names : PlannedFact → ℕ → Type 0
Names f id = (f.e ≡ id) ⊎ ((f.a ≡ id) ⊎ (reference f.value ≡ some id))

-- the ids that a fact of the transaction's entity names besides that entity
abbrev pub NamesTx : PlannedFact → ℕ → Type 0
NamesTx f id = (f.a ≡ id) ⊎ (reference f.value ≡ some id)

-- the ids that what is written names
abbrev pub Named : List PlannedFact → List PlannedFact → ℕ → Type 0
Named assertions tx_facts id =
    ((f : PlannedFact) × In f assertions × Names f id)
    ⊎ ((f : PlannedFact) × In f tx_facts × NamesTx f id)

module _ (alloc : Allocator) where
  keep_id_mono : (kept : List ℕ) (id x : ℕ) → In x kept → In x (keep_id alloc kept id)
  unfolding keep_id
  keep_id_mono kept id x m =
      elim (Bool-cases (is_pending alloc id && not (any (λ y. y == id) kept))) [
        | inl new ↦ rw new (In-append-left x kept _ m)
        | inr old ↦ rw old m
      ]

  keep_id_self :
      (kept : List ℕ) (id : ℕ) → is_pending alloc id ≡ true → In id (keep_id alloc kept id)
  unfolding keep_id
  keep_id_self kept id h = elim (Bool-cases (any (λ y. y == id) kept)) [
    | inl old ↦
        let (y, m, e) = any-In (λ y. y == id) kept old in rw (h, old) (rw (← (==_iff y id).0 e) m)
    | inr new ↦ rw (h, new) (In-append-right id kept _ (inl refl))
  ]

  keep_reference_mono :
      (kept : List ℕ) (value : StoredValue) (x : ℕ)
      → In x kept
      → In x (keep_reference alloc kept value)
  unfolding keep_reference
  keep_reference_mono kept value x m = elim (Option-cases (reference value)) [
    | inl none_there ↦ rw (none_there, keep_reference) m
    | inr (id, there) ↦ rw (there, keep_reference) (keep_id_mono kept id x m)
  ]

  keep_tx_facts_mono :
      (facts : List PlannedFact) (kept : List ℕ) (x : ℕ)
      → In x kept
      → In x (keep_tx_facts alloc kept facts)
  unfolding keep_tx_facts
  keep_tx_facts_mono [] kept x m = m
  keep_tx_facts_mono (f ∷ facts) kept x m =
      keep_tx_facts_mono facts _ x (keep_reference_mono _ f.value x (keep_id_mono kept f.a x m))

  keep_assertions_mono :
      (facts : List PlannedFact) (kept : List ℕ) (x : ℕ)
      → In x kept
      → In x (keep_assertions alloc kept facts)
  unfolding keep_assertions
  keep_assertions_mono [] kept x m = m
  keep_assertions_mono (f ∷ facts) kept x m =
      keep_assertions_mono facts _ x
        (keep_reference_mono _ f.value x (keep_id_mono _ f.a x (keep_id_mono kept f.e x m)))

  keep_reference_self :
      (kept : List ℕ) (value : StoredValue) {id : ℕ}
      → reference value ≡ some id
      → is_pending alloc id ≡ true
      → In id (keep_reference alloc kept value)
  unfolding keep_reference
  keep_reference_self kept value {id} e h = rw (e, keep_reference) (keep_id_self kept id h)

  keep_assertions-Names :
      (facts : List PlannedFact) (kept : List ℕ) (f : PlannedFact) (id : ℕ)
      → In f facts
      → Names f id
      → is_pending alloc id ≡ true
      → In id (keep_assertions alloc kept facts)
  unfolding keep_assertions
  keep_assertions-Names [] kept f id m named h = absurd m.lower
  keep_assertions-Names (g ∷ facts) kept f id (inr m) named h =
      keep_assertions-Names facts _ f id m named h
  keep_assertions-Names (g ∷ facts) kept f id (inl e) named h =
      keep_assertions_mono facts _ id (elim named [
        | inl at_e ↦
            keep_reference_mono _ g.value id
              (keep_id_mono _ g.a id (rw (← e, at_e) (keep_id_self kept id h)))
        | inr (inl at_a) ↦ keep_reference_mono _ g.value id (rw (← e, at_a) (keep_id_self _ id h))
        | inr (inr at_v) ↦ keep_reference_self _ g.value (rw (← e) at_v) h
      ])

  keep_tx_facts-Names :
      (facts : List PlannedFact) (kept : List ℕ) (f : PlannedFact) (id : ℕ)
      → In f facts
      → NamesTx f id
      → is_pending alloc id ≡ true
      → In id (keep_tx_facts alloc kept facts)
  unfolding keep_tx_facts
  keep_tx_facts-Names [] kept f id m named h = absurd m.lower
  keep_tx_facts-Names (g ∷ facts) kept f id (inr m) named h =
      keep_tx_facts-Names facts _ f id m named h
  keep_tx_facts-Names (g ∷ facts) kept f id (inl e) named h =
      keep_tx_facts_mono facts _ id (elim named [
        | inl at_a ↦ keep_reference_mono _ g.value id (rw (← e, at_a) (keep_id_self kept id h))
        | inr at_v ↦ keep_reference_self _ g.value (rw (← e) at_v) h
      ])

  pub ordered_ids-Named :
      (assertions tx_facts : List PlannedFact) (id : ℕ)
      → Named assertions tx_facts id
      → is_pending alloc id ≡ true
      → In id (ordered_ids alloc assertions tx_facts)
  unfolding ordered_ids
  ordered_ids-Named assertions tx_facts id (inl (f, m, named)) h =
      In-sort_by (λ id. id) id _
        (keep_tx_facts_mono tx_facts _ id (keep_assertions-Names assertions _ f id m named h))
  ordered_ids-Named assertions tx_facts id (inr (f, m, named)) h =
      In-sort_by (λ id. id) id _ (keep_tx_facts-Names tx_facts _ f id m named h)

  -- each id was allocated by this transaction
  abbrev AllPending : List ℕ → Type 0
  AllPending ids = (id : ℕ) → In id ids → is_pending alloc id ≡ true

  keep_id-AllPending :
      (kept : List ℕ) (id : ℕ) → AllPending kept → AllPending (keep_id alloc kept id)
  unfolding keep_id
  keep_id-AllPending kept id h =
      elim (Bool-cases (is_pending alloc id && not (any (λ y. y == id) kept))) [
        | inr old ↦ λ x m. h x (rw old at m)
        | inl new ↦ λ x m. elim (In-append x kept (id ∷ []) (rw new at m)) [
          | inl k ↦ h x k
          | inr (inl e) ↦ rw e (both_true _ _ new).0
          | inr (inr k) ↦ absurd k.lower
        ]
      ]

  keep_reference-AllPending :
      (kept : List ℕ) (value : StoredValue)
      → AllPending kept
      → AllPending (keep_reference alloc kept value)
  unfolding keep_reference
  keep_reference-AllPending kept value h = elim (Option-cases (reference value)) [
    | inl e ↦ rw (e, keep_reference) h
    | inr (id, e) ↦ rw (e, keep_reference) (keep_id-AllPending kept id h)
  ]

  keep_named-AllPending :
      (names : List (String × ℕ)) (kept : List ℕ)
      → AllPending kept
      → AllPending (keep_named alloc kept names)
  unfolding keep_named
  keep_named-AllPending [] kept h = h
  keep_named-AllPending ((_, id) ∷ names) kept h =
      keep_named-AllPending names _ (keep_id-AllPending kept id h)

  keep_assertions-AllPending :
      (facts : List PlannedFact) (kept : List ℕ)
      → AllPending kept
      → AllPending (keep_assertions alloc kept facts)
  unfolding keep_assertions
  keep_assertions-AllPending [] kept h = h
  keep_assertions-AllPending (f ∷ facts) kept h = keep_assertions-AllPending facts _ (
      keep_reference-AllPending _ f.value
        (keep_id-AllPending _ f.a (keep_id-AllPending kept f.e h)))

  keep_tx_facts-AllPending :
      (facts : List PlannedFact) (kept : List ℕ)
      → AllPending kept
      → AllPending (keep_tx_facts alloc kept facts)
  unfolding keep_tx_facts
  keep_tx_facts-AllPending [] kept h = h
  keep_tx_facts-AllPending (f ∷ facts) kept h =
      keep_tx_facts-AllPending facts _
        (keep_reference-AllPending _ f.value (keep_id-AllPending kept f.a h))

  pub ordered_ids-AllPending :
      (assertions tx_facts : List PlannedFact) → AllPending (ordered_ids alloc assertions tx_facts)
  unfolding ordered_ids
  ordered_ids-AllPending assertions tx_facts id m =
      keep_tx_facts-AllPending tx_facts _
        (keep_assertions-AllPending assertions _
          (keep_named-AllPending alloc.ids [] (λ x n. absurd n.lower)))
        id (sort_by-In (λ id. id) id _ m)
