-- ===== src/Diff/Keeps.antt =====
-- Properties of the map of `diffPlan` that every operation keeps: one rule for deleting entries, one
-- for placing a value.
use fgraph.Base.{
  ℕ, ◌≡◌, ◌≢◌, ◌⊎◌, inl, inr, refl, ap, ◌∙◌, Bool, true, false, not, ◌&&◌, List, [], ◌∷◌, ◌++◌,
  arith, keep, any, In, any_of_In, Bool-cases, distinct, Result, ok, >>=-eq-ok,
}
use fgraph.Fact.{RawFact}
use fgraph.Plan.{PlannedFact, RetractRequest}
use fgraph.Schema.{AttributeSchema}
use fgraph.Diff.{
  WorkingFact, FactKey, fact_key, key_of, key_eq, from_raw, from_planned, DiffState, has_key,
  drop_entries, same_slot, clear_slot, owned_elsewhere, place, Operation, assertion, retraction,
  order_of, run_operation, run_operations, retract_hits,
}
use fgraph.Diff.Tracks.{Tracks}
use fgraph.Diff.Drop.{drop_entries-Tracks}
use fgraph.Diff.Keys.{has_key-keep, key_eq_refl}
use fgraph.Diff.Run.{
  clear_slot_cases, place_cases, working-drop_entries, assert-Tracks, retract-Tracks, AreFresh,
  ok-injective, later_order,
}

-- What holds when `diffPlan` puts an entry for an assertion into its map.
pub record IsPlaced (current : List RawFact) (schema : AttributeSchema) (f : PlannedFact)
    (ws : List WorkingFact) (w : WorkingFact) : Type 0 where
  pub absent : has_key ws (fact_key f.e f.a f.value) ≡ false
  pub key : key_of w ≡ fact_key f.e f.a f.value
  pub slot_free : schema.many ≡ false → any (same_slot f) ws ≡ false
  pub source :
      ((w ≡ from_planned f) × (schema.unique && any (owned_elsewhere f) ws ≡ false))
      ⊎ ((r : RawFact) × In r current × (w ≡ from_raw r))

any-keep-not {ℓ} :
    {A : Type ℓ} (p : A → Bool) (xs : List A) → any p (keep (λ x. not (p x)) xs) ≡ false
any-keep-not p [] = refl
any-keep-not p (x ∷ xs) = ground (arith, any-keep-not p xs)

-- An absent key is the key of no entry.
pub absent-ne :
    (ws : List WorkingFact) (v : WorkingFact) (key : FactKey)
    → has_key ws key ≡ false
    → In v ws
    → key_of v ≢ key
unfolding has_key
absent-ne ws v key h m e =
    let hit =
      any_of_In (λ x. key_eq (key_of x) key) v ws m (ap (λ k. key_eq k key) e ∙ key_eq_refl key) in
    cc

module _ (schema_at : ℕ → Result AttributeSchema) (protected : List ℕ) (current : List RawFact)
    (unique : distinct (λ r. r.id) current ≡ true) (Q : List WorkingFact → Type 0)
    (drop_ok : (p : WorkingFact → Bool) (ws : List WorkingFact) → Q ws → Q (keep p ws))
    (Allowed : PlannedFact → Type 0)
    (place_ok : (schema : AttributeSchema) (f : PlannedFact) (ws : List WorkingFact)
        (w : WorkingFact)
      → Allowed f
      → schema_at f.a ≡ ok schema
      → IsPlaced current schema f ws w
      → Q ws
      → Q (ws ++ w ∷ [])) where
  place-keeps :
      (schema : AttributeSchema) (f : PlannedFact) (st : DiffState) {st' : DiffState}
      → Allowed f
      → schema_at f.a ≡ ok schema
      → Tracks current st
      → has_key st.working (fact_key f.e f.a f.value) ≡ false
      → (schema.many ≡ false → any (same_slot f) st.working ≡ false)
      → place schema f st ≡ ok st'
      → Q st.working
      → Q st'.working
  unfolding from_planned
  place-keeps schema f st allowed known t absent free h q =
      elim (place_cases current schema f st unique t absent h) [
        | inl (new, owner) ↦ rw new (
            place_ok schema f st.working (from_planned f) allowed known
              (record { absent = absent; key = refl; slot_free = free; source = inl (refl, owner) })
              q)
        | inr (r, m, e, back) ↦ rw back (
            place_ok schema f st.working (from_raw r) allowed known
              (record {
                absent = absent;
                key = e;
                slot_free = free;
                source = inr (r, t.noted.rows r m, refl);
              })
              q)
      ]

  assert-keeps :
      (f : PlannedFact) (st : DiffState) {st' : DiffState}
      → Allowed f
      → Tracks current st
      → run_operation schema_at protected (assertion f) st ≡ ok st'
      → Q st.working
      → Q st'.working
  unfolding run_operation
  assert-keeps f st {st'} allowed t h q =
      elim (Bool-cases (has_key st.working (fact_key f.e f.a f.value))) [
        | inl there ↦ let e : st ≡ st' = ground arith in rw (← e) q
        | inr absent ↦
            let (schema, known, k) = >>=-eq-ok (schema_at f.a) _ (rw absent at h) in
            let (cleared, c, p) = >>=-eq-ok (clear_slot schema f st) _ k in
            elim (clear_slot_cases schema f st c) [
              | inl (many, e) ↦
                  place-keeps schema f st allowed known t absent (λ one. cc) (rw e at p) q
              | inr (one, e) ↦
                  place-keeps schema f (drop_entries (same_slot f) st) allowed known
                    (drop_entries-Tracks current unique (same_slot f) st t)
                    (rw working-drop_entries (has_key-keep _ st.working _ absent))
                    (λ _. rw working-drop_entries (any-keep-not (same_slot f) st.working))
                    (rw e at p) (rw working-drop_entries (drop_ok _ st.working q))
            ]
      ]

  retract-keeps :
      (request : RetractRequest) (st : DiffState) {st' : DiffState}
      → run_operation schema_at protected (retraction request) st ≡ ok st'
      → Q st.working
      → Q st'.working
  unfolding run_operation
  retract-keeps request st {st'} h q = elim (Bool-cases request.missing) [
    | inl gone ↦ let e : st ≡ st' = ground arith in rw (← e) q
    | inr there ↦
        let hit = retract_hits protected request in
        let e : drop_entries hit st ≡ st' = ground arith in
        rw (← e, working-drop_entries) (drop_ok _ st.working q)
  ]

  pub run-keeps :
      (ops : List Operation) (st : DiffState) {st' : DiffState}
      → ((f : PlannedFact) → In (assertion f) ops → Allowed f)
      → distinct order_of ops ≡ true
      → AreFresh schema_at protected current unique ops st
      → Tracks current st
      → run_operations schema_at protected ops st ≡ ok st'
      → Q st.working
      → Q st'.working
  unfolding run_operations
  run-keeps [] st allowed d fresh t h q = rw (← ok-injective h) q
  run-keeps (op ∷ ops) st {st'} allowed d fresh t h q =
      let (mid, first, rest) = >>=-eq-ok (run_operation schema_at protected op st) _ h in
      go op allowed d fresh mid first rest (run-keeps ops mid)
    where
      go :
          (op : Operation)
          → ((f : PlannedFact) → In (assertion f) (op ∷ ops) → Allowed f)
          → distinct order_of (op ∷ ops) ≡ true
          → AreFresh schema_at protected current unique (op ∷ ops) st
          → (mid : DiffState) → run_operation schema_at protected op st ≡ ok mid
          → run_operations schema_at protected ops mid ≡ ok st'
          → (((f : PlannedFact) → In (assertion f) ops → Allowed f)
              → distinct order_of ops ≡ true
              → AreFresh schema_at protected current unique ops mid
              → Tracks current mid
              → run_operations schema_at protected ops mid ≡ ok st'
              → Q mid.working
              → Q st'.working)
          → Q st'.working
      go (retraction request) al d fr mid first rest ih =
          let (tm, e) = retract-Tracks schema_at protected current unique request st t first in
          ih (λ x m. al x (inr m)) (ground arith) (λ x g m n. fr x g (inr m) (rw e at n)) tm rest
            (retract-keeps request st first q)
      go (assertion f) al d fr mid first rest ih =
          let (tm, known) =
            assert-Tracks schema_at protected current unique f st t (λ g m. fr f g (inl refl) m)
              first in
          ih (λ x m. al x (inr m)) (ground arith)
            (λ x g m n. elim (known g n) [
              | inl old ↦ fr x g (inr m) old
              | inr same ↦ λ e.
                  later_order ops (assertion f) (assertion x) d m
                    (unfold order_of in ap (λ (y : PlannedFact). y.order) same ∙ e)
            ])
            tm rest (assert-keeps f st (al f (inl refl)) t first q)
