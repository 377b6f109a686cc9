-- ===== src/Diff/Run.antt =====
-- Every operation of a plan keeps the map of `diffPlan` in step with the rows read and the
-- assertions inserted.
use fgraph.Base.{
  ℕ, ◌≡◌, ◌≢◌, ◌⊎◌, inl, inr, refl, sym, ap, ◌∙◌, Bool, true, false, not, ◌&&◌, List, [], ◌∷◌, some,
  arith, ◌==◌, keep, any, In, In-append, any_of_In, Bool-cases, Option-cases, distinct, distinct-eq,
  Result, ok, >>=-eq-ok,
}
use fgraph.Fact.{RawFact}
use fgraph.Plan.{PlannedFact, RetractRequest}
use fgraph.Schema.{AttributeSchema}
use fgraph.Diff.{
  WorkingFact, fact_key, key_of, from_raw, from_planned, DiffState, has_key, find_key, find_row,
  drop_entries, same_slot, clear_slot, restore, insert_planned, owned_elsewhere, place, Operation,
  assertion, retraction, order_of, run_operation, run_operations, retract_hits,
}
use fgraph.Diff.Noted.{working-note_all, inserted-note_all}
use fgraph.Diff.Tracks.{Tracks}
use fgraph.Diff.Drop.{drop_entries-Tracks}
use fgraph.Diff.Keys.{put_working-append, has_key-keep, find_key-In, find_row_of}
use fgraph.Diff.Place.{with_planned, with_row, with_planned-Tracks, with_row-Tracks}

pub inserted-drop_entries :
    (hit : WorkingFact → Bool) (st : DiffState) → (drop_entries hit st).inserted ≡ st.inserted
unfolding drop_entries
inserted-drop_entries hit st = inserted-note_all _ (keep hit st.working)

pub working-drop_entries :
    (hit : WorkingFact → Bool) (st : DiffState)
    → (drop_entries hit st).working ≡ keep (λ w. not (hit w)) st.working
unfolding drop_entries
working-drop_entries hit st = working-note_all _ (keep hit st.working)

-- A slot is cleared or left alone.
pub clear_slot_cases :
    (schema : AttributeSchema) (f : PlannedFact) (st : DiffState) {st' : DiffState}
    → clear_slot schema f st ≡ ok st'
    → ((schema.many ≡ true) × (st' ≡ st))
      ⊎ ((schema.many ≡ false) × (st' ≡ drop_entries (same_slot f) st))
unfolding clear_slot
clear_slot_cases schema f st h = elim (Bool-cases schema.many) [
  | inl many ↦ inl (many, ground arith)
  | inr one ↦ inr (one, ground arith)
]

pub ok-injective {ℓ} : {A : Type ℓ} {a b : A} → ok a ≡ ok b → a ≡ b
ok-injective h = cc

restore-eq :
    (current : List RawFact) (st : DiffState) (r : RawFact)
    → distinct (λ f. f.id) current ≡ true
    → Tracks current st
    → In r st.retracted
    → has_key st.working (key_of (from_raw r)) ≡ false
    → restore st (key_of (from_raw r)) r.id ≡ with_row st r
unfolding restore
restore-eq current st r unique t m absent =
    let (n, i) = find_row_of st.retracted r m in
    let e =
      distinct-eq (λ f. f.id) (find_row st.retracted r.id) r current unique (t.noted.rows _ n)
        (t.noted.rows r m) i in
    rw (e, put_working-append st.working (from_raw r) absent)

-- An assertion is placed by a new entry, or by a row that was taken out before.
pub place_cases :
    (current : List RawFact) (schema : AttributeSchema) (f : PlannedFact) (st : DiffState)
    → {st' : DiffState} → distinct (λ r. r.id) current ≡ true
    → Tracks current st
    → has_key st.working (fact_key f.e f.a f.value) ≡ false
    → place schema f st ≡ ok st'
    → ((st' ≡ with_planned st f) × (schema.unique && any (owned_elsewhere f) st.working ≡ false))
      ⊎ ((r : RawFact) × In r st.retracted
          × (key_of (from_raw r) ≡ fact_key f.e f.a f.value)
          × (st' ≡ with_row st r))
unfolding place insert_planned from_planned
place_cases current schema f st {st'} unique t absent h =
    elim (Option-cases (find_key st.retract_keys (fact_key f.e f.a f.value))) [
      | inl new ↦ inl (inserted (rw (new, place) at h))
      | inr (id, known) ↦ inr (restored id known (rw (known, place) at h))
    ]
  where
    inserted :
        insert_planned schema f st ≡ ok st'
        → (st' ≡ with_planned st f) × (schema.unique && any (owned_elsewhere f) st.working ≡ false)
    inserted k = elim (Bool-cases (schema.unique && any (owned_elsewhere f) st.working)) [
      | inl owned ↦ absurd (ground arith)
      | inr free ↦ (ground (arith, put_working-append st.working (from_planned f) absent), free)
    ]

    restored :
        (id : ℕ)
        → find_key st.retract_keys (fact_key f.e f.a f.value) ≡ some id
        → ok (restore st (fact_key f.e f.a f.value) id) ≡ ok st'
        → (r : RawFact) × In r st.retracted
          × (key_of (from_raw r) ≡ fact_key f.e f.a f.value)
          × (st' ≡ with_row st r)
    restored id known k =
        let (r, m, i, e) = t.noted.keys _ id (find_key-In st.retract_keys _ id known) in
        (
          r,
          m,
          sym e,
          ok-injective (
              sym k
              ∙ ap ok (
                  ap (restore st (fact_key f.e f.a f.value)) (sym i)
                  ∙ ap (λ key. restore st key r.id) e
                  ∙ restore-eq current st r unique t m (rw (← e) absent))),
        )

pub later_order :
    (ops : List Operation) (op x : Operation)
    → distinct order_of (op ∷ ops) ≡ true
    → In x ops
    → order_of op ≢ order_of x
later_order ops op x d m e = ground (arith, any_of_In (λ y. order_of y == order_of op) x ops m)

module _ (schema_at : ℕ → Result AttributeSchema) (protected : List ℕ) (current : List RawFact)
    (unique : distinct (λ r. r.id) current ≡ true) where
  pub assert-Tracks :
      (f : PlannedFact) (st : DiffState) {st' : DiffState}
      → Tracks current st
      → ((g : PlannedFact) → In g st.inserted → g.order ≢ f.order)
      → run_operation schema_at protected (assertion f) st ≡ ok st'
      → Tracks current st' × ((g : PlannedFact) → In g st'.inserted → In g st.inserted ⊎ (f ≡ g))
  unfolding run_operation
  assert-Tracks f st {st'} t fresh h =
      elim (Bool-cases (has_key st.working (fact_key f.e f.a f.value))) [
        | inl known ↦ let e : st ≡ st' = ground arith in (rw (← e) t, rw (← e) (λ g m. inl m))
        | inr absent ↦
            let (schema, _, k) = >>=-eq-ok (schema_at f.a) _ (rw absent at h) in
            let (cleared, c, p) = >>=-eq-ok (clear_slot schema f st) _ k in
            placed schema cleared p absent (clear_slot_cases schema f st c)
      ]
    where
      finish :
          (schema : AttributeSchema) (cleared : DiffState)
          → Tracks current cleared
          → cleared.inserted ≡ st.inserted
          → has_key cleared.working (fact_key f.e f.a f.value) ≡ false
          → place schema f cleared ≡ ok st'
          → Tracks current st'
            × ((g : PlannedFact) → In g st'.inserted → In g st.inserted ⊎ (f ≡ g))
      finish schema cleared tc e absent p =
          elim (place_cases current schema f cleared unique tc absent p) [
            | inl (new, _) ↦ rw new (
              with_planned-Tracks current cleared f tc (rw e fresh),
              λ g m. elim (In-append g cleared.inserted _ m) [
                | inl old ↦ inl (rw e at old)
                | inr last ↦
                    inr (elim last [ inl q ↦ sym q | inr none_left ↦ absurd none_left.lower ])
              ],
            )
            | inr (r, m, _, back) ↦
                rw back (with_row-Tracks current cleared r unique tc m, λ g n. inl (rw e at n))
          ]

      placed :
          (schema : AttributeSchema) (cleared : DiffState)
          → place schema f cleared ≡ ok st'
          → has_key st.working (fact_key f.e f.a f.value) ≡ false
          → ((schema.many ≡ true) × (cleared ≡ st))
            ⊎ ((schema.many ≡ false) × (cleared ≡ drop_entries (same_slot f) st))
          → Tracks current st'
            × ((g : PlannedFact) → In g st'.inserted → In g st.inserted ⊎ (f ≡ g))
      placed schema cleared p absent (inl (_, e)) = finish schema st t refl absent (rw e at p)
      placed schema cleared p absent (inr (_, e)) =
          finish schema (drop_entries (same_slot f) st)
            (drop_entries-Tracks current unique (same_slot f) st t)
            (inserted-drop_entries (same_slot f) st)
            (rw working-drop_entries (has_key-keep _ st.working _ absent)) (rw e at p)

  pub retract-Tracks :
      (request : RetractRequest) (st : DiffState) {st' : DiffState}
      → Tracks current st
      → run_operation schema_at protected (retraction request) st ≡ ok st'
      → Tracks current st' × (st'.inserted ≡ st.inserted)
  unfolding run_operation
  retract-Tracks request st {st'} t h = elim (Bool-cases request.missing) [
    | inl gone ↦ let e : st ≡ st' = ground arith in (rw (← e) t, rw (← e))
    | inr there ↦
        let hit = retract_hits protected request in
        let e : drop_entries hit st ≡ st' = ground arith in
        (
          rw (← e) (drop_entries-Tracks current unique hit st t),
          rw (← e) (inserted-drop_entries hit st),
        )
  ]

  -- The assertions still to run have orders that no inserted one has.
  abbrev pub AreFresh : List Operation → DiffState → Type 0
  AreFresh ops st =
      (f g : PlannedFact) → In (assertion f) ops → In g st.inserted → g.order ≢ f.order

  -- The map stays in step through every run of operations with distinct orders.
  pub run_operations-Tracks :
      (ops : List Operation) (st : DiffState) {st' : DiffState}
      → distinct order_of ops ≡ true
      → AreFresh ops st
      → Tracks current st
      → run_operations schema_at protected ops st ≡ ok st'
      → Tracks current st'
  unfolding run_operations
  run_operations-Tracks [] st orders fresh t h = rw (← ok-injective h) t
  run_operations-Tracks (op ∷ ops) st {st'} orders fresh t h =
      let (mid, first, rest) = >>=-eq-ok (run_operation schema_at protected op st) _ h in
      go op orders fresh mid first rest (run_operations-Tracks ops mid)
    where
      go :
          (op : Operation)
          → distinct order_of (op ∷ ops) ≡ true
          → AreFresh (op ∷ ops) st
          → (mid : DiffState) → run_operation schema_at protected op st ≡ ok mid
          → run_operations schema_at protected ops mid ≡ ok st'
          → (distinct order_of ops ≡ true
              → AreFresh ops mid
              → Tracks current mid
              → run_operations schema_at protected ops mid ≡ ok st'
              → Tracks current st')
          → Tracks current st'
      go (retraction request) d fr mid first rest ih =
          let (tm, e) = retract-Tracks request st t first in
          ih (ground arith) (λ x g m n. fr x g (inr m) (rw e at n)) tm rest
      go (assertion f) d fr mid first rest ih =
          let (tm, known) = assert-Tracks f st t (λ g m. fr f g (inl refl) m) first in
          ih (ground arith)
            (λ x g m n. elim (known g n) [
              | inl old ↦ fr x g (inr m) old
              | inr same ↦ λ e.
                  later_order ops (assertion f) (assertion x) d m
                    (unfold order_of in ap (λ (y : PlannedFact). y.order) same ∙ e)
            ])
            tm rest
