-- ===== src/Diff/Place.antt =====
-- The two ways in which `diffPlan` puts an assertion's value into its map, by a new entry or by a row
-- that it had taken out, keep the map in step.
use fgraph.Base.{
  ℕ, ◌≡◌, ◌≢◌, ◌⊎◌, inl, inr, refl, sym, ap, ◌∙◌, true, false, not, List, [], ◌∷◌, ◌++◌, arith,
  ◌==◌, ==_iff, ==_refl, In, In-keep, In-keep_of, In-map, map-In, In-append, In-append-left,
  In-append-right, Bool-cases, distinct, distinct-eq,
}
use fgraph.Fact.{RawFact}
use fgraph.Plan.{PlannedFact}
use fgraph.Diff.{
  Origin, stored, planned, WorkingFact, FactKey, key_of, key_eq, from_raw, from_planned, DiffState,
  delete_id, delete_key,
}
use fgraph.Diff.Noted.{dropped, any-delete_id}
use fgraph.Diff.Tracks.{Source, Tracks}
use fgraph.Diff.Keys.{key_eq_refl, distinct-append_one}

-- The state with one more entry, of an assertion.
abbrev pub with_planned : DiffState → PlannedFact → DiffState
with_planned st f = record st {
  working = st.working ++ from_planned f ∷ [];
  inserted = st.inserted ++ f ∷ [];
}

-- The state with one more entry, of a row that is no longer to be retracted.
abbrev pub with_row : DiffState → RawFact → DiffState
with_row st r = record st {
  working = st.working ++ from_raw r ∷ [];
  retracted = delete_id st.retracted r.id;
  retract_keys = delete_key st.retract_keys (key_of (from_raw r));
}

dropped-with_planned :
    (st : DiffState) (f : PlannedFact) (o : Origin) → dropped (with_planned st f) o ≡ dropped st o
dropped-with_planned st f (stored r) = refl
dropped-with_planned st f (planned g) = refl

Source-weaken :
    (current : List RawFact) (inserted : List PlannedFact) (f : PlannedFact) (w : WorkingFact)
    → Source current inserted w
    → Source current (inserted ++ f ∷ []) w
Source-weaken current inserted f w (inl m) = inl m
Source-weaken current inserted f w (inr m) =
    let (g, n, e) = map-In from_planned w inserted m in
    inr (rw e (In-map from_planned g (inserted ++ f ∷ []) (In-append-left g inserted _ n)))

not_dropped :
    (current : List RawFact) (st : DiffState) (f : PlannedFact)
    → Tracks current st
    → ((g : PlannedFact) → In g st.inserted → g.order ≢ f.order)
    → dropped st (planned f) ≡ false
not_dropped current st f t fresh = elim (Bool-cases (dropped st (planned f))) [
  | inl gone ↦ let (g, m, e) = t.canceled f gone in absurd (fresh g m e)
  | inr live ↦ live
]

pub with_planned-Tracks :
    (current : List RawFact) (st : DiffState) (f : PlannedFact)
    → Tracks current st
    → ((g : PlannedFact) → In g st.inserted → g.order ≢ f.order)
    → Tracks current (with_planned st f)
with_planned-Tracks current st f t fresh = record {
  noted = record { rows = t.noted.rows; keys = t.noted.keys };
  sound = λ w m. sound w (In-append w st.working _ m);
  stored_in = λ r m d. In-append-left (from_raw r) st.working _ (t.stored_in r m d);
  planned_in = λ g m d. planned_in g d (In-append g st.inserted _ m);
  orders = distinct-append_one (λ g. g.order) f st.inserted t.orders fresh;
  canceled = λ g d. let (h, m, e) = t.canceled g d in (h, In-append-left h st.inserted _ m, e);
}
  where
    sound :
        (w : WorkingFact)
        → In w st.working ⊎ In w (from_planned f ∷ [])
        → Source current (st.inserted ++ f ∷ []) w × (dropped (with_planned st f) w.origin ≡ false)
    sound w (inl m) =
        let (s, d) = t.sound w m in
        (Source-weaken current st.inserted f w s, dropped-with_planned st f w.origin ∙ d)
    sound w (inr (inr m)) = absurd m.lower
    sound w (inr (inl e)) = rw e (
      inr (In-map from_planned f _ (In-append-right f st.inserted _ (inl refl))),
      unfold from_planned in not_dropped current st f t fresh,
    )

    planned_in :
        (g : PlannedFact)
        → dropped st (planned g) ≡ false
        → In g st.inserted ⊎ In g (f ∷ [])
        → In (from_planned g) (st.working ++ from_planned f ∷ [])
    planned_in g d (inl m) = In-append-left _ st.working _ (t.planned_in g m d)
    planned_in g d (inr (inl e)) = In-append-right _ st.working _ (inl (ap from_planned e))
    planned_in g d (inr (inr m)) = absurd m.lower

dropped-with_row :
    (st : DiffState) (r : RawFact) (o : Origin)
    → dropped st o ≡ false
    → dropped (with_row st r) o ≡ false
dropped-with_row st r (stored q) d = ground (arith, any-delete_id st.retracted r.id q.id)
dropped-with_row st r (planned g) d = d

pub with_row-Tracks :
    (current : List RawFact) (st : DiffState) (r : RawFact)
    → distinct (λ f. f.id) current ≡ true
    → Tracks current st
    → In r st.retracted
    → Tracks current (with_row st r)
unfolding delete_id delete_key
with_row-Tracks current st r unique t gone = record {
  noted = record { rows = λ x m. t.noted.rows x (In-keep _ x st.retracted (m)).0; keys = keys };
  sound = λ w m. sound w (In-append w st.working _ m);
  stored_in = stored_in;
  planned_in = λ g m d. In-append-left _ st.working _ (t.planned_in g m d);
  orders = t.orders;
  canceled = t.canceled;
}
  where
    known : In r current
    known = t.noted.rows r gone

    sound :
        (w : WorkingFact)
        → In w st.working ⊎ In w (from_raw r ∷ [])
        → Source current st.inserted w × (dropped (with_row st r) w.origin ≡ false)
    sound w (inl m) = let (s, d) = t.sound w m in (s, dropped-with_row st r w.origin d)
    sound w (inr (inr m)) = absurd m.lower
    sound w (inr (inl e)) = rw e (
      inl (In-map from_raw r current known),
      unfold from_raw in rw (any-delete_id st.retracted r.id r.id, ==_refl),
    )

    stored_in :
        (q : RawFact)
        → In q current
        → dropped (with_row st r) (stored q) ≡ false
        → In (from_raw q) (st.working ++ from_raw r ∷ [])
    stored_in q m d = elim (Bool-cases (r.id == q.id)) [
      | inl same ↦
          let e = distinct-eq (λ f. f.id) r q current unique known m ((==_iff r.id q.id).0 same) in
          In-append-right _ st.working _ (inl (ap from_raw (sym e)))
      | inr other ↦
          In-append-left _ st.working _
            (t.stored_in q m (ground (arith, any-delete_id st.retracted r.id q.id)))
    ]

    keys :
        (k : FactKey) (id : ℕ)
        → In (k, id) (delete_key st.retract_keys (key_of (from_raw r)))
        → (q : RawFact) × In q (delete_id st.retracted r.id)
          × (q.id ≡ id)
          × (k ≡ key_of (from_raw q))
    keys k id m =
        let (n, other) = In-keep _ (k, id) st.retract_keys m in
        let (q, nq, i, s) = t.noted.keys k id n in
        (q, In-keep_of _ q st.retracted nq (kept q nq k s other), i, s)
      where
        kept :
            (q : RawFact)
            → In q st.retracted
            → (k : FactKey) → k ≡ key_of (from_raw q)
            → not (key_eq k (key_of (from_raw r))) ≡ true
            → not (q.id == r.id) ≡ true
        kept q nq k s other = elim (Bool-cases (q.id == r.id)) [
          | inr ne ↦ rw ne
          | inl same ↦
              let e =
                distinct-eq (λ f. f.id) q r current unique (t.noted.rows q nq) known
                  ((==_iff q.id r.id).0 same) in
              let p = s ∙ ap (λ x. key_of (from_raw x)) e in
              cc (
                other,
                ap (λ x. key_eq x (key_of (from_raw r))) p,
                key_eq_refl (key_of (from_raw r)),
              )
        ]
