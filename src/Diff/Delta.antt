-- ===== src/Diff/Delta.antt =====
-- The delta that `diffPlan` returns, as a change of the live facts: what is live once it is written,
-- and the constraints that the live facts then meet.
use fgraph.Base.{
  ℕ, ◌≡◌, ◌⊎◌, inl, inr, sym, ap, true, false, List, [], ◌∷◌, ◌++◌, map, arith, ◌==◌, any, In,
  In-keep, any-In, any_of_In, In-sort_by, sort_by, Bool-cases, distinct, Result, ok, >>=-eq-ok,
}
use fgraph.Value.{stored_equal}
use fgraph.Fact.{RawFact}
use fgraph.Plan.{PlannedFact}
use fgraph.Schema.{AttributeSchema}
use fgraph.Diff.{
  stored, WorkingFact, key_of, from_raw, from_planned, DiffState, Operation, assertion, order_of,
  start_diff, final_assertions, diff_rows, run_operations, protected_owners,
}
use fgraph.Diff.Noted.{dropped}
use fgraph.Diff.Tracks.{Tracks}
use fgraph.Diff.Run.{ok-injective, run_operations-Tracks, AreFresh}
use fgraph.Diff.Keeps.{IsPlaced, run-keeps}
use fgraph.Diff.Slots.{
  Pairs, Pairs-keep, OneKey, OneKey-placed, OneValue, OneValue-placed, OneOwner, OneOwner-placed,
  IsNewValue,
}
use fgraph.Diff.Start.{keys_distinct, keys_distinct-OneKey, working-start_diff, start_diff-Tracks}

-- What is live once the delta is written: a row that was read and is not retracted, or an assertion
-- of the delta.
abbrev pub Remains : List RawFact → List PlannedFact → List RawFact → WorkingFact → Type 0
Remains current final retracted w =
    ((r : RawFact) × In r current × (any (λ x. x.id == r.id) retracted ≡ false) × (w ≡ from_raw r))
    ⊎ ((f : PlannedFact) × In f final × (w ≡ from_planned f))

-- The rows have ids of their own, no two live rows have one key, and operations are numbered apart.
pub record IsReadable (current : List RawFact) (ops : List Operation) : Type 0 where
  pub ids : distinct (λ r. r.id) current ≡ true
  pub keys : keys_distinct (map from_raw current) ≡ true
  pub orders : distinct order_of ops ≡ true

live-not_dropped :
    (st : DiffState) (r : RawFact)
    → any (λ x. x.id == r.id) (sort_by (λ x. x.id) st.retracted) ≡ false
    → dropped st (stored r) ≡ false
live-not_dropped st r h = elim (Bool-cases (dropped st (stored r))) [
  | inr live ↦ live
  | inl gone ↦
      let (x, m, same) = any-In (λ y. y.id == r.id) st.retracted gone in
      let hit = any_of_In (λ y. y.id == r.id) x _ (In-sort_by (λ y. y.id) x st.retracted m) same in
      cc
]

Remains-In :
    (current : List RawFact) (st : DiffState) (w : WorkingFact)
    → Tracks current st
    → Remains current (final_assertions st) (sort_by (λ x. x.id) st.retracted) w
    → In w st.working
unfolding final_assertions
Remains-In current st w t (inl (r, m, live, e)) =
    rw e (t.stored_in r m (live-not_dropped st r live))
Remains-In current st w t (inr (f, m, e)) =
    let (n, live) = In-keep _ f st.inserted m in rw e (t.planned_in f n (ground arith))

module _ (schema_at : ℕ → Result AttributeSchema) (current : List RawFact) (ops : List Operation)
    (readable : IsReadable current ops) where
  fresh :
      AreFresh schema_at (protected_owners current) current readable.ids ops (start_diff current)
  unfolding start_diff
  fresh f g m n = absurd n.lower

  pub final_state :
      {final : List PlannedFact} {retracted : List RawFact}
      → diff_rows schema_at current ops ≡ ok (final, retracted)
      → (st : DiffState) × (run_operations schema_at
            (protected_owners current)
            ops
            (start_diff current)
          ≡ ok st)
        × Tracks current st
        × (final ≡ final_assertions st)
        × (retracted ≡ sort_by (λ x. x.id) st.retracted)
  unfolding diff_rows
  final_state h =
      let (st, run, e) =
        >>=-eq-ok (run_operations schema_at (protected_owners current) ops (start_diff current)) _
          h in
      (
        st,
        run,
        run_operations-Tracks schema_at (protected_owners current) current readable.ids ops
            (start_diff current) readable.orders fresh (start_diff-Tracks current readable.keys)
            run,
        ap (λ (p : List PlannedFact × List RawFact). p.0) (sym (ok-injective e)),
        ap (λ (p : List PlannedFact × List RawFact). p.1) (sym (ok-injective e)),
      )

  -- A relation between entries that placing a value keeps holds of what remains.
  remains-Pairs :
      (R : WorkingFact → WorkingFact → Type 0) (Allowed : PlannedFact → Type 0)
      → ((schema : AttributeSchema) (f : PlannedFact) (ws : List WorkingFact) (w : WorkingFact)
          → Allowed f
          → schema_at f.a ≡ ok schema
          → IsPlaced current schema f ws w
          → Pairs R ws
          → Pairs R (ws ++ w ∷ []))
      → ((f : PlannedFact) → In (assertion f) ops → Allowed f)
      → Pairs R (map from_raw current)
      → {final : List PlannedFact} {retracted : List RawFact}
      → diff_rows schema_at current ops ≡ ok (final, retracted)
      → (v w : WorkingFact) → Remains current final retracted v
      → Remains current final retracted w
      → R v w
  remains-Pairs R Allowed place_ok allowed initial h v w rv rw' =
      let (st, run, t, e, s) = final_state h in
      let q =
        run-keeps schema_at (protected_owners current) current readable.ids (Pairs R) (Pairs-keep R)
          Allowed place_ok ops (start_diff current) allowed readable.orders fresh
          (start_diff-Tracks current readable.keys) run
          (rw (working-start_diff current readable.keys) initial) in
      q v w (Remains-In current st v t (at_final e s v rv))
        (Remains-In current st w t (at_final e s w rw'))
    where
      at_final :
          {final final' : List PlannedFact} {retracted retracted' : List RawFact}
          → final ≡ final'
          → retracted ≡ retracted'
          → (x : WorkingFact) → Remains current final retracted x
          → Remains current final' retracted' x
      at_final e s x (inl (r, m, live, p)) = inl (r, m, rw (← s) live, p)
      at_final e s x (inr (f, m, p)) = inr (f, rw (← e) m, p)

  module _ {final : List PlannedFact} {retracted : List RawFact}
      (returned : diff_rows schema_at current ops ≡ ok (final, retracted)) (v w : WorkingFact)
      (rv : Remains current final retracted v) (rw' : Remains current final retracted w) where
    -- If the rows read have ids and keys of their own and the plan's operations are numbered apart,
    -- writing the delta leaves at most one live fact for an entity, an attribute and a stored value.
    pub diff_rows-one_key : key_of v ≡ key_of w → v ≡ w
    diff_rows-one_key =
        remains-Pairs OneKey (λ _. Unit) (λ schema f ws x _ _. OneKey-placed current schema f ws x)
          (λ _ _. tt) (keys_distinct-OneKey _ readable.keys) returned v w rv rw'

    -- If the rows read have ids and keys of their own and the plan's operations are numbered apart,
    -- at an attribute that the plan's schema holds to one value, writing the delta leaves at most one live fact on each entity, if the rows read
    -- had at most one.
    pub diff_rows-OneValue :
        (attr : ℕ)
        → ((schema : AttributeSchema) → schema_at attr ≡ ok schema → schema.many ≡ false)
        → Pairs (OneValue attr) (map from_raw current)
        → v.a ≡ attr
        → w.a ≡ attr
        → v.e ≡ w.e
        → v ≡ w
    diff_rows-OneValue attr one initial =
        remains-Pairs (OneValue attr) (λ _. Unit)
          (λ schema f ws x _ known.
            OneValue-placed attr current schema f ws x (λ e. one schema (rw e at known)))
          (λ _ _. tt) initial returned v w rv rw'

    -- If the rows read have ids and keys of their own and the plan's operations are numbered apart,
    -- at a unique attribute writing the delta leaves at most one owner to each value, if the rows
    -- read had at most one and no assertion of the plan at that attribute names a fact that was read.
    pub diff_rows-OneOwner :
        (attr : ℕ)
        → ((schema : AttributeSchema) → schema_at attr ≡ ok schema → schema.unique ≡ true)
        → ((f : PlannedFact) → In (assertion f) ops → IsNewValue attr current f)
        → Pairs (OneOwner attr) (map from_raw current)
        → v.a ≡ attr
        → w.a ≡ attr
        → stored_equal v.value w.value ≡ true
        → v.e ≡ w.e
    diff_rows-OneOwner attr unique new initial =
        remains-Pairs (OneOwner attr) (IsNewValue attr current)
          (λ schema f ws x allowed known.
            OneOwner-placed attr current schema f ws x (λ e. unique schema (rw e at known)) allowed)
          new initial returned v w rv rw'
