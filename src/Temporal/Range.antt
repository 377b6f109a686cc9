-- ===== src/Temporal/Range.antt =====
-- What `Diff` tells of two views.
use fgraph.Base.{
  ℕ, ◌+◌, ◌-◌, ◌<◌, ◌≤◌, ◌≡◌, ◌⊎◌, ◌↔◌, inl, inr, refl, subst, Bool, true, false, not, ◌&&◌, ◌||◌,
  List, none, some, arith, ltb, keep, In, In-keep, In-keep_of, sort_by, In-sort_by, sort_by-In,
  Option-cases, ok, >>=-eq-ok, reject_if, type_error,
}
use fgraph.Fact.{RawFact, visible, ends_after}
use fgraph.Diff.Run.{ok-injective}
use fgraph.Temporal.{asserted_in, retracted_in, end_of, range_facts, diff}

-- the constraint of fgraph_facts: a row ends after it starts
abbrev pub EndsLater : RawFact → Type 0
EndsLater f = (rx : ℕ) → f.rx ≡ some rx → f.tx < rx

-- a row is visible at the end of a range if it was at the start or was asserted in it, and was not
-- retracted in it
visible-range :
    (from to : ℕ) (f : RawFact)
    → from ≤ to
    → EndsLater f
    → visible (some to) f
      ≡ ((visible (some from) f || asserted_in from to f) && not (retracted_in from to f))
unfolding visible asserted_in retracted_in ends_after
visible-range from to f h later = elim (Option-cases f.rx) [
  | inl e ↦ ground (arith, e)
  | inr (rx, e) ↦ ground (arith, e, later rx e)
]

-- a row is in a sorted selection if it passes the test
In-selected :
    (test : RawFact → Bool) (key : RawFact → ℕ) (facts : List RawFact) (f : RawFact)
    → In f facts
    → In f (sort_by key (sort_by (λ r. r.id) (keep test facts))) ↔ (test f ≡ true)
In-selected test key facts f m = (
  λ n.
      (In-keep test f facts (
        sort_by-In (λ r. r.id) f (keep test facts)
          (sort_by-In key f (sort_by (λ r. r.id) (keep test facts)) n))).1,
  λ t.
      In-sort_by key f (sort_by (λ r. r.id) (keep test facts))
        (In-sort_by (λ r. r.id) f (keep test facts) (In-keep_of test f facts m t)),
)

in_order : (from to : ℕ) → reject_if (ltb to from) type_error ≡ ok tt → from ≤ to
in_order from to h = ground arith

-- one step of the Boolean equation of a range, as a statement
range-logic :
    (before asserted retracted after : Bool)
    → after ≡ ((before || asserted) && not retracted)
    → {A R : Type 0} → A ↔ (asserted ≡ true)
    → R ↔ (retracted ≡ true)
    → (after ≡ true) ↔ (((before ≡ true) ⊎ A) × ¬ R)
range-logic true a true after e x y = (λ h. cc, λ h. absurd (h.1 (y.1 refl)))
range-logic false a true after e x y = (λ h. ground (arith, h, e), λ h. absurd (h.1 (y.1 refl)))
range-logic true a false after e x y = (λ h. (inl refl, λ r. cc (y.0 r)), λ h. e)
range-logic false true false after e x y = (λ h. (inr (x.1 refl), λ r. cc (y.0 r)), λ h. e)
range-logic false false false after e x y =
    (λ h. cc, λ h. elim h.0 [ inl p ↦ cc | inr a ↦ cc (x.0 a) ])

-- a row is asserted in a range when it is first seen after one of the transactions of the range
asserted-first :
    (from to : ℕ) (f : RawFact)
    → EndsLater f
    → (asserted_in from to f ≡ true) ↔ (
        (s : ℕ) × (from ≤ s)
        × (s < to)
        × (visible (some s) f ≡ false)
        × (visible (some (s + 1)) f ≡ true))
unfolding visible asserted_in ends_after
asserted-first from to f later = (to_first, of_first)
  where
    to_first :
        asserted_in from to f ≡ true
        → (s : ℕ) × (from ≤ s)
          × (s < to)
          × (visible (some s) f ≡ false)
          × (visible (some (s + 1)) f ≡ true)
    to_first h = elim (Option-cases f.rx) [
      | inl e ↦ (f.tx - 1, ground arith, ground arith, ground (arith, e), ground (arith, e))
      | inr (rx, e) ↦
          (f.tx - 1, ground arith, ground arith, ground (arith, e), ground (arith, e, later rx e))
    ]

    of_first :
        ((s : ℕ) × (from ≤ s)
          × (s < to)
          × (visible (some s) f ≡ false)
          × (visible (some (s + 1)) f ≡ true))
        → asserted_in from to f ≡ true
    of_first (s, low, high, before, after) = elim (Option-cases f.rx) [
      | inl e ↦ ground (arith, e)
      | inr (rx, e) ↦ ground (arith, e, later rx e)
    ]

retracted-last :
    (from to : ℕ) (f : RawFact)
    → EndsLater f
    → (retracted_in from to f ≡ true) ↔ (
        (s : ℕ) × (from ≤ s)
        × (s < to)
        × (visible (some s) f ≡ true)
        × (visible (some (s + 1)) f ≡ false))
unfolding visible retracted_in ends_after
retracted-last from to f later = (to_last, of_last)
  where
    to_last :
        retracted_in from to f ≡ true
        → (s : ℕ) × (from ≤ s)
          × (s < to)
          × (visible (some s) f ≡ true)
          × (visible (some (s + 1)) f ≡ false)
    to_last h = elim (Option-cases f.rx) [
      | inl e ↦ absurd (ground (arith, e))
      | inr (rx, e) ↦ (
        rx - 1,
        ground (arith, e),
        ground (arith, e),
        ground (arith, e, later rx e),
        ground (arith, e),
      )
    ]

    of_last :
        ((s : ℕ) × (from ≤ s)
          × (s < to)
          × (visible (some s) f ≡ true)
          × (visible (some (s + 1)) f ≡ false))
        → retracted_in from to f ≡ true
    of_last (s, low, high, before, after) = elim (Option-cases f.rx) [
      | inl e ↦ ground (arith, e)
      | inr (rx, e) ↦ ground (arith, e, later rx e)
    ]

chain_iff : {A B C : Type 0} → A ↔ B → B ↔ C → A ↔ C
chain_iff h k = (λ a. k.0 (h.0 a), λ c. h.1 (k.1 c))

selected-In :
    (test : RawFact → Bool) (key : RawFact → ℕ) (facts : List RawFact) (f : RawFact)
    → In f (sort_by key (sort_by (λ r. r.id) (keep test facts)))
    → In f facts
selected-In test key facts f m =
    (In-keep test f facts (
      sort_by-In (λ r. r.id) f (keep test facts)
        (sort_by-In key f (sort_by (λ r. r.id) (keep test facts)) m))).0

-- a row is stored and visible at one of two neighbouring transactions of a range, not at the other
abbrev pub Turns : List RawFact → ℕ → ℕ → RawFact → Bool → Bool → Type 0
Turns facts from to f before after =
    In f facts
    × ((s : ℕ) × (from ≤ s)
        × (s < to)
        × (visible (some s) f ≡ before)
        × (visible (some (s + 1)) f ≡ after))

-- what two lists of rows tell of a row in the views between two transactions
abbrev pub Tells : List RawFact → ℕ → ℕ → RawFact → List RawFact × List RawFact → Type 0
Tells facts from to f told =
    (In f told.0 ↔ Turns facts from to f false true)
    × (In f told.1 ↔ Turns facts from to f true false)
    × ((In f facts × (visible (some to) f ≡ true))
        ↔ (((In f facts × (visible (some from) f ≡ true)) ⊎ In f told.0) × ¬ In f told.1))

-- from the statements on stored rows to those on all rows
stored_iff : {I S V : Type 0} → (I → S) → (S → I ↔ V) → I ↔ (S × V)
stored_iff sel h = (λ i. (sel i, (h (sel i)).0 i), λ p. (h p.0).1 p.1)

stored_range :
    {S W V I R : Type 0} → (I → S) → (S → V ↔ ((W ⊎ I) × ¬ R)) → (S × V) ↔ (((S × W) ⊎ I) × ¬ R)
stored_range sel h = (
  λ (s, v). let (wi, n) = (h s).0 v in (elim wi [ inl w ↦ inl (s, w) | inr i ↦ inr i ], n),
  λ (wi, n). elim wi [
    | inl (s, w) ↦ (s, (h s).1 (inl w, n))
    | inr i ↦ (sel i, (h (sel i)).1 (inr i, n))
  ],
)

-- `Diff` from the present, where it returns, pins the change of every row that ends after it starts,
-- if at all: a row is among the asserted ones just when it is stored and first seen after some
-- transaction of the range, among the retracted ones just when it is stored and last seen before
-- some transaction of the range, and stored and visible at the end just when it is stored and
-- visible at the start or asserted, and not retracted.
pub diff-visible :
    (facts : List RawFact) (from to : ℕ) {asserted retracted : List RawFact}
    → diff facts none from to ≡ ok (asserted, retracted)
    → (f : RawFact) → EndsLater f
    → Tells facts from to f (asserted, retracted)
unfolding diff range_facts
diff-visible facts from to h f later =
    let (_, ordered, k) = >>=-eq-ok (reject_if (ltb to from) type_error) _ h in
    let a = In-selected (asserted_in from to) (λ r. r.tx) facts f in
    let x = In-selected (retracted_in from to) end_of facts f in
    let sel = selected-In (asserted_in from to) (λ r. r.tx) facts f in
    subst (Tells facts from to f) (ok-injective k) (
      stored_iff sel (λ m. chain_iff (a m) (asserted-first from to f later)),
      stored_iff (selected-In (retracted_in from to) end_of facts f)
          (λ m. chain_iff (x m) (retracted-last from to f later)),
      stored_range sel (λ m.
          range-logic (visible (some from) f) (asserted_in from to f) (retracted_in from to f)
            (visible (some to) f) (visible-range from to f (in_order from to ordered) later) (a m)
            (x m)),
    )
