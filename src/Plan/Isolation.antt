-- ===== src/Plan/Isolation.antt =====
-- The targets of compare-and-swaps in a plan that passes `validateCASIsolation` (go/transact.go).
use fgraph.Base.{
  ℕ, ◌≡◌, ◌⊎◌, inl, inr, true, false, not, ◌&&◌, List, none, some, arith, ◌==◌, ==_refl, keep, any,
  In, In-append-left, In-append-right, In-keep_of, In-map, any_of_In, ok,
}
use fgraph.Plan.{
  PlannedFact, RetractRequest, TransactionPlan, cas_keys, has_target, retract_breaks_cas,
  validate_cas_isolation,
}

-- A compare-and-swap of the plan owns the attribute of the entity.
abbrev pub Owns : TransactionPlan → ℕ → ℕ → Type 0
Owns plan e a =
    In (e, a) plan.cas_targets
    ⊎ ((g : PlannedFact) × In g plan.assertions × (g.cas ≡ true) × (g.e ≡ e) × (g.a ≡ a))

-- A retraction is of the attribute of the entity, or of the whole entity.
abbrev pub Retracts : RetractRequest → ℕ → ℕ → Type 0
Retracts request e a = (request.e ≡ e) × ((request.a ≡ none) ⊎ (request.a ≡ some a))

Owns-In : (plan : TransactionPlan) (e a : ℕ) → Owns plan e a → In (e, a) (cas_keys plan)
unfolding cas_keys
Owns-In plan e a (inl m) = In-append-left (e, a) plan.cas_targets _ m
Owns-In plan e a (inr (g, m, c, p, q)) =
    let k =
      In-map (λ (f : PlannedFact). (f.e, f.a)) g (keep (λ f. f.cas) plan.assertions)
        (In-keep_of (λ f. f.cas) g plan.assertions m c) in
    In-append-right (e, a) plan.cas_targets _ (rw (← p, ← q) k)

has_target_of : (keys : List (ℕ × ℕ)) (e a : ℕ) → In (e, a) keys → has_target keys e a ≡ true
has_target_of keys e a m =
    any_of_In (λ key. key.0 == e && key.1 == a) (e, a) keys m (rw (==_refl e) (==_refl a))

passed :
    (plan : TransactionPlan)
    → validate_cas_isolation plan ≡ ok tt
    → (any (λ f. not f.cas && has_target (cas_keys plan) f.e f.a) plan.assertions ≡ false)
      × (any (retract_breaks_cas (cas_keys plan)) plan.retracts ≡ false)
unfolding validate_cas_isolation
passed plan h = ground arith

-- In a plan that passes, an assertion that belongs to no compare-and-swap is at an attribute of an
-- entity that no compare-and-swap owns.
pub isolated-assertion :
    (plan : TransactionPlan) (f : PlannedFact)
    → validate_cas_isolation plan ≡ ok tt
    → In f plan.assertions
    → f.cas ≡ false
    → ¬ Owns plan f.e f.a
isolated-assertion plan f h m c owned =
    let target = has_target_of (cas_keys plan) f.e f.a (Owns-In plan f.e f.a owned) in
    let hit =
      any_of_In (λ g. not g.cas && has_target (cas_keys plan) g.e g.a) f plan.assertions m
        (rw (c, target)) in
    cc (hit, (passed plan h).0)
