-- ===== src/Diff/Slots.antt =====
-- What holds between the entries of the map of `diffPlan`, and so between the facts that are live
-- after its delta is written: one entry to a key, one to the slot of a cardinality-one attribute,
-- and one owner to a unique value that is new.
use fgraph.Base.{
  ℕ, ◌≡◌, ◌≢◌, ◌⊎◌, inl, inr, refl, sym, ap, ◌∙◌, Bool, true, false, ◌&&◌, List, [], ◌∷◌, ◌++◌,
  arith, ◌==◌, keep, any, In, In-keep, In-append, any_of_In, Bool-cases,
}
use fgraph.Value.{stored_equal}
use fgraph.Value.Equality.{stored_equal_sym}
use fgraph.Fact.{RawFact}
use fgraph.Plan.{PlannedFact}
use fgraph.Schema.{AttributeSchema}
use fgraph.Diff.{
  WorkingFact, FactKey, fact_key, key_of, from_raw, from_planned, same_slot, owned_elsewhere,
}
use fgraph.Diff.Keeps.{IsPlaced, absent-ne}

-- The relation holds between any two entries.
abbrev pub Pairs : (WorkingFact → WorkingFact → Type 0) → List WorkingFact → Type 0
Pairs R ws = (v w : WorkingFact) → In v ws → In w ws → R v w

pub Pairs-keep :
    (R : WorkingFact → WorkingFact → Type 0) (p : WorkingFact → Bool) (ws : List WorkingFact)
    → Pairs R ws
    → Pairs R (keep p ws)
Pairs-keep R p ws h v w m n = h v w (In-keep p v ws m).0 (In-keep p w ws n).0

pub Pairs-append :
    (R : WorkingFact → WorkingFact → Type 0) (ws : List WorkingFact) (x : WorkingFact)
    → Pairs R ws
    → R x x
    → ((v : WorkingFact) → In v ws → R v x × R x v)
    → Pairs R (ws ++ x ∷ [])
Pairs-append R ws x h self both v w m n = go (In-append v ws _ m) (In-append w ws _ n)
  where
    at_x : (y : WorkingFact) → In y (x ∷ []) → y ≡ x
    at_x y (inl e) = e
    at_x y (inr k) = absurd k.lower

    go : In v ws ⊎ In v (x ∷ []) → In w ws ⊎ In w (x ∷ []) → R v w
    go (inl a) (inl b) = h v w a b
    go (inl a) (inr b) = rw (at_x w b) (both v a).0
    go (inr a) (inl b) = rw (at_x v a) (both w b).1
    go (inr a) (inr b) = rw (at_x v a, at_x w b) self

-- one entry to a key: what the unique index on (e, a, v, t) asks of the live rows
abbrev pub OneKey : WorkingFact → WorkingFact → Type 0
OneKey v w = key_of v ≡ key_of w → v ≡ w

pub OneKey-placed :
    (current : List RawFact) (schema : AttributeSchema) (f : PlannedFact) (ws : List WorkingFact)
    (w : WorkingFact)
    → IsPlaced current schema f ws w
    → Pairs OneKey ws
    → Pairs OneKey (ws ++ w ∷ [])
OneKey-placed current schema f ws w p h =
    Pairs-append OneKey ws w h (λ _. refl)
      (λ v m. (
        λ e. absurd (absent-ne ws v _ p.absent m (e ∙ p.key)),
        λ e. absurd (absent-ne ws v _ p.absent m (sym e ∙ p.key)),
      ))

-- one entry to an entity, at an attribute
abbrev pub OneValue : ℕ → WorkingFact → WorkingFact → Type 0
OneValue attr v w = v.a ≡ attr → w.a ≡ attr → v.e ≡ w.e → v ≡ w

slot-ne :
    (f : PlannedFact) (ws : List WorkingFact) (v : WorkingFact)
    → any (same_slot f) ws ≡ false
    → In v ws
    → v.e ≡ f.e
    → v.a ≡ f.a
    → ⊥
unfolding same_slot
slot-ne f ws v h m e a = let hit = any_of_In (same_slot f) v ws m (ground arith) in cc

pub OneValue-placed :
    (attr : ℕ) (current : List RawFact) (schema : AttributeSchema) (f : PlannedFact)
    (ws : List WorkingFact) (w : WorkingFact)
    → (f.a ≡ attr → schema.many ≡ false)
    → IsPlaced current schema f ws w
    → Pairs (OneValue attr) ws
    → Pairs (OneValue attr) (ws ++ w ∷ [])
OneValue-placed attr current schema f ws w one p h =
    Pairs-append (OneValue attr) ws w h (λ _ _ _. refl)
      (λ v m. (λ va wa e. absurd (clash v m va wa e), λ wa va e. absurd (clash v m va wa (sym e))))
  where
    clash : (v : WorkingFact) → In v ws → v.a ≡ attr → w.a ≡ attr → v.e ≡ w.e → ⊥
    clash v m va wa e =
        let we : w.e ≡ f.e = ap (λ (k : FactKey). k.e) p.key in
        let wf : w.a ≡ f.a = ap (λ (k : FactKey). k.a) p.key in
        slot-ne f ws v (p.slot_free (one (sym wf ∙ wa))) m (e ∙ we) (va ∙ sym wa ∙ wf)

-- one owner to a value, at an attribute
abbrev pub OneOwner : ℕ → WorkingFact → WorkingFact → Type 0
OneOwner attr v w = v.a ≡ attr → w.a ≡ attr → stored_equal v.value w.value ≡ true → v.e ≡ w.e

owner_elsewhere :
    (f : PlannedFact) (ws : List WorkingFact) (v : WorkingFact)
    → any (owned_elsewhere f) ws ≡ false
    → In v ws
    → v.a ≡ f.a
    → stored_equal v.value f.value ≡ true
    → v.e ≡ f.e
unfolding owned_elsewhere
owner_elsewhere f ws v h m a same = elim (Bool-cases (v.e == f.e)) [
  | inl here ↦ ground arith
  | inr there ↦ let hit = any_of_In (owned_elsewhere f) v ws m (ground arith) in absurd (cc)
]

-- No row that was read holds the assertion's value at the attribute.
abbrev pub IsNewValue : ℕ → List RawFact → PlannedFact → Type 0
IsNewValue attr current f =
    f.a ≡ attr → (r : RawFact) → In r current → key_of (from_raw r) ≢ fact_key f.e f.a f.value

pub OneOwner-placed :
    (attr : ℕ) (current : List RawFact) (schema : AttributeSchema) (f : PlannedFact)
    (ws : List WorkingFact) (w : WorkingFact)
    → (f.a ≡ attr → schema.unique ≡ true)
    → IsNewValue attr current f
    → IsPlaced current schema f ws w
    → Pairs (OneOwner attr) ws
    → Pairs (OneOwner attr) (ws ++ w ∷ [])
OneOwner-placed attr current schema f ws w unique new p h =
    Pairs-append (OneOwner attr) ws w h (λ _ _ _. refl)
      (λ v m. (
        λ va wa same. same_owner v m va wa same p.source,
        λ wa va same. sym (same_owner v m va wa (stored_equal_sym w.value v.value same) p.source),
      ))
  where
    wf : w.a ≡ f.a
    wf = ap (λ (k : FactKey). k.a) p.key

    same_owner :
        (v : WorkingFact)
        → In v ws
        → v.a ≡ attr
        → w.a ≡ attr
        → stored_equal v.value w.value ≡ true
        → ((w ≡ from_planned f) × (schema.unique && any (owned_elsewhere f) ws ≡ false))
          ⊎ ((r : RawFact) × In r current × (w ≡ from_raw r))
        → v.e ≡ w.e
    same_owner v m va wa same (inl (e, free)) =
        let fa = sym wf ∙ wa in
        let value : w.value ≡ f.value =
          unfold from_planned in ap (λ (x : WorkingFact). x.value) e in
        owner_elsewhere f ws v (ground (arith, unique fa)) m (va ∙ sym fa) (rw value at same)
        ∙ sym (ap (λ (k : FactKey). k.e) p.key)
    same_owner v m va wa same (inr (r, n, e)) =
        absurd (new (sym wf ∙ wa) r n (ap key_of (sym e) ∙ p.key))
