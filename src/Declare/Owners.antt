-- ===== src/Declare/Owners.antt =====
-- The owners of a unique attribute's values in `validateFinalAttribute` (go/transact.go).
use fgraph.Base.{
  ℕ, ◌≡◌, ◌⊎◌, inl, inr, refl, sym, ap, subst, ◌∙◌, Bool, true, false, not, ◌&&◌, ◌||◌, List, [],
  ◌∷◌, Option, some, arith, ◌==◌, if◌then◌else◌, In, Bool-cases, ok, >>=-eq-ok, reject_if,
  schema_error,
}
use text.Mathlib.Text.{◌==◌ as str_eq}
use fgraph.Value.{ℤ, StoredValue}
use fgraph.Value.Equality.{tag_eq-eq, tag_eq_refl, storage_key_eq-eq, storage_key_eq_refl}
use fgraph.Fact.{RawFact}
use fgraph.Schema.{AttributeSchema}
use fgraph.Plan.{PlannedFact, RetractRequest}
use fgraph.Diff.Run.{ok-injective}
use fgraph.Declare.{
  SchemaValidationFact, same_key, find_owner, check_owner, check_count, check_value, check_values,
  blame, tag_compatible, has_scalar_type, final_values, validate_final_attribute,
}

-- two values with the key of a third have one key
same_key_join :
    (v w x : StoredValue) → same_key v x ≡ true → same_key w x ≡ true → same_key v w ≡ true
unfolding same_key
same_key_join v w x h k = ground (
  arith,
  tag_eq-eq v.tag x.tag,
  tag_eq-eq w.tag x.tag,
  storage_key_eq-eq v.storage x.storage,
  storage_key_eq-eq w.storage x.storage,
  tag_eq_refl x.tag,
  storage_key_eq_refl x.storage,
)

same_key_sym : (v w : StoredValue) → same_key v w ≡ true → same_key w v ≡ true
unfolding same_key
same_key_sym v w h = ground (
  arith,
  tag_eq-eq v.tag w.tag,
  storage_key_eq-eq v.storage w.storage,
  tag_eq_refl v.tag,
  storage_key_eq_refl v.storage,
)

-- a fact with the key is found as its owner
find_owner-In :
    (checked : List SchemaValidationFact) (v : SchemaValidationFact) (value : StoredValue)
    → In v checked
    → same_key v.value value ≡ true
    → (o : SchemaValidationFact) × (find_owner checked value ≡ some o)
      × In o checked
      × (same_key o.value value ≡ true)
unfolding find_owner
find_owner-In [] v value m s = absurd m.lower
find_owner-In (w ∷ checked) v value m s = elim (Bool-cases (same_key w.value value)) [
  | inl hit ↦ (w, rw hit refl, inl refl, hit)
  | inr missed ↦ elim m [
    | inl e ↦ cc (ap (λ (x : SchemaValidationFact). same_key x.value value) e, s, missed)
    | inr n ↦
        let (o, found, at, key) = find_owner-In checked v value n s in
        (o, rw missed found, inr at, key)
  ]
]

-- one owner to each key
abbrev HasOwners : List SchemaValidationFact → Type 0
HasOwners facts =
    (v w : SchemaValidationFact)
    → In v facts
    → In w facts
    → same_key v.value w.value ≡ true
    → v.e ≡ w.e

blame_fails : (planned : Bool) → blame planned ≡ ok tt → ⊥
blame_fails true h = cc
blame_fails false h = cc

check_owner_same :
    (owner fact : SchemaValidationFact) → check_owner (some owner) fact ≡ ok tt → owner.e ≡ fact.e
unfolding check_owner
check_owner_same owner fact h = elim (Bool-cases (owner.e == fact.e)) [
  | inl same ↦ ground arith
  | inr other ↦ absurd (blame_fails (owner.planned || fact.planned) (rw other at h))
]

-- a value that passes belongs to the owner of its key
check_value-owner :
    (dims_of : StoredValue → Option ℤ) (schema : AttributeSchema)
    (checked : List SchemaValidationFact) (fact v : SchemaValidationFact)
    → schema.unique ≡ true
    → HasOwners checked
    → check_value dims_of schema checked fact ≡ ok tt
    → In v checked
    → same_key v.value fact.value ≡ true
    → v.e ≡ fact.e
unfolding check_value
check_value-owner dims_of schema checked fact v u owners h m s =
    let (_, _, h1) =
      >>=-eq-ok
        (reject_if
          (not (str_eq schema.type_name "") && not (tag_compatible schema.type_name fact.value.tag))
          schema_error)
        _ h in
    let (_, _, h2) = >>=-eq-ok (check_count schema (fact ∷ checked) fact.e) _ h1 in
    let (_, k, _) =
      >>=-eq-ok (if schema.unique then check_owner (find_owner checked fact.value) fact else ok tt)
        _ h2 in
    let (o, found, at, key) = find_owner-In checked v fact.value m s in
    owners v o m at (same_key_join v.value o.value fact.value s key)
    ∙ check_owner_same o fact (rw (u, found) at k)

HasOwners-cons :
    (dims_of : StoredValue → Option ℤ) (schema : AttributeSchema)
    (checked : List SchemaValidationFact) (fact : SchemaValidationFact)
    → schema.unique ≡ true
    → HasOwners checked
    → check_value dims_of schema checked fact ≡ ok tt
    → HasOwners (fact ∷ checked)
HasOwners-cons dims_of schema checked fact u owners h v w (inl p) (inl q) s =
    ap (λ (x : SchemaValidationFact). x.e) (p ∙ sym q)
HasOwners-cons dims_of schema checked fact u owners h v w (inl p) (inr n) s =
    let key = same_key_sym v.value w.value s in
    ap (λ (x : SchemaValidationFact). x.e) p
    ∙ sym (
        check_value-owner dims_of schema checked fact w u owners h n
          (subst (λ (x : SchemaValidationFact). same_key w.value x.value ≡ true) p key))
HasOwners-cons dims_of schema checked fact u owners h v w (inr m) (inl q) s =
    check_value-owner dims_of schema checked fact v u owners h m
      (subst (λ (x : SchemaValidationFact). same_key v.value x.value ≡ true) q s)
    ∙ ap (λ (x : SchemaValidationFact). x.e) (sym q)
HasOwners-cons dims_of schema checked fact u owners h v w (inr m) (inr n) s = owners v w m n s

check_values-owner :
    (dims_of : StoredValue → Option ℤ) (schema : AttributeSchema)
    (checked rest : List SchemaValidationFact)
    → schema.unique ≡ true
    → HasOwners checked
    → check_values dims_of schema checked rest ≡ ok tt
    → (v w : SchemaValidationFact) → In v checked ⊎ In v rest
    → In w checked ⊎ In w rest
    → same_key v.value w.value ≡ true
    → v.e ≡ w.e
unfolding check_values
check_values-owner dims_of schema checked [] u owners h v w m n s =
    owners v w (only v m) (only w n) s
  where
    only : (x : SchemaValidationFact) → In x checked ⊎ In x [] → In x checked
    only x (inl m) = m
    only x (inr n) = absurd n.lower
check_values-owner dims_of schema checked (fact ∷ rest) u owners h v w m n s =
    let (_, first, k) = >>=-eq-ok (check_value dims_of schema checked fact) _ h in
    check_values-owner dims_of schema (fact ∷ checked) rest u
      (HasOwners-cons dims_of schema checked fact u owners first) k v w (pass v m) (pass w n) s
  where
    pass :
        (x : SchemaValidationFact)
        → In x checked ⊎ In x (fact ∷ rest)
        → In x (fact ∷ checked) ⊎ In x rest
    pass x (inl m) = inl (inr m)
    pass x (inr (inl e)) = inl (inl e)
    pass x (inr (inr n)) = inr n

-- At a unique attribute whose declaration passes, two of the final live values with the same tag and
-- the same stored value belong to one entity.
pub validate_final_attribute-owner :
    (dims_of : StoredValue → Option ℤ) (schema : AttributeSchema) (facts : List RawFact)
    (retracts : List RetractRequest) (assertions : List PlannedFact) (attr : ℕ)
    {values : List SchemaValidationFact}
    → validate_final_attribute dims_of schema facts retracts assertions attr ≡ ok tt
    → schema.unique ≡ true
    → final_values schema facts retracts assertions attr ≡ ok values
    → (v w : SchemaValidationFact) → In v values
    → In w values
    → same_key v.value w.value ≡ true
    → v.e ≡ w.e
unfolding validate_final_attribute
validate_final_attribute-owner dims_of schema facts retracts assertions attr h u f v w m n s =
    let (_, _, h1) =
      >>=-eq-ok (reject_if (schema.unique && not (has_scalar_type schema)) schema_error) _ h in
    let (found, g, h2) = >>=-eq-ok (final_values schema facts retracts assertions attr) _ h1 in
    let same = ok-injective (sym f ∙ g) in
    check_values-owner dims_of schema [] found u (λ _ _ none_in _ _. absurd none_in.lower) h2 v w
      (inr (subst (In v) same m)) (inr (subst (In w) same n)) s
