-- ===== src/Query/Patterns/Batch/Chunks.antt =====
-- The entities of a batch (`entities` of `evalBoundEntityBatch`, go/query.go) and its parts of 400.
use Prim.Native.String.{String}
use fgraph.Base.{
  ℕ, zero, suc, true, List, [], ◌∷◌, Option, none, some, ◌≡◌, refl, ◌∙◌, arith, ◌≤◌, length, take,
  drop, In, inl, inr, ◌⊎◌, Bool-cases,
}
use fgraph.Value.{ℤ, int_eq}
use fgraph.Value.Equality.{int_eq-eq}
use fgraph.Temporal.{int_le}
use fgraph.Query.Values.{Binding}
use fgraph.Query.Patterns.{entity_of, insert_entity, entities_of, chunks}

In-take_drop : (n : ℕ) (x : ℤ) (xs : List ℤ) → In x xs → In x (take n xs) ⊎ In x (drop n xs)
In-take_drop zero x xs m = inr m
In-take_drop (suc n) x [] m = inl m
In-take_drop (suc n) x (y ∷ ys) (inl e) = inl (inl e)
In-take_drop (suc n) x (y ∷ ys) (inr m) = elim (In-take_drop n x ys m) [
  | inl k ↦ inl (inr k)
  | inr k ↦ inr k
]

length-drop_le : (n : ℕ) (xs : List ℤ) → length (drop n xs) ≤ length xs
length-drop_le zero xs = omega arith
length-drop_le (suc n) [] = omega arith
length-drop_le (suc n) (x ∷ xs) = omega (arith, length-drop_le n xs)

-- each entity is in one of the parts
pub chunks-cover :
    (n : ℕ) (xs : List ℤ) (x : ℤ)
    → length xs ≤ n
    → In x xs
    → (chunk : List ℤ) × In chunk (chunks n xs) × In x chunk
unfolding chunks
chunks-cover n [] x h m = absurd m.lower
chunks-cover zero (y ∷ ys) x h m = absurd (omega arith)
chunks-cover (suc n) (y ∷ ys) x h m = elim (In-take_drop 400 x (y ∷ ys) m) [
  | inl k ↦ (take 400 (y ∷ ys), inl refl, k)
  | inr k ↦
      let (chunk, i, j) =
        chunks-cover n (drop 400 (y ∷ ys)) x (omega (arith, length-drop_le 399 ys)) k in
      (chunk, inr i, j)
]

insert_entity-In : (x id : ℤ) (xs : List ℤ) → In x (id ∷ xs) → In x (insert_entity id xs)
unfolding insert_entity
insert_entity-In x id [] m = m
insert_entity-In x id (y ∷ ys) m = elim (Bool-cases (int_eq id y)) [
  | inl same ↦ rw same (equal same m)
  | inr apart ↦ elim (Bool-cases (int_le id y)) [
    | inl before ↦ rw (apart, before) m
    | inr behind ↦ rw (apart, behind) (later m (insert_entity-In x id ys))
  ]
]
  where
    equal : int_eq id y ≡ true → In x (id ∷ y ∷ ys) → In x (y ∷ ys)
    equal same (inl e) = inl (e ∙ int_eq-eq id y same)
    equal same (inr k) = k

    later :
        In x (id ∷ y ∷ ys)
        → (In x (id ∷ ys) → In x (insert_entity id ys))
        → In x (y ∷ insert_entity id ys)
    later (inl e) ih = inr (ih (inl e))
    later (inr (inl e)) ih = inl e
    later (inr (inr k)) ih = inr (ih (inr k))

-- each binding's entity is among the entities
pub entities_of-In :
    (name : String) (input : List Binding) (values : Binding) (id : ℤ)
    → In values input
    → entity_of name values ≡ some id
    → In id (entities_of name input)
unfolding entities_of
entities_of-In name [] values id m h = absurd m.lower
entities_of-In name (x ∷ xs) values id (inl e) h =
    rw (entities_of, ← e, h) (insert_entity-In id id (entities_of name xs) (inl refl))
entities_of-In name (x ∷ xs) values id (inr m) h =
    later (entity_of name x) refl (entities_of-In name xs values id m h)
  where
    later :
        (known : Option ℤ)
        → entity_of name x ≡ known
        → In id (entities_of name xs)
        → In id (entities_of name (x ∷ xs))
    later none eq k = rw (entities_of, eq) k
    later (some other) eq k =
        rw (entities_of, eq) (insert_entity-In id other (entities_of name xs) (inr k))
