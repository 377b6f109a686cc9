-- ===== src/Base/Sort.antt =====
-- Go's `sort.SliceStable` by a number, and lists in which a number names an entry.
use Prim.Native.Nat.{ℕ, suc}
use mathlib.Core.Path.{◌≡◌, refl, ap, ◌∙◌, sym}
use mathlib.Core.Logic.{inl, inr}
use mathlib.Core.Bool.{Bool, true, ◌&&◌, not}
use mathlib.Core.List.{List, [], ◌∷◌}
use native.Mathlib.Omega.{arith}
use fgraph.Base.Tests.{leb, ◌==◌, if◌then◌else◌, Bool-cases}
use fgraph.Base.Lists.{length, any}
use fgraph.Base.Member.{In, any_of_In}

module _ {ℓ} {A : Type ℓ} (key : A → ℕ) where
  -- before the first entry whose key is not smaller: later equal keys stay behind
  unfoldable pub insert_by : A → List A → List A
  insert_by x [] = x ∷ []
  insert_by x (y ∷ ys) =
      let rest = insert_by x ys in if leb (key x) (key y) then x ∷ y ∷ ys else y ∷ rest

  unfoldable pub sort_by : List A → List A
  unfolding insert_by
  sort_by [] = []
  sort_by (x ∷ xs) = insert_by x (sort_by xs)

  In-insert_by : (a x : A) (xs : List A) → In a (x ∷ xs) → In a (insert_by x xs)
  unfolding insert_by
  In-insert_by a x [] h = h
  In-insert_by a x (y ∷ ys) h = elim (Bool-cases (leb (key x) (key y))) [
    | inl le ↦ rw le h
    | inr gt ↦ rw gt (later h (In-insert_by a x ys))
  ]
    where
      later :
          In a (x ∷ y ∷ ys) → (In a (x ∷ ys) → In a (insert_by x ys)) → In a (y ∷ insert_by x ys)
      later (inl e) ih = inr (ih (inl e))
      later (inr (inl e)) ih = inl e
      later (inr (inr m)) ih = inr (ih (inr m))

  insert_by-In : (a x : A) (xs : List A) → In a (insert_by x xs) → In a (x ∷ xs)
  unfolding insert_by
  insert_by-In a x [] h = h
  insert_by-In a x (y ∷ ys) h = elim (Bool-cases (leb (key x) (key y))) [
    | inl le ↦ rw le at h
    | inr gt ↦ later (rw gt at h) (insert_by-In a x ys)
  ]
    where
      later :
          In a (y ∷ insert_by x ys) → (In a (insert_by x ys) → In a (x ∷ ys)) → In a (x ∷ y ∷ ys)
      later (inl e) ih = inr (inl e)
      later (inr m) ih = elim (ih m) [ inl e ↦ inl e | inr k ↦ inr (inr k) ]

  pub In-sort_by : (a : A) (xs : List A) → In a xs → In a (sort_by xs)
  unfolding sort_by
  In-sort_by a [] h = h
  In-sort_by a (x ∷ xs) (inl e) = In-insert_by a x (sort_by xs) (inl e)
  In-sort_by a (x ∷ xs) (inr h) = In-insert_by a x (sort_by xs) (inr (In-sort_by a xs h))

  pub sort_by-In : (a : A) (xs : List A) → In a (sort_by xs) → In a xs
  unfolding sort_by
  sort_by-In a [] h = h
  sort_by-In a (x ∷ xs) h = elim (insert_by-In a x (sort_by xs) h) [
    | inl e ↦ inl e
    | inr m ↦ inr (sort_by-In a xs m)
  ]

  length-insert_by : (x : A) (xs : List A) → length (insert_by x xs) ≡ suc (length xs)
  unfolding insert_by
  length-insert_by x [] = refl
  length-insert_by x (y ∷ ys) = ground (arith, length-insert_by x ys)

  pub length-sort_by : (xs : List A) → length (sort_by xs) ≡ length xs
  unfolding sort_by
  length-sort_by [] = refl
  length-sort_by (x ∷ xs) = length-insert_by x (sort_by xs) ∙ ap suc (length-sort_by xs)

  -- No two entries have one key.
  abbrev pub distinct : List A → Bool
  distinct [] = true
  distinct (x ∷ xs) = not (any (λ y. key y == key x) xs) && distinct xs

  clash : (x b : A) (xs : List A) → distinct (x ∷ xs) ≡ true → In b xs → key x ≡ key b → ⊥
  clash x b xs h n e =
      let hit : any (λ y. key y == key x) xs ≡ true =
        any_of_In (λ y. key y == key x) b xs n (ground arith) in
      ground arith

  pub distinct-eq :
      (a b : A) (xs : List A) → distinct xs ≡ true → In a xs → In b xs → key a ≡ key b → a ≡ b
  distinct-eq a b [] h m n e = absurd m.lower
  distinct-eq a b (x ∷ xs) h (inl p) (inl q) e = p ∙ sym q
  distinct-eq a b (x ∷ xs) h (inl p) (inr n) e = absurd (clash x b xs h n (ap key (sym p) ∙ e))
  distinct-eq a b (x ∷ xs) h (inr m) (inl q) e = absurd (clash x a xs h m (ap key (sym q) ∙ sym e))
  distinct-eq a b (x ∷ xs) h (inr m) (inr n) e = distinct-eq a b xs (ground arith) m n e
