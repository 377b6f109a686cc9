-- ===== src/Base/Member.antt =====
-- Membership by recursion on the list, which case splits open.
use mathlib.Core.Path.{◌≡◌, refl}
use mathlib.Core.Logic.{◌⊎◌, inl, inr, Lift}
use mathlib.Core.Bool.{Bool, true}
use mathlib.Core.List.{List, [], ◌∷◌, ◌++◌, map}
use native.Mathlib.Omega.{arith}
use fgraph.Base.Tests.{Bool-cases}
use fgraph.Base.Lists.{keep, any, all}

module _ {ℓ} {A : Type ℓ} where
  abbrev pub In : A → List A → Type ℓ
  In a [] = Lift {0, ℓ} ⊥
  In a (x ∷ xs) = (a ≡ x) ⊎ In a xs

  pub In-nil : (a : A) → In a [] → ⊥
  In-nil a h = h.lower

  pub In-append-left : (a : A) (xs ys : List A) → In a xs → In a (xs ++ ys)
  In-append-left a [] ys h = absurd h.lower
  In-append-left a (x ∷ xs) ys (inl e) = inl e
  In-append-left a (x ∷ xs) ys (inr h) = inr (In-append-left a xs ys h)

  pub In-append-right : (a : A) (xs ys : List A) → In a ys → In a (xs ++ ys)
  In-append-right a [] ys h = h
  In-append-right a (x ∷ xs) ys h = inr (In-append-right a xs ys h)

  pub In-append : (a : A) (xs ys : List A) → In a (xs ++ ys) → In a xs ⊎ In a ys
  In-append a [] ys h = inr h
  In-append a (x ∷ xs) ys (inl e) = inl (inl e)
  In-append a (x ∷ xs) ys (inr h) = elim (In-append a xs ys h) [
    | inl k ↦ inl (inr k)
    | inr k ↦ inr k
  ]

  pub In-keep : (p : A → Bool) (a : A) (xs : List A) → In a (keep p xs) → In a xs × (p a ≡ true)
  In-keep p a [] h = absurd h.lower
  In-keep p a (x ∷ xs) h = elim (Bool-cases (p x)) [
    | inl yes_x ↦ kept (In-keep p a xs) yes_x (rw yes_x at h)
    | inr no_x ↦ let (m, t) = In-keep p a xs (rw no_x at h) in (inr m, t)
  ]
    where
      kept :
          (In a (keep p xs) → In a xs × (p a ≡ true))
          → p x ≡ true
          → In a (x ∷ keep p xs)
          → In a (x ∷ xs) × (p a ≡ true)
      kept ih t (inl e) = (inl e, rw e t)
      kept ih t (inr k) = (inr (ih k).0, (ih k).1)

  pub In-keep_of : (p : A → Bool) (a : A) (xs : List A) → In a xs → p a ≡ true → In a (keep p xs)
  In-keep_of p a [] h t = h
  In-keep_of p a (x ∷ xs) (inl e) t = rw (← e, t) (inl refl)
  In-keep_of p a (x ∷ xs) (inr h) t = elim (Bool-cases (p x)) [
    | inl yes_x ↦ rw yes_x (inr (In-keep_of p a xs h t))
    | inr no_x ↦ rw no_x (In-keep_of p a xs h t)
  ]

  pub any-In : (p : A → Bool) (xs : List A) → any p xs ≡ true → (a : A) × In a xs × (p a ≡ true)
  any-In p [] h = cc
  any-In p (x ∷ xs) h = elim (Bool-cases (p x)) [
    | inl yes_x ↦ (x, inl refl, yes_x)
    | inr no_x ↦ let (a, m, t) = any-In p xs (ground arith) in (a, inr m, t)
  ]

  pub any_of_In : (p : A → Bool) (a : A) (xs : List A) → In a xs → p a ≡ true → any p xs ≡ true
  any_of_In p a [] h t = absurd h.lower
  any_of_In p a (x ∷ xs) (inl e) t = ground (arith, ap-test e t)
    where
      ap-test : a ≡ x → p a ≡ true → p x ≡ true
      ap-test e t = rw (← e) t
  any_of_In p a (x ∷ xs) (inr h) t = ground (arith, any_of_In p a xs h t)

  pub all-In : (p : A → Bool) (a : A) (xs : List A) → all p xs ≡ true → In a xs → p a ≡ true
  all-In p a [] h m = absurd m.lower
  all-In p a (x ∷ xs) h (inl e) = rw e (ground arith)
  all-In p a (x ∷ xs) h (inr m) = all-In p a xs (ground arith) m

pub In-map {ℓ κ} :
    {A : Type ℓ} {B : Type κ} (f : A → B) (a : A) (xs : List A) → In a xs → In (f a) (map f xs)
In-map f a [] h = absurd h.lower
In-map f a (x ∷ xs) (inl e) = inl (rw e)
In-map f a (x ∷ xs) (inr h) = inr (In-map f a xs h)

pub map-In {ℓ κ} :
    {A : Type ℓ} {B : Type κ} (f : A → B) (b : B) (xs : List A)
    → In b (map f xs)
    → (a : A) × In a xs × (b ≡ f a)
map-In f b [] h = absurd h.lower
map-In f b (x ∷ xs) (inl e) = (x, inl refl, e)
map-In f b (x ∷ xs) (inr h) = let (a, m, e) = map-In f b xs h in (a, inr m, e)
