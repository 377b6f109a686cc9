-- ===== src/Query/Values/Distinct.antt =====
-- `distinctBindings` of go/query.go.
use fgraph.Base.{
  arith, true, false, List, [], ◌∷◌, ◌≡◌, refl, any, In, inl, inr, ◌⊎◌, Bool-cases, any-In,
  any_of_In,
}
use fgraph.Query.Values.Sameness.{SameBinding, same_binding-SameBinding}
use fgraph.Query.Values.{Binding, same_binding, distinct_from, distinct_bindings}

-- No binding of the list is the same as an earlier one.
abbrev pub Apart : List Binding → Type 0
Apart [] = Unit {0}
Apart (x ∷ xs) = ((y : Binding) → In y xs → ¬ SameBinding y x) × Apart xs

-- what is found anew is unlike all that was seen
distinct_from-unseen :
    (seen xs : List Binding) (b s : Binding)
    → In b (distinct_from seen xs)
    → In s seen
    → same_binding b s ≡ false
unfolding distinct_from
distinct_from-unseen seen [] b s m i = absurd m.lower
distinct_from-unseen seen (x ∷ xs) b s m i = elim (Bool-cases (any (same_binding x) seen)) [
  | inl old ↦ distinct_from-unseen seen xs b s (rw (old, distinct_from) at m) i
  | inr new ↦
      first new (rw (new, distinct_from) at m)
        (λ k. distinct_from-unseen (x ∷ seen) xs b s k (inr i))
]
  where
    first :
        any (same_binding x) seen ≡ false
        → In b (x ∷ distinct_from (x ∷ seen) xs)
        → (In b (distinct_from (x ∷ seen) xs) → same_binding b s ≡ false)
        → same_binding b s ≡ false
    first new (inr k) later = later k
    first new (inl e) later = elim (Bool-cases (same_binding x s)) [
      | inr apart ↦ rw e apart
      | inl same ↦
          let hit : any (same_binding x) seen ≡ true = any_of_In (same_binding x) s seen i same in
          absurd (cc)
    ]

distinct_from-Apart : (seen xs : List Binding) → Apart (distinct_from seen xs)
unfolding distinct_from
distinct_from-Apart seen [] = tt
distinct_from-Apart seen (x ∷ xs) = elim (Bool-cases (any (same_binding x) seen)) [
  | inl old ↦ rw (distinct_from, old) (distinct_from-Apart seen xs)
  | inr new ↦
      rw (distinct_from, new)
        (
          λ y m same.
              let tested = (same_binding-SameBinding y x).1 same in
              let unlike = distinct_from-unseen (x ∷ seen) xs y x m (inl refl) in
              absurd (ground (arith, tested, unlike)),
          distinct_from-Apart (x ∷ seen) xs,
        )
]

-- every binding is found, or is the same as one that is found or was seen
distinct_from-covers :
    (seen xs : List Binding) (b : Binding)
    → In b xs
    → In b (distinct_from seen xs)
      ⊎ ((s : Binding) × (In s seen ⊎ In s (distinct_from seen xs)) × (same_binding b s ≡ true))
unfolding distinct_from
distinct_from-covers seen [] b m = absurd m.lower
distinct_from-covers seen (x ∷ xs) b m = elim (Bool-cases (any (same_binding x) seen)) [
  | inl old ↦ rw (distinct_from, old) (skipped old m (distinct_from-covers seen xs b))
  | inr new ↦ rw (distinct_from, new) (kept m (distinct_from-covers (x ∷ seen) xs b))
]
  where
    skipped :
        any (same_binding x) seen ≡ true
        → In b (x ∷ xs)
        → (In b xs
            → In b (distinct_from seen xs)
              ⊎ ((s : Binding) × (In s seen ⊎ In s (distinct_from seen xs))
                  × (same_binding b s ≡ true)))
        → In b (distinct_from seen xs)
          ⊎ ((s : Binding) × (In s seen ⊎ In s (distinct_from seen xs)) × (same_binding b s ≡ true))
    skipped old (inr k) later = later k
    skipped old (inl e) later =
        let (s, i, same) = any-In (same_binding x) seen old in inr (s, inl i, rw e same)

    kept :
        In b (x ∷ xs)
        → (In b xs
            → In b (distinct_from (x ∷ seen) xs)
              ⊎ ((s : Binding) × (In s (x ∷ seen) ⊎ In s (distinct_from (x ∷ seen) xs))
                  × (same_binding b s ≡ true)))
        → In b (x ∷ distinct_from (x ∷ seen) xs)
          ⊎ ((s : Binding) × (In s seen ⊎ In s (x ∷ distinct_from (x ∷ seen) xs))
              × (same_binding b s ≡ true))
    kept (inl e) later = inl (inl e)
    kept (inr k) later = elim (later k) [
      | inl i ↦ inl (inr i)
      | inr (s, at, same) ↦ inr (
        s,
        elim at [ inl (inl e) ↦ inr (inl e) | inl (inr i) ↦ inl i | inr i ↦ inr (inr i) ],
        same,
      )
    ]

distinct_from-In : (seen xs : List Binding) (b : Binding) → In b (distinct_from seen xs) → In b xs
unfolding distinct_from
distinct_from-In seen [] b m = m
distinct_from-In seen (x ∷ xs) b m = elim (Bool-cases (any (same_binding x) seen)) [
  | inl old ↦ inr (distinct_from-In seen xs b (rw (old, distinct_from) at m))
  | inr new ↦ kept (rw (new, distinct_from) at m) (distinct_from-In (x ∷ seen) xs b)
]
  where
    kept :
        In b (x ∷ distinct_from (x ∷ seen) xs)
        → (In b (distinct_from (x ∷ seen) xs) → In b xs)
        → In b (x ∷ xs)
    kept (inl e) ih = inl e
    kept (inr k) ih = inr (ih k)

pub distinct_bindings-In : (xs : List Binding) (b : Binding) → In b (distinct_bindings xs) → In b xs
unfolding distinct_bindings
distinct_bindings-In xs b m = distinct_from-In [] xs b m

pub distinct_bindings-covers :
    (input : List Binding) (b : Binding)
    → In b input
    → In b (distinct_bindings input)
      ⊎ ((s : Binding) × In s (distinct_bindings input) × (same_binding b s ≡ true))
unfolding distinct_bindings
distinct_bindings-covers input b m = elim (distinct_from-covers [] input b m) [
  | inl i ↦ inl i
  | inr (s, inl i, same) ↦ absurd i.lower
  | inr (s, inr i, same) ↦ inr (s, i, same)
]

-- The bindings of the result are of the input, no two of them have equal cells under every name, and
-- each binding of the input, or one that has equal cells under every name, is in the result.
pub distinct_bindings-Apart :
    (input : List Binding)
    → ((b : Binding) → In b (distinct_bindings input) → In b input)
      × Apart (distinct_bindings input)
      × ((b : Binding)
          → In b input
          → In b (distinct_bindings input)
            ⊎ ((s : Binding) × In s (distinct_bindings input) × SameBinding b s))
unfolding distinct_bindings
distinct_bindings-Apart input = (
  distinct_bindings-In input,
  distinct_from-Apart [] input,
  λ b m. elim (distinct_bindings-covers input b m) [
    | inl i ↦ inl i
    | inr (s, i, same) ↦ inr (s, i, (same_binding-SameBinding b s).0 same)
  ],
)
