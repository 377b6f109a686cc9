-- ===== src/Query/Values/Sameness.antt =====
-- When two bindings of go/query.go are one, variable by variable.
use Prim.Native.String.{String}
use text.Mathlib.TextEquality.{eq_iff}
use package.text.Mathlib.Text.{◌==◌ as str_eq}
use fgraph.Base.{
  ◌≡◌, ◌↔◌, inl, inr, refl, sym, ap, subst, Bool, true, ◌&&◌, List, [], ◌∷◌, Option, none, some,
  arith, all, In, all-In, Bool-cases, Option-cases, both_true,
}
use fgraph.Value.{tag_eq}
use fgraph.Value.Equality.{tag_eq-eq, tag_eq_refl}
use fgraph.Query.Values.{
  Cell, Binding, value_equal, cells_equal, lookup, same_cells, same_at, same_binding,
}

-- equal cells, or none in either
abbrev pub SameCells : Option Cell → Option Cell → Type 0
SameCells none none = Unit {0}
SameCells (some x) (some y) = (x.tag ≡ y.tag) × (value_equal x.value y.value ≡ true)
SameCells none (some y) = ⊥
SameCells (some x) none = ⊥

-- The bindings have equal cells under every name, or none in either.
abbrev pub SameBinding : Binding → Binding → Type 0
SameBinding left right = (name : String) → SameCells (lookup left name) (lookup right name)

both_of : {a b : Bool} → a ≡ true → b ≡ true → a && b ≡ true
both_of h k = ground (arith, h, k)

same_cells-SameCells : (x y : Option Cell) → (same_cells x y ≡ true) ↔ SameCells x y
unfolding same_cells cells_equal
same_cells-SameCells none none = (λ _. tt, λ _. refl)
same_cells-SameCells none (some y) = (λ h. absurd (cc), λ h. absurd h)
same_cells-SameCells (some x) none = (λ h. absurd (cc), λ h. absurd h)
same_cells-SameCells (some x) (some y) = (
  λ h.
      let (t, v) = both_true (tag_eq x.tag y.tag) (value_equal x.value y.value) h in
      (tag_eq-eq x.tag y.tag t, v),
  λ h. both_of (subst (λ t. tag_eq x.tag t ≡ true) h.0 (tag_eq_refl x.tag)) h.1,
)

-- what is found under a name has an entry
lookup-In :
    (values : Binding) (name : String) {c : Cell}
    → lookup values name ≡ some c
    → (d : Cell) × In (name, d) values
unfolding lookup
lookup-In [] name h = absurd (cc)
lookup-In ((known, d) ∷ values) name h = elim (Bool-cases (str_eq known name)) [
  | inl e ↦ (d, inl (ap (λ (n : String). (n, d)) (sym ((eq_iff known name).0 e))))
  | inr e ↦ let (d', m) = lookup-In values name (rw (lookup, e) at h) in (d', inr m)
]

all-of {ℓ} : {A : Type ℓ} (p : A → Bool) (xs : List A) → ((x : A) → p x ≡ true) → all p xs ≡ true
all-of p [] h = refl
all-of p (x ∷ xs) h = ground (arith, h x, all-of p xs h)

pub same_binding-SameBinding :
    (left right : Binding) → (same_binding left right ≡ true) ↔ SameBinding left right
unfolding same_binding same_at
same_binding-SameBinding left right = (everywhere, tested)
  where
    everywhere : same_binding left right ≡ true → SameBinding left right
    everywhere h name =
        let (l, r) =
          both_true (all (λ entry. same_at left right entry.0) left)
            (all (λ entry. same_at left right entry.0) right) h in
        (same_cells-SameCells (lookup left name) (lookup right name)).0
          (elim (Option-cases (lookup left name)) [
            | inr (c, e) ↦
                let (d, m) = lookup-In left name e in
                all-In (λ entry. same_at left right entry.0) (name, d) left l m
            | inl e ↦ elim (Option-cases (lookup right name)) [
              | inr (c, k) ↦
                  let (d, m) = lookup-In right name k in
                  all-In (λ entry. same_at left right entry.0) (name, d) right r m
              | inl k ↦ rw (e, k) (unfold same_cells in refl)
            ]
          ])

    tested : SameBinding left right → same_binding left right ≡ true
    tested h =
        let at : (entry : String × Cell) → same_at left right entry.0 ≡ true = λ entry.
          (same_cells-SameCells (lookup left entry.0) (lookup right entry.0)).1 (h entry.0) in
        ground (
          arith,
          all-of (λ entry. same_at left right entry.0) left at,
          all-of (λ entry. same_at left right entry.0) right at,
        )
