-- ===== src/Query/Terms/Extends.antt =====
-- What `matchTerm` of go/query.go does to a binding.
use Prim.Native.String.{String}
use text.Mathlib.Text.{◌==◌ as str_eq}
use text.Mathlib.TextEquality.{eq_iff}
use fgraph.Base.{
  Bool, true, false, List, [], ◌∷◌, Option, none, some, ◌≡◌, refl, ap, subst, ok, Bool-cases, inl,
  inr, >>=-eq-ok,
}
use fgraph.Diff.Run.{ok-injective}
use fgraph.Query.Values.{Json, Cell, Binding, lookup, cells_equal}
use fgraph.Query.Engine.{Engine}
use fgraph.Query.Terms.{
  Shape, wildcard, variable, constant, shape_of, match_prior, match_variable, match_constant,
  when_same, match_shape, match_term, if_matched, match_terms,
}

-- Each variable of the first binding has its cell in the second.
abbrev pub Extends : Binding → Binding → Type 0
Extends old new = (name : String) (c : Cell) → lookup old name ≡ some c → lookup new name ≡ some c

pub Extends-refl : (values : Binding) → Extends values values
Extends-refl values name c h = h

pub Extends-trans : (a b c : Binding) → Extends a b → Extends b c → Extends a c
Extends-trans _ _ _ first second name c h = second name c (first name c h)

some-value : {a b : Binding} → some a ≡ some b → a ≡ b
some-value {a} h = ap (λ r. elim r as (λ _. Binding) [ some x ↦ x | none ↦ a ]) h

some-ok : {a b : Binding} → ok (some a) ≡ ok (some b) → a ≡ b
some-ok {a} h = ap (λ r. elim r as (λ _. Binding) [ ok (some x) ↦ x | _ ↦ a ]) h

Extends-eq : {values : Binding} {new : Binding} → values ≡ new → Extends values new
Extends-eq {values} e = subst (Extends values) e (Extends-refl values)

-- a variable without a cell gets one
bind-Extends :
    (name : String) (actual : Cell) (values : Binding)
    → lookup values name ≡ none
    → Extends values ((name, actual) ∷ values)
unfolding lookup
bind-Extends name actual values free other c h = elim (Bool-cases (str_eq name other)) [
  | inl same ↦ absurd (unbound ((eq_iff name other).0 same))
  | inr apart ↦ rw apart h
]
  where
    unbound : name ≡ other → ⊥
    unbound e = let k : lookup values name ≡ some c = rw e h in cc

match_prior-Extends :
    (name : String) (actual : Cell) (values : Binding) (prior : Option Cell) {new : Binding}
    → lookup values name ≡ prior
    → match_prior name actual values prior ≡ some new
    → Extends values new
unfolding match_prior
match_prior-Extends name actual values none free h =
    subst (Extends values) (some-value h) (bind-Extends name actual values free)
match_prior-Extends name actual values (some prior) known h =
    elim (Bool-cases (cells_equal prior actual)) [
      | inl same ↦ Extends-eq (some-value (rw same at h))
      | inr apart ↦ absurd (cc)
    ]

pub match_shape-Extends :
    (e : Engine) (term : Json) (actual : Cell) (entity : Bool) (values : Binding) (shape : Shape)
    {new : Binding}
    → match_shape e term actual entity values shape ≡ ok (some new)
    → Extends values new
unfolding match_shape match_variable when_same
match_shape-Extends e term actual entity values wildcard h = Extends-eq (some-ok h)
match_shape-Extends e term actual entity values (variable name) h =
    match_prior-Extends name actual values (lookup values name) refl (ok-injective h)
match_shape-Extends e term actual entity values constant h =
    let (same, _, k) = >>=-eq-ok (match_constant e term actual entity) (when_same values) h in
    kept same k
  where
    kept :
        {new : Binding} (same : Bool) → when_same values same ≡ ok (some new) → Extends values new
    kept true k = Extends-eq (some-ok k)
    kept false k = cc

pub match_terms-Extends :
    (e : Engine) (terms : List Json) (actuals : List (Cell × Bool)) (values : Binding)
    {new : Binding}
    → match_terms e terms actuals values ≡ ok (some new)
    → Extends values new
unfolding match_terms match_term if_matched
match_terms-Extends e [] actuals values h = Extends-eq (some-ok h)
match_terms-Extends e (term ∷ rest) [] values h = Extends-eq (some-ok h)
match_terms-Extends e (term ∷ rest) ((actual, entity) ∷ others) values h =
    let (matched, first, k) =
      >>=-eq-ok (match_shape e term actual entity values (shape_of term)) _ h in
    later (λ between k. match_terms-Extends e rest others between k) matched first k
  where
    later :
        {new : Binding}
        → ((between : Binding)
            → match_terms e rest others between ≡ ok (some new)
            → Extends between new)
        → (matched : Option Binding)
        → match_shape e term actual entity values (shape_of term) ≡ ok matched
        → if_matched (match_terms e rest others) matched ≡ ok (some new)
        → Extends values new
    later ih none first k = cc
    later ih (some between) first k =
        Extends-trans values between _
          (match_shape-Extends e term actual entity values (shape_of term) first) (ih between k)
