-- ===== src/Query/Checks/Sound.antt =====
-- The check of variables (`validateClauseSequence` of go/query.go) against the evaluation of clauses.
pub mod Parts
pub mod Clause
pub mod Blocks
pub mod Sequence
use Prim.Native.String.{String}
use package.text.Mathlib.Text.{◌==◌ as str_eq}
use package.text.Mathlib.TextEquality.{eq_iff}
use package.text.Mathlib.TextPositions.{eq_refl}
use fgraph.Base.{
  ℕ, Bool, true, false, not, ◌&&◌, List, [], ◌∷◌, ◌++◌, Option, none, some, ◌≡◌, refl, sym, ap,
  subst, arith, any, all, length, In, inl, inr, ◌⊎◌, In-append, Bool-cases, both_true, any-In,
  any_of_In, if◌then◌else◌,
}
use fgraph.Query.Values.{
  Json, null, bool, integer, float, string, array, object, Items, nil, cons, Fields, end, field,
  items_of, Cell, Binding, is_bound,
}
use fgraph.Query.Eval.{Eval}
use fgraph.Query.Eval.Grows.{Grows}
use fgraph.Query.Engine.{Engine, find_name}
use fgraph.Query.Terms.{is_variable}
use fgraph.Query.Patterns.Binds.{Binds, Among, Extends-is_bound}
use fgraph.Query.Order.{has_name, variables_of, clause_variables}
use fgraph.Query.Clauses.{relation_of, has_arity}
use fgraph.Query.Checks.{Names}

-- a term has variables only where it is one
unfoldable pub plain_term : Json → Bool
unfolding variables_of
plain_term (string s) = true
plain_term term = elim (variables_of term) [ [] ↦ true | _ ↦ false ]

-- the name of an invoked rule is no variable
unfoldable pub plain_invocation : List Json → Bool
unfolding is_variable plain_term
plain_invocation (string name ∷ terms) = not (is_variable name) && all plain_term terms
plain_invocation _ = true

-- No variable stands inside a term, or as the name of a rule.
unfoldable mutual
  unfolding plain_term plain_invocation items_of

  pub plain_clause : Json → Bool
  plain_clause (array items) = all plain_term (items_of items)
  plain_clause (object (field name (array items) end)) =
      plain_invocation (items_of items) && plain_clauses items && plain_branches items
  plain_clause _ = true

  pub plain_clauses : Items → Bool
  plain_clauses nil = true
  plain_clauses (cons c rest) = plain_clause c && plain_clauses rest

  pub plain_branches : Items → Bool
  plain_branches nil = true
  plain_branches (cons branch rest) = plain_branch branch && plain_branches rest

  pub plain_branch : Json → Bool
  plain_branch (array clauses) = plain_clauses clauses
  plain_branch _ = true

-- The relations have as many cells in each tuple as their rules have arguments.
abbrev pub HasArities : Engine → Type 0
HasArities e =
    (name : String) (tuple : List Cell)
    → In tuple (relation_of e name)
    → (n : ℕ) → has_arity (find_name e.rules name) n ≡ true
    → n ≡ length tuple

-- Each of the bindings has a cell for each of the names.
abbrev pub Have : Names → List Binding → Type 0
Have names input =
    (a : Binding) → In a input → (name : String) → In name names → is_bound a name ≡ true

pub has_name-In : (names : Names) (name : String) → has_name names name ≡ true → In name names
unfolding has_name
has_name-In names name h =
    let (other, m, same) = any-In (str_eq name) names h in
    subst (λ n. In n names) (sym ((eq_iff name other).0 same)) m

pub In-has_name : (names : Names) (name : String) → In name names → has_name names name ≡ true
unfolding has_name
In-has_name names name m = any_of_In (str_eq name) name names m (eq_refl name)

variable-Among :
    (s name : String) (rest : List Json)
    → In name (if is_variable s then s ∷ [] else [])
    → Among (string s ∷ rest) name
variable-Among s name rest m = split (is_variable s) refl m
  where
    split :
        (b : Bool)
        → is_variable s ≡ b
        → In name (if b then s ∷ [] else [])
        → Among (string s ∷ rest) name
    split true v (inl e) = (inl (ap string e), rw e v)
    split true v (inr i) = absurd i.lower
    split false v i = absurd i.lower

no_variable :
    (names : Names) (name : String)
    → (elim names as (λ _. Bool) [ [] ↦ true | _ ↦ false ]) ≡ true
    → In name names
    → ⊥
no_variable [] name h m = m.lower
no_variable (x ∷ xs) name h m = cc

plain_term-Among :
    (term : Json) (rest : List Json) (name : String)
    → plain_term term ≡ true
    → In name (variables_of term)
    → Among (term ∷ rest) name
unfolding plain_term variables_of
plain_term-Among (string s) rest name h m = variable-Among s name rest m
plain_term-Among term rest name h m = absurd (no_variable (variables_of term) name h m)

-- the variables of plain terms stand among them
pub clause_variables-Among :
    (terms : List Json) (name : String)
    → all plain_term terms ≡ true
    → In name (clause_variables terms)
    → Among terms name
unfolding clause_variables
clause_variables-Among [] name h m = absurd m.lower
clause_variables-Among (term ∷ rest) name h m =
    let (here, there) = both_true (plain_term term) (all plain_term rest) h in
    elim (In-append name (variables_of term) (clause_variables rest) m) [
      | inl i ↦ plain_term-Among term rest name here i
      | inr i ↦ let (at, v) = clause_variables-Among rest name there i in (inr at, v)
    ]

pub either-Binds :
    (P Q : String → Type 0) (R : String → Type 0) (step : Eval (List Binding))
    → Binds P step
    → Binds Q step
    → ((name : String) → R name → P name ⊎ Q name)
    → Binds R step
either-Binds P Q R step p q cover work out after h b m name r = elim (cover name r) [
  | inl i ↦ p work out after h b m name i
  | inr i ↦ q work out after h b m name i
]

-- what grows from bindings with the names has the names
pub Grows-Binds :
    (names : Names) (input : List Binding) (step : Eval (List Binding))
    → Grows input step
    → Have names input
    → Binds (λ name. In name names) step
Grows-Binds names input step g has work out after h b m name i =
    let (a, at, ext, _) = (g work out after h).1 b m in
    Extends-is_bound a b name ext (has a at name i)
