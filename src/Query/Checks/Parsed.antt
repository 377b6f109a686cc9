-- ===== src/Query/Checks/Parsed.antt =====
-- The rules that `parseRules` of go/query.go accepts.
use Prim.Native.String.{String}
use package.text.Mathlib.Text.{◌==◌ as str_eq}
use fgraph.Base.{
  ℕ, Bool, true, false, not, ◌&&◌, ◌||◌, List, [], ◌∷◌, ◌++◌, Option, none, some, ==_iff, ◌≡◌, refl,
  sym, ap, subst, ◌∙◌, length, Result, ok, fail, query_error, reject_if, ◌>>=◌, >>=-eq-ok, In, inl,
  inr, In-append, Bool-cases, if◌then◌else◌,
}
use fgraph.Diff.Run.{ok-injective}
use fgraph.Query.Values.{Json, string, array, object, Items, end, field, items_of}
use fgraph.Query.Engine.{RuleDef, find_name}
use fgraph.Query.Checks.{
  Names, includes, check_clauses, Rules, head_args, rules_of, fits, add_rule, parse_definition,
  parse_head, parse_rule, parse_rules,
}

-- The body of the definition passes the check, which finds every variable of the head bound.
abbrev pub BodyIsSafe : (String → Bool) → RuleDef → Type 0
BodyIsSafe is_attribute d =
    (body : Items) × (bound : Names) × (d.body ≡ items_of body)
    × (check_clauses is_attribute body [] ≡ ok bound)
    × (includes bound d.args ≡ true)

-- Definitions of one name have one arity and safe bodies.
abbrev pub IsSafe : (String → Bool) → Rules → Type 0
IsSafe is_attribute rules =
    (name : String) (definitions : List RuleDef)
    → find_name rules name ≡ some definitions
    → (d : RuleDef) → In d definitions
    → BodyIsSafe is_attribute d
      × ((other : RuleDef) → In other definitions → length d.args ≡ length other.args)

some-rules : {x y : List RuleDef} → some x ≡ some y → x ≡ y
some-rules {x} h = ap (λ o. elim o as (λ _. List RuleDef) [ some z ↦ z | none ↦ x ]) h

rules_of-eq :
    (rules : Rules) (name : String) (found : Option (List RuleDef)) (d : RuleDef)
    → find_name rules name ≡ found
    → In d (rules_of rules name)
    → (definitions : List RuleDef) × (find_name rules name ≡ some definitions)
      × (rules_of rules name ≡ definitions)
      × In d definitions
unfolding rules_of
rules_of-eq rules name none d h m =
    absurd (subst (λ o. In d (elim o as (λ _. List RuleDef) [ none ↦ [] | some x ↦ x ])) h m).lower
rules_of-eq rules name (some definitions) d h m = (
  definitions,
  h,
  rw (h, rules_of) refl,
  subst (λ o. In d (elim o as (λ _. List RuleDef) [ none ↦ [] | some x ↦ x ])) h m,
)

-- a definition that fits has the arity of each that stands there
fits-length :
    (old : List RuleDef) (n : ℕ) (d : RuleDef)
    → ((x y : RuleDef) → In x old → In y old → length x.args ≡ length y.args)
    → fits old n ≡ true
    → In d old
    → length d.args ≡ n
unfolding fits
fits-length [] n d same h m = absurd m.lower
fits-length (first ∷ rest) n d same h m =
    same d first m (inl refl) ∙ (==_iff (length first.args) n).0 h

module _ (is_attribute : String → Bool) where
  old-IsSafe :
      (rules : Rules) (name : String)
      → IsSafe is_attribute rules
      → (d : RuleDef) → In d (rules_of rules name)
      → BodyIsSafe is_attribute d
        × ((other : RuleDef) → In other (rules_of rules name) → length d.args ≡ length other.args)
  old-IsSafe rules name safe d m =
      let (definitions, found, same, i) = rules_of-eq rules name (find_name rules name) d refl m in
      let (body, arity) = safe name definitions found d i in
      (body, λ other k. arity other (subst (In other) same k))

  added-IsSafe :
      (rules : Rules) (name : String) (definition : RuleDef)
      → IsSafe is_attribute rules
      → BodyIsSafe is_attribute definition
      → fits (rules_of rules name) (length definition.args) ≡ true
      → (d : RuleDef) → In d (rules_of rules name ++ definition ∷ [])
      → BodyIsSafe is_attribute d
        × ((other : RuleDef)
            → In other (rules_of rules name ++ definition ∷ [])
            → length d.args ≡ length other.args)
  added-IsSafe rules name definition safe body fitting d m =
      elim (In-append d (rules_of rules name) (definition ∷ []) m) [
        | inl i ↦ ((old-IsSafe rules name safe d i).0, λ other k. arity d i ∙ sym (either other k))
        | inr (inl e) ↦ (
          subst (BodyIsSafe is_attribute) (sym e) body,
          λ other k. ap (λ (x : RuleDef). length x.args) e ∙ sym (either other k),
        )
        | inr (inr i) ↦ absurd i.lower
      ]
    where
      arity : (x : RuleDef) → In x (rules_of rules name) → length x.args ≡ length definition.args
      arity x i =
          fits-length (rules_of rules name) (length definition.args) x
            (λ y z j k. (old-IsSafe rules name safe y j).1 z k) fitting i

      either :
          (other : RuleDef)
          → In other (rules_of rules name ++ definition ∷ [])
          → length other.args ≡ length definition.args
      either other k = elim (In-append other (rules_of rules name) (definition ∷ []) k) [
        | inl i ↦ arity other i
        | inr (inl e) ↦ ap (λ (x : RuleDef). length x.args) e
        | inr (inr i) ↦ absurd i.lower
      ]

  add_rule-IsSafe :
      (rules : Rules) (name : String) (definition : RuleDef)
      → IsSafe is_attribute rules
      → BodyIsSafe is_attribute definition
      → fits (rules_of rules name) (length definition.args) ≡ true
      → IsSafe is_attribute (add_rule name definition rules)
  unfolding add_rule find_name
  add_rule-IsSafe rules name definition safe body fitting asked found h d m =
      elim (Bool-cases (str_eq name asked)) [
        | inl same ↦
            let e : rules_of rules name ++ definition ∷ [] ≡ found = some-rules (rw same at h) in
            let (one, two) =
              added-IsSafe rules name definition safe body fitting d (subst (In d) (sym e) m) in
            (one, λ other k. two other (subst (In other) (sym e) k))
        | inr other ↦ safe asked found (rw other at h) d m
      ]

  rejected :
      (bad : Bool) (next : Unit {0} → Result Rules) (out : Rules)
      → (reject_if bad query_error >>= next) ≡ ok out
      → (bad ≡ false) × (next tt ≡ ok out)
  rejected false next out h = (refl, h)
  rejected true next out h = absurd (cc)

  parse_definition-IsSafe :
      (rules : Rules) (name : String) (args : List String) (body : Items) (out : Rules)
      → IsSafe is_attribute rules
      → parse_definition is_attribute rules name args body ≡ ok out
      → IsSafe is_attribute out
  unfolding parse_definition
  parse_definition-IsSafe rules name args body out safe h =
      let (named, k) =
        rejected (str_eq name "" || not (fits (rules_of rules name) (length args))) _ out h in
      let (bound, checked, l) = >>=-eq-ok (check_clauses is_attribute body []) _ k in
      let (head_bound, m) = rejected (not (includes bound args)) _ out l in
      subst (IsSafe is_attribute) (ok-injective m) (
        add_rule-IsSafe rules name (record { args = args; body = items_of body }) safe
          (body, bound, refl, checked, not_false _ head_bound) (fitting (str_eq name "") _ named))
    where
      not_false : (b : Bool) → not b ≡ false → b ≡ true
      not_false true k = refl
      not_false false k = absurd (cc)

      fitting : (a b : Bool) → a || not b ≡ false → b ≡ true
      fitting true b k = absurd (cc)
      fitting false b k = not_false b k

  parse_head-IsSafe :
      (rules : Rules) (head : List Json) (body : Items) (out : Rules)
      → IsSafe is_attribute rules
      → parse_head is_attribute rules head body ≡ ok out
      → IsSafe is_attribute out
  unfolding parse_head
  parse_head-IsSafe rules (string name ∷ terms) body out safe h =
      let (args, _, k) =
        >>=-eq-ok (head_args terms) (λ args. parse_definition is_attribute rules name args body)
          h in
      parse_definition-IsSafe rules name args body out safe k
  parse_head-IsSafe rules _ body out safe h = absurd (cc)

  parse_rule-IsSafe :
      (rules : Rules) (item : Json) (out : Rules)
      → IsSafe is_attribute rules
      → parse_rule is_attribute rules item ≡ ok out
      → IsSafe is_attribute out
  unfolding parse_rule
  parse_rule-IsSafe rules (object (field first (array x) (field second (array y) end))) out safe h =
      chosen (str_eq first "head" && str_eq second "body")
        (str_eq first "body" && str_eq second "head") h
    where
      chosen :
          (a b : Bool)
          → (if a
              then parse_head is_attribute rules (items_of x) y
              else if b
              then parse_head is_attribute rules (items_of y) x
              else fail query_error)
            ≡ ok out
          → IsSafe is_attribute out
      chosen true b k = parse_head-IsSafe rules (items_of x) y out safe k
      chosen false true k = parse_head-IsSafe rules (items_of y) x out safe k
      chosen false false k = absurd (cc)
  parse_rule-IsSafe rules _ out safe h = absurd (cc)

  parse_from-IsSafe :
      (raw : List Json) (rules out : Rules)
      → IsSafe is_attribute rules
      → parse_rules is_attribute rules raw ≡ ok out
      → IsSafe is_attribute out
  unfolding parse_rules
  parse_from-IsSafe [] rules out safe h = subst (IsSafe is_attribute) (ok-injective h) safe
  parse_from-IsSafe (item ∷ rest) rules out safe h =
      let (next, parsed, k) =
        >>=-eq-ok (parse_rule is_attribute rules item) (λ next. parse_rules is_attribute next rest)
          h in
      parse_from-IsSafe rest next out (parse_rule-IsSafe rules item next safe parsed) k

  -- Rules that are accepted have definitions of one arity under each name, and the body of each
  -- definition passes the check of variables, with every variable of the head bound after it.
  pub parse_rules-IsSafe :
      (raw : List Json) (out : Rules)
      → parse_rules is_attribute [] raw ≡ ok out
      → IsSafe is_attribute out
  unfolding find_name
  parse_rules-IsSafe raw out h = parse_from-IsSafe raw [] out (λ name definitions k. absurd (cc)) h
