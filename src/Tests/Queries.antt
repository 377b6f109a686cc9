-- ===== src/Tests/Queries.antt =====
-- The theorems on queries at concrete inputs: two people, of whom one has a nickname.
use Prim.Native.String.{String}
use package.text.Mathlib.Text.{◌==◌ as str_eq}
use fgraph.Base.{
  ℕ, ◌+◌, ◌≡◌, ◌≤◌, ◌<◌, refl, inl, ◌⊎◌, ◌↔◌, true, ◌||◌, List, [], ◌∷◌, none, some, arith, Kind,
  ok, fail, query_error, In, if◌then◌else◌, ap, sym, length, ==_iff, ◌∙◌, inr, Bool, false,
}
use fgraph.Value.{pos, int64, Tag}
use fgraph.Fact.{RawFact}
use fgraph.Store.{IdentityRow}
use fgraph.Query.Values.{
  Json, string, array, object, Items, nil, cons, field, end, CellValue, ref_cell, Binding,
  same_binding, distinct_bindings,
}
use fgraph.Query.Values.Sameness.{SameBinding}
use fgraph.Query.Values.Distinct.{Apart, distinct_bindings-Apart}
use fgraph.Query.Eval.{collect}
use fgraph.Query.Engine.{Engine, Source, Codec, RuleDef, Scalar}
use fgraph.Query.Terms.{constant, shape_of}
use fgraph.Query.Terms.Extends.{Extends}
use fgraph.Query.Patterns.{batched, plan_batch, scan_pattern, eval_indexed_pattern}
use fgraph.Query.Patterns.Batch.Same.{scan_pattern-In}
use fgraph.Query.Order.{order_clauses}
use fgraph.Query.Order.Reordered.{Reordered, order_clauses-Reordered}
use fgraph.Query.Clauses.{eval_clauses, eval_not, eval_or, eval_branch}
use fgraph.Query.Clauses.Budget.{eval_clauses-Spends}
use fgraph.Query.Clauses.Grows.{eval_clauses-Extends}
use fgraph.Query.Clauses.Meaning.{eval_not-In, eval_or-In}
use fgraph.Query.Rules.{Tuple, derive_relation, definitions_of, with_relation}
use fgraph.Query.Predicates.{compare_cells, operator_of}
use fgraph.Query.Checks.{parse_rules}
use fgraph.Query.Checks.Parsed.{IsSafe, parse_rules-IsSafe}
use fgraph.Query.Checks.{check_clauses}
use fgraph.Query.Checks.Sound.{plain_clauses, HasArities, Have}
use fgraph.Query.Checks.Sound.Sequence.{eval_clauses-Sound}
use fgraph.Query.Clauses.{relation_of, has_arity}
use fgraph.Query.Engine.{find_name}
use fgraph.Query.Rules.Ends.{derive_relation-some}
use fgraph.Query.Rules.Saturated.{Closed, derive_relation-Closed}

abbrev items : List Json → Items
items [] = nil
items (x ∷ rest) = cons x (items rest)

-- age is attribute 30, nick is attribute 31
abbrev names : List (String × ℕ)
names = ("person/age", 30) ∷ ("person/nick", 31) ∷ []

abbrev codec : Codec
codec = record {
  logical = λ v t. elim v [ int64 x ↦ ok (CellValue.integer x) | _ ↦ fail query_error ];
  stored = λ c. elim c.value [ CellValue.integer x ↦ ok (int64 x, c.tag) | _ ↦ fail query_error ];
  scalar = λ term. elim term [
    | Json.integer x ↦ ok (Scalar.value (record { tag = Tag.int; value = CellValue.integer x }))
    | _ ↦ fail query_error
  ];
  resolve = λ term. elim term [
    | string s ↦ ok (
        if str_eq s "person/age" then some 30 else if str_eq s "person/nick" then some 31 else none)
    | _ ↦ fail query_error
  ];
  is_attribute = λ s. str_eq s "person/age" || str_eq s "person/nick";
}

abbrev fact : ℕ → ℕ → ℕ → RawFact
fact id e a = record {
  id = id;
  e = e;
  a = a;
  v = int64 (pos (e + 1));
  t = Tag.int;
  tx = 9;
  rx = none;
}

abbrev row : ℕ → IdentityRow
row id = record { id = id; name = none; gid = []; created_tx = 1 }

-- the rule of those who have a nickname
abbrev nicked : RuleDef
nicked = record {
  args = "?p" ∷ [];
  body = array (items (string "?p" ∷ string "person/nick" ∷ string "_" ∷ [])) ∷ [];
}

abbrev engine : Engine
engine = record {
  facts = fact 1 40 30 ∷ fact 2 41 30 ∷ fact 3 41 31 ∷ [];
  identities = row 30 ∷ row 31 ∷ row 40 ∷ row 41 ∷ [];
  names = names;
  as_of = none;
  basis = 9;
  source = Source.current;
  budget = 50;
  rules = ("nicked", nicked ∷ []) ∷ [];
  relations = [];
  codec = codec;
}

abbrev pattern : String → String → Json
pattern attr value = array (items (string "?p" ∷ string attr ∷ string value ∷ []))

abbrev without : List Json → Json
without clauses = object (field "not" (array (items clauses)) end)

-- people with an age and without a nickname
abbrev clauses : List Json
clauses = pattern "person/age" "?a" ∷ without (pattern "person/nick" "_" ∷ []) ∷ []

abbrev person : ℕ → Binding
person id = ("?p", ref_cell id) ∷ []

abbrev aged : ℕ → Binding
aged id = ("?a", record { tag = Tag.int; value = CellValue.integer (pos (id + 1)) }) ∷ person id

evaluated : eval_clauses engine clauses ([] ∷ []) 0 ≡ ok (aged 40 ∷ [], 3)
unfolding eval_clauses
evaluated = refl

eval_clauses-Spends_example : (0 ≤ 3) × (0 ≤ 50 → 3 ≤ 50)
eval_clauses-Spends_example =
    eval_clauses-Spends engine clauses ([] ∷ []) 0 (aged 40 ∷ []) 3 evaluated

eval_clauses-Extends_example :
    (a : Binding) × In a ([] ∷ []) × Extends a (aged 40) × ((aged 40 ≡ a) ⊎ (0 < 3))
eval_clauses-Extends_example =
    eval_clauses-Extends engine clauses ([] ∷ []) 0 (aged 40 ∷ []) 3 evaluated (aged 40) (inl refl)

-- the second pattern is read first: it has a bound value
order_clauses-Reordered_example :
    Reordered
      (pattern "?attr" "?v" ∷ pattern "person/age" "?a" ∷ [])
      (order_clauses [] (pattern "?attr" "?v" ∷ pattern "person/age" "?a" ∷ []))
order_clauses-Reordered_example =
    order_clauses-Reordered [] (pattern "?attr" "?v" ∷ pattern "person/age" "?a" ∷ [])

abbrev age_pattern : List Json
age_pattern = string "?p" ∷ string "person/age" ∷ string "?a" ∷ []

abbrev people : List Binding
people = person 40 ∷ person 41 ∷ []

age-planned : plan_batch engine age_pattern people ≡ batched "?p" 30
unfolding plan_batch
age-planned = refl

age-constant : shape_of (string "person/age") ≡ constant
unfolding shape_of
age-constant = refl

age-batch :
    scan_pattern engine age_pattern people (batched "?p" 30) 0 ≡ ok (aged 40 ∷ aged 41 ∷ [], 2)
unfolding scan_pattern
age-batch = refl

age-alone :
    collect (eval_indexed_pattern engine age_pattern) people 7 ≡ ok (aged 40 ∷ aged 41 ∷ [], 9)
unfolding eval_indexed_pattern collect
age-alone = refl

scan_pattern-In_example :
    In (aged 41) (aged 40 ∷ aged 41 ∷ []) ↔ In (aged 41) (aged 40 ∷ aged 41 ∷ [])
scan_pattern-In_example =
    scan_pattern-In engine "?p" "person/age" (string "?a") people "?p" 30 0 7
      (aged 40 ∷ aged 41 ∷ []) (aged 40 ∷ aged 41 ∷ []) 2 9 age-planned refl age-constant age-batch
      age-alone (aged 41)

abbrev nick_clauses : List Json
nick_clauses = pattern "person/nick" "_" ∷ []

negated : eval_not (eval_clauses engine) nick_clauses people 0 ≡ ok (person 40 ∷ [], 1)
unfolding eval_not eval_clauses
negated = refl

eval_not-In_example :
    ((b : Binding)
      → In b (person 40 ∷ [])
      → In b people
        × ((m : ℕ) × (n : ℕ) × (eval_clauses engine nick_clauses (b ∷ []) m ≡ ok ([], n))))
    × ((b : Binding)
        → In b people
        → In b (person 40 ∷ [])
          ⊎ ((x : Binding) × (xs : List Binding) × (m : ℕ) × (n : ℕ) × (eval_clauses engine
                  nick_clauses
                  (b ∷ [])
                  m
                ≡ ok (x ∷ xs, n))))
eval_not-In_example = eval_not-In engine nick_clauses people 0 (person 40 ∷ []) 1 negated

-- the same pattern twice
abbrev branches : List Json
branches = array (items nick_clauses) ∷ array (items nick_clauses) ∷ []

either : eval_or (eval_clauses engine) branches people 0 ≡ ok (person 41 ∷ [], 2)
unfolding eval_or eval_clauses
either = refl

eval_or-In_example :
    ((b : Binding)
      → In b (person 41 ∷ [])
      → (branch : Json) × (found : List Binding) × (m : ℕ) × (n : ℕ) × In branch branches
        × (eval_branch (eval_clauses engine) people branch m ≡ ok (found, n))
        × In b found)
    × ((branch : Json)
        → In branch branches
        → (found : List Binding) × (m : ℕ) × (n : ℕ) × (eval_branch
              (eval_clauses engine)
              people
              branch
              m
            ≡ ok (found, n))
          × ((b : Binding)
              → In b found
              → In b (person 41 ∷ [])
                ⊎ ((s : Binding) × In s (person 41 ∷ []) × (same_binding b s ≡ true))))
eval_or-In_example = eval_or-In engine branches people 0 (person 41 ∷ []) 2 either

abbrev twice : List Binding
twice = person 40 ∷ person 41 ∷ person 40 ∷ []

distinct_bindings-Apart_example :
    ((b : Binding) → In b (distinct_bindings twice) → In b twice)
    × Apart (distinct_bindings twice)
    × ((b : Binding)
        → In b twice
        → In b (distinct_bindings twice)
          ⊎ ((s : Binding) × In s (distinct_bindings twice) × SameBinding b s))
distinct_bindings-Apart_example = distinct_bindings-Apart twice

abbrev nicks : List Tuple
nicks = (ref_cell 41 ∷ []) ∷ []

derived : derive_relation engine "nicked" 0 ≡ ok (some nicks, 2)
unfolding derive_relation
derived = refl

derive_relation-some_example :
    ((kind : Kind) × (derive_relation engine "nicked" 0 ≡ fail kind))
    ⊎ ((final : List Tuple) × (after : ℕ) × (derive_relation engine "nicked" 0
          ≡ ok (some final, after)))
derive_relation-some_example = derive_relation-some engine "nicked" 0 (omega arith)

derive_relation-Closed_example : Closed (with_relation engine "nicked" nicks) nicks nicked
unfolding definitions_of
derive_relation-Closed_example =
    derive_relation-Closed engine "nicked" 0 nicks 2 derived nicked (inl refl)

-- the rule of those who have a nickname, as it is written
abbrev nicked_text : Json
nicked_text = object (
    field "head" (array (items (string "nicked" ∷ string "?p" ∷ [])))
      (field "body" (array (items (pattern "person/nick" "_" ∷ []))) end))

nicked-parsed :
    parse_rules codec.is_attribute [] (nicked_text ∷ []) ≡ ok (("nicked", nicked ∷ []) ∷ [])
unfolding parse_rules
nicked-parsed = refl

parse_rules-IsSafe_example : IsSafe codec.is_attribute (("nicked", nicked ∷ []) ∷ [])
parse_rules-IsSafe_example =
    parse_rules-IsSafe codec.is_attribute (nicked_text ∷ []) (("nicked", nicked ∷ []) ∷ [])
      nicked-parsed

abbrev with_nicks : Engine
with_nicks = with_relation engine "nicked" nicks

-- people with an age, of those who have a nickname
abbrev rule_clauses : Items
rule_clauses = items (
    pattern "person/age" "?a"
    ∷ object (field "rule" (array (items (string "nicked" ∷ string "?p" ∷ []))) end)
    ∷ [])

with_nicks-HasArities : HasArities with_nicks
unfolding relation_of has_arity find_name with_relation
with_nicks-HasArities name tuple m n h = known (str_eq "nicked" name) m h
  where
    known :
        (same : Bool)
        → In tuple (elim (if same then some nicks else none) as (λ _. List Tuple) [
          | none ↦ []
          | some rows ↦ rows
        ])
        → has_arity (if same then some (nicked ∷ []) else none) n ≡ true
        → n ≡ length tuple
    known true (inl e) k = (==_iff n 1).0 k ∙ ap length (sym e)
    known true (inr i) k = absurd i.lower
    known false i k = absurd i.lower

eval_clauses-Sound_example : Have ("?p" ∷ "?p" ∷ "?a" ∷ []) (aged 41 ∷ [])
unfolding with_relation plain_clauses check_clauses eval_clauses
eval_clauses-Sound_example =
    eval_clauses-Sound with_nicks codec.is_attribute rule_clauses [] ("?p" ∷ "?p" ∷ "?a" ∷ [])
      ([] ∷ []) 0 (aged 41 ∷ []) 4 with_nicks-HasArities refl refl (λ a i name j. absurd j.lower)
      refl

-- two JSON strings
json_contains :
    compare_cells
      (operator_of "contains")
      (record { tag = Tag.json; value = CellValue.text "graph" })
      (record { tag = Tag.json; value = CellValue.text "rap" })
    ≡ ok true
unfolding compare_cells operator_of
json_contains = refl

-- two JSON truth values
json_order :
    compare_cells
      (operator_of "<")
      (record { tag = Tag.json; value = CellValue.boolean false })
      (record { tag = Tag.json; value = CellValue.boolean true })
    ≡ ok true
unfolding compare_cells operator_of
json_order = refl
