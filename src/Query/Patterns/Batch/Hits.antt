-- ===== src/Query/Patterns/Batch/Hits.antt =====
-- What one row of a pattern gives (`evalIndexedPattern`, `evalBoundEntityBatch` of go/query.go).
use Prim.Native.String.{String}
use fgraph.Base.{
  ℕ, true, List, Option, none, some, ◌≡◌, refl, sym, ap, subst, ◌∙◌, keep, Result, ok, fail, In,
  inl, inr, In-keep, In-keep_of,
}
use fgraph.Value.{ℤ}
use fgraph.Diff.Run.{ok-injective}
use fgraph.Query.Values.{Json, CellValue, Binding}
use fgraph.Query.Eval.{
  Eval, ◌>>=◌, done, lift, spend, >>=-eq-ok, done-injective, In-collect, collect-In,
}
use fgraph.Query.Engine.{Engine}
use fgraph.Query.Terms.{match_terms}
use fgraph.Query.Rows.{Datom, actual_cells}
use fgraph.Query.Patterns.{to_list, read_row, entity_of, is_entity, read_batch_row}

lift-ok :
    {A : Type 0} (r : Result A) (work : ℕ) (x : A) (after : ℕ)
    → lift r work ≡ ok (x, after)
    → r ≡ ok x
lift-ok (ok y) work x after h = ap ok (done-injective h)
lift-ok (fail kind) work x after h = absurd (cc)

-- The pattern matches the row, from the one binding to the other.
abbrev pub Hit : Engine → List Json → Binding → Datom → Binding → Type 0
Hit e pattern values d b =
    (logical : CellValue) × (e.codec.logical d.fact.v d.fact.t ≡ ok logical)
    × (match_terms e pattern (actual_cells d logical) values ≡ ok (some b))

-- the step for a row whose value is known
abbrev pub match_row : Engine → List Json → CellValue → Datom → Binding → Eval (List Binding)
match_row e pattern logical d values = do
  matched ← lift (match_terms e pattern (actual_cells d logical) values)
  done (to_list matched)

to_list-In : (o : Option Binding) (b : Binding) → In b (to_list o) → o ≡ some b
to_list-In none b m = absurd m.lower
to_list-In (some x) b (inl e) = ap some (sym e)
to_list-In (some x) b (inr m) = absurd m.lower

match_row-Hit :
    (e : Engine) (pattern : List Json) (logical : CellValue) (d : Datom) (values : Binding)
    (work : ℕ) {found : List Binding} {after : ℕ}
    → match_row e pattern logical d values work ≡ ok (found, after)
    → (b : Binding) → In b found
    → match_terms e pattern (actual_cells d logical) values ≡ ok (some b)
match_row-Hit e pattern logical d values work h b m =
    let (matched, v, first, k) =
      >>=-eq-ok (lift (match_terms e pattern (actual_cells d logical) values))
        (λ found. done (to_list found)) work h in
    lift-ok (match_terms e pattern (actual_cells d logical) values) work matched v first
    ∙ ap ok (to_list-In matched b (subst (In b) (sym (done-injective k)) m))

Hit-match_row :
    (e : Engine) (pattern : List Json) (logical : CellValue) (d : Datom) (values : Binding)
    (work : ℕ) {found : List Binding} {after : ℕ}
    → match_row e pattern logical d values work ≡ ok (found, after)
    → (b : Binding) → match_terms e pattern (actual_cells d logical) values ≡ ok (some b)
    → In b found
Hit-match_row e pattern logical d values work h b k =
    let (matched, v, first, j) =
      >>=-eq-ok (lift (match_terms e pattern (actual_cells d logical) values))
        (λ found. done (to_list found)) work h in
    let same : ok (some b) ≡ ok matched =
      sym k
      ∙ lift-ok (match_terms e pattern (actual_cells d logical) values) work matched v first in
    subst (In b) (done-injective j) (subst (λ o. In b (to_list o)) (ok-injective same) (inl refl))

-- the same two facts for a row that a binding reads alone
pub read_row-Hit :
    (e : Engine) (pattern : List Json) (values : Binding) (d : Datom) (work : ℕ)
    {found : List Binding} {after : ℕ}
    → read_row e pattern values d work ≡ ok (found, after)
    → (b : Binding) → In b found
    → Hit e pattern values d b
unfolding read_row
read_row-Hit e pattern values d work h b m =
    let (_, v, _, j) = >>=-eq-ok (spend e.budget) _ work h in
    let (logical, w, l, k) = >>=-eq-ok (lift (e.codec.logical d.fact.v d.fact.t)) _ v j in
    (
      logical,
      lift-ok (e.codec.logical d.fact.v d.fact.t) v logical w l,
      match_row-Hit e pattern logical d values w k b m,
    )

same-logical : {a b : CellValue} {r : Result CellValue} → r ≡ ok a → r ≡ ok b → a ≡ b
same-logical h k = ok-injective (sym h ∙ k)

pub Hit-read_row :
    (e : Engine) (pattern : List Json) (values : Binding) (d : Datom) (work : ℕ)
    {found : List Binding} {after : ℕ}
    → read_row e pattern values d work ≡ ok (found, after)
    → (b : Binding) → Hit e pattern values d b
    → In b found
unfolding read_row
Hit-read_row e pattern values d work h b (logical, known, hit) =
    let (_, v, _, j) = >>=-eq-ok (spend e.budget) _ work h in
    let (read, w, l, k) = >>=-eq-ok (lift (e.codec.logical d.fact.v d.fact.t)) _ v j in
    Hit-match_row e pattern read d values w k b
      (rw (same-logical (lift-ok (e.codec.logical d.fact.v d.fact.t) v read w l) known) hit)

-- and for a row that a batch reads
pub read_batch_row-Hit :
    (e : Engine) (pattern : List Json) (name : String) (input : List Binding) (d : Datom) (work : ℕ)
    {found : List Binding} {after : ℕ}
    → read_batch_row e pattern name input d work ≡ ok (found, after)
    → (b : Binding) → In b found
    → (values : Binding) × In values input
      × (is_entity (entity_of name values) (ℤ.pos d.fact.e) ≡ true)
      × Hit e pattern values d b
unfolding read_batch_row
read_batch_row-Hit e pattern name input d work h b m =
    let (logical, v, l, k) = >>=-eq-ok (lift (e.codec.logical d.fact.v d.fact.t)) _ work h in
    let (values, found, s, t, at, stepped, i) = In-collect _ (keep _ input) v k b m in
    let (there, same) = In-keep _ values input at in
    let (_, u, _, j) = >>=-eq-ok (spend e.budget) _ s stepped in
    (
      values,
      there,
      same,
      (
        logical,
        lift-ok (e.codec.logical d.fact.v d.fact.t) work logical v l,
        match_row-Hit e pattern logical d values u j b i,
      ),
    )

pub Hit-read_batch_row :
    (e : Engine) (pattern : List Json) (name : String) (input : List Binding) (d : Datom) (work : ℕ)
    {found : List Binding} {after : ℕ}
    → read_batch_row e pattern name input d work ≡ ok (found, after)
    → (values b : Binding) → In values input
    → is_entity (entity_of name values) (ℤ.pos d.fact.e) ≡ true
    → Hit e pattern values d b
    → In b found
unfolding read_batch_row
Hit-read_batch_row e pattern name input d work h values b m same (logical, known, hit) =
    let (read, v, l, k) = >>=-eq-ok (lift (e.codec.logical d.fact.v d.fact.t)) _ work h in
    let (found, s, t, stepped, within) =
      collect-In _ (keep _ input) v k values (In-keep_of _ values input m same) in
    let (_, u, _, j) = >>=-eq-ok (spend e.budget) _ s stepped in
    within b (
      Hit-match_row e pattern read d values u j b
        (rw (same-logical (lift-ok (e.codec.logical d.fact.v d.fact.t) work read v l) known) hit))
