-- ===== src/Query/Patterns/Batch/Same.antt =====
-- A pattern read in a batch and binding by binding (`evalPattern` of go/query.go).
use Prim.Native.String.{String}
use fgraph.Base.{
  ℕ, true, List, [], ◌∷◌, Option, some, ◌==◌, ◌≡◌, refl, sym, subst, ◌∙◌, arith, keep, length,
  both_true, ok, In, In-keep, In-keep_of, In-sort_by, sort_by-In, any_of_In, ◌↔◌,
}
use fgraph.Value.{ℤ, pos, int_eq}
use fgraph.Value.Equality.{int_eq-eq, int_eq_refl}
use fgraph.Query.Values.{Json, string, Cell, Binding}
use fgraph.Query.Eval.{collect, In-collect, collect-In}
use fgraph.Query.Engine.{Engine}
use fgraph.Query.Terms.{constant, shape_of}
use fgraph.Query.Rows.{
  Datom, base_rows, passes, in_order, make_filter, prepare_terms, entity_positions,
}
use fgraph.Query.Patterns.{
  read_row, read_rows, eval_indexed_pattern, entity_of, is_entity, entities_of, chunks, chunk_rows,
  read_batch_row, read_batch, batched, plan_batch, scan_pattern,
}
use fgraph.Query.Patterns.Batch.{Batched, plan_batch-Batched}
use fgraph.Query.Patterns.Batch.Rows.{
  has_entities-some, entity_filter, prepare-filter, passes-entity, entity-passes,
}
use fgraph.Query.Patterns.Batch.Chunks.{chunks-cover, entities_of-In}
use fgraph.Query.Patterns.Batch.Hits.{
  Hit, read_row-Hit, Hit-read_row, read_batch_row-Hit, Hit-read_batch_row,
}

-- sorting keeps the rows
in_order-In : (d : Datom) (rows : List Datom) → In d (in_order rows) → In d rows
unfolding in_order
in_order-In d rows m = sort_by-In _ d _ (sort_by-In _ d _ (sort_by-In _ d _ (sort_by-In _ d _ m)))

In-in_order : (d : Datom) (rows : List Datom) → In d rows → In d (in_order rows)
unfolding in_order
In-in_order d rows m = In-sort_by _ d _ (In-sort_by _ d _ (In-sort_by _ d _ (In-sort_by _ d _ m)))

chunk_rows-In :
    (e : Engine) (attr : ℕ) (chunk : List ℤ) (d : Datom)
    → In d (chunk_rows e attr chunk)
    → In d (base_rows e) × ((d.fact.a == attr) ≡ true)
unfolding chunk_rows
chunk_rows-In e attr chunk d m =
    let (there, tests) = In-keep _ d (base_rows e) (sort_by-In _ d _ m) in
    (there, (both_true (d.fact.a == attr) _ tests).0)

In-chunk_rows :
    (e : Engine) (attr : ℕ) (chunk : List ℤ) (d : Datom)
    → In d (base_rows e)
    → (d.fact.a == attr) ≡ true
    → In (pos d.fact.e) chunk
    → In d (chunk_rows e attr chunk)
unfolding chunk_rows
In-chunk_rows e attr chunk d m same i = In-sort_by _ d _ (
    In-keep_of _ d (base_rows e) m (
      rw
        (
          same,
          any_of_In (λ id. int_eq id (pos d.fact.e)) (pos d.fact.e) chunk i
              (int_eq_refl (pos d.fact.e)),
        )
        refl))

-- the entity of a row
is_entity-eq : (known : Option ℤ) (id n : ℤ) → known ≡ some id → is_entity known n ≡ true → id ≡ n
unfolding is_entity
is_entity-eq known id n h k = int_eq-eq id n (subst (λ o. is_entity o n ≡ true) h k)

is_entity_of : (known : Option ℤ) (id n : ℤ) → known ≡ some id → id ≡ n → is_entity known n ≡ true
unfolding is_entity
is_entity_of known id n h k = rw (h, k) (int_eq_refl n)

module _ (e : Engine) (pattern : List Json) (values : Binding) (cells : List (Option Cell)) (id : ℤ)
    (attr : ℕ) (prepared : prepare_terms e pattern entity_positions values ≡ ok (some cells))
    (filtered : make_filter e cells ≡ ok (entity_filter id attr)) where
  -- what a binding reads alone, where its filter is known
  alone-eq :
      (work : ℕ)
      → eval_indexed_pattern e pattern values work
        ≡ collect
            (read_row e pattern values)
            (in_order (keep (passes (entity_filter id attr)) (base_rows e)))
            work
  unfolding eval_indexed_pattern read_rows
  alone-eq work = rw (prepared, read_rows, filtered) refl

  pub alone-Hit :
      (work : ℕ) {found : List Binding} {after : ℕ}
      → eval_indexed_pattern e pattern values work ≡ ok (found, after)
      → (b : Binding) → In b found
      → (d : Datom) × In d (base_rows e)
        × (id ≡ pos d.fact.e)
        × ((d.fact.a == attr) ≡ true)
        × Hit e pattern values d b
  alone-Hit work h b m =
      let (d, rows, v, w, at, stepped, i) =
        In-collect (read_row e pattern values) _ work (sym (alone-eq work) ∙ h) b m in
      let (there, p) =
        In-keep (passes (entity_filter id attr)) d (base_rows e) (in_order-In d _ at) in
      let (same, of_attr) = passes-entity id attr d p in
      (d, there, same, of_attr, read_row-Hit e pattern values d v stepped b i)

  pub Hit-alone :
      (work : ℕ) {found : List Binding} {after : ℕ}
      → eval_indexed_pattern e pattern values work ≡ ok (found, after)
      → (b : Binding) (d : Datom) → In d (base_rows e)
      → id ≡ pos d.fact.e
      → (d.fact.a == attr) ≡ true
      → Hit e pattern values d b
      → In b found
  Hit-alone work h b d there same of_attr hit =
      let (rows, v, w, stepped, within) =
        collect-In (read_row e pattern values) _ work (sym (alone-eq work) ∙ h) d (
          In-in_order d _ (
            In-keep_of (passes (entity_filter id attr)) d (base_rows e) there
              (entity-passes id attr d same of_attr))) in
      within b (Hit-read_row e pattern values d v stepped b hit)

module _ (e : Engine) (name attribute : String) (term : Json) (input : List Binding) (attr : ℕ)
    (plan : Batched e name attribute term input attr)
    (resolves : e.codec.resolve (string attribute) ≡ ok (some attr))
    (is_constant : shape_of (string attribute) ≡ constant) where
  abbrev pattern : List Json
  pattern = string name ∷ string attribute ∷ term ∷ []

  batch-alone :
      (work start : ℕ) {found alone : List Binding} {after stop : ℕ}
      → read_batch e pattern name attr input work ≡ ok (found, after)
      → collect (eval_indexed_pattern e pattern) input start ≡ ok (alone, stop)
      → (b : Binding) → In b found
      → In b alone
  unfolding read_batch
  batch-alone work start h k b m =
      let (chunk, part, v, w, _, stepped, i) =
        In-collect (λ part. collect (read_batch_row e pattern name input) (chunk_rows e attr part))
          (chunks (length (entities_of name input)) (entities_of name input)) work h b m in
      let (d, some_rows, s, t, at, read, j) =
        In-collect (read_batch_row e pattern name input) (chunk_rows e attr chunk) v stepped b i in
      let (there, of_attr) = chunk_rows-In e attr chunk d at in
      let (values, given, same, hit) = read_batch_row-Hit e pattern name input d s read b j in
      let (id, known) = has_entities-some name input values plan.entities given in
      let (cells, prepared, filtered) =
        prepare-filter e name attribute term input attr plan resolves is_constant values id given
          known in
      let (rows, p, q, one, within) =
        collect-In (eval_indexed_pattern e pattern) input start k values given in
      within b (
        Hit-alone e pattern values cells id attr prepared filtered p one b d there
          (is_entity-eq (entity_of name values) id (pos d.fact.e) known same) of_attr hit)

  alone-batch :
      (work start : ℕ) {found alone : List Binding} {after stop : ℕ}
      → read_batch e pattern name attr input work ≡ ok (found, after)
      → collect (eval_indexed_pattern e pattern) input start ≡ ok (alone, stop)
      → (b : Binding) → In b alone
      → In b found
  unfolding read_batch
  alone-batch work start h k b m =
      let (values, rows, p, q, given, one, i) =
        In-collect (eval_indexed_pattern e pattern) input start k b m in
      let (id, known) = has_entities-some name input values plan.entities given in
      let (cells, prepared, filtered) =
        prepare-filter e name attribute term input attr plan resolves is_constant values id given
          known in
      let (d, there, same, of_attr, hit) =
        alone-Hit e pattern values cells id attr prepared filtered p one b i in
      let (chunk, at, inside) =
        chunks-cover (length (entities_of name input)) (entities_of name input) id (omega arith)
          (entities_of-In name input values id given known) in
      let (part, v, w, stepped, within) =
        collect-In (λ part. collect (read_batch_row e pattern name input) (chunk_rows e attr part))
          (chunks (length (entities_of name input)) (entities_of name input)) work h chunk at in
      let (found_rows, s, t, read, inner) =
        collect-In (read_batch_row e pattern name input) (chunk_rows e attr chunk) v stepped d
          (In-chunk_rows e attr chunk d there of_attr (subst (λ x. In x chunk) same inside)) in
      within b (
        inner b (
          Hit-read_batch_row e pattern name input d s read values b given
            (is_entity_of (entity_of name values) id (pos d.fact.e) known same) hit))

-- Where a pattern is planned as a batch, and the resolver and the names agree on its attribute, which is
-- written as a constant: if the batch and the reading of each binding alone both return, then they find
-- the same bindings.
pub scan_pattern-In :
    (e : Engine) (name attribute : String) (term : Json) (input : List Binding) (chosen : String)
    (attr : ℕ) (work start : ℕ) (found alone : List Binding) (after stop : ℕ)
    → plan_batch e (string name ∷ string attribute ∷ term ∷ []) input ≡ batched chosen attr
    → e.codec.resolve (string attribute) ≡ ok (some attr)
    → shape_of (string attribute) ≡ constant
    → scan_pattern e (string name ∷ string attribute ∷ term ∷ []) input (batched chosen attr) work
      ≡ ok (found, after)
    → collect (eval_indexed_pattern e (string name ∷ string attribute ∷ term ∷ [])) input start
      ≡ ok (alone, stop)
    → (b : Binding) → In b found ↔ In b alone
unfolding scan_pattern
scan_pattern-In e name attribute term input chosen attr work start found alone after stop planned
      resolves const h k b =
    let (same, plan) = plan_batch-Batched e name attribute term input planned in
    let h' : read_batch e (string name ∷ string attribute ∷ term ∷ []) name attr input work
        ≡ ok (found, after) =
      subst
        (λ x.
          read_batch e (string name ∷ string attribute ∷ term ∷ []) x attr input work
          ≡ ok (found, after))
        (sym same) h in
    (
      batch-alone e name attribute term input attr plan resolves const work start h' k b,
      alone-batch e name attribute term input attr plan resolves const work start h' k b,
    )
