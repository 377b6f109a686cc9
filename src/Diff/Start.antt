-- ===== src/Diff/Start.antt =====
-- The map of `diffPlan` before its first operation: one entry for each row read.
use fgraph.Base.{
  ◌≡◌, inl, inr, refl, sym, ap, ◌∙◌, Bool, true, false, not, ◌&&◌, ◌||◌, List, [], ◌∷◌, ◌++◌, map,
  In, In-map, In-append-right, any_of_In, Bool-cases,
}
use mathlib.Core.List.{append-nil, append_assoc}
use fgraph.Fact.{RawFact}
use fgraph.Diff.{
  Origin, stored, planned, WorkingFact, FactKey, key_of, key_eq, from_raw, put_working, has_key,
  fill_working, start_diff,
}
use fgraph.Diff.Keys.{key_eq-eq, key_eq_refl, put_working-append}
use fgraph.Diff.Noted.{dropped}
use fgraph.Diff.Tracks.{Tracks}
use fgraph.Diff.Slots.{Pairs, OneKey}

-- No two entries have one key.
abbrev pub keys_distinct : List WorkingFact → Bool
keys_distinct [] = true
keys_distinct (w ∷ ws) = not (has_key ws (key_of w)) && keys_distinct ws

key_eq_sym : (k l : FactKey) → key_eq k l ≡ key_eq l k
key_eq_sym k l = elim (Bool-cases (key_eq k l)) [
  | inl same ↦ let e = key_eq-eq k l same in ap (λ x. key_eq x l) e ∙ ap (λ x. key_eq l x) (sym e)
  | inr other ↦ elim (Bool-cases (key_eq l k)) [
    | inr both ↦ other ∙ sym both
    | inl same ↦ let e = key_eq-eq l k same in ap (λ x. key_eq x l) (sym e) ∙ ap (λ x. key_eq l x) e
  ]
]

and_true : (a b : Bool) → not a && b ≡ true → (a ≡ false) × (b ≡ true)
and_true false b h = (refl, h)
and_true true b h = absurd (cc)

or_false : (a b : Bool) → a ≡ false → b ≡ false → a || b ≡ false
or_false a b h k = rw (h, k)

other_key :
    (x : WorkingFact) (ws : List WorkingFact) (w : WorkingFact)
    → In w ws
    → has_key ws (key_of x) ≡ false
    → key_eq (key_of w) (key_of x) ≡ false
unfolding has_key
other_key x ws w m h = elim (Bool-cases (key_eq (key_of w) (key_of x))) [
  | inr other ↦ other
  | inl same ↦ let hit = any_of_In (λ y. key_eq (key_of y) (key_of x)) w ws m same in cc
]

has_key-append :
    (ws : List WorkingFact) (w : WorkingFact) (rest : List WorkingFact)
    → keys_distinct (ws ++ w ∷ rest) ≡ true
    → has_key ws (key_of w) ≡ false
unfolding has_key
has_key-append [] w rest h = refl
has_key-append (x ∷ ws) w rest h =
    let (apart, d) = and_true (has_key (ws ++ w ∷ rest) (key_of x)) _ h in
    or_false (key_eq (key_of x) (key_of w)) (has_key ws (key_of w))
      (key_eq_sym (key_of x) (key_of w)
        ∙ other_key x (ws ++ w ∷ rest) w (In-append-right w ws _ (inl refl)) apart)
      (has_key-append ws w rest d)

fill_working-append :
    (rows : List RawFact) (ws : List WorkingFact)
    → keys_distinct (ws ++ map from_raw rows) ≡ true
    → fill_working rows ws ≡ ws ++ map from_raw rows
unfolding fill_working
fill_working-append [] ws h = sym (append-nil ws)
fill_working-append (r ∷ rows) ws h =
    let e : put_working ws (from_raw r) ≡ ws ++ from_raw r ∷ [] =
      put_working-append ws (from_raw r) (has_key-append ws (from_raw r) (map from_raw rows) h) in
    let a : (ws ++ from_raw r ∷ []) ++ map from_raw rows ≡ ws ++ map from_raw (r ∷ rows) =
      append_assoc ws (from_raw r ∷ []) (map from_raw rows) in
    ap (fill_working rows) e
    ∙ fill_working-append rows (ws ++ from_raw r ∷ []) (ap keys_distinct a ∙ h)
    ∙ a

pub working-start_diff :
    (current : List RawFact)
    → keys_distinct (map from_raw current) ≡ true
    → (start_diff current).working ≡ map from_raw current
unfolding start_diff
working-start_diff current h = fill_working-append current [] h

pub keys_distinct-OneKey : (ws : List WorkingFact) → keys_distinct ws ≡ true → Pairs OneKey ws
keys_distinct-OneKey [] h v w m n e = absurd m.lower
keys_distinct-OneKey (x ∷ ws) h v w m n e =
    go (λ a b. keys_distinct-OneKey ws (and_true (has_key ws (key_of x)) _ h).1 v w a b e) m n
  where
    apart : has_key ws (key_of x) ≡ false
    apart = (and_true (has_key ws (key_of x)) _ h).0

    never : (y : WorkingFact) → In y ws → key_of y ≡ key_of x → ⊥
    never y k p =
        cc (ap (λ k. key_eq k (key_of x)) p, key_eq_refl (key_of x), other_key x ws y k apart)

    go : (In v ws → In w ws → v ≡ w) → In v (x ∷ ws) → In w (x ∷ ws) → v ≡ w
    go ih (inl p) (inl q) = p ∙ sym q
    go ih (inl p) (inr b) = absurd (never w b (sym e ∙ ap key_of p))
    go ih (inr a) (inl q) = absurd (never v a (e ∙ ap key_of q))
    go ih (inr a) (inr b) = ih a b

not_noted : (current : List RawFact) (o : Origin) → dropped (start_diff current) o ≡ false
unfolding start_diff
not_noted current (stored r) = refl
not_noted current (planned f) = refl

pub start_diff-Tracks :
    (current : List RawFact)
    → keys_distinct (map from_raw current) ≡ true
    → Tracks current (start_diff current)
unfolding start_diff from_raw
start_diff-Tracks current h =
    let e : fill_working current [] ≡ map from_raw current = fill_working-append current [] h in
    record {
      noted = record { rows = λ r m. absurd m.lower; keys = λ k id m. absurd m.lower };
      sound = λ w m. (inl (rw e at m), not_noted current w.origin);
      stored_in = λ r m d. rw e (In-map from_raw r current m);
      planned_in = λ f m d. absurd m.lower;
      orders = refl;
      canceled = λ f d. cc;
    }
