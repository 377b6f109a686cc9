-- ===== src/Diff/Keys.antt =====
-- The keys of the maps of `diffPlan`, and lookups by them.
use fgraph.Base.{
  ℕ, ◌≡◌, ◌≢◌, inl, inr, refl, sym, subst, Bool, true, false, not, List, [], ◌∷◌, ◌++◌, some, arith,
  ◌==◌, ==_iff, keep, any, all, In, keep-all, Bool-cases, distinct, if◌then◌else◌,
}
use fgraph.Value.Equality.{tag_eq-eq, tag_eq_refl, storage_key_eq-eq, storage_key_eq_refl}
use fgraph.Fact.{RawFact}
use fgraph.Diff.{WorkingFact, FactKey, key_of, key_eq, put_working, has_key, find_key, find_row}

pub key_eq-eq : (k l : FactKey) → key_eq k l ≡ true → k ≡ l
unfolding key_eq
key_eq-eq k l h = ground (arith, tag_eq-eq k.tag l.tag, storage_key_eq-eq k.storage l.storage)

pub key_eq_refl : (k : FactKey) → key_eq k k ≡ true
unfolding key_eq
key_eq_refl k = ground (arith, tag_eq_refl k.tag, storage_key_eq_refl k.storage)

all-not {ℓ} :
    {A : Type ℓ} (p : A → Bool) (xs : List A) → any p xs ≡ false → all (λ x. not (p x)) xs ≡ true
all-not p [] h = refl
all-not p (x ∷ xs) h = ground (arith, all-not p xs)

-- A new key goes in beside all the others.
pub put_working-append :
    (working : List WorkingFact) (w : WorkingFact)
    → has_key working (key_of w) ≡ false
    → put_working working w ≡ working ++ w ∷ []
unfolding put_working has_key
put_working-append working w h = rw (
    keep-all (λ x. not (key_eq (key_of x) (key_of w))) working
      (all-not (λ x. key_eq (key_of x) (key_of w)) working h))

pub has_key-keep :
    (p : WorkingFact → Bool) (working : List WorkingFact) (key : FactKey)
    → has_key working key ≡ false
    → has_key (keep p working) key ≡ false
unfolding has_key
has_key-keep p [] key h = refl
has_key-keep p (w ∷ ws) key h = ground (arith, has_key-keep p ws key)

pub find_key-In :
    (keys : List (FactKey × ℕ)) (key : FactKey) (id : ℕ)
    → find_key keys key ≡ some id
    → In (key, id) keys
unfolding find_key
find_key-In [] key id h = cc
find_key-In ((k, i) ∷ rest) key id h = elim (Bool-cases (key_eq k key)) [
  | inl same ↦ inl (let e : k ≡ key = key_eq-eq k key same in let s : i ≡ id = ground arith in cc)
  | inr other ↦ inr (find_key-In rest key id (ground arith))
]

find_row-cons :
    (q : RawFact) (rows : List RawFact) (id : ℕ)
    → find_row (q ∷ rows) id ≡ (if q.id == id then q else find_row rows id)
unfolding find_row
find_row-cons q rows id = refl

found_at :
    (x y : RawFact) (rows : List RawFact) (i : ℕ)
    → y ≡ x
    → In x rows × (x.id ≡ i)
    → In y rows × (y.id ≡ i)
found_at x y rows i e h = subst (λ z. In z rows × (z.id ≡ i)) (sym e) h

-- A row that is kept is found under its id.
pub find_row_of :
    (rows : List RawFact) (r : RawFact)
    → In r rows
    → In (find_row rows r.id) rows × ((find_row rows r.id).id ≡ r.id)
find_row_of [] r m = absurd m.lower
find_row_of (q ∷ rows) r m = elim (Bool-cases (q.id == r.id)) [
  | inl same ↦
      found_at q (find_row (q ∷ rows) r.id) (q ∷ rows) r.id (rw (find_row-cons, same))
        (inl refl, (==_iff q.id r.id).0 same)
  | inr other ↦
      let (n, i) = find_row_of rows r (elim m [ inl e ↦ absurd (ground arith) | inr k ↦ k ]) in
      found_at (find_row rows r.id) (find_row (q ∷ rows) r.id) (q ∷ rows) r.id
        (rw (find_row-cons, other)) (inr n, i)
]

pub distinct-append_one {ℓ} :
    {A : Type ℓ} (key : A → ℕ) (x : A) (xs : List A)
    → distinct key xs ≡ true
    → ((y : A) → In y xs → key y ≢ key x)
    → distinct key (xs ++ x ∷ []) ≡ true
distinct-append_one {A} key x [] h fresh = refl
distinct-append_one {A} key x (y ∷ ys) h fresh = ground (
  arith,
  any-append_one key x y ys (fresh y (inl refl)),
  distinct-append_one key x ys (ground arith) (λ z m. fresh z (inr m)),
)
  where
    any-append_one :
        (key : A → ℕ) (x y : A) (ys : List A)
        → key y ≢ key x
        → any (λ z. key z == key y) (ys ++ x ∷ []) ≡ any (λ z. key z == key y) ys
    any-append_one key x y [] ne = ground arith
    any-append_one key x y (z ∷ zs) ne = ground (arith, any-append_one key x y zs ne)
