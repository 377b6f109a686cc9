-- ===== src/Temporal/Clock.antt =====
-- The time of a transaction (`nextTimestamp` of go/transact.go) beside those before it.
use fgraph.Base.{
  ◌≡◌, ◌⊎◌, inl, inr, refl, sym, subst, true, false, ◌&&◌, List, [], ◌∷◌, Option, none, some, arith,
  In, Bool-cases, ok, >>=-eq-ok,
}
use fgraph.Value.{ℤ, pos, negsuc, int64}
use fgraph.Fact.{RawFact, is_live}
use fgraph.Diff.Run.{ok-injective}
use fgraph.Temporal.{
  int_le, add_nat, is_time, integer_of, later, latest_time, after_latest, validate_instant_micros,
  next_timestamp,
}

int_le_refl : (z : ℤ) → int_le z z ≡ true
unfolding int_le
int_le_refl (pos n) = ground arith
int_le_refl (negsuc n) = ground arith

int_le_trans : (x y z : ℤ) → int_le x y ≡ true → int_le y z ≡ true → int_le x z ≡ true
unfolding int_le
int_le_trans (pos m) (pos n) (pos k) p q = ground arith
int_le_trans (pos m) (pos n) (negsuc k) p q = cc
int_le_trans (pos m) (negsuc n) (pos k) p q = cc
int_le_trans (pos m) (negsuc n) (negsuc k) p q = cc
int_le_trans (negsuc m) (pos n) (pos k) p q = refl
int_le_trans (negsuc m) (pos n) (negsuc k) p q = cc
int_le_trans (negsuc m) (negsuc n) (pos k) p q = refl
int_le_trans (negsuc m) (negsuc n) (negsuc k) p q = ground arith

int_le_total : (x y : ℤ) → int_le x y ≡ false → int_le y x ≡ true
unfolding int_le
int_le_total (pos m) (pos n) h = ground arith
int_le_total (pos m) (negsuc n) h = refl
int_le_total (negsuc m) (pos n) h = cc
int_le_total (negsuc m) (negsuc n) h = ground arith

add_nat-later : (z : ℤ) → int_le (add_nat z 1000000) z ≡ false
unfolding int_le add_nat
add_nat-later (pos n) = ground arith
add_nat-later (negsuc n) = ground arith

-- a best time that is at or after another
abbrev Covers : Option ℤ → ℤ → Type 0
Covers best z = (w : ℤ) × (best ≡ some w) × (int_le z w ≡ true)

some-injective {ℓ} : {A : Type ℓ} {a b : A} → some a ≡ some b → a ≡ b
some-injective e = cc

covers_of : (x z : ℤ) → some x ≡ some z → int_le z x ≡ true
covers_of x z e = subst (λ y. int_le y x ≡ true) (some-injective e) (int_le_refl x)

later-Covers : (x best : Option ℤ) (z : ℤ) → (x ≡ some z) ⊎ Covers best z → Covers (later x best) z
unfolding later
later-Covers none best z (inl e) = cc
later-Covers none best z (inr c) = c
later-Covers (some x) none z (inl e) = (x, refl, covers_of x z e)
later-Covers (some x) none z (inr (w, e, c)) = cc
later-Covers (some x) (some best) z h = elim (Bool-cases (int_le x best)) [
  | inl below ↦ (
    best,
    rw below refl,
    elim h [
      | inl e ↦ int_le_trans z x best (covers_of x z e) below
      | inr (w, e, c) ↦ subst (λ y. int_le z y ≡ true) (sym (some-injective e)) c
    ],
  )
  | inr above ↦ (
    x,
    rw above refl,
    elim h [
      | inl e ↦ covers_of x z e
      | inr (w, e, c) ↦
          int_le_trans z best x (subst (λ y. int_le z y ≡ true) (sym (some-injective e)) c)
            (int_le_total x best above)
    ],
  )
]

latest_time-Covers :
    (facts : List RawFact) (f : RawFact) (z : ℤ)
    → In f facts
    → is_time f ≡ true
    → is_live f ≡ true
    → f.v ≡ int64 z
    → Covers (latest_time facts) z
unfolding latest_time
latest_time-Covers [] f z m t l v = absurd m.lower
latest_time-Covers (g ∷ facts) f z (inl e) t l v =
    rw (← e, t, l, v) (later-Covers (some z) (latest_time facts) z (inl refl))
latest_time-Covers (g ∷ facts) f z (inr m) t l v = elim (Bool-cases (is_time g && is_live g)) [
  | inl counted ↦ rw counted (
      later-Covers (integer_of g.v) (latest_time facts) z
        (inr (latest_time-Covers facts f z m t l v)))
  | inr passed ↦ rw passed (latest_time-Covers facts f z m t l v)
]

after_latest-later :
    (latest : Option ℤ) (clock z : ℤ)
    → Covers latest z
    → int_le (after_latest latest clock) z ≡ false
unfolding after_latest
after_latest-later none clock z (w, e, c) = cc
after_latest-later (some latest) clock z (w, e, c) = elim (Bool-cases (int_le clock latest)) [
  | inl behind ↦ rw behind (not_at_or_before (add_nat latest 1000000) (add_nat-later latest))
  | inr ahead ↦ rw ahead (not_at_or_before clock ahead)
]
  where
    z_le : int_le z latest ≡ true
    z_le = subst (λ y. int_le z y ≡ true) (sym (some-injective e)) c

    not_at_or_before : (t : ℤ) → int_le t latest ≡ false → int_le t z ≡ false
    not_at_or_before t h = elim (Bool-cases (int_le t z)) [
      | inl b ↦ cc (int_le_trans t z latest b z_le, h)
      | inr b ↦ b
    ]

-- Where a call gives no time of its own and `nextTimestamp` returns, the time is later than that of
-- every live transaction, which is stored as an integer, whatever the clock says.
pub next_timestamp-later :
    (facts : List RawFact) (clock : ℤ) {time : ℤ}
    → next_timestamp facts clock none ≡ ok time
    → (f : RawFact) (z : ℤ) → In f facts
    → is_time f ≡ true
    → is_live f ≡ true
    → f.v ≡ int64 z
    → int_le time z ≡ false
unfolding next_timestamp
next_timestamp-later facts clock h f z m t l v =
    let (_, _, k) =
      >>=-eq-ok (validate_instant_micros (after_latest (latest_time facts) clock)) _ h in
    subst (λ y. int_le y z ≡ false) (ok-injective k)
      (after_latest-later (latest_time facts) clock z (latest_time-Covers facts f z m t l v))
