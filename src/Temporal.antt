-- ===== src/Temporal.antt =====
-- Views in time (go/temporal.go) and the time of the next transaction (`nextTimestamp` of
-- go/transact.go, `validateInstantMicros` of go/value.go).
pub mod Range
pub mod Clock
use fgraph.Base.{
  ℕ, ◌+◌, ◌-◌, Bool, true, false, not, ◌&&◌, ◌||◌, List, [], ◌∷◌, Option, none, some, ◌==◌, leb,
  ltb, if◌then◌else◌, keep, sort_by, Result, ok, fail, type_error, not_found, ◌>>=◌, reject_if,
}
use fgraph.Value.{ℤ, pos, negsuc, int_eq, Storage, int64, Tag, tag_eq}
use fgraph.Fact.{RawFact, is_live, is_transaction}

unfoldable pub int_le : ℤ → ℤ → Bool
int_le (pos m) (pos n) = leb m n
int_le (pos m) (negsuc n) = false
int_le (negsuc m) (pos n) = true
int_le (negsuc m) (negsuc n) = leb n m

unfoldable pub add_nat : ℤ → ℕ → ℤ
add_nat (pos m) n = pos (m + n)
add_nat (negsuc m) n = if leb n m then negsuc (m - n) else pos (n - (m + 1))

-- -62135596800000000, the first microsecond of year 1
abbrev pub min_instant_micros : ℤ
min_instant_micros = negsuc 62135596799999999

-- the last microsecond of year 9999
abbrev pub max_instant_micros : ℤ
max_instant_micros = pos 253402300799999999

-- `validateInstantMicros`
unfoldable pub validate_instant_micros : ℤ → Result (Unit {0})
unfolding int_le
validate_instant_micros micros =
    reject_if (not (int_le min_instant_micros micros) || not (int_le micros max_instant_micros))
      type_error

-- `a=1 AND tx=e AND t=5`: the row has the time of a transaction
unfoldable pub is_time : RawFact → Bool
unfolding tag_eq
is_time f = f.a == 1 && f.tx == f.e && tag_eq f.t Tag.instant

-- the integer of a column
abbrev pub integer_of : Storage → Option ℤ
integer_of (int64 z) = some z
integer_of _ = none

-- the larger of a time and the largest so far
unfoldable pub later : Option ℤ → Option ℤ → Option ℤ
unfolding int_le
later none best = best
later (some z) none = some z
later (some z) (some best) = if int_le z best then some best else some z

-- `SELECT MAX(v) FROM fgraph_facts WHERE a=1 AND tx=e AND t=5 AND rx IS NULL`
unfoldable pub latest_time : List RawFact → Option ℤ
unfolding is_time is_live later
latest_time [] = none
latest_time (f ∷ rest) =
    let best = latest_time rest in
    if is_time f && is_live f then later (integer_of f.v) best else best

-- the clock's time, or a second after the latest transaction's where the clock is not past it
unfoldable pub after_latest : Option ℤ → ℤ → ℤ
unfolding int_le add_nat
after_latest none proposed = proposed
after_latest (some latest) proposed =
    if int_le proposed latest then add_nat latest 1000000 else proposed

-- `nextTimestamp`
unfoldable pub next_timestamp : List RawFact → ℤ → Option ℤ → Result ℤ
unfolding validate_instant_micros latest_time after_latest
next_timestamp facts clock (some given) = validate_instant_micros given >>= λ _. ok given
next_timestamp facts clock none =
    let proposed = after_latest (latest_time facts) clock in
    validate_instant_micros proposed >>= λ _. ok proposed

-- the row of the latest of the times up to an instant, of two equal ones that of the later entity
unfoldable pub pick_later : Option (ℤ × ℕ) → Option (ℤ × ℕ) → Option (ℤ × ℕ)
unfolding int_le int_eq
pick_later none best = best
pick_later (some row) none = some row
pick_later (some (v, e)) (some (w, d)) =
    if int_le v w && (not (int_eq v w) || leb e d) then some (w, d) else some (v, e)

-- `e<=?` where the view has a transaction
unfoldable pub in_view : Option ℕ → ℕ → Bool
in_view none e = true
in_view (some as_of) e = leb e as_of

-- `v<=?`
unfoldable pub at_or_before : ℤ → ℕ → Storage → Option (ℤ × ℕ)
unfolding int_le
at_or_before micros e (int64 z) = if int_le z micros then some (z, e) else none
at_or_before micros e _ = none

unfoldable pub find_at : List RawFact → Option ℕ → ℤ → Option (ℤ × ℕ)
unfolding is_time in_view at_or_before pick_later
find_at [] as_of micros = none
find_at (f ∷ rest) as_of micros =
    let best = find_at rest as_of micros in
    if is_time f && in_view as_of f.e then pick_later (at_or_before micros f.e f.v) best else best

-- `AtInstant`: the transaction of the view
unfoldable pub at_instant : List RawFact → Option ℕ → ℤ → Result ℕ
unfolding validate_instant_micros find_at
at_instant facts as_of micros = validate_instant_micros micros >>= λ _.
    elim (find_at facts as_of micros) [ none ↦ fail not_found | some (_, tx) ↦ ok tx ]

-- the view at a transaction from a view
unfoldable pub clip : Option ℕ → ℕ → ℕ
clip none tx = tx
clip (some as_of) tx = if ltb as_of tx then as_of else tx

-- `viewAtInteger`, of a number that is not negative
unfoldable pub view_at_integer : List RawFact → Option ℕ → ℕ → Result ℕ
unfolding is_transaction clip at_instant
view_at_integer facts as_of value =
    if is_transaction facts value then ok (clip as_of value) else at_instant facts as_of (pos value)

-- `tx>? AND tx<=?`
unfoldable pub asserted_in : ℕ → ℕ → RawFact → Bool
asserted_in from to f = ltb from f.tx && leb f.tx to

-- `rx>? AND rx<=?`
unfoldable pub retracted_in : ℕ → ℕ → RawFact → Bool
retracted_in from to f = elim f.rx [ none ↦ false | some rx ↦ ltb from rx && leb rx to ]

abbrev pub end_of : RawFact → ℕ
end_of f = elim f.rx [ none ↦ 0 | some rx ↦ rx ]

-- `rangeFacts` for the two columns, before the rendering
unfoldable pub range_facts : List RawFact → ℕ → ℕ → List RawFact × List RawFact
unfolding asserted_in retracted_in sort_by
range_facts facts from to = (
  sort_by (λ f. f.tx) (sort_by (λ f. f.id) (keep (asserted_in from to) facts)),
  sort_by end_of (sort_by (λ f. f.id) (keep (retracted_in from to) facts)),
)

-- `Diff`: what was asserted and what was retracted after one transaction and up to another
unfoldable pub diff : List RawFact → Option ℕ → ℕ → ℕ → Result (List RawFact × List RawFact)
unfolding range_facts
diff facts none from to = reject_if (ltb to from) type_error >>= λ _. ok (range_facts facts from to)
diff facts (some as_of) from to = reject_if (ltb to from) type_error >>= λ _.
    if leb as_of from
    then ok ([], [])
    else ok (range_facts facts from (if ltb as_of to then as_of else to))
