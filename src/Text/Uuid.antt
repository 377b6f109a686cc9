-- ===== src/Text/Uuid.antt =====
-- `formatUUID` and `parseUUID` of go/event.go.
use fgraph.Base.{
  ℕ, zero, suc, ◌+◌, ◌-◌, ◌/◌, ◌%◌, ◌≤◌, ◌≡◌, refl, sym, ap, ◌∙◌, Bool, true, false, not, ◌&&◌,
  ◌||◌, List, [], ◌∷◌, ◌++◌, none, some, arith, ◌==◌, if◌then◌else◌, any, all, keep, keep-append,
  keep-all, length, length-append, take, drop, get_elem?, take-append-drop, Result, ok, fail,
  type_error,
}
use fgraph.Text.Hex.{
  hex_digit, encode_hex, decode_hex, is_upper, are_bytes, decode_hex-encode_hex, length-encode_hex,
  encode_hex-lower,
}

unfoldable pub format_uuid : List ℕ → List ℕ
format_uuid id =
    let raw = encode_hex id in
    take 8 raw
    ++ b'-'
      ∷ (take 4 (drop 8 raw)
          ++ b'-' ∷ (take 4 (drop 12 raw) ++ b'-' ∷ (take 4 (drop 16 raw) ++ b'-' ∷ drop 20 raw)))

unfoldable pub is_dash_at : List ℕ → ℕ → Bool
is_dash_at value i = elim (get_elem? value i) [ some c ↦ c == b'-' | none ↦ false ]

-- a canonical lowercase UUID has 36 characters, with dashes at four of them
unfoldable pub has_uuid_shape : List ℕ → Bool
unfolding is_dash_at is_upper
has_uuid_shape value =
    length value == 36
    && is_dash_at value 8
    && is_dash_at value 13
    && is_dash_at value 18
    && is_dash_at value 23
    && not (any is_upper value)

unfoldable pub parse_uuid : List ℕ → Result (List ℕ)
parse_uuid value =
    if has_uuid_shape value
    then elim (decode_hex (keep (λ c. not (c == b'-')) value)) [
      | none ↦ fail type_error
      | some decoded ↦ if length decoded == 16 then ok decoded else fail type_error
    ]
    else fail type_error

abbrev dashed : List ℕ → List ℕ → List ℕ
dashed part rest = part ++ b'-' ∷ rest

get_elem?-append {ℓ} :
    {A : Type ℓ} (xs ys : List A) (n i : ℕ)
    → length xs ≡ n
    → get_elem? (xs ++ ys) (n + i) ≡ get_elem? ys i
get_elem?-append [] ys n i h = let e : n + i ≡ i = omega arith in ap (get_elem? ys) e
get_elem?-append (x ∷ xs) ys n i h =
    let e : n + i ≡ suc (length xs + i) = omega arith in
    ap (get_elem? (x ∷ (xs ++ ys))) e ∙ get_elem?-append xs ys (length xs) i refl

-- A dash stands behind the first part, and what is at a place in the rest stands further on.
dash_at-dashed :
    (part rest : List ℕ) (n : ℕ) → length part ≡ n → is_dash_at (dashed part rest) (n + 0) ≡ true
unfolding is_dash_at
dash_at-dashed part rest n h = rw (is_dash_at, get_elem?-append part (b'-' ∷ rest) n 0 h)

dash_at-later :
    (part rest : List ℕ) (n i : ℕ)
    → length part ≡ n
    → is_dash_at (dashed part rest) (n + suc i) ≡ is_dash_at rest i
unfolding is_dash_at
dash_at-later part rest n i h = rw (is_dash_at, get_elem?-append part (b'-' ∷ rest) n (suc i) h)

any-append {ℓ} :
    {A : Type ℓ} (p : A → Bool) (xs ys : List A) → any p (xs ++ ys) ≡ (any p xs || any p ys)
any-append p [] ys = refl
any-append p (x ∷ xs) ys = ground (arith, any-append p xs ys)

drop-drop {ℓ} : {A : Type ℓ} (n m : ℕ) (xs : List A) → drop m (drop n xs) ≡ drop (n + m) xs
drop-drop zero m xs = let e : m ≡ 0 + m = omega arith in ap (λ k. drop k xs) e
drop-drop (suc n) zero [] = let e : suc n ≡ suc n + 0 = omega arith in ap (λ k. drop k []) e
drop-drop (suc n) (suc m) [] =
    let p : suc (n + suc m) ≡ suc n + suc m = omega arith in ap (λ k. drop k []) p
drop-drop (suc n) m (x ∷ xs) =
    let e : suc (n + m) ≡ suc n + m = omega arith in drop-drop n m xs ∙ ap (λ k. drop k (x ∷ xs)) e

-- The five parts of a UUID, by length, and what each of their characters is.
record AreParts (a b c d e : List ℕ) : Type 0 where
  la : length a ≡ 8
  lb : length b ≡ 4
  lc : length c ≡ 4
  ld : length d ≡ 4
  le : length e ≡ 12

shape-parts :
    (a b c d e : List ℕ)
    → AreParts a b c d e
    → any is_upper (dashed a (dashed b (dashed c (dashed d e)))) ≡ false
    → has_uuid_shape (dashed a (dashed b (dashed c (dashed d e)))) ≡ true
unfolding has_uuid_shape
shape-parts a b c d e p lower = ground (
  arith,
  lower,
  length-append a (b'-' ∷ dashed b (dashed c (dashed d e))),
  length-append b (b'-' ∷ dashed c (dashed d e)),
  length-append c (b'-' ∷ dashed d e),
  length-append d (b'-' ∷ e),
  dash_at-dashed a (dashed b (dashed c (dashed d e))) 8 p.la,
  dash_at-later a (dashed b (dashed c (dashed d e))) 8 4 p.la,
  dash_at-later a (dashed b (dashed c (dashed d e))) 8 9 p.la,
  dash_at-later a (dashed b (dashed c (dashed d e))) 8 14 p.la,
  dash_at-dashed b (dashed c (dashed d e)) 4 p.lb,
  dash_at-later b (dashed c (dashed d e)) 4 4 p.lb,
  dash_at-later b (dashed c (dashed d e)) 4 9 p.lb,
  dash_at-dashed c (dashed d e) 4 p.lc,
  dash_at-later c (dashed d e) 4 4 p.lc,
  dash_at-dashed d e 4 p.ld,
)

length-take_of {ℓ} : {A : Type ℓ} (n : ℕ) (xs : List A) → n ≤ length xs → length (take n xs) ≡ n
length-take_of zero xs h = refl
length-take_of (suc n) [] h = absurd (omega arith)
length-take_of (suc n) (x ∷ xs) h = ap suc (length-take_of n xs (omega arith))

length-drop {ℓ} : {A : Type ℓ} (n : ℕ) (xs : List A) → length (drop n xs) ≡ length xs - n
length-drop zero xs = omega arith
length-drop (suc n) [] = omega arith
length-drop (suc n) (x ∷ xs) = omega (arith, length-drop n xs)

abbrev is_plain : ℕ → Bool
is_plain c = not (c == b'-')

-- the five parts without dashes
abbrev joined : List ℕ → List ℕ → List ℕ → List ℕ → List ℕ → List ℕ
joined a b c d e = a ++ (b ++ (c ++ (d ++ e)))

any-dashed :
    (a b c d e : List ℕ)
    → any is_upper (dashed a (dashed b (dashed c (dashed d e)))) ≡ any is_upper (joined a b c d e)
unfolding is_upper
any-dashed a b c d e = simp any-append

keep-dashed :
    (a b c d e : List ℕ)
    → keep is_plain (dashed a (dashed b (dashed c (dashed d e)))) ≡ keep is_plain (joined a b c d e)
keep-dashed a b c d e = simp keep-append

hex_digit-plain : (n : ℕ) → is_plain (hex_digit n) ≡ true
unfolding hex_digit
hex_digit-plain n = ground arith

encode_hex-plain : (bytes : List ℕ) → all is_plain (encode_hex bytes) ≡ true
unfolding encode_hex
encode_hex-plain [] = refl
encode_hex-plain (b ∷ rest) =
    ground (arith, hex_digit-plain (b / 16), hex_digit-plain (b % 16), encode_hex-plain rest)

module _ (raw : List ℕ) (full : length raw ≡ 32) where
  joined-parts :
      joined
        (take 8 raw)
        (take 4 (drop 8 raw))
        (take 4 (drop 12 raw))
        (take 4 (drop 16 raw))
        (drop 20 raw)
      ≡ raw
  joined-parts =
      let tail16 : take 4 (drop 16 raw) ++ drop 20 raw ≡ drop 16 raw =
        ap (◌++◌ (take 4 (drop 16 raw))) (sym (drop-drop 16 4 raw))
        ∙ take-append-drop 4 (drop 16 raw) in
      let tail12 : take 4 (drop 12 raw) ++ drop 16 raw ≡ drop 12 raw =
        ap (◌++◌ (take 4 (drop 12 raw))) (sym (drop-drop 12 4 raw))
        ∙ take-append-drop 4 (drop 12 raw) in
      let tail8 : take 4 (drop 8 raw) ++ drop 12 raw ≡ drop 8 raw =
        ap (◌++◌ (take 4 (drop 8 raw))) (sym (drop-drop 8 4 raw))
        ∙ take-append-drop 4 (drop 8 raw) in
      rw (tail16, tail12, tail8) (take-append-drop 8 raw)

  parts-lengths :
      AreParts
        (take 8 raw)
        (take 4 (drop 8 raw))
        (take 4 (drop 12 raw))
        (take 4 (drop 16 raw))
        (drop 20 raw)
  parts-lengths = record {
    la = length-take_of 8 raw (omega arith);
    lb = length-take_of 4 (drop 8 raw) (omega (arith, length-drop 8 raw));
    lc = length-take_of 4 (drop 12 raw) (omega (arith, length-drop 12 raw));
    ld = length-take_of 4 (drop 16 raw) (omega (arith, length-drop 16 raw));
    le = omega (arith, length-drop 20 raw);
  }

parse_uuid_of :
    (value raw decoded : List ℕ)
    → has_uuid_shape value ≡ true
    → keep is_plain value ≡ raw
    → decode_hex raw ≡ some decoded
    → length decoded ≡ 16
    → parse_uuid value ≡ ok decoded
unfolding parse_uuid
parse_uuid_of value raw decoded shape compact digits sixteen =
    ground (arith, shape, ap decode_hex compact ∙ digits)

-- Sixteen bytes that are written as a UUID are read back from it.
pub parse_uuid-format_uuid :
    (id : List ℕ) → length id ≡ 16 → are_bytes id ≡ true → parse_uuid (format_uuid id) ≡ ok id
unfolding format_uuid
parse_uuid-format_uuid id sixteen bytes =
    let raw = encode_hex id in
    let full : length raw ≡ 32 = omega (arith, length-encode_hex id) in
    let a = take 8 raw in
    let b = take 4 (drop 8 raw) in
    let c = take 4 (drop 12 raw) in
    let d = take 4 (drop 16 raw) in
    let e = drop 20 raw in
    let shape : has_uuid_shape (dashed a (dashed b (dashed c (dashed d e)))) ≡ true =
      shape-parts a b c d e (parts-lengths raw full) (
        any-dashed a b c d e
        ∙ ap (any is_upper) (joined-parts raw full)
        ∙ encode_hex-lower id bytes) in
    let compact : keep is_plain (dashed a (dashed b (dashed c (dashed d e)))) ≡ raw =
      keep-dashed a b c d e
      ∙ ap (keep is_plain) (joined-parts raw full)
      ∙ keep-all is_plain raw (encode_hex-plain id) in
    parse_uuid_of _ raw id shape compact (decode_hex-encode_hex id bytes) sixteen
