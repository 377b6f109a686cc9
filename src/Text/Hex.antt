-- ===== src/Text/Hex.antt =====
-- Hexadecimal, as `encoding/hex` writes and reads it, and `decodeLowerHex` of go/apply.go.
use fgraph.Base.{
  ℕ, ◌+◌, ◌-◌, ◌*◌, ◌/◌, ◌%◌, ◌<◌, ◌≡◌, refl, Bool, true, false, not, ◌&&◌, ◌||◌, List, [], ◌∷◌,
  Option, none, some, arith, ◌==◌, ltb, leb, if◌then◌else◌, any, all, length, Result, ok, fail,
  type_error, ◌∙◌, ◌↔◌, ◌⊎◌, inl, inr, ap, Bool-cases, Option-cases,
}

-- `"0123456789abcdef"[n]`
unfoldable pub hex_digit : ℕ → ℕ
hex_digit n = if ltb n 10 then 48 + n else 87 + n

-- `hex.EncodeToString`
unfoldable pub encode_hex : List ℕ → List ℕ
unfolding hex_digit
encode_hex [] = []
encode_hex (byte ∷ rest) = hex_digit (byte / 16) ∷ hex_digit (byte % 16) ∷ encode_hex rest

unfoldable pub hex_value : ℕ → Option ℕ
hex_value c =
    if leb b'0' c && leb c b'9'
    then some (c - b'0')
    else if leb b'a' c && leb c b'f'
    then some (c - b'a' + 10)
    else if leb b'A' c && leb c b'F'
    then some (c - b'A' + 10)
    else none

unfoldable pub join_nibbles : Option ℕ → Option ℕ → Option ℕ
join_nibbles (some high) (some low) = some (high * 16 + low)
join_nibbles _ _ = none

unfoldable pub cons_byte : Option ℕ → Option (List ℕ) → Option (List ℕ)
cons_byte (some byte) (some rest) = some (byte ∷ rest)
cons_byte _ _ = none

-- `hex.DecodeString`: an odd length or another character is an error
unfoldable pub decode_hex : List ℕ → Option (List ℕ)
unfolding hex_value join_nibbles cons_byte
decode_hex [] = some []
decode_hex (_ ∷ []) = none
decode_hex (high ∷ low ∷ rest) =
    cons_byte (join_nibbles (hex_value high) (hex_value low)) (decode_hex rest)

unfoldable pub is_upper : ℕ → Bool
is_upper c = leb b'A' c && leb c b'Z'

-- `decodeLowerHex`, of a text: a character past ASCII is no hexadecimal digit
unfoldable pub decode_lower_hex : List ℕ → ℕ → Result (List ℕ)
unfolding is_upper decode_hex
decode_lower_hex text bytes =
    if not (length text == bytes * 2) || any is_upper text
    then fail type_error
    else elim (decode_hex text) [ none ↦ fail type_error | some decoded ↦ ok decoded ]

abbrev pub are_bytes : List ℕ → Bool
are_bytes = all (λ b. ltb b 256)

pub hex_value-hex_digit : (n : ℕ) → n < 16 → hex_value (hex_digit n) ≡ some n
unfolding hex_value hex_digit
hex_value-hex_digit n h = ground arith

pub hex_value-zero : hex_value b'0' ≡ some 0
unfolding hex_value
hex_value-zero = refl

-- What is encoded is decoded.
pub decode_hex-encode_hex :
    (bytes : List ℕ) → are_bytes bytes ≡ true → decode_hex (encode_hex bytes) ≡ some bytes
unfolding decode_hex encode_hex
decode_hex-encode_hex [] h = refl
decode_hex-encode_hex (b ∷ rest) h = ground (
  arith,
  hex_value-hex_digit (b / 16) (ground arith),
  hex_value-hex_digit (b % 16) (omega arith),
  decode_hex-encode_hex rest,
)

pub length-encode_hex : (bytes : List ℕ) → length (encode_hex bytes) ≡ length bytes * 2
unfolding encode_hex
length-encode_hex [] = refl
length-encode_hex (b ∷ rest) = omega (arith, length-encode_hex rest)

lower_digit : (n : ℕ) → n < 16 → is_upper (hex_digit n) ≡ false
unfolding is_upper hex_digit
lower_digit n h = ground arith

pub encode_hex-lower :
    (bytes : List ℕ) → are_bytes bytes ≡ true → any is_upper (encode_hex bytes) ≡ false
unfolding encode_hex
encode_hex-lower [] h = refl
encode_hex-lower (b ∷ rest) h = ground (
  arith,
  lower_digit (b / 16) (ground arith),
  lower_digit (b % 16) (omega arith),
  encode_hex-lower rest,
)

-- a digit that is no capital letter is the one that is written for its value
hex_digit-hex_value :
    (c d : ℕ) → hex_value c ≡ some d → is_upper c ≡ false → (d < 16) × (hex_digit d ≡ c)
unfolding hex_value hex_digit is_upper
hex_digit-hex_value c d h low = ground arith

byte_lt : (d d' : ℕ) → d < 16 → d' < 16 → d * 16 + d' < 256
byte_lt d d' h k = omega arith

byte_high : (d d' : ℕ) → d' < 16 → (d * 16 + d') / 16 ≡ d
byte_high d d' h = omega arith

byte_low : (d d' : ℕ) → d' < 16 → (d * 16 + d') % 16 ≡ d'
byte_low d d' h = omega arith

-- A text without capitals that is decoded is what is written for its bytes.
encode_hex-decode_hex :
    (text bytes : List ℕ)
    → decode_hex text ≡ some bytes
    → any is_upper text ≡ false
    → (are_bytes bytes ≡ true) × (text ≡ encode_hex bytes)
unfolding decode_hex encode_hex
encode_hex-decode_hex [] [] h low = (refl, refl)
encode_hex-decode_hex [] (b ∷ bytes) h low = absurd (cc)
encode_hex-decode_hex (_ ∷ []) bytes h low = absurd (cc)
encode_hex-decode_hex (x ∷ y ∷ rest) bytes h low =
    pair (Option-cases (hex_value x)) (Option-cases (hex_value y)) (Option-cases (decode_hex rest))
      (encode_hex-decode_hex rest)
  where
    pair :
        (hex_value x ≡ none) ⊎ ((d : ℕ) × (hex_value x ≡ some d))
        → (hex_value y ≡ none) ⊎ ((d : ℕ) × (hex_value y ≡ some d))
        → (decode_hex rest ≡ none) ⊎ ((bs : List ℕ) × (decode_hex rest ≡ some bs))
        → ((bs : List ℕ)
            → decode_hex rest ≡ some bs
            → any is_upper rest ≡ false
            → (are_bytes bs ≡ true) × (rest ≡ encode_hex bs))
        → (are_bytes bytes ≡ true) × ((x ∷ y ∷ rest) ≡ encode_hex bytes)
    pair (inl e) _ _ ih = absurd (ground (arith, e, h))
    pair (inr (d, e)) (inl k) _ ih = absurd (ground (arith, e, k, h))
    pair (inr (d, e)) (inr (d', k)) (inl n) ih = absurd (ground (arith, e, k, n, h))
    pair (inr (d, e)) (inr (d', k)) (inr (bs, n)) ih =
        let e0 : Path (List ℕ) ((d * 16 + d') ∷ bs) bytes = ground (arith, e, k, n, h) in
        let (m, x_is) = hex_digit-hex_value x d e (ground (arith, low)) in
        let (m', y_is) = hex_digit-hex_value y d' k (ground (arith, low)) in
        let (all_bytes, rest_is) = ih bs n (ground (arith, low)) in
        rw (← e0) (
          ground (arith, all_bytes, byte_lt d d' m m'),
          ground (arith, x_is, y_is, rest_is, byte_high d d' m', byte_low d d' m'),
        )

-- `decodeLowerHex` reads exactly what is written in lower case for as many bytes as it is asked for:
-- it returns some bytes just when the text is their hexadecimal form and they are of that number.
pub decode_lower_hex-encode_hex :
    (text bytes : List ℕ) (size : ℕ)
    → (decode_lower_hex text size ≡ ok bytes)
      ↔ ((are_bytes bytes ≡ true) × (length bytes ≡ size) × (text ≡ encode_hex bytes))
unfolding decode_lower_hex
decode_lower_hex-encode_hex text bytes size = (read, written)
  where
    read :
        decode_lower_hex text size ≡ ok bytes
        → (are_bytes bytes ≡ true) × (length bytes ≡ size) × (text ≡ encode_hex bytes)
    read h = elim (Bool-cases (not (length text == size * 2) || any is_upper text)) [
      | inl bad ↦ absurd (ground (arith, bad, h))
      | inr good ↦ elim (Option-cases (decode_hex text)) [
        | inl e ↦ absurd (ground (arith, good, e, h))
        | inr (decoded, e) ↦
            let same : decoded ≡ bytes = ground (arith, good, e, h) in
            let (m, t) = encode_hex-decode_hex text bytes (rw (← same) e) (ground (arith, good)) in
            let sized : length text ≡ size * 2 = ground (arith, good) in
            let doubled : length text ≡ length bytes * 2 = ap length t ∙ length-encode_hex bytes in
            (m, omega arith, t)
      ]
    ]

    written :
        (are_bytes bytes ≡ true) × (length bytes ≡ size) × (text ≡ encode_hex bytes)
        → decode_lower_hex text size ≡ ok bytes
    written (h, sized, e) =
        rw (e, ← sized)
          (ground (
            arith,
            length-encode_hex bytes,
            encode_hex-lower bytes h,
            decode_hex-encode_hex bytes h,
          ))
