-- ===== src/Text/Json/Reading.antt =====
-- A reader of JSON strings, byte by byte after RFC 8259, and what `writeCanonicalString` of
-- go/value.go is to it.
use mathlib.Core.List.{append_assoc, append-nil}
use fgraph.Base.{
  inl, inr, ℕ, zero, suc, ◌+◌, ◌*◌, ◌/◌, ◌%◌, ◌<◌, ◌≡◌, refl, ap, sym, ◌∙◌, Bool, true, false, ◌&&◌,
  ◌||◌, List, [], ◌∷◌, ◌++◌, Option, none, some, arith, ◌==◌, ltb, leb, ltb→lt, if◌then◌else◌, ok,
  Bool-cases,
}
use fgraph.Text.Hex.{hex_digit, hex_value, hex_value-hex_digit, hex_value-zero}
use fgraph.Text.Json.{
  encode_rune, write_rune, write_runes, write_canonical_string, validate_json_unicode_escapes,
  scan_escapes,
}
use fgraph.Text.Json.Passing.{
  if-cases, high_bytes, encode_rune-high, encode_rune-ascii, scan_escapes-write_runes,
}

-- where in a string the reader is: between characters, behind a backslash, or before so many of the
-- four digits of an escape, with the number that those read so far make
pub data Place : Type 0 where
  between : Place
  escaped : Place
  digits : ℕ → ℕ → Place

-- the byte that a short escape stands for
short_escape : ℕ → Option ℕ
short_escape c =
    if c == b'"' || c == b'\\' || c == b'/'
    then some c
    else if c == b'b'
    then some 8
    else if c == b'f'
    then some 12
    else if c == b'n'
    then some 10
    else if c == b'r'
    then some 13
    else if c == b't'
    then some 9
    else none

prepend : List ℕ → Option (List ℕ) → Option (List ℕ)
prepend bytes none = none
prepend bytes (some rest) = some (bytes ++ rest)

is_surrogate : ℕ → Bool
is_surrogate c = leb 0xd800 c && leb c 0xdfff

-- The bytes of a string from a place on, up to the quote that ends it and the text. A control
-- character, an unknown escape and an escaped surrogate are refused.
unfoldable pub read_from : Place → List ℕ → Option (List ℕ)
unfolding short_escape prepend is_surrogate
read_from place [] = none
read_from between (c ∷ rest) = elim (c == b'"') [
  | true ↦ elim rest [ [] ↦ some [] | _ ∷ _ ↦ none ]
  | false ↦ elim (c == b'\\') [
    | true ↦ read_from escaped rest
    | false ↦ if ltb c 0x20 then none else prepend (c ∷ []) (read_from between rest)
  ]
]
read_from escaped (c ∷ rest) = elim (c == b'u') [
  | true ↦ read_from (digits 3 0) rest
  | false ↦ elim (short_escape c) [
    | none ↦ none
    | some b ↦ prepend (b ∷ []) (read_from between rest)
  ]
]
read_from (digits (suc n) value) (c ∷ rest) = elim (hex_value c) [
  | none ↦ none
  | some d ↦ read_from (digits n (value * 16 + d)) rest
]
read_from (digits zero value) (c ∷ rest) = elim (hex_value c) [
  | none ↦ none
  | some d ↦
      if is_surrogate (value * 16 + d)
      then none
      else prepend (encode_rune (value * 16 + d)) (read_from between rest)
]

-- the bytes that a JSON string stands for
abbrev pub read_string : List ℕ → Option (List ℕ)
read_string [] = none
read_string (c ∷ rest) = if c == b'"' then read_from between rest else none

-- the bytes of a text
pub encode_runes : List ℕ → List ℕ
encode_runes [] = []
encode_runes (c ∷ rest) = encode_rune c ++ encode_runes rest

-- what is written is read as these bytes
abbrev Reads : List ℕ → List ℕ → Type 0
Reads bytes written =
    (rest : List ℕ) → read_from between (written ++ rest) ≡ prepend bytes (read_from between rest)

plain-Reads :
    (c : ℕ)
    → (c == b'\\') ≡ false
    → (c == b'"') ≡ false
    → ltb c 0x20 ≡ false
    → Reads (c ∷ []) (c ∷ [])
unfolding read_from
plain-Reads c h k l rest = rw (read_from, k, h, l) refl

letter-Reads :
    (c b : ℕ) → (c == b'u') ≡ false → short_escape c ≡ some b → Reads (b ∷ []) (b'\\' ∷ c ∷ [])
unfolding read_from
letter-Reads c b h k rest = rw (read_from, h, k) refl

digit_step :
    (n value c d : ℕ) (rest : List ℕ)
    → hex_value c ≡ some d
    → read_from (digits (suc n) value) (c ∷ rest) ≡ read_from (digits n (value * 16 + d)) rest
unfolding read_from
digit_step n value c d rest h = rw (read_from, h) refl

digit_last :
    (value c d : ℕ) (rest : List ℕ) {result : ℕ}
    → hex_value c ≡ some d
    → value * 16 + d ≡ result
    → is_surrogate result ≡ false
    → read_from (digits zero value) (c ∷ rest)
      ≡ prepend (encode_rune result) (read_from between rest)
unfolding read_from
digit_last value c d rest h e plain = rw (read_from, h, e, plain) refl

-- the four digits of a control character
control-Reads :
    (c : ℕ)
    → c < 0x20
    → Reads
        (encode_rune c)
        (b'\\' ∷ b'u' ∷ b'0' ∷ b'0' ∷ hex_digit (c / 16) ∷ hex_digit (c % 16) ∷ [])
control-Reads c h rest =
    unfold read_from in
    digit_step 2 0 b'0' 0 (b'0' ∷ hex_digit (c / 16) ∷ hex_digit (c % 16) ∷ rest) hex_value-zero
    ∙ digit_step 1 0 b'0' 0 (hex_digit (c / 16) ∷ hex_digit (c % 16) ∷ rest) hex_value-zero
    ∙ digit_step 0 0 (hex_digit (c / 16)) (c / 16) (hex_digit (c % 16) ∷ rest)
        (hex_value-hex_digit (c / 16) (omega arith))
    ∙ digit_last (0 * 16 + c / 16) (hex_digit (c % 16)) (c % 16) rest {result = c}
        (hex_value-hex_digit (c % 16) (omega arith)) (omega arith)
        (unfold is_surrogate in ground arith)

prepend-append : (x y : List ℕ) (o : Option (List ℕ)) → prepend x (prepend y o) ≡ prepend (x ++ y) o
unfolding prepend
prepend-append x y none = refl
prepend-append x y (some rest) = ap some (sym (append_assoc x y rest))

prepend-nil : (o : Option (List ℕ)) → o ≡ prepend [] o
unfolding prepend
prepend-nil none = refl
prepend-nil (some rest) = refl

-- a byte past ASCII stands for itself
high-Reads : (bytes : List ℕ) → high_bytes bytes ≡ true → Reads bytes bytes
high-Reads [] h rest = prepend-nil (read_from between rest)
high-Reads (b ∷ bytes) h rest =
    plain-Reads b (ground arith) (ground arith) (ground arith) (bytes ++ rest)
    ∙ ap (prepend (b ∷ [])) (high-Reads bytes (ground arith) rest)
    ∙ prepend-append (b ∷ []) bytes (read_from between rest)

write_rune-Reads : (c : ℕ) → Reads (encode_rune c) (write_rune c)
unfolding write_rune short_escape
write_rune-Reads c =
    if-cases P (c == b'"' || c == b'\\') _ _ (λ h. quote_case h)
      λ n0.
        if-cases P (c == 8) _ _ (λ h. short b'b' 8 h refl refl refl)
          λ _.
            if-cases P (c == 12) _ _ (λ h. short b'f' 12 h refl refl refl)
              λ _.
                if-cases P (c == 10) _ _ (λ h. short b'n' 10 h refl refl refl)
                  λ _.
                    if-cases P (c == 13) _ _ (λ h. short b'r' 13 h refl refl refl)
                      λ _.
                        if-cases P (c == 9) _ _ (λ h. short b't' 9 h refl refl refl)
                          λ _.
                            if-cases P (ltb c 0x20) _ _ (λ h. control-Reads c (ltb→lt c 0x20 h))
                              λ h. plain_case n0 h
  where
    P : List ℕ → Type 0
    P written = Reads (encode_rune c) written

    short :
        (letter b : ℕ)
        → (c == b) ≡ true
        → (letter == b'u') ≡ false
        → short_escape letter ≡ some b
        → ltb b 0x80 ≡ true
        → Reads (encode_rune c) (b'\\' ∷ letter ∷ [])
    short letter b e h k small =
        let same : c ≡ b = ground (arith, e) in
        rw (same) (λ rest.
          letter-Reads letter b h k rest
          ∙ ap (λ bytes. prepend bytes (read_from between rest)) (sym (encode_rune-ascii b small)))

    quote_case : (c == b'"' || c == b'\\') ≡ true → P (b'\\' ∷ encode_rune c)
    quote_case h =
        rw (encode_rune-ascii c (ground (arith, h)))
          (letter-Reads c c (ground (arith, h)) (ground (arith, h)))

    plain_case : (c == b'"' || c == b'\\') ≡ false → ltb c 0x20 ≡ false → P (encode_rune c)
    plain_case n h = elim (Bool-cases (ltb c 0x80)) [
      | inl low ↦
          rw (encode_rune-ascii c low) (plain-Reads c (ground (arith, n)) (ground (arith, n)) h)
      | inr high ↦ high-Reads (encode_rune c) (encode_rune-high c high)
    ]

write_runes-Reads : (value : List ℕ) → Reads (encode_runes value) (write_runes value)
unfolding write_runes encode_runes
write_runes-Reads [] rest = prepend-nil (read_from between rest)
write_runes-Reads (c ∷ value) rest =
    ap (read_from between) (append_assoc (write_rune c) (write_runes value) rest)
    ∙ write_rune-Reads c (write_runes value ++ rest)
    ∙ ap (prepend (encode_rune c)) (write_runes-Reads value rest)
    ∙ prepend-append (encode_rune c) (encode_runes value) (read_from between rest)

-- What is written as a canonical JSON string, of whatever runes, passes the check of its unicode
-- escapes, and an independent reader of JSON strings reads the UTF-8 bytes of the runes back from it.
pub read_string-write_canonical_string :
    (value : List ℕ)
    → (validate_json_unicode_escapes (write_canonical_string value) ≡ ok tt)
      × (read_string (write_canonical_string value) ≡ some (encode_runes value))
unfolding validate_json_unicode_escapes write_canonical_string
read_string-write_canonical_string value = (
  unfold scan_escapes in scan_escapes-write_runes value,
  rw (write_runes-Reads value (b'"' ∷ [])) (fin (encode_runes value)),
)
  where
    fin : (bytes : List ℕ) → prepend bytes (read_from between (b'"' ∷ [])) ≡ some bytes
    fin bytes = unfold read_from prepend in ap some (append-nil bytes)
