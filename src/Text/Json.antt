-- ===== src/Text/Json.antt =====
-- JSON strings: `writeCanonicalString`, `validateJSONUnicodeEscapes` and `jsonHexEscape` of
-- go/value.go.
pub mod Passing
pub mod Reading
use fgraph.Base.{
  ℕ, zero, suc, ◌+◌, ◌*◌, ◌/◌, ◌%◌, ◌^◌, ◌<◌, ◌≡◌, ◌≢◌, refl, ap, ◌∙◌, Bool, true, false, not, ◌&&◌,
  ◌||◌, List, [], ◌∷◌, ◌++◌, Option, none, some, arith, ◌==◌, ltb, leb, ltb→lt, if◌then◌else◌,
  length, drop, get_elem?, Result, ok, fail, type_error,
}
use fgraph.Text.Hex.{hex_digit, hex_value}

-- `utf8.EncodeRune`: a number that is no code point is written as the replacement character
unfoldable pub encode_rune : ℕ → List ℕ
encode_rune c =
    if ltb c 0x80
    then c ∷ []
    else if ltb c 0x800
    then (0xc0 + c / 64) ∷ (0x80 + c % 64) ∷ []
    else if ltb 0x10ffff c || (leb 0xd800 c && leb c 0xdfff)
    then 0xef ∷ 0xbf ∷ 0xbd ∷ []
    else if ltb c 0x10000
    then (0xe0 + c / 4096) ∷ (0x80 + c / 64 % 64) ∷ (0x80 + c % 64) ∷ []
    else (0xf0 + c / 262144) ∷ (0x80 + c / 4096 % 64) ∷ (0x80 + c / 64 % 64) ∷ (0x80 + c % 64) ∷ []

-- the bytes that are written for one rune
unfoldable pub write_rune : ℕ → List ℕ
unfolding encode_rune hex_digit
write_rune c =
    if c == b'"' || c == b'\\'
    then b'\\' ∷ encode_rune c
    else if c == 8
    then b'\\' ∷ b'b' ∷ []
    else if c == 12
    then b'\\' ∷ b'f' ∷ []
    else if c == 10
    then b'\\' ∷ b'n' ∷ []
    else if c == 13
    then b'\\' ∷ b'r' ∷ []
    else if c == 9
    then b'\\' ∷ b't' ∷ []
    else if ltb c 0x20
    then b'\\' ∷ b'u' ∷ b'0' ∷ b'0' ∷ hex_digit (c / 16) ∷ hex_digit (c % 16) ∷ []
    else encode_rune c

unfoldable pub write_runes : List ℕ → List ℕ
unfolding write_rune
write_runes [] = []
write_runes (c ∷ rest) = write_rune c ++ write_runes rest

-- `writeCanonicalString`
unfoldable pub write_canonical_string : List ℕ → List ℕ
unfolding write_runes
write_canonical_string value = b'"' ∷ (write_runes value ++ b'"' ∷ [])

-- `value <<= 4; value += digit`, in 16 bits
unfoldable pub shift_digit : ℕ → ℕ → Option ℕ
unfolding hex_value
shift_digit value c = elim (hex_value c) [ none ↦ none | some d ↦ some ((value * 16 + d) % 2 ^ 16) ]

unfoldable pub hex_loop : ℕ → ℕ → List ℕ → Option ℕ
hex_loop zero value raw = some value
hex_loop (suc n) value [] = none
hex_loop (suc n) value (c ∷ rest) = elim (shift_digit value c) [
  | none ↦ none
  | some next ↦ hex_loop n next rest
]

-- `jsonHexEscape`
unfoldable pub json_hex_escape : List ℕ → Option ℕ
json_hex_escape raw = if ltb (length raw) 4 then none else hex_loop 4 0 raw

-- `raw[i] == c`
unfoldable pub is_byte : List ℕ → ℕ → ℕ → Bool
is_byte raw i c = elim (get_elem? raw i) [ none ↦ false | some b ↦ b == c ]

-- A turn of the loop tells how many of the bytes that follow are passed over.
unfoldable pub low_surrogate : List ℕ → Result ℕ
unfolding json_hex_escape is_byte
low_surrogate rest =
    if ltb (length rest + 1) 12 || not (is_byte rest 5 b'\\') || not (is_byte rest 6 b'u')
    then fail type_error
    else elim (json_hex_escape (drop 7 rest)) [
      | none ↦ fail type_error
      | some low ↦ if ltb low 0xdc00 || ltb 0xdfff low then fail type_error else ok 11
    ]

unfoldable pub unicode_escape : ℕ → List ℕ → Result ℕ
unfolding low_surrogate
unicode_escape value rest =
    if leb 0xd800 value && leb value 0xdbff
    then low_surrogate rest
    else if leb 0xdc00 value && leb value 0xdfff
    then fail type_error
    else ok 5

-- the case of a backslash, with the bytes behind it
unfoldable pub escape_length : Bool → List ℕ → Result ℕ
escape_length false rest = ok 0
escape_length true [] = ok 0
escape_length true (c ∷ rest) =
    if c == b'u'
    then elim (json_hex_escape rest) [ none ↦ ok 0 | some value ↦ unicode_escape value (c ∷ rest) ]
    else ok 1

-- `validateJSONUnicodeEscapes` from a byte on, with the bytes to pass over
unfoldable pub scan_escapes : Bool → ℕ → List ℕ → Result (Unit {0})
scan_escapes in_string skip [] = ok tt
scan_escapes in_string (suc skip) (b ∷ rest) = scan_escapes in_string skip rest
scan_escapes in_string zero (b ∷ rest) = elim (b == b'\\') [
  | true ↦ elim (escape_length in_string rest) [
    | fail kind ↦ fail kind
    | ok skip ↦ scan_escapes in_string skip rest
  ]
  | false ↦ scan_escapes (if b == b'"' then not in_string else in_string) zero rest
]

unfoldable pub validate_json_unicode_escapes : List ℕ → Result (Unit {0})
unfolding scan_escapes
validate_json_unicode_escapes raw = scan_escapes false zero raw
