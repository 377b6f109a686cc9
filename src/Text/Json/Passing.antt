-- ===== src/Text/Json/Passing.antt =====
-- What `writeCanonicalString` of go/value.go writes is passed over by the check of escapes.
use mathlib.Core.List.{append_assoc}
use fgraph.Base.{
  inl, inr, Bool-cases, all, ℕ, zero, ◌+◌, ◌*◌, ◌/◌, ◌%◌, ◌<◌, ◌≡◌, ◌≢◌, refl, ap, ◌∙◌, Bool, true,
  false, ◌||◌, List, [], ◌∷◌, ◌++◌, some, arith, ◌==◌, ltb, leb, ltb→lt, if◌then◌else◌, ok,
}
use fgraph.Text.Hex.{hex_digit, hex_value, hex_value-hex_digit, hex_value-zero}
use fgraph.Text.Json.{
  encode_rune, write_rune, write_runes, shift_digit, hex_loop, json_hex_escape, unicode_escape,
  escape_length, scan_escapes,
}

shift_digit_of :
    (value c d : ℕ) {result : ℕ}
    → hex_value c ≡ some d
    → (value * 16 + d) % 65536 ≡ result
    → shift_digit value c ≡ some result
unfolding shift_digit
shift_digit_of value c d h e = rw (h, shift_digit) (ap some e)

-- The four digits that are written for a control character are read as that character.
json_hex_escape-control :
    (c : ℕ) (rest : List ℕ)
    → c < 0x20
    → json_hex_escape (b'0' ∷ b'0' ∷ hex_digit (c / 16) ∷ hex_digit (c % 16) ∷ rest) ≡ some c
unfolding json_hex_escape hex_loop
json_hex_escape-control c rest h = ground (
  arith,
  shift_digit_of 0 b'0' 0 hex_value-zero refl,
  shift_digit_of 0 (hex_digit (c / 16)) (c / 16) {result = c / 16}
      (hex_value-hex_digit (c / 16) (omega arith)) (omega arith),
  shift_digit_of (c / 16) (hex_digit (c % 16)) (c % 16) {result = c}
      (hex_value-hex_digit (c % 16) (omega arith)) (omega arith),
)

unicode_escape-control : (c : ℕ) (rest : List ℕ) → c < 0x20 → unicode_escape c rest ≡ ok 5
unfolding unicode_escape
unicode_escape-control c rest h = ground arith

escape_length-control :
    (c : ℕ) (rest : List ℕ)
    → c < 0x20
    → escape_length true (b'u' ∷ b'0' ∷ b'0' ∷ hex_digit (c / 16) ∷ hex_digit (c % 16) ∷ rest)
      ≡ ok 5
unfolding escape_length
escape_length-control c rest h = ground (
  arith,
  json_hex_escape-control c rest h,
  unicode_escape-control c (b'u' ∷ b'0' ∷ b'0' ∷ hex_digit (c / 16) ∷ hex_digit (c % 16) ∷ rest) h,
)

escape_length-letter : (c : ℕ) (rest : List ℕ) → c ≢ b'u' → escape_length true (c ∷ rest) ≡ ok 1
unfolding escape_length
escape_length-letter c rest h = ground arith

-- the check of escapes passes over what is written
abbrev Passes : List ℕ → Type 0
Passes written =
    (rest : List ℕ) → scan_escapes true zero (written ++ rest) ≡ scan_escapes true zero rest

letter-Passes : (c : ℕ) → c ≢ b'u' → Passes (b'\\' ∷ c ∷ [])
unfolding scan_escapes
letter-Passes c h rest = ground (arith, escape_length-letter c rest h)

control-Passes :
    (c : ℕ)
    → c < 0x20
    → Passes (b'\\' ∷ b'u' ∷ b'0' ∷ b'0' ∷ hex_digit (c / 16) ∷ hex_digit (c % 16) ∷ [])
unfolding scan_escapes
control-Passes c h rest = ground (arith, escape_length-control c rest h)

scan_escapes-plain :
    (c : ℕ) (rest : List ℕ)
    → (c == b'\\') ≡ false
    → (c == b'"') ≡ false
    → scan_escapes true zero (c ∷ rest) ≡ scan_escapes true zero rest
unfolding scan_escapes
scan_escapes-plain c rest h k = ground (arith, h, k)

pub if-cases :
    (P : List ℕ → Type 0) (b : Bool) (x y : List ℕ)
    → (b ≡ true → P x)
    → (b ≡ false → P y)
    → P (if b then x else y)
if-cases P true x y h k = h refl
if-cases P false x y h k = k refl

-- bytes past ASCII, as in the encoding of a rune that is past it
abbrev pub high_bytes : List ℕ → Bool
high_bytes = all (λ b. leb 0x80 b)

pub encode_rune-high : (c : ℕ) → ltb c 0x80 ≡ false → high_bytes (encode_rune c) ≡ true
unfolding encode_rune
encode_rune-high c h = ground (arith, h)

pub encode_rune-ascii : (c : ℕ) → ltb c 0x80 ≡ true → encode_rune c ≡ c ∷ []
unfolding encode_rune
encode_rune-ascii c h = rw h refl

high-Passes : (written : List ℕ) → high_bytes written ≡ true → Passes written
high-Passes [] h rest = refl
high-Passes (b ∷ written) h rest =
    scan_escapes-plain b (written ++ rest) (ground arith) (ground arith)
    ∙ high-Passes written (ground arith) rest

rune-Passes : (c : ℕ) → (c == b'"' || c == b'\\') ≡ false → Passes (encode_rune c)
rune-Passes c n = elim (Bool-cases (ltb c 0x80)) [
  | inl low ↦
      rw (encode_rune-ascii c low)
        (λ rest. scan_escapes-plain c rest (ground (arith, n)) (ground (arith, n)))
  | inr high ↦ high-Passes (encode_rune c) (encode_rune-high c high)
]

write_rune-Passes : (c : ℕ) → Passes (write_rune c)
unfolding write_rune
write_rune-Passes c =
    if-cases Passes (c == b'"' || c == b'\\') _ _
      (λ h. rw (encode_rune-ascii c (quote_ascii c h)) (letter-Passes c (λ e. quote_ne_u c h e)))
      λ n0.
        if-cases Passes (c == 8) _ _ (λ _. letter-Passes b'b' (omega arith))
          λ _.
            if-cases Passes (c == 12) _ _ (λ _. letter-Passes b'f' (omega arith))
              λ _.
                if-cases Passes (c == 10) _ _ (λ _. letter-Passes b'n' (omega arith))
                  λ _.
                    if-cases Passes (c == 13) _ _ (λ _. letter-Passes b'r' (omega arith))
                      λ _.
                        if-cases Passes (c == 9) _ _ (λ _. letter-Passes b't' (omega arith))
                          λ _.
                            if-cases Passes (ltb c 0x20) _ _
                              (λ h. control-Passes c (ltb→lt c 0x20 h)) λ _. rune-Passes c n0
  where
    quote_ne_u : (c : ℕ) → (c == b'"' || c == b'\\') ≡ true → c ≢ b'u'
    quote_ne_u c h e = ground arith

    quote_ascii : (c : ℕ) → (c == b'"' || c == b'\\') ≡ true → ltb c 0x80 ≡ true
    quote_ascii c h = ground arith

pub scan_escapes-write_runes :
    (value : List ℕ) → scan_escapes true zero (write_runes value ++ b'"' ∷ []) ≡ ok tt
unfolding write_runes
scan_escapes-write_runes [] = unfold scan_escapes in refl
scan_escapes-write_runes (c ∷ rest) =
    ap (scan_escapes true zero) (append_assoc (write_rune c) (write_runes rest) (b'"' ∷ []))
    ∙ write_rune-Passes c (write_runes rest ++ b'"' ∷ [])
    ∙ scan_escapes-write_runes rest
