-- ===== src/Tests/Texts.antt =====
-- The theorems on text, plans and compaction at concrete inputs.

use fgraph.Base.{
  some, ℕ, ◌≡◌, refl, inl, inr, Bool, true, false, List, [], ◌∷◌, Option, none, ok, length, ◌↔◌,
}
use fgraph.Value.{int64, pos, string, Tag, column_value}
use fgraph.Identity.{Allocator, IdentityKind}
use fgraph.Plan.{PlannedFact, RetractRequest, TransactionPlan, validate_cas_isolation}
use fgraph.Plan.Isolation.{Owns, isolated-assertion}
use fgraph.Text.Hex.{
  are_bytes, hex_value, encode_hex, decode_lower_hex, decode_lower_hex-encode_hex,
}
use fgraph.Text.Uuid.{format_uuid, parse_uuid, parse_uuid-format_uuid}
use fgraph.Text.Json.{write_canonical_string, validate_json_unicode_escapes}
use fgraph.Text.Json.Reading.{
  read_string, read_from, encode_runes, read_string-write_canonical_string,
}

-- "00af"
abbrev hex_text : List ℕ
hex_text = b'0' ∷ b'0' ∷ b'a' ∷ b'f' ∷ []

decode_lower_hex-encode_hex_example : (decode_lower_hex hex_text 2 ≡ ok (0 ∷ 175 ∷ [])) ↔ (
    (are_bytes (0 ∷ 175 ∷ []) ≡ true)
    × (length {A = ℕ} (0 ∷ 175 ∷ []) ≡ 2)
    × (hex_text ≡ encode_hex (0 ∷ 175 ∷ [])))
decode_lower_hex-encode_hex_example = decode_lower_hex-encode_hex hex_text (0 ∷ 175 ∷ []) 2

abbrev an_id : List ℕ
an_id = 0 ∷ 1 ∷ 2 ∷ 3 ∷ 4 ∷ 5 ∷ 70 ∷ 7 ∷ 136 ∷ 9 ∷ 10 ∷ 11 ∷ 12 ∷ 13 ∷ 14 ∷ 255 ∷ []

parse_uuid-format_uuid_example : parse_uuid (format_uuid an_id) ≡ ok an_id
parse_uuid-format_uuid_example = parse_uuid-format_uuid an_id refl refl

-- a quote, a control character and a letter past ASCII
abbrev a_text : List ℕ
a_text = 34 ∷ 7 ∷ 228 ∷ []

read_string-write_canonical_string_example :
    (validate_json_unicode_escapes (write_canonical_string a_text) ≡ ok tt)
    × (read_string (write_canonical_string a_text) ≡ some (encode_runes a_text))
read_string-write_canonical_string_example = read_string-write_canonical_string a_text

read_a_text : read_string (write_canonical_string a_text) ≡ some (34 ∷ 7 ∷ 195 ∷ 164 ∷ [])
unfolding read_from write_canonical_string hex_value
read_a_text = refl

-- entities from 65 on are pending; 66 was allocated and is used nowhere
abbrev an_allocator : Allocator
an_allocator = record {
  ids = [];
  gids = [];
  pending =
      record { name = ""; id = 65; kind = IdentityKind.anonymous }
      ∷ record { name = ""; id = 66; kind = IdentityKind.anonymous }
      ∷ record { name = ""; id = 67; kind = IdentityKind.anonymous }
      ∷ [];
  first = 65;
  next = 68;
  dirty = true;
}

abbrev planned : ℕ → ℕ → Bool → PlannedFact
planned e a cas = record {
  attr = "";
  value = column_value (string "Ann") Tag.text;
  e = e;
  a = a;
  order = 1;
  tx_target = false;
  cas = cas;
}

abbrev requested : ℕ → Option ℕ → RetractRequest
requested e a = record {
  a = a;
  value = none;
  attr = "";
  e = e;
  order = 2;
  missing = false;
  cas = false;
}

-- entity 65 is changed by a compare-and-swap at attribute 30; the rest of the plan is elsewhere
abbrev a_plan : TransactionPlan
a_plan = record {
  tempids = [];
  allocator = an_allocator;
  cas_targets = (65, 30) ∷ [];
  schemas = [];
  assertions = planned 65 30 true ∷ planned 67 31 false ∷ [];
  retracts = requested 67 none ∷ [];
  order = 3;
}

a_plan-passes : validate_cas_isolation a_plan ≡ ok tt
unfolding validate_cas_isolation
a_plan-passes = refl

isolated-assertion_example : ¬ Owns a_plan 67 31
isolated-assertion_example =
    isolated-assertion a_plan (planned 67 31 false) a_plan-passes (inr (inl refl)) refl

-- an attribute and a reference of this transaction
abbrev linked : PlannedFact
linked = record (planned 65 67 false) { value = column_value (int64 (pos 67)) Tag.ref }
