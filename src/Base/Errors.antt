-- ===== src/Base/Errors.antt =====
-- go/errors.go: the kinds of failure, and results of fallible steps. Messages are left out.
use Prim.Native.String.{String}
use mathlib.Core.Path.{◌≡◌, refl}
use mathlib.Core.Bool.{Bool, true, false}

pub data Kind : Type 0 where
  not_found conflict schema_error type_error query_error format_error read_only : Kind
  too_large unsupported : Kind

-- `ErrorName`: the stable name of a kind, its `errors.New` text
unfoldable pub error_name : Kind → String
error_name not_found = "NotFound"
error_name conflict = "Conflict"
error_name schema_error = "SchemaError"
error_name type_error = "TypeError"
error_name query_error = "QueryError"
error_name format_error = "FormatError"
error_name read_only = "ReadOnly"
error_name too_large = "TooLarge"
error_name unsupported = "Unsupported"

-- a value, or the kind of the failure in its place
pub data Result {ℓ} (Value : Type ℓ) : Type ℓ where
  fail : Kind → Result Value
  ok : Value → Result Value

-- `if bad { return fail(kind) }`
abbrev pub reject_if : Bool → Kind → Result (Unit {0})
reject_if false kind = ok tt
reject_if true kind = fail kind

-- `if err != nil { return err }`: what follows is run on the value
infixl 5 ◌>>=◌
abbrev pub ◌>>=◌ {ℓ κ} : {X : Type ℓ} {Y : Type κ} → Result X → (X → Result Y) → Result Y
fail kind >>= next = fail kind
ok value >>= next = next value

-- Inversion of a bind that succeeded, for proofs in which the parts stay shut.
pub >>=-eq-ok {ℓ κ} :
    {X : Type ℓ} {Y : Type κ} (first : Result X) (next : X → Result Y) {y : Y}
    → (first >>= next) ≡ ok y
    → (x : X) × (first ≡ ok x) × (next x ≡ ok y)
>>=-eq-ok (fail kind) next returned = cc
>>=-eq-ok (ok x) next returned = (x, refl, returned)
