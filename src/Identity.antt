-- ===== src/Identity.antt =====
-- The allocator of identities (go/store.go).
use Prim.Native.String.{String}
use fgraph.Base.{
  ℕ, ◌+◌, ◌-◌, ◌^◌, Bool, true, false, List, [], ◌∷◌, ◌++◌, Option, none, some, ◌==◌, ltb,
  if◌then◌else◌, Result, ok, fail, too_large, format_error,
}

pub data IdentityKind : Type 0 where
  anonymous named event : IdentityKind

pub record PendingIdentity : Type 0 where
  pub name : String
  pub id : ℕ
  pub kind : IdentityKind

-- `allocator`, less the database handles that the operations below take as arguments
pub record Allocator : Type 0 where
  pub ids : List (String × ℕ)
  pub gids : List (ℕ × List ℕ)
  pub pending : List PendingIdentity
  pub first : ℕ
  pub next : ℕ
  pub dirty : Bool

abbrev pub first_user_id : ℕ
first_user_id = 65

abbrev pub genesis_tx : ℕ
genesis_tx = 64

-- `math.MaxInt64`
abbrev pub max_int64 : ℕ
max_int64 = 2 ^ 63 - 1

-- `newAllocator`, given the row of fgraph_meta
unfoldable pub new_allocator : Option ℕ → Result Allocator
new_allocator none = fail format_error
new_allocator (some next) =
    if ltb next first_user_id
    then fail format_error
    else ok (record { ids = []; gids = []; pending = []; first = next; next = next; dirty = false })

unfoldable pub allocate : Allocator → IdentityKind → String → Result (Allocator × ℕ)
allocate alloc kind name =
    if alloc.next == max_int64
    then fail too_large
    else ok (
      record alloc {
        next = alloc.next + 1;
        dirty = true;
        pending = alloc.pending ++ (record { name = name; id = alloc.next; kind = kind }) ∷ [];
      },
      alloc.next,
    )
