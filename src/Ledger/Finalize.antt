-- ===== src/Ledger/Finalize.antt =====
-- `finalize` and `flush` of the allocator (go/store.go): the rows of a transaction's new identities.

use text.Mathlib.Text.{◌==◌ as str_eq}
use fgraph.Base.{
  ℕ, ◌+◌, Bool, false, ◌||◌, List, [], ◌∷◌, ◌++◌, Option, none, some, ◌==◌, if◌then◌else◌, any,
  Result, ok, fail, format_error, ◌>>=◌, reject_if,
}
use fgraph.Value.{bytes_eq}
use fgraph.Identity.{Allocator, PendingIdentity, IdentityKind}
use fgraph.Store.{Store, IdentityRow}
use fgraph.Text.Uuid.{parse_uuid}

-- `a.gids[identity.id]`: the global id that an imported identity brings
unfoldable pub find_gid : List (ℕ × List ℕ) → ℕ → Option (List ℕ)
find_gid [] id = none
find_gid ((known, gid) ∷ rest) id =
    let later = find_gid rest id in if known == id then some gid else later

-- the global id of an anonymous identity: the one it brings, or one made from the event's
unfoldable pub anonymous_gid : List (ℕ × List ℕ) → ℕ → List ℕ → Result (List ℕ)
unfolding find_gid parse_uuid
anonymous_gid gids id made = elim (find_gid gids id) [
  | none ↦ ok made
  | some requested ↦ parse_uuid requested
]

-- the PRIMARY KEY and the UNIQUE columns of fgraph_ids
unfoldable pub is_registered : List IdentityRow → IdentityRow → Bool
unfolding bytes_eq
is_registered rows row =
    any
      (λ known. known.id == row.id || elim known.name [
        | some n ↦ elim row.name [ some m ↦ str_eq n m | none ↦ false ]
        | none ↦ elim row.name [ some _ ↦ false | none ↦ bytes_eq known.gid row.gid ]
      ])
      rows

-- the row of one pending identity, and the ordinal of the next
unfoldable pub identity_row :
    (List ℕ → ℕ → List ℕ)
    → List (ℕ × List ℕ)
    → ℕ
    → List ℕ
    → ℕ
    → PendingIdentity
    → Result (IdentityRow × ℕ)
unfolding anonymous_gid
identity_row uuid gids tx event ordinal pending = elim pending.kind [
  | IdentityKind.named ↦
      ok (
        record { id = pending.id; name = some pending.name; gid = []; created_tx = tx },
        ordinal + 1,
      )
  | IdentityKind.anonymous ↦ anonymous_gid gids pending.id (uuid event ordinal) >>= λ gid.
      ok (record { id = pending.id; name = none; gid = gid; created_tx = tx }, ordinal + 1)
  | IdentityKind.event ↦
      if pending.id == tx
      then ok (record { id = tx; name = none; gid = event; created_tx = tx }, ordinal)
      else fail format_error
]

-- the loop of `finalize` from an ordinal on
unfoldable pub finalize :
    (List ℕ → ℕ → List ℕ)
    → List (ℕ × List ℕ)
    → ℕ
    → List ℕ
    → ℕ
    → List PendingIdentity
    → List IdentityRow
    → Result (List IdentityRow)
unfolding identity_row is_registered
finalize uuid gids tx event ordinal [] rows = ok rows
finalize uuid gids tx event ordinal (pending ∷ rest) rows =
    identity_row uuid gids tx event ordinal pending >>= λ found.
    reject_if (is_registered rows found.0) format_error >>= λ _.
    finalize uuid gids tx event found.1 rest (rows ++ found.0 ∷ [])

-- `alloc.flush`
unfoldable pub flush : Store → Allocator → Store
flush store alloc = if alloc.dirty then record store { next_id = some alloc.next } else store
