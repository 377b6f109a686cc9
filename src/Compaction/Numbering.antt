-- ===== src/Compaction/Numbering.antt =====
-- The numbers that compaction gives to the ids that are kept.
use fgraph.Base.{
  ℕ, ◌+◌, ◌≤◌, ◌<◌, ◌≡◌, inl, inr, List, [], ◌∷◌, some, arith, ◌==◌, length, In, Bool-cases,
}
use fgraph.Compaction.{number_from, find_id}

pub find_id_bounds :
    (ids : List ℕ) (first id : ℕ) {new : ℕ}
    → find_id (number_from first ids) id ≡ some new
    → (first ≤ new) × (new < first + length ids)
unfolding find_id number_from
find_id_bounds [] first id h = absurd (cc)
find_id_bounds (x ∷ ids) first id {new} h = elim (Bool-cases (x == id)) [
  | inl here ↦ let e : first ≡ new = ground arith in (omega arith, omega arith)
  | inr there ↦
      let (low, high) = find_id_bounds ids (first + 1) id {new = new} (ground arith) in
      (omega arith, omega arith)
]

-- Two ids with one new number are one.
pub find_id_injective :
    (ids : List ℕ) (first id other : ℕ) {new : ℕ}
    → find_id (number_from first ids) id ≡ some new
    → find_id (number_from first ids) other ≡ some new
    → id ≡ other
unfolding find_id number_from
find_id_injective [] first id other h k = absurd (cc)
find_id_injective (x ∷ ids) first id other {new} h k = elim (Bool-cases (x == id)) [
  | inl here ↦ elim (Bool-cases (x == other)) [
    | inl both ↦ ground arith
    | inr there ↦
        let e : first ≡ new = ground arith in
        let (low, _) = find_id_bounds ids (first + 1) other {new = new} (ground arith) in
        absurd (omega arith)
  ]
  | inr there ↦ elim (Bool-cases (x == other)) [
    | inl here ↦
        let e : first ≡ new = ground arith in
        let (low, _) = find_id_bounds ids (first + 1) id {new = new} (ground arith) in
        absurd (omega arith)
    | inr neither ↦
        find_id_injective ids (first + 1) id other {new = new} (ground arith) (ground arith)
  ]
]

pub find_id_of :
    (ids : List ℕ) (first id : ℕ)
    → In id ids
    → (new : ℕ) × (find_id (number_from first ids) id ≡ some new)
unfolding find_id number_from
find_id_of [] first id m = absurd m.lower
find_id_of (x ∷ ids) first id m = elim (Bool-cases (x == id)) [
  | inl here ↦ (first, rw here)
  | inr there ↦
      let (new, e) =
        find_id_of ids (first + 1) id (elim m [ inl p ↦ absurd (ground arith) | inr k ↦ k ]) in
      (new, rw there e)
]
