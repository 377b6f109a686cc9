-- ===== src/Value/Equality.antt =====
-- The equality tests on stored values are equivalences, and the key test decides equality.

use text.Mathlib.TextEquality.{eq_iff}
use fgraph.Base.{ℕ, ◌≡◌, refl, true, List, [], ◌∷◌, arith}
use fgraph.Value.{
  Tag, tag_eq, ℤ, pos, negsuc, int_eq, Storage, null, int64, float64, string, blob, bytes_eq,
  float_eq, storage_equal, storage_key_eq, StoredValue, stored_equal,
}

pub tag_eq-eq : (s t : Tag) → tag_eq s t ≡ true → s ≡ t
unfolding tag_eq
tag_eq-eq s t h = ground arith

pub tag_eq_refl : (t : Tag) → tag_eq t t ≡ true
unfolding tag_eq
tag_eq_refl t = ground arith

pub int_eq-eq : (x y : ℤ) → int_eq x y ≡ true → x ≡ y
unfolding int_eq
int_eq-eq (pos m) (pos n) h = ground arith
int_eq-eq (negsuc m) (negsuc n) h = ground arith
int_eq-eq (pos m) (negsuc n) h = cc
int_eq-eq (negsuc m) (pos n) h = cc

pub int_eq_refl : (x : ℤ) → int_eq x x ≡ true
unfolding int_eq
int_eq_refl (pos n) = ground arith
int_eq_refl (negsuc n) = ground arith

pub bytes_eq-eq : (xs ys : List ℕ) → bytes_eq xs ys ≡ true → xs ≡ ys
unfolding bytes_eq
bytes_eq-eq [] [] h = refl
bytes_eq-eq (x ∷ xs) (y ∷ ys) h = ground (arith, bytes_eq-eq xs ys)
bytes_eq-eq [] (y ∷ ys) h = cc
bytes_eq-eq (x ∷ xs) [] h = cc

pub bytes_eq_refl : (xs : List ℕ) → bytes_eq xs xs ≡ true
unfolding bytes_eq
bytes_eq_refl [] = refl
bytes_eq_refl (x ∷ xs) = ground (arith, bytes_eq_refl xs)

pub storage_key_eq-eq : (v w : Storage) → storage_key_eq v w ≡ true → v ≡ w
unfolding storage_key_eq
storage_key_eq-eq null null h = refl
storage_key_eq-eq (int64 x) (int64 y) h = ground (arith, int_eq-eq x y)
storage_key_eq-eq (float64 x) (float64 y) h = ground arith
storage_key_eq-eq (string x) (string y) h = ground (arith, eq_iff x y)
storage_key_eq-eq (blob x) (blob y) h = ground (arith, bytes_eq-eq x y)
storage_key_eq-eq _ _ h = cc

pub storage_key_eq_refl : (v : Storage) → storage_key_eq v v ≡ true
unfolding storage_key_eq
storage_key_eq_refl null = refl
storage_key_eq_refl (int64 x) = int_eq_refl x
storage_key_eq_refl (float64 x) = ground arith
storage_key_eq_refl (string x) = (eq_iff x x).1 refl
storage_key_eq_refl (blob x) = bytes_eq_refl x

float_eq_sym : (x y : ℕ) → float_eq x y ≡ true → float_eq y x ≡ true
unfolding float_eq
float_eq_sym x y h = ground arith

float_eq_trans : (x y z : ℕ) → float_eq x y ≡ true → float_eq y z ≡ true → float_eq x z ≡ true
unfolding float_eq
float_eq_trans x y z h k = ground arith

storage_equal_refl : (v : Storage) → storage_equal v v ≡ true
unfolding storage_equal
storage_equal_refl null = refl
storage_equal_refl (int64 x) = int_eq_refl x
storage_equal_refl (float64 x) = ground arith
storage_equal_refl (string x) = (eq_iff x x).1 refl
storage_equal_refl (blob x) = bytes_eq_refl x

storage_equal_sym : (v w : Storage) → storage_equal v w ≡ true → storage_equal w v ≡ true
unfolding storage_equal
storage_equal_sym null null h = refl
storage_equal_sym (int64 x) (int64 y) h = ground (arith, int_eq-eq x y, int_eq_refl x)
storage_equal_sym (float64 x) (float64 y) h = float_eq_sym x y h
storage_equal_sym (string x) (string y) h = ground (arith, eq_iff x y, eq_iff y x)
storage_equal_sym (blob x) (blob y) h = ground (arith, bytes_eq-eq x y, bytes_eq_refl x)
storage_equal_sym _ _ h = cc

-- Stored values are compared by an equivalence.
pub stored_equal_refl : (v : StoredValue) → stored_equal v v ≡ true
unfolding stored_equal
stored_equal_refl v = ground (arith, tag_eq_refl v.tag, storage_equal_refl v.storage)

pub stored_equal_sym : (v w : StoredValue) → stored_equal v w ≡ true → stored_equal w v ≡ true
unfolding stored_equal
stored_equal_sym v w h =
    ground (arith, tag_eq-eq v.tag w.tag, storage_equal_sym v.storage w.storage)
