-- ===== src/Index/Key.antt =====
-- The keys of an index and their comparison: pkg/index/composite_key.go and `compare` of
-- pkg/index/btree.go. A float64 is of a type `F` with its test `less`, which is false for a NaN.
pub mod Order
use Prim.Native.Nat.{compare, Ordering}
use Prim.Native.Nat.Ordering.{lt, eq, gt}
use laura_db.Prelude.{ℕ, Bool, true, false, List, [], ◌∷◌, length, ltb, if◌then◌else◌}

-- Signed integers
pub data ℤ : Type 0 where
  pos : ℕ → ℤ
  negsuc : ℕ → ℤ

abbrev pub less_ℤ : ℤ → ℤ → Bool
less_ℤ (pos a) (pos b) = ltb a b
less_ℤ (pos a) (negsuc b) = false
less_ℤ (negsuc a) (pos b) = true
less_ℤ (negsuc a) (negsuc b) = ltb b a

-- `if va < vb { return -1 } else if va > vb { return 1 }; return 0`
abbrev pub three_way {ℓ} : {A : Type ℓ} → (A → A → Bool) → A → A → Ordering
three_way less a b = if less a b then lt else if less b a then gt else eq

-- `bytes.Compare`
abbrev pub compare_bytes : List ℕ → List ℕ → Ordering
compare_bytes [] [] = eq
compare_bytes [] (b ∷ ys) = lt
compare_bytes (a ∷ xs) [] = gt
compare_bytes (a ∷ xs) (b ∷ ys) = elim (compare a b) [
  | lt ↦ lt
  | eq ↦ compare_bytes xs ys
  | gt ↦ gt
]

-- The dynamic types that the comparisons tell apart; `other` is any other type.
pub data Value {ℓ} (F : Type ℓ) : Type ℓ where
  nil other : Value F
  int int64 int32 : ℤ → Value F
  float64 : F → Value F
  string bytes object_id : List ℕ → Value F
  bool : Bool → Value F

pub data Key {ℓ} (F : Type ℓ) : Type ℓ where
  single : Value F → Key F
  composite : List (Value F) → Key F

abbrev pub compare_bool : Bool → Bool → Ordering
compare_bool false true = lt
compare_bool true false = gt
compare_bool _ _ = eq

module _ {ℓ} {F : Type ℓ} (less : F → F → Bool) where
  -- `compareValues`
  unfoldable pub compare_values : Value F → Value F → Ordering
  compare_values nil nil = eq
  compare_values nil b = lt
  compare_values a nil = gt
  compare_values (int a) (int b) = three_way less_ℤ a b
  compare_values (int64 a) (int64 b) = three_way less_ℤ a b
  compare_values (int64 a) (int b) = three_way less_ℤ a b
  compare_values (int32 a) (int32 b) = three_way less_ℤ a b
  compare_values (float64 a) (float64 b) = three_way less a b
  compare_values (string a) (string b) = compare_bytes a b
  compare_values (bytes a) (bytes b) = compare_bytes a b
  compare_values (object_id a) (object_id b) = compare_bytes a b
  compare_values (bool a) (bool b) = compare_bool a b
  compare_values a b = eq

  -- `CompositeKey.Compare`
  unfoldable pub compare_composite : List (Value F) → List (Value F) → Ordering
  compare_composite [] [] = eq
  compare_composite [] (b ∷ ys) = lt
  compare_composite (a ∷ xs) [] = gt
  compare_composite (a ∷ xs) (b ∷ ys) = elim (compare_values a b) [
    | lt ↦ lt
    | eq ↦ compare_composite xs ys
    | gt ↦ gt
  ]

  unfoldable pub matches_prefix : List (Value F) → List (Value F) → Bool
  matches_prefix vs [] = true
  matches_prefix [] (p ∷ ps) = false
  matches_prefix (v ∷ vs) (p ∷ ps) = elim (compare_values v p) [
    | lt ↦ false
    | eq ↦ matches_prefix vs ps
    | gt ↦ false
  ]

  -- `BTree.compare`
  unfoldable pub compare_keys : Key F → Key F → Ordering
  compare_keys (composite xs) (composite ys) = compare_composite xs ys
  compare_keys (single (int64 a)) (single (int64 b)) = three_way less_ℤ a b
  compare_keys (single (int32 a)) (single (int32 b)) = three_way less_ℤ a b
  compare_keys (single (float64 a)) (single (float64 b)) = three_way less a b
  compare_keys (single (string a)) (single (string b)) = compare_bytes a b
  compare_keys (single (bytes a)) (single (bytes b)) = compare_bytes a b
  compare_keys (single (object_id a)) (single (object_id b)) = compare_bytes a b
  compare_keys a b = eq
