-- ===== src/Index/Key/Order.antt =====
-- Composite keys whose fields have the same types are in order.
use Prim.Native.Nat.{Ordering}
use Prim.Native.Nat.Ordering.{lt, eq, gt}
use laura_db.Prelude.{sym, take, length, ◌↔◌, subst, ℕ, ◌≡◌, refl, arith, Bool, true, List, [], ◌∷◌}
use laura_db.Index.Comparison.{IsOrder, opposite}
use laura_db.Index.Key.{
  ℤ, less_ℤ, three_way, compare_bytes, compare_bool, Value, int, int64, int32, string, bytes,
  object_id, bool, matches_prefix, compare_values, compare_composite, matches_prefix,
}

pub compare_bytes-IsOrder : IsOrder compare_bytes
compare_bytes-IsOrder = record {
  cmp_self = self;
  same_of_cmp = same;
  cmp_flip = flip;
  cmp_trans = trans;
}
  where
    self : (a : List ℕ) → compare_bytes a a ≡ eq
    self [] = refl
    self (x ∷ xs) = ground (arith, self xs)

    same : (a b : List ℕ) → compare_bytes a b ≡ eq → a ≡ b
    same [] [] h = refl
    same [] (y ∷ ys) h = cc
    same (x ∷ xs) [] h = cc
    same (x ∷ xs) (y ∷ ys) h = ground (arith, same xs ys)

    flip : (a b : List ℕ) → compare_bytes b a ≡ opposite (compare_bytes a b)
    flip [] [] = refl
    flip [] (y ∷ ys) = refl
    flip (x ∷ xs) [] = refl
    flip (x ∷ xs) (y ∷ ys) = ground (arith, flip xs ys)

    trans :
        (a b c : List ℕ) → compare_bytes a b ≡ lt → compare_bytes b c ≡ lt → compare_bytes a c ≡ lt
    trans [] [] c h k = cc
    trans [] (y ∷ ys) [] h k = cc
    trans [] (y ∷ ys) (z ∷ zs) h k = refl
    trans (x ∷ xs) [] c h k = cc
    trans (x ∷ xs) (y ∷ ys) [] h k = cc
    trans (x ∷ xs) (y ∷ ys) (z ∷ zs) h k = ground (arith, trans xs ys zs)

compare_bool-IsOrder : IsOrder compare_bool
compare_bool-IsOrder = ground arith

three_way-IsOrder : IsOrder (three_way less_ℤ)
three_way-IsOrder = ground arith

-- The type of one field of a compound index
pub data Kind : Type 0 where
  ints int64s int32s strings byte_slices object_ids bools : Kind

abbrev pub Field : Kind → Type 0
Field ints = ℤ
Field int64s = ℤ
Field int32s = ℤ
Field strings = List ℕ
Field byte_slices = List ℕ
Field object_ids = List ℕ
Field bools = Bool

abbrev pub compare_field : (k : Kind) → Field k → Field k → Ordering
compare_field ints a b = three_way less_ℤ a b
compare_field int64s a b = three_way less_ℤ a b
compare_field int32s a b = three_way less_ℤ a b
compare_field strings a b = compare_bytes a b
compare_field byte_slices a b = compare_bytes a b
compare_field object_ids a b = compare_bytes a b
compare_field bools a b = compare_bool a b

compare_field-IsOrder : (k : Kind) → IsOrder (compare_field k)
compare_field-IsOrder ints = three_way-IsOrder
compare_field-IsOrder int64s = three_way-IsOrder
compare_field-IsOrder int32s = three_way-IsOrder
compare_field-IsOrder strings = compare_bytes-IsOrder
compare_field-IsOrder byte_slices = compare_bytes-IsOrder
compare_field-IsOrder object_ids = compare_bytes-IsOrder
compare_field-IsOrder bools = compare_bool-IsOrder

-- The fields of a key of a compound index on such fields
abbrev pub Fields : List Kind → Type 0
Fields [] = Unit
Fields (k ∷ ks) = Field k × Fields ks

compare_fields : (ks : List Kind) → Fields ks → Fields ks → Ordering
compare_fields [] a b = eq
compare_fields (k ∷ ks) a b = elim (compare_field k a.0 b.0) [
  | lt ↦ lt
  | eq ↦ compare_fields ks a.1 b.1
  | gt ↦ gt
]

compare_fields-IsOrder : (ks : List Kind) → IsOrder (compare_fields ks)
unfolding compare_fields
compare_fields-IsOrder [] = record {
  cmp_self = λ a. refl;
  same_of_cmp = λ a b h. refl;
  cmp_flip = λ a b. refl;
  cmp_trans = λ a b c h k. cc;
}
compare_fields-IsOrder (k ∷ ks) =
    let f = compare_field-IsOrder k in
    let r = compare_fields-IsOrder ks in
    record {
      cmp_self = λ a. ground (arith, f.cmp_self a.0, r.cmp_self a.1);
      same_of_cmp = λ a b h. ground (arith, f.same_of_cmp a.0 b.0, r.same_of_cmp a.1 b.1);
      cmp_flip = λ a b. ground (arith, f.cmp_flip a.0 b.0, r.cmp_flip a.1 b.1);
      cmp_trans = λ a b c h j. ground (
        arith,
        f.cmp_trans a.0 b.0 c.0,
        f.same_of_cmp a.0 b.0,
        f.same_of_cmp b.0 c.0,
        r.cmp_trans a.1 b.1 c.1,
      );
    }

module _ {ℓ} (F : Type ℓ) where
  -- The values that the program stores for a key
  abbrev pub value_of : (k : Kind) → Field k → Value F
  value_of ints a = int a
  value_of int64s a = int64 a
  value_of int32s a = int32 a
  value_of strings a = string a
  value_of byte_slices a = bytes a
  value_of object_ids a = object_id a
  value_of bools a = bool a

  abbrev pub values_of : (ks : List Kind) → Fields ks → List (Value F)
  values_of [] a = []
  values_of (k ∷ ks) a = value_of k a.0 ∷ values_of ks a.1

module _ {ℓ} {F : Type ℓ} (less : F → F → Bool) where
  typed_values :
      (k : Kind) (a b : Field k)
      → compare_values less (value_of F k a) (value_of F k b) ≡ compare_field k a b
  unfolding compare_values
  typed_values ints a b = refl
  typed_values int64s a b = refl
  typed_values int32s a b = refl
  typed_values strings a b = refl
  typed_values byte_slices a b = refl
  typed_values object_ids a b = refl
  typed_values bools a b = refl

  typed_composite :
      (ks : List Kind) (a b : Fields ks)
      → compare_composite less (values_of F ks a) (values_of F ks b) ≡ compare_fields ks a b
  unfolding compare_composite compare_fields
  typed_composite [] a b = refl
  typed_composite (k ∷ ks) a b = ground (arith, typed_values k a.0 b.0, typed_composite ks a.1 b.1)

  -- On the keys of a compound index whose fields have fixed types other than float64, the
  -- comparison is a linear order: only a key equals itself, exchanged keys give the opposite
  -- answer, and it is transitive.
  pub compare_composite-IsOrder :
      (ks : List Kind)
      → IsOrder (λ (a b : Fields ks). compare_composite less (values_of F ks a) (values_of F ks b))
  compare_composite-IsOrder ks =
      subst IsOrder (sym (λ i a b. typed_composite ks a b i)) (compare_fields-IsOrder ks)

  -- A key matches a prefix where the prefix is no longer and compares equal to as many fields of
  -- the key.
  pub matches_prefix-compare :
      (vs ps : List (Value F))
      → (matches_prefix less vs ps ≡ true) ↔ (compare_composite less (take (length ps) vs) ps ≡ eq)
  unfolding matches_prefix compare_composite
  matches_prefix-compare [] [] = ((λ h. refl), (λ h. refl))
  matches_prefix-compare (v ∷ vs) [] = ((λ h. refl), (λ h. refl))
  matches_prefix-compare [] (p ∷ ps) = ((λ h. cc), (λ h. cc))
  matches_prefix-compare (v ∷ vs) (p ∷ ps) =
      let rest = matches_prefix-compare vs ps in
      ((λ h. ground (arith, rest.0)), (λ h. ground (arith, rest.1)))
