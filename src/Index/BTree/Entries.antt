-- ===== src/Index/BTree/Entries.antt =====
-- The entries of an ordered tree that a test selects: what an insertion, a deletion and a range
-- scan are measured by.
use Prim.Native.Nat.Ordering.{lt, eq, gt}
use laura_db.Prelude.{
  ap₂, ◌≡◌, refl, ap, sym, ◌∙◌, inl, inr, arith, Bool, true, false, none, List, [], ◌∷◌, ◌++◌, All,
  All-imp, if◌then◌else◌, Bool-cases,
}
use laura_db.Index.Comparison.{Comparison, ◌≺◌, below_cases}
use laura_db.Index.BTree.Items.{Item, guide, entry, key_of, entries_of, Before, Sorted}
use laura_db.Index.BTree.Search.{find}
use laura_db.Index.BTree.Place.{place, place-below, place-past, entry_ahead, past-Before}

module _ {ℓ κ} {K : Type ℓ} {V : Type κ} where
  -- The entries with a key that passes a test
  unfoldable pub select : (K → Bool) → List (K × V) → List (K × V)
  select p [] = []
  select p ((k, v) ∷ es) = let rest = select p es in if p k then (k, v) ∷ rest else rest

  pub select_none :
      (p : K → Bool) (is : List (Item K V))
      → All (λ i. p (key_of i) ≡ false) is
      → select p (entries_of is) ≡ []
  unfolding select
  select_none p [] a = refl
  select_none p (guide k ∷ is) a = select_none p is a.1
  select_none p (entry k v ∷ is) a = rw a.0 (select_none p is a.1)

  pub select_every :
      (p : K → Bool) (is : List (Item K V))
      → All (λ i. p (key_of i) ≡ true) is
      → select p (entries_of is) ≡ entries_of is
  unfolding select
  select_every p [] a = refl
  select_every p (guide k ∷ is) a = select_every p is a.1
  select_every p (entry k v ∷ is) a = rw a.0 (ap (◌∷◌ (k, v)) (select_every p is a.1))

  pub select-append :
      (p : K → Bool) (xs ys : List (K × V)) → select p (xs ++ ys) ≡ select p xs ++ select p ys
  unfolding select
  select-append p [] ys = refl
  select-append p ((k, v) ∷ xs) ys = elim (Bool-cases (p k)) [
    | inl h ↦ rw h (ap (◌∷◌ (k, v)) (select-append p xs ys))
    | inr h ↦ rw h (select-append p xs ys)
  ]

module _ {ℓ} {K : Type ℓ} ⦃o : Comparison K⦄ where
  abbrev pub is_below : K → K → Bool
  is_below key k = elim (o.cmp k key) [ lt ↦ true | eq ↦ false | gt ↦ false ]

  abbrev pub is_above : K → K → Bool
  is_above key k = elim (o.cmp k key) [ lt ↦ false | eq ↦ false | gt ↦ true ]

  abbrev pub is_other : K → K → Bool
  is_other key k = elim (o.cmp k key) [ lt ↦ true | eq ↦ false | gt ↦ true ]

module _ {ℓ κ} {K : Type ℓ} {V : Type κ} ⦃o : Comparison K⦄ where
  -- The entries below a key, an entry with the key, and the entries above the key
  unfoldable pub with_entry : K → V → List (K × V) → List (K × V)
  with_entry key value es = select (is_below key) es ++ (key, value) ∷ select (is_above key) es

  above_after :
      (key : K) (value : V) (i : Item K V) (is : List (Item K V))
      → Sorted (i ∷ is)
      → key ≺ key_of i
      → All (λ j. key ≺ key_of j) (i ∷ is)
  above_after key value i is s h =
      (h, All-imp above is (All-imp (entry_ahead key value i h) is s.0))
    where
      above : (j : Item K V) → Before (entry key value) j → key ≺ key_of j
      above (guide k) b = b
      above (entry k v) b = b

  above-not_below : (key : K) (i : Item K V) → key ≺ key_of i → is_below key (key_of i) ≡ false
  above-not_below key i b = ground (arith, o.cmp_flip key (key_of i))

  above-is_above : (key : K) (i : Item K V) → key ≺ key_of i → is_above key (key_of i) ≡ true
  above-is_above key i b = ground (arith, o.cmp_flip key (key_of i))

  with_entry-above :
      (key : K) (value : V) (is : List (Item K V))
      → All (λ j. key ≺ key_of j) is
      → with_entry key value (entries_of is) ≡ (key, value) ∷ entries_of is
  unfolding with_entry
  with_entry-above key value is a =
      ap₂ (λ xs ys. xs ++ (key, value) ∷ ys)
        (select_none (is_below key) is (All-imp (above-not_below key) is a))
        (select_every (is_above key) is (All-imp (above-is_above key) is a))

  with_entry-below :
      (key : K) (value : V) (k : K) (v : V) (es : List (K × V))
      → k ≺ key
      → with_entry key value ((k, v) ∷ es) ≡ (k, v) ∷ with_entry key value es
  unfolding with_entry select
  with_entry-below key value k v es h = ground arith

  pub entries_of-place :
      (key : K) (value : V) (is : List (Item K V))
      → Sorted is
      → find key (entries_of is) ≡ none
      → entries_of (place key value is) ≡ with_entry key value (entries_of is)
  unfolding place with_entry select
  entries_of-place key value [] s f = refl
  entries_of-place key value (i ∷ is) s f = elim (below_cases key (key_of i)) [
    | inl h ↦
        rw
          (
            place-below key value i is h,
            with_entry-above key value (i ∷ is) (above_after key value i is s h),
          )
          refl
    | inr h ↦
        let (before, free) = past-Before key value i is h f in
        rw (place-past key value i is h) (kept i before (entries_of-place key value is s.1 free))
  ]
    where
      kept :
          (i : Item K V)
          → Before i (entry key value)
          → entries_of (place key value is) ≡ with_entry key value (entries_of is)
          → entries_of (i ∷ place key value is) ≡ with_entry key value (entries_of (i ∷ is))
      kept (guide k) b e = e
      kept (entry k v) b e =
          ap (◌∷◌ (k, v)) e ∙ sym (with_entry-below key value k v (entries_of is) b)
