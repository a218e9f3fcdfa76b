-- ===== src/Index/BTree/Order.antt =====
-- The order of the items of a tree, and where a key stands in it.
use laura_db.Prelude.{suc, ◌≡◌, arith, List, [], ◌∷◌, ◌++◌, All, All-left, All-right, All-imp}
use laura_db.Index.Comparison.{Comparison, ◌≺◌, below_trans}
use laura_db.Index.BTree.Descent.{find_position}
use laura_db.Index.BTree.Items.{Item, guide, entry, key_of, Before, Sorted}

module _ {ℓ κ} {K : Type ℓ} {V : Type κ} ⦃o : Comparison K⦄ where
  pub Sorted-left : (xs ys : List (Item K V)) → Sorted (xs ++ ys) → Sorted xs
  Sorted-left [] ys s = tt
  Sorted-left (x ∷ xs) ys s = (All-left _ xs ys s.0, Sorted-left xs ys s.1)

  pub Sorted-right : (xs ys : List (Item K V)) → Sorted (xs ++ ys) → Sorted ys
  Sorted-right [] ys s = s
  Sorted-right (x ∷ xs) ys s = Sorted-right xs ys s.1

  pub Before-middle :
      (xs : List (Item K V)) (y : Item K V) (ys : List (Item K V))
      → Sorted (xs ++ y ∷ ys)
      → All (λ x. Before x y) xs
  Before-middle [] y ys s = tt
  Before-middle (x ∷ xs) y ys s = ((All-right _ xs (y ∷ ys) s.0).0, Before-middle xs y ys s.1)

  pub above_entry :
      (key k : K) (v : V) → key ≺ k → (i : Item K V) → Before (entry k v) i → key ≺ key_of i
  above_entry key k v h (guide j) b = o.cmp_trans key k j h b
  above_entry key k v h (entry j w) b = o.cmp_trans key k j h b

  -- The keys after a key of an internal node are above what is below that key.
  pub above_guide :
      (key k : K) (xs ys : List (Item K V))
      → Sorted (xs ++ guide k ∷ ys)
      → key ≺ k
      → All (λ i. key ≺ key_of i) ys
  above_guide key k xs ys s h = All-imp (above key k h) ys (Sorted-right xs (guide k ∷ ys) s).0
    where
      above : (key k : K) → key ≺ k → (i : Item K V) → Before (guide k) i → key ≺ key_of i
      above key k h (guide j) b = o.cmp_trans key k j h b
      above key k h (entry j v) b = below_trans key k j h b

  -- The keys before a key of an internal node are below what is not below that key.
  pub below_guide :
      (key k : K) (xs ys : List (Item K V))
      → Sorted (xs ++ guide k ∷ ys)
      → ¬ (key ≺ k)
      → All (λ i. key_of i ≺ key) xs
  below_guide key k xs ys s h = All-imp (below key k h) xs (Before-middle xs (guide k) ys s)
    where
      below : (key k : K) → ¬ (key ≺ k) → (i : Item K V) → Before i (guide k) → key_of i ≺ key
      below key k h (guide j) b = below_trans j k key b h
      below key k h (entry j v) b = below_trans j k key b h

module _ {ℓ} {K : Type ℓ} ⦃o : Comparison K⦄ where
  pub find_position-below : (key k : K) (ks : List K) → key ≺ k → find_position (k ∷ ks) key ≡ 0
  unfolding find_position
  find_position-below key k ks h = ground arith

  pub find_position-past :
      (key k : K) (ks : List K)
      → ¬ (key ≺ k)
      → find_position (k ∷ ks) key ≡ suc (find_position ks key)
  unfolding find_position
  find_position-past key k ks h = ground arith
