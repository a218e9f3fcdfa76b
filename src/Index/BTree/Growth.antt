-- ===== src/Index/BTree/Growth.antt =====
-- A new root above a root that was split, and the number of entries after an update.
use laura_db.Prelude.{
  append-nil, ℕ, suc, ◌+◌, ◌-◌, ◌≤◌, ◌≡◌, refl, ap, sym, subst, inl, inr, arith, none, some, List,
  [], ◌∷◌, length, All,
}
use laura_db.Index.Comparison.{Comparison, ◌≺◌, below_cases, trans_below}
use laura_db.Index.BTree.{leaf, leaf, Node, internal, Split, grow}
use laura_db.Index.BTree.Operations.{leaves, levels}
use laura_db.Index.BTree.Items.{Item, guide, entry, key_of, entries_of, items, Sorted, Before}
use laura_db.Index.BTree.Search.{find, find-above}
use laura_db.Index.BTree.Place.{place}
use laura_db.Index.BTree.Insertion.{result_items}
use laura_db.Index.BTree.Shape.{Shaped, ResultShaped}
use laura_db.Index.BTree.Delete.{without, without-above}
use laura_db.Index.BTree.Leaves.{result_leaves}

module _ {ℓ κ} {K : Type ℓ} {V : Type κ} where
  pub items-grow : (n : Node K V) (s : Split K V) → items (grow (n, s)) ≡ result_items (n, s)
  unfolding grow
  items-grow n none = sym (append-nil (items n))
  items-grow n (some (k, m)) = refl

  pub leaves-grow : (n : Node K V) (s : Split K V) → leaves (grow (n, s)) ≡ result_leaves (n, s)
  unfolding grow leaves
  leaves-grow n none = sym (append-nil (leaves n))
  leaves-grow n (some (k, m)) = refl

  one_le_height : (order h : ℕ) (n : Node K V) → Shaped order h n → 1 ≤ h
  one_le_height order h (leaf l) s = omega (arith, s.0)
  one_le_height order h (internal cs) s = omega (arith, s.0)

  pub grow-Shaped :
      (order h : ℕ) (n : Node K V) (s : Split K V)
      → 3 ≤ order
      → ResultShaped order h (n, s)
      → Shaped order (h + levels s) (grow (n, s))
  unfolding grow
  grow-Shaped order h n none room r = subst (λ x. Shaped order x n) (omega arith) r.0
  grow-Shaped order h n (some (k, m)) room r =
      let same : h ≡ h + 1 - 1 = omega arith in
      (
        omega (arith, one_le_height order h n r.0),
        omega arith,
        (subst (λ x. Shaped order x n) same r.0, subst (λ x. Shaped order x m) same r.1),
      )

module _ {ℓ κ} {K : Type ℓ} {V : Type κ} ⦃o : Comparison K⦄ where
  pub length-place :
      (key : K) (value : V) (is : List (Item K V))
      → length (entries_of (place key value is)) ≡ suc (length (entries_of is))
  unfolding place
  length-place key value [] = refl
  length-place key value (guide k ∷ is) = ground (arith, length-place key value is)
  length-place key value (entry k v ∷ is) = ground (arith, length-place key value is)

  entry_above :
      (key k : K) (w : V) (is : List (Item K V))
      → ¬ (k ≺ key)
      → All (Before (entry k w)) is
      → All (λ i. key ≺ key_of i) is
  entry_above key k w [] h a = tt
  entry_above key k w (guide j ∷ is) h a = (trans_below key k j h a.0, entry_above key k w is h a.1)
  entry_above key k w (entry j v ∷ is) h a =
      (trans_below key k j h a.0, entry_above key k w is h a.1)

  pub length-without :
      (key : K) (is : List (Item K V)) (v : V)
      → Sorted is
      → find key (entries_of is) ≡ some v
      → suc (length (entries_of (without key is))) ≡ length (entries_of is)
  unfolding find without
  length-without key [] v s f = cc
  length-without key (guide k ∷ is) v s f = length-without key is v s.1 f
  length-without key (entry k w ∷ is) v s f = elim (below_cases k key) [
    | inl b ↦ ground (arith, o.cmp_flip k key, length-without key is v s.1)
    | inr b ↦
        let above = entry_above key k w is b s.0 in
        ground (
          arith,
          o.cmp_flip k key,
          find-above key is above,
          ap (λ x. length (entries_of x)) (without-above key is above),
        )
  ]
