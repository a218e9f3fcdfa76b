-- ===== src/Index/BTree/Delete.antt =====
-- Delete of pkg/index/btree.go, which removes an entry from its leaf and rebalances nothing.
use Prim.Native.Nat.Ordering.{lt, eq, gt}
use laura_db.Prelude.{subst, ◌≡◌, refl, ap, sym, inl, inr, arith, List, [], ◌∷◌, ◌++◌, All}
use laura_db.Index.Comparison.{Comparison, ◌≺◌, below_cases}
use laura_db.Index.BTree.{Node, leaf, internal, Children, one, link, keys}
use laura_db.Index.BTree.Descent.{find_position, delete_leaf, delete_node, delete_child}
use laura_db.Index.BTree.Items.{
  Item, guide, entry, key_of, entries_of, as_items, items, items_of, Before, Sorted,
}
use laura_db.Index.BTree.Order.{
  find_position-below, find_position-past, Sorted-left, Sorted-right, above_guide, below_guide,
}
use laura_db.Index.BTree.Entries.{select, is_other}

module _ {ℓ κ} {K : Type ℓ} {V : Type κ} ⦃o : Comparison K⦄ where
  -- The items without the entries that have the key
  unfoldable pub without : K → List (Item K V) → List (Item K V)
  without key [] = []
  without key (guide k ∷ is) = guide k ∷ without key is
  without key (entry k v ∷ is) = elim (o.cmp key k) [
    | lt ↦ entry k v ∷ without key is
    | eq ↦ without key is
    | gt ↦ entry k v ∷ without key is
  ]

  pub without-append :
      (key : K) (xs ys : List (Item K V))
      → without key (xs ++ ys) ≡ without key xs ++ without key ys
  unfolding without
  without-append key [] ys = refl
  without-append key (guide k ∷ xs) ys = ap (◌∷◌ (guide k)) (without-append key xs ys)
  without-append key (entry k v ∷ xs) ys = ground (arith, without-append key xs ys)

  pub without-above :
      (key : K) (is : List (Item K V)) → All (λ i. key ≺ key_of i) is → without key is ≡ is
  unfolding without
  without-above key [] a = refl
  without-above key (guide k ∷ is) a = ap (◌∷◌ (guide k)) (without-above key is a.1)
  without-above key (entry k v ∷ is) a = ground (arith, without-above key is a.1, a.0)

  without-below :
      (key : K) (is : List (Item K V)) → All (λ i. key_of i ≺ key) is → without key is ≡ is
  unfolding without
  without-below key [] a = refl
  without-below key (guide k ∷ is) a = ap (◌∷◌ (guide k)) (without-below key is a.1)
  without-below key (entry k v ∷ is) a =
      ground (arith, without-below key is a.1, a.0, o.cmp_flip k key)

  pub All-without {μ} :
      (P : Item K V → Type μ) (key : K) (is : List (Item K V)) → All P is → All P (without key is)
  unfolding without
  All-without P key [] a = tt
  All-without P key (guide k ∷ is) a = (a.0, All-without P key is a.1)
  All-without P key (entry k v ∷ is) a = ground (arith, All-without P key is a.1)

  pub without-Sorted : (key : K) (is : List (Item K V)) → Sorted is → Sorted (without key is)
  unfolding without
  without-Sorted key [] s = tt
  without-Sorted key (guide k ∷ is) s = (All-without _ key is s.0, without-Sorted key is s.1)
  without-Sorted key (entry k v ∷ is) s =
      ground (arith, All-without (Before (entry k v)) key is s.0, without-Sorted key is s.1)

  pub entries_of-without :
      (key : K) (is : List (Item K V))
      → entries_of (without key is) ≡ select (is_other key) (entries_of is)
  unfolding without select
  entries_of-without key [] = refl
  entries_of-without key (guide k ∷ is) = entries_of-without key is
  entries_of-without key (entry k v ∷ is) =
      ground (arith, entries_of-without key is, o.cmp_flip k key)

  as_items-above :
      (key k : K) (v : V) (es : List (K × V))
      → o.cmp key k ≡ eq
      → All (Before (entry k v)) (as_items es)
      → All (λ i. key ≺ key_of i) (as_items es)
  as_items-above key k v [] h a = tt
  as_items-above key k v ((j, w) ∷ es) h a =
      (subst (λ x. x ≺ j) (sym (o.same_of_cmp key k h)) a.0, as_items-above key k v es h a.1)

  delete_leaf-items :
      (key : K) (es : List (K × V))
      → Sorted (as_items es)
      → as_items (delete_leaf es key) ≡ without key (as_items es)
  unfolding delete_leaf without
  delete_leaf-items key [] s = refl
  delete_leaf-items key ((k, v) ∷ es) s = ground (
    arith,
    delete_leaf-items key es s.1,
    as_items-above key k v es,
    without-above key (as_items es),
  )

  mutual
    unfolding delete_node without

    pub delete_node-items :
        (n : Node K V) (key : K)
        → Sorted (items n)
        → items (delete_node n key) ≡ without key (items n)
    delete_node-items (leaf l) key s = delete_leaf-items key l.entries s
    delete_node-items (internal cs) key s = delete_child-items cs key s

    delete_child-items :
        (cs : Children K V) (key : K)
        → Sorted (items_of cs)
        → items_of (delete_child (find_position (keys cs) key) cs key) ≡ without key (items_of cs)
    delete_child-items (one c) key s = delete_node-items c key s
    delete_child-items (link c k cs) key s = elim (below_cases key k) [
      | inl h ↦
          rw
            (
              find_position-below key k (keys cs) h,
              delete_node-items c key (Sorted-left (items c) _ s),
              without-append key (items c) (guide k ∷ items_of cs),
            )
            (ap (λ is. without key (items c) ++ is)
              (sym
                (without-above key (guide k ∷ items_of cs) (h, above_guide key k (items c) _ s h))))
      | inr h ↦
          rw
            (
              find_position-past key k (keys cs) h,
              delete_child-items cs key (Sorted-right (items c) _ s).1,
              without-append key (items c) (guide k ∷ items_of cs),
              without-below key (items c) (below_guide key k (items c) _ s h),
            )
            refl
    ]
