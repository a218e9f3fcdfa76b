-- ===== src/Index/BTree/Search.antt =====
-- The search of pkg/index/btree.go against a search through all entries.
use Prim.Native.Nat.Ordering.{lt, eq, gt}
use laura_db.Prelude.{
  ◌≡◌, refl, ap, ◌∙◌, sym, inl, inr, arith, Option, none, some, List, [], ◌∷◌, ◌++◌, All, All-imp,
}
use laura_db.Index.Comparison.{Comparison, ◌≺◌, below_cases}
use laura_db.Index.BTree.{Node, leaf, internal, Children, one, link, keys}
use laura_db.Index.BTree.Descent.{search_leaf, search_node, search_child, find_position}
use laura_db.Index.BTree.Items.{
  Item, guide, entry, key_of, entries_of, as_items, items, items_of, Sorted, entries_of-as_items,
}
use laura_db.Index.BTree.Order.{
  Sorted-left, Sorted-right, above_guide, below_guide, above_entry, find_position-below,
  find_position-past,
}

module _ {ℓ κ} {K : Type ℓ} {V : Type κ} ⦃o : Comparison K⦄ where
  -- The value of the first entry with the key
  unfoldable pub find : K → List (K × V) → Option V
  find key [] = none
  find key ((k, v) ∷ es) = elim (o.cmp key k) [ eq ↦ some v | lt ↦ find key es | gt ↦ find key es ]

  pub find-above :
      (key : K) (is : List (Item K V))
      → All (λ i. key ≺ key_of i) is
      → find key (entries_of is) ≡ none
  unfolding find
  find-above key [] a = refl
  find-above key (guide k ∷ is) a = find-above key is a.1
  find-above key (entry k v ∷ is) a = rw a.0 (find-above key is a.1)

  pub find-left :
      (key : K) (xs ys : List (Item K V))
      → All (λ i. key ≺ key_of i) ys
      → find key (entries_of (xs ++ ys)) ≡ find key (entries_of xs)
  unfolding find
  find-left key [] ys a = find-above key ys a
  find-left key (guide k ∷ xs) ys a = find-left key xs ys a
  find-left key (entry k v ∷ xs) ys a = ground (arith, find-left key xs ys a)

  pub find-right :
      (key : K) (xs ys : List (Item K V))
      → All (λ i. key_of i ≺ key) xs
      → find key (entries_of (xs ++ ys)) ≡ find key (entries_of ys)
  unfolding find
  find-right key [] ys a = refl
  find-right key (guide k ∷ xs) ys a = find-right key xs ys a.1
  find-right key (entry k v ∷ xs) ys a = rw (o.cmp_flip k key, a.0) (find-right key xs ys a.1)

  search_leaf-find :
      (key : K) (es : List (K × V)) → Sorted (as_items es) → search_leaf es key ≡ find key es
  unfolding search_leaf find
  search_leaf-find key [] s = refl
  search_leaf-find key ((k, v) ∷ es) s = elim (below_cases key k) [
    | inl h ↦
        let above : All (λ i. key ≺ key_of i) (as_items es) =
          All-imp (λ i b. above_entry key k v h i b) (as_items es) s.0 in
        rw (h, search_leaf, find)
          (sym (find-above key (as_items es) above) ∙ ap (find key) (entries_of-as_items es))
    | inr h ↦ ground (arith, search_leaf-find key es s.1)
  ]

  mutual
    unfolding search_node find_position

    pub search_node-find :
        (n : Node K V) (key : K)
        → Sorted (items n)
        → search_node n key ≡ find key (entries_of (items n))
    search_node-find (leaf l) key s =
        search_leaf-find key l.entries s ∙ ap (find key) (sym (entries_of-as_items l.entries))
    search_node-find (internal cs) key s = search_child-find cs key s

    search_child-find :
        (cs : Children K V) (key : K)
        → Sorted (items_of cs)
        → search_child (find_position (keys cs) key) cs key ≡ find key (entries_of (items_of cs))
    search_child-find (one c) key s = search_node-find c key s
    search_child-find (link c k cs) key s = elim (below_cases key k) [
      | inl h ↦ rw (find_position-below key k (keys cs) h) (
          search_node-find c key (Sorted-left (items c) _ s)
          ∙ sym (
              find-left key (items c) (guide k ∷ items_of cs)
                (h, above_guide key k (items c) _ s h)))
      | inr h ↦ rw (find_position-past key k (keys cs) h) (
          search_child-find cs key (Sorted-right (items c) _ s).1
          ∙ sym (
              find-right key (items c) (guide k ∷ items_of cs) (below_guide key k (items c) _ s h)))
    ]
