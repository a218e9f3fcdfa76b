-- ===== src/Index/BTree/Descent.antt =====
-- The walks of pkg/index/btree.go down one branch of the tree, to the child at `findPosition`.
use Prim.Native.Nat.Ordering.{lt, eq, gt}
use laura_db.Prelude.{
  ℕ, zero, suc, Option, none, some, List, [], ◌∷◌, map, length, leb, if◌then◌else◌,
}
use laura_db.Index.Comparison.{Comparison}
use laura_db.Index.BTree.{
  Leaf, Node, leaf, internal, Children, one, link, Split, keys, insert_at, insert_link, split_leaf,
  split_internal,
}

unfoldable pub find_position {ℓ} : {K : Type ℓ} ⦃o : Comparison K⦄ → List K → K → ℕ
find_position [] key = 0
find_position ⦃o⦄ (k ∷ ks) key = elim (o.cmp key k) [
  | lt ↦ 0
  | eq ↦ suc (find_position ks key)
  | gt ↦ suc (find_position ks key)
]

module _ {ℓ κ} {K : Type ℓ} {V : Type κ} where
  -- `if len(leaf.keys) >= bt.order`, with the sibling that a split makes
  unfoldable pub check_leaf : ℕ → ℕ → Leaf K V → Node K V × Split K V
  check_leaf order fresh l =
      if leb order (length l.entries) then split_leaf fresh l else (leaf l, none)

  unfoldable pub check_internal : ℕ → Children K V → Node K V × Split K V
  check_internal order cs =
      if leb order (length (keys cs)) then split_internal cs else (internal cs, none)

module _ {ℓ κ} {K : Type ℓ} {V : Type κ} ⦃o : Comparison K⦄ where
  unfoldable pub insert_leaf : ℕ → ℕ → Leaf K V → K → V → Node K V × Split K V
  insert_leaf order fresh l key value =
      let pos = find_position (map (λ e. e.0) l.entries) key in
      check_leaf order fresh (record {
        address = l.address;
        entries = insert_at pos (key, value) l.entries;
        next = l.next;
      })

  -- What `insertIntoInternal` does after its recursive call
  unfoldable pub insert_split : ℕ → Children K V → Split K V → Node K V × Split K V
  insert_split order cs none = (internal cs, none)
  insert_split order cs (some (key, new)) =
      check_internal order (insert_link (find_position (keys cs) key) key new cs)

  unfoldable mutual
    pub insert_node : ℕ → ℕ → Node K V → K → V → Node K V × Split K V
    insert_node order fresh (leaf l) key value = insert_leaf order fresh l key value
    insert_node order fresh (internal cs) key value =
        let (ds, split) = insert_child order fresh (find_position (keys cs) key) cs key value in
        insert_split order ds split

    -- The recursive call on the child at a position
    pub insert_child : ℕ → ℕ → ℕ → Children K V → K → V → Children K V × Split K V
    insert_child order fresh n (one c) key value =
        let (d, split) = insert_node order fresh c key value in (one d, split)
    insert_child order fresh zero (link c k cs) key value =
        let (d, split) = insert_node order fresh c key value in (link d k cs, split)
    insert_child order fresh (suc n) (link c k cs) key value =
        let (ds, split) = insert_child order fresh n cs key value in (link c k ds, split)

  unfoldable pub search_leaf : List (K × V) → K → Option V
  search_leaf [] key = none
  search_leaf ((k, v) ∷ es) key = elim (o.cmp key k) [
    | eq ↦ some v
    | lt ↦ none
    | gt ↦ search_leaf es key
  ]

  unfoldable mutual
    pub find_leaf : Node K V → K → Leaf K V
    find_leaf (leaf l) key = l
    find_leaf (internal cs) key = find_child (find_position (keys cs) key) cs key

    pub find_child : ℕ → Children K V → K → Leaf K V
    find_child n (one c) key = find_leaf c key
    find_child zero (link c k cs) key = find_leaf c key
    find_child (suc n) (link c k cs) key = find_child n cs key

  unfoldable mutual
    pub search_node : Node K V → K → Option V
    search_node (leaf l) key = search_leaf l.entries key
    search_node (internal cs) key = search_child (find_position (keys cs) key) cs key

    pub search_child : ℕ → Children K V → K → Option V
    search_child n (one c) key = search_node c key
    search_child zero (link c k cs) key = search_node c key
    search_child (suc n) (link c k cs) key = search_child n cs key

  unfoldable pub delete_leaf : List (K × V) → K → List (K × V)
  delete_leaf [] key = []
  delete_leaf ((k, v) ∷ es) key = elim (o.cmp key k) [
    | eq ↦ es
    | lt ↦ (k, v) ∷ delete_leaf es key
    | gt ↦ (k, v) ∷ delete_leaf es key
  ]

  unfoldable mutual
    pub delete_node : Node K V → K → Node K V
    delete_node (leaf l) key =
        leaf (record { address = l.address; entries = delete_leaf l.entries key; next = l.next })
    delete_node (internal cs) key = internal (delete_child (find_position (keys cs) key) cs key)

    pub delete_child : ℕ → Children K V → K → Children K V
    delete_child n (one c) key = one (delete_node c key)
    delete_child zero (link c k cs) key = link (delete_node c key) k cs
    delete_child (suc n) (link c k cs) key = link c k (delete_child n cs key)
