-- ===== src/Index/BTree/Operations.antt =====
-- The exported methods of pkg/index/btree.go, each one atomic under the tree's lock, and its range
-- scan along the `next` pointers of the leaves.
use Prim.Native.Nat.Ordering.{lt, eq, gt}
use laura_db.Prelude.{
  ℕ, zero, suc, ◌+◌, ◌-◌, ◌==◌, Bool, true, false, ◌&&◌, Option, none, some, List, [], ◌∷◌, ◌++◌,
  length, if◌then◌else◌,
}
use laura_db.Index.Comparison.{Comparison}
use laura_db.Index.BTree.{
  Leaf, Node, leaf, internal, Children, one, link, BTree, Outcome, ok, err, duplicate_key,
  key_not_found, grow,
}
use laura_db.Index.BTree.Descent.{insert_node, search_node, delete_node, find_leaf}

-- `1` for a root that was split
abbrev pub levels {ℓ} : {A : Type ℓ} → Option A → ℕ
levels none = 0
levels (some a) = 1

module _ {ℓ κ} {K : Type ℓ} {V : Type κ} where
  -- The leaves of the tree, in its order
  unfoldable mutual
    pub leaves : Node K V → List (Leaf K V)
    leaves (leaf l) = l ∷ []
    leaves (internal cs) = leaves_of cs

    pub leaves_of : Children K V → List (Leaf K V)
    leaves_of (one c) = leaves c
    leaves_of (link c k cs) = leaves c ++ leaves_of cs

  -- `leaf = bt.root; for !leaf.isLeaf { leaf = leaf.children[0] }`
  unfoldable mutual
    pub leftmost : Node K V → Leaf K V
    leftmost (leaf l) = l
    leftmost (internal cs) = leftmost_of cs

    pub leftmost_of : Children K V → Leaf K V
    leftmost_of (one c) = leftmost c
    leftmost_of (link c k cs) = leftmost c

  -- The leaf that a pointer points to
  unfoldable pub follow : List (Leaf K V) → ℕ → Option (Leaf K V)
  follow [] a = none
  follow (l ∷ ls) a = if l.address == a then some l else follow ls a

module _ {ℓ} {K : Type ℓ} ⦃o : Comparison K⦄ where
  -- `start == nil || bt.compare(k, start) >= 0`
  abbrev pub include_start : Option K → K → Bool
  include_start none k = true
  include_start (some s) k = elim (o.cmp k s) [ lt ↦ false | eq ↦ true | gt ↦ true ]

  -- `end == nil || bt.compare(k, end) <= 0`
  abbrev pub include_end : Option K → K → Bool
  include_end none k = true
  include_end (some e) k = elim (o.cmp k e) [ lt ↦ true | eq ↦ true | gt ↦ false ]

module _ {ℓ κ} {K : Type ℓ} {V : Type κ} ⦃o : Comparison K⦄ where
  unfoldable pub search : BTree K V → K → Option V
  search t key = search_node t.root key

  unfoldable pub insert : BTree K V → K → V → Outcome (BTree K V)
  insert t key value = elim (search_node t.root key) [
    | some v ↦ err duplicate_key
    | none ↦
        let (node, split) = insert_node t.order t.next_address t.root key value in
        ok (record {
          root = grow (node, split);
          order = t.order;
          size = suc t.size;
          height = t.height + levels split;
          next_address = suc t.next_address;
        })
  ]

  unfoldable pub delete : BTree K V → K → Outcome (BTree K V)
  delete t key = elim (search_node t.root key) [
    | none ↦ err key_not_found
    | some v ↦ ok (record {
      root = delete_node t.root key;
      order = t.order;
      size = t.size - 1;
      height = t.height;
      next_address = t.next_address;
    })
  ]

  -- The loop over one leaf; `later` is what the following leaves give.
  unfoldable pub scan_leaf : Option K → Option K → List (K × V) → List (K × V) → List (K × V)
  scan_leaf start stop [] later = later
  scan_leaf start stop ((k, v) ∷ es) later =
      let more = if include_end stop k then scan_leaf start stop es later else [] in
      if include_start start k && include_end stop k then (k, v) ∷ more else more

  -- The loop over the leaves, for at most so many
  unfoldable pub scan_leaves : ℕ → List (Leaf K V) → Option K → Option K → Leaf K V → List (K × V)
  scan_leaves zero ls start stop l = []
  scan_leaves (suc n) ls start stop l = scan_leaf start stop l.entries (elim l.next [
    | none ↦ []
    | some a ↦ elim (follow ls a) [ none ↦ [] | some m ↦ scan_leaves n ls start stop m ]
  ])

  unfoldable pub first_leaf : Node K V → Option K → Leaf K V
  first_leaf n none = leftmost n
  first_leaf n (some start) = find_leaf n start

  unfoldable pub range_scan : BTree K V → Option K → Option K → List (K × V)
  range_scan t start stop =
      let ls = leaves t.root in scan_leaves (length ls) ls start stop (first_leaf t.root start)
