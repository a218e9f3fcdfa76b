-- ===== src/Index/BTree.antt =====
-- pkg/index/btree.go: the B+ tree. An internal node holds one child more than keys, and lists them
-- in turn: a child, a key, a child and so on. A leaf's keys and values are read and written at the
-- same places and are a list of pairs. A leaf has an address, which `next` of another leaf holds.
-- The root is the one node without a parent: what the code does where `parent` is nil, `grow` does.
pub mod Descent
pub mod Operations
pub mod Items
pub mod Order
pub mod Search
pub mod Place
pub mod Insertion
pub mod Insert
pub mod Entries
pub mod Shape
pub mod ShapeKept
pub mod Delete
pub mod Chain
pub mod Leaves
pub mod Range
pub mod Scan
pub mod Capacity
pub mod Growth
pub mod WellFormed
pub mod Updates
use laura_db.Prelude.{
  ℕ, zero, suc, ◌/◌, Option, none, some, List, [], ◌∷◌, ◌++◌, length, take, drop, ltb,
  if◌then◌else◌,
}

-- A leaf `BTreeNode`
pub record Leaf {ℓ κ} (K : Type ℓ) (V : Type κ) : Type (ℓ ⊔ κ) where
  pub address : ℕ
  pub entries : List (K × V)
  pub next : Option ℕ

-- `BTreeNode`
mutual
  pub data Node {ℓ κ} (K : Type ℓ) (V : Type κ) : Type (ℓ ⊔ κ) where
    leaf : Leaf K V → Node K V
    internal : Children K V → Node K V

  -- `children` with `keys` between them
  pub data Children {ℓ κ} (K : Type ℓ) (V : Type κ) : Type (ℓ ⊔ κ) where
    one : Node K V → Children K V
    link : Node K V → K → Children K V → Children K V

-- The new sibling that a split returns, with `lastSplitKey`
abbrev pub Split {ℓ κ} : Type ℓ → Type κ → Type (ℓ ⊔ κ)
Split K V = Option (K × Node K V)

-- `next_address` is the address of the next leaf that is allocated.
pub record BTree {ℓ κ} (K : Type ℓ) (V : Type κ) : Type (ℓ ⊔ κ) where
  pub root : Node K V
  pub order : ℕ
  pub size : ℕ
  pub height : ℕ
  pub next_address : ℕ

pub data IndexError : Type 0 where
  duplicate_key key_not_found : IndexError

pub data Outcome {ℓ} (A : Type ℓ) : Type ℓ where
  ok : A → Outcome A
  err : IndexError → Outcome A

-- `append(keys[:pos], append(x, keys[pos:]))`
abbrev pub insert_at {ℓ} : {A : Type ℓ} → ℕ → A → List A → List A
insert_at pos x xs = take pos xs ++ x ∷ drop pos xs

-- `xs[n]`, where there is one
abbrev pub at {ℓ} : {A : Type ℓ} → ℕ → List A → Option A
at n [] = none
at zero (x ∷ xs) = some x
at (suc n) (x ∷ xs) = at n xs

module _ {ℓ κ} {K : Type ℓ} {V : Type κ} where
  unfoldable pub new_btree : ℕ → BTree K V
  new_btree order = record {
    root = leaf (record { address = 0; entries = []; next = none });
    order = if ltb order 3 then 3 else order;
    size = 0;
    height = 1;
    next_address = 1;
  }

  -- `node.keys` of an internal node
  abbrev pub keys : Children K V → List K
  keys (one c) = []
  keys (link c k cs) = k ∷ keys cs

  -- `keys[:n]` and `children[:n+1]`
  abbrev pub take_children : ℕ → Children K V → Children K V
  take_children n (one c) = one c
  take_children zero (link c k cs) = one c
  take_children (suc n) (link c k cs) = link c k (take_children n cs)

  -- `keys[n:]` and `children[n:]`
  abbrev pub drop_children : ℕ → Children K V → Children K V
  drop_children zero cs = cs
  drop_children (suc n) (one c) = one c
  drop_children (suc n) (link c k cs) = drop_children n cs

  -- Inserts a key at a position and a child at the next.
  abbrev pub insert_link : ℕ → K → Node K V → Children K V → Children K V
  insert_link n key new (one c) = link c key (one new)
  insert_link zero key new (link c k cs) = link c key (link new k cs)
  insert_link (suc n) key new (link c k cs) = link c k (insert_link n key new cs)

  -- `fresh` is the address of the new leaf.
  unfoldable pub split_leaf : ℕ → Leaf K V → Node K V × Split K V
  split_leaf fresh l =
      let mid = length l.entries / 2 in
      elim (drop mid l.entries) [
        | [] ↦ (leaf l, none)
        | (k, v) ∷ right ↦ (
          leaf (record { address = l.address; entries = take mid l.entries; next = some fresh }),
          some (k, leaf (record { address = fresh; entries = (k, v) ∷ right; next = l.next })),
        )
      ]

  unfoldable pub split_internal : Children K V → Node K V × Split K V
  split_internal cs =
      let mid = length (keys cs) / 2 in
      elim (at mid (keys cs)) [
        | none ↦ (internal cs, none)
        | some k ↦
            (internal (take_children mid cs), some (k, internal (drop_children (suc mid) cs)))
      ]

  -- The new root above a root that was split
  unfoldable pub grow : Node K V × Split K V → Node K V
  grow (n, none) = n
  grow (n, some (k, m)) = internal (link n k (one m))
