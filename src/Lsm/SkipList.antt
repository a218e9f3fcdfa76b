-- ===== src/Lsm/SkipList.antt =====
-- pkg/lsm/skiplist.go: the skip list. It is the list of its nodes in the order of the lowest level,
-- each with the number of its levels: `forward[i]` of a node, and of the head, is the first node
-- behind it that has more than `i` levels. A pointer to a node is its position, where the head is
-- at 0, with the nodes behind it.
pub mod Walk
pub mod Changes
pub mod Middle
pub mod Insertion
pub mod Deletion
use Prim.Native.Nat.Ordering.{lt, eq, gt}
use laura_db.Prelude.{
  ℕ, zero, suc, ◌+◌, ◌-◌, Bool, true, false, Option, none, some, List, [], ◌∷◌, ◌++◌, take, ltb,
  ◌==◌, if◌then◌else◌,
}
use laura_db.Index.Key.{compare_bytes}

pub record Node (V : Type 0) : Type 0 where
  pub key : List ℕ
  pub value : V
  pub levels : ℕ

pub record SkipList (V : Type 0) : Type 0 where
  pub nodes : List (Node V)
  pub level : ℕ
  pub size : ℕ

abbrev pub Pointer : Type 0 → Type 0
Pointer V = ℕ × List (Node V)

unfoldable pub new_skip_list : {V : Type 0} → SkipList V
new_skip_list = record { nodes = []; level = 1; size = 0 }

-- The loop of randomLevel from `level` with at most `n` rounds left; the draws tell which random
-- numbers are below the probability.
unfoldable pub raise_level : ℕ → ℕ → List Bool → ℕ
raise_level zero level draws = level
raise_level (suc n) level [] = level
raise_level (suc n) level (false ∷ draws) = level
raise_level (suc n) level (true ∷ draws) = raise_level n (suc level) draws

unfoldable pub random_level : List Bool → ℕ
random_level draws = raise_level 15 1 draws

-- `bytes.Compare(a, b) < 0`
unfoldable pub is_below : List ℕ → List ℕ → Bool
is_below a b = elim (compare_bytes a b) [ lt ↦ true | eq ↦ false | gt ↦ false ]

-- The inner loop at level `i` from `current`, where the nodes up to position `q`, with `ns` behind
-- it, are known not to be its `forward[i]`
unfoldable pub walk_from : {V : Type 0} → ℕ → List ℕ → Pointer V → ℕ → List (Node V) → Pointer V
walk_from i key current q [] = current
walk_from i key current q (n ∷ ns) =
    let moved = walk_from i key (suc q, ns) (suc q) ns in
    let passed = walk_from i key current (suc q) ns in
    if ltb i n.levels then (if is_below n.key key then moved else current) else passed

unfoldable pub walk : {V : Type 0} → ℕ → List ℕ → Pointer V → Pointer V
walk i key (q, ns) = walk_from i key (q, ns) q ns

-- The outer loop over the levels below `level`: the pointer that it ends with
unfoldable pub descend : {V : Type 0} → ℕ → List ℕ → Pointer V → Pointer V
descend zero key current = current
descend (suc i) key current = descend i key (walk i key current)

-- Every node is on the lowest level, so the next node is `current.forward[0]`.
unfoldable pub search : {V : Type 0} → List ℕ → SkipList V → Option V
search key sl = elim ((descend sl.level key (0, sl.nodes)).1) [
  | [] ↦ none
  | n ∷ ns ↦ elim (compare_bytes n.key key) [ lt ↦ none | eq ↦ some n.value | gt ↦ none ]
]

-- The new node stands behind the node that the loop ends at, and so behind the one at `update[i]`
-- on each of its levels.
unfoldable pub add_node : {V : Type 0} → ℕ → List ℕ → V → Pointer V → SkipList V → SkipList V
add_node new_level key value (p, rest) sl = record {
  nodes = take p sl.nodes ++ (record { key = key; value = value; levels = new_level } ∷ rest);
  level = if ltb sl.level new_level then new_level else sl.level;
  size = suc sl.size;
}

unfoldable pub insert : {V : Type 0} → List Bool → List ℕ → V → SkipList V → SkipList V
insert draws key value sl =
    let (p, rest) = descend sl.level key (0, sl.nodes) in
    let added = add_node (random_level draws) key value (p, rest) sl in
    elim rest [
      | [] ↦ added
      | n ∷ ns ↦ elim (compare_bytes n.key key) [
        | lt ↦ added
        | eq ↦ record sl { nodes = take p sl.nodes ++ (record n { value = value } ∷ ns) }
        | gt ↦ added
      ]
    ]

-- `head.forward[i] != nil`
unfoldable pub reaches : {V : Type 0} → ℕ → List (Node V) → Bool
reaches i [] = false
reaches i (n ∷ ns) = if ltb i n.levels then true else reaches i ns

-- The loop that lowers the level of the list
unfoldable pub lower_level : {V : Type 0} → ℕ → List (Node V) → ℕ
lower_level zero nodes = 0
lower_level (suc zero) nodes = 1
lower_level (suc (suc i)) nodes =
    let lower = lower_level (suc i) nodes in if reaches (suc i) nodes then suc (suc i) else lower

unfoldable pub delete : {V : Type 0} → List ℕ → SkipList V → SkipList V × Bool
delete key sl =
    let (p, rest) = descend sl.level key (0, sl.nodes) in
    elim rest [
      | [] ↦ (sl, false)
      | n ∷ ns ↦
          let nodes = take p sl.nodes ++ ns in
          elim (compare_bytes n.key key) [
            | lt ↦ (sl, false)
            | eq ↦ (
              record { nodes = nodes; level = lower_level sl.level nodes; size = sl.size - 1 },
              true,
            )
            | gt ↦ (sl, false)
          ]
    ]
