-- ===== src/Index/BTree/Leaves.antt =====
-- What insertions and deletions of pkg/index/btree.go do to the leaves.
use laura_db.Prelude.{
  All, All-append, All-left, All-right, ℕ, zero, suc, ◌≤◌, ◌/◌, ◌≡◌, refl, ap, sym, subst, ◌∙◌, inl,
  inr, Bool-cases, Option-cases, List-cases, leb, none, some, List, [], ◌∷◌, ◌++◌, append_assoc,
  append-nil, length, drop, map,
}
use laura_db.Index.Comparison.{Comparison, below_cases}
use laura_db.Index.BTree.{
  Leaf, Node, leaf, internal, Children, one, link, Split, keys, at, insert_at, take_children,
  drop_children, split_leaf, split_internal,
}
use laura_db.Index.BTree.Descent.{
  find_position, check_leaf, check_internal, insert_leaf, insert_split, insert_node, insert_child,
  delete_leaf, delete_node, delete_child,
}
use laura_db.Index.BTree.Operations.{leaves, leaves_of}
use laura_db.Index.BTree.Items.{items, items_of}
use laura_db.Index.BTree.Insertion.{absorb, attach}
use laura_db.Index.BTree.Insert.{
  Ready, Ready-left, Ready-right, insert_child-attach, insert_child-link,
}
use laura_db.Index.BTree.Chain.{Touched, filled, divided, Touched-after, Touched-before}

module _ {ℓ κ} {K : Type ℓ} {V : Type κ} where
  abbrev pub split_leaves : Split K V → List (Leaf K V)
  unfolding leaves
  split_leaves none = []
  split_leaves (some (k, m)) = leaves m

  -- The leaves of a node and of its new sibling
  abbrev pub result_leaves : Node K V × Split K V → List (Leaf K V)
  result_leaves r = leaves r.0 ++ split_leaves r.1

  check_leaf-Touched :
      (order fresh : ℕ) (l : Leaf K V) (es : List (K × V))
      → Touched fresh (l ∷ []) (
          result_leaves
            (check_leaf order fresh (record { address = l.address; entries = es; next = l.next })))
  unfolding check_leaf split_leaf leaves
  check_leaf-Touched order fresh l es = elim (Bool-cases (leb order (length es))) [
    | inr e ↦ rw (e, check_leaf) (filled l es [])
    | inl e ↦ elim (List-cases (drop (length es / 2) es)) [
      | inl d ↦ rw (e, check_leaf, d, split_leaf) (filled l es [])
      | inr (x, right, d) ↦ rw (e, check_leaf, d, split_leaf) (divided l _ (x ∷ right) [])
    ]
  ]

  cut_leaves :
      (n : ℕ) (cs : Children K V) (k : K)
      → at n (keys cs) ≡ some k
      → leaves_of (take_children n cs) ++ leaves_of (drop_children (suc n) cs) ≡ leaves_of cs
  unfolding leaves
  cut_leaves n (one c) k h = cc
  cut_leaves zero (link c j cs) k h = refl
  cut_leaves (suc n) (link c j cs) k h =
      append_assoc (leaves c) _ _ ∙ ap (λ x. leaves c ++ x) (cut_leaves n cs k h)

  check_internal-leaves :
      (order : ℕ) (cs : Children K V) → result_leaves (check_internal order cs) ≡ leaves_of cs
  unfolding check_internal split_internal leaves
  check_internal-leaves order cs = elim (Bool-cases (leb order (length (keys cs)))) [
    | inr e ↦ rw (e, check_internal) (append-nil (leaves_of cs))
    | inl e ↦ elim (Option-cases (at (length (keys cs) / 2) (keys cs))) [
      | inl d ↦ rw (e, check_internal, d, split_internal) (append-nil (leaves_of cs))
      | inr (k, d) ↦
          rw (e, check_internal, d, split_internal) (cut_leaves (length (keys cs) / 2) cs k d)
    ]
  ]

module _ {ℓ κ} {K : Type ℓ} {V : Type κ} ⦃o : Comparison K⦄ where
  insert_split-leaves :
      (order : ℕ) (cs : Children K V) (s : Split K V)
      → result_leaves (insert_split order cs s) ≡ leaves_of (absorb cs s)
  unfolding insert_split absorb leaves
  insert_split-leaves order cs none = append-nil (leaves_of cs)
  insert_split-leaves order cs (some (key, new)) = check_internal-leaves order _

  absorb_one-leaves :
      (d : Node K V) (s : Split K V) → leaves_of (absorb (one d) s) ≡ result_leaves (d, s)
  unfolding absorb leaves
  absorb_one-leaves d none = sym (append-nil (leaves d))
  absorb_one-leaves d (some (key, new)) = refl

  attach-leaves :
      (d : Node K V) (s : Split K V) (k : K) (cs : Children K V)
      → leaves_of (attach d s k cs) ≡ result_leaves (d, s) ++ leaves_of cs
  unfolding leaves
  attach-leaves d none k cs = ap (λ x. x ++ leaves_of cs) (sym (append-nil (leaves d)))
  attach-leaves d (some (key, new)) k cs = sym (append_assoc (leaves d) (leaves new) (leaves_of cs))

  mutual
    unfolding insert_node leaves insert_leaf

    pub insert_node-leaves :
        (order fresh : ℕ) (n : Node K V) (key : K) (value : V)
        → 2 ≤ order
        → Ready key (items n)
        → Touched fresh (leaves n) (result_leaves (insert_node order fresh n key value))
    insert_node-leaves order fresh (leaf l) key value h r =
        check_leaf-Touched order fresh l
          (insert_at (find_position (map (λ e. e.0) l.entries) key) (key, value) l.entries)
    insert_node-leaves order fresh (internal cs) key value h r =
        let after = insert_child order fresh (find_position (keys cs) key) cs key value in
        subst (Touched fresh (leaves_of cs)) (sym (insert_split-leaves order after.0 after.1))
          (insert_child-leaves order fresh cs key value h r)

    insert_child-leaves :
        (order fresh : ℕ) (cs : Children K V) (key : K) (value : V)
        → 2 ≤ order
        → Ready key (items_of cs)
        → let after = insert_child order fresh (find_position (keys cs) key) cs key value in
          Touched fresh (leaves_of cs) (leaves_of (absorb after.0 after.1))
    insert_child-leaves order fresh (one c) key value h r =
        let after = insert_node order fresh c key value in
        subst (Touched fresh (leaves c)) (sym (absorb_one-leaves after.0 after.1))
          (insert_node-leaves order fresh c key value h r)
    insert_child-leaves order fresh (link c k cs) key value h r = elim (below_cases key k) [
      | inl b ↦
          let after = insert_node order fresh c key value in
          subst (Touched fresh (leaves c ++ leaves_of cs))
            (sym (attach-leaves after.0 after.1 k cs)
              ∙ sym (ap leaves_of (insert_child-attach order fresh c k cs key value h r b)))
            (Touched-before fresh (leaves c) _ (leaves_of cs) (
              insert_node-leaves order fresh c key value h
                (Ready-left key k (items c) (items_of cs) b r)))
      | inr b ↦
          subst (Touched fresh (leaves c ++ leaves_of cs))
            (sym (ap leaves_of (insert_child-link order fresh c k cs key value h r b)))
            (Touched-after fresh (leaves c) _ _ (
              insert_child-leaves order fresh cs key value h
                (Ready-right key k (items c) (items_of cs) b r)))
    ]

  mutual
    unfolding delete_node leaves

    pub delete_node-leaves :
        (fresh : ℕ) (n : Node K V) (key : K) → Touched fresh (leaves n) (leaves (delete_node n key))
    delete_node-leaves fresh (leaf l) key = filled l (delete_leaf l.entries key) []
    delete_node-leaves fresh (internal cs) key =
        delete_child-leaves fresh (find_position (keys cs) key) cs key

    delete_child-leaves :
        (fresh n : ℕ) (cs : Children K V) (key : K)
        → Touched fresh (leaves_of cs) (leaves_of (delete_child n cs key))
    delete_child-leaves fresh n (one c) key = delete_node-leaves fresh c key
    delete_child-leaves fresh zero (link c k cs) key =
        Touched-before fresh (leaves c) _ (leaves_of cs) (delete_node-leaves fresh c key)
    delete_child-leaves fresh (suc n) (link c k cs) key =
        Touched-after fresh (leaves c) _ _ (delete_child-leaves fresh n cs key)

  -- What holds of all addresses of leaves holds after a deletion.
  mutual
    unfolding delete_node leaves

    pub delete_node-All {μ} :
        (P : ℕ → Type μ) (n : Node K V) (key : K)
        → All (λ l. P l.address) (leaves n)
        → All (λ l. P l.address) (leaves (delete_node n key))
    delete_node-All P (leaf l) key a = a
    delete_node-All P (internal cs) key a =
        delete_child-All P (find_position (keys cs) key) cs key a

    delete_child-All {μ} :
        (P : ℕ → Type μ) (n : ℕ) (cs : Children K V) (key : K)
        → All (λ l. P l.address) (leaves_of cs)
        → All (λ l. P l.address) (leaves_of (delete_child n cs key))
    delete_child-All P n (one c) key a = delete_node-All P c key a
    delete_child-All P zero (link c k cs) key a =
        All-append _ (leaves (delete_node c key)) (leaves_of cs)
          (delete_node-All P c key (All-left _ (leaves c) _ a)) (All-right _ (leaves c) _ a)
    delete_child-All P (suc n) (link c k cs) key a =
        All-append _ (leaves c) (leaves_of (delete_child n cs key)) (All-left _ (leaves c) _ a)
          (delete_child-All P n cs key (All-right _ (leaves c) _ a))
