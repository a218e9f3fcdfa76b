-- ===== src/Index/BTree/ShapeKept.antt =====
-- The insertion and the deletion of pkg/index/btree.go keep the shape of the tree.
use laura_db.Prelude.{
  ℕ, zero, suc, ◌-◌, ◌≤◌, ◌<◌, ◌≡◌, refl, ap, sym, subst, arith, none, some, List, [], ◌∷◌, map,
  length,
}
use laura_db.Index.Comparison.{Comparison}
use laura_db.Index.BTree.{Node, leaf, internal, Children, one, link, Split, keys, insert_link}
use laura_db.Index.BTree.Descent.{
  find_position, insert_leaf, insert_split, insert_node, insert_child, delete_leaf, delete_node,
  delete_child,
}
use laura_db.Index.BTree.Shape.{
  Shaped, AllShaped, SplitShaped, ResultShaped, length-insert_at, insert_link-AllShaped,
  length-insert_link, check_leaf-Shaped, check_internal-Shaped,
}

module _ {ℓ κ} {K : Type ℓ} {V : Type κ} ⦃o : Comparison K⦄ where
  insert_split-Shaped :
      (order h : ℕ) (cs : Children K V) (s : Split K V)
      → 2 ≤ order
      → 2 ≤ h
      → length (keys cs) < order
      → AllShaped order (h - 1) cs
      → SplitShaped order (h - 1) s
      → ResultShaped order h (insert_split order cs s)
  unfolding insert_split
  insert_split-Shaped order h cs none two tall bound a t = ((tall, bound, a), tt)
  insert_split-Shaped order h cs (some (key, new)) two tall bound a t =
      let pos = find_position (keys cs) key in
      check_internal-Shaped order h (insert_link pos key new cs) two tall
        (omega (arith, length-insert_link pos key new cs))
        (insert_link-AllShaped order (h - 1) pos key new cs a t)

  mutual
    unfolding insert_node insert_leaf

    -- An insertion keeps the shape, and a new sibling has the same height.
    pub insert_node-Shaped :
        (order fresh h : ℕ) (n : Node K V) (key : K) (value : V)
        → 2 ≤ order
        → Shaped order h n
        → ResultShaped order h (insert_node order fresh n key value)
    insert_node-Shaped order fresh h (leaf l) key value two s =
        let pos = find_position (map (λ e. e.0) l.entries) key in
        subst (λ x. ResultShaped order x (insert_leaf order fresh l key value)) (sym s.0)
          (check_leaf-Shaped order fresh _ two
            (omega (arith, length-insert_at pos (key, value) l.entries)))
    insert_node-Shaped order fresh h (internal cs) key value two s =
        let pos = find_position (keys cs) key in
        let (a, t, same) = insert_child-Shaped order fresh (h - 1) pos cs key value two s.2 in
        insert_split-Shaped order h _ _ two s.0 (omega arith) a t

    insert_child-Shaped :
        (order fresh h n : ℕ) (cs : Children K V) (key : K) (value : V)
        → 2 ≤ order
        → AllShaped order h cs
        → let after = insert_child order fresh n cs key value in
          AllShaped order h after.0
          × SplitShaped order h after.1
          × (length (keys after.0) ≡ length (keys cs))
    insert_child-Shaped order fresh h n (one c) key value two s =
        let (a, t) = insert_node-Shaped order fresh h c key value two s in (a, t, refl)
    insert_child-Shaped order fresh h zero (link c k cs) key value two s =
        let (a, t) = insert_node-Shaped order fresh h c key value two s.0 in ((a, s.1), t, refl)
    insert_child-Shaped order fresh h (suc n) (link c k cs) key value two s =
        let (a, t, same) = insert_child-Shaped order fresh h n cs key value two s.1 in
        ((s.0, a), t, ap suc same)

  length-delete_leaf : (key : K) (es : List (K × V)) → length (delete_leaf es key) ≤ length es
  unfolding delete_leaf
  length-delete_leaf key [] = omega arith
  length-delete_leaf key ((k, v) ∷ es) = ground (arith, length-delete_leaf key es)

  mutual
    unfolding delete_node

    pub delete_node-Shaped :
        (order h : ℕ) (n : Node K V) (key : K)
        → Shaped order h n
        → Shaped order h (delete_node n key)
    delete_node-Shaped order h (leaf l) key s =
        (s.0, omega (arith, length-delete_leaf key l.entries, s.1))
    delete_node-Shaped order h (internal cs) key s =
        let (a, same) =
          delete_child-Shaped order (h - 1) (find_position (keys cs) key) cs key s.2 in
        (s.0, subst (λ x. x < order) (sym same) s.1, a)

    delete_child-Shaped :
        (order h n : ℕ) (cs : Children K V) (key : K)
        → AllShaped order h cs
        → let after = delete_child n cs key in
          AllShaped order h after × (length (keys after) ≡ length (keys cs))
    delete_child-Shaped order h n (one c) key s = (delete_node-Shaped order h c key s, refl)
    delete_child-Shaped order h zero (link c k cs) key s =
        ((delete_node-Shaped order h c key s.0, s.1), refl)
    delete_child-Shaped order h (suc n) (link c k cs) key s =
        let (a, same) = delete_child-Shaped order h n cs key s.1 in ((s.0, a), ap suc same)
