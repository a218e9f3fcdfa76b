-- ===== src/Index/BTree/Insert.antt =====
-- Insert of pkg/index/btree.go against the entries in order.
use laura_db.Prelude.{ℕ, ◌≤◌, ◌≡◌, ap, sym, subst, ◌∙◌, inl, inr, none, List, ◌∷◌, ◌++◌}
use laura_db.Index.Comparison.{Comparison, ◌≺◌, below_cases}
use laura_db.Index.BTree.{Node, leaf, internal, Children, one, link, keys}
use laura_db.Index.BTree.Descent.{find_position, insert_node, insert_child}
use laura_db.Index.BTree.Items.{Item, guide, entries_of, items, items_of, Sorted}
use laura_db.Index.BTree.Order.{
  find_position-below, find_position-past, Sorted-left, Sorted-right, above_guide, below_guide,
}
use laura_db.Index.BTree.Search.{find, find-left, find-right}
use laura_db.Index.BTree.Place.{
  Marked, later, Marked-after, Marked-before, place, place-past, place-left, place-right,
  place-Sorted, Sorted-Marked,
}
use laura_db.Index.BTree.Insertion.{
  result_items, absorb, absorb-one, absorb-here, absorb-attach, attach, absorb-later,
  insert_leaf-items, insert_split-items,
}

module _ {ℓ κ} {K : Type ℓ} {V : Type κ} ⦃o : Comparison K⦄ where
  -- What holds where a key is inserted that is not there
  abbrev pub Ready : K → List (Item K V) → Type (ℓ ⊔ κ)
  Ready key is = Sorted is × (find key (entries_of is) ≡ none)

  pub Ready-left :
      (key k : K) (xs ys : List (Item K V))
      → key ≺ k
      → Ready key (xs ++ guide k ∷ ys)
      → Ready key xs
  Ready-left key k xs ys h r = (
    Sorted-left xs _ r.0,
    sym (find-left key xs (guide k ∷ ys) (h, above_guide key k xs ys r.0 h)) ∙ r.1,
  )

  pub Ready-right :
      (key k : K) (xs ys : List (Item K V))
      → ¬ (key ≺ k)
      → Ready key (xs ++ guide k ∷ ys)
      → Ready key ys
  Ready-right key k xs ys h r = (
    (Sorted-right xs _ r.0).1,
    sym (find-right key xs (guide k ∷ ys) (below_guide key k xs ys r.0 h)) ∙ r.1,
  )

  -- Both sides of a key of an internal node
  place-guide_left :
      (key : K) (value : V) (xs : List (Item K V)) (k : K) (ys zs : List (Item K V))
      → key ≺ k
      → Marked (place key value xs) zs
      → Marked (place key value (xs ++ guide k ∷ ys)) (zs ++ guide k ∷ ys)
  place-guide_left key value xs k ys zs h m =
      subst (λ us. Marked us (zs ++ guide k ∷ ys)) (sym (place-left key value xs (guide k) ys h))
        (Marked-before (place key value xs) zs (guide k ∷ ys) m)

  place-guide_right :
      (key : K) (value : V) (xs : List (Item K V)) (k : K) (ys zs : List (Item K V))
      → ¬ (key ≺ k)
      → Sorted (xs ++ guide k ∷ ys)
      → Marked (place key value ys) zs
      → Marked (place key value (xs ++ guide k ∷ ys)) (xs ++ guide k ∷ zs)
  place-guide_right key value xs k ys zs h s m =
      let at_guide : place key value (xs ++ guide k ∷ ys) ≡ xs ++ guide k ∷ place key value ys =
        place-right key value xs (guide k ∷ ys) (below_guide key k xs ys s h)
        ∙ ap (λ us. xs ++ us) (place-past key value (guide k) ys h) in
      subst (λ us. Marked us (xs ++ guide k ∷ zs)) (sym at_guide)
        (Marked-after xs _ _ (later (guide k) _ _ m))

  pub placed-Sorted :
      (key : K) (value : V) (is zs : List (Item K V))
      → Ready key is
      → Marked (place key value is) zs
      → Sorted zs
  placed-Sorted key value is zs r m =
      Sorted-Marked (place key value is) zs (place-Sorted key value is r.0 r.1) m

  mutual
    unfolding insert_node

    pub insert_node-items :
        (order fresh : ℕ) (n : Node K V) (key : K) (value : V)
        → 2 ≤ order
        → Ready key (items n)
        → Marked (place key value (items n)) (result_items (insert_node order fresh n key value))
    insert_node-items order fresh (leaf l) key value h r =
        insert_leaf-items order fresh l key value h
    insert_node-items order fresh (internal cs) key value h r =
        let after = insert_child order fresh (find_position (keys cs) key) cs key value in
        subst (Marked (place key value (items_of cs)))
          (sym (insert_split-items order after.0 after.1))
          (insert_child-items order fresh cs key value h r)

    insert_child-items :
        (order fresh : ℕ) (cs : Children K V) (key : K) (value : V)
        → 2 ≤ order
        → Ready key (items_of cs)
        → let after = insert_child order fresh (find_position (keys cs) key) cs key value in
          Marked (place key value (items_of cs)) (items_of (absorb after.0 after.1))
    insert_child-items order fresh (one c) key value h r =
        let after = insert_node order fresh c key value in
        subst (Marked (place key value (items c))) (sym (absorb-one after.0 after.1))
          (insert_node-items order fresh c key value h r)
    insert_child-items order fresh (link c k cs) key value h r = elim (below_cases key k) [
      | inl b ↦
          let after = insert_node order fresh c key value in
          let m = place-guide_left key value (items c) k (items_of cs) (result_items after) b (
            insert_node-items order fresh c key value h
              (Ready-left key k (items c) (items_of cs) b r)) in
          rw (find_position-below key k (keys cs) b) (
            subst (Marked (place key value (items_of (link c k cs))))
              (sym (absorb-here after.0 after.1 k cs (placed-Sorted key value _ _ r m))) m)
      | inr b ↦
          let after = insert_child order fresh (find_position (keys cs) key) cs key value in
          let m =
            place-guide_right key value (items c) k (items_of cs)
              (items_of (absorb after.0 after.1)) b r.0
              (insert_child-items order fresh cs key value h
                (Ready-right key k (items c) (items_of cs) b r)) in
          rw (find_position-past key k (keys cs) b) (
            subst (Marked (place key value (items_of (link c k cs))))
              (sym
                (ap items_of (absorb-later c k after.0 after.1 (placed-Sorted key value _ _ r m))))
              m)
    ]

  -- The insertion of the new sibling where its left neighbour stands, in front of the next key
  pub insert_child-attach :
      (order fresh : ℕ) (c : Node K V) (k : K) (cs : Children K V) (key : K) (value : V)
      → 2 ≤ order
      → Ready key (items_of (link c k cs))
      → key ≺ k
      → let after =
          insert_child order fresh (find_position (k ∷ keys cs) key) (link c k cs) key value in
        let child = insert_node order fresh c key value in
        absorb after.0 after.1 ≡ attach child.0 child.1 k cs
  unfolding insert_node
  insert_child-attach order fresh c k cs key value h r b =
      let after = insert_node order fresh c key value in
      let m = place-guide_left key value (items c) k (items_of cs) (result_items after) b (
        insert_node-items order fresh c key value h
          (Ready-left key k (items c) (items_of cs) b r)) in
      rw (find_position-below key k (keys cs) b)
        (absorb-attach after.0 after.1 k cs (placed-Sorted key value _ _ r m))

  pub insert_child-link :
      (order fresh : ℕ) (c : Node K V) (k : K) (cs : Children K V) (key : K) (value : V)
      → 2 ≤ order
      → Ready key (items_of (link c k cs))
      → ¬ (key ≺ k)
      → let after =
          insert_child order fresh (find_position (k ∷ keys cs) key) (link c k cs) key value in
        let later = insert_child order fresh (find_position (keys cs) key) cs key value in
        absorb after.0 after.1 ≡ link c k (absorb later.0 later.1)
  unfolding insert_node
  insert_child-link order fresh c k cs key value h r b =
      let after = insert_child order fresh (find_position (keys cs) key) cs key value in
      let m =
        place-guide_right key value (items c) k (items_of cs) (items_of (absorb after.0 after.1)) b
          r.0
          (insert_child-items order fresh cs key value h
            (Ready-right key k (items c) (items_of cs) b r)) in
      rw (find_position-past key k (keys cs) b)
        (absorb-later c k after.0 after.1 (placed-Sorted key value _ _ r m))
