-- ===== src/Index/BTree/Insertion.antt =====
-- What insertIntoNode of pkg/index/btree.go does to the items of a node and of its new sibling.
use laura_db.Prelude.{
  leb→le, ℕ, zero, suc, ◌≤◌, ◌/◌, ◌≡◌, refl, ap, sym, subst, ◌∙◌, inl, inr, arith, Bool-cases,
  Option-cases, none, some, List, [], ◌∷◌, ◌++◌, append_assoc, append-nil, All, All-right, map,
  length, take, drop, leb, length-drop, List-cases, ◌≢◌,
}
use laura_db.Index.Comparison.{Comparison, ◌≺◌, asymmetric, below_cases}
use laura_db.Index.BTree.{
  Leaf, Node, Children, one, link, Split, keys, at, insert_at, insert_link, take_children,
  drop_children, split_leaf, split_internal,
}
use laura_db.Index.BTree.Descent.{
  find_position, insert_leaf, insert_split, check_leaf, check_internal,
}
use laura_db.Index.BTree.Items.{
  Item, guide, entry, as_items, items, items_of, split_items, Before, Sorted,
}
use laura_db.Index.BTree.Order.{
  find_position-below, find_position-past, Sorted-right, Before-middle,
}
use laura_db.Index.BTree.Place.{Marked, same, guided, later, place, place-past}

module _ {ℓ κ} {K : Type ℓ} {V : Type κ} where
  -- The items of a node and of its new sibling
  abbrev pub result_items : Node K V × Split K V → List (Item K V)
  result_items r = items r.0 ++ split_items r.1

  cut_leaf :
      (n : ℕ) (e : K × V) (es : List (K × V)) (k : K) (v : V) (right : List (K × V))
      → drop n es ≡ (k, v) ∷ right
      → Marked (as_items (e ∷ es)) (as_items (e ∷ take n es) ++ guide k ∷ as_items ((k, v) ∷ right))
  cut_leaf zero e es k v right h =
      subst
        (λ xs.
          Marked (entry e.0 e.1 ∷ as_items xs)
            (entry e.0 e.1 ∷ guide k ∷ entry k v ∷ as_items right))
        (sym h) (guided e.0 e.1 k v (as_items right))
  cut_leaf (suc n) e [] k v right h = cc
  cut_leaf (suc n) e (d ∷ es) k v right h = later (entry e.0 e.1) _ _ (cut_leaf n d es k v right h)

  cut_entries :
      (n : ℕ) (es : List (K × V)) (k : K) (v : V) (right : List (K × V))
      → 1 ≤ n
      → drop n es ≡ (k, v) ∷ right
      → Marked (as_items es) (as_items (take n es) ++ guide k ∷ as_items ((k, v) ∷ right))
  cut_entries zero es k v right p h = absurd (omega arith)
  cut_entries (suc n) [] k v right p h = cc
  cut_entries (suc n) (e ∷ es) k v right p h = cut_leaf n e es k v right h

  pub drop-half : (es : List (K × V)) → 2 ≤ length es → drop (length es / 2) es ≢ []
  drop-half es h e = omega (arith, length-drop (length es / 2) es, ap length e)

  split_leaf-items :
      (fresh : ℕ) (l : Leaf K V)
      → 2 ≤ length l.entries
      → Marked (as_items l.entries) (result_items (split_leaf fresh l))
  unfolding split_leaf
  split_leaf-items fresh l h = elim (List-cases (drop (length l.entries / 2) l.entries)) [
    | inl e ↦ absurd (drop-half l.entries h e)
    | inr ((k, v), right, e) ↦
        rw (e, split_leaf) (cut_entries (length l.entries / 2) l.entries k v right (omega arith) e)
  ]

  cut_children :
      (n : ℕ) (cs : Children K V) (k : K)
      → at n (keys cs) ≡ some k
      → items_of (take_children n cs) ++ guide k ∷ items_of (drop_children (suc n) cs) ≡ items_of cs
  cut_children n (one c) k h = cc
  cut_children zero (link c j cs) k h = ground arith
  cut_children (suc n) (link c j cs) k h =
      append_assoc (items c) _ _ ∙ ap (λ x. items c ++ guide j ∷ x) (cut_children n cs k h)

  split_internal-items : (cs : Children K V) → result_items (split_internal cs) ≡ items_of cs
  unfolding split_internal
  split_internal-items cs = elim (Option-cases (at (length (keys cs) / 2) (keys cs))) [
    | inl h ↦ rw (h, split_internal) (append-nil (items_of cs))
    | inr (k, h) ↦ rw (h, split_internal) (cut_children (length (keys cs) / 2) cs k h)
  ]

  check_leaf-items :
      (order fresh : ℕ) (l : Leaf K V)
      → 2 ≤ order
      → Marked (as_items l.entries) (result_items (check_leaf order fresh l))
  unfolding check_leaf
  check_leaf-items order fresh l h = elim (Bool-cases (leb order (length l.entries))) [
    | inl e ↦
        rw (e, check_leaf)
          (split_leaf-items fresh l (omega (arith, leb→le order (length l.entries) e)))
    | inr e ↦
        rw (e, check_leaf)
          (subst (Marked (as_items l.entries)) (sym (append-nil (as_items l.entries)))
            (same (as_items l.entries)))
  ]

  check_internal-items :
      (order : ℕ) (cs : Children K V) → result_items (check_internal order cs) ≡ items_of cs
  unfolding check_internal
  check_internal-items order cs = elim (Bool-cases (leb order (length (keys cs)))) [
    | inl e ↦ rw (e, check_internal) (split_internal-items cs)
    | inr e ↦ rw (e, check_internal) (append-nil (items_of cs))
  ]

  All-insert_link {μ} :
      (P : Item K V → Type μ) (n : ℕ) (key : K) (new : Node K V) (cs : Children K V)
      → All P (items_of (insert_link n key new cs))
      → P (guide key)
  All-insert_link P n key new (one c) a = (All-right P (items c) _ a).0
  All-insert_link P zero key new (link c k cs) a = (All-right P (items c) _ a).0
  All-insert_link P (suc n) key new (link c k cs) a =
      All-insert_link P n key new cs ((All-right P (items c) _ a).1)

module _ {ℓ κ} {K : Type ℓ} {V : Type κ} ⦃o : Comparison K⦄ where
  -- The children with the new sibling at its place, before they are split
  unfoldable pub absorb : Children K V → Split K V → Children K V
  absorb cs none = cs
  absorb cs (some (key, new)) = insert_link (find_position (keys cs) key) key new cs

  insert_at-place :
      (key : K) (value : V) (es : List (K × V))
      → as_items (insert_at (find_position (map (λ e. e.0) es) key) (key, value) es)
        ≡ place key value (as_items es)
  unfolding place find_position
  insert_at-place key value [] = refl
  insert_at-place key value ((k, v) ∷ es) = elim (below_cases key k) [
    | inl h ↦ rw (find_position-below key k (map (λ e. e.0) es) h, h) refl
    | inr h ↦
        rw
          (
            find_position-past key k (map (λ e. e.0) es) h,
            place-past key value (entry k v) (as_items es) h,
          )
          (ap (◌∷◌ (entry k v)) (insert_at-place key value es))
  ]

  pub insert_leaf-items :
      (order fresh : ℕ) (l : Leaf K V) (key : K) (value : V)
      → 2 ≤ order
      → Marked
          (place key value (as_items l.entries))
          (result_items (insert_leaf order fresh l key value))
  unfolding insert_leaf
  insert_leaf-items order fresh l key value h =
      let pos = find_position (map (λ e. e.0) l.entries) key in
      subst (λ xs. Marked xs (result_items (insert_leaf order fresh l key value)))
        (insert_at-place key value l.entries)
        (check_leaf-items order fresh
          (record {
            address = l.address;
            entries = insert_at pos (key, value) l.entries;
            next = l.next;
          })
          h)

  pub insert_split-items :
      (order : ℕ) (cs : Children K V) (s : Split K V)
      → result_items (insert_split order cs s) ≡ items_of (absorb cs s)
  unfolding insert_split absorb
  insert_split-items order cs none = append-nil (items_of cs)
  insert_split-items order cs (some (key, new)) =
      check_internal-items order (insert_link (find_position (keys cs) key) key new cs)

  pub absorb-one :
      (d : Node K V) (s : Split K V) → items_of (absorb (one d) s) ≡ result_items (d, s)
  unfolding absorb
  absorb-one d none = sym (append-nil (items d))
  absorb-one d (some (key, new)) = refl

  -- A node and its new sibling in front of the key and the children that follow
  abbrev pub attach : Node K V → Split K V → K → Children K V → Children K V
  attach d none k cs = link d k cs
  attach d (some (key, new)) k cs = link d key (link new k cs)

  pub absorb-attach :
      (d : Node K V) (s : Split K V) (k : K) (cs : Children K V)
      → Sorted (result_items (d, s) ++ guide k ∷ items_of cs)
      → absorb (link d k cs) s ≡ attach d s k cs
  unfolding absorb
  absorb-attach d none k cs s = refl
  absorb-attach d (some (key, new)) k cs s =
      let all : All (λ x. Before x (guide k)) (result_items (d, some (key, new))) =
        Before-middle (result_items (d, some (key, new))) (guide k) (items_of cs) s in
      let below : key ≺ k = (All-right _ (items d) (guide key ∷ items new) all).0 in
      rw (find_position-below key k (keys cs) below) refl

  items_of-attach :
      (d : Node K V) (s : Split K V) (k : K) (cs : Children K V)
      → items_of (attach d s k cs) ≡ result_items (d, s) ++ guide k ∷ items_of cs
  items_of-attach d none k cs = ap (λ x. x ++ guide k ∷ items_of cs) (sym (append-nil (items d)))
  items_of-attach d (some (key, new)) k cs =
      sym (append_assoc (items d) (guide key ∷ items new) (guide k ∷ items_of cs))

  pub absorb-here :
      (d : Node K V) (s : Split K V) (k : K) (cs : Children K V)
      → Sorted (result_items (d, s) ++ guide k ∷ items_of cs)
      → items_of (absorb (link d k cs) s) ≡ result_items (d, s) ++ guide k ∷ items_of cs
  absorb-here d split k cs s =
      ap items_of (absorb-attach d split k cs s) ∙ items_of-attach d split k cs

  pub absorb-later :
      (c : Node K V) (k : K) (ds : Children K V) (s : Split K V)
      → Sorted (items c ++ guide k ∷ items_of (absorb ds s))
      → absorb (link c k ds) s ≡ link c k (absorb ds s)
  unfolding absorb
  absorb-later c k ds none s = refl
  absorb-later c k ds (some (key, new)) s =
      let all : All (Before (guide k)) (items_of (absorb ds (some (key, new)))) =
        (Sorted-right (items c) _ s).0 in
      let above : k ≺ key = All-insert_link _ (find_position (keys ds) key) key new ds all in
      rw (find_position-past key k (keys ds) (asymmetric k key above)) refl
