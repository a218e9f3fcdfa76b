-- ===== src/Index/BTree/Scan.antt =====
-- Where the range scan of pkg/index/btree.go begins, and what it gives.
use laura_db.Prelude.{
  ◌&&◌, true, Bool, not, ◌≡◌, refl, ap, ap₂, sym, subst, ◌∙◌, inl, inr, arith, false, Option, none,
  some, List, [], ◌∷◌, ◌++◌, append_assoc, length, length-append, All-imp,
}
use laura_db.Index.Comparison.{Comparison, ◌≺◌, below_cases}
use laura_db.Index.BTree.{Leaf, Node, leaf, internal, Children, one, link, keys, BTree}
use laura_db.Index.BTree.Descent.{find_position, find_leaf, find_child}
use laura_db.Index.BTree.Operations.{
  include_start, leaves, leaves_of, leftmost, leftmost_of, scan_leaves, first_leaf, range_scan,
}
use laura_db.Index.BTree.Items.{Item, key_of, entries_of, as_items, items, items_of, Sorted}
use laura_db.Index.BTree.Order.{
  find_position-below, find_position-past, Sorted-left, Sorted-right, below_guide,
}
use laura_db.Index.BTree.Entries.{is_below, is_above, select, select_none, select-append}
use laura_db.Index.BTree.Chain.{Linked, Separate}
use laura_db.Index.BTree.Range.{
  gathered, gathered-append, entries_of-items, as_items-append, Sorted-entries, included,
  scan_leaf-select, scan_leaves-gathered,
}
use laura_db.Index.BTree.WellFormed.{entries}
use laura_db.Index.BTree.Updates.{Reached, Reached-WellFormed}

module _ {ℓ} {K : Type ℓ} ⦃o : Comparison K⦄ where
  -- The test by which an entry belongs to a range
  abbrev pub in_range : Option K → Option K → K → Bool
  in_range none none k = true
  in_range none (some high) k = not (is_above high k)
  in_range (some low) none k = not (is_below low k)
  in_range (some low) (some high) k = not (is_below low k) && not (is_above high k)

  included-in_range :
      (start stop : Option K) (k : K) → included start stop k ≡ in_range start stop k
  included-in_range none none k = refl
  included-in_range none (some high) k = ground arith
  included-in_range (some low) none k = ground arith
  included-in_range (some low) (some high) k = ground arith

module _ {ℓ κ} {K : Type ℓ} {V : Type κ} ⦃o : Comparison K⦄ where
  -- The leaf stands in the list, and the leaves before it hold nothing of the range.
  abbrev Starts : Option K → Option K → List (Leaf K V) → Leaf K V → Type (ℓ ⊔ κ)
  Starts start stop ls l =
      (ks : List (Leaf K V)) × (ms : List (Leaf K V)) × (ls ≡ ks ++ l ∷ ms)
      × (select (included start stop) (gathered ks) ≡ [])

  Starts-before :
      (start stop : Option K) (ls ns : List (Leaf K V)) (l : Leaf K V)
      → Starts start stop ls l
      → Starts start stop (ls ++ ns) l
  Starts-before start stop ls ns l (ks, ms, e, n) =
      (ks, ms ++ ns, ap (λ xs. xs ++ ns) e ∙ append_assoc ks (l ∷ ms) ns, n)

  Starts-after :
      (start stop : Option K) (ns ls : List (Leaf K V)) (l : Leaf K V)
      → select (included start stop) (gathered ns) ≡ []
      → Starts start stop ls l
      → Starts start stop (ns ++ ls) l
  Starts-after start stop ns ls l h (ks, ms, e, n) = (
    ns ++ ks,
    ms,
    ap (λ xs. ns ++ xs) e ∙ sym (append_assoc ns ks (l ∷ ms)),
    ap (select (included start stop)) (gathered-append ns ks)
        ∙ select-append (included start stop) (gathered ns) (gathered ks)
        ∙ ap₂ (λ xs ys. xs ++ ys) h n,
  )

  below_start :
      (key : K) (stop : Option K) (i : Item K V)
      → key_of i ≺ key
      → included (some key) stop (key_of i) ≡ false
  below_start key stop i h =
      let p : include_start (some key) (key_of i) ≡ false = ground arith in rw p refl

  mutual
    unfolding find_leaf leaves select

    find_leaf-Starts :
        (n : Node K V) (key : K) (stop : Option K)
        → Sorted (items n)
        → Starts (some key) stop (leaves n) (find_leaf n key)
    find_leaf-Starts (leaf l) key stop s = ([], [], refl, refl)
    find_leaf-Starts (internal cs) key stop s = find_child-Starts cs key stop s

    find_child-Starts :
        (cs : Children K V) (key : K) (stop : Option K)
        → Sorted (items_of cs)
        → Starts (some key) stop (leaves_of cs) (find_child (find_position (keys cs) key) cs key)
    find_child-Starts (one c) key stop s = find_leaf-Starts c key stop s
    find_child-Starts (link c k cs) key stop s = elim (below_cases key k) [
      | inl b ↦ rw (find_position-below key k (keys cs) b) (
          Starts-before (some key) stop (leaves c) (leaves_of cs) _
            (find_leaf-Starts c key stop (Sorted-left (items c) _ s)))
      | inr b ↦ rw (find_position-past key k (keys cs) b) (
          Starts-after (some key) stop (leaves c) (leaves_of cs) _
            (ap (select (included (some key) stop)) (sym (entries_of-items c))
              ∙ select_none (included (some key) stop) (items c)
                  (All-imp (below_start key stop) (items c) (below_guide key k (items c) _ s b)))
            (find_child-Starts cs key stop (Sorted-right (items c) _ s).1))
    ]

  mutual
    unfolding leftmost leaves select

    leftmost-Starts : (n : Node K V) (stop : Option K) → Starts none stop (leaves n) (leftmost n)
    leftmost-Starts (leaf l) stop = ([], [], refl, refl)
    leftmost-Starts (internal cs) stop = leftmost_of-Starts cs stop

    leftmost_of-Starts :
        (cs : Children K V) (stop : Option K) → Starts none stop (leaves_of cs) (leftmost_of cs)
    leftmost_of-Starts (one c) stop = leftmost-Starts c stop
    leftmost_of-Starts (link c k cs) stop =
        Starts-before none stop (leaves c) (leaves_of cs) _ (leftmost-Starts c stop)

  first_leaf-Starts :
      (n : Node K V) (start stop : Option K)
      → Sorted (items n)
      → Starts start stop (leaves n) (first_leaf n start)
  unfolding first_leaf
  first_leaf-Starts n none stop s = leftmost-Starts n stop
  first_leaf-Starts n (some key) stop s = find_leaf-Starts n key stop s

  Linked-right : (ks ls : List (Leaf K V)) → Linked (ks ++ ls) → Linked ls
  Linked-right [] ls c = c
  Linked-right (k ∷ ks) ls c = Linked-right ks ls c.1

  scan_from :
      (n : Node K V) (start stop : Option K) (l : Leaf K V)
      → Sorted (items n)
      → Separate (leaves n)
      → Linked (leaves n)
      → Starts start stop (leaves n) l
      → scan_leaves (length (leaves n)) (leaves n) start stop l
        ≡ select (included start stop) (entries_of (items n))
  scan_from n start stop l s d c (ks, ms, e, none_before) =
      let whole : entries_of (items n) ≡ gathered ks ++ gathered (l ∷ ms) =
        entries_of-items n ∙ ap gathered e ∙ gathered-append ks (l ∷ ms) in
      let sorted : Sorted (as_items (gathered (l ∷ ms))) = Sorted-right (as_items (gathered ks)) _ (
        subst Sorted (ap as_items whole ∙ as_items-append (gathered ks) (gathered (l ∷ ms)))
          (Sorted-entries (items n) s)) in
      scan_leaves-gathered (length (leaves n)) (leaves n) ks start stop l ms e d
        (Linked-right ks (l ∷ ms) (subst Linked e c))
        (omega (arith, ap length e, length-append ks (l ∷ ms)))
      ∙ scan_leaf-select start stop (gathered (l ∷ ms)) sorted
      ∙ sym (
          ap (select (included start stop)) whole
          ∙ select-append (included start stop) (gathered ks) (gathered (l ∷ ms))
          ∙ ap (λ xs. xs ++ select (included start stop) (gathered (l ∷ ms))) none_before)

  -- RangeScan gives the entries of the tree with a key in the range, all of them, once, and in
  -- order; an end of the range that is missing bounds nothing.
  pub range_scan-select :
      (t : BTree K V) (start stop : Option K)
      → Reached t
      → range_scan t start stop ≡ select (in_range start stop) (entries t)
  unfolding range_scan
  range_scan-select t start stop r =
      let w = Reached-WellFormed t r in
      scan_from t.root start stop (first_leaf t.root start) w.ordered w.separate w.linked
        (first_leaf-Starts t.root start stop w.ordered)
      ∙ ap (λ (p : K → Bool). select p (entries t)) (λ i k. included-in_range start stop k i)
