-- ===== src/Index/BTree/Range.antt =====
-- The range scan of pkg/index/btree.go: along the leaves from the first one that can hold the
-- start.
use laura_db.Prelude.{
  ℕ, zero, suc, ◌≤◌, ◌≡◌, ◌≢◌, refl, ap, ap₂, sym, subst, ◌∙◌, inl, inr, arith, Bool, false, ◌&&◌,
  Bool-cases, Option, none, some, List, [], ◌∷◌, ◌++◌, append_assoc, append-nil, length, All,
  All-right,
}
use laura_db.Index.Comparison.{Comparison, ◌≺◌}
use laura_db.Index.BTree.{Leaf, Node, leaf, internal, Children, one, link}
use laura_db.Index.BTree.Operations.{
  leaves, leaves_of, follow, include_start, include_end, scan_leaf, scan_leaves,
}
use laura_db.Index.BTree.Items.{
  Item, guide, entry, entries_of, as_items, items, items_of, Sorted, Before, entries_of-append,
  entries_of-as_items,
}
use laura_db.Index.BTree.Entries.{select}
use laura_db.Index.BTree.Chain.{Linked, Separate}

module _ {ℓ κ} {K : Type ℓ} {V : Type κ} where
  -- The entries of the leaves, in their order
  abbrev pub gathered : List (Leaf K V) → List (K × V)
  gathered [] = []
  gathered (l ∷ ls) = l.entries ++ gathered ls

  pub gathered-append : (ks ls : List (Leaf K V)) → gathered (ks ++ ls) ≡ gathered ks ++ gathered ls
  gathered-append [] ls = refl
  gathered-append (k ∷ ks) ls =
      ap (λ es. k.entries ++ es) (gathered-append ks ls)
      ∙ sym (append_assoc k.entries (gathered ks) (gathered ls))

  mutual
    unfolding leaves

    pub entries_of-items : (n : Node K V) → entries_of (items n) ≡ gathered (leaves n)
    entries_of-items (leaf l) = entries_of-as_items l.entries ∙ sym (append-nil l.entries)
    entries_of-items (internal cs) = entries_of-items_of cs

    entries_of-items_of : (cs : Children K V) → entries_of (items_of cs) ≡ gathered (leaves_of cs)
    entries_of-items_of (one c) = entries_of-items c
    entries_of-items_of (link c k cs) =
        entries_of-append (items c) (guide k ∷ items_of cs)
        ∙ ap₂ (λ xs ys. xs ++ ys) (entries_of-items c) (entries_of-items_of cs)
        ∙ sym (gathered-append (leaves c) (leaves_of cs))

  follow-middle :
      (ks : List (Leaf K V)) (m : Leaf K V) (ls : List (Leaf K V))
      → Separate (ks ++ m ∷ ls)
      → follow (ks ++ m ∷ ls) m.address ≡ some m
  unfolding follow
  follow-middle [] m ls s = ground arith
  follow-middle (k ∷ ks) m ls s =
      let other : k.address ≢ m.address = (All-right _ ks (m ∷ ls) s.0).0 in
      ground (arith, other, follow-middle ks m ls s.1)

  pub as_items-append : (xs ys : List (K × V)) → as_items (xs ++ ys) ≡ as_items xs ++ as_items ys
  as_items-append [] ys = refl
  as_items-append ((k, v) ∷ xs) ys = ap (◌∷◌ (entry k v)) (as_items-append xs ys)

  All-entries {μ} :
      (P : Item K V → Type μ) (is : List (Item K V)) → All P is → All P (as_items (entries_of is))
  All-entries P [] a = tt
  All-entries P (guide k ∷ is) a = All-entries P is a.1
  All-entries P (entry k v ∷ is) a = (a.0, All-entries P is a.1)

module _ {ℓ} {K : Type ℓ} ⦃o : Comparison K⦄ where
  -- The test of the range
  abbrev pub included : Option K → Option K → K → Bool
  included start stop k = include_start start k && include_end stop k

  past_end :
      (start stop : Option K) (k j : K)
      → include_end stop k ≡ false
      → k ≺ j
      → included start stop j ≡ false
  past_end start none k j h b = cc
  past_end start (some e) k j h b =
      let past : include_end (some e) j ≡ false =
        ground (arith, o.cmp_flip k e, o.cmp_flip j e, o.cmp_trans e k j) in
      elim (Bool-cases (include_start start j)) [ inl q ↦ rw q past | inr q ↦ rw q refl ]

module _ {ℓ κ} {K : Type ℓ} {V : Type κ} ⦃o : Comparison K⦄ where
  pub Sorted-entries : (is : List (Item K V)) → Sorted is → Sorted (as_items (entries_of is))
  Sorted-entries [] s = tt
  Sorted-entries (guide k ∷ is) s = Sorted-entries is s.1
  Sorted-entries (entry k v ∷ is) s = (All-entries _ is s.0, Sorted-entries is s.1)

  scan_leaf-append :
      (start stop : Option K) (xs ys later : List (K × V))
      → scan_leaf start stop (xs ++ ys) later
        ≡ scan_leaf start stop xs (scan_leaf start stop ys later)
  unfolding scan_leaf
  scan_leaf-append start stop [] ys later = refl
  scan_leaf-append start stop ((k, v) ∷ xs) ys later =
      rw (scan_leaf-append start stop xs ys later) refl

  none_in_range :
      (start stop : Option K) (k : K) (v : V) (es : List (K × V))
      → include_end stop k ≡ false
      → All (Before (entry k v)) (as_items es)
      → select (included start stop) es ≡ []
  unfolding select
  none_in_range start stop k v [] h a = refl
  none_in_range start stop k v ((j, w) ∷ es) h a =
      rw (past_end start stop k j h a.0) (none_in_range start stop k v es h a.1)

  pub scan_leaf-select :
      (start stop : Option K) (es : List (K × V))
      → Sorted (as_items es)
      → scan_leaf start stop es [] ≡ select (included start stop) es
  unfolding scan_leaf select
  scan_leaf-select start stop [] s = refl
  scan_leaf-select start stop ((k, v) ∷ es) s = elim (Bool-cases (include_end stop k)) [
    | inl h ↦ rw h (rw (scan_leaf-select start stop es s.1) refl)
    | inr h ↦ elim (Bool-cases (include_start start k)) [
      | inl q ↦ rw (h, q) (sym (none_in_range start stop k v es h s.0))
      | inr q ↦ rw (h, q) (sym (none_in_range start stop k v es h s.0))
    ]
  ]

  pub scan_leaves-gathered :
      (n : ℕ) (ls ks : List (Leaf K V)) (start stop : Option K) (l : Leaf K V)
      (ms : List (Leaf K V))
      → ls ≡ ks ++ l ∷ ms
      → Separate ls
      → Linked (l ∷ ms)
      → length (l ∷ ms) ≤ n
      → scan_leaves n ls start stop l ≡ scan_leaf start stop (gathered (l ∷ ms)) []
  unfolding scan_leaves
  scan_leaves-gathered zero ls ks start stop l ms e s c h = absurd (omega arith)
  scan_leaves-gathered (suc n) ls ks start stop l [] e s c h = rw (c.0, append-nil l.entries) refl
  scan_leaves-gathered (suc n) ls ks start stop l (m ∷ ms) e s c h =
      let at : ls ≡ (ks ++ l ∷ []) ++ m ∷ ms = e ∙ sym (append_assoc ks (l ∷ []) (m ∷ ms)) in
      let found : follow ls m.address ≡ some m =
        subst (λ xs. follow xs m.address ≡ some m) (sym at)
          (follow-middle (ks ++ l ∷ []) m ms (subst Separate at s)) in
      rw (c.0, found)
        (ap (scan_leaf start stop l.entries)
            (scan_leaves-gathered n ls (ks ++ l ∷ []) start stop m ms at s c.1 (omega arith))
          ∙ sym (scan_leaf-append start stop l.entries (gathered (m ∷ ms)) []))
