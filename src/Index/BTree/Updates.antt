-- ===== src/Index/BTree/Updates.antt =====
-- What Insert and Delete of pkg/index/btree.go do to a tree that the methods made.
use laura_db.Prelude.{ℕ, ◌≡◌, refl, ap, sym, subst, ◌∙◌, inl, inr, Option-cases, none, some}
use laura_db.Index.Comparison.{Comparison}
use laura_db.Index.BTree.{BTree, Outcome, ok, err, duplicate_key, key_not_found, new_btree}
use laura_db.Index.BTree.Descent.{search_node}
use laura_db.Index.BTree.Operations.{insert, delete, search}
use laura_db.Index.BTree.Items.{entries_of, items}
use laura_db.Index.BTree.Search.{find, search_node-find}
use laura_db.Index.BTree.Entries.{select, is_other, with_entry}
use laura_db.Index.BTree.Delete.{delete_node-items, entries_of-without}
use laura_db.Index.BTree.WellFormed.{
  entries, WellFormed, new_btree-WellFormed, grown, grown-entries, grown-WellFormed, shrunk,
  shrunk-WellFormed,
}

module _ {ℓ κ} {K : Type ℓ} {V : Type κ} ⦃o : Comparison K⦄ where
  -- An insertion is refused where the key is there; else the entry is put between those below its
  -- key and those above.
  pub data Inserted (t : BTree K V) (key : K) (value : V) : Outcome (BTree K V) → Type (ℓ ⊔ κ) where
    refused : (v : V) → find key (entries t) ≡ some v → Inserted t key value (err duplicate_key)
    added :
        (u : BTree K V)
        → find key (entries t) ≡ none
        → entries u ≡ with_entry key value (entries t)
        → Inserted t key value (ok u)

  -- A deletion is refused where the key is missing; else all entries but the one with the key are
  -- left.
  pub data Deleted (t : BTree K V) (key : K) : Outcome (BTree K V) → Type (ℓ ⊔ κ) where
    missing : find key (entries t) ≡ none → Deleted t key (err key_not_found)
    removed :
        (u : BTree K V) (v : V)
        → find key (entries t) ≡ some v
        → entries u ≡ select (is_other key) (entries t)
        → Deleted t key (ok u)

  insert-present :
      (t : BTree K V) (key : K) (value v : V)
      → search_node t.root key ≡ some v
      → insert t key value ≡ err duplicate_key
  unfolding insert
  insert-present t key value v e = rw (e, insert) refl

  insert-absent :
      (t : BTree K V) (key : K) (value : V)
      → search_node t.root key ≡ none
      → insert t key value ≡ ok (grown t key value)
  unfolding insert grown
  insert-absent t key value e = rw (e, insert) refl

  delete-present :
      (t : BTree K V) (key : K) (v : V)
      → search_node t.root key ≡ some v
      → delete t key ≡ ok (shrunk t key)
  unfolding delete shrunk
  delete-present t key v e = rw (e, delete) refl

  delete-absent :
      (t : BTree K V) (key : K) → search_node t.root key ≡ none → delete t key ≡ err key_not_found
  unfolding delete
  delete-absent t key e = rw (e, delete) refl

  insert-WellFormed :
      (t u : BTree K V) (key : K) (value : V)
      → WellFormed t
      → insert t key value ≡ ok u
      → WellFormed u
  insert-WellFormed t u key value w e =
      let found = search_node-find t.root key w.ordered in
      elim (Option-cases (search_node t.root key)) [
        | inr (v, s) ↦ let p = insert-present t key value v s in cc
        | inl s ↦
            let p = insert-absent t key value s in
            let same : grown t key value ≡ u = cc in
            subst WellFormed same (grown-WellFormed t key value w (sym found ∙ s))
      ]

  delete-WellFormed :
      (t u : BTree K V) (key : K) → WellFormed t → delete t key ≡ ok u → WellFormed u
  delete-WellFormed t u key w e =
      let found = search_node-find t.root key w.ordered in
      elim (Option-cases (search_node t.root key)) [
        | inl s ↦ let p = delete-absent t key s in cc
        | inr (v, s) ↦
            let p = delete-present t key v s in
            let same : shrunk t key ≡ u = cc in
            subst WellFormed same (shrunk-WellFormed t key v w (sym found ∙ s))
      ]

  -- The trees that calls of the methods make
  pub data Reached : BTree K V → Type (ℓ ⊔ κ) where
    created : (order : ℕ) → Reached (new_btree order)
    by_insert :
        (t u : BTree K V) (key : K) (value : V) → Reached t → insert t key value ≡ ok u → Reached u
    by_delete : (t u : BTree K V) (key : K) → Reached t → delete t key ≡ ok u → Reached u

  -- Every tree that NewBTree, Insert and Delete make is in order, all its leaves are at the depth
  -- of its height, every node has fewer keys than the order, the size is the number of the entries,
  -- and the next pointers link the leaves in the order of the tree.
  pub Reached-WellFormed : (t : BTree K V) → Reached t → WellFormed t
  Reached-WellFormed t (created order) = new_btree-WellFormed order
  Reached-WellFormed t (by_insert s _ key value r e) =
      insert-WellFormed s t key value (Reached-WellFormed s r) e
  Reached-WellFormed t (by_delete s _ key r e) =
      delete-WellFormed s t key (Reached-WellFormed s r) e

  -- Insert of a key that is not in the tree puts it with its value between the entries below it and
  -- those above it; a key that is in the tree is refused as a duplicate.
  pub insert-Inserted :
      (t : BTree K V) (key : K) (value : V) → Reached t → Inserted t key value (insert t key value)
  insert-Inserted t key value r =
      let w = Reached-WellFormed t r in
      let found = search_node-find t.root key w.ordered in
      elim (Option-cases (search_node t.root key)) [
        | inr (v, e) ↦ rw (insert-present t key value v e) (refused v (sym found ∙ e))
        | inl e ↦ rw (insert-absent t key value e) (
            added (grown t key value) (sym found ∙ e) (grown-entries t key value w (sym found ∙ e)))
      ]

  -- Delete of a key that is in the tree leaves all other entries; a key that is not in the tree is
  -- refused.
  pub delete-Deleted : (t : BTree K V) (key : K) → Reached t → Deleted t key (delete t key)
  unfolding shrunk
  delete-Deleted t key r =
      let w = Reached-WellFormed t r in
      let found = search_node-find t.root key w.ordered in
      elim (Option-cases (search_node t.root key)) [
        | inl e ↦ rw (delete-absent t key e) (missing (sym found ∙ e))
        | inr (v, e) ↦ rw (delete-present t key v e) (
            removed (shrunk t key) v (sym found ∙ e) (
              ap entries_of (delete_node-items t.root key w.ordered)
              ∙ entries_of-without key (items t.root)))
      ]

  -- Search gives the value of the entry with the key, and nothing if no entry of the tree has it.
  pub search-find : (t : BTree K V) (key : K) → Reached t → search t key ≡ find key (entries t)
  unfolding search
  search-find t key r = search_node-find t.root key (Reached-WellFormed t r).ordered
