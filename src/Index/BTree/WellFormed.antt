-- ===== src/Index/BTree/WellFormed.antt =====
-- What holds of every tree that the methods of pkg/index/btree.go make, and what Insert and Delete
-- do to the entries of such a tree.
use laura_db.Prelude.{
  ℕ, suc, ◌+◌, ◌-◌, ◌≤◌, ◌<◌, ◌≡◌, refl, ap, sym, subst, ◌∙◌, arith, none, some, List, length,
}
use laura_db.Index.Comparison.{Comparison}
use laura_db.Index.BTree.{BTree, grow, new_btree}
use laura_db.Index.BTree.Descent.{insert_node, delete_node}
use laura_db.Index.BTree.Operations.{leaves, levels}
use laura_db.Index.BTree.Items.{entries_of, items, Sorted}
use laura_db.Index.BTree.Search.{find}
use laura_db.Index.BTree.Place.{place, entries_of-Marked, place-Sorted, Sorted-Marked, Marked}
use laura_db.Index.BTree.Insert.{insert_node-items}
use laura_db.Index.BTree.Entries.{with_entry, entries_of-place}
use laura_db.Index.BTree.Shape.{Shaped}
use laura_db.Index.BTree.ShapeKept.{insert_node-Shaped, delete_node-Shaped}
use laura_db.Index.BTree.Delete.{delete_node-items, without-Sorted}
use laura_db.Index.BTree.Chain.{
  Touched, Linked, Separate, Old, Linked-Touched, Separate-Touched, Old-Touched,
}
use laura_db.Index.BTree.Leaves.{insert_node-leaves, delete_node-leaves, delete_node-All}
use laura_db.Index.BTree.Growth.{items-grow, leaves-grow, grow-Shaped, length-place, length-without}

module _ {ℓ κ} {K : Type ℓ} {V : Type κ} where
  abbrev pub entries : BTree K V → List (K × V)
  entries t = entries_of (items t.root)

module _ {ℓ κ} {K : Type ℓ} {V : Type κ} ⦃o : Comparison K⦄ where
  pub record WellFormed (t : BTree K V) : Type (ℓ ⊔ κ) where
    pub ordered : Sorted (items t.root)
    pub shaped : Shaped t.order t.height t.root
    pub room : 3 ≤ t.order
    pub counted : t.size ≡ length (entries t)
    pub linked : Linked (leaves t.root)
    pub separate : Separate (leaves t.root)
    pub old : Old t.next_address (leaves t.root)

  pub new_btree-WellFormed : (order : ℕ) → WellFormed (new_btree order)
  unfolding new_btree leaves
  new_btree-WellFormed order = record {
    ordered = tt;
    shaped = (refl, ground arith);
    room = ground arith;
    counted = refl;
    linked = (refl, tt);
    separate = (tt, tt);
    old = (omega arith, tt);
  }

  -- The tree that Insert makes of one that lacks the key
  unfoldable pub grown : BTree K V → K → V → BTree K V
  grown t key value =
      let result = insert_node t.order t.next_address t.root key value in
      record {
        root = grow (result.0, result.1);
        order = t.order;
        size = suc t.size;
        height = t.height + levels result.1;
        next_address = suc t.next_address;
      }

  grown-items :
      (t : BTree K V) (key : K) (value : V)
      → WellFormed t
      → find key (entries t) ≡ none
      → Marked (place key value (items t.root)) (items (grown t key value).root)
  unfolding grown
  grown-items t key value w f =
      let result = insert_node t.order t.next_address t.root key value in
      subst (Marked (place key value (items t.root))) (sym (items-grow result.0 result.1)) (
        insert_node-items t.order t.next_address t.root key value (omega (arith, w.room))
          (w.ordered, f))

  pub grown-entries :
      (t : BTree K V) (key : K) (value : V)
      → WellFormed t
      → find key (entries t) ≡ none
      → entries (grown t key value) ≡ with_entry key value (entries t)
  grown-entries t key value w f =
      entries_of-Marked _ _ (grown-items t key value w f)
      ∙ entries_of-place key value (items t.root) w.ordered f

  pub grown-WellFormed :
      (t : BTree K V) (key : K) (value : V)
      → WellFormed t
      → find key (entries t) ≡ none
      → WellFormed (grown t key value)
  unfolding grown
  grown-WellFormed t key value w f =
      let two : 2 ≤ t.order = omega (arith, w.room) in
      let result = insert_node t.order t.next_address t.root key value in
      let m = grown-items t key value w f in
      let touched =
        subst (Touched t.next_address (leaves t.root)) (sym (leaves-grow result.0 result.1))
          (insert_node-leaves t.order t.next_address t.root key value two (w.ordered, f)) in
      record {
        ordered = Sorted-Marked _ _ (place-Sorted key value (items t.root) w.ordered f) m;
        shaped =
            grow-Shaped t.order t.height result.0 result.1 w.room
              (insert_node-Shaped t.order t.next_address t.height t.root key value two w.shaped);
        room = w.room;
        counted =
            ap suc w.counted
            ∙ sym (length-place key value (items t.root))
            ∙ sym (ap length (entries_of-Marked _ _ m));
        linked = Linked-Touched t.next_address _ _ w.linked touched;
        separate = Separate-Touched t.next_address _ _ w.old w.separate touched;
        old = Old-Touched t.next_address _ _ w.old touched;
      }

  -- The tree that Delete makes of one that has the key
  unfoldable pub shrunk : BTree K V → K → BTree K V
  shrunk t key = record {
    root = delete_node t.root key;
    order = t.order;
    size = t.size - 1;
    height = t.height;
    next_address = t.next_address;
  }

  pub shrunk-WellFormed :
      (t : BTree K V) (key : K) (v : V)
      → WellFormed t
      → find key (entries t) ≡ some v
      → WellFormed (shrunk t key)
  unfolding shrunk
  shrunk-WellFormed t key v w f =
      let same = delete_node-items t.root key w.ordered in
      let touched = delete_node-leaves t.next_address t.root key in
      record {
        ordered = subst Sorted (sym same) (without-Sorted key (items t.root) w.ordered);
        shaped = delete_node-Shaped t.order t.height t.root key w.shaped;
        room = w.room;
        counted =
            omega (arith, w.counted, length-without key (items t.root) v w.ordered f)
            ∙ sym (ap (λ is. length (entries_of is)) same);
        linked = Linked-Touched t.next_address _ _ w.linked touched;
        separate = Separate-Touched t.next_address _ _ w.old w.separate touched;
        old = delete_node-All (λ a. a < t.next_address) t.root key w.old;
      }
