-- ===== src/Lsm/SkipList/Insertion.antt =====
-- Insert of pkg/lsm/skiplist.go.
use Prim.Native.Nat.Ordering.{lt, eq, gt}
use laura_db.Prelude.{
  ℕ, zero, suc, ◌<◌, ◌≡◌, ◌≢◌, refl, ap, sym, subst, ◌∙◌, Bool, true, false, some, List, [], ◌∷◌,
  ◌++◌, length, length-append, take, All, All-append, All-right, All-left, arith,
}
use laura_db.Index.Key.{compare_bytes}
use laura_db.Index.Comparison.{◌≺◌}
use laura_db.Lsm.SsTable.Entries.{key_order}
use laura_db.Lsm.SkipList.{Node, SkipList, raise_level, random_level, descend, add_node, insert}
use laura_db.Lsm.SkipList.Walk.{Sorted, Sorted-right, Levelled, Place, descend-Place}
use laura_db.Lsm.SkipList.Changes.{
  find, IsSkipList, Found, present, absent_end, absent, stops-Found,
}
use laura_db.Lsm.SkipList.Middle.{Sorted-left, Middle, middle-Sorted, find-middle, find-around}

raise_level-positive : (n level : ℕ) (draws : List Bool) → 0 < level → 0 < raise_level n level draws
unfolding raise_level
raise_level-positive zero level draws h = h
raise_level-positive (suc n) level [] h = h
raise_level-positive (suc n) level (false ∷ draws) h = h
raise_level-positive (suc n) level (true ∷ draws) h =
    raise_level-positive n (suc level) draws (omega arith)

random_level-positive : (draws : List Bool) → 0 < random_level draws
unfolding random_level
random_level-positive draws = raise_level-positive 15 1 draws (omega arith)

module _ {V : Type 0} where
  -- The list after an insertion: a node with the key in front of the greater ones
  pub record Inserted (key : List ℕ) (value : V) (before_it after_it : SkipList V) : Type 1 where
    pub valid : IsSkipList after_it
    pub there : find key after_it.nodes ≡ some value
    pub others : (k : List ℕ) → k ≢ key → find k after_it.nodes ≡ find k before_it.nodes
    pub kept :
        (P : Node V → Type 0)
        → All P before_it.nodes
        → ((levels : ℕ) → P (record { key = key; value = value; levels = levels }))
        → All P after_it.nodes

  module _ (draws : List Bool) (key : List ℕ) (value : V) (sl : SkipList V)
      (w : IsSkipList sl) where
    added-Inserted :
        (p : ℕ) (rest : List (Node V))
        → Place key sl.nodes (p, rest)
        → All (λ n. key ≺ n.key) rest
        → Inserted key value sl (add_node (random_level draws) key value (p, rest) sl)
    unfolding add_node
    added-Inserted p rest pl g =
        let x : Node V = record { key = key; value = value; levels = random_level draws } in
        let sorted = subst Sorted pl.parts w.sorted in
        let levelled = subst Levelled pl.parts w.levelled in
        let m : Middle key pl.front rest = record {
          front_sorted = Sorted-left pl.front rest sorted;
          behind_sorted = Sorted-right pl.front rest sorted;
          smaller = pl.smaller;
          greater = g;
          front_levelled = All-left _ pl.front rest levelled;
          behind_levelled = All-right _ pl.front rest levelled;
        } in
        rw pl.taken (record {
          valid = record {
            sorted = middle-Sorted key pl.front rest m x refl;
            levelled =
                All-append _ pl.front (x ∷ rest) m.front_levelled
                  (random_level-positive draws, m.behind_levelled);
            has_level = ground (arith, w.has_level, random_level-positive draws);
            counted = omega (
              arith,
              w.counted,
              ap length pl.parts,
              length-append pl.front rest,
              length-append pl.front (x ∷ rest),
            );
          };
          there = find-middle key pl.front rest m x refl;
          others =
              λ k h. find-around k pl.front rest x (λ q. h (sym q)) ∙ ap (find k) (sym pl.parts);
          kept = λ P a b.
              let old = subst (All P) pl.parts a in
              All-append P pl.front (x ∷ rest) (All-left P pl.front rest old)
                (b (random_level draws), All-right P pl.front rest old);
        })

    replaced-Inserted :
        (p : ℕ) (n : Node V) (ns : List (Node V))
        → Place key sl.nodes (p, n ∷ ns)
        → n.key ≡ key
        → All (λ o. key ≺ o.key) ns
        → Inserted key value sl
            (record sl { nodes = take p sl.nodes ++ (record n { value = value } ∷ ns) })
    replaced-Inserted p n ns pl e g =
        let x : Node V = record n { value = value } in
        let sorted = subst Sorted pl.parts w.sorted in
        let levelled = subst Levelled pl.parts w.levelled in
        let m : Middle key pl.front ns = record {
          front_sorted = Sorted-left pl.front (n ∷ ns) sorted;
          behind_sorted = (Sorted-right pl.front (n ∷ ns) sorted).1;
          smaller = pl.smaller;
          greater = g;
          front_levelled = All-left _ pl.front (n ∷ ns) levelled;
          behind_levelled = (All-right _ pl.front (n ∷ ns) levelled).1;
        } in
        rw pl.taken (record {
          valid = record {
            sorted = middle-Sorted key pl.front ns m x e;
            levelled =
                All-append _ pl.front (x ∷ ns) m.front_levelled
                  (All-right _ pl.front (n ∷ ns) levelled);
            has_level = w.has_level;
            counted = omega (
              arith,
              w.counted,
              ap length pl.parts,
              length-append pl.front (n ∷ ns),
              length-append pl.front (x ∷ ns),
            );
          };
          there = find-middle key pl.front ns m x e;
          others = λ k h.
              find-around k pl.front ns x (λ q. h (sym q ∙ e))
              ∙ sym (find-around k pl.front ns n (λ q. h (sym q ∙ e)))
              ∙ ap (find k) (sym pl.parts);
          kept = λ P a b.
              let old = subst (All P) pl.parts a in
              All-append P pl.front (x ∷ ns) (All-left P pl.front (n ∷ ns) old) (
                subst (λ j. P (record { key = j; value = value; levels = n.levels })) (sym e)
                    (b n.levels),
                (All-right P pl.front (n ∷ ns) old).1,
              );
        })

    -- Insert gives the key the value and leaves the other keys.
    pub insert-Inserted : Inserted key value sl (insert draws key value sl)
    unfolding insert key_order
    insert-Inserted =
        let at = descend sl.level key (0, sl.nodes) in
        let pl = descend-Place sl.level key sl.nodes w.has_level w.sorted w.levelled in
        at_place at.0 at.1 pl (
          stops-Found key at.1 (Sorted-right pl.front at.1 (subst Sorted pl.parts w.sorted))
            pl.stops)
      where
        at_place :
            (p : ℕ) (rest : List (Node V))
            → Place key sl.nodes (p, rest)
            → Found key rest
            → Inserted key value sl (
                let added = add_node (random_level draws) key value (p, rest) sl in
                elim rest [
                  | [] ↦ added
                  | n ∷ ns ↦ elim (compare_bytes n.key key) [
                    | lt ↦ added
                    | eq ↦ record sl {
                      nodes = take p sl.nodes ++ (record n { value = value } ∷ ns);
                    }
                    | gt ↦ added
                  ]
                ])
        at_place p _ pl (present n ns c g) =
            rw c (replaced-Inserted p n ns pl (key_order.same_of_cmp n.key key c) g)
        at_place p _ pl absent_end = added-Inserted p [] pl tt
        at_place p _ pl (absent n ns c g) = rw c (added-Inserted p (n ∷ ns) pl g)
