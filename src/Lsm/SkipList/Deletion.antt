-- ===== src/Lsm/SkipList/Deletion.antt =====
-- Delete of pkg/lsm/skiplist.go.
use Prim.Native.Nat.Ordering.{lt, eq, gt}
use laura_db.Prelude.{
  ℕ, zero, suc, ◌-◌, ◌<◌, ◌≡◌, ◌≢◌, ap, sym, subst, ◌∙◌, Bool, true, false, none, some, List, [],
  ◌∷◌, ◌++◌, length, length-append, take, All, All-imp, All-append, All-right, All-left, arith,
}
use laura_db.Index.Key.{compare_bytes}
use laura_db.Index.Comparison.{◌≺◌}
use laura_db.Lsm.SsTable.Entries.{key_order}
use laura_db.Lsm.SkipList.{Node, SkipList, descend, delete, lower_level}
use laura_db.Lsm.SkipList.Walk.{Sorted, Sorted-right, Levelled, Place, descend-Place}
use laura_db.Lsm.SkipList.Changes.{
  find, IsSkipList, find-skip, find-none, apart_below, apart_above, Found, present, absent_end,
  absent, stops-Found,
}
use laura_db.Lsm.SkipList.Middle.{
  Sorted-left, Middle, middle-without, find-middle, find-without, find-around,
}

lower_level-positive :
    {V : Type 0} (level : ℕ) (ns : List (Node V)) → 0 < level → 0 < lower_level level ns
unfolding lower_level
lower_level-positive zero ns h = h
lower_level-positive (suc zero) ns h = omega arith
lower_level-positive (suc (suc i)) ns h = ground (arith, lower_level-positive (suc i) ns)

module _ {V : Type 0} where
  -- The outcomes of Delete
  pub data Removed (key : List ℕ) (sl : SkipList V) : SkipList V × Bool → Type 0 where
    missing : find key sl.nodes ≡ none → Removed key sl (sl, false)
    removed :
        (sl' : SkipList V) (value : V)
        → find key sl.nodes ≡ some value
        → IsSkipList sl'
        → find key sl'.nodes ≡ none
        → ((k : List ℕ) → k ≢ key → find k sl'.nodes ≡ find k sl.nodes)
        → Removed key sl (sl', true)

  module _ (key : List ℕ) (sl : SkipList V) (w : IsSkipList sl) where
    removed-node :
        (p : ℕ) (n : Node V) (ns : List (Node V))
        → Place key sl.nodes (p, n ∷ ns)
        → n.key ≡ key
        → All (λ o. key ≺ o.key) ns
        → Removed key sl (
            let nodes = take p sl.nodes ++ ns in
            (
              record { nodes = nodes; level = lower_level sl.level nodes; size = sl.size - 1 },
              true,
            ))
    removed-node p n ns pl e g =
        let sorted = subst Sorted pl.parts w.sorted in
        let levelled = subst Levelled pl.parts w.levelled in
        let m : Middle key pl.front ns = record {
          front_sorted = Sorted-left pl.front (n ∷ ns) sorted;
          behind_sorted = (Sorted-right pl.front (n ∷ ns) sorted).1;
          smaller = pl.smaller;
          greater = g;
          front_levelled = All-left _ pl.front (n ∷ ns) levelled;
          behind_levelled = (All-right _ pl.front (n ∷ ns) levelled).1;
        } in
        rw pl.taken (
          removed _ n.value (ap (find key) pl.parts ∙ find-middle key pl.front ns m n e)
            (record {
              sorted = middle-without key pl.front ns m;
              levelled = All-append _ pl.front ns m.front_levelled m.behind_levelled;
              has_level = lower_level-positive sl.level (pl.front ++ ns) w.has_level;
              counted = omega (
                arith,
                w.counted,
                ap length pl.parts,
                length-append pl.front (n ∷ ns),
                length-append pl.front ns,
              );
            })
            (find-without key pl.front ns m)
            (λ k h.
              sym (find-around k pl.front ns n (λ q. h (sym q ∙ e))) ∙ ap (find k) (sym pl.parts)))

    absent-Removed :
        (p : ℕ) (rest : List (Node V))
        → Place key sl.nodes (p, rest)
        → All (λ o. key ≺ o.key) rest
        → Removed key sl (sl, false)
    absent-Removed p rest pl g = missing (
        ap (find key) pl.parts
        ∙ find-skip key pl.front rest (All-imp (λ o h. apart_below o h) pl.front pl.smaller)
        ∙ find-none key rest (All-imp (λ o h. apart_above o h) rest g))

    -- Delete removes the key and nothing else, or reports that it is not there and changes nothing.
    pub delete-Removed : Removed key sl (delete key sl)
    unfolding delete key_order
    delete-Removed =
        let at = descend sl.level key (0, sl.nodes) in
        let pl = descend-Place sl.level key sl.nodes w.has_level w.sorted w.levelled in
        at_place at.0 at.1 pl (
          stops-Found key at.1 (Sorted-right pl.front at.1 (subst Sorted pl.parts w.sorted))
            pl.stops)
      where
        at_place :
            (p : ℕ) (rest : List (Node V))
            → Place key sl.nodes (p, rest)
            → Found key rest
            → Removed key sl (elim rest [
              | [] ↦ (sl, false)
              | n ∷ ns ↦
                  let nodes = take p sl.nodes ++ ns in
                  elim (compare_bytes n.key key) [
                    | lt ↦ (sl, false)
                    | eq ↦ (
                      record {
                        nodes = nodes;
                        level = lower_level sl.level nodes;
                        size = sl.size - 1;
                      },
                      true,
                    )
                    | gt ↦ (sl, false)
                  ]
            ])
        at_place p _ pl (present n ns c g) =
            rw c (removed-node p n ns pl (key_order.same_of_cmp n.key key c) g)
        at_place p _ pl absent_end = absent-Removed p [] pl tt
        at_place p _ pl (absent n ns c g) = rw c (absent-Removed p (n ∷ ns) pl g)
