-- ===== src/Index/Tests.antt =====
-- Tests of pkg/index at concrete trees.
use Prim.Native.Nat.{Ordering}
use laura_db.Prelude.{
  Bool, true, false, ◌<◌, ◌^◌, ◌⊎◌, inl, inr, subst, sym, ℕ, ◌≡◌, refl, some, [], ◌∷◌, List,
}
use laura_db.Index.Comparison.{number_comparison, IsOrder}
use laura_db.Index.Key.{
  pos, int, int64, bool, single, compare_values, compare_keys, compare_composite,
}
use laura_db.Index.Key.Order.{strings, int64s, Fields, values_of, compare_composite-IsOrder}
use laura_db.Index.BTree.{
  BTree, IndexError, Outcome, ok, err, duplicate_key, key_not_found, new_btree, grow, split_leaf,
  split_internal,
}
use laura_db.Index.BTree.Operations.{
  leaves, follow, scan_leaves, scan_leaf, first_leaf, insert, delete, search, range_scan,
}
use laura_db.Index.BTree.Descent.{
  find_position, insert_leaf, insert_split, check_leaf, check_internal, insert_node, search_leaf,
  search_node, find_leaf,
}
use laura_db.Index.BTree.Search.{find}
use laura_db.Index.BTree.Entries.{select}
use laura_db.Index.BTree.WellFormed.{entries, WellFormed}
use laura_db.Index.BTree.Updates.{
  Reached, created, by_insert, Inserted, Deleted, Reached-WellFormed, insert-Inserted,
  delete-Deleted, search-find,
}
use laura_db.Index.BTree.Scan.{in_range, range_scan-select}
use laura_db.Index.BTree.Capacity.{size-lt}

abbrev or_else : Outcome (BTree ℕ ℕ) → BTree ℕ ℕ → BTree ℕ ℕ
or_else (ok t) d = t
or_else (err e) d = d

-- The tree of a list of insertions
unfoldable built : List (ℕ × ℕ) → BTree ℕ ℕ
built [] = new_btree 3
built ((k, v) ∷ es) = or_else (insert (built es) k v) (built es)

abbrev pairs : List (ℕ × ℕ)
pairs = (4, 40) ∷ (2, 20) ∷ (6, 60) ∷ (1, 10) ∷ (5, 50) ∷ (3, 30) ∷ []

abbrev six : BTree ℕ ℕ
six = built pairs

Outcome-cases :
    (r : Outcome (BTree ℕ ℕ)) → ((t : BTree ℕ ℕ) × (r ≡ ok t)) ⊎ ((e : IndexError) × (r ≡ err e))
Outcome-cases (ok t) = inl (t, refl)
Outcome-cases (err e) = inr (e, refl)

built-Reached : (es : List (ℕ × ℕ)) → Reached (built es)
unfolding built
built-Reached [] = created 3
built-Reached ((k, v) ∷ es) = elim (Outcome-cases (insert (built es) k v)) [
  | inl (t, e) ↦
      subst (λ x. Reached (or_else x (built es))) (sym e)
        (by_insert (built es) t k v (built-Reached es) e)
  | inr (x, e) ↦ subst (λ x. Reached (or_else x (built es))) (sym e) (built-Reached es)
]

Reached-WellFormed_example : WellFormed six
Reached-WellFormed_example = Reached-WellFormed six (built-Reached pairs)

insert-Inserted_example : Inserted six 4 44 (insert six 4 44)
insert-Inserted_example = insert-Inserted six 4 44 (built-Reached pairs)

delete-Deleted_example : Deleted six 3 (delete six 3)
delete-Deleted_example = delete-Deleted six 3 (built-Reached pairs)

search-find_example : search six 5 ≡ find 5 (entries six)
search-find_example = search-find six 5 (built-Reached pairs)

range_scan-select_example :
    range_scan six (some 2) (some 5) ≡ select (in_range (some 2) (some 5)) (entries six)
range_scan-select_example = range_scan-select six (some 2) (some 5) (built-Reached pairs)

size-lt_example : six.size < six.order ^ six.height
size-lt_example = size-lt six (built-Reached pairs)

-- What the tree holds, and what calls give on it
six_runs :
    (entries six ≡ (1, 10) ∷ (2, 20) ∷ (3, 30) ∷ (4, 40) ∷ (5, 50) ∷ (6, 60) ∷ [])
    × (insert six 4 44 ≡ err duplicate_key)
    × (delete six 7 ≡ err key_not_found)
    × (range_scan six (some 2) (some 5) ≡ (2, 20) ∷ (3, 30) ∷ (4, 40) ∷ (5, 50) ∷ [])
unfolding insert new_btree built search_node search_leaf grow insert_node insert_leaf check_leaf
    find_position number_comparison split_leaf insert_split check_internal split_internal delete
    range_scan find_leaf leaves follow scan_leaves scan_leaf first_leaf
six_runs = (refl, refl, refl, refl)

abbrev no_floats : Bool → Bool → Bool
no_floats a b = false

compare_composite-IsOrder_example : IsOrder (λ (a b : Fields (strings ∷ int64s ∷ [])).
    compare_composite no_floats
      (values_of Bool (strings ∷ int64s ∷ []) a)
      (values_of Bool (strings ∷ int64s ∷ []) b))
compare_composite-IsOrder_example = compare_composite-IsOrder no_floats (strings ∷ int64s ∷ [])

-- An int64 is below a greater int, but the int is not above the int64.
mixed_integers :
    (compare_values no_floats (int64 (pos 1)) (int (pos 2)) ≡ Ordering.lt)
    × (compare_values no_floats (int (pos 2)) (int64 (pos 1)) ≡ Ordering.eq)
unfolding compare_values
mixed_integers = (refl, refl)

-- The tree takes two Booleans as equal; as fields of composite keys they differ.
booleans :
    (compare_keys no_floats (single (bool false)) (single (bool true)) ≡ Ordering.eq)
    × (compare_values no_floats (bool false) (bool true) ≡ Ordering.lt)
unfolding compare_keys compare_values
booleans = (refl, refl)
