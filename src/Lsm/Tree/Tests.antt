-- ===== src/Lsm/Tree/Tests.antt =====
-- Runs of the tree of pkg/lsm/lsm.go and of its skip list.
use laura_db.Prelude.{
  ℕ, ◌<◌, ◌≡◌, ◌≢◌, refl, ◌*◌, Option, some, true, false, List, [], ◌∷◌, length, arith,
}
use laura_db.Lsm.SsTable.{Entry, done}
use laura_db.Lsm.SsTable.Entries.{key_order, lookup}
use laura_db.Lsm.SkipList.{
  SkipList, new_skip_list, raise_level, random_level, is_below, walk_from, walk, descend, add_node,
  insert, search,
}
use laura_db.Lsm.MemTable.{new_mem_table}
use laura_db.Lsm.MemTable
use laura_db.Lsm.MemTable.Contents.{Writable}
use laura_db.Lsm.Tree.{
  Tree, new_tree, put, delete, begin_flush, end_flush, start_flush, rotate, remove_immutable, get,
  get_sstable, value, closed_tree, answer, run_worker,
}
use laura_db.Lsm.Tree.Reach.{
  Reach, start, puts, deletes, flush_begins, flush_ends, put_entry, tombstone,
}
use laura_db.Lsm.Tree.Close.{close}
use laura_db.Lsm.Tree.Shutdown.{close-Saved}
use laura_db.Lsm.Tree.Reads.{get-last_write}
use laura_db.Lsm.Tree.Progress.{run_worker-drained}

writable :
    (e : Entry)
    → e.key ≢ []
    → length e.key < 256
    → length e.value < 256
    → e.timestamp < 256
    → Writable e
writable e n k v t = record {
  keyed = n;
  fitting = record {
    key_fits = omega arith;
    value_fits = omega arith;
    timestamp_fits = omega arith;
  };
}

-- Every write fills the table.
abbrev tree_0 : Tree
tree_0 = new_tree 10 2

abbrev tree_1 : Tree
tree_1 = (put (true ∷ []) (97 ∷ []) (1 ∷ []) 5 tree_0).0

abbrev tree_2 : Tree
tree_2 = begin_flush tree_1

abbrev tree_3 : Tree
tree_3 = (put [] (97 ∷ []) (2 ∷ []) 6 tree_2).0

abbrev tree_4 : Tree
tree_4 = end_flush (9 ∷ []) tree_3

abbrev writes : List Entry
writes = put_entry (97 ∷ []) (2 ∷ []) 6 ∷ put_entry (97 ∷ []) (1 ∷ []) 5 ∷ []

reached_2 : Reach (put_entry (97 ∷ []) (1 ∷ []) 5 ∷ []) tree_2
reached_2 = flush_begins _ tree_1 (
    puts [] tree_0 (true ∷ []) (97 ∷ []) (1 ∷ []) 5 (start 10 2 (omega arith))
      (writable _ (λ h. cc) (omega arith) (omega arith) (omega arith)))

reached_4 : Reach writes tree_4
reached_4 = flush_ends writes tree_3 (9 ∷ []) (
    puts _ tree_2 [] (97 ∷ []) (2 ∷ []) 6 reached_2
      (writable _ (λ h. cc) (omega arith) (omega arith) (omega arith)))

get-last_write_example : get (97 ∷ []) tree_4 ≡ value (2 ∷ [])
unfolding answer lookup key_order
get-last_write_example = get-last_write writes tree_4 (97 ∷ []) reached_4

run_worker-drained_example : (run_worker [] (2 * length tree_4.immutables) tree_4).immutables ≡ []
run_worker-drained_example = run_worker-drained writes tree_4 [] reached_4

-- The second table is flushed as well, and nothing is left in memory but a new table.
abbrev tree_5 : Tree
tree_5 = end_flush (9 ∷ []) (begin_flush tree_4)

reached_5 : Reach writes tree_5
reached_5 = flush_ends writes _ (9 ∷ []) (flush_begins writes tree_4 reached_4)

abbrev tree_6 : Tree
tree_6 = (delete (true ∷ []) (97 ∷ []) 7 tree_5).0

all_flushed : tree_6.immutables ≡ []
unfolding put delete rotate begin_flush start_flush end_flush remove_immutable new_tree MemTable.put
    MemTable.is_full new_mem_table
all_flushed = refl

close-Saved_example :
    ((close [] tree_6).closed ≡ true)
    × (get (97 ∷ []) (close [] tree_6) ≡ closed_tree)
    × ((found : Option Entry) × (get_sstable (97 ∷ []) (close [] tree_6).sstables ≡ done found)
        × (answer found ≡ answer (lookup (97 ∷ []) (tombstone (97 ∷ []) 7 ∷ writes))))
close-Saved_example =
    close-Saved (tombstone (97 ∷ []) 7 ∷ writes) tree_6 [] (97 ∷ [])
      (deletes writes tree_5 (true ∷ []) (97 ∷ []) 7 reached_5
        (writable _ (λ h. cc) (omega arith) (omega arith) (omega arith)))
      all_flushed

abbrev letters : SkipList ℕ
letters = insert (true ∷ true ∷ false ∷ []) (98 ∷ []) 2 (insert [] (97 ∷ []) 1 new_skip_list)

search_test : search (97 ∷ []) letters ≡ some 1
unfolding search descend walk walk_from is_below insert add_node random_level raise_level
    new_skip_list
search_test = refl
