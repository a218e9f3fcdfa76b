-- ===== src/Lsm/MemTable.antt =====
-- pkg/lsm/memtable.go: the memory table. The draws of the skip list's random numbers are an
-- argument. The lock makes each method atomic, and sizes do not reach the end of int64.
pub mod Contents
use laura_db.Prelude.{ℕ, ◌+◌, Bool, true, false, Option, List, [], length, leb, map}
use laura_db.Lsm.SsTable.{Entry}
use laura_db.Lsm.SkipList.{Node, SkipList, new_skip_list, search, insert}

pub record MemTable : Type 0 where
  pub skip_list : SkipList Entry
  pub size : ℕ
  pub max_size : ℕ

unfoldable pub new_mem_table : ℕ → MemTable
new_mem_table max_size = record { skip_list = new_skip_list; size = 0; max_size = max_size }

unfoldable pub put : List Bool → List ℕ → List ℕ → ℕ → MemTable → MemTable
put draws key value timestamp mt =
    let entry : Entry = record {
      key = key;
      value = value;
      timestamp = timestamp;
      deleted = false;
    } in
    record mt {
      skip_list = insert draws key entry mt.skip_list;
      size = mt.size + (length key + length value + 16);
    }

unfoldable pub delete : List Bool → List ℕ → ℕ → MemTable → MemTable
delete draws key timestamp mt =
    let entry : Entry = record { key = key; value = []; timestamp = timestamp; deleted = true } in
    record mt {
      skip_list = insert draws key entry mt.skip_list;
      size = mt.size + (length key + 16);
    }

unfoldable pub get : List ℕ → MemTable → Option Entry
get key mt = search key mt.skip_list

unfoldable pub is_full : MemTable → Bool
is_full mt = leb mt.max_size mt.size

-- The entries that the iterator gives: those of the nodes in the order of the lowest level
unfoldable pub entries : MemTable → List Entry
entries mt = map (λ (n : Node Entry). n.value) mt.skip_list.nodes
