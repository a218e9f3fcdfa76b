-- ===== src/Lsm/Tree.antt =====
-- pkg/lsm/lsm.go: the tree, as the steps of its callers and of its two workers, each one atomic
-- under the lock. A memory table carries a number in place of its address, a table on disk the one
-- of its file. The channel of the flush worker is a queue together with the sender that may be
-- waiting. Files do not fail. The bytes of a table's footer are an argument.
pub mod Layers
pub mod Reach
pub mod Writes
pub mod Flushes
pub mod Merging
pub mod Compactions
pub mod Reads
pub mod Progress
pub mod Emptiness
pub mod Close
pub mod Shutdown
mod Tests
use laura_db.Prelude.{
  ℕ, zero, suc, ◌+◌, ◌-◌, ◌==◌, Bool, true, false, Option, none, some, List, [], ◌∷◌, ◌++◌, length,
  drop, map, any, ltb, leb, if◌then◌else◌,
}
use laura_db.Lsm.SsTable.{
  Entry, Table, Outcome, done, failed, ReadError, new_writer, write_all, finalize,
}
use laura_db.Lsm.SsTable
use laura_db.Lsm.Merge.{merge_tables}
use laura_db.Lsm.MemTable.{MemTable, new_mem_table, is_full, entries}
use laura_db.Lsm.MemTable

-- A memory table with its number
abbrev pub Numbered : Type 0
Numbered = ℕ × MemTable

-- A table with the number of its file
abbrev pub FileTable : Type 0
FileTable = ℕ × Table

pub record Tree : Type 0 where
  pub mem_table : MemTable
  pub mem_table_number : ℕ
  pub immutables : List Numbered
  pub sstables : List FileTable
  pub next_sstable_id : ℕ
  pub closed : Bool
  pub mem_table_size : ℕ
  pub index_interval : ℕ
  pub flush_chan : List Numbered
  -- the flush and the compaction that a worker has begun, with the number of the new file
  pub flushing : Option (ℕ × Numbered)
  pub compacting : Option (ℕ × List FileTable)

pub data TreeError : Type 0 where
  err_closed : TreeError

-- NewLSMTree in an empty directory
unfoldable pub new_tree : ℕ → ℕ → Tree
new_tree mem_table_size index_interval = record {
  mem_table = new_mem_table mem_table_size;
  mem_table_number = 0;
  immutables = [];
  sstables = [];
  next_sstable_id = 0;
  closed = false;
  mem_table_size = mem_table_size;
  index_interval = index_interval;
  flush_chan = [];
  flushing = none;
  compacting = none;
}

-- Put after the insertion: a full table becomes immutable and is sent to the flush worker.
unfoldable pub rotate : MemTable → Tree → Tree
rotate mt t =
    if is_full mt
    then record t {
      mem_table = new_mem_table t.mem_table_size;
      mem_table_number = suc t.mem_table_number;
      immutables = t.immutables ++ ((t.mem_table_number, mt) ∷ []);
      flush_chan = t.flush_chan ++ ((t.mem_table_number, mt) ∷ []);
    }
    else record t { mem_table = mt }

unfoldable pub put : List Bool → List ℕ → List ℕ → ℕ → Tree → Tree × Option TreeError
put draws key value timestamp t =
    if t.closed
    then (t, some err_closed)
    else (rotate (MemTable.put draws key value timestamp t.mem_table) t, none)

unfoldable pub delete : List Bool → List ℕ → ℕ → Tree → Tree × Option TreeError
delete draws key timestamp t =
    if t.closed
    then (t, some err_closed)
    else (record t { mem_table = MemTable.delete draws key timestamp t.mem_table }, none)

-- The loop over the immutable tables, from the last one
unfoldable pub get_immutable : List ℕ → List Numbered → Option Entry
get_immutable key [] = none
get_immutable key ((number, mt) ∷ rest) = elim (get_immutable key rest) [
  | some e ↦ some e
  | none ↦ MemTable.get key mt
]

-- The loop over the tables on disk
unfoldable pub get_sstable : List ℕ → List FileTable → Outcome (Option Entry)
get_sstable key [] = done none
get_sstable key ((id, table) ∷ rest) =
    let next = get_sstable key rest in
    elim (SsTable.get key table) [
      | failed e ↦ failed e
      | done (some e) ↦ done (some e)
      | done none ↦ next
    ]

-- The results of Get
pub data Answer : Type 0 where
  value : List ℕ → Answer
  no_value : Answer
  closed_tree : Answer
  read_failed : ReadError → Answer

-- A tombstone is no value.
unfoldable pub answer : Option Entry → Answer
answer none = no_value
answer (some e) = if e.deleted then no_value else value e.value

unfoldable pub get : List ℕ → Tree → Answer
get key t = if t.closed then closed_tree else elim (MemTable.get key t.mem_table) [
  | some e ↦ answer (some e)
  | none ↦ elim (get_immutable key t.immutables) [
    | some e ↦ answer (some e)
    | none ↦ elim (get_sstable key t.sstables) [
      | done found ↦ answer found
      | failed e ↦ read_failed e
    ]
  ]
]

-- flushMemTable up to the writing of the file
unfoldable pub start_flush : Numbered → Tree → Tree
start_flush m t = record t {
  next_sstable_id = suc t.next_sstable_id;
  flushing = some (t.next_sstable_id, m);
}

-- The flush worker takes a table from its channel.
unfoldable pub begin_flush : Tree → Tree
begin_flush t = elim t.flushing [
  | some pending ↦ t
  | none ↦ elim t.flush_chan [ [] ↦ t | m ∷ rest ↦ start_flush m (record t { flush_chan = rest }) ]
]

-- The first immutable table with the number is removed.
unfoldable pub remove_immutable : ℕ → List Numbered → List Numbered
remove_immutable number [] = []
remove_immutable number (m ∷ rest) =
    let later = m ∷ remove_immutable number rest in if m.0 == number then rest else later

-- The table that flushMemTable writes
unfoldable pub flushed : List ℕ → ℕ → MemTable → Table
flushed footer index_interval mt =
    finalize footer (write_all index_interval (entries mt) new_writer)

-- flushMemTable after the writing of the file
unfoldable pub end_flush : List ℕ → Tree → Tree
end_flush footer t = elim t.flushing [
  | none ↦ t
  | some (id, m) ↦ record t {
    sstables = (id, flushed footer t.index_interval m.1) ∷ t.sstables;
    immutables = remove_immutable m.0 t.immutables;
    flushing = none;
  }
]

-- One step of the flush worker
unfoldable pub worker_step : List ℕ → Tree → Tree
worker_step footer t = elim t.flushing [ none ↦ begin_flush t | some pending ↦ end_flush footer t ]

unfoldable pub run_worker : List ℕ → ℕ → Tree → Tree
run_worker footer zero t = t
run_worker footer (suc n) t = run_worker footer n (worker_step footer t)

-- compact up to the merge: the last four of more than four tables
unfoldable pub begin_compaction : Tree → Tree
begin_compaction t = elim t.compacting [
  | some pending ↦ t
  | none ↦ if leb (length t.sstables) 4 then t else record t {
    next_sstable_id = suc t.next_sstable_id;
    compacting = some (t.next_sstable_id, drop (length t.sstables - 4) t.sstables);
  }
]

-- The loop that keeps the tables whose files were not merged
unfoldable pub keep_others : List FileTable → List FileTable → List FileTable
keep_others olds [] = []
keep_others olds (x ∷ xs) =
    let rest = keep_others olds xs in if any (λ o. x.0 == o.0) olds then rest else x ∷ rest

-- compact after the merge
unfoldable pub end_compaction : List ℕ → Tree → Tree
end_compaction footer t = elim t.compacting [
  | none ↦ t
  | some (id, olds) ↦
      elim (merge_tables t.index_interval footer (map (λ (x : FileTable). x.1) olds)) [
        | failed e ↦ record t { compacting = none }
        | done merged ↦ record t {
          sstables = keep_others olds t.sstables ++ ((id, merged) ∷ []);
          compacting = none;
        }
      ]
]
