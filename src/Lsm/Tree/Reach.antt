-- ===== src/Lsm/Tree/Reach.antt =====
-- The states of the tree of pkg/lsm/lsm.go, with the writes that led to them.
use laura_db.Prelude.{
  ℕ, ◌<◌, ◌≡◌, ◌≢◌, Bool, true, false, Option, none, some, List, [], ◌∷◌, ◌++◌, All,
}
use laura_db.Lsm.SsTable.{Entry}
use laura_db.Lsm.SsTable.Entries.{lookup}
use laura_db.Lsm.Merge.Least.{find_first}
use laura_db.Lsm.Merge.Compaction.{visible}
use laura_db.Lsm.MemTable.Contents.{Writable, IsMemTable}
use laura_db.Lsm.Tree.{
  Numbered, FileTable, Tree, new_tree, put, delete, begin_flush, end_flush, begin_compaction,
  end_compaction,
}
use laura_db.Lsm.Tree.Layers.{layers, ValidImmutables, ValidTables}

abbrev pub put_entry : List ℕ → List ℕ → ℕ → Entry
put_entry key value timestamp = record {
  key = key;
  value = value;
  timestamp = timestamp;
  deleted = false;
}

abbrev pub tombstone : List ℕ → ℕ → Entry
tombstone key timestamp = record { key = key; value = []; timestamp = timestamp; deleted = true }

-- The trees that calls of Put and Delete, one after the other, and steps of the workers between
-- them make of a new tree, with the entries written, the last one first. The keys are not empty,
-- since a flush loses the value of the empty key, and lengths and timestamps fit their fields.
pub data Reach : List Entry → Tree → Type 0 where
  start :
      (mem_table_size index_interval : ℕ)
      → 0 < index_interval
      → Reach [] (new_tree mem_table_size index_interval)
  puts :
      (h : List Entry) (t : Tree) (draws : List Bool) (key value : List ℕ) (timestamp : ℕ)
      → Reach h t
      → Writable (put_entry key value timestamp)
      → Reach (put_entry key value timestamp ∷ h) (put draws key value timestamp t).0
  deletes :
      (h : List Entry) (t : Tree) (draws : List Bool) (key : List ℕ) (timestamp : ℕ)
      → Reach h t
      → Writable (tombstone key timestamp)
      → Reach (tombstone key timestamp ∷ h) (delete draws key timestamp t).0
  flush_begins : (h : List Entry) (t : Tree) → Reach h t → Reach h (begin_flush t)
  flush_ends :
      (h : List Entry) (t : Tree) (footer : List ℕ) → Reach h t → Reach h (end_flush footer t)
  compaction_begins : (h : List Entry) (t : Tree) → Reach h t → Reach h (begin_compaction t)
  compaction_ends :
      (h : List Entry) (t : Tree) (footer : List ℕ) → Reach h t → Reach h (end_compaction footer t)

-- The table that the flush worker has taken from its channel
abbrev pub in_flight : Option (ℕ × Numbered) → List Numbered
in_flight none = []
in_flight (some (id, m)) = m ∷ []

abbrev pub NotNumbered : ℕ → List FileTable → Type 0
NotNumbered id xs = All (λ x. x.0 ≢ id) xs

abbrev pub Distinct : List FileTable → Type 0
Distinct [] = Unit
Distinct (x ∷ xs) = NotNumbered x.0 xs × Distinct xs

-- The number of the file of a flush is new.
abbrev pub FlushPending : ℕ → List FileTable → Option (ℕ × Numbered) → Type 0
FlushPending next xs none = Unit
FlushPending next xs (some (id, m)) = (id < next) × NotNumbered id xs

-- The tables of a compaction are the last ones, and the number of its file is new.
pub record Compacting (next id : ℕ) (xs olds : List FileTable) : Type 0 where
  pub newer : List FileTable
  pub parts : xs ≡ newer ++ olds
  pub bound : id < next
  pub unused : NotNumbered id xs

abbrev pub CompactionPending : ℕ → List FileTable → Option (ℕ × List FileTable) → Type 0
CompactionPending next xs none = Unit
CompactionPending next xs (some (id, olds)) = Compacting next id xs olds

-- A flush and a compaction write different files.
abbrev pub Apart : Option (ℕ × Numbered) → Option (ℕ × List FileTable) → Type 0
Apart none c = Unit
Apart (some f) none = Unit
Apart (some (i, m)) (some (j, olds)) = i ≢ j

-- The tables are well formed, the layers hold what was written last, immutable tables are those
-- that wait for their flush, in order, and the numbers of files differ.
pub record Inv (h : List Entry) (t : Tree) : Type 0 where
  pub is_open : t.closed ≡ false
  pub interval : 0 < t.index_interval
  pub mem : IsMemTable t.mem_table
  pub imms : ValidImmutables t.immutables
  pub tables : ValidTables t.sstables
  pub queue : t.immutables ≡ in_flight t.flushing ++ t.flush_chan
  pub distinct : Distinct t.sstables
  pub bounded : All (λ x. x.0 < t.next_sstable_id) t.sstables
  pub flush : FlushPending t.next_sstable_id t.sstables t.flushing
  pub compaction : CompactionPending t.next_sstable_id t.sstables t.compacting
  pub apart : Apart t.flushing t.compacting
  pub latest : (key : List ℕ) → visible (find_first key (layers t)) ≡ visible (lookup key h)
