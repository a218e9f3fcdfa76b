-- ===== src/Lsm/Merge/Tables.antt =====
-- What Get of pkg/lsm/sstable.go finds in the table that mergeSSTables of pkg/lsm/lsm.go makes.
use laura_db.Prelude.{
  ℕ, ◌<◌, ◌≡◌, ◌≢◌, none, refl, ap, sym, subst, ◌∙◌, List, [], All, All-imp, map,
}
use laura_db.Lsm.SsTable.{Entry, Table, done, ◌>>=◌, finalize, write_all, new_writer, get}
use laura_db.Lsm.SsTable.Entries.{Fits, Ascending, lookup}
use laura_db.Lsm.SsTable.Reads.{get-lookup}
use laura_db.Lsm.Merge.{table_entries, merge_entries, merge_tables}
use laura_db.Lsm.Merge.Iteration.{table_entries-write_all}
use laura_db.Lsm.Merge.Least.{find_first}
use laura_db.Lsm.Merge.Compaction.{visible, merge_entries-Merged}
use laura_db.Lsm.Merge.Members.{AllDone, merge_from-AllDone}

-- The iterator gives entries in order that a table can hold.
pub record WellMade (es : List Entry) : Type 0 where
  pub keyed : All (λ e. e.key ≢ []) es
  pub ordered : Ascending es
  pub fitting : All Fits es

-- A table that can be read: Get finds what the iterator gives.
pub record IsTable (t : Table) : Type 0 where
  pub made : WellMade (table_entries t)
  pub reads : (key : List ℕ) → get key t ≡ done (lookup key (table_entries t))

-- The writer makes such a table.
pub write_all-IsTable :
    (footer : List ℕ) (index_interval : ℕ) (es : List Entry)
    → 0 < index_interval
    → WellMade es
    → IsTable (finalize footer (write_all index_interval es new_writer))
write_all-IsTable footer n es pos w =
    let same = table_entries-write_all footer n es pos w.keyed w.fitting in
    record {
      made = subst WellMade (sym same) w;
      reads = λ key.
          get-lookup key footer n es pos w.keyed w.ordered w.fitting
          ∙ ap (λ entries. done (lookup key entries)) (sym same);
    }

pub record Compacted (index_interval : ℕ) (footer : List ℕ) (tables : List Table) : Type 0 where
  pub table : Table
  pub valid : IsTable table
  pub holds :
      (key : List ℕ)
      → lookup key (table_entries table) ≡ visible (find_first key (map table_entries tables))
  pub runs : merge_tables index_interval footer tables ≡ done table
  pub finds :
      (key : List ℕ) → get key table ≡ done (visible (find_first key (map table_entries tables)))

members :
    (P : Entry → Type 0) (iters : List (List Entry)) (out : List Entry)
    → All (All P) iters
    → merge_entries iters ≡ done out
    → All P out
unfolding merge_entries
members P iters out p h = subst (AllDone P) h (merge_from-AllDone P _ none iters p)

-- mergeSSTables of tables that give entries with ascending, non-empty keys, whose lengths and
-- timestamps fit their fields, makes a table in which Get finds for every key the entry that the first of the tables with the
-- key has, or nothing where that is a tombstone or no table has the key.
pub merge_tables-Compacted :
    (index_interval : ℕ) (footer : List ℕ) (tables : List Table)
    → 0 < index_interval
    → All WellMade (map table_entries tables)
    → Compacted index_interval footer tables
unfolding merge_tables ◌>>=◌
merge_tables-Compacted n footer tables pos w =
    let iters = map table_entries tables in
    let merged = merge_entries-Merged iters (All-imp (λ es p. p.ordered) iters w) in
    let keyed =
      members (λ e. e.key ≢ []) iters merged.out (All-imp (λ es p. p.keyed) iters w) merged.runs in
    let fitting = members Fits iters merged.out (All-imp (λ es p. p.fitting) iters w) merged.runs in
    let made : WellMade merged.out = record {
      keyed = keyed;
      ordered = merged.ascending;
      fitting = fitting;
    } in
    record {
      valid = write_all-IsTable footer n merged.out pos made;
      holds = λ key.
          ap (lookup key) (table_entries-write_all footer n merged.out pos keyed fitting)
          ∙ merged.finds key;
      table = finalize footer (write_all n merged.out new_writer);
      runs = rw merged.runs refl;
      finds = λ key.
          get-lookup key footer n merged.out pos keyed merged.ascending fitting
          ∙ ap done (merged.finds key);
    }
