-- ===== src/Lsm/Merge/Tests.antt =====
-- Merges of tables of pkg/lsm.
use laura_db.Prelude.{◌≡◌, ◌≢◌, ◌<◌, refl, true, false, List, [], ◌∷◌, All, length, arith}
use laura_db.Lsm.SsTable.{Entry, Table, done, ◌>>=◌, new_writer, write_all, finalize}
use laura_db.Lsm.SsTable.Entries.{key_order, Fits, Ascending}
use laura_db.Lsm.Merge.{
  merge_entries, table_entries, merge_from, find_min, smaller, advance, is_new, count_entries,
}
use laura_db.Lsm.Merge.Tables.{WellMade, Compacted, merge_tables-Compacted}
use laura_db.Lsm.Merge.Iteration.{table_entries-write_all}

abbrev plum : Entry
plum = record { key = 112 ∷ []; value = 1 ∷ []; timestamp = 9; deleted = false }

abbrev no_fig : Entry
no_fig = record { key = 102 ∷ []; value = []; timestamp = 8; deleted = true }

abbrev fig : Entry
fig = record { key = 102 ∷ []; value = 4 ∷ []; timestamp = 2; deleted = false }

abbrev old_plum : Entry
old_plum = record { key = 112 ∷ []; value = 2 ∷ []; timestamp = 3; deleted = false }

abbrev tables : List (List Entry)
tables = (no_fig ∷ plum ∷ []) ∷ [] ∷ (fig ∷ old_plum ∷ []) ∷ []

merge_test : merge_entries tables ≡ done (plum ∷ [])
unfolding merge_entries merge_from find_min smaller advance is_new count_entries ◌>>=◌
merge_test = refl

small : (e : Entry) → length e.key < 256 → length e.value < 256 → e.timestamp < 256 → Fits e
small e k v t = record {
  key_fits = omega arith;
  value_fits = omega arith;
  timestamp_fits = omega arith;
}

abbrev table_of : List Entry → Table
table_of es = finalize (7 ∷ []) (write_all 3 es new_writer)

table_of-WellMade :
    (es : List Entry)
    → All (λ e. e.key ≢ []) es
    → Ascending es
    → All Fits es
    → WellMade (table_entries (table_of es))
table_of-WellMade es k a f =
    rw (table_entries-write_all (7 ∷ []) 3 es (omega arith) k f)
      (record { keyed = k; ordered = a; fitting = f })

merge_tables-Compacted_example :
    Compacted 2 [] (table_of (no_fig ∷ plum ∷ []) ∷ table_of (fig ∷ old_plum ∷ []) ∷ [])
unfolding key_order
merge_tables-Compacted_example =
    merge_tables-Compacted 2 []
      (table_of (no_fig ∷ plum ∷ []) ∷ table_of (fig ∷ old_plum ∷ []) ∷ []) (omega arith)
      (
        table_of-WellMade (no_fig ∷ plum ∷ []) ((λ h. cc), ((λ h. cc), tt)) ((refl, tt), (tt, tt))
            (
              small no_fig (omega arith) (omega arith) (omega arith),
              (small plum (omega arith) (omega arith) (omega arith), tt),
            ),
        (
          table_of-WellMade (fig ∷ old_plum ∷ []) ((λ h. cc), ((λ h. cc), tt))
              ((refl, tt), (tt, tt))
              (
                small fig (omega arith) (omega arith) (omega arith),
                (small old_plum (omega arith) (omega arith) (omega arith), tt),
              ),
          tt,
        ),
      )
