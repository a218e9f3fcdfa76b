-- ===== src/Lsm/Tree/Close.antt =====
-- Close of pkg/lsm/lsm.go: what it does before and after it waits for the workers. They end what
-- they have begun; that they take nothing more from their channels is one of the cases that the
-- source allows.
use laura_db.Prelude.{ℕ, true, List, [], ◌∷◌, ltb, if◌then◌else◌}
use laura_db.Lsm.Tree.{Numbered, Tree, start_flush, end_flush, end_compaction}

-- flushMemTable, as Close calls it
unfoldable pub flush_now : List ℕ → Numbered → Tree → Tree
flush_now footer m t = end_flush footer (start_flush m t)

unfoldable pub flush_all : List ℕ → List Numbered → Tree → Tree
flush_all footer [] t = t
flush_all footer (m ∷ ms) t = flush_all footer ms (flush_now footer m t)

-- The workers end the flush and the compaction that they have begun.
unfoldable pub stop_workers : List ℕ → Tree → Tree
stop_workers footer t = end_compaction footer (end_flush footer t)

-- Close after the waiting, with the memory tables that it has captured before
unfoldable pub flush_captured : List ℕ → Numbered → List Numbered → Tree → Tree
flush_captured footer current immutables t =
    flush_all footer immutables (if ltb 0 current.1.size then flush_now footer current t else t)

unfoldable pub close : List ℕ → Tree → Tree
close footer t =
    if t.closed
    then t
    else flush_captured footer (t.mem_table_number, t.mem_table) t.immutables
        (stop_workers footer (record t { closed = true }))
