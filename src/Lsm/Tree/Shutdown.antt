-- ===== src/Lsm/Tree/Shutdown.antt =====
-- Close of pkg/lsm/lsm.go leaves everything that was written in the tables on disk.
use laura_db.Prelude.{
  ℕ, ◌≡◌, inl, inr, map, refl, ap, sym, subst, ◌∙◌, true, false, Option, none, some, List, [], ◌∷◌,
  ◌++◌, ltb, arith, Option-cases, Bool-cases, if◌then◌else◌,
}
use laura_db.Lsm.SsTable.{Entry, done}
use laura_db.Lsm.SsTable.Entries.{lookup}
use laura_db.Lsm.Merge.{merge_tables}
use laura_db.Lsm.Merge.Least.{or_else, find_first}
use laura_db.Lsm.Merge.Compaction.{visible}
use laura_db.Lsm.Merge.Tables.{write_all-IsTable}
use laura_db.Lsm.Merge.Iteration.{table_entries-write_all}
use laura_db.Lsm.MemTable.{entries}
use laura_db.Lsm.MemTable.Contents.{entries-WellMade}
use laura_db.Lsm.Tree.{
  FileTable, Tree, start_flush, end_flush, flushed, end_compaction, remove_immutable, get_sstable,
  get, closed_tree, answer,
}
use laura_db.Lsm.Tree.Close.{flush_now, flush_all, stop_workers, flush_captured, close}
use laura_db.Lsm.Tree.Layers.{
  immutable_layers, table_layers, layers, ValidTables, get_sstable-layers, answer-visible,
}
use laura_db.Lsm.Tree.Reach.{Reach, Inv}
use laura_db.Lsm.Tree.Compactions.{end_compaction-Inv}
use laura_db.Lsm.Tree.Reads.{Reach-Inv}
use laura_db.Lsm.Tree.Emptiness.{Sized, Outcome-cases, Reach-Sized, end_compaction-same}

-- The flag does not bear on the workers.
end_flush-closed :
    (footer : List ℕ) (t : Tree)
    → end_flush footer (record t { closed = true }) ≡ record (end_flush footer t) { closed = true }
unfolding end_flush
end_flush-closed footer t = elim (Option-cases t.flushing) [
  | inl e ↦ rw (e, end_flush) refl
  | inr (p, e) ↦ rw (e, end_flush) refl
]

end_compaction-closed :
    (footer : List ℕ) (t : Tree)
    → end_compaction footer (record t { closed = true })
      ≡ record (end_compaction footer t) { closed = true }
unfolding end_compaction
end_compaction-closed footer t = elim (Option-cases t.compacting) [
  | inl e ↦ rw (e, end_compaction) refl
  | inr ((id, olds), e) ↦
      elim (Outcome-cases
        (merge_tables t.index_interval footer (map (λ (x : FileTable). x.1) olds))) [
          | inl (f, k) ↦ rw (e, k, end_compaction) refl
          | inr (m, k) ↦ rw (e, k, end_compaction) refl
        ]
]

stop_workers-closed :
    (footer : List ℕ) (t : Tree)
    → stop_workers footer (record t { closed = true })
      ≡ record (stop_workers footer t) { closed = true }
unfolding stop_workers
stop_workers-closed footer t =
    ap (end_compaction footer) (end_flush-closed footer t)
    ∙ end_compaction-closed footer (end_flush footer t)

-- The worker has nothing to flush where no table is immutable.
flushing-none : (h : List Entry) (t : Tree) → Inv h t → t.immutables ≡ [] → t.flushing ≡ none
flushing-none h t v none_left = elim (Option-cases t.flushing) [
  | inl e ↦ e
  | inr ((id, m), e) ↦ let q : [] ≡ m ∷ t.flush_chan = sym none_left ∙ v.queue ∙ rw e refl in cc
]

idle_end_flush : (footer : List ℕ) (t : Tree) → t.flushing ≡ none → end_flush footer t ≡ t
unfolding end_flush
idle_end_flush footer t e = λ i. elim (e i) [
  | none ↦ t
  | some (id, m) ↦ record t {
    sstables = (id, flushed footer t.index_interval m.1) ∷ t.sstables;
    immutables = remove_immutable m.0 t.immutables;
    flushing = none;
  }
]

-- A tree whose workers have stopped
record Stopped (h : List Entry) (t u : Tree) : Type 0 where
  valid : Inv h u
  same : u.mem_table ≡ t.mem_table
  none_left : u.immutables ≡ []

stop_workers-Stopped :
    (footer : List ℕ) (h : List Entry) (t : Tree)
    → Inv h t
    → t.immutables ≡ []
    → Stopped h t (stop_workers footer t)
unfolding stop_workers
stop_workers-Stopped footer h t v empty =
    let idle = idle_end_flush footer t (flushing-none h t v empty) in
    let same = end_compaction-same footer t in
    subst (λ u. Stopped h t (end_compaction footer u)) (sym idle)
      (record {
        valid = end_compaction-Inv footer h t v;
        same = same.0;
        none_left = same.1 ∙ empty;
      })

no_immutables :
    (h : List Entry) (t : Tree)
    → Inv h t
    → t.immutables ≡ []
    → (key : List ℕ)
    → visible (find_first key (entries t.mem_table ∷ table_layers t.sstables))
      ≡ visible (lookup key h)
unfolding layers immutable_layers
no_immutables h t v empty key =
    subst
      (λ ms.
        visible
          (find_first key (entries t.mem_table ∷ (immutable_layers ms ++ table_layers t.sstables)))
        ≡ visible (lookup key h))
      empty (v.latest key)

-- The tables on disk of a closed tree show the writes.
record Saved (h : List Entry) (t : Tree) : Type 0 where
  valid : ValidTables t.sstables
  latest :
      (key : List ℕ) → visible (find_first key (table_layers t.sstables)) ≡ visible (lookup key h)
  shut : t.closed ≡ true

flush_captured-Saved :
    (footer : List ℕ) (n : ℕ) (h : List Entry) (t : Tree)
    → Inv h t
    → Sized t.mem_table
    → t.immutables ≡ []
    → Saved h (flush_captured footer (n, t.mem_table) [] (record t { closed = true }))
unfolding flush_captured flush_all flush_now start_flush end_flush flushed table_layers find_first
    or_else lookup
flush_captured-Saved footer n h t v sized empty =
    let latest = no_immutables h t v empty in
    elim (Bool-cases (ltb 0 t.mem_table.size)) [
      | inr s ↦
          let none_written : entries t.mem_table ≡ [] = sized (ground (arith, s)) in
          rw s (record {
            valid = v.tables;
            latest = λ key.
                subst
                  (λ es.
                    visible (find_first key (es ∷ table_layers t.sstables))
                    ≡ visible (lookup key h))
                  none_written (latest key);
            shut = refl;
          })
      | inl s ↦
          let made = entries-WellMade t.mem_table v.mem in
          let same =
            table_entries-write_all footer t.index_interval (entries t.mem_table) v.interval
              made.keyed made.fitting in
          rw s (record {
            valid = (
              write_all-IsTable footer t.index_interval (entries t.mem_table) v.interval made,
              v.tables,
            );
            latest = λ key. rw same (latest key);
            shut = refl;
          })
    ]

open_close :
    (footer : List ℕ) (t : Tree)
    → t.closed ≡ false
    → close footer t
      ≡ flush_captured footer
          (t.mem_table_number, t.mem_table)
          t.immutables
          (stop_workers footer (record t { closed = true }))
unfolding close
open_close footer t e = λ i.
    if e i
    then t
    else flush_captured footer (t.mem_table_number, t.mem_table) t.immutables
        (stop_workers footer (record t { closed = true }))

Reach-Saved :
    (footer : List ℕ) (h : List Entry) (t : Tree)
    → Reach h t
    → t.immutables ≡ []
    → Saved h (close footer t)
Reach-Saved footer h t r empty =
    let v = Reach-Inv h t r in
    let w = stop_workers-Stopped footer h t v empty in
    let n = t.mem_table_number in
    let stopped : Tree = record (stop_workers footer t) { closed = true } in
    let as_captured : close footer t
        ≡ flush_captured footer (n, (stop_workers footer t).mem_table) [] stopped =
      open_close footer t v.is_open
      ∙ ap
          (λ ms.
            flush_captured footer (n, t.mem_table) ms
              (stop_workers footer (record t { closed = true })))
          empty
      ∙ ap (flush_captured footer (n, t.mem_table) []) (stop_workers-closed footer t)
      ∙ ap (λ m. flush_captured footer (n, m) [] stopped) (sym w.same) in
    subst (Saved h) (sym as_captured) (
      flush_captured-Saved footer n h (stop_workers footer t) w.valid
        (subst Sized (sym w.same) (Reach-Sized h t r)) w.none_left)

closed_get : (key : List ℕ) (t : Tree) → t.closed ≡ true → get key t ≡ closed_tree
unfolding get
closed_get key t e = simp e refl

-- After Close of a tree without immutable tables, whose workers end what they have begun, and whose
-- writes had keys that are not empty, keys and values shorter than 2 ^ 32 bytes and timestamps below
-- 2 ^ 64, the tree is closed, Get refuses, and its loop over the tables on disk alone finds the last
-- write of every key, a tombstone counting as no value.
pub close-Saved :
    (h : List Entry) (t : Tree) (footer key : List ℕ)
    → Reach h t
    → t.immutables ≡ []
    → let u = close footer t in
      (u.closed ≡ true)
      × (get key u ≡ closed_tree)
      × ((found : Option Entry) × (get_sstable key u.sstables ≡ done found)
          × (answer found ≡ answer (lookup key h)))
close-Saved h t footer key r empty =
    let u = close footer t in
    let s = Reach-Saved footer h t r empty in
    (
      s.shut,
      closed_get key u s.shut,
      (
        find_first key (table_layers u.sstables),
        get_sstable-layers key u.sstables s.valid,
        sym (answer-visible (find_first key (table_layers u.sstables)))
            ∙ ap answer (s.latest key)
            ∙ answer-visible (lookup key h),
      ),
    )
