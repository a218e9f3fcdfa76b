-- ===== src/Lsm/Tree/Flushes.antt =====
-- The flush worker of pkg/lsm/lsm.go keeps the invariant of the tree.
use laura_db.Prelude.{
  ℕ, suc, ◌<◌, ◌≡◌, inl, inr, refl, ap, sym, subst, ◌∙◌, true, Option, none, some, List, [], ◌∷◌,
  ◌++◌, append_assoc, All, All-imp, ◌==◌, arith, Option-cases, List-cases,
}
use laura_db.Lsm.SsTable.{Entry, new_writer, write_all, finalize}
use laura_db.Lsm.Merge.Least.{find_first}
use laura_db.Lsm.Merge.Compaction.{visible}
use laura_db.Lsm.Merge.{table_entries}
use laura_db.Lsm.Merge.Tables.{write_all-IsTable}
use laura_db.Lsm.Merge.Iteration.{table_entries-write_all}
use laura_db.Lsm.MemTable.{entries}
use laura_db.Lsm.MemTable.Contents.{entries-WellMade}
use laura_db.Lsm.Tree.{
  Numbered, FileTable, Tree, start_flush, begin_flush, remove_immutable, flushed, end_flush,
}
use laura_db.Lsm.Tree.Layers.{immutable_layers, table_layers, layers}
use laura_db.Lsm.Tree.Reach.{Inv, NotNumbered, FlushPending, CompactionPending, Apart}

-- A number below the next one is below a later one as well.
pub below_next : (n : ℕ) (xs : List FileTable) → All (λ x. x.0 < n) xs → All (λ x. x.0 < suc n) xs
below_next n xs b = All-imp (λ x h. omega (arith, h)) xs b

-- The next number is new.
pub next_unused : (n : ℕ) (xs : List FileTable) → All (λ x. x.0 < n) xs → NotNumbered n xs
next_unused n xs b = All-imp (λ x h q. absurd (omega (arith, h, q))) xs b

later_compaction :
    (n : ℕ) (xs : List FileTable) (c : Option (ℕ × List FileTable))
    → CompactionPending n xs c
    → CompactionPending (suc n) xs c
later_compaction n xs none p = tt
later_compaction n xs (some (id, olds)) p = record {
  newer = p.newer;
  parts = p.parts;
  bound = omega (arith, p.bound);
  unused = p.unused;
}

new-Apart :
    (n : ℕ) (xs : List FileTable) (m : Numbered) (c : Option (ℕ × List FileTable))
    → CompactionPending n xs c
    → Apart (some (n, m)) c
new-Apart n xs m none p = tt
new-Apart n xs m (some (id, olds)) p = λ q. absurd (omega (arith, p.bound, q))

pub begin_flush-Inv : (h : List Entry) (t : Tree) → Inv h t → Inv h (begin_flush t)
unfolding begin_flush start_flush layers
begin_flush-Inv h t v = elim (Option-cases t.flushing) [
  | inr (pending, e) ↦ rw (e, begin_flush) v
  | inl e ↦ elim (List-cases t.flush_chan) [
    | inl c ↦ rw (e, c, begin_flush) v
    | inr (m, rest, c) ↦
        rw (e, c, begin_flush)
          (record {
            is_open = v.is_open;
            interval = v.interval;
            mem = v.mem;
            imms = v.imms;
            tables = v.tables;
            queue = v.queue ∙ rw (e, c) refl;
            distinct = v.distinct;
            bounded = below_next t.next_sstable_id t.sstables v.bounded;
            flush = (omega arith, next_unused t.next_sstable_id t.sstables v.bounded);
            compaction = later_compaction t.next_sstable_id t.sstables t.compacting v.compaction;
            apart = new-Apart t.next_sstable_id t.sstables m t.compacting v.compaction;
            latest = v.latest;
          })
  ]
]

remove_first : (m : Numbered) (ms : List Numbered) → remove_immutable m.0 (m ∷ ms) ≡ ms
unfolding remove_immutable
remove_first m ms = let same : m.0 == m.0 ≡ true = ground arith in rw same refl

-- A new table in front
front_compaction :
    (n i : ℕ) (m : Numbered) (x : FileTable) (xs : List FileTable) (c : Option (ℕ × List FileTable))
    → x.0 ≡ i
    → Apart (some (i, m)) c
    → CompactionPending n xs c
    → CompactionPending n (x ∷ xs) c
front_compaction n i m x xs none e a p = tt
front_compaction n i m x xs (some (j, olds)) e a p = record {
  newer = x ∷ p.newer;
  parts = ap (◌∷◌ x) p.parts;
  bound = p.bound;
  unused = ((λ q. a (sym e ∙ q)), p.unused);
}

pub end_flush-Inv :
    (footer : List ℕ) (h : List Entry) (t : Tree) → Inv h t → Inv h (end_flush footer t)
unfolding end_flush flushed layers immutable_layers table_layers
end_flush-Inv footer h t v = elim (Option-cases t.flushing) [
  | inl e ↦ rw (e, end_flush) v
  | inr ((id, m), e) ↦
      let queue : t.immutables ≡ m ∷ t.flush_chan = v.queue ∙ rw e refl in
      let held = subst (All _) queue v.imms in
      let pending : FlushPending t.next_sstable_id t.sstables (some (id, m)) =
        subst (FlushPending t.next_sstable_id t.sstables) e v.flush in
      let apart : Apart (some (id, m)) t.compacting = subst (λ f. Apart f t.compacting) e v.apart in
      let made = entries-WellMade m.1 held.0 in
      let same =
        table_entries-write_all footer t.index_interval (entries m.1) v.interval made.keyed
          made.fitting in
      let gone : remove_immutable m.0 t.immutables ≡ t.flush_chan =
        ap (remove_immutable m.0) queue ∙ remove_first m t.flush_chan in
      let moved : immutable_layers (remove_immutable m.0 t.immutables)
            ++ (table_entries
                  (finalize footer (write_all t.index_interval (entries m.1) new_writer))
                ∷ table_layers t.sstables)
          ≡ immutable_layers t.immutables ++ table_layers t.sstables =
        rw (gone, same, queue)
          (sym (
            append_assoc (immutable_layers t.flush_chan) (entries m.1 ∷ [])
              (table_layers t.sstables))) in
      rw (e, end_flush)
        (record {
          is_open = v.is_open;
          interval = v.interval;
          mem = v.mem;
          imms = rw gone held.1;
          tables =
              (write_all-IsTable footer t.index_interval (entries m.1) v.interval made, v.tables);
          queue = gone;
          distinct = (pending.1, v.distinct);
          bounded = (pending.0, v.bounded);
          flush = tt;
          compaction =
              front_compaction t.next_sstable_id id m _ t.sstables t.compacting refl apart
                v.compaction;
          apart = tt;
          latest = λ key.
              ap (λ ls. visible (find_first key (entries t.mem_table ∷ ls))) moved ∙ v.latest key;
        })
]
