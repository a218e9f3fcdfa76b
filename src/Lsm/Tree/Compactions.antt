-- ===== src/Lsm/Tree/Compactions.antt =====
-- The compaction worker of pkg/lsm/lsm.go keeps the invariant of the tree.
use laura_db.Prelude.{
  ℕ, suc, ◌-◌, ◌<◌, ◌≡◌, inl, inr, refl, ap, sym, subst, ◌∙◌, Option, none, some, List, [], ◌∷◌,
  ◌++◌, append_assoc, append-take_rest, take, length, map, leb, All, All-append, All-left,
  All-right, arith, Option-cases, Bool-cases,
}
use laura_db.Lsm.SsTable.{Entry}
use laura_db.Lsm.SsTable.Entries.{lookup}
use laura_db.Lsm.Merge.{table_entries}
use laura_db.Lsm.Merge.Least.{find_first, find_first-append}
use laura_db.Lsm.Merge.Compaction.{visible}
use laura_db.Lsm.Merge.Tables.{merge_tables-Compacted}
use laura_db.Lsm.MemTable.{entries}
use laura_db.Lsm.Tree.{Numbered, FileTable, Tree, begin_compaction, keep_others, end_compaction}
use laura_db.Lsm.Tree.Layers.{immutable_layers, table_layers, layers, ValidTables, or_else-none}
use laura_db.Lsm.Tree.Reach.{
  Inv, NotNumbered, Distinct, FlushPending, Compacting, CompactionPending, Apart,
}
use laura_db.Lsm.Tree.Merging.{
  keep_newer, table_layers-append, map-layers, all_made, visible-or_else, Distinct-append,
  Distinct-left,
}
use laura_db.Lsm.Tree.Flushes.{below_next, next_unused}

later_flush :
    (n : ℕ) (xs : List FileTable) (f : Option (ℕ × Numbered))
    → FlushPending n xs f
    → FlushPending (suc n) xs f
later_flush n xs none p = tt
later_flush n xs (some (id, m)) p = (omega (arith, p.0), p.1)

flush-Apart :
    (n : ℕ) (xs olds : List FileTable) (f : Option (ℕ × Numbered))
    → FlushPending n xs f
    → Apart f (some (n, olds))
flush-Apart n xs olds none p = tt
flush-Apart n xs olds (some (id, m)) p = λ q. absurd (omega (arith, p.0, q))

pub begin_compaction-Inv : (h : List Entry) (t : Tree) → Inv h t → Inv h (begin_compaction t)
unfolding begin_compaction layers
begin_compaction-Inv h t v = elim (Option-cases t.compacting) [
  | inr (pending, e) ↦ rw (e, begin_compaction) v
  | inl e ↦ elim (Bool-cases (leb (length t.sstables) 4)) [
    | inl few ↦ rw (e, few, begin_compaction) v
    | inr many ↦
        rw (e, many, begin_compaction)
          (record {
            is_open = v.is_open;
            interval = v.interval;
            mem = v.mem;
            imms = v.imms;
            tables = v.tables;
            queue = v.queue;
            distinct = v.distinct;
            bounded = below_next t.next_sstable_id t.sstables v.bounded;
            flush = later_flush t.next_sstable_id t.sstables t.flushing v.flush;
            compaction = record {
              newer = take (length t.sstables - 4) t.sstables;
              parts = sym (append-take_rest (length t.sstables - 4) t.sstables);
              bound = omega arith;
              unused = next_unused t.next_sstable_id t.sstables v.bounded;
            };
            apart = flush-Apart t.next_sstable_id t.sstables _ t.flushing v.flush;
            latest = v.latest;
          })
  ]
]

kept_flush :
    (n j : ℕ) (newer olds : List FileTable) (x : FileTable) (f : Option (ℕ × Numbered))
    → x.0 ≡ j
    → FlushPending n (newer ++ olds) f
    → Apart f (some (j, olds))
    → FlushPending n (newer ++ (x ∷ [])) f
kept_flush n j newer olds x none e p a = tt
kept_flush n j newer olds x (some (i, m)) e p a =
    (p.0, All-append _ newer (x ∷ []) (All-left _ newer olds p.1) ((λ q. a (sym q ∙ e)), tt))

no_compaction-Apart : (f : Option (ℕ × Numbered)) → Apart f none
no_compaction-Apart none = tt
no_compaction-Apart (some f) = tt

-- The merged table in the place of the old ones shows the same.
same_view :
    (key : List ℕ) (front olds : List (List Entry)) (es : List Entry)
    → lookup key es ≡ visible (find_first key olds)
    → visible (find_first key (front ++ (es ∷ []))) ≡ visible (find_first key (front ++ olds))
unfolding find_first
same_view key front olds es h =
    rw
      (
        find_first-append key front (es ∷ []),
        find_first-append key front olds,
        h,
        or_else-none (visible (find_first key olds)),
      )
      (visible-or_else (find_first key front) (find_first key olds))

layers-split :
    (t : Tree) (xs ys : List FileTable)
    → ◌≡◌ {A = List (List Entry)}
        (entries t.mem_table ∷ (immutable_layers t.immutables ++ table_layers (xs ++ ys)))
        ((entries t.mem_table ∷ (immutable_layers t.immutables ++ table_layers xs))
          ++ table_layers ys)
layers-split t xs ys = ap (◌∷◌ (entries t.mem_table)) (
    ap (λ ls. immutable_layers t.immutables ++ ls) (table_layers-append xs ys)
    ∙ sym (append_assoc (immutable_layers t.immutables) (table_layers xs) (table_layers ys)))

-- Every key is found in the tables after the merge as it was before.
merged_view :
    (key : List ℕ) (t : Tree) (newer olds : List FileTable) (x : FileTable)
    → t.sstables ≡ newer ++ olds
    → lookup key (table_entries x.1) ≡ visible (find_first key (table_layers olds))
    → visible (
        find_first key (
          entries t.mem_table
          ∷ (immutable_layers t.immutables ++ table_layers (newer ++ (x ∷ [])))))
      ≡ visible (find_first key (layers t))
unfolding layers table_layers
merged_view key t newer olds x parts holds =
    let front = entries t.mem_table ∷ (immutable_layers t.immutables ++ table_layers newer) in
    rw (layers-split t newer (x ∷ [])) (
      same_view key front (table_layers olds) (table_entries x.1) holds
      ∙ ap (λ ls. visible (find_first key ls))
          (sym (layers-split t newer olds)
            ∙ ap (λ xs. entries t.mem_table ∷ (immutable_layers t.immutables ++ table_layers xs))
                (sym parts)))

pub end_compaction-Inv :
    (footer : List ℕ) (h : List Entry) (t : Tree) → Inv h t → Inv h (end_compaction footer t)
unfolding end_compaction layers table_layers
end_compaction-Inv footer h t v = elim (Option-cases t.compacting) [
  | inl e ↦ rw (e, end_compaction) v
  | inr ((id, olds), e) ↦
      let n = t.next_sstable_id in
      let c : Compacting n id t.sstables olds =
        subst (CompactionPending n t.sstables) e v.compaction in
      let apart : Apart t.flushing (some (id, olds)) = subst (Apart t.flushing) e v.apart in
      let tables = subst ValidTables c.parts v.tables in
      let distinct = subst Distinct c.parts v.distinct in
      let bounded = subst (All (λ x. x.0 < n)) c.parts v.bounded in
      let unused = subst (NotNumbered id) c.parts c.unused in
      let m =
        merge_tables-Compacted t.index_interval footer (map (λ (x : FileTable). x.1) olds)
          v.interval (all_made olds (All-right _ c.newer olds tables)) in
      let x : FileTable = (id, m.table) in
      let kept : keep_others olds t.sstables ≡ c.newer =
        ap (keep_others olds) c.parts ∙ keep_newer c.newer olds distinct in
      rw (e, m.runs, end_compaction)
        (record {
          is_open = v.is_open;
          interval = v.interval;
          mem = v.mem;
          imms = v.imms;
          tables =
              rw kept
                (All-append _ c.newer (x ∷ []) (All-left _ c.newer olds tables) (m.valid, tt));
          queue = v.queue;
          distinct = rw kept (
              Distinct-append c.newer x (Distinct-left c.newer olds distinct)
                (All-left _ c.newer olds unused));
          bounded =
              rw kept
                (All-append _ c.newer (x ∷ []) (All-left _ c.newer olds bounded) (c.bound, tt));
          flush = rw kept (
              kept_flush n id c.newer olds x t.flushing refl
                (subst (λ xs. FlushPending n xs t.flushing) c.parts v.flush) apart);
          compaction = tt;
          apart = no_compaction-Apart t.flushing;
          latest = λ key. rw kept (
              merged_view key t c.newer olds x c.parts
                (m.holds key ∙ ap (λ ls. visible (find_first key ls)) (map-layers olds))
              ∙ v.latest key);
        })
]
