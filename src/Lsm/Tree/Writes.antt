-- ===== src/Lsm/Tree/Writes.antt =====
-- Put and Delete of pkg/lsm/lsm.go keep the invariant of the tree.
use laura_db.Prelude.{
  ℕ, ◌<◌, ◌≡◌, inl, inr, refl, ap, sym, subst, Bool, Option, none, some, List, [], ◌∷◌, ◌++◌,
  append_assoc, All-append, Bool-cases, if◌then◌else◌,
}
use laura_db.Lsm.SsTable.{Entry}
use laura_db.Lsm.SsTable.Entries.{key_order, lookup}
use laura_db.Lsm.SsTable.Lookup.{lookup-here}
use laura_db.Lsm.SsTable.Seeking.{lookup-other}
use laura_db.Lsm.SkipList.{new_skip_list}
use laura_db.Lsm.SkipList.Middle.{same_or_not}
use laura_db.Lsm.Merge.Least.{or_else, find_first}
use laura_db.Lsm.MemTable.{MemTable, new_mem_table, is_full, entries}
use laura_db.Lsm.MemTable
use laura_db.Lsm.MemTable.Contents.{
  Writable, Wrote, put-Wrote, delete-Wrote, new_mem_table-IsMemTable,
}
use laura_db.Lsm.Tree.{Numbered, Tree, new_tree, rotate, put, delete, TreeError, err_closed}
use laura_db.Lsm.Tree.Layers.{immutable_layers, table_layers, layers}
use laura_db.Lsm.Tree.Reach.{Inv, put_entry, tombstone}

entries-new_mem_table : (n : ℕ) → entries (new_mem_table n) ≡ []
unfolding entries new_mem_table new_skip_list
entries-new_mem_table n = refl

pub new_tree-Inv : (size interval : ℕ) → 0 < interval → Inv [] (new_tree size interval)
unfolding new_tree layers immutable_layers table_layers find_first or_else lookup
new_tree-Inv size interval pos = record {
  is_open = refl;
  interval = pos;
  mem = new_mem_table-IsMemTable size;
  imms = tt;
  tables = tt;
  queue = refl;
  distinct = tt;
  bounded = tt;
  flush = tt;
  compaction = tt;
  apart = tt;
  latest = λ key. rw (entries-new_mem_table size) refl;
}

-- A write in the memory table
write-Inv :
    (e : Entry) (mt : MemTable) (h : List Entry) (t : Tree)
    → Wrote e t.mem_table mt
    → Inv h t
    → Inv (e ∷ h) (record t { mem_table = mt })
unfolding layers find_first or_else key_order
write-Inv e mt h t w v = record {
  is_open = v.is_open;
  interval = v.interval;
  mem = w.valid;
  imms = v.imms;
  tables = v.tables;
  queue = v.queue;
  distinct = v.distinct;
  bounded = v.bounded;
  flush = v.flush;
  compaction = v.compaction;
  apart = v.apart;
  latest = λ key. elim (same_or_not e.key key) [
    | inl c ↦
        let there : lookup key (entries mt) ≡ some e =
          subst (λ k. lookup k (entries mt) ≡ some e) (key_order.same_of_cmp e.key key c) w.there in
        rw (there, lookup-here key e h c) refl
    | inr c ↦ rw (w.others key (λ q. c (sym q)), lookup-other key e h c) (v.latest key)
  ];
}

immutable_layers-append :
    (ms : List Numbered) (m : Numbered)
    → immutable_layers (ms ++ (m ∷ [])) ≡ entries m.1 ∷ immutable_layers ms
unfolding immutable_layers
immutable_layers-append [] m = refl
immutable_layers-append (x ∷ ms) m =
    ap (λ ls. ls ++ (entries x.1 ∷ [])) (immutable_layers-append ms m)

-- A full table becomes immutable.
rotate-Inv :
    (mt : MemTable) (h : List Entry) (t : Tree)
    → Inv h (record t { mem_table = mt })
    → Inv h (rotate mt t)
unfolding rotate layers find_first or_else lookup
rotate-Inv mt h t v = elim (Bool-cases (is_full mt)) [
  | inr f ↦ rw f v
  | inl f ↦ rw f (record {
    is_open = v.is_open;
    interval = v.interval;
    mem = new_mem_table-IsMemTable t.mem_table_size;
    imms = All-append _ t.immutables ((t.mem_table_number, mt) ∷ []) v.imms (v.mem, tt);
    tables = v.tables;
    queue = rw v.queue (append_assoc _ t.flush_chan ((t.mem_table_number, mt) ∷ []));
    distinct = v.distinct;
    bounded = v.bounded;
    flush = v.flush;
    compaction = v.compaction;
    apart = v.apart;
    latest = λ key.
        rw
          (
            entries-new_mem_table t.mem_table_size,
            immutable_layers-append t.immutables (t.mem_table_number, mt),
          )
          (v.latest key);
  })
]

pub put-Inv :
    (draws : List Bool) (key value : List ℕ) (timestamp : ℕ) (h : List Entry) (t : Tree)
    → Writable (put_entry key value timestamp)
    → Inv h t
    → Inv (put_entry key value timestamp ∷ h) (put draws key value timestamp t).0
unfolding put
put-Inv draws key value timestamp h t w v = simp v.is_open (
    rotate-Inv _ _ t
      (write-Inv _ _ h t (put-Wrote draws key value timestamp t.mem_table w v.mem) v))

pub delete-Inv :
    (draws : List Bool) (key : List ℕ) (timestamp : ℕ) (h : List Entry) (t : Tree)
    → Writable (tombstone key timestamp)
    → Inv h t
    → Inv (tombstone key timestamp ∷ h) (delete draws key timestamp t).0
unfolding delete
delete-Inv draws key timestamp h t w v =
    let next = record t { mem_table = MemTable.delete draws key timestamp t.mem_table } in
    subst
      (λ b.
        Inv (tombstone key timestamp ∷ h)
          (if◌then◌else◌ {A = Tree × Option TreeError} b (t, some err_closed) (next, none)).0)
      (sym v.is_open) (write-Inv _ _ h t (delete-Wrote draws key timestamp t.mem_table w v.mem) v)
