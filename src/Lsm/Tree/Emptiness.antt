-- ===== src/Lsm/Tree/Emptiness.antt =====
-- A memory table of pkg/lsm/lsm.go of size 0 is empty, so that Close need not flush it. The workers
-- leave the memory table alone.
use laura_db.Prelude.{
  ℕ, ◌≡◌, ◌⊎◌, inl, inr, map, refl, sym, subst, Bool, List, [], length, leb, arith, Option-cases,
  Bool-cases, List-cases,
}
use laura_db.Lsm.SsTable.{Entry, Table, Outcome, ReadError, done, failed}
use laura_db.Lsm.SkipList.{new_skip_list}
use laura_db.Lsm.Merge.{merge_tables}
use laura_db.Lsm.MemTable.{MemTable, new_mem_table, entries}
use laura_db.Lsm.MemTable
use laura_db.Lsm.Tree.{
  FileTable, Tree, new_tree, put, delete, rotate, start_flush, begin_flush, end_flush,
  begin_compaction, end_compaction,
}
use laura_db.Lsm.Tree.Reach.{
  Reach, start, puts, deletes, flush_begins, flush_ends, compaction_begins, compaction_ends,
}

-- A memory table of size 0 is empty.
abbrev pub Sized : MemTable → Type 0
Sized mt = mt.size ≡ 0 → entries mt ≡ []

new_mem_table-Sized : (n : ℕ) → Sized (new_mem_table n)
unfolding entries new_mem_table new_skip_list
new_mem_table-Sized n h = refl

put_mem_table-Sized :
    (draws : List Bool) (key value : List ℕ) (timestamp : ℕ) (mt : MemTable)
    → Sized (MemTable.put draws key value timestamp mt)
unfolding MemTable.put
put_mem_table-Sized draws key value timestamp mt h = absurd (omega (arith, h))

delete_mem_table-Sized :
    (draws : List Bool) (key : List ℕ) (timestamp : ℕ) (mt : MemTable)
    → Sized (MemTable.delete draws key timestamp mt)
unfolding MemTable.delete
delete_mem_table-Sized draws key timestamp mt h = absurd (omega (arith, h))

rotate-Sized : (mt : MemTable) (t : Tree) → Sized mt → Sized (rotate mt t).mem_table
unfolding rotate
rotate-Sized mt t s = elim (Bool-cases (MemTable.is_full mt)) [
  | inl f ↦ rw f (new_mem_table-Sized t.mem_table_size)
  | inr f ↦ rw f s
]

put-Sized :
    (draws : List Bool) (key value : List ℕ) (timestamp : ℕ) (t : Tree)
    → Sized t.mem_table
    → Sized (put draws key value timestamp t).0.mem_table
unfolding put
put-Sized draws key value timestamp t s = elim (Bool-cases t.closed) [
  | inl c ↦ rw c s
  | inr c ↦ simp c (rotate-Sized _ t (put_mem_table-Sized draws key value timestamp t.mem_table))
]

delete-Sized :
    (draws : List Bool) (key : List ℕ) (timestamp : ℕ) (t : Tree)
    → Sized t.mem_table
    → Sized (delete draws key timestamp t).0.mem_table
unfolding delete
delete-Sized draws key timestamp t s = elim (Bool-cases t.closed) [
  | inl c ↦ rw c s
  | inr c ↦ rw c (delete_mem_table-Sized draws key timestamp t.mem_table)
]

-- The workers do not change the memory table.
begin_flush-same : (t : Tree) → (begin_flush t).mem_table ≡ t.mem_table
unfolding begin_flush start_flush
begin_flush-same t = elim (Option-cases t.flushing) [
  | inr (p, e) ↦ rw (e, begin_flush) refl
  | inl e ↦ elim (List-cases t.flush_chan) [
    | inl c ↦ rw (e, c, begin_flush) refl
    | inr (m, rest, c) ↦ rw (e, c, begin_flush) refl
  ]
]

end_flush-same : (footer : List ℕ) (t : Tree) → (end_flush footer t).mem_table ≡ t.mem_table
unfolding end_flush
end_flush-same footer t = elim (Option-cases t.flushing) [
  | inl e ↦ rw (e, end_flush) refl
  | inr (p, e) ↦ rw (e, end_flush) refl
]

-- A merge fails or gives a table.
pub Outcome-cases :
    (o : Outcome Table) → ((e : ReadError) × (o ≡ failed e)) ⊎ ((x : Table) × (o ≡ done x))
Outcome-cases (failed e) = inl (e, refl)
Outcome-cases (done x) = inr (x, refl)

begin_compaction-same : (t : Tree) → (begin_compaction t).mem_table ≡ t.mem_table
unfolding begin_compaction
begin_compaction-same t = elim (Option-cases t.compacting) [
  | inr (p, e) ↦ rw (e, begin_compaction) refl
  | inl e ↦ elim (Bool-cases (leb (length t.sstables) 4)) [
    | inl few ↦ rw (e, few, begin_compaction) refl
    | inr many ↦ rw (e, many, begin_compaction) refl
  ]
]

pub end_compaction-same :
    (footer : List ℕ) (t : Tree)
    → ((end_compaction footer t).mem_table ≡ t.mem_table)
      × ((end_compaction footer t).immutables ≡ t.immutables)
unfolding end_compaction
end_compaction-same footer t = elim (Option-cases t.compacting) [
  | inl e ↦ rw (e, end_compaction) (refl, refl)
  | inr ((id, olds), e) ↦
      elim (Outcome-cases
        (merge_tables t.index_interval footer (map (λ (x : FileTable). x.1) olds))) [
          | inl (f, k) ↦ rw (e, k, end_compaction) (refl, refl)
          | inr (m, k) ↦ rw (e, k, end_compaction) (refl, refl)
        ]
]

pub Reach-Sized : (h : List Entry) (t : Tree) → Reach h t → Sized t.mem_table
unfolding new_tree
Reach-Sized _ _ (start size interval pos) = new_mem_table-Sized size
Reach-Sized _ _ (puts h t draws key value timestamp r w) =
    put-Sized draws key value timestamp t (Reach-Sized h t r)
Reach-Sized _ _ (deletes h t draws key timestamp r w) =
    delete-Sized draws key timestamp t (Reach-Sized h t r)
Reach-Sized _ _ (flush_begins h t r) = subst Sized (sym (begin_flush-same t)) (Reach-Sized h t r)
Reach-Sized _ _ (flush_ends h t footer r) =
    subst Sized (sym (end_flush-same footer t)) (Reach-Sized h t r)
Reach-Sized _ _ (compaction_begins h t r) =
    subst Sized (sym (begin_compaction-same t)) (Reach-Sized h t r)
Reach-Sized _ _ (compaction_ends h t footer r) =
    subst Sized (sym (end_compaction-same footer t).0) (Reach-Sized h t r)
