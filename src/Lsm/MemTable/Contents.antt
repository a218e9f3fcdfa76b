-- ===== src/Lsm/MemTable/Contents.antt =====
-- What the methods of pkg/lsm/memtable.go do to the entries of the table.
use Prim.Native.Nat.Ordering.{eq}
use laura_db.Prelude.{
  ℕ, ◌≡◌, ◌≢◌, inl, inr, refl, sym, subst, ◌∙◌, Bool, true, false, some, List, [], ◌∷◌, map, All,
  All-imp, arith,
}
use laura_db.Index.Key.{compare_bytes}
use laura_db.Index.Comparison.{◌≺◌}
use laura_db.Lsm.SsTable.{Entry}
use laura_db.Lsm.SsTable.Entries.{key_order, Fits, Ascending, lookup}
use laura_db.Lsm.SsTable.Lookup.{lookup-here}
use laura_db.Lsm.SsTable.Seeking.{lookup-other}
use laura_db.Lsm.Merge.Tables.{WellMade}
use laura_db.Lsm.SkipList.{Node, new_skip_list, insert}
use laura_db.Lsm.SkipList.Walk.{Sorted}
use laura_db.Lsm.SkipList.Changes.{find, IsSkipList, find-here, find-other, search-find}
use laura_db.Lsm.SkipList.Middle.{same_or_not}
use laura_db.Lsm.SkipList.Insertion.{insert-Inserted}
use laura_db.Lsm.MemTable.{MemTable, new_mem_table, put, delete, get, entries}

-- An entry that a table can hold
pub record Writable (e : Entry) : Type 0 where
  pub keyed : e.key ≢ []
  pub fitting : Fits e

abbrev Held : Node Entry → Type 0
Held n = (n.value.key ≡ n.key) × Writable n.value

pub record IsMemTable (mt : MemTable) : Type 0 where
  pub valid : IsSkipList mt.skip_list
  pub held : All Held mt.skip_list.nodes

lookup-map :
    (k : List ℕ) (ns : List (Node Entry))
    → All Held ns
    → lookup k (map (λ n. n.value) ns) ≡ find k ns
unfolding lookup find
lookup-map k [] h = refl
lookup-map k (n ∷ ns) h = elim (same_or_not n.key k) [
  | inl c ↦
      lookup-here k n.value _ (subst (λ j. compare_bytes j k ≡ eq) (sym h.0.0) c)
      ∙ sym (find-here k n ns c)
  | inr c ↦
      lookup-other k n.value _ (λ q. c (sym h.0.0 ∙ q))
      ∙ lookup-map k ns h.1
      ∙ sym (find-other k n ns c)
]

-- Get finds what a search through the entries finds.
pub get-entries : (k : List ℕ) (mt : MemTable) → IsMemTable mt → get k mt ≡ lookup k (entries mt)
unfolding get entries
get-entries k mt m =
    search-find k mt.skip_list m.valid ∙ sym (lookup-map k mt.skip_list.nodes m.held)

map-Ascending :
    (ns : List (Node Entry)) → All Held ns → Sorted ns → Ascending (map (λ n. n.value) ns)
map-Ascending [] h s = tt
map-Ascending (n ∷ ns) h s = (above ns h.1 s.0, map-Ascending ns h.1 s.1)
  where
    above :
        (ms : List (Node Entry))
        → All Held ms
        → All (λ m. n.key ≺ m.key) ms
        → All (λ e. n.value.key ≺ e.key) (map (λ m. m.value) ms)
    above [] i a = tt
    above (m ∷ ms) i a = (
      subst (λ j. j ≺ m.value.key) (sym h.0.0) (subst (λ j. n.key ≺ j) (sym i.0.0) a.0),
      above ms i.1 a.1,
    )

All-map :
    (P : Entry → Type 0) (ns : List (Node Entry))
    → All (λ n. P n.value) ns
    → All P (map (λ n. n.value) ns)
All-map P [] a = tt
All-map P (n ∷ ns) a = (a.0, All-map P ns a.1)

-- A table can hold the entries.
pub entries-WellMade : (mt : MemTable) → IsMemTable mt → WellMade (entries mt)
unfolding entries
entries-WellMade mt m = record {
  keyed =
      All-map (λ e. e.key ≢ []) mt.skip_list.nodes
        (All-imp (λ n h. h.1.keyed) mt.skip_list.nodes m.held);
  ordered = map-Ascending mt.skip_list.nodes m.held m.valid.sorted;
  fitting =
      All-map Fits mt.skip_list.nodes (All-imp (λ n h. h.1.fitting) mt.skip_list.nodes m.held);
}

pub new_mem_table-IsMemTable : (n : ℕ) → IsMemTable (new_mem_table n)
unfolding new_mem_table new_skip_list
new_mem_table-IsMemTable n = record {
  valid = record { sorted = tt; levelled = tt; has_level = omega arith; counted = refl };
  held = tt;
}

-- A table after a write of an entry
pub record Wrote (e : Entry) (mt mt' : MemTable) : Type 0 where
  pub valid : IsMemTable mt'
  pub there : lookup e.key (entries mt') ≡ some e
  pub others : (k : List ℕ) → k ≢ e.key → lookup k (entries mt') ≡ lookup k (entries mt)

write-Wrote :
    (draws : List Bool) (e : Entry) (size : ℕ) (mt : MemTable)
    → Writable e
    → IsMemTable mt
    → Wrote e mt (record mt { skip_list = insert draws e.key e mt.skip_list; size = size })
unfolding entries
write-Wrote draws e size mt w m =
    let ins = insert-Inserted draws e.key e mt.skip_list m.valid in
    let held = ins.kept Held m.held (λ levels. (refl, w)) in
    record {
      valid = record { valid = ins.valid; held = held };
      there = lookup-map e.key _ held ∙ ins.there;
      others = λ k h. lookup-map k _ held ∙ ins.others k h ∙ sym (lookup-map k _ m.held);
    }

pub put-Wrote :
    (draws : List Bool) (key value : List ℕ) (timestamp : ℕ) (mt : MemTable)
    → Writable (record { key = key; value = value; timestamp = timestamp; deleted = false })
    → IsMemTable mt
    → Wrote
        (record { key = key; value = value; timestamp = timestamp; deleted = false })
        mt
        (put draws key value timestamp mt)
unfolding put
put-Wrote draws key value timestamp mt w m = write-Wrote draws _ _ mt w m

pub delete-Wrote :
    (draws : List Bool) (key : List ℕ) (timestamp : ℕ) (mt : MemTable)
    → Writable (record { key = key; value = []; timestamp = timestamp; deleted = true })
    → IsMemTable mt
    → Wrote
        (record { key = key; value = []; timestamp = timestamp; deleted = true })
        mt
        (delete draws key timestamp mt)
unfolding delete
delete-Wrote draws key timestamp mt w m = write-Wrote draws _ _ mt w m
