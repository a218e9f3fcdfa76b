-- ===== src/Lsm/Tree/Layers.antt =====
-- The entries of the tables of pkg/lsm/lsm.go in the order in which Get looks at them.
use laura_db.Prelude.{
  ℕ, ◌≡◌, refl, ap, sym, ◌∙◌, false, Option, none, some, List, [], ◌∷◌, ◌++◌, All, Option-cases,
  Bool-cases, inl, inr, if◌then◌else◌,
}
use laura_db.Lsm.SsTable.{Entry, done}
use laura_db.Lsm.SsTable.Entries.{lookup}
use laura_db.Lsm.Merge.{table_entries}
use laura_db.Lsm.Merge.Least.{or_else, find_first, find_first-append}
use laura_db.Lsm.Merge.Compaction.{visible, visible-alive, visible-dead}
use laura_db.Lsm.Merge.Tables.{IsTable}
use laura_db.Lsm.MemTable.{entries}
use laura_db.Lsm.MemTable.Contents.{IsMemTable, get-entries}
use laura_db.Lsm.Tree.{
  Numbered, FileTable, Tree, get_immutable, get_sstable, value, no_value, answer, get,
}

unfoldable pub immutable_layers : List Numbered → List (List Entry)
immutable_layers [] = []
immutable_layers (m ∷ rest) = immutable_layers rest ++ (entries m.1 ∷ [])

unfoldable pub table_layers : List FileTable → List (List Entry)
table_layers [] = []
table_layers (x ∷ rest) = table_entries x.1 ∷ table_layers rest

unfoldable pub layers : Tree → List (List Entry)
layers t = entries t.mem_table ∷ (immutable_layers t.immutables ++ table_layers t.sstables)

abbrev pub ValidImmutables : List Numbered → Type 0
ValidImmutables ms = All (λ m. IsMemTable m.1) ms

abbrev pub ValidTables : List FileTable → Type 0
ValidTables xs = All (λ x. IsTable x.1) xs

pub or_else-none : (o : Option Entry) → or_else o none ≡ o
unfolding or_else
or_else-none none = refl
or_else-none (some e) = refl

get_immutable-layers :
    (key : List ℕ) (ms : List Numbered)
    → ValidImmutables ms
    → get_immutable key ms ≡ find_first key (immutable_layers ms)
unfolding get_immutable immutable_layers find_first or_else
get_immutable-layers key [] v = refl
get_immutable-layers key (m ∷ rest) v =
    let ih = get_immutable-layers key rest v.1 in
    let last = find_first-append key (immutable_layers rest) (entries m.1 ∷ []) in
    elim (Option-cases (find_first key (immutable_layers rest))) [
      | inl h ↦
          rw (last, ih, h) (get-entries key m.1 v.0 ∙ sym (or_else-none (lookup key (entries m.1))))
      | inr (e, h) ↦ rw (last, ih, h) refl
    ]

pub get_sstable-layers :
    (key : List ℕ) (xs : List FileTable)
    → ValidTables xs
    → get_sstable key xs ≡ done (find_first key (table_layers xs))
unfolding get_sstable table_layers find_first or_else
get_sstable-layers key [] v = refl
get_sstable-layers key (x ∷ rest) v = elim (Option-cases (lookup key (table_entries x.1))) [
  | inl h ↦ rw (v.0.reads key, h, get_sstable) (get_sstable-layers key rest v.1)
  | inr (e, h) ↦ rw (v.0.reads key, h, get_sstable) refl
]

-- Get answers by the first layer that has the key.
pub get-layers :
    (key : List ℕ) (t : Tree)
    → t.closed ≡ false
    → IsMemTable t.mem_table
    → ValidImmutables t.immutables
    → ValidTables t.sstables
    → get key t ≡ answer (find_first key (layers t))
unfolding get layers find_first or_else
get-layers key t c m i s =
    let rest = find_first-append key (immutable_layers t.immutables) (table_layers t.sstables) in
    elim (Option-cases (lookup key (entries t.mem_table))) [
      | inr (e, h) ↦ rw (c, get-entries key t.mem_table m, h) refl
      | inl h ↦ elim (Option-cases (find_first key (immutable_layers t.immutables))) [
        | inr (e, k) ↦
            rw
              (
                c,
                get-entries key t.mem_table m,
                h,
                get_immutable-layers key t.immutables i,
                rest,
                k,
              )
              refl
        | inl k ↦
            rw
              (
                c,
                get-entries key t.mem_table m,
                h,
                get_immutable-layers key t.immutables i,
                rest,
                k,
                get_sstable-layers key t.sstables s,
              )
              refl
      ]
    ]

-- A tombstone answers as if there were no entry.
pub answer-visible : (o : Option Entry) → answer (visible o) ≡ answer o
unfolding answer visible
answer-visible none = refl
answer-visible (some e) = elim (Bool-cases e.deleted) [
  | inl h ↦ ap answer (visible-dead e h) ∙ sym (ap (λ b. if b then no_value else value e.value) h)
  | inr h ↦ ap answer (visible-alive e h)
]
