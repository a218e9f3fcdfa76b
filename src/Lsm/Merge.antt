-- ===== src/Lsm/Merge.antt =====
-- The merge of tables in a compaction: mergeSSTables of pkg/lsm/lsm.go and the iterator of
-- pkg/lsm/sstable.go. An iterator is the list of the entries that it still has to give: it is
-- valid where the list is not empty, and its entry is the first one.
pub mod Least
pub mod Choice
pub mod Compaction
pub mod Iteration
pub mod Members
pub mod Tables
mod Tests
use Prim.Native.Nat.Ordering.{lt, eq, gt}
use laura_db.Prelude.{
  ℕ, zero, suc, ◌+◌, ◌-◌, Bool, true, false, Option, none, some, List, [], ◌∷◌, length, leb,
  if◌then◌else◌, map,
}
use laura_db.Index.Key.{compare_bytes}
use laura_db.Lsm.SsTable.{
  Entry, Table, Outcome, done, failed, out_of_fuel, read_entry, ◌>>=◌, new_writer, write_all,
  finalize,
}

-- The entries that the iterator gives, from position `pos` with the bytes behind it; it ends at an
-- error.
unfoldable pub iterate : ℕ → ℕ → ℕ → List ℕ → List Entry
iterate zero data_end pos rest = []
iterate (suc fuel) data_end pos rest = if leb data_end pos then [] else elim (read_entry rest) [
  | done (e, rest') ↦ e ∷ iterate fuel data_end (pos + (length rest - length rest')) rest'
  | failed error ↦ []
]

unfoldable pub table_entries : Table → List Entry
table_entries t = iterate (suc (length t.file)) t.data_end 0 t.file

-- The minimum so far, with the number of its iterator, and the entry of iterator `i`
unfoldable pub smaller : ℕ → Entry → Option (ℕ × Entry) → Option (ℕ × Entry)
smaller i e none = some (i, e)
smaller i e (some (j, m)) = elim (compare_bytes e.key m.key) [
  | lt ↦ some (i, e)
  | eq ↦ some (j, m)
  | gt ↦ some (j, m)
]

-- The loop over the iterators from number `i`
unfoldable pub find_min : ℕ → Option (ℕ × Entry) → List (List Entry) → Option (ℕ × Entry)
find_min i best [] = best
find_min i best ([] ∷ iters) = find_min (suc i) best iters
find_min i best ((e ∷ es) ∷ iters) = find_min (suc i) (smaller i e best) iters

-- `Next` of iterator `i`
unfoldable pub advance : ℕ → List (List Entry) → List (List Entry)
advance i [] = []
advance zero ([] ∷ iters) = [] ∷ iters
advance zero ((e ∷ es) ∷ iters) = es ∷ iters
advance (suc i) (it ∷ iters) = it ∷ advance i iters

unfoldable pub is_new : Option (List ℕ) → List ℕ → Bool
is_new none key = true
is_new (some last_key) key = elim (compare_bytes key last_key) [
  | lt ↦ true
  | eq ↦ false
  | gt ↦ true
]

-- The entries that are written in the rounds of the loop. Each round takes an entry.
unfoldable pub merge_from : ℕ → Option (List ℕ) → List (List Entry) → Outcome (List Entry)
merge_from zero last_key iters = failed out_of_fuel
merge_from (suc fuel) last_key iters = elim (find_min 0 none iters) [
  | none ↦ done []
  | some (i, m) ↦
      let rest = merge_from fuel (some m.key) (advance i iters) in
      if is_new last_key m.key
      then (if m.deleted then rest else rest >>= λ out. done (m ∷ out))
      else rest
]

unfoldable pub count_entries : List (List Entry) → ℕ
count_entries [] = 0
count_entries (it ∷ iters) = length it + count_entries iters

-- The entries of the merged table
unfoldable pub merge_entries : List (List Entry) → Outcome (List Entry)
merge_entries iters = merge_from (suc (count_entries iters)) none iters

unfoldable pub merge_tables : ℕ → List ℕ → List Table → Outcome Table
merge_tables index_interval footer tables = merge_entries (map table_entries tables) >>= λ out.
    done (finalize footer (write_all index_interval out new_writer))
