-- ===== src/Lsm/SsTable/Footer.antt =====
-- Finalize and OpenSSTable of pkg/lsm/sstable.go: the footer of a table. An offset is the number of
-- its eight bytes.
use laura_db.Prelude.{
  ℕ, zero, suc, ◌+◌, ◌-◌, none, some, List, [], ◌∷◌, ◌++◌, length, drop, ltb, if◌then◌else◌,
}
use laura_db.Storage.Bytes.{le_bytes, le_value}
use laura_db.Lsm.Bloom.Marshal.{marshal, unmarshal}
use laura_db.Lsm.SsTable.{
  IndexEntry, Writer, Table, ReadError, Outcome, done, failed, ◌>>=◌, read_full, finalize,
}

-- A length with the bytes
unfoldable pub sized : List ℕ → List ℕ
sized bytes = le_bytes 4 (length bytes) ++ bytes

unfoldable pub encode_index : List IndexEntry → List ℕ
encode_index [] = []
encode_index ((key, offset) ∷ rest) = sized key ++ (le_bytes 8 offset ++ encode_index rest)

-- The footer up to its size
unfoldable pub footer_fields : Writer → List ℕ
footer_fields w =
    le_bytes 4 w.num_entries
    ++ (sized w.min_key
        ++ (sized w.max_key
            ++ (le_bytes 4 (length w.index)
                ++ (encode_index w.index ++ sized (marshal w.bloom_filter)))))

unfoldable pub footer : Writer → List ℕ
footer w = footer_fields w ++ le_bytes 4 (length (footer_fields w))

-- Finalize
unfoldable pub finalize_with_footer : Writer → Table
finalize_with_footer w = finalize (footer w) w

-- A length and as many bytes
unfoldable pub read_sized : List ℕ → Outcome (List ℕ × List ℕ)
read_sized rest = read_full 4 rest >>= λ (len, rest). read_full (le_value len) rest

unfoldable pub read_index : ℕ → List ℕ → Outcome (List IndexEntry × List ℕ)
read_index zero rest = done ([], rest)
read_index (suc n) rest = read_sized rest >>= λ (key, rest). read_full 8 rest >>= λ (offset, rest).
    read_index n rest >>= λ (entries, rest). done ((key, le_value offset) ∷ entries, rest)

pub record Footer : Type 0 where
  pub num_entries : ℕ
  pub min_key : List ℕ
  pub max_key : List ℕ
  pub index : List IndexEntry
  pub bloom_data : List ℕ

unfoldable pub read_footer : List ℕ → Outcome Footer
read_footer rest = read_full 4 rest >>= λ (num_entries, rest).
    read_sized rest >>= λ (min_key, rest). read_sized rest >>= λ (max_key, rest).
    read_full 4 rest >>= λ (num_index_entries, rest).
    read_index (le_value num_index_entries) rest >>= λ (index, rest).
    read_sized rest >>= λ (bloom_data, rest). done (record {
      num_entries = le_value num_entries;
      min_key = min_key;
      max_key = max_key;
      index = index;
      bloom_data = bloom_data;
    })

pub data Opened : Type 0 where
  opened : Table → Opened
  negative_offset : Opened
  not_read : ReadError → Opened
  invalid_bloom_filter : Opened

-- The table with the footer that was read
unfoldable pub with_footer : List ℕ → ℕ → Footer → Opened
with_footer file footer_start f = elim (unmarshal f.bloom_data) [
  | none ↦ invalid_bloom_filter
  | some bloom_filter ↦ opened (record {
    file = file;
    index = f.index;
    bloom_filter = bloom_filter;
    min_key = f.min_key;
    max_key = f.max_key;
    num_entries = f.num_entries;
    data_end = footer_start;
  })
]

-- The footer of the given size is read. A seek to a negative offset fails.
unfoldable pub open_footer : List ℕ → ℕ → Opened
open_footer file footer_size =
    let footer_start = length file - (footer_size + 4) in
    if ltb (length file) (footer_size + 4)
    then negative_offset
    else elim (read_footer (drop footer_start file)) [
      | failed e ↦ not_read e
      | done f ↦ with_footer file footer_start f
    ]

unfoldable pub open_table : List ℕ → Opened
open_table file =
    if ltb (length file) 4
    then negative_offset
    else elim (read_full 4 (drop (length file - 4) file)) [
      | failed e ↦ not_read e
      | done (footer_size, rest) ↦ open_footer file (le_value footer_size)
    ]
