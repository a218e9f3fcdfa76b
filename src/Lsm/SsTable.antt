-- ===== src/Lsm/SsTable.antt =====
-- pkg/lsm/sstable.go: the writer of a table, and Get. A key or value that is nil and one that is
-- empty are the same list, as `len` and the files take them; a timestamp is the number of its eight
-- bytes. The calls of the file do not fail, and a read is short only at the end of the file.
pub mod Entries
pub mod Writing
pub mod Lookup
pub mod Reads
pub mod Seeking
pub mod Footer
pub mod Parsing
pub mod Reopening
use Prim.Native.Nat.Ordering.{lt, eq, gt}
use laura_db.Prelude.{
  ℕ, zero, suc, ◌+◌, ◌-◌, ◌%◌, Bool, true, false, Option, none, some, List, [], ◌∷◌, ◌++◌, length,
  take, drop, leb, ◌==◌, if◌then◌else◌,
}
use laura_db.Storage.Bytes.{le_bytes, le_value}
use laura_db.Index.Key.{compare_bytes}
use laura_db.Lsm.Bloom.{BloomFilter, new_bloom_filter, add, contains}

pub record Entry : Type 0 where
  pub key : List ℕ
  pub value : List ℕ
  pub timestamp : ℕ
  pub deleted : Bool

-- An entry of the sparse index: a key and its offset.
abbrev pub IndexEntry : Type 0
IndexEntry = List ℕ × ℕ

pub record Writer : Type 0 where
  pub file : List ℕ
  pub index : List IndexEntry
  pub bloom_filter : BloomFilter
  pub min_key : List ℕ
  pub max_key : List ℕ
  pub num_entries : ℕ
  pub current_offset : ℕ

pub record Table : Type 0 where
  pub file : List ℕ
  pub index : List IndexEntry
  pub bloom_filter : BloomFilter
  pub min_key : List ℕ
  pub max_key : List ℕ
  pub num_entries : ℕ
  pub data_end : ℕ

unfoldable pub new_writer : Writer
new_writer = record {
  file = [];
  index = [];
  bloom_filter = new_bloom_filter 10000 3;
  min_key = [];
  max_key = [];
  num_entries = 0;
  current_offset = 0;
}

unfoldable pub encode_entry : Entry → List ℕ
encode_entry e =
    le_bytes 4 (length e.key)
    ++ (e.key
        ++ (le_bytes 4 (length e.value)
            ++ (e.value ++ (le_bytes 8 e.timestamp ++ ((if e.deleted then 1 else 0) ∷ [])))))

-- `w.minKey == nil`: a copy of an empty key is nil as well.
unfoldable pub first_key : List ℕ → List ℕ → List ℕ
first_key [] key = key
first_key (b ∷ bs) key = b ∷ bs

unfoldable pub write : ℕ → Entry → Writer → Writer
write index_interval e w =
    let encoded = encode_entry e in
    record {
      file = w.file ++ encoded;
      index =
          if w.num_entries % index_interval == 0
          then w.index ++ ((e.key, w.current_offset) ∷ [])
          else w.index;
      bloom_filter = add e.key w.bloom_filter;
      min_key = first_key w.min_key e.key;
      max_key = e.key;
      num_entries = suc w.num_entries;
      current_offset = w.current_offset + length encoded;
    }

-- The loop that writes all entries of an iterator
unfoldable pub write_all : ℕ → List Entry → Writer → Writer
write_all index_interval [] w = w
write_all index_interval (e ∷ es) w = write_all index_interval es (write index_interval e w)

-- The table that Finalize returns; the bytes of the footer, which Get does not read, are an
-- argument.
unfoldable pub finalize : List ℕ → Writer → Table
finalize footer w = record {
  file = w.file ++ footer;
  index = w.index;
  bloom_filter = w.bloom_filter;
  min_key = w.min_key;
  max_key = w.max_key;
  num_entries = w.num_entries;
  data_end = w.current_offset;
}

pub data ReadError : Type 0 where
  eof : ReadError
  unexpected_eof : ReadError
  out_of_fuel : ReadError

pub data Outcome (A : Type 0) : Type 0 where
  done : A → Outcome A
  failed : ReadError → Outcome A

infixl 2 ◌>>=◌
unfoldable pub ◌>>=◌ : {A B : Type 0} → Outcome A → (A → Outcome B) → Outcome B
done a >>= f = f a
failed e >>= f = failed e

-- `io.ReadFull`, with the rest of the file
unfoldable pub read_full : ℕ → List ℕ → Outcome (List ℕ × List ℕ)
read_full n rest =
    if leb n (length rest)
    then done (take n rest, drop n rest)
    else failed (if length rest == 0 then eof else unexpected_eof)

unfoldable pub read_entry : List ℕ → Outcome (Entry × List ℕ)
read_entry rest = read_full 4 rest >>= λ (key_len, rest).
    read_full (le_value key_len) rest >>= λ (key, rest). read_full 4 rest >>= λ (value_len, rest).
    read_full (le_value value_len) rest >>= λ (value, rest).
    read_full 8 rest >>= λ (timestamp, rest). read_full 1 rest >>= λ (flag, rest). done (
      record {
        key = key;
        value = value;
        timestamp = le_value timestamp;
        deleted = le_value flag == 1;
      },
      rest,
    )

-- `sort.Search`: the first entry of the index with a greater key
unfoldable pub search_index : List ℕ → List IndexEntry → ℕ
search_index key [] = 0
search_index key ((k, offset) ∷ rest) =
    let next = suc (search_index key rest) in
    elim (compare_bytes k key) [ lt ↦ next | eq ↦ next | gt ↦ 0 ]

-- The offset of the entry, and 0 where there is none
unfoldable pub offset_at : ℕ → List IndexEntry → ℕ
offset_at i [] = 0
offset_at zero ((k, offset) ∷ rest) = offset
offset_at (suc i) ((k, offset) ∷ rest) = offset_at i rest

-- The loop of Get from position `pos` with the bytes behind it. Every round reads a byte or
-- returns.
unfoldable pub scan : ℕ → List ℕ → ℕ → ℕ → List ℕ → Outcome (Option Entry)
scan zero key data_end pos rest = failed out_of_fuel
scan (suc fuel) key data_end pos rest =
    if leb data_end pos then done none else elim (read_entry rest) [
      | done (e, rest') ↦
          let next = scan fuel key data_end (pos + (length rest - length rest')) rest' in
          elim (compare_bytes e.key key) [ lt ↦ next | eq ↦ done (some e) | gt ↦ done none ]
      | failed eof ↦ done none
      | failed unexpected_eof ↦ failed unexpected_eof
      | failed out_of_fuel ↦ failed out_of_fuel
    ]

-- The seek and the scan of Get
unfoldable pub seek_and_scan : List ℕ → Table → Outcome (Option Entry)
seek_and_scan key t =
    let offset = offset_at (search_index key t.index - 1) t.index in
    scan (suc (length t.file)) key t.data_end offset (drop offset t.file)

unfoldable pub get : List ℕ → Table → Outcome (Option Entry)
get key t =
    let found = seek_and_scan key t in
    if contains key t.bloom_filter
    then elim (compare_bytes key t.min_key) [
      | lt ↦ done none
      | eq ↦ elim (compare_bytes key t.max_key) [ gt ↦ done none | lt ↦ found | eq ↦ found ]
      | gt ↦ elim (compare_bytes key t.max_key) [ gt ↦ done none | lt ↦ found | eq ↦ found ]
    ]
    else done none
