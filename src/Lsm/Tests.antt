-- ===== src/Lsm/Tests.antt =====
-- Runs of the Bloom filter and of the tables of pkg/lsm.
use laura_db.Prelude.{◌≡◌, ◌+◌, refl, true, false, some, List, [], ◌∷◌, arith, ◌<◌, length}
use laura_db.Lsm.Bloom.{
  xor_bits, fnv_from, sum64, clear_bits, bit_at, set_bit, hash, add_hashes, contains_hashes,
  new_bloom_filter, add, contains,
}
use laura_db.Lsm.SsTable.{
  Entry, Writer, done, new_writer, write, write_all, encode_entry, first_key, finalize, get,
}
use laura_db.Lsm.SsTable.Footer.{sized, encode_index, finalize_with_footer, opened, open_table}
use laura_db.Lsm.SsTable.Reopening.{length-written, open_table-write_all}
use laura_db.Storage.Bytes.{le_bytes}
use laura_db.Lsm.SsTable.Entries.{key_order, Fits, lookup}
use laura_db.Lsm.SsTable.Reads.{get-lookup}

abbrev apple : Entry
apple = record { key = 97 ∷ []; value = 1 ∷ 2 ∷ []; timestamp = 5; deleted = false }

abbrev pear : Entry
pear = record { key = 112 ∷ 101 ∷ []; value = []; timestamp = 7; deleted = true }

abbrev quince : Entry
quince = record { key = 113 ∷ []; value = 3 ∷ []; timestamp = 6; deleted = false }

abbrev fruits : List Entry
fruits = apple ∷ pear ∷ quince ∷ []

-- The hash of the letter a
fnv_test : sum64 (97 ∷ []) ≡ 12638187200555641996
unfolding sum64 fnv_from xor_bits
fnv_test = refl

filter_test : contains (97 ∷ []) (add (97 ∷ []) (new_bloom_filter 2 3)) ≡ true
unfolding contains add new_bloom_filter contains_hashes bit_at add_hashes set_bit clear_bits hash
    sum64 fnv_from xor_bits
filter_test = refl

absent_test : contains (98 ∷ []) (add (97 ∷ []) (new_bloom_filter 2 3)) ≡ false
unfolding contains add new_bloom_filter contains_hashes bit_at add_hashes set_bit clear_bits hash
    sum64 fnv_from xor_bits
absent_test = refl

small : (e : Entry) → length e.key < 256 → length e.value < 256 → e.timestamp < 256 → Fits e
small e k v t = record {
  key_fits = omega arith;
  value_fits = omega arith;
  timestamp_fits = omega arith;
}

get-lookup_example :
    get (113 ∷ []) (finalize (9 ∷ 9 ∷ []) (write_all 2 fruits new_writer)) ≡ done (some quince)
unfolding lookup key_order
get-lookup_example =
    get-lookup (113 ∷ []) (9 ∷ 9 ∷ []) 2 fruits (omega arith)
      ((λ h. cc), ((λ h. cc), ((λ h. cc), tt))) ((refl, (refl, tt)), ((refl, tt), (tt, tt)))
      (
        small apple (omega arith) (omega arith) (omega arith),
        (
          small pear (omega arith) (omega arith) (omega arith),
          (small quince (omega arith) (omega arith) (omega arith), tt),
        ),
      )

abbrev fruit_writer : Writer
fruit_writer = write_all 2 fruits new_writer

fruits_length :
    length fruit_writer.file
      + length fruit_writer.min_key
      + length fruit_writer.max_key
      + length (encode_index fruit_writer.index)
    ≡ 86
unfolding write_all write new_writer encode_entry first_key encode_index sized le_bytes
fruits_length = refl

open_table-write_all_example :
    open_table (finalize_with_footer fruit_writer).file ≡ opened (finalize_with_footer fruit_writer)
open_table-write_all_example =
    open_table-write_all 2 fruits (omega (arith, length-written 2 fruits, fruits_length))
