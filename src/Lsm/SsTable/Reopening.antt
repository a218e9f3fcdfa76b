-- ===== src/Lsm/SsTable/Reopening.antt =====
-- A table that pkg/lsm/sstable.go has written can be opened again.
use laura_db.Prelude.{
  ℕ, ◌+◌, ◌-◌, ◌*◌, ◌%◌, ◌<◌, ◌≤◌, ◌≡◌, inl, inr, refl, ap, ◌∙◌, some, List, [], ◌∷◌, ◌++◌, length,
  length-append, All, All-append, All-imp, arith, ◌==◌, Bool-cases,
}
use laura_db.Storage.Bytes.{le_bytes, byte_range, length-le_bytes}
use laura_db.Lsm.Bloom.{BloomFilter, Shape, new_bloom_filter-Shape, add-Shape}
use laura_db.Lsm.Bloom.Marshal.{
  marshal, unmarshal, byte_count, pack, length-pack, unmarshal-marshal,
}
use laura_db.Lsm.SsTable.{
  Entry, IndexEntry, Writer, new_writer, encode_entry, write, write_all, finalize,
}
use laura_db.Lsm.SsTable.Entries.{length-encode_entry}
use laura_db.Lsm.SsTable.Footer.{
  sized, encode_index, footer_fields, footer, finalize_with_footer, opened, open_table,
}
use laura_db.Lsm.SsTable.Parsing.{IndexFits, FooterFits, open_table-finalize}

-- What the writer has written is in the file.
record Placed (w : Writer) : Type 0 where
  offset : w.current_offset ≡ length w.file
  behind : All (λ (i : IndexEntry). i.1 ≤ length w.file) w.index
  counted : 17 * w.num_entries ≤ length w.file
  filter : Shape 100000 3 100000 w.bloom_filter

new_writer-Placed : Placed new_writer
unfolding new_writer
new_writer-Placed = record {
  offset = refl;
  behind = tt;
  counted = omega arith;
  filter = new_bloom_filter-Shape 10000 3;
}

write-Placed : (n : ℕ) (e : Entry) (w : Writer) → Placed w → Placed (write n e w)
unfolding write
write-Placed n e w p =
    let file : List ℕ = w.file ++ encode_entry e in
    let grown = length-append w.file (encode_entry e) in
    let older : All (λ (i : IndexEntry). i.1 ≤ length file) w.index =
      All-imp (λ i h. omega (arith, h, grown)) w.index p.behind in
    let newer : w.current_offset ≤ length file = omega (arith, p.offset, grown) in
    record {
      offset = omega (arith, p.offset, grown);
      behind = elim (Bool-cases (w.num_entries % n == 0)) [
        | inr h ↦ rw h older
        | inl h ↦ rw h (
            All-append (λ (i : IndexEntry). i.1 ≤ length file) w.index
              ((e.key, w.current_offset) ∷ []) older (newer, tt))
      ];
      counted = omega (arith, p.counted, grown, length-encode_entry e);
      filter = add-Shape 100000 3 100000 e.key w.bloom_filter p.filter;
    }

write_all-Placed : (n : ℕ) (es : List Entry) (w : Writer) → Placed w → Placed (write_all n es w)
unfolding write_all
write_all-Placed n [] w p = p
write_all-Placed n (e ∷ es) w p = write_all-Placed n es (write n e w) (write-Placed n e w p)

length-sized : (xs : List ℕ) → length (sized xs) ≡ 4 + length xs
unfolding sized
length-sized xs =
    length-append (le_bytes 4 (length xs)) xs ∙ ap (λ n. n + length xs) (length-le_bytes 4 _)

length-footer_fields :
    (w : Writer)
    → length (footer_fields w)
      ≡ 20
        + length w.min_key
        + length w.max_key
        + length (encode_index w.index)
        + length (marshal w.bloom_filter)
unfolding footer_fields
length-footer_fields w =
    rw
      (
        length-append (le_bytes 4 w.num_entries) _,
        length-append (sized w.min_key) _,
        length-append (sized w.max_key) _,
        length-append (le_bytes 4 (length w.index)) _,
        length-append (encode_index w.index) _,
      )
      (omega (
        arith,
        length-le_bytes 4 w.num_entries,
        length-sized w.min_key,
        length-sized w.max_key,
        length-le_bytes 4 (length w.index),
        length-sized (marshal w.bloom_filter),
      ))

-- The index is longer than it has entries, and than any of its keys.
length-encode_index :
    (is : List IndexEntry) (n : ℕ)
    → length (encode_index is) ≤ n
    → (length is ≤ n) × All (λ (i : IndexEntry). length i.0 ≤ n) is
unfolding encode_index
length-encode_index [] n h = (omega arith, tt)
length-encode_index ((key, offset) ∷ is) n h =
    let whole =
      length-append (sized key) (le_bytes 8 offset ++ encode_index is)
      ∙ ap (λ m. length (sized key) + m) (length-append (le_bytes 8 offset) (encode_index is)) in
    let (few, short) =
      length-encode_index is (n - 1)
        (omega (arith, whole, h, length-le_bytes 8 offset, length-sized key)) in
    (
      omega (arith, few, whole, h, length-le_bytes 8 offset),
      (omega (arith, whole, h, length-sized key), All-imp (λ i q. omega (arith, q)) is short),
    )

both :
    (is : List IndexEntry) (m n : ℕ)
    → All (λ (i : IndexEntry). length i.0 ≤ m) is
    → All (λ (i : IndexEntry). i.1 ≤ n) is
    → m < byte_range 4
    → n < byte_range 4
    → All IndexFits is
both [] m n a b c d = tt
both (i ∷ is) m n a b c d =
    ((omega (arith, a.0, c), omega (arith, b.0, d)), both is m n a.1 b.1 c d)

written-FooterFits :
    (w : Writer) → Placed w → length (finalize_with_footer w).file < byte_range 4 → FooterFits w
unfolding finalize_with_footer finalize footer
written-FooterFits w p small =
    let whole =
      length-append w.file (footer_fields w ++ le_bytes 4 (length (footer_fields w)))
      ∙ ap (λ m. length w.file + m)
          (length-append (footer_fields w) (le_bytes 4 (length (footer_fields w)))) in
    let fields = length-footer_fields w in
    let (few, short) =
      length-encode_index w.index (length (footer_fields w)) (omega (arith, fields)) in
    let fits : length (footer_fields w) < byte_range 4 = omega (arith, whole, small) in
    record {
      entries_fit = omega (arith, whole, small, p.counted);
      min_fits = omega (arith, fields, fits);
      max_fits = omega (arith, fields, fits);
      index_fits = omega (arith, few, fits);
      all_fit =
          both w.index (length (footer_fields w)) (length w.file) short p.behind fits
            (omega (arith, whole, small));
      bloom_fits = omega (arith, fields, fits);
      footer_fits = fits;
    }

filter_read_back : (bf : BloomFilter) → Shape 100000 3 100000 bf → unmarshal (marshal bf) ≡ some bf
filter_read_back bf s =
    unmarshal-marshal bf (omega (arith, s.size_is)) (omega (arith, s.hashes_are))
      (omega (arith, s.bits_are))

-- How long the file of a writer is
pub length-written :
    (index_interval : ℕ) (es : List Entry)
    → let w = write_all index_interval es new_writer in
      length (finalize_with_footer w).file
      ≡ length w.file + length w.min_key + length w.max_key + length (encode_index w.index) + 12532
unfolding finalize_with_footer finalize footer marshal
length-written index_interval es =
    let w = write_all index_interval es new_writer in
    let p = write_all-Placed index_interval es new_writer new_writer-Placed in
    let bf = w.bloom_filter in
    let fields = footer_fields w in
    let packed = pack (byte_count bf) bf.bits in
    omega (
      arith,
      length-append w.file (fields ++ le_bytes 4 (length fields)),
      length-append fields (le_bytes 4 (length fields)),
      length-le_bytes 4 (length fields),
      length-footer_fields w,
      length-append (le_bytes 4 bf.size) (le_bytes 4 bf.num_hashes ++ packed),
      length-append (le_bytes 4 bf.num_hashes) packed,
      length-le_bytes 4 bf.size,
      length-le_bytes 4 bf.num_hashes,
      length-pack (byte_count bf) bf.bits,
      p.filter.bits_are,
    )

-- OpenSSTable on a file shorter than 4 GiB that the writer has written gives the table that
-- Finalize has returned.
pub open_table-write_all :
    (index_interval : ℕ) (es : List Entry)
    → let t = finalize_with_footer (write_all index_interval es new_writer) in
      length t.file < byte_range 4 → open_table t.file ≡ opened t
open_table-write_all index_interval es small =
    let w = write_all index_interval es new_writer in
    let p = write_all-Placed index_interval es new_writer new_writer-Placed in
    open_table-finalize w (written-FooterFits w p small) (filter_read_back w.bloom_filter p.filter)
      p.offset
