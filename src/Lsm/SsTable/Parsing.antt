-- ===== src/Lsm/SsTable/Parsing.antt =====
-- The footer of pkg/lsm/sstable.go reads back from its bytes.
use laura_db.Prelude.{
  ℕ, ◌+◌, ◌-◌, ◌<◌, ◌≡◌, refl, ap, sym, ◌∙◌, some, List, [], ◌∷◌, ◌++◌, append_assoc, append-nil,
  length, length-append, drop, drop_front, ltb, All, arith, false,
}
use laura_db.Storage.Bytes.{le_bytes, byte_range, length-le_bytes, le_value-le_bytes}
use laura_db.Lsm.Bloom.Marshal.{marshal, unmarshal}
use laura_db.Lsm.SsTable.{IndexEntry, Writer, Outcome, done, ◌>>=◌, read_full, finalize}
use laura_db.Lsm.SsTable.Entries.{read_full-append, take_field}
use laura_db.Lsm.SsTable.Footer.{
  sized, encode_index, footer_fields, footer, finalize_with_footer, read_sized, read_index,
  read_footer, opened, with_footer, open_footer, open_table,
}

read_sized-sized :
    (xs rest : List ℕ) → length xs < byte_range 4 → read_sized (sized xs ++ rest) ≡ done (xs, rest)
unfolding read_sized sized
read_sized-sized xs rest h =
    rw
      (
        take_field 4 (le_bytes 4 (length xs)) xs rest _ (length-le_bytes 4 _),
        le_value-le_bytes 4 (length xs) h,
      )
      (read_full-append (length xs) xs rest refl)

-- A field with its length, and the fields behind it
take_sized :
    {A : Type 0} (xs ys rest : List ℕ) (f : List ℕ × List ℕ → Outcome A)
    → length xs < byte_range 4
    → (read_sized ((sized xs ++ ys) ++ rest) >>= f) ≡ f (xs, ys ++ rest)
unfolding ◌>>=◌
take_sized xs ys rest f h =
    rw (append_assoc (sized xs) ys rest, read_sized-sized xs (ys ++ rest) h) refl

abbrev pub IndexFits : IndexEntry → Type 0
IndexFits i = (length i.0 < byte_range 4) × (i.1 < byte_range 8)

read_index-encode_index :
    (is : List IndexEntry) (rest : List ℕ)
    → All IndexFits is
    → read_index (length is) (encode_index is ++ rest) ≡ done (is, rest)
unfolding read_index encode_index ◌>>=◌
read_index-encode_index [] rest h = refl
read_index-encode_index ((key, offset) ∷ is) rest h =
    rw
      (
        take_sized key _ rest _ h.0.0,
        take_field 8 (le_bytes 8 offset) _ rest _ (length-le_bytes 8 _),
        le_value-le_bytes 8 offset h.0.1,
        read_index-encode_index is rest h.1,
      )
      refl

-- The fields of the footer fit their places.
pub record FooterFits (w : Writer) : Type 0 where
  pub entries_fit : w.num_entries < byte_range 4
  pub min_fits : length w.min_key < byte_range 4
  pub max_fits : length w.max_key < byte_range 4
  pub index_fits : length w.index < byte_range 4
  pub all_fit : All IndexFits w.index
  pub bloom_fits : length (marshal w.bloom_filter) < byte_range 4
  pub footer_fits : length (footer_fields w) < byte_range 4

read_footer-footer_fields :
    (w : Writer) (rest : List ℕ)
    → FooterFits w
    → read_footer (footer_fields w ++ rest)
      ≡ done (record {
        num_entries = w.num_entries;
        min_key = w.min_key;
        max_key = w.max_key;
        index = w.index;
        bloom_data = marshal w.bloom_filter;
      })
unfolding read_footer footer_fields ◌>>=◌
read_footer-footer_fields w rest f =
    rw
      (
        take_field 4 (le_bytes 4 w.num_entries) _ rest _ (length-le_bytes 4 _),
        le_value-le_bytes 4 w.num_entries f.entries_fit,
        take_sized w.min_key _ rest _ f.min_fits,
        take_sized w.max_key _ rest _ f.max_fits,
        take_field 4 (le_bytes 4 (length w.index)) _ rest _ (length-le_bytes 4 _),
        le_value-le_bytes 4 (length w.index) f.index_fits,
        append_assoc (encode_index w.index) (sized (marshal w.bloom_filter)) rest,
        read_index-encode_index w.index (sized (marshal w.bloom_filter) ++ rest) f.all_fit,
        read_sized-sized (marshal w.bloom_filter) rest f.bloom_fits,
      )
      refl

-- OpenSSTable gives back the table that Finalize has returned.
pub open_table-finalize :
    (w : Writer)
    → FooterFits w
    → unmarshal (marshal w.bloom_filter) ≡ some w.bloom_filter
    → w.current_offset ≡ length w.file
    → open_table (finalize_with_footer w).file ≡ opened (finalize_with_footer w)
unfolding open_table open_footer with_footer finalize_with_footer finalize footer
open_table-finalize w f filter placed =
    let fields = footer_fields w in
    let last = le_bytes 4 (length fields) in
    let file = w.file ++ (fields ++ last) in
    let four : length last ≡ 4 = length-le_bytes 4 (length fields) in
    let long : length file ≡ length w.file + (length fields + 4) =
      length-append w.file (fields ++ last)
      ∙ ap (λ n. length w.file + n)
          (length-append fields last ∙ ap (λ n. length fields + n) four) in
    let enough : ltb (length file) 4 ≡ false = ground (arith, long) in
    let at_size : read_full 4 (drop (length file - 4) file) ≡ done (last, []) =
      ap (read_full 4) (
        ap (drop (length file - 4)) (sym (append_assoc w.file fields last))
        ∙ drop_front (length file - 4) (w.file ++ fields) last
            (omega (arith, long, length-append w.file fields))
        ∙ sym (append-nil last))
      ∙ read_full-append 4 last [] four in
    let inside : ltb (length file) (length fields + 4) ≡ false = ground (arith, long) in
    let start : length file - (length fields + 4) ≡ length w.file = omega (arith, long) in
    let at_fields : drop (length w.file) file ≡ fields ++ last =
      drop_front (length w.file) w.file (fields ++ last) refl in
    rw
      (
        enough,
        at_size,
        le_value-le_bytes 4 (length fields) f.footer_fits,
        inside,
        start,
        at_fields,
        read_footer-footer_fields w last f,
        filter,
        with_footer,
      )
      (ap (λ n. opened (record (finalize_with_footer w) { data_end = n }))
        (omega (arith, long, le_value-le_bytes 4 (length fields) f.footer_fits, placed)))
