-- ===== src/Lsm/Merge/Iteration.antt =====
-- The iterator of pkg/lsm/sstable.go on a table that the writer made.
use laura_db.Prelude.{
  ℕ, zero, suc, ◌+◌, ◌-◌, ◌<◌, ◌≡◌, ◌≢◌, refl, ap, true, false, List, [], ◌∷◌, ◌++◌, append_assoc,
  length, length-append, All, arith, leb,
}
use laura_db.Lsm.SsTable.{Entry, new_writer, encode_entry, write_all, finalize}
use laura_db.Lsm.SsTable.Entries.{Fits, encode_all, read_entry-encode_entry, length-encode_entry}
use laura_db.Lsm.SsTable.Writing.{write_all-Written}
use laura_db.Lsm.Merge.{iterate, table_entries}

iterate-encode_all :
    (fuel data_end pos : ℕ) (es : List Entry) (footer : List ℕ)
    → All Fits es
    → data_end ≡ pos + length (encode_all es)
    → length (encode_all es) < fuel
    → iterate fuel data_end pos (encode_all es ++ footer) ≡ es
unfolding iterate encode_all
iterate-encode_all zero data_end pos es footer f h k = absurd (omega arith)
iterate-encode_all (suc fuel) data_end pos [] footer f h k =
    let past : leb data_end pos ≡ true = ground (arith, h) in rw past refl
iterate-encode_all (suc fuel) data_end pos (e ∷ es) footer f h k =
    let split = length-append (encode_entry e) (encode_all es) in
    let long = length-encode_entry e in
    let within : leb data_end pos ≡ false = ground (arith, h, split, long) in
    let moved : pos + (length (encode_all (e ∷ es) ++ footer) - length (encode_all es ++ footer))
        ≡ pos + length (encode_entry e) =
      omega (
        arith,
        length-append (encode_all (e ∷ es)) footer,
        length-append (encode_all es) footer,
        split,
      ) in
    let read = read_entry-encode_entry e (encode_all es ++ footer) f.0 in
    let assoc = append_assoc (encode_entry e) (encode_all es) footer in
    rw (within, assoc, read, moved)
      (ap (◌∷◌ e) (
        iterate-encode_all fuel data_end (pos + length (encode_entry e)) es footer f.1
          (omega (arith, split)) (omega (arith, split, long))))

-- The iterator of the table that the writer makes of entries with non-empty keys that fit their
-- fields gives these entries in their order.
pub table_entries-write_all :
    (footer : List ℕ) (index_interval : ℕ) (es : List Entry)
    → 0 < index_interval
    → All (λ e. e.key ≢ []) es
    → All Fits es
    → table_entries (finalize footer (write_all index_interval es new_writer)) ≡ es
unfolding table_entries finalize
table_entries-write_all footer n es pos keys f =
    let wr = write_all-Written n es pos keys in
    rw (wr.file_is, wr.offset_is)
      (iterate-encode_all _ (length (encode_all es)) 0 es footer f (omega arith)
        (omega (arith, length-append (encode_all es) footer)))
