-- ===== src/Storage/Wal/Records.antt =====
-- pkg/storage/wal.go: a record that is written is the record that is read.
use laura_db.Prelude.{
  ℕ, zero, suc, ◌+◌, ◌<◌, ◌≤◌, ◌≡◌, ◌∙◌, refl, ap, List, [], ◌∷◌, ◌++◌, length, take, drop, arith,
  length-append, length-drop, take-append, drop-append, take_all, drop_all, append-take_rest, ap₂,
}
use laura_db.Storage.Bytes.{
  slice, le_bytes, le_value, byte_range, u32, length-zeros, length-le_bytes, le_value-le_bytes,
  length-copy_at, slice-copy_at_self, slice-copy_at_before,
}
use laura_db.Storage.Page.{ok, ◌>>=◌}
use laura_db.Storage.Wal.{LogRecord, serialize_record, deserialize_record, replay_from}

-- The fields fit the bytes that the format has for them, the whole record a length of four bytes.
pub record IsLoggable (r : LogRecord) : Type 0 where
  pub lsn_fits : r.lsn < byte_range 8
  pub type_fits : r.record_type < byte_range 1
  pub txn_fits : r.txn_id < byte_range 8
  pub page_fits : r.page_id < byte_range 4
  pub prev_fits : r.prev_lsn < byte_range 8
  pub contents_fit : 33 + length r.contents < byte_range 4

pub length-serialize_record : (r : LogRecord) → length (serialize_record r) ≡ 33 + length r.contents
unfolding serialize_record
length-serialize_record r =
    length-copy_at 33 _ _
    ∙ length-copy_at 29 _ _
    ∙ length-copy_at 21 _ _
    ∙ length-copy_at 17 _ _
    ∙ length-copy_at 9 _ _
    ∙ length-copy_at 8 _ _
    ∙ length-copy_at 0 _ _
    ∙ length-zeros (33 + length r.contents)

module _ (r : LogRecord) where
  abbrev size : ℕ
  size = 33 + length r.contents

  pub lsn-serialize_record : slice 0 8 (serialize_record r) ≡ le_bytes 8 r.lsn
  unfolding serialize_record
  lsn-serialize_record =
      slice-copy_at_before 33 0 8 _ _ (omega arith)
      ∙ slice-copy_at_before 29 0 8 _ _ (omega arith)
      ∙ slice-copy_at_before 21 0 8 _ _ (omega arith)
      ∙ slice-copy_at_before 17 0 8 _ _ (omega arith)
      ∙ slice-copy_at_before 9 0 8 _ _ (omega arith)
      ∙ slice-copy_at_before 8 0 8 _ _ (omega arith)
      ∙ slice-copy_at_self 0 8 _ _ (length-le_bytes 8 r.lsn) (omega (arith, length-zeros size))

  pub type-serialize_record : slice 8 1 (serialize_record r) ≡ le_bytes 1 r.record_type
  unfolding serialize_record
  type-serialize_record =
      slice-copy_at_before 33 8 1 _ _ (omega arith)
      ∙ slice-copy_at_before 29 8 1 _ _ (omega arith)
      ∙ slice-copy_at_before 21 8 1 _ _ (omega arith)
      ∙ slice-copy_at_before 17 8 1 _ _ (omega arith)
      ∙ slice-copy_at_before 9 8 1 _ _ (omega arith)
      ∙ slice-copy_at_self 8 1 _ _ (length-le_bytes 1 r.record_type)
          (omega (arith, length-zeros size, length-copy_at))

  pub txn-serialize_record : slice 9 8 (serialize_record r) ≡ le_bytes 8 r.txn_id
  unfolding serialize_record
  txn-serialize_record =
      slice-copy_at_before 33 9 8 _ _ (omega arith)
      ∙ slice-copy_at_before 29 9 8 _ _ (omega arith)
      ∙ slice-copy_at_before 21 9 8 _ _ (omega arith)
      ∙ slice-copy_at_before 17 9 8 _ _ (omega arith)
      ∙ slice-copy_at_self 9 8 _ _ (length-le_bytes 8 r.txn_id)
          (omega (arith, length-zeros size, length-copy_at))

  pub page-serialize_record : slice 17 4 (serialize_record r) ≡ le_bytes 4 r.page_id
  unfolding serialize_record
  page-serialize_record =
      slice-copy_at_before 33 17 4 _ _ (omega arith)
      ∙ slice-copy_at_before 29 17 4 _ _ (omega arith)
      ∙ slice-copy_at_before 21 17 4 _ _ (omega arith)
      ∙ slice-copy_at_self 17 4 _ _ (length-le_bytes 4 r.page_id)
          (omega (arith, length-zeros size, length-copy_at))

  pub prev-serialize_record : slice 21 8 (serialize_record r) ≡ le_bytes 8 r.prev_lsn
  unfolding serialize_record
  prev-serialize_record =
      slice-copy_at_before 33 21 8 _ _ (omega arith)
      ∙ slice-copy_at_before 29 21 8 _ _ (omega arith)
      ∙ slice-copy_at_self 21 8 _ _ (length-le_bytes 8 r.prev_lsn)
          (omega (arith, length-zeros size, length-copy_at))

  pub size-serialize_record : slice 29 4 (serialize_record r) ≡ le_bytes 4 (length r.contents)
  unfolding serialize_record
  size-serialize_record =
      slice-copy_at_before 33 29 4 _ _ (omega arith)
      ∙ slice-copy_at_self 29 4 _ _ (length-le_bytes 4 (length r.contents))
          (omega (arith, length-zeros size, length-copy_at))

  pub contents-serialize_record : slice 33 (length r.contents) (serialize_record r) ≡ r.contents
  unfolding serialize_record
  contents-serialize_record =
      slice-copy_at_self 33 (length r.contents) _ _ refl
        (omega (arith, length-zeros size, length-copy_at))

-- Reading back a field that was written in `w` bytes.
field : (w v : ℕ) {b : List ℕ} → b ≡ le_bytes w v → v < byte_range w → le_value b ≡ v
field w v e h = ap le_value e ∙ le_value-le_bytes w v h

pub data_len-serialize_record :
    (r : LogRecord) → IsLoggable r → u32 29 (serialize_record r) ≡ length r.contents
unfolding u32
data_len-serialize_record r s =
    field 4 (length r.contents) (size-serialize_record r) (omega (arith, s.contents_fit))

page_id-serialize_record : (r : LogRecord) → IsLoggable r → u32 17 (serialize_record r) ≡ r.page_id
unfolding u32
page_id-serialize_record r s = field 4 r.page_id (page-serialize_record r) s.page_fits

pub deserialize-serialize_record :
    (r : LogRecord) → IsLoggable r → deserialize_record (serialize_record r) ≡ ok r
unfolding deserialize_record
deserialize-serialize_record r s = ground (
  arith,
  s.contents_fit,
  length-serialize_record r,
  data_len-serialize_record r s,
  field 8 r.lsn (lsn-serialize_record r) s.lsn_fits,
  field 1 r.record_type (type-serialize_record r) s.type_fits,
  field 8 r.txn_id (txn-serialize_record r) s.txn_fits,
  page_id-serialize_record r s,
  field 8 r.prev_lsn (prev-serialize_record r) s.prev_fits,
  contents-serialize_record r,
)

slice-take : (off n m : ℕ) (b : List ℕ) → off + n ≤ m → slice off n (take m b) ≡ slice off n b
unfolding slice
slice-take zero zero m b h = refl
slice-take zero (suc n) zero b h = absurd (omega arith)
slice-take zero (suc n) (suc m) [] h = refl
slice-take zero (suc n) (suc m) (x ∷ b) h = ap (◌∷◌ x) (slice-take zero n m b (omega arith))
slice-take (suc off) n zero b h = absurd (omega arith)
slice-take (suc off) n (suc m) [] h = refl
slice-take (suc off) n (suc m) (x ∷ b) h = slice-take off n m b (omega arith)

pub u32-take : (off m : ℕ) (b : List ℕ) → off + 4 ≤ m → u32 off (take m b) ≡ u32 off b
unfolding u32
u32-take off m b h = ap le_value (slice-take off 4 m b h)

-- The parts that a round of Replay cuts out of a file that begins with a record.
pub header-serialize_record :
    (r : LogRecord) (rest : List ℕ)
    → IsLoggable r
    → u32 29 (take 33 (serialize_record r ++ rest)) ≡ length r.contents
header-serialize_record r rest s =
    ap (u32 29)
      (take-append 33 (serialize_record r) rest (omega (arith, length-serialize_record r)))
    ∙ u32-take 29 33 (serialize_record r) (omega arith)
    ∙ data_len-serialize_record r s

pub body-serialize_record :
    (r : LogRecord) (rest : List ℕ)
    → drop 33 (serialize_record r ++ rest) ≡ drop 33 (serialize_record r) ++ rest
body-serialize_record r rest =
    drop-append 33 (serialize_record r) rest (omega (arith, length-serialize_record r))

pub full-serialize_record :
    (r : LogRecord) (rest : List ℕ)
    → take 33 (serialize_record r ++ rest)
        ++ take (length r.contents) (drop 33 (serialize_record r ++ rest))
      ≡ serialize_record r
full-serialize_record r rest =
    let b = serialize_record r in
    let size : length (drop 33 b) ≡ length r.contents =
      omega (arith, length-serialize_record r, length-drop 33 b) in
    ap₂ ◌++◌ (take-append 33 b rest (omega (arith, length-serialize_record r))) (
      ap (take (length r.contents)) (body-serialize_record r rest)
      ∙ take-append (length r.contents) (drop 33 b) rest (omega arith)
      ∙ take_all (length r.contents) (drop 33 b) size)
    ∙ append-take_rest 33 b

pub rest-serialize_record :
    (r : LogRecord) (rest : List ℕ)
    → drop (length r.contents) (drop 33 (serialize_record r ++ rest)) ≡ rest
rest-serialize_record r rest =
    let b = serialize_record r in
    let size : length (drop 33 b) ≡ length r.contents =
      omega (arith, length-serialize_record r, length-drop 33 b) in
    ap (drop (length r.contents)) (body-serialize_record r rest)
    ∙ drop-append (length r.contents) (drop 33 b) rest (omega arith)
    ∙ ap (λ xs. xs ++ rest) (drop_all (length r.contents) (drop 33 b) size)

-- A round of Replay at a whole record.
pub replay_from-record :
    (fuel : ℕ) (r : LogRecord) (rest : List ℕ)
    → IsLoggable r
    → replay_from (suc fuel) (serialize_record r ++ rest)
      ≡ (replay_from fuel rest >>= λ rs. ok (r ∷ rs))
unfolding replay_from ◌>>=◌
replay_from-record fuel r rest s =
    let b = serialize_record r in
    let size : length (drop 33 (b ++ rest)) ≡ length r.contents + length rest =
      omega
        (arith, length-serialize_record r, length-drop 33 (b ++ rest), length-append {0} b rest) in
    rw
      (
        header-serialize_record r rest s,
        full-serialize_record r rest,
        rest-serialize_record r rest,
        deserialize-serialize_record r s,
      )
      (ground (arith, size, s.contents_fit, length-serialize_record r, length-append {0} b rest))
