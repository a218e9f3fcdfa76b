-- ===== src/Storage/Wal.antt =====
-- pkg/storage/wal.go: the write-ahead log. The log file is the list of its bytes; it is opened with
-- O_APPEND, so that every write goes to its end. The calls of the file do not fail, and a read of a
-- regular file is short only at its end. The mutex makes each operation atomic.
pub mod Records
pub mod Recovery
pub mod Session
use laura_db.Prelude.{
  ℕ, zero, suc, ◌+◌, ◌-◌, ◌%◌, List, [], ◌∷◌, ◌++◌, length, take, drop, ltb, leb, if◌then◌else◌,
  true, false,
}
use laura_db.Storage.Bytes.{zeros, copy_at, slice, le_bytes, le_value, byte_range, u32}
use laura_db.Storage.Page.{
  Result, ok, err, ◌>>=◌, record_too_short, record_truncated, out_of_range, out_of_fuel,
}

-- The constants of LogRecordType.
abbrev pub log_record_insert : ℕ
log_record_insert = 0

abbrev pub log_record_update : ℕ
log_record_update = 1

abbrev pub log_record_delete : ℕ
log_record_delete = 2

abbrev pub log_record_checkpoint : ℕ
log_record_checkpoint = 3

abbrev pub log_record_commit : ℕ
log_record_commit = 4

abbrev pub log_record_abort : ℕ
log_record_abort = 5

pub record LogRecord : Type 0 where
  pub lsn : ℕ
  pub record_type : ℕ
  pub txn_id : ℕ
  pub page_id : ℕ
  pub contents : List ℕ
  pub prev_lsn : ℕ

pub record Wal : Type 0 where
  pub file : List ℕ
  pub current_lsn : ℕ

-- The LSN starts at the length of the file.
unfoldable pub new_wal : List ℕ → Wal
new_wal file = record { file = file; current_lsn = length file % byte_range 8 }

unfoldable pub serialize_record : LogRecord → List ℕ
serialize_record r =
    let data_len = length r.contents in
    let buf = zeros (33 + data_len) in
    let buf = copy_at 0 (le_bytes 8 r.lsn) buf in
    let buf = copy_at 8 (le_bytes 1 r.record_type) buf in
    let buf = copy_at 9 (le_bytes 8 r.txn_id) buf in
    let buf = copy_at 17 (le_bytes 4 r.page_id) buf in
    let buf = copy_at 21 (le_bytes 8 r.prev_lsn) buf in
    let buf = copy_at 29 (le_bytes 4 data_len) buf in copy_at 33 r.contents buf

-- `33 + dataLen` is a sum of type uint32 in the slice; where it wraps the slice is out of range.
unfoldable pub deserialize_record : List ℕ → Result LogRecord
deserialize_record b =
    let data_len = u32 29 b in
    if ltb (length b) 33
    then err record_too_short
    else if ltb (length b) (33 + data_len)
    then err record_truncated
    else if leb (byte_range 4) (33 + data_len)
    then err out_of_range
    else ok (record {
      lsn = le_value (slice 0 8 b);
      record_type = le_value (slice 8 1 b);
      txn_id = le_value (slice 9 8 b);
      page_id = u32 17 b;
      contents = slice 33 data_len b;
      prev_lsn = le_value (slice 21 8 b);
    })

-- The new log and the record with its LSN, which Append writes to the caller's record and returns.
unfoldable pub append : LogRecord → Wal → Wal × LogRecord
append r w =
    let lsn = (w.current_lsn + 1) % byte_range 8 in
    let r = record r { lsn = lsn } in
    (record { file = w.file ++ serialize_record r; current_lsn = lsn }, r)

-- The loop of Replay over the rest of the file. Each round takes at least 33 bytes.
unfoldable pub replay_from : ℕ → List ℕ → Result (List LogRecord)
replay_from zero rest = err out_of_fuel
replay_from (suc fuel) rest =
    let header = take 33 rest in
    let data_len = u32 29 header in
    let body = drop 33 rest in
    let full = header ++ take data_len body in
    let next = deserialize_record full >>= λ r.
    replay_from fuel (drop data_len body) >>= λ rs. ok (r ∷ rs) in
    if ltb (length rest) 33
    then ok []
    else if leb (byte_range 4) (33 + data_len)
    then err out_of_range
    else if ltb (length body) data_len
    then err record_truncated
    else next

unfoldable pub replay : Wal → Result (List LogRecord)
replay w = replay_from (suc (length w.file)) w.file

unfoldable pub checkpoint : Wal → Wal
checkpoint w =
    (append
      (record {
        lsn = 0;
        record_type = log_record_checkpoint;
        txn_id = 0;
        page_id = 0;
        contents = [];
        prev_lsn = 0;
      })
      w).0

-- Truncate is not implemented yet in the source: it leaves the log as it is.
unfoldable pub truncate : ℕ → Wal → Wal
truncate before_lsn w = w
