-- ===== src/Storage/Wal/Recovery.antt =====
-- pkg/storage/wal.go: Replay gives back what was appended, and what a torn end of the file does to
-- it.
use laura_db.Prelude.{
  ℕ, zero, suc, ◌+◌, ◌<◌, ◌≤◌, ◌≡◌, ◌≢◌, ◌∙◌, refl, ap, sym, List, [], ◌∷◌, ◌++◌, length, take,
  drop, arith, All, length-append, length-take, length-drop, append_assoc, append-nil,
}
use laura_db.Storage.Bytes.{u32}
use laura_db.Storage.Page.{Result, ok, err, ◌>>=◌, record_truncated, out_of_fuel}
use laura_db.Storage.Wal.{LogRecord, Wal, serialize_record, deserialize_record, replay, replay_from}
use laura_db.Storage.Wal.Records.{
  IsLoggable, length-serialize_record, data_len-serialize_record, replay_from-record, u32-take,
}

-- The bytes of a log of these records.
unfoldable pub encode : List LogRecord → List ℕ
encode [] = []
encode (r ∷ rs) = serialize_record r ++ encode rs

pub encode-append : (rs ss : List LogRecord) → encode (rs ++ ss) ≡ encode rs ++ encode ss
unfolding encode
encode-append [] ss = refl
encode-append (r ∷ rs) ss =
    ap (λ b. serialize_record r ++ b) (encode-append rs ss)
    ∙ sym (append_assoc (serialize_record r) (encode rs) (encode ss))

length-encode : (rs : List LogRecord) → length rs ≤ length (encode rs)
unfolding encode
length-encode [] = omega arith
length-encode (r ∷ rs) = omega (
  arith,
  length-encode rs,
  length-serialize_record r,
  length-append {0} (serialize_record r) (encode rs),
)

replay_from-encode :
    (fuel : ℕ) (rs : List LogRecord) (tail : List ℕ) (out : Result (List LogRecord))
    → All IsLoggable rs
    → ((k : ℕ) → replay_from (suc k) tail ≡ out)
    → length rs < fuel
    → replay_from fuel (encode rs ++ tail) ≡ (out >>= λ ts. ok (rs ++ ts))
unfolding encode ◌>>=◌
replay_from-encode zero rs tail out a e h = absurd (omega arith)
replay_from-encode (suc fuel) [] tail (ok ts) a e h = e fuel
replay_from-encode (suc fuel) [] tail (err x) a e h = e fuel
replay_from-encode (suc fuel) (r ∷ rs) tail out (s, a) e h =
    ap (replay_from (suc fuel)) (append_assoc (serialize_record r) (encode rs) tail)
    ∙ replay_from-record fuel r (encode rs ++ tail) s
    ∙ rw (replay_from-encode fuel rs tail out a e (omega arith)) (ground arith)

pub replay-encode :
    (w : Wal) (rs : List LogRecord) (tail : List ℕ) (out : Result (List LogRecord))
    → w.file ≡ encode rs ++ tail
    → All IsLoggable rs
    → ((k : ℕ) → replay_from (suc k) tail ≡ out)
    → replay w ≡ (out >>= λ ts. ok (rs ++ ts))
unfolding replay
replay-encode w rs tail out f a e =
    ap (λ b. replay_from (suc (length b)) b) f
    ∙ replay_from-encode (suc (length (encode rs ++ tail))) rs tail out a e
        (omega (arith, length-encode rs, length-append {0} (encode rs) tail))

pub replay_from-short :
    (k : ℕ) (tail : List ℕ) → length tail < 33 → replay_from (suc k) tail ≡ ok []
unfolding replay_from
replay_from-short k tail h = ground arith

-- A crash in the middle of the last write, after the header was written.
replay_from-torn :
    (k m : ℕ) (r : LogRecord)
    → IsLoggable r
    → 33 ≤ m
    → m < 33 + length r.contents
    → replay_from (suc k) (take m (serialize_record r)) ≡ err record_truncated
unfolding replay_from
replay_from-torn k m r s h l =
    let b = serialize_record r in
    let size : length (take m b) ≡ m = length-take m b (omega (arith, length-serialize_record r)) in
    let data_len : u32 29 (take 33 (take m b)) ≡ length r.contents =
      u32-take 29 33 (take m b) (omega arith)
      ∙ u32-take 29 m b (omega arith)
      ∙ data_len-serialize_record r s in
    rw data_len (ground (arith, size, s.contents_fit, length-drop 33 (take m b)))

-- Replay of a log whose last write was cut short by a crash. If fewer than the 33 bytes of a header
-- were written, it returns the records before; if the header was written, but not all of the data,
-- it fails and returns none of them.
pub replay-torn :
    (rs : List LogRecord) (short : List ℕ) (m : ℕ) (r : LogRecord) (lsn : ℕ)
    → All IsLoggable rs
    → IsLoggable r
    → length short < 33
    → 33 ≤ m
    → m < 33 + length r.contents
    → (replay (record { file = encode rs ++ short; current_lsn = lsn }) ≡ ok rs)
      × (replay (record { file = encode rs ++ take m (serialize_record r); current_lsn = lsn })
          ≡ err record_truncated)
unfolding ◌>>=◌
replay-torn rs short m r lsn a s h k l = (
  replay-encode _ rs short (ok []) refl a (λ k. replay_from-short k short h)
      ∙ ap ok (append-nil rs),
  replay-encode _ rs (take m (serialize_record r)) (err record_truncated) refl a
      (λ k'. replay_from-torn k' m r s k l),
)

deserialize_record-fuel : (b : List ℕ) → deserialize_record b ≢ err out_of_fuel
unfolding deserialize_record
deserialize_record-fuel b = ground arith

replay_from-fuel :
    (fuel : ℕ) (rest : List ℕ) → length rest < fuel → replay_from fuel rest ≢ err out_of_fuel
unfolding replay_from ◌>>=◌
replay_from-fuel zero rest h = absurd (omega arith)
replay_from-fuel (suc fuel) rest h =
    let n = u32 29 (take 33 rest) in
    ground (
      arith,
      length-drop 33 rest,
      length-drop n (drop 33 rest),
      deserialize_record-fuel (take 33 rest ++ take n (drop 33 rest)),
      replay_from-fuel fuel (drop n (drop 33 rest)),
    )

-- Replay ends on every file, whatever its bytes are: the rounds allowed are enough.
pub replay-fuel : (w : Wal) → replay w ≢ err out_of_fuel
unfolding replay
replay-fuel w = replay_from-fuel (suc (length w.file)) w.file (omega arith)
