-- ===== src/Storage/Wal/Session.antt =====
-- pkg/storage/wal.go: a log over any sequence of calls and of restarts.
use laura_db.Prelude.{
  ℕ, ◌+◌, ◌%◌, ◌<◌, ◌≤◌, ◌≡◌, ◌∙◌, refl, ap, sym, List, [], ◌∷◌, ◌++◌, length, arith, All,
  length-append, append_assoc, append-nil, subst,
}
use laura_db.Storage.Bytes.{byte_range}
use laura_db.Storage.Page.{ok, ◌>>=◌}
use laura_db.Storage.Wal.{
  LogRecord, Wal, new_wal, serialize_record, append, checkpoint, truncate, replay,
  log_record_checkpoint,
}
use laura_db.Storage.Wal.Records.{IsLoggable, length-serialize_record}
use laura_db.Storage.Wal.Recovery.{encode, encode-append, replay-encode, replay_from-short}

pub data Call : Type 0 where
  appends : LogRecord → Call
  checkpoints : Call
  truncates : ℕ → Call
  -- The program ends and NewWAL opens the file again.
  reopens : Call

abbrev checkpoint_record : LogRecord
checkpoint_record = record {
  lsn = 0;
  record_type = log_record_checkpoint;
  txn_id = 0;
  page_id = 0;
  contents = [];
  prev_lsn = 0;
}

-- The new log, and the records that the call has written.
unfoldable pub step : Call → Wal → Wal × List LogRecord
step (appends r) w = ((append r w).0, (append r w).1 ∷ [])
step checkpoints w = (checkpoint w, (append checkpoint_record w).1 ∷ [])
step (truncates before) w = (truncate before w, [])
step reopens w = (new_wal w.file, [])

unfoldable pub run : List Call → Wal → Wal × List LogRecord
run [] w = (w, [])
run (c ∷ cs) w = let (w', out) = step c w in let (w'', out') = run cs w' in (w'', out ++ out')

-- A record for Append, whose LSN does not matter.
abbrev pub Fits : Call → Type 0
Fits (appends r) = IsLoggable (record r { lsn = 0 })
Fits _ = Unit

-- The LSNs rise strictly, from above `lo` to at most `hi`.
abbrev pub Rises : ℕ → List LogRecord → ℕ → Type 0
Rises lo [] hi = lo ≤ hi
Rises lo (r ∷ rs) hi = (lo < r.lsn) × Rises r.lsn rs hi

Rises-weaken :
    (lo : ℕ) (rs : List LogRecord) (hi hi' : ℕ) → Rises lo rs hi → hi ≤ hi' → Rises lo rs hi'
Rises-weaken lo [] hi hi' h k = omega arith
Rises-weaken lo (r ∷ rs) hi hi' (h, t) k = (h, Rises-weaken r.lsn rs hi hi' t k)

Rises-snoc :
    (lo : ℕ) (rs : List LogRecord) (hi : ℕ) (r : LogRecord)
    → Rises lo rs hi
    → hi < r.lsn
    → Rises lo (rs ++ (r ∷ [])) r.lsn
Rises-snoc lo [] hi r h k = (omega arith, omega arith)
Rises-snoc lo (s ∷ rs) hi r (h, t) k = (h, Rises-snoc s.lsn rs hi r t k)

All-snoc :
    (rs : List LogRecord) (r : LogRecord)
    → All IsLoggable rs
    → IsLoggable r
    → All IsLoggable (rs ++ (r ∷ []))
All-snoc [] r a s = (s, tt)
All-snoc (x ∷ rs) r (h, a) s = (h, All-snoc rs r a s)

-- The log file holds the records `rs`.
pub record Inv (w : Wal) (rs : List LogRecord) : Type 0 where
  pub holds : w.file ≡ encode rs
  pub loggable : All IsLoggable rs
  pub rises : Rises 0 rs w.current_lsn
  pub behind : w.current_lsn ≤ length w.file

append-Inv :
    (r : LogRecord) (w : Wal) (rs : List LogRecord)
    → Inv w rs
    → IsLoggable (record r { lsn = 0 })
    → length (append r w).0.file < byte_range 8
    → Inv (append r w).0 (rs ++ ((append r w).1 ∷ []))
unfolding append encode
append-Inv r w rs i s h =
    let lsn = (w.current_lsn + 1) % byte_range 8 in
    let r' = record r { lsn = lsn } in
    let size : length (w.file ++ serialize_record r') ≡ length w.file + (33 + length r.contents) =
      omega (arith, length-append {0} w.file (serialize_record r'), length-serialize_record r') in
    let next : lsn ≡ w.current_lsn + 1 = omega (arith, i.behind, size) in
    let s' : IsLoggable r' = record {
      lsn_fits = omega (arith, i.behind, size);
      type_fits = s.type_fits;
      txn_fits = s.txn_fits;
      page_fits = s.page_fits;
      prev_fits = s.prev_fits;
      contents_fit = s.contents_fit;
    } in
    record {
      holds =
          ap (λ b. b ++ serialize_record r') i.holds
          ∙ ap (λ b. encode rs ++ b) (sym (append-nil (serialize_record r')))
          ∙ sym (encode-append rs (r' ∷ []));
      loggable = All-snoc rs r' i.loggable s';
      rises = Rises-snoc 0 rs w.current_lsn r' i.rises (omega (arith, next));
      behind = omega (arith, next, size, i.behind);
    }

length-step : (c : Call) (w : Wal) → length w.file ≤ length (step c w).0.file
unfolding step append checkpoint truncate new_wal
length-step (appends r) w = omega (
  arith,
  length-append {0} w.file
      (serialize_record (record r { lsn = (w.current_lsn + 1) % byte_range 8 })),
)
length-step checkpoints w = omega (
  arith,
  length-append {0} w.file
      (serialize_record (record checkpoint_record { lsn = (w.current_lsn + 1) % byte_range 8 })),
)
length-step (truncates before) w = omega arith
length-step reopens w = omega arith

length-run : (cs : List Call) (w : Wal) → length w.file ≤ length (run cs w).0.file
unfolding run
length-run [] w = omega arith
length-run (c ∷ cs) w = omega (arith, length-step c w, length-run cs (step c w).0)

step-Inv :
    (c : Call) (w : Wal) (rs : List LogRecord)
    → Inv w rs
    → Fits c
    → length (step c w).0.file < byte_range 8
    → Inv (step c w).0 (rs ++ (step c w).1)
unfolding step checkpoint truncate new_wal
step-Inv (appends r) w rs i f h = append-Inv r w rs i f h
step-Inv checkpoints w rs i f h =
    append-Inv checkpoint_record w rs i
      (record {
        lsn_fits = omega arith;
        type_fits = omega arith;
        txn_fits = omega arith;
        page_fits = omega arith;
        prev_fits = omega arith;
        contents_fit = omega arith;
      })
      h
step-Inv (truncates before) w rs i f h = subst (Inv w) (sym (append-nil rs)) i
step-Inv reopens w rs i f h =
    let size : length w.file % byte_range 8 ≡ length w.file = omega arith in
    subst (Inv (new_wal w.file)) (sym (append-nil rs)) (record {
      holds = i.holds;
      loggable = i.loggable;
      rises =
          Rises-weaken 0 rs w.current_lsn (length w.file % byte_range 8) i.rises
            (omega (arith, size, i.behind));
      behind = omega (arith, size);
    })

run-Inv :
    (cs : List Call) (w : Wal) (rs : List LogRecord)
    → Inv w rs
    → All Fits cs
    → length (run cs w).0.file < byte_range 8
    → Inv (run cs w).0 (rs ++ (run cs w).1)
unfolding run
run-Inv [] w rs i f h = subst (Inv w) (sym (append-nil rs)) i
run-Inv (c ∷ cs) w rs i (f, fs) h =
    let w' = (step c w).0 in
    subst (Inv (run cs w').0) (append_assoc rs (step c w).1 (run cs w').1) (
      run-Inv cs w' (rs ++ (step c w).1) (step-Inv c w rs i f (omega (arith, length-run cs w'))) fs
        h)

-- A log that starts empty, after any calls of Append, Checkpoint and Truncate and any restarts:
-- Replay succeeds and returns exactly the records that were written, in their order, and their LSNs
-- rise strictly, across restarts too. Each record fits the format, and the file stays below 2 ^ 64
-- bytes.
pub replay-run :
    (cs : List Call)
    → All Fits cs
    → length (run cs (new_wal [])).0.file < byte_range 8
    → (replay (run cs (new_wal [])).0 ≡ ok (run cs (new_wal [])).1)
      × Rises 0 (run cs (new_wal [])).1 (run cs (new_wal [])).0.current_lsn
unfolding ◌>>=◌
replay-run cs f h =
    let start : Inv (new_wal []) [] =
      unfold new_wal encode in
      record { holds = refl; loggable = tt; rises = omega arith; behind = omega arith } in
    let i = run-Inv cs (new_wal []) [] start f h in
    let (w, rs) = run cs (new_wal []) in
    (
      replay-encode w rs [] (ok []) (i.holds ∙ sym (append-nil (encode rs))) i.loggable
            (λ k. replay_from-short k [] (omega arith))
          ∙ ap ok (append-nil rs),
      i.rises,
    )
