-- ===== src/Storage/Tests.antt =====
-- Tests of pkg/storage at concrete pages, files and logs.
use laura_db.Prelude.{◌≤◌, ℕ, ◌≡◌, ◌≢◌, refl, ◌∙◌, List, [], ◌∷◌, ◌++◌, true, length, take, arith}
use laura_db.Storage.Bytes.{zeros, length-zeros, le_bytes, copy_at, copy}
use laura_db.Storage.Page.{
  Page, ok, err, invalid_page_size, record_truncated, out_of_fuel, new_page, serialize, deserialize,
}
use laura_db.Storage.Page.RoundTrip.{IsStorable, deserialize-serialize}
use laura_db.Storage.FreePage.{new_free_page_list, initialize_free_list_page}
use laura_db.Storage.FreePage.Stack.{
  IsFreeList, count_of, with_header, count-with_header, next-with_header, length-with_header,
}
use laura_db.Storage.DiskManager.{stats, DiskManager, write_block, allocate_page, deallocate_page}
use laura_db.Storage.DiskManager.FreeList.{Chain-put, IsFree, free_ids, allocate-free_ids}
use laura_db.Storage.DiskManager.Reuse.{below, Freed}
use laura_db.Storage.DiskManager.Lifo.{deallocate-Freed, allocate-deallocate, deallocate-zero}
use laura_db.Storage.Wal.{LogRecord, new_wal, replay, serialize_record, append, checkpoint}
use laura_db.Storage.Wal.Records.{IsLoggable}
use laura_db.Storage.Wal.Recovery.{encode, replay-torn, replay-fuel}
use laura_db.Storage.Wal.Session.{Call, appends, checkpoints, reopens, step, run, Rises, replay-run}

-- A page with its fields at the ends of their ranges.
abbrev page : Page
page = record {
  id = 4294967295;
  page_type = 1;
  flags = 255;
  lsn = 18446744073709551615;
  bytes = zeros 4080;
  is_dirty = true;
  pin_count = 2;
}

page-IsStorable : IsStorable page
page-IsStorable = record {
  id_fits = omega arith;
  type_fits = omega arith;
  flags_fit = omega arith;
  lsn_fits = omega arith;
  bytes_fit = length-zeros 4080;
}

deserialize-serialize_example :
    (length (serialize page) ≡ 4096)
    × (deserialize (new_page 0 0) (serialize page)
        ≡ ok (record page {
          is_dirty = (new_page 0 0).is_dirty;
          pin_count = (new_page 0 0).pin_count;
        }))
    × (deserialize (new_page 0 0) (1 ∷ 2 ∷ []) ≡ err invalid_page_size)
deserialize-serialize_example =
    deserialize-serialize page (new_page 0 0) (1 ∷ 2 ∷ []) page-IsStorable (omega arith)

abbrev list_page : Page
list_page = initialize_free_list_page (new_page 7 2)

-- Three pages were allocated, the pages 0 and 1 are on file, and none is free.
abbrev manager : DiskManager
manager = record {
  blocks = serialize (new_page 0 0) ∷ serialize (new_page 1 0) ∷ [];
  next_page_id = 4;
  free_page_list = new_free_page_list;
  total_reads = 0;
  total_writes = 2;
}

abbrev third : Page
third = record page { id = 3 }

manager-IsFree : IsFree [] manager
unfolding new_free_page_list
manager-IsFree = record { chain = refl; total = refl; next_fits = omega arith }

deallocate-Freed_example : Freed [] 2 manager (deallocate_page 2 manager)
deallocate-Freed_example =
    deallocate-Freed [] manager 2 manager-IsFree (omega arith) (omega arith) tt (omega arith)
      (unfold new_free_page_list in omega arith)

allocate-deallocate_example :
    ((deallocate_page 2 manager).1 ≡ ok tt)
    × ((allocate_page (deallocate_page 2 manager).0).1 ≡ ok 2)
    × (qs : List Page) × IsFree qs (allocate_page (deallocate_page 2 manager).0).0
    × (free_ids qs ≡ below [] manager)
allocate-deallocate_example =
    allocate-deallocate [] manager 2 manager-IsFree (omega arith) (omega arith) tt (omega arith)
      (unfold new_free_page_list in omega arith)

-- A list page with all its 1018 entries.
abbrev full : Page
full = record (new_page 3 2) { bytes = with_header 0 1018 (zeros 4080) }

full-IsFreeList : IsFreeList full
unfolding new_page
full-IsFreeList = record {
  kind = refl;
  size = length-with_header 0 1018 (zeros 4080) ∙ length-zeros 4080;
  next_fits = omega (arith, next-with_header 0 1018 (zeros 4080) (omega arith) (length-zeros 4080));
  within = omega (arith, count-with_header 0 1018 (zeros 4080) (omega arith) (length-zeros 4080));
}

full-count : count_of full ≡ 1018
full-count = count-with_header 0 1018 (zeros 4080) (omega arith) (length-zeros 4080)

abbrev full_manager : DiskManager
full_manager = record {
  blocks = write_block 3 (serialize full) [];
  next_page_id = 4;
  free_page_list = record { head_page_id = 3; page_count = 1018 };
  total_reads = 0;
  total_writes = 1;
}

full-IsFree : IsFree (full ∷ []) full_manager
unfolding new_page
full-IsFree = record {
  chain =
      Chain-put full [] [] (omega arith)
        (record {
          id_fits = omega arith;
          type_fits = omega arith;
          flags_fit = omega arith;
          lsn_fits = omega arith;
          bytes_fit = full-IsFreeList.size;
        })
        full-IsFreeList tt (next-with_header 0 1018 (zeros 4080) (omega arith) (length-zeros 4080));
  total = omega (arith, full-count);
  next_fits = omega arith;
}

allocate-free_ids_example :
    (qs : List Page) × (id : ℕ) × ((allocate_page full_manager).1 ≡ ok id)
    × IsFree qs (allocate_page full_manager).0
    × (free_ids (full ∷ []) ≡ free_ids qs ++ (id ∷ []))
    × ((allocate_page full_manager).0.next_page_id ≡ 4)
allocate-free_ids_example = allocate-free_ids (full ∷ []) full_manager full-IsFree (omega arith)

deallocate-zero_example :
    let r = deallocate_page 0 full_manager in
    (r.1 ≡ ok tt)
    × (1018 ≤ (stats r.0).free_pages)
    × (r.0.free_page_list.head_page_id ≡ 0)
    × ((allocate_page r.0).1 ≡ ok 4)
deallocate-zero_example = deallocate-zero full_manager full [] full-IsFree full-count (omega arith)

abbrev log_record : LogRecord
log_record = record {
  lsn = 0;
  record_type = 4;
  txn_id = 6;
  page_id = 2;
  contents = 10 ∷ 20 ∷ 30 ∷ [];
  prev_lsn = 1;
}

log_record-IsLoggable : IsLoggable log_record
log_record-IsLoggable = record {
  lsn_fits = omega arith;
  type_fits = omega arith;
  txn_fits = omega arith;
  page_fits = omega arith;
  prev_fits = omega arith;
  contents_fit = omega arith;
}

abbrev calls : List Call
calls = appends log_record ∷ reopens ∷ checkpoints ∷ []

calls-length : length (run calls (new_wal [])).0.file ≡ 69
unfolding run step checkpoint append new_wal serialize_record copy_at copy le_bytes zeros
calls-length = refl

replay-run_example :
    (replay (run calls (new_wal [])).0 ≡ ok (run calls (new_wal [])).1)
    × Rises 0 (run calls (new_wal [])).1 (run calls (new_wal [])).0.current_lsn
replay-run_example =
    replay-run calls (log_record-IsLoggable, (tt, (tt, tt))) (omega (arith, calls-length))

replay-torn_example :
    (replay (record { file = encode (log_record ∷ []) ++ (1 ∷ 2 ∷ []); current_lsn = 0 })
      ≡ ok (log_record ∷ []))
    × (replay (record {
      file = encode (log_record ∷ []) ++ take 34 (serialize_record log_record);
      current_lsn = 0;
    })
        ≡ err record_truncated)
replay-torn_example =
    replay-torn (log_record ∷ []) (1 ∷ 2 ∷ []) 34 log_record 0 (log_record-IsLoggable, tt)
      log_record-IsLoggable (omega arith) (omega arith) (omega arith)

replay-fuel_example : replay (new_wal (1 ∷ 2 ∷ [])) ≢ err out_of_fuel
replay-fuel_example = replay-fuel (new_wal (1 ∷ 2 ∷ []))
