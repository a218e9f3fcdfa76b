-- ===== src/Storage/BufferPool.antt =====
-- pkg/storage/buffer_pool.go: the pages in memory. A frame is its page; the pages are keyed by the
-- identifier they were fetched with, and the list of the pool is the list of these identifiers. A
-- client writes to a page it holds between the calls, which is `modify`. FetchPage checks again
-- under the write lock whatever it has seen under the read lock, so that it is one atomic step. The
-- disk manager is the one of disk_manager.go.
pub mod Eviction
pub mod View
pub mod Fetch
pub mod Update
pub mod Capacity
pub mod Flush
mod Tests
use laura_db.Prelude.{
  ℕ, ◌+◌, List, [], ◌∷◌, Bool, true, false, Option, none, some, not, length, leb, if◌then◌else◌,
  ℕ_discrete,
}
use laura_db.Prelude.Assoc.{Assoc, get, put, delete}
use laura_db.Recency.{remove}
use laura_db.Storage.Page.{
  Page, Result, ok, err, not_in_buffer_pool, no_unpinned_page, page_is_pinned, new_page, pin, unpin,
  is_pinned, mark_dirty, page_type_data,
}
use laura_db.Storage.DiskManager.{
  DiskManager, read_page, write_page, allocate_page, deallocate_page,
}

-- The counters, of type int, are not negative and do not wrap.
pub record BufferPool : Type 0 where
  pub capacity : ℕ
  pub pages : Assoc ℕ Page
  pub lru_list : List ℕ
  pub disk : DiskManager
  pub evictions : ℕ
  pub hits : ℕ
  pub misses : ℕ

unfoldable pub new_buffer_pool : ℕ → DiskManager → BufferPool
new_buffer_pool capacity disk = record {
  capacity = capacity;
  pages = [];
  lru_list = [];
  disk = disk;
  evictions = 0;
  hits = 0;
  misses = 0;
}

-- The page of an identifier in the pool is not pinned.
unfoldable pub unpinned : Assoc ℕ Page → ℕ → Bool
unfolding get is_pinned ℕ_discrete
unpinned pages id = elim (get ℕ_discrete id pages) [ none ↦ false | some p ↦ not (is_pinned p) ]

-- The loop of evictPage, from the back of the list: the last identifier whose page is not pinned.
unfoldable pub victim : Assoc ℕ Page → List ℕ → Option ℕ
unfolding unpinned
victim pages [] = none
victim pages (id ∷ l) = elim (victim pages l) [
  | some v ↦ some v
  | none ↦ if unpinned pages id then some id else none
]

-- A dirty page is written to disk.
unfoldable pub flush_if_dirty : Option Page → DiskManager → DiskManager
flush_if_dirty none disk = disk
flush_if_dirty (some p) disk = if p.is_dirty then write_page p disk else disk

unfoldable pub evict : ℕ → BufferPool → BufferPool
unfolding flush_if_dirty get delete remove ℕ_discrete
evict id bp = record bp {
  disk = flush_if_dirty (get ℕ_discrete id bp.pages) bp.disk;
  pages = delete ℕ_discrete id bp.pages;
  lru_list = remove ℕ_discrete id bp.lru_list;
  evictions = bp.evictions + 1;
}

unfoldable pub evict_page : BufferPool → BufferPool × Result (Unit {0})
unfolding victim evict
evict_page bp = elim (victim bp.pages bp.lru_list) [
  | none ↦ (bp, err no_unpinned_page)
  | some id ↦ (evict id bp, ok tt)
]

-- `if len(bp.pages) >= bp.capacity { … evictPage … }`
unfoldable pub make_room : BufferPool → BufferPool × Result (Unit {0})
unfolding evict_page
make_room bp = if leb bp.capacity (length bp.pages) then evict_page bp else (bp, ok tt)

-- A page that is not in the pool is added at the front, pinned.
unfoldable pub add_page : ℕ → Page → BufferPool → BufferPool
unfolding put ℕ_discrete
add_page id p bp = record bp {
  pages = put ℕ_discrete id (pin p) bp.pages;
  lru_list = id ∷ bp.lru_list;
}

-- FetchPage after the eviction and after the read.
unfoldable pub fetch_read : ℕ → BufferPool → DiskManager × Result Page → BufferPool × Result Page
unfolding add_page
fetch_read id bp (disk, err e) = (record bp { disk = disk }, err e)
fetch_read id bp (disk, ok p) = (add_page id p (record bp { disk = disk }), ok (pin p))

unfoldable pub fetch_miss : ℕ → BufferPool × Result (Unit {0}) → BufferPool × Result Page
unfolding fetch_read
fetch_miss id (bp, err e) = (bp, err e)
fetch_miss id (bp, ok u) = fetch_read id bp (read_page id bp.disk)

unfoldable pub fetch_page : ℕ → BufferPool → BufferPool × Result Page
unfolding get put remove ℕ_discrete make_room fetch_miss
fetch_page id bp = elim (get ℕ_discrete id bp.pages) [
  | some p ↦ (
    record bp {
      pages = put ℕ_discrete id (pin p) bp.pages;
      lru_list = id ∷ remove ℕ_discrete id bp.lru_list;
      hits = bp.hits + 1;
    },
    ok (pin p),
  )
  | none ↦ fetch_miss id (make_room (record bp { misses = bp.misses + 1 }))
]

unfoldable pub create_allocated : BufferPool → DiskManager × Result ℕ → BufferPool × Result Page
unfolding add_page
create_allocated bp (disk, err e) = (record bp { disk = disk }, err e)
create_allocated bp (disk, ok id) =
    let p = mark_dirty (new_page id page_type_data) in
    (add_page id p (record bp { disk = disk }), ok (pin p))

unfoldable pub create_room : BufferPool × Result (Unit {0}) → BufferPool × Result Page
unfolding create_allocated
create_room (bp, err e) = (bp, err e)
create_room (bp, ok u) = create_allocated bp (allocate_page bp.disk)

-- NewPage of the pool.
unfoldable pub create_page : BufferPool → BufferPool × Result Page
unfolding make_room create_room
create_page bp = create_room (make_room bp)

unfoldable pub unpin_page : ℕ → Bool → BufferPool → BufferPool × Result (Unit {0})
unfolding get put ℕ_discrete
unpin_page id is_dirty bp = elim (get ℕ_discrete id bp.pages) [
  | none ↦ (bp, err not_in_buffer_pool)
  | some p ↦
      let q = unpin p in
      let q' = if is_dirty then mark_dirty q else q in
      (record bp { pages = put ℕ_discrete id q' bp.pages }, ok tt)
]

-- What a client does to the contents of a page that it has fetched.
unfoldable pub modify : ℕ → (List ℕ → List ℕ) → BufferPool → BufferPool
unfolding get put ℕ_discrete
modify id f bp = elim (get ℕ_discrete id bp.pages) [
  | none ↦ bp
  | some p ↦ record bp { pages = put ℕ_discrete id (record p { bytes = f p.bytes }) bp.pages }
]

unfoldable pub flush_page : ℕ → BufferPool → BufferPool × Result (Unit {0})
unfolding get put ℕ_discrete
flush_page id bp = elim (get ℕ_discrete id bp.pages) [
  | none ↦ (bp, err not_in_buffer_pool)
  | some p ↦
      if p.is_dirty
      then (
        record bp {
          disk = write_page p bp.disk;
          pages = put ℕ_discrete id (record p { is_dirty = false }) bp.pages;
        },
        ok tt,
      )
      else (bp, ok tt)
]

-- The loop of FlushAllPages over the identifiers of the map.
unfoldable pub flush_pages : List (ℕ × Page) → BufferPool → BufferPool
unfolding flush_page
flush_pages [] bp = bp
flush_pages ((id, p) ∷ rest) bp = flush_pages rest (flush_page id bp).0

unfoldable pub flush_all_pages : BufferPool → BufferPool
unfolding flush_pages
flush_all_pages bp = flush_pages bp.pages bp

-- `return bp.diskMgr.DeallocatePage(pageID)`
unfoldable pub free_on_disk : ℕ → BufferPool → BufferPool × Result (Unit {0})
free_on_disk id bp = let (disk, r) = deallocate_page id bp.disk in (record bp { disk = disk }, r)

unfoldable pub delete_page : ℕ → BufferPool → BufferPool × Result (Unit {0})
unfolding get delete remove ℕ_discrete free_on_disk
delete_page id bp = elim (get ℕ_discrete id bp.pages) [
  | none ↦ free_on_disk id bp
  | some p ↦
      if is_pinned p
      then (bp, err page_is_pinned)
      else free_on_disk id (record bp {
        pages = delete ℕ_discrete id bp.pages;
        lru_list = remove ℕ_discrete id bp.lru_list;
      })
]
