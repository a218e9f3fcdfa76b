-- ===== src/Storage/DiskManager.antt =====
-- pkg/storage/disk_manager.go: the data file and the pages in it. The file is the list of its
-- blocks of 4096 bytes, which is all that WritePage ever writes; a write behind the end fills the
-- gap with zeros, as the operating system does. The calls of the file do not fail. An operation
-- returns the new manager and its result; the mutex makes each one atomic.
pub mod Blocks
pub mod FreeList
pub mod Reuse
pub mod Lifo
use laura_db.Prelude.{
  ℕ, zero, suc, ◌+◌, ◌-◌, ◌%◌, List, [], ◌∷◌, Bool, true, false, Option, none, some, length, ltb,
  leb, ◌==◌, not, if◌then◌else◌, ◌||◌,
}
use laura_db.Storage.Bytes.{zeros, byte_range}
use laura_db.Storage.Page.{
  Page, Result, ok, err, invalid_page_id, new_page, serialize, deserialize, page_size,
  page_type_data, page_type_free_list,
}
use laura_db.Storage.FreePage.{
  FreePageList, FreePageHeader, new_free_page_list, serialize_free_page_header,
  deserialize_free_page_header, add_free_page_to_list, remove_free_page_from_list,
  initialize_free_list_page,
}

-- The block at an index, if the file is long enough.
unfoldable pub block_at : ℕ → List (List ℕ) → Option (List ℕ)
block_at i [] = none
block_at zero (b ∷ bs) = some b
block_at (suc i) (b ∷ bs) = block_at i bs

unfoldable pub write_block : ℕ → List ℕ → List (List ℕ) → List (List ℕ)
write_block zero b [] = b ∷ []
write_block zero b (c ∷ bs) = b ∷ bs
write_block (suc i) b [] = zeros page_size ∷ write_block i b []
write_block (suc i) b (c ∷ bs) = c ∷ write_block i b bs

-- The counters are kept modulo 2 ^ 64, the page identifiers and the page count modulo 2 ^ 32.
pub record DiskManager : Type 0 where
  pub blocks : List (List ℕ)
  pub next_page_id : ℕ
  pub free_page_list : FreePageList
  pub total_reads : ℕ
  pub total_writes : ℕ

-- loadFreePageList starts with an empty list.
unfoldable pub load_free_page_list : DiskManager → DiskManager
load_free_page_list dm = record dm { free_page_list = new_free_page_list }

unfoldable pub new_disk_manager : List (List ℕ) → DiskManager
new_disk_manager blocks =
    let dm : DiskManager = record {
      blocks = blocks;
      next_page_id = length blocks % byte_range 4;
      free_page_list = new_free_page_list;
      total_reads = 0;
      total_writes = 0;
    } in
    if ltb 0 dm.next_page_id then load_free_page_list dm else dm

-- The rest of readPageInternal after the block has been read.
unfoldable pub decode_block : ℕ → DiskManager → Option (List ℕ) → DiskManager × Result Page
decode_block id dm none = (dm, ok (new_page id page_type_data))
decode_block id dm (some b) = elim (deserialize (new_page id page_type_data) b) [
  | err e ↦ (dm, err e)
  | ok p ↦ (record dm { total_reads = (dm.total_reads + 1) % byte_range 8 }, ok p)
]

unfoldable pub read_page : ℕ → DiskManager → DiskManager × Result Page
read_page id dm = decode_block id dm (block_at id dm.blocks)

unfoldable pub write_page : Page → DiskManager → DiskManager
write_page p dm = record dm {
  blocks = write_block p.id (serialize p) dm.blocks;
  total_writes = (dm.total_writes + 1) % byte_range 8;
}

abbrev pub with_head : ℕ → FreePageList → FreePageList
with_head id l = record l { head_page_id = id }

abbrev pub with_count : ℕ → FreePageList → FreePageList
with_count n l = record l { page_count = n }

-- pushFreePage with no head page: a new page becomes the list, with the one entry.
unfoldable pub first_added : ℕ → DiskManager → Page × Result Bool → DiskManager × Result (Unit {0})
first_added list_id dm (page, err e) = (dm, err e)
first_added list_id dm (page, ok added) = (
  record (write_page page dm) {
    free_page_list = record { head_page_id = list_id; page_count = 1 };
  },
  ok tt,
)

unfoldable pub push_first : ℕ → DiskManager → DiskManager × Result (Unit {0})
push_first id dm =
    let list_id = dm.next_page_id in
    let dm = record dm { next_page_id = (dm.next_page_id + 1) % byte_range 4 } in
    let page = initialize_free_list_page (new_page list_id page_type_free_list) in
    first_added list_id dm (add_free_page_to_list page id)

-- pushFreePage at a full head page: the freed page itself becomes the new head, with no entry.
unfoldable pub push_head : ℕ → DiskManager → DiskManager
push_head id dm =
    let page = initialize_free_list_page (new_page id page_type_free_list) in
    let page =
      serialize_free_page_header page
        (record { next_free_list_page = dm.free_page_list.head_page_id; entry_count = 0 }) in
    record (write_page page dm) { free_page_list = with_head id dm.free_page_list }

-- pushFreePage after the head page has been read, and after the entry has been tried.
unfoldable pub push_added : ℕ → DiskManager → Page × Result Bool → DiskManager × Result (Unit {0})
push_added id dm (page, err e) = (dm, err e)
push_added id dm (page, ok true) =
    let dm = write_page page dm in
    let count = (dm.free_page_list.page_count + 1) % byte_range 4 in
    (record dm { free_page_list = with_count count dm.free_page_list }, ok tt)
push_added id dm (page, ok false) = (push_head id dm, ok tt)

unfoldable pub push_read : ℕ → DiskManager × Result Page → DiskManager × Result (Unit {0})
push_read id (dm, err e) = (dm, err e)
push_read id (dm, ok page) = push_added id dm (add_free_page_to_list page id)

unfoldable pub push_free_page : ℕ → DiskManager → DiskManager × Result (Unit {0})
push_free_page id dm =
    if dm.free_page_list.head_page_id == 0
    then push_first id dm
    else push_read id (read_page dm.free_page_list.head_page_id dm)

-- popFreePage after the head page has been read, and after the last entry has been tried. A head
-- page without an entry is itself the page to reuse.
unfoldable pub pop_removed :
    DiskManager → Page × Result (ℕ × Bool) → DiskManager × Result (ℕ × Bool)
pop_removed dm (page, err e) = (dm, err e)
pop_removed dm (page, ok (id, false)) = elim (deserialize_free_page_header page) [
  | err e ↦ (dm, err e)
  | ok header ↦ (
    record dm { free_page_list = with_head header.next_free_list_page dm.free_page_list },
    ok (dm.free_page_list.head_page_id, true),
  )
]
pop_removed dm (page, ok (id, true)) =
    let dm = write_page page dm in
    (
      record dm {
        free_page_list = with_count (dm.free_page_list.page_count - 1) dm.free_page_list;
      },
      ok (id, true),
    )

unfoldable pub pop_read : DiskManager × Result Page → DiskManager × Result (ℕ × Bool)
pop_read (dm, err e) = (dm, err e)
pop_read (dm, ok page) = pop_removed dm (remove_free_page_from_list page)

unfoldable pub pop_free_page : DiskManager → DiskManager × Result (ℕ × Bool)
pop_free_page dm =
    if dm.free_page_list.head_page_id == 0 || dm.free_page_list.page_count == 0
    then (dm, ok (0, false))
    else pop_read (read_page dm.free_page_list.head_page_id dm)

unfoldable pub allocate_new : DiskManager → DiskManager × Result ℕ
allocate_new dm =
    (record dm { next_page_id = (dm.next_page_id + 1) % byte_range 4 }, ok dm.next_page_id)

-- The rest of AllocatePage after popFreePage.
unfoldable pub allocate_popped : DiskManager × Result (ℕ × Bool) → DiskManager × Result ℕ
allocate_popped (dm, err e) = (dm, err e)
allocate_popped (dm, ok (id, true)) = (dm, ok id)
allocate_popped (dm, ok (id, false)) = allocate_new dm

unfoldable pub allocate_page : DiskManager → DiskManager × Result ℕ
allocate_page dm =
    if ltb 0 dm.free_page_list.page_count
    then allocate_popped (pop_free_page dm)
    else if not (dm.free_page_list.head_page_id == 0)
    then allocate_popped (pop_free_page dm)
    else allocate_new dm

unfoldable pub deallocate_page : ℕ → DiskManager → DiskManager × Result (Unit {0})
deallocate_page id dm =
    if leb dm.next_page_id id then (dm, err invalid_page_id) else push_free_page id dm

pub record Stats : Type 0 where
  pub next_page_id : ℕ
  pub free_pages : ℕ
  pub total_reads : ℕ
  pub total_writes : ℕ

unfoldable pub stats : DiskManager → Stats
stats dm = record {
  next_page_id = dm.next_page_id;
  free_pages = dm.free_page_list.page_count;
  total_reads = dm.total_reads;
  total_writes = dm.total_writes;
}
