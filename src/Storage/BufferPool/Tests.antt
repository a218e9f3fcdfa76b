-- ===== src/Storage/BufferPool/Tests.antt =====
-- Tests of pkg/storage/buffer_pool.go: a pool of one page, which is dirty and has to leave.
use laura_db.Prelude.{false, true, List, ℕ, [], ◌∷◌, true}
use laura_db.Recency.Linked.{Linked}
use laura_db.Storage.Bytes.{zeros, copy_at}
use laura_db.Storage.Page.{Page, new_page, serialize}
use laura_db.Storage.FreePage.{new_free_page_list}
use laura_db.Storage.BufferPool.{BufferPool}

abbrev dirty : Page
dirty = record {
  id = 3;
  page_type = 0;
  flags = 7;
  lsn = 9;
  bytes = zeros 4080;
  is_dirty = true;
  pin_count = 0;
}

-- The pages 0 and 1 are on disk.
abbrev pool : BufferPool
pool = record {
  capacity = 1;
  pages = (3, dirty) ∷ [];
  lru_list = 3 ∷ [];
  disk = record {
    blocks = serialize (new_page 0 0) ∷ serialize (new_page 1 0) ∷ [];
    next_page_id = 4;
    free_page_list = new_free_page_list;
    total_reads = 0;
    total_writes = 2;
  };
  evictions = 0;
  hits = 0;
  misses = 1;
}

-- The page is in use by a client.
abbrev held : BufferPool
held = record pool { pages = (3, record dirty { is_dirty = false; pin_count = 1 }) ∷ [] }

abbrev held_page : Page
held_page = record dirty { is_dirty = false; pin_count = 1 }

-- The client sets the first byte.
abbrev change : List ℕ → List ℕ
change b = copy_at 0 (5 ∷ []) b
