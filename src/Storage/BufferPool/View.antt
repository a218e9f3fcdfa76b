-- ===== src/Storage/BufferPool/View.antt =====
-- pkg/storage/buffer_pool.go: an eviction loses nothing.
use laura_db.Prelude.{ℕ, ◌≡◌, ◌⊎◌, List, true, Option, none, some, arith, ℕ_discrete}
use laura_db.Prelude.Assoc.{Assoc, get}
use laura_db.Recency.Linked.{Linked}
use laura_db.Storage.Page.{is_pinned, Page, Result, ok, serialize}
use laura_db.Storage.Page.RoundTrip.{IsStorable}
use laura_db.Storage.DiskManager.{DiskManager, block_at, read_page, decode_block}
use laura_db.Storage.DiskManager.Blocks.{stored}
use laura_db.Storage.BufferPool.{BufferPool}

-- Each page of the pool has the identifier it is kept under and fits the layout on disk, and it is
-- dirty, or in use by a client, or the one on disk.
abbrev pub Backing : ℕ → Page → DiskManager → Type 0
Backing k p disk =
    (p.id ≡ k)
    × IsStorable p
    × ((p.is_dirty ≡ true) ⊎ ((is_pinned p ≡ true) ⊎ (block_at k disk.blocks ≡ some (serialize p))))

abbrev pub Backed : Assoc ℕ Page → DiskManager → Type 0
Backed pages disk = (k : ℕ) (p : Page) → get ℕ_discrete k pages ≡ some p → Backing k p disk

-- What a client sees under an identifier: the page of the pool, or else the page of the disk.
unfoldable pub seen_page : Option Page → Result Page → Result Page
seen_page (some p) r = ok (stored p)
seen_page none r = r

abbrev pub view : ℕ → BufferPool → Result Page
view k bp = seen_page (get ℕ_discrete k bp.pages) (read_page k bp.disk).1

-- Reading depends on the block alone.
pub read_page-same :
    (k : ℕ) (d d' : DiskManager) (b : List ℕ)
    → block_at k d.blocks ≡ some b
    → block_at k d'.blocks ≡ some b
    → (read_page k d').1 ≡ (read_page k d).1
unfolding read_page decode_block
read_page-same k d d' b h h' = rw (h, h') (ground arith)
