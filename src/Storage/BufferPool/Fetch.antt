-- ===== src/Storage/BufferPool/Fetch.antt =====
-- pkg/storage/buffer_pool.go: FetchPage gives the page that the clients see.
use laura_db.Prelude.{ℕ, ◌+◌, ◌≡◌, ◌⊎◌, ◌∷◌, true, none, some, arith, ℕ_discrete}
use laura_db.Prelude.Assoc.{get, put, has}
use laura_db.Recency.{remove}
use laura_db.Recency.Linked.{Linked}
use laura_db.Storage.Page.{Page, Result, ok, err, pin, no_unpinned_page}
use laura_db.Storage.DiskManager.{DiskManager}
use laura_db.Storage.DiskManager.Blocks.{stored, InFile}
use laura_db.Storage.BufferPool.{BufferPool, make_room, fetch_miss, fetch_page}
use laura_db.Storage.BufferPool.View.{view}

-- The outcome as it is seen, without the dirty flag and the pins.
unfoldable pub seen : Result Page → Result Page
seen (ok p) = ok (stored p)
seen (err e) = err e

-- A pool with room for a page, which looks like the pool before.
abbrev Room : BufferPool → BufferPool × Result (Unit {0}) → Type 0
Room bp r =
    (r.1 ≡ err no_unpinned_page)
    ⊎ ((r.1 ≡ ok tt)
        × ((k : ℕ) → get ℕ_discrete k bp.pages ≡ none → get ℕ_discrete k r.0.pages ≡ none)
        × ((k : ℕ)
            → (has ℕ_discrete k bp.pages ≡ true) ⊎ InFile k bp.disk
            → view k r.0 ≡ view k bp))

pub fetch_page-miss :
    (id : ℕ) (bp : BufferPool)
    → get ℕ_discrete id bp.pages ≡ none
    → fetch_page id bp ≡ fetch_miss id (make_room (record bp { misses = bp.misses + 1 }))
unfolding fetch_page
fetch_page-miss id bp g = ground (arith, g)

pub fetch_page-hit :
    (id : ℕ) (bp : BufferPool) (p : Page)
    → get ℕ_discrete id bp.pages ≡ some p
    → fetch_page id bp ≡ (
      record bp {
        pages = put ℕ_discrete id (pin p) bp.pages;
        lru_list = id ∷ remove ℕ_discrete id bp.lru_list;
        hits = bp.hits + 1;
      },
      ok (pin p),
    )
unfolding fetch_page
fetch_page-hit id bp p g = ground (arith, g)
